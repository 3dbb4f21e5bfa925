-- ===== src/Sessions/Store/Agreement.antt =====
-- When a session store of src/sessions.rs and a ledger of its sessions agree, and what keeps it so.
use lfs_cloud.Prelude.{
  ℕ, ◌≤◌, ◌≡◌, refl, sym, ◌∙◌, ap, inl, inr, false, Option, none, some, Bool-cases, arith,
}
use lfs_cloud.Prelude.Map.{Map, get, remove, insert}
use lfs_cloud.Prelude.Map.Laws.{get-remove, get-insert}
use lfs_cloud.Prelude.Map.Unique.{
  filter, IsMap, retain-IsMap, get-retain, remove-IsMap, insert-IsMap,
}
use lfs_cloud.Sessions.Admission.{LfsSessionRecord, is_active}
use lfs_cloud.Sessions.TokenKey.{LfsSessionTokenKey, token_key, key_eq, key_eq_iff}
use lfs_cloud.Sessions.Store.{prune_expired_sessions}

-- The sessions that clients have been issued and have not revoked, expired or not.
abbrev pub Ledger : Type 0
Ledger = Map LfsSessionTokenKey LfsSessionRecord

abbrev pub Sessions : Type 0
Sessions = Map LfsSessionTokenKey LfsSessionRecord

active_later :
    (now t : ℕ) (o : Option LfsSessionRecord)
    → now ≤ t
    → filter (is_active t) (filter (is_active now) o) ≡ filter (is_active t) o
active_later now t none h = refl
active_later now t (some r) h = ground arith

-- Both have the same sessions that are active at that time or later.
pub record Agrees (now : ℕ) (sessions : Sessions) (ledger : Ledger) : Type 0 where
  pub distinct : IsMap sessions
  pub same :
      (key : LfsSessionTokenKey) (t : ℕ)
      → now ≤ t
      → filter (is_active t) (get key sessions) ≡ filter (is_active t) (get key ledger)

pub later-Agrees :
    (now t : ℕ) (sessions : Sessions) (ledger : Ledger)
    → now ≤ t
    → Agrees now sessions ledger
    → Agrees t sessions ledger
later-Agrees now t sessions ledger h a = record {
  distinct = a.distinct;
  same = λ key u k. a.same key u (omega arith);
}

pub prune-Agrees :
    (now : ℕ) (sessions : Sessions) (ledger : Ledger)
    → Agrees now sessions ledger
    → Agrees now (prune_expired_sessions now sessions) ledger
unfolding prune_expired_sessions
prune-Agrees now sessions ledger a = record {
  distinct = retain-IsMap (is_active now) sessions a.distinct;
  same = λ key t h.
      ap (filter (is_active t)) (get-retain (is_active now) key sessions a.distinct)
      ∙ active_later now t (get key sessions) h
      ∙ a.same key t h;
}

pub insert-Agrees :
    (now : ℕ) (key : LfsSessionTokenKey) (r : LfsSessionRecord) (sessions : Sessions)
    (ledger : Ledger)
    → Agrees now sessions ledger
    → Agrees now (insert key r sessions) (insert key r ledger)
insert-Agrees now key r sessions ledger a = record {
  distinct = insert-IsMap key r sessions a.distinct;
  same = λ k t h.
      rw (get-insert key k r sessions, get-insert key k r ledger)
        (elim (Bool-cases (key_eq k key)) [ inl e ↦ rw e refl | inr e ↦ rw e (a.same k t h) ]);
}

pub remove-Agrees :
    (now : ℕ) (key : LfsSessionTokenKey) (sessions : Sessions) (ledger : Ledger)
    → Agrees now sessions ledger
    → Agrees now (remove key sessions) (remove key ledger)
remove-Agrees now key sessions ledger a = record {
  distinct = remove-IsMap key sessions a.distinct;
  same = λ k t h.
      rw (get-remove key k sessions, get-remove key k ledger)
        (elim (Bool-cases (key_eq k key)) [ inl e ↦ rw e refl | inr e ↦ rw e (a.same k t h) ]);
}

-- An expired session may go.
pub expire-Agrees :
    (now : ℕ) (key : LfsSessionTokenKey) (r : LfsSessionRecord) (sessions : Sessions)
    (ledger : Ledger)
    → get key sessions ≡ some r
    → is_active now r ≡ false
    → Agrees now sessions ledger
    → Agrees now (remove key sessions) ledger
expire-Agrees now key r sessions ledger found expired a = record {
  distinct = remove-IsMap key sessions a.distinct;
  same = λ k t h. elim (Bool-cases (key_eq k key)) [
    | inl e ↦
        let k_is : k ≡ key = (key_eq_iff k key).0 e in
        let before = a.same k t h in
        let gone : filter (is_active t) (some r) ≡ none = ground arith in
        let found_k : get k sessions ≡ some r = rw k_is found in
        rw (get-remove key k sessions, e)
          (sym gone ∙ ap (filter (is_active t)) (sym found_k) ∙ before)
    | inr e ↦ rw (get-remove key k sessions, e) (a.same k t h)
  ];
}
