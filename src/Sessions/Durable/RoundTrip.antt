-- ===== src/Sessions/Durable/RoundTrip.antt =====
-- What src/sessions.rs reads back of the rows that it writes.
use lfs_cloud.Prelude.{
  ℕ, ◌*◌, ◌/◌, ◌<◌, ◌≡◌, refl, true, Option, none, some, List, length, all, ltb, ok, ok_or,
  bind-eq-ok, ok_or-eq-ok, ok-injective, lt→ltb, arith,
}
use lfs_cloud.Prelude.Text.{Text}
use lfs_cloud.Prelude.Utf8.{is_scalar, as_bytes, from_utf8-as_bytes}
use lfs_cloud.GitHubAuth.{GitHubPersonalAccessToken, github_pat_from_secret}
use lfs_cloud.Sessions.{LfsSessionMetadata}
use lfs_cloud.Sessions.Clock.{
  nanos_per_second, i64_bound, unix_timestamp_seconds, unix_timestamp_seconds_i64,
}
use lfs_cloud.Sessions.Admission.{LfsSessionRecord}
use lfs_cloud.Sessions.TokenKey.{LfsSessionTokenKey}
use lfs_cloud.Sessions.TokenKey.RoundTrip.{IsDigest, from_hex-to_hex}
use lfs_cloud.Sessions.Durable.{
  pos, MetadataSessionRecord, SessionCodec, session_associated_data, encrypt, decrypt,
  protected_token, stored_session, system_time_from_unix_seconds, restored_token, restore_session,
}

-- What the code relies on of AES-GCM and of JSON.
pub record IsFaithful (codec : SessionCodec) : Type 0 where
  pub unseal-seal :
      (nonce associated text sealed : List ℕ)
      → codec.seal nonce associated text ≡ some sealed
      → codec.unseal nonce associated sealed ≡ some text
  pub scopes_from-to :
      (scopes : List Text) (json : Text)
      → codec.scopes_to_json scopes ≡ some json
      → codec.scopes_from_json json ≡ some scopes

-- Twelve bytes, if the system gives any.
abbrev pub IsNonce : Option (List ℕ) → Type 0
IsNonce none = Unit
IsNonce (some nonce) = length nonce ≡ 12

-- A token that `from_secret` gave, a text.
abbrev pub IsToken : Option GitHubPersonalAccessToken → Type 0
IsToken none = Unit
IsToken (some token) =
    (all is_scalar token.secret ≡ true) × (github_pat_from_secret token.secret ≡ ok token)

abbrev pub whole_seconds : ℕ → ℕ
whole_seconds time = time / nanos_per_second * nanos_per_second

abbrev pub whole_metadata : LfsSessionMetadata → LfsSessionMetadata
whole_metadata m = record m {
  issued_at = whole_seconds m.issued_at;
  expires_at = whole_seconds m.expires_at;
}

-- The times of a session in the database are whole seconds.
abbrev pub whole : LfsSessionRecord → LfsSessionRecord
whole r = record r { metadata = whole_metadata r.metadata }

whole_seconds-seconds :
    (t : ℕ) → unix_timestamp_seconds_i64 (whole_seconds t) ≡ unix_timestamp_seconds_i64 t
unfolding unix_timestamp_seconds_i64 unix_timestamp_seconds
whole_seconds-seconds t =
    let same : t / 1_000_000_000 * 1_000_000_000 / 1_000_000_000 ≡ t / 1_000_000_000 =
      omega arith in
    rw same

seconds_i64-ok :
    (t s : ℕ) → unix_timestamp_seconds_i64 t ≡ ok s → (s ≡ t / nanos_per_second) × (s < i64_bound)
unfolding unix_timestamp_seconds_i64 unix_timestamp_seconds
seconds_i64-ok t s h = ground arith

module _ (codec : SessionCodec) (faithful : IsFaithful codec) where
  associated_data-whole :
      (key : LfsSessionTokenKey) (m : LfsSessionMetadata)
      → session_associated_data codec key (whole_metadata m) ≡ session_associated_data codec key m
  unfolding session_associated_data
  associated_data-whole key m =
      rw (whole_seconds-seconds m.issued_at, whole_seconds-seconds m.expires_at) refl

  decrypt-encrypt :
      (random : Option (List ℕ)) (key : LfsSessionTokenKey) (m : LfsSessionMetadata)
      (token : GitHubPersonalAccessToken) (ciphertext nonce : List ℕ)
      → IsNonce random
      → IsToken (some token)
      → encrypt codec random key m token ≡ ok (ciphertext, nonce)
      → decrypt codec key (whole_metadata m) ciphertext nonce ≡ ok token
  unfolding encrypt decrypt
  decrypt-encrypt none key m token ciphertext nonce size (text, valid) h = cc
  decrypt-encrypt (some random) key m token ciphertext nonce size (text, valid) h =
      let (associated, a, g) = bind-eq-ok (session_associated_data codec key m) _ h in
      let (sealed, s, e) =
        bind-eq-ok (ok_or (codec.seal random associated (as_bytes token.secret)) _) _ g in
      let opened =
        faithful.unseal-seal random associated (as_bytes token.secret) sealed (ok_or-eq-ok _ _ s) in
      let same_text : sealed ≡ ciphertext = cc in
      let same_nonce : random ≡ nonce = cc in
      rw
        (
          ← same_text,
          ← same_nonce,
          associated_data-whole key m,
          a,
          opened,
          size,
          from_utf8-as_bytes token.secret text,
          valid,
        )
        refl

  restored-protected :
      (random : Option (List ℕ)) (key : LfsSessionTokenKey) (m : LfsSessionMetadata)
      (token : Option GitHubPersonalAccessToken) (ciphertext nonce : Option (List ℕ))
      → IsNonce random
      → IsToken token
      → protected_token codec random key m token ≡ ok (ciphertext, nonce)
      → restored_token codec key (whole_metadata m) ciphertext nonce ≡ ok token
  restored-protected random key m none ciphertext nonce size valid h =
      let same_text : none ≡ ciphertext = cc in
      let same_nonce : none ≡ nonce = cc in rw (← same_text, ← same_nonce) refl
  restored-protected random key m (some token) ciphertext nonce size valid h =
      let ((c, n), e, g) = bind-eq-ok (encrypt codec random key m token) _ h in
      let same_text : some c ≡ ciphertext = cc in
      let same_nonce : some n ≡ nonce = cc in
      rw (← same_text, ← same_nonce, decrypt-encrypt random key m token c n size valid e) refl

  restored_time :
      (t s : ℕ)
      → unix_timestamp_seconds_i64 t ≡ ok s
      → system_time_from_unix_seconds codec (pos s) ≡ ok (whole_seconds t)
  unfolding system_time_from_unix_seconds
  restored_time t s h = let (e, b) = seconds_i64-ok t s h in ground (arith, e, b)

  -- A session that is written to the database is restored with its token, and with its times in whole
  -- seconds, if it lasts into a later second than that of its issue.
  pub restore_session-stored_session :
      (random : Option (List ℕ)) (key : LfsSessionTokenKey) (r : LfsSessionRecord)
      (row : MetadataSessionRecord)
      → IsDigest key
      → IsNonce random
      → IsToken r.github_personal_access_token
      → whole_seconds r.metadata.issued_at < whole_seconds r.metadata.expires_at
      → stored_session codec random key r ≡ ok row
      → restore_session codec row ≡ ok (key, whole r)
  unfolding stored_session restore_session
  restore_session-stored_session random key r row digest size valid lasts h =
      let ((c, n), e0, h1) =
        bind-eq-ok (protected_token codec random key r.metadata r.github_personal_access_token) _
          h in
      let (json, e1, h2) =
        bind-eq-ok (ok_or (codec.scopes_to_json r.metadata.granted_scopes) _) _ h1 in
      let (i, e2, h3) = bind-eq-ok (unix_timestamp_seconds_i64 r.metadata.issued_at) _ h2 in
      let (e, e3, h4) = bind-eq-ok (unix_timestamp_seconds_i64 r.metadata.expires_at) _ h3 in
      let lasts' : ltb (whole_seconds r.metadata.issued_at) (whole_seconds r.metadata.expires_at)
          ≡ true =
        lt→ltb _ _ lasts in
      rw
        (
          ← ok-injective h4,
          from_hex-to_hex key digest,
          faithful.scopes_from-to r.metadata.granted_scopes json (ok_or-eq-ok _ _ e1),
          restored_time r.metadata.issued_at i e2,
          restored_time r.metadata.expires_at e e3,
          lasts',
          restored-protected random key r.metadata r.github_personal_access_token c n size valid e0,
        )
        refl
