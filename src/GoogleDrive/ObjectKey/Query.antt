-- ===== src/GoogleDrive/ObjectKey/Query.antt =====
-- How Drive reads the query that src/google_drive/object_key.rs builds.
use lfs_cloud.Prelude.{
  ℕ, ◌≡◌, refl, sym, ap, ◌∙◌, Bool, true, not, [], ◌∷◌, ◌++◌, List, map, all, ◌==◌, if◌then◌else◌,
  append_assoc, append-nil, arith,
}
use lfs_cloud.Prelude.Text.{Text, codes}
use lfs_cloud.GoogleDrive.ObjectKey.{
  GoogleDriveObjectKey, file_name, escape_drive_query_string, property_clause, push_properties,
  drive_object_lookup_query,
}

-- A query is single characters and string literals.
pub data Token : Type 0 where
  word : ℕ → Token
  literal : Text → Token

pub data Scan : Type 0 where
  outside : Scan
  inside escaped : Text → Scan

-- A quote ends a literal, and a backslash takes the next character as it is.
abbrev pub scan : Scan → ℕ → List Token × Scan
scan outside c = if c == 0x27 then ([], inside []) else (word c ∷ [], outside)
scan (inside a) c =
    if c == 0x27
    then (literal a ∷ [], outside)
    else if c == 0x5c
    then ([], escaped a)
    else ([], inside (a ++ c ∷ []))
scan (escaped a) c = ([], inside (a ++ c ∷ []))

unfoldable pub tokens_from : Scan → Text → List Token
tokens_from state [] = []
tokens_from state (c ∷ s) = (scan state c).0 ++ tokens_from (scan state c).1 s

abbrev pub tokens : Text → List Token
tokens s = tokens_from outside s

abbrev unquoted : Text → Bool
unquoted s = all (λ c. not (c == 0x27)) s

tokens-unquoted :
    (s t : Text)
    → unquoted s ≡ true
    → tokens_from outside (s ++ t) ≡ map word s ++ tokens_from outside t
unfolding tokens_from
tokens-unquoted [] t h = refl
tokens-unquoted (c ∷ s) t h = ground (arith, tokens-unquoted s t)

tokens-escape :
    (a v t : Text)
    → tokens_from (inside a) (escape_drive_query_string v ++ t) ≡ tokens_from (inside (a ++ v)) t
unfolding tokens_from escape_drive_query_string
tokens-escape a [] t = rw (append-nil a) refl
tokens-escape a (c ∷ v) t =
    ground (arith, tokens-escape (a ++ c ∷ []) v t, append_assoc a (c ∷ []) v)

opened : (t : Text) → tokens_from outside (0x27 ∷ t) ≡ tokens_from (inside []) t
unfolding tokens_from
opened t = refl

closed : (v t : Text) → tokens_from (inside v) (0x27 ∷ t) ≡ literal v ∷ tokens_from outside t
unfolding tokens_from
closed v t = refl

-- A quoted value after a text without quotes is one literal, whatever characters it has.
tokens-quoted :
    (s v t : Text)
    → unquoted s ≡ true
    → tokens_from outside (s ++ 0x27 ∷ (escape_drive_query_string v ++ 0x27 ∷ t))
      ≡ map word s ++ literal v ∷ tokens_from outside t
tokens-quoted s v t h =
    rw
      (
        tokens-unquoted s (0x27 ∷ (escape_drive_query_string v ++ 0x27 ∷ t)) h,
        opened (escape_drive_query_string v ++ 0x27 ∷ t),
        tokens-escape [] v (0x27 ∷ t),
        closed v t,
      )
      refl

-- What a property asks for.
abbrev pub property_tokens : Text × Text → List Token
property_tokens (property, v) =
    map word (codes " and appProperties has { key=")
    ++ literal property ∷ map word (codes " and value=")
    ++ literal v ∷ map word (codes " }")

abbrev pub properties_tokens : List (Text × Text) → List Token
properties_tokens [] = []
properties_tokens (p ∷ ps) = property_tokens p ++ properties_tokens ps

clauses : List (Text × Text) → Text
clauses [] = []
clauses (p ∷ ps) = property_clause p ++ clauses ps

push_properties_lem :
    (query : Text) (ps : List (Text × Text)) → push_properties query ps ≡ query ++ clauses ps
unfolding push_properties clauses
push_properties_lem query [] = sym (append-nil query)
push_properties_lem query (p ∷ ps) =
    push_properties_lem (query ++ property_clause p) ps
    ∙ append_assoc query (property_clause p) (clauses ps)

regroup :
    (a p b v c t : Text)
    → (a ++ 0x27 ∷ (p ++ 0x27 ∷ (b ++ 0x27 ∷ (v ++ 0x27 ∷ c)))) ++ t
      ≡ a ++ 0x27 ∷ (p ++ 0x27 ∷ (b ++ 0x27 ∷ (v ++ 0x27 ∷ (c ++ t))))
regroup a p b v c t =
    rw
      (
        append_assoc a (0x27 ∷ (p ++ 0x27 ∷ (b ++ 0x27 ∷ (v ++ 0x27 ∷ c)))) t,
        append_assoc p (0x27 ∷ (b ++ 0x27 ∷ (v ++ 0x27 ∷ c))) t,
        append_assoc b (0x27 ∷ (v ++ 0x27 ∷ c)) t,
        append_assoc v (0x27 ∷ c) t,
      )
      refl

tokens-two_quoted :
    (a p b v c t : Text)
    → unquoted a ≡ true
    → unquoted b ≡ true
    → unquoted c ≡ true
    → tokens_from outside (
        (a
          ++ 0x27
            ∷ (escape_drive_query_string p
                ++ 0x27 ∷ (b ++ 0x27 ∷ (escape_drive_query_string v ++ 0x27 ∷ c))))
        ++ t)
      ≡ map word a ++ literal p ∷ (map word b ++ literal v ∷ (map word c ++ tokens_from outside t))
tokens-two_quoted a p b v c t ha hb hc =
    let p' = escape_drive_query_string p in
    let v' = escape_drive_query_string v in
    rw
      (
        regroup a p' b v' c t,
        tokens-quoted a p (b ++ 0x27 ∷ (v' ++ 0x27 ∷ (c ++ t))) ha,
        tokens-quoted b v (c ++ t) hb,
        tokens-unquoted c t hc,
      )
      refl

tokens-property_clause :
    (p v t : Text)
    → tokens_from outside (property_clause (p, v) ++ t)
      ≡ property_tokens (p, v) ++ tokens_from outside t
tokens-property_clause p v t =
    tokens-two_quoted (codes " and appProperties has { key=") p (codes " and value=") v (codes " }")
      t refl refl refl

tokens-clauses : (ps : List (Text × Text)) → tokens_from outside (clauses ps) ≡ properties_tokens ps
unfolding clauses tokens_from
tokens-clauses [] = refl
tokens-clauses ((p, v) ∷ ps) =
    tokens-property_clause p v (clauses ps)
    ∙ ap (λ q. property_tokens (p, v) ++ q) (tokens-clauses ps)

-- Whatever the root folder, the object and the properties are, Drive reads the query as built: each of
-- them is one string literal between fixed words, and the literal is the value itself.
pub tokens-drive_object_lookup_query :
    (root_folder_id : Text) (key : GoogleDriveObjectKey) (properties : List (Text × Text))
    → tokens (drive_object_lookup_query root_folder_id key properties)
      ≡ literal root_folder_id ∷ map word (codes " in parents and trashed = false and name = ")
        ++ literal (file_name key) ∷ properties_tokens properties
unfolding drive_object_lookup_query tokens_from
tokens-drive_object_lookup_query root_folder_id key properties =
    ap tokens (push_properties_lem _ properties)
    ∙ tokens-two_quoted [] root_folder_id (codes " in parents and trashed = false and name = ")
        (file_name key) [] (clauses properties) refl refl refl
    ∙ ap
        (λ q.
          literal root_folder_id ∷ map word (codes " in parents and trashed = false and name = ")
          ++ literal (file_name key) ∷ q)
        (tokens-clauses properties)
