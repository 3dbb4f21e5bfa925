-- ===== src/Lfs/Pointer/RoundTrip/Lacks.antt =====
-- Which characters the parts of a rendered record lack.
use lfs_cloud.Prelude.{ℕ, ◌<◌, ◌≡◌, refl, true, false, not, [], ◌∷◌, ◌++◌, ◌==◌, any, all, arith}
use lfs_cloud.Prelude.Text.{Text, is_ascii_whitespace}
use lfs_cloud.Prelude.Text.Trim.{all-imp, all-append}
use lfs_cloud.Prelude.Text.Split.{lacks}
use lfs_cloud.Prelude.Text.Lines.{is_line}
use lfs_cloud.Lfs.Oid.{LfsOid, is_lower_hexdigit, as_pointer_oid}
use lfs_cloud.Lfs.Oid.Laws.{IsCanonical}

hex_lacks : (d : ℕ) (s : Text) → d < 48 → all is_lower_hexdigit s ≡ true → lacks d s ≡ true
hex_lacks d s h k = all-imp is_lower_hexdigit (λ c. not (c == d)) s (λ c e. ground arith) k

pub lacks-any : (d : ℕ) (s : Text) → lacks d s ≡ true → any (λ c. c == d) s ≡ false
lacks-any d [] h = refl
lacks-any d (c ∷ s) h = ground (arith, lacks-any d s)

pub no_whitespace_lacks :
    (s : Text) → any is_ascii_whitespace s ≡ false → (lacks 32 s ≡ true) × (is_line s ≡ true)
no_whitespace_lacks [] h = (refl, refl)
no_whitespace_lacks (c ∷ s) h = ground (arith, no_whitespace_lacks s)

lacks-append : (d : ℕ) (s t : Text) → lacks d s ≡ true → lacks d t ≡ true → lacks d (s ++ t) ≡ true
lacks-append d = all-append (λ c. not (c == d))

pub is_line-append : (s t : Text) → is_line s ≡ true → is_line t ≡ true → is_line (s ++ t) ≡ true
is_line-append s t h k = ground (arith, lacks-append 0xa s t, lacks-append 0xd s t)

pub pointer_oid_lacks :
    (d : ℕ) (o : LfsOid) → d < 48 → IsCanonical o → lacks d (as_pointer_oid o) ≡ true
unfolding as_pointer_oid
pointer_oid_lacks d o h c = ground (arith, hex_lacks d o.hex h c.digits_ok)

pub is_line-pointer_oid : (o : LfsOid) → IsCanonical o → is_line (as_pointer_oid o) ≡ true
is_line-pointer_oid o c =
    ground (arith, pointer_oid_lacks 0xa o (omega arith) c, pointer_oid_lacks 0xd o (omega arith) c)
