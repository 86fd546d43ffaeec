-- ===== src/Semver/Parse/Chars.antt =====
-- The bytes that `SemanticVersion::toString` writes.
use vxx.Prelude.{ℕ, ◌≡◌, refl, Bool, true, false, ◌||◌, List, [], ◌∷◌, ◌==◌, arith}
use vxx.Prelude.Bytes.{Bytes, AllPass, AllPass-append}
use vxx.Semver.Types.{SemanticVersion}
use vxx.Semver.Compare.{is_ascii_digit}
use vxx.Semver.Parse.{to_string, decimal, marked, join_identifiers, is_identifier_char}
use vxx.Semver.Parse.Number.{decimal-IsNumeral}
use vxx.Semver.Parse.Identifiers.{AllIdentifiers}
use vxx.Semver.Parse.RoundTrip.{IsValid}

-- The bytes of a printed version: identifier characters, dots and the plus sign.
unfoldable pub is_version_char : ℕ → Bool
unfolding is_identifier_char is_ascii_digit
is_version_char c = is_identifier_char c || c == b'.' || c == b'+'

AllPass-imp :
    {p q : ℕ → Bool} (imp : (c : ℕ) → p c ≡ true → q c ≡ true) (xs : Bytes)
    → AllPass p xs
    → AllPass q xs
AllPass-imp imp [] h = tt
AllPass-imp imp (x ∷ xs) h = (imp x h.0, AllPass-imp imp xs h.1)

digit_char : (c : ℕ) → is_ascii_digit c ≡ true → is_version_char c ≡ true
unfolding is_version_char is_identifier_char is_ascii_digit
digit_char c h = ground arith

identifier_char : (c : ℕ) → is_identifier_char c ≡ true → is_version_char c ≡ true
unfolding is_version_char
identifier_char c h = ground arith

join_chars :
    (reject : Bool) (ids : List Bytes)
    → AllIdentifiers reject ids
    → AllPass is_version_char (join_identifiers ids)
unfolding join_identifiers is_version_char
join_chars reject [] v = tt
join_chars reject (x ∷ []) v = AllPass-imp identifier_char x v.0.chars
join_chars reject (x ∷ y ∷ ys) v =
    AllPass-append is_version_char x _ (AllPass-imp identifier_char x v.0.chars)
      (refl, join_chars reject (y ∷ ys) v.1)

mark_chars :
    (mark : ℕ) (reject : Bool) (ids : List Bytes)
    → is_version_char mark ≡ true
    → AllIdentifiers reject ids
    → AllPass is_version_char (marked mark ids)
mark_chars mark reject [] h v = tt
mark_chars mark reject (x ∷ xs) h v = (h, join_chars reject (x ∷ xs) v)

decimal_chars : (n : ℕ) → AllPass is_version_char (decimal n)
decimal_chars n = AllPass-imp digit_char _ (decimal-IsNumeral n).digits

-- A printed version holds such bytes only.
pub to_string_chars : (v : SemanticVersion) → IsValid v → AllPass is_version_char (to_string v)
unfolding to_string is_version_char
to_string_chars v h = AllPass-append is_version_char _ _ (decimal_chars v.major) (
  refl,
  AllPass-append is_version_char _ _ (decimal_chars v.minor) (
    refl,
    AllPass-append is_version_char _ _ (decimal_chars v.patch) (
        AllPass-append is_version_char _ _
          (mark_chars b'-' true v.prerelease refl h.prerelease_valid)
          (mark_chars b'+' false v.build refl h.build_valid)),
  ),
)
