-- ===== src/Semver/Compare.antt =====
-- src/core/semver.cpp: the precedence of versions.
pub mod Laws
pub mod Core
use vxx.Prelude.{
  ℕ, Bool, true, false, not, ◌&&◌, ◌||◌, List, [], ◌∷◌, ltb, leb, ◌==◌, if◌then◌else◌, length,
}
use vxx.Prelude.Bytes.{Bytes, equal, less}
use vxx.Prelude.Order.{Ordering}
use vxx.Semver.Types.{SemanticVersion}

unfoldable pub is_ascii_digit : ℕ → Bool
is_ascii_digit c = leb b'0' c && leb c b'9'

all_ascii_digit : Bytes → Bool
all_ascii_digit [] = true
all_ascii_digit (c ∷ cs) = is_ascii_digit c && all_ascii_digit cs

abbrev pub is_empty {ℓ} : {A : Type ℓ} → List A → Bool
is_empty [] = true
is_empty (x ∷ xs) = false

unfoldable pub all_digits : Bytes → Bool
unfolding all_ascii_digit
all_digits value = not (is_empty value) && all_ascii_digit value

-- left == right, left != right for two Booleans
abbrev same : Bool → Bool → Bool
same true b = b
same false b = not b

-- The last three lines of `compareIdentifier`, which both branches share.
compare_text : Bytes → Bytes → Ordering
compare_text left right =
    if equal left right then Ordering.eq else if less left right then Ordering.lt else Ordering.gt

compare_identifier : Bytes → Bytes → Ordering
compare_identifier left right =
    let left_numeric = all_digits left in
    let right_numeric = all_digits right in
    if left_numeric && right_numeric
    then if not (length left == length right)
      then if ltb (length left) (length right) then Ordering.lt else Ordering.gt
      else compare_text left right
    else if not (same left_numeric right_numeric)
    then if left_numeric then Ordering.lt else Ordering.gt
    else compare_text left right

-- The loop over the identifiers at the indices below `shared`.
compare_shared : List Bytes → List Bytes → Ordering
compare_shared [] right = Ordering.eq
compare_shared (l ∷ left) [] = Ordering.eq
compare_shared (l ∷ left) (r ∷ right) =
    let rest = compare_shared left right in
    elim (compare_identifier l r) [
      | Ordering.lt ↦ Ordering.lt
      | Ordering.eq ↦ rest
      | Ordering.gt ↦ Ordering.gt
    ]

compare_numbers : ℕ → ℕ → Ordering → Ordering
compare_numbers left right otherwise =
    if not (left == right) then if ltb left right then Ordering.lt else Ordering.gt else otherwise

compare_prerelease : List Bytes → List Bytes → Ordering
compare_prerelease left right =
    if not (same (is_empty left) (is_empty right))
    then if is_empty left then Ordering.gt else Ordering.lt
    else elim (compare_shared left right) [
      | Ordering.lt ↦ Ordering.lt
      | Ordering.eq ↦
          if length left == length right
          then Ordering.eq
          else if ltb (length left) (length right)
          then Ordering.lt
          else Ordering.gt
      | Ordering.gt ↦ Ordering.gt
    ]

unfoldable pub compare_semantic_version : SemanticVersion → SemanticVersion → Ordering
unfolding compare_numbers compare_prerelease compare_shared compare_identifier compare_text
compare_semantic_version left right = compare_numbers left.major right.major (
    compare_numbers left.minor right.minor (
      compare_numbers left.patch right.patch (compare_prerelease left.prerelease right.prerelease)))
