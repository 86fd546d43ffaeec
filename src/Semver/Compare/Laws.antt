-- ===== src/Semver/Compare/Laws.antt =====
-- The precedence of versions (`compareSemanticVersion`) is a total preorder.
use Prim.Native.Nat.{compare}
use vxx.Prelude.{ℕ, ◌≡◌, refl, Bool, true, false, not, List, [], ◌∷◌, arith, if◌then◌else◌, length}
use vxx.Prelude.Bytes.{Bytes, compare_bytes, compare_bytes-IsOrder}
use vxx.Prelude.Order.{
  Ordering, and_then, IsOrder, compare-IsOrder, on-IsOrder, and_then-IsOrder, IsOrder-of_eq,
  compare_list, compare_list-IsOrder,
}
use vxx.Semver.Types.{SemanticVersion}
use vxx.Semver.Compare.{
  is_empty, all_digits, compare_text, compare_identifier, compare_shared, compare_numbers,
  compare_prerelease, compare_semantic_version,
}

-- Numeric identifiers come before the others.
rank : Bool → ℕ
rank true = 0
rank false = 1

-- A numeric identifier ranks by its length first.
size_rank : Bytes → ℕ
size_rank b = if all_digits b then length b else 0

abbrev by_parts : Bytes → Bytes → Ordering
by_parts l r =
    and_then (compare (rank (all_digits l)) (rank (all_digits r)))
      (and_then (compare (size_rank l) (size_rank r)) (compare_bytes l r))

compare_identifier-by_parts : (l r : Bytes) → compare_identifier l r ≡ by_parts l r
unfolding compare_identifier compare_text compare_bytes rank size_rank
compare_identifier-by_parts l r = ground arith

compare_identifier-IsOrder : IsOrder compare_identifier
compare_identifier-IsOrder = IsOrder-of_eq compare_identifier-by_parts (
    and_then-IsOrder (on-IsOrder (λ b. rank (all_digits b)) compare-IsOrder)
      (and_then-IsOrder (on-IsOrder size_rank compare-IsOrder) compare_bytes-IsOrder))

compare_shared-length :
    (l r : List Bytes)
    → and_then (compare_shared l r) (compare (length l) (length r))
      ≡ compare_list compare_identifier l r
unfolding compare_shared compare_list
compare_shared-length [] [] = refl
compare_shared-length [] (y ∷ r) = ground arith
compare_shared-length (x ∷ l) [] = ground arith
compare_shared-length (x ∷ l) (y ∷ r) = ground (arith, compare_shared-length l r)

abbrev prerelease_parts : List Bytes → List Bytes → Ordering
prerelease_parts l r =
    and_then (compare (rank (not (is_empty l))) (rank (not (is_empty r))))
      (compare_list compare_identifier l r)

compare_prerelease-parts : (l r : List Bytes) → compare_prerelease l r ≡ prerelease_parts l r
unfolding compare_prerelease rank
compare_prerelease-parts l r = rw (← compare_shared-length l r) (ground arith)

compare_prerelease-IsOrder : IsOrder compare_prerelease
compare_prerelease-IsOrder = IsOrder-of_eq compare_prerelease-parts (
    and_then-IsOrder (on-IsOrder (λ l. rank (not (is_empty l))) compare-IsOrder)
      (compare_list-IsOrder compare_identifier-IsOrder))

compare_numbers-and_then :
    (l r : ℕ) (o : Ordering) → compare_numbers l r o ≡ and_then (compare l r) o
unfolding compare_numbers
compare_numbers-and_then l r o = ground arith

version_parts :
    (l r : SemanticVersion)
    → compare_semantic_version l r
      ≡ and_then (compare l.major r.major) (
          and_then
            (compare l.minor r.minor)
            (and_then (compare l.patch r.patch) (compare_prerelease l.prerelease r.prerelease)))
unfolding compare_semantic_version
version_parts l r = ground arith

-- The precedence is a total preorder: exchanging the arguments reverses the result, and two
-- comparisons chain (smaller-or-equal steps compose, and equal versions compare alike with others).
pub compare_semantic_version-IsOrder : IsOrder compare_semantic_version
compare_semantic_version-IsOrder = IsOrder-of_eq version_parts (
    and_then-IsOrder (on-IsOrder (λ v. v.major) compare-IsOrder) (
      and_then-IsOrder (on-IsOrder (λ v. v.minor) compare-IsOrder) (
        and_then-IsOrder (on-IsOrder (λ v. v.patch) compare-IsOrder)
          (on-IsOrder (λ v. v.prerelease) compare_prerelease-IsOrder))))
