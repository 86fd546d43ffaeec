-- ===== src/Prelude/Bytes.antt =====
-- `std::string` as the list of its bytes, with its comparisons.
use Prim.Native.Nat.{ℕ, compare}
use Prim.Native.Char.{code}
use Prim.Native.String.{String}
use mathlib.Core.Path.{◌≡◌, refl, ap}
use mathlib.Core.Logic.{◌↔◌, inl, inr}
use mathlib.Core.Bool.{Bool, true, false, ◌&&◌}
use mathlib.Core.List.{List, [], ◌∷◌, ◌++◌}
use native.Mathlib.Omega.{arith}
use vxx.Prelude.Tests.{ltb, ◌==◌, if◌then◌else◌, Bool-cases}
use vxx.Prelude.Order.{
  Ordering, IsOrder, compare_list, compare-IsOrder, compare_list-IsOrder, IsOrder-of_eq,
}

abbrev pub Bytes : Type 0
Bytes = List ℕ

-- The bytes of an ASCII literal.
abbrev pub codes : String → Bytes
codes String.[] = []
codes (String.◌∷◌ c s) = code c ∷ codes s

-- left == right
unfoldable pub equal : Bytes → Bytes → Bool
equal [] [] = true
equal (c ∷ left) (d ∷ right) = c == d && equal left right
equal _ _ = false

-- left < right: lexicographic, by unsigned bytes
unfoldable pub less : Bytes → Bytes → Bool
less [] [] = false
less [] (y ∷ ys) = true
less (x ∷ xs) [] = false
less (x ∷ xs) (y ∷ ys) = let rest = less xs ys in if x == y then rest else ltb x y

pub equal_iff : (left right : Bytes) → (equal left right ≡ true) ↔ (left ≡ right)
unfolding equal
equal_iff (c ∷ left) (d ∷ right) = ground (arith, equal_iff left right)
equal_iff _ _ = ground arith

-- The three-way form: equal, or less one way or the other.
unfoldable pub compare_bytes : Bytes → Bytes → Ordering
compare_bytes l r = if equal l r then Ordering.eq else if less l r then Ordering.lt else Ordering.gt

compare_bytes-compare_list : (l r : Bytes) → compare_bytes l r ≡ compare_list compare l r
unfolding compare_bytes equal less compare_list
compare_bytes-compare_list [] [] = refl
compare_bytes-compare_list [] (y ∷ r) = refl
compare_bytes-compare_list (x ∷ l) [] = refl
compare_bytes-compare_list (x ∷ l) (y ∷ r) = ground (arith, compare_bytes-compare_list l r)

pub compare_bytes-IsOrder : IsOrder compare_bytes
compare_bytes-IsOrder =
    IsOrder-of_eq compare_bytes-compare_list (compare_list-IsOrder compare-IsOrder)

-- The longest prefix whose bytes pass a test, with what follows it.
abbrev cons_left : ℕ → Bytes × Bytes → Bytes × Bytes
cons_left c (front, rest) = (c ∷ front, rest)

unfoldable pub span : (ℕ → Bool) → Bytes → Bytes × Bytes
span p [] = ([], [])
span p (c ∷ cs) = let more = span p cs in if p c then cons_left c more else ([], c ∷ cs)

abbrev pub AllPass : (ℕ → Bool) → Bytes → Type 0
AllPass p [] = Unit
AllPass p (c ∷ cs) = (p c ≡ true) × AllPass p cs

-- The first byte, if there is one, fails the test.
abbrev pub Stops : (ℕ → Bool) → Bytes → Type 0
Stops p [] = Unit
Stops p (c ∷ cs) = p c ≡ false

pub span-append :
    (p : ℕ → Bool) (front rest : Bytes)
    → AllPass p front
    → Stops p rest
    → span p (front ++ rest) ≡ (front, rest)
unfolding span
span-append p [] [] a s = refl
span-append p [] (c ∷ rest) a s = rw s
span-append p (c ∷ front) rest a s = rw (a.0, span-append p front rest a.1 s)

pub span_parts :
    (p : ℕ → Bool) (text : Bytes)
    → (text ≡ (span p text).0 ++ (span p text).1)
      × AllPass p (span p text).0
      × Stops p (span p text).1
unfolding span
span_parts p [] = (refl, tt, tt)
span_parts p (c ∷ cs) = elim (Bool-cases (p c)) [
  | inl yes_c ↦
      rw yes_c
        (ap (λ t. c ∷ t) (span_parts p cs).0, (yes_c, (span_parts p cs).1), (span_parts p cs).2)
  | inr no_c ↦ rw no_c (refl, tt, no_c)
]

pub AllPass-append :
    (p : ℕ → Bool) (xs ys : Bytes) → AllPass p xs → AllPass p ys → AllPass p (xs ++ ys)
AllPass-append p [] ys h k = k
AllPass-append p (x ∷ xs) ys h k = (h.0, AllPass-append p xs ys h.1 k)

pub span_nil : (p : ℕ → Bool) → span p [] ≡ ([], [])
unfolding span
span_nil p = refl

pub span_all : (p : ℕ → Bool) (xs : Bytes) → AllPass p xs → span p xs ≡ (xs, [])
unfolding span
span_all p [] h = refl
span_all p (x ∷ xs) h = rw (h.0, span_all p xs h.1)
