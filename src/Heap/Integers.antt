-- ===== src/Heap/Integers.antt =====
-- src/include/vpp/runtime/value.h: the integers of the C ABI, and their comparison.
use Prim.Native.Nat.{compare}
use vxx.Prelude.{
  ◌↔◌, ℕ, ◌≡◌, refl, Bool, true, false, ◌==◌, arith, if◌then◌else◌, none, some, Option,
}
use vxx.Prelude.Int.{ℤ, pos, negsuc, is_negative, to_size, eq_ℤ}
use vxx.Prelude.Order.{Ordering, IsOrder, Chains, flip}
use vxx.Heap.Value.{AbiInteger, StackValue, int_value, abi_value}

-- AbiInteger::signedNumber and unsignedNumber
abbrev pub signed_number : ℤ → AbiInteger
signed_number value = record { is_signed = true; signed_value = value; unsigned_value = 0 }

abbrev pub unsigned_number : ℕ → AbiInteger
unsigned_number value = record { is_signed = false; signed_value = pos 0; unsigned_value = value }

-- operator==
abbrev pub equal_members : Bool → Bool → AbiInteger → AbiInteger → Bool
equal_members true true left right = eq_ℤ left.signed_value right.signed_value
equal_members false false left right = left.unsigned_value == right.unsigned_value
equal_members _ _ left right = false

unfoldable pub equal_abi_integers : AbiInteger → AbiInteger → Bool
equal_abi_integers left right = equal_members left.is_signed right.is_signed left right

-- asAbiInteger: `std::get` throws on a value that is no integer
abbrev pub as_abi_integer : StackValue → Option AbiInteger
as_abi_integer (abi_value value) = some value
as_abi_integer (int_value value) = some (signed_number value)
as_abi_integer _ = none

-- (left > right) - (left < right) on std::int64_t
abbrev pub compare_signed : ℤ → ℤ → Ordering
compare_signed (pos m) (pos n) = compare m n
compare_signed (pos m) (negsuc n) = Ordering.gt
compare_signed (negsuc m) (pos n) = Ordering.lt
compare_signed (negsuc m) (negsuc n) = compare n m

-- A signed left side and an unsigned right side.
abbrev pub compare_mixed : ℤ → ℕ → Ordering
compare_mixed signed unsigned =
    if is_negative signed then Ordering.lt else compare (to_size signed) unsigned

abbrev pub compare_members : Bool → Bool → AbiInteger → AbiInteger → Ordering
compare_members true true left right = compare_signed left.signed_value right.signed_value
compare_members false false left right = compare left.unsigned_value right.unsigned_value
compare_members true false left right = compare_mixed left.signed_value right.unsigned_value
compare_members false true left right = flip (compare_mixed right.signed_value left.unsigned_value)

-- compareAbiIntegers: -1, 0 or 1
unfoldable pub compare_abi_integers : AbiInteger → AbiInteger → Ordering
compare_abi_integers left right = compare_members left.is_signed right.is_signed left right

-- The number that an ABI integer stands for.
abbrev pub number_of : Bool → AbiInteger → ℤ
number_of true value = value.signed_value
number_of false value = pos value.unsigned_value

compare_mixed-exact :
    (signed : ℤ) (unsigned : ℕ)
    → compare_mixed signed unsigned ≡ compare_signed signed (pos unsigned)
compare_mixed-exact (pos n) unsigned = refl
compare_mixed-exact (negsuc n) unsigned = refl

compare_signed-flip :
    (left right : ℤ) → compare_signed right left ≡ flip (compare_signed left right)
compare_signed-flip (pos m) (pos n) = ground arith
compare_signed-flip (pos m) (negsuc n) = refl
compare_signed-flip (negsuc m) (pos n) = refl
compare_signed-flip (negsuc m) (negsuc n) = ground arith

exact_members :
    (s t : Bool) (left right : AbiInteger)
    → compare_members s t left right ≡ compare_signed (number_of s left) (number_of t right)
exact_members true true left right = refl
exact_members false false left right = refl
exact_members true false left right = compare_mixed-exact left.signed_value right.unsigned_value
exact_members false true left right =
    rw
      (
        compare_mixed-exact right.signed_value left.unsigned_value,
        compare_signed-flip right.signed_value (pos left.unsigned_value),
      )
      refl

compare_signed-Chains :
    (a b c : ℤ) → Chains (compare_signed a b) (compare_signed b c) (compare_signed a c)
compare_signed-Chains (pos a) (pos b) (pos c) = ground arith
compare_signed-Chains (pos a) (pos b) (negsuc c) = ground arith
compare_signed-Chains (pos a) (negsuc b) (pos c) = tt
compare_signed-Chains (pos a) (negsuc b) (negsuc c) = ground arith
compare_signed-Chains (negsuc a) (pos b) (pos c) = ground arith
compare_signed-Chains (negsuc a) (pos b) (negsuc c) = tt
compare_signed-Chains (negsuc a) (negsuc b) (pos c) = ground arith
compare_signed-Chains (negsuc a) (negsuc b) (negsuc c) = ground arith

same_number : (a b : ℤ) → (compare_signed a b ≡ Ordering.eq) ↔ (a ≡ b)
same_number (pos m) (pos n) = ground arith
same_number (pos m) (negsuc n) = ground arith
same_number (negsuc m) (pos n) = ground arith
same_number (negsuc m) (negsuc n) = ground arith

abbrev pub value_of : AbiInteger → ℤ
value_of value = number_of value.is_signed value

compare_abi_integers-exact :
    (left right : AbiInteger)
    → compare_abi_integers left right ≡ compare_signed (value_of left) (value_of right)
unfolding compare_abi_integers
compare_abi_integers-exact left right = exact_members left.is_signed right.is_signed left right

-- The comparison is a total preorder on signed and unsigned integers alike, and two of them compare equal exactly where
-- they are the same number, whichever of the two members holds it.
pub compare_abi_integers-IsOrder :
    IsOrder compare_abi_integers
    × ((left right : AbiInteger)
        → (compare_abi_integers left right ≡ Ordering.eq) ↔ (value_of left ≡ value_of right))
compare_abi_integers-IsOrder = (
  record {
    flips = λ left right.
        rw (compare_abi_integers-exact right left, compare_abi_integers-exact left right)
          (compare_signed-flip (value_of left) (value_of right));
    chains = λ left middle right.
        rw
          (
            compare_abi_integers-exact left middle,
            compare_abi_integers-exact middle right,
            compare_abi_integers-exact left right,
          )
          (compare_signed-Chains (value_of left) (value_of middle) (value_of right));
  },
  λ left right.
      rw (compare_abi_integers-exact left right) (same_number (value_of left) (value_of right)),
)
