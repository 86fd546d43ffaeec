-- ===== src/Prelude/Order.antt =====
-- Three-way comparisons: the `int` -1, 0 or 1 that the source's comparison functions return.
use Prim.Native.Nat.{compare}
use mathlib.Core.Path.{◌≡◌, refl, sym, subst, fun_ext}
use mathlib.Core.List.{List, [], ◌∷◌}
use native.Mathlib.Omega.{arith}
pub use Prim.Native.Nat.{Ordering}

-- The comparison with its arguments exchanged.
abbrev pub flip : Ordering → Ordering
flip Ordering.lt = Ordering.gt
flip Ordering.eq = Ordering.eq
flip Ordering.gt = Ordering.lt

-- The first difference decides.
abbrev pub and_then : Ordering → Ordering → Ordering
and_then Ordering.lt y = Ordering.lt
and_then Ordering.eq y = y
and_then Ordering.gt y = Ordering.gt

-- What the comparisons of a with b and of b with c say of the one of a with c.
abbrev pub Chains : Ordering → Ordering → Ordering → Type 0
Chains Ordering.eq y z = z ≡ y
Chains Ordering.lt Ordering.gt z = Unit
Chains Ordering.lt _ z = z ≡ Ordering.lt
Chains Ordering.gt Ordering.lt z = Unit
Chains Ordering.gt _ z = z ≡ Ordering.gt

-- A comparison that is a total preorder.
pub record IsOrder {ℓ} {A : Type ℓ} (cmp : A → A → Ordering) : Type ℓ where
  pub flips : (a b : A) → cmp b a ≡ flip (cmp a b)
  pub chains : (a b c : A) → Chains (cmp a b) (cmp b c) (cmp a c)

and_then-flip : (x y : Ordering) → flip (and_then x y) ≡ and_then (flip x) (flip y)
and_then-flip Ordering.lt y = refl
and_then-flip Ordering.eq y = refl
and_then-flip Ordering.gt y = refl

and_then-Chains :
    (x y z x' y' z' : Ordering)
    → Chains x y z
    → Chains x' y' z'
    → Chains (and_then x x') (and_then y y') (and_then z z')
and_then-Chains Ordering.lt Ordering.lt z x' y' z' h k = ground arith
and_then-Chains Ordering.lt Ordering.eq z x' y' z' h k = ground arith
and_then-Chains Ordering.lt Ordering.gt z x' y' z' h k = tt
and_then-Chains Ordering.eq y z x' y' z' h k = ground arith
and_then-Chains Ordering.gt Ordering.lt z x' y' z' h k = tt
and_then-Chains Ordering.gt Ordering.eq z x' y' z' h k = ground arith
and_then-Chains Ordering.gt Ordering.gt z x' y' z' h k = ground arith

pub compare-IsOrder : IsOrder compare
compare-IsOrder = record { flips = λ a b. ground arith; chains = λ a b c. ground arith }

Chains-lt : (y : Ordering) → Chains Ordering.lt y Ordering.lt
Chains-lt Ordering.lt = refl
Chains-lt Ordering.eq = refl
Chains-lt Ordering.gt = tt

Chains-gt : (x : Ordering) → Chains x Ordering.gt Ordering.gt
Chains-gt Ordering.lt = tt
Chains-gt Ordering.eq = refl
Chains-gt Ordering.gt = refl

-- Order is inherited along a function, and by comparing by one order first and then by another.
module _ {ℓ κ} {A : Type ℓ} {B : Type κ} (f : A → B) {cmp : B → B → Ordering}
    (o : IsOrder cmp) where
  pub on-IsOrder : IsOrder (λ a b. cmp (f a) (f b))
  on-IsOrder = record {
    flips = λ a b. o.flips (f a) (f b);
    chains = λ a b c. o.chains (f a) (f b) (f c);
  }

module _ {ℓ} {A : Type ℓ} {cmp cmp' : A → A → Ordering} where
  pub and_then-IsOrder : IsOrder cmp → IsOrder cmp' → IsOrder (λ a b. and_then (cmp a b) (cmp' a b))
  and_then-IsOrder o o' = record {
    flips = λ a b. rw (o.flips a b, o'.flips a b, and_then-flip (cmp a b) (cmp' a b)) refl;
    chains = λ a b c.
        and_then-Chains (cmp a b) (cmp b c) (cmp a c) (cmp' a b) (cmp' b c) (cmp' a c)
          (o.chains a b c) (o'.chains a b c);
  }

  pub IsOrder-of_eq : ((a b : A) → cmp' a b ≡ cmp a b) → IsOrder cmp → IsOrder cmp'
  IsOrder-of_eq h o = subst IsOrder (sym (fun_ext λ a. fun_ext λ b. h a b)) o

-- The lexicographic order of lists.
module _ {ℓ} {A : Type ℓ} where
  unfoldable pub compare_list : (A → A → Ordering) → List A → List A → Ordering
  compare_list cmp [] [] = Ordering.eq
  compare_list cmp [] (y ∷ ys) = Ordering.lt
  compare_list cmp (x ∷ xs) [] = Ordering.gt
  compare_list cmp (x ∷ xs) (y ∷ ys) = and_then (cmp x y) (compare_list cmp xs ys)

module _ {ℓ} {A : Type ℓ} {cmp : A → A → Ordering} (o : IsOrder cmp) where
  compare_list-flips : (a b : List A) → compare_list cmp b a ≡ flip (compare_list cmp a b)
  unfolding compare_list
  compare_list-flips [] [] = refl
  compare_list-flips [] (y ∷ ys) = refl
  compare_list-flips (x ∷ xs) [] = refl
  compare_list-flips (x ∷ xs) (y ∷ ys) =
      rw (o.flips x y, compare_list-flips xs ys, and_then-flip (cmp x y) (compare_list cmp xs ys))
        refl

  compare_list-Chains :
      (a b c : List A) → Chains (compare_list cmp a b) (compare_list cmp b c) (compare_list cmp a c)
  unfolding compare_list
  compare_list-Chains [] [] c = refl
  compare_list-Chains [] (y ∷ b) [] = tt
  compare_list-Chains [] (y ∷ b) (z ∷ c) = Chains-lt _
  compare_list-Chains (x ∷ a) [] [] = refl
  compare_list-Chains (x ∷ a) [] (z ∷ c) = tt
  compare_list-Chains (x ∷ a) (y ∷ b) [] = Chains-gt _
  compare_list-Chains (x ∷ a) (y ∷ b) (z ∷ c) =
      and_then-Chains (cmp x y) (cmp y z) (cmp x z) (compare_list cmp a b) (compare_list cmp b c)
        (compare_list cmp a c) (o.chains x y z) (compare_list-Chains a b c)

  pub compare_list-IsOrder : IsOrder (compare_list cmp)
  compare_list-IsOrder = record { flips = compare_list-flips; chains = compare_list-Chains }
