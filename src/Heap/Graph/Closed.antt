-- ===== src/Heap/Graph/Closed.antt =====
-- A test of the sets of objects that hold the roots and what their objects hold.
use vxx.Prelude.{◌≡◌, inl, inr, Bool, true, ◌&&◌, List, [], ◌∷◌, Bool-cases, arith}
use mathlib.Core.Path.{subst}
use vxx.Heap.Value.{Store, Address, same_address, member}
use vxx.Heap.Graph.{successors, IsClosed, same_address-eq}

abbrev all_in : List Address → List Address → Bool
all_in [] bs = true
all_in (a ∷ others) bs = member a bs && all_in others bs

abbrev all_closed : Store → List Address → List Address → Bool
all_closed store [] universe = true
all_closed store (a ∷ others) universe =
    all_in (successors store a) universe && all_closed store others universe

-- The test of a closed set.
unfoldable pub is_closed : Store → List Address → List Address → Bool
is_closed store roots universe = all_in roots universe && all_closed store universe universe

all_in-member :
    (bs cs : List Address) (a : Address)
    → all_in bs cs ≡ true
    → member a bs ≡ true
    → member a cs ≡ true
unfolding member
all_in-member [] cs a h here = absurd (ground arith)
all_in-member (b ∷ bs) cs a h here = elim (Bool-cases (same_address a b)) [
  | inl same ↦ rw (same_address-eq a b same) (ground arith)
  | inr other ↦ all_in-member bs cs a (ground arith) (ground arith)
]

all_closed-member :
    (store : Store) (objects universe : List Address) (a b : Address)
    → all_closed store objects universe ≡ true
    → member a objects ≡ true
    → member b (successors store a) ≡ true
    → member b universe ≡ true
unfolding member
all_closed-member store [] universe a b h here held = absurd (ground arith)
all_closed-member store (c ∷ objects) universe a b h here held =
    elim (Bool-cases (same_address a c)) [
      | inl same ↦
          all_in-member (successors store c) universe b (ground arith)
            (subst (λ x. member b (successors store x) ≡ true) (same_address-eq a c same) held)
      | inr other ↦ all_closed-member store objects universe a b (ground arith) (ground arith) held
    ]

pub is_closed-IsClosed :
    (store : Store) (roots universe : List Address)
    → is_closed store roots universe ≡ true
    → IsClosed store roots universe
unfolding is_closed
is_closed-IsClosed store roots universe h = record {
  has_roots = λ a here. all_in-member roots universe a (ground arith) here;
  has_successors =
      λ a b here held. all_closed-member store universe universe a b (ground arith) here held;
}
