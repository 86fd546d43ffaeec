-- ===== src/Heap/Graph.antt =====
-- The object graph that src/runtime/heap.cpp follows: the objects that an object holds.
pub mod Closed
use vxx.Prelude.{
  ℕ, suc, ◌+◌, ◌≤◌, ◌≡◌, refl, inl, inr, Bool, true, false, ◌||◌, ◌&&◌, Option, none, some, List,
  [], ◌∷◌, ◌++◌, length, if◌then◌else◌, Bool-cases, arith,
}
use mathlib.Core.Path.{subst}
use vxx.Heap.Value.{
  StackValue, map_handle, list_handle, tuple_handle, class_handle, instance_handle, closure_handle,
  Store, Address, map_at, list_at, tuple_at, class_at, instance_at, closure_at, same_address,
  same_address_iff, member, values, captured,
}

abbrev pub class_handles : Option ℕ → List Address
class_handles none = []
class_handles (some k) = class_at k ∷ []

-- The object that a value leads to.
abbrev pub handles_of : StackValue → List Address
handles_of (map_handle (some i)) = map_at i ∷ []
handles_of (list_handle (some i)) = list_at i ∷ []
handles_of (tuple_handle (some i)) = tuple_at i ∷ []
handles_of (class_handle k) = class_handles k
handles_of (instance_handle (some i)) = instance_at i ∷ []
handles_of (closure_handle (some i)) = closure_at i ∷ []
handles_of _ = []

abbrev pub handles : List StackValue → List Address
handles [] = []
handles (v ∷ vs) = handles_of v ++ handles vs

-- The class that an object holds.
abbrev pub class_of : Store → Address → Option ℕ
class_of store (class_at i) = (store.classes i).superclass
class_of store (instance_at i) = (store.instances i).klass
class_of store (closure_at i) = (store.closures i).method_owner_class
class_of store _ = none

-- The values that an object holds.
abbrev pub children : Store → Address → List StackValue
children store (map_at i) = values (store.maps i)
children store (list_at i) = store.lists i
children store (tuple_at i) = store.tuples i
children store (class_at i) = []
children store (instance_at i) = values (store.instances i).fields
children store (closure_at i) = captured store (store.closures i).captures

abbrev pub successors : Store → Address → List Address
successors store a = class_handles (class_of store a) ++ handles (children store a)

-- Some chain of handles leads from a root to the object.
pub data Reach (store : Store) (roots : List Address) : Address → Type 0 where
  root : {a : Address} → member a roots ≡ true → Reach store roots a
  step :
      {a b : Address}
      → Reach store roots a
      → member b (successors store a) ≡ true
      → Reach store roots b

-- A set of objects that holds the roots and what its objects hold.
pub record IsClosed (store : Store) (roots universe : List Address) : Type 0 where
  pub has_roots : (a : Address) → member a roots ≡ true → member a universe ≡ true
  pub has_successors :
      (a b : Address)
      → member a universe ≡ true
      → member b (successors store a) ≡ true
      → member b universe ≡ true

pub Reach-IsClosed :
    (store : Store) (roots universe : List Address) (a : Address)
    → IsClosed store roots universe
    → Reach store roots a
    → member a universe ≡ true
Reach-IsClosed store roots universe a closed (root h) = closed.has_roots a h
Reach-IsClosed store roots universe b closed (step {a = a} r h) =
    closed.has_successors a b (Reach-IsClosed store roots universe a closed r) h

pub member-append :
    (a : Address) (bs cs : List Address) → member a (bs ++ cs) ≡ (member a bs || member a cs)
unfolding member
member-append a [] cs = refl
member-append a (b ∷ bs) cs = ground (arith, member-append a bs cs)

pub same_address_refl : (a : Address) → same_address a a ≡ true
same_address_refl a = (same_address_iff a a).1 refl

pub same_address-eq : (a b : Address) → same_address a b ≡ true → a ≡ b
same_address-eq a b = (same_address_iff a b).0

in_and_out :
    (a b : Address) (objects : List Address)
    → member a objects ≡ true
    → member b objects ≡ false
    → a ≡ b
    → ⊥
in_and_out a b objects here missing same =
    let also : member b objects ≡ true = rw (← same) here in ground arith

pub member-differs :
    (a b : Address) (objects : List Address)
    → member a objects ≡ true
    → member b objects ≡ false
    → same_address a b ≡ false
member-differs a b objects here missing = elim (Bool-cases (same_address a b)) [
  | inl same ↦ absurd (in_and_out a b objects here missing (same_address-eq a b same))
  | inr other ↦ other
]

pub member_head : (a : Address) (extra : List Address) → member a (a ∷ extra) ≡ true
unfolding member
member_head a extra = rw (same_address_refl a) refl

-- The work that is left for the objects which are not marked: one for each, and one for each value that it holds.
abbrev pub cost : Store → Address → ℕ
cost store a = suc (length (children store a))

unfoldable pub weight : Store → List Address → List Address → ℕ
weight store [] marked = 0
weight store (a ∷ universe) marked =
    let rest = weight store universe marked in if member a marked then rest else cost store a + rest

weight-le :
    (store : Store) (universe marked : List Address) (a : Address)
    → weight store universe (a ∷ marked) ≤ weight store universe marked
unfolding weight member
weight-le store [] marked a = omega arith
weight-le store (b ∷ universe) marked a = ground (arith, weight-le store universe marked a)

weight-mark_here :
    (store : Store) (universe marked : List Address) (a b : Address)
    → member a marked ≡ false
    → a ≡ b
    → cost store a + weight store (b ∷ universe) (a ∷ marked) ≤ weight store (b ∷ universe) marked
unfolding weight member
weight-mark_here store universe marked a b new same =
    rw (← same, same_address_refl a, new) (omega (arith, weight-le store universe marked a))

weight-mark_later :
    (store : Store) (universe marked : List Address) (a b : Address)
    → member a (b ∷ universe) ≡ true
    → same_address a b ≡ false
    → (member a universe ≡ true
        → cost store a + weight store universe (a ∷ marked) ≤ weight store universe marked)
    → cost store a + weight store (b ∷ universe) (a ∷ marked) ≤ weight store (b ∷ universe) marked
unfolding weight member
weight-mark_later store universe marked a b here other rest =
    let fewer = rest (ground arith) in ground arith

-- Marking an object takes its work away.
pub weight-mark :
    (store : Store) (universe marked : List Address) (a : Address)
    → member a universe ≡ true
    → member a marked ≡ false
    → cost store a + weight store universe (a ∷ marked) ≤ weight store universe marked
unfolding member
weight-mark store [] marked a here new = absurd (ground arith)
weight-mark store (b ∷ universe) marked a here new = elim (Bool-cases (same_address a b)) [
  | inl same ↦ weight-mark_here store universe marked a b new (same_address-eq a b same)
  | inr other ↦
      weight-mark_later store universe marked a b here other
        (λ later. weight-mark store universe marked a later new)
]
