-- ===== src/Heap/Mark.antt =====
-- src/runtime/heap.cpp: `markValue`.
pub mod Invariant
pub mod Rounds
pub mod Total
use vxx.Prelude.{
  ℕ, zero, suc, ◌+◌, Bool, true, false, Option, none, some, List, [], ◌∷◌, if◌then◌else◌,
}
use vxx.Prelude.Bytes.{Bytes}
use vxx.Heap.Value.{
  StackValue, int_value, double_value, string_value, null_value, map_handle, list_handle,
  tuple_handle, class_handle, instance_handle, closure_handle, abi_value, Store, Address, map_at,
  list_at, tuple_at, class_at, instance_at, closure_at, member, values, captured,
}

-- pending.push_back of every value in turn; the top of the stack is in front.
pub push_all : List StackValue → List StackValue → List StackValue
push_all [] pending = pending
push_all (v ∷ vs) pending = push_all vs (v ∷ pending)

-- while (klass != nullptr && marked.insert(klass).second) klass = klass->superclass
pub mark_classes : ℕ → Store → Option ℕ → List Address → Option (List Address)
mark_classes zero store klass marked = none
mark_classes (suc fuel) store none marked = some marked
mark_classes (suc fuel) store (some k) marked =
    let rest = mark_classes fuel store (store.classes k).superclass (class_at k ∷ marked) in
    if member (class_at k) marked then some marked else rest

-- The worklist and the marked objects after a round.
pub record Marking : Type 0 where
  pub pending : List StackValue
  pub marked : List Address

pub with_classes : List StackValue → Option (List Address) → Option Marking
with_classes pending none = none
with_classes pending (some marked) = some (record { pending = pending; marked = marked })

-- An object with its values: nothing happens if it is marked.
pub mark_object :
    ℕ
    → Store
    → Address
    → Option ℕ
    → List StackValue
    → List StackValue
    → List Address
    → Option Marking
mark_object fuel store a klass children pending marked =
    if member a marked
    then some (record { pending = pending; marked = marked })
    else with_classes (push_all children pending) (mark_classes fuel store klass (a ∷ marked))

-- The body of the loop, for the value that was popped.
pub mark_round : ℕ → Store → StackValue → List StackValue → List Address → Option Marking
mark_round fuel store (map_handle (some i)) pending marked =
    mark_object fuel store (map_at i) none (values (store.maps i)) pending marked
mark_round fuel store (list_handle (some i)) pending marked =
    mark_object fuel store (list_at i) none (store.lists i) pending marked
mark_round fuel store (tuple_handle (some i)) pending marked =
    mark_object fuel store (tuple_at i) none (store.tuples i) pending marked
mark_round fuel store (class_handle k) pending marked =
    with_classes pending (mark_classes fuel store k marked)
mark_round fuel store (instance_handle (some i)) pending marked =
    mark_object fuel store (instance_at i) (store.instances i).klass
      (values (store.instances i).fields) pending marked
mark_round fuel store (closure_handle (some i)) pending marked =
    mark_object fuel store (closure_at i) (store.closures i).method_owner_class
      (captured store (store.closures i).captures) pending marked
mark_round fuel store _ pending marked = some (record { pending = pending; marked = marked })

-- What a marking gives: the marked objects, and how many slots were traced.
pub record Marked : Type 0 where
  pub marked : List Address
  pub traced : ℕ

-- The loop; `none` where the fuel is used up.
pub mark_loop : ℕ → Store → List StackValue → List Address → ℕ → Option Marked
mark_loop zero store pending marked traced = none
mark_loop (suc fuel) store [] marked traced = some (record { marked = marked; traced = traced })
mark_loop (suc fuel) store (value ∷ pending) marked traced =
    elim (mark_round fuel store value pending marked) [
      | none ↦ none
      | some next ↦ mark_loop fuel store next.pending next.marked (traced + 1)
    ]

pub mark_value : ℕ → Store → StackValue → List Address → ℕ → Option Marked
mark_value fuel store value marked traced = mark_loop fuel store (value ∷ []) marked traced

-- The loop of `collect` over the roots.
pub mark_roots : ℕ → Store → List StackValue → List Address → ℕ → Option Marked
mark_roots fuel store [] marked traced = some (record { marked = marked; traced = traced })
mark_roots fuel store (root ∷ roots) marked traced =
    elim (mark_value fuel store root marked traced) [
      | none ↦ none
      | some next ↦ mark_roots fuel store roots next.marked next.traced
    ]
