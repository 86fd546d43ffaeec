-- ===== src/Heap/TrackValue.antt =====
-- src/runtime/heap.cpp: `trackValue`.
pub mod Live
mod Rounds
pub mod Total
use vxx.Prelude.{ℕ, zero, suc, Bool, true, false, Option, none, some, List, [], ◌∷◌, if◌then◌else◌}
use vxx.Heap.Value.{
  StackValue, map_handle, list_handle, tuple_handle, class_handle, instance_handle, closure_handle,
  Store, Address, map_at, list_at, tuple_at, class_at, instance_at, closure_at, member, values,
  captured,
}
use vxx.Heap.Mark.{push_all}
use vxx.Heap.Registry.{RuntimeHeap, track}

pub record Visit : Type 0 where
  pub visited : List Address
  pub heap : RuntimeHeap

pub record Tracking : Type 0 where
  pub pending : List StackValue
  pub visited : List Address
  pub heap : RuntimeHeap

-- if (klass != nullptr) pending.emplace_back(klass)
abbrev pub push_class : Option ℕ → List StackValue → List StackValue
push_class none pending = pending
push_class (some k) pending = class_handle (some k) ∷ pending

abbrev pub with_visit : List StackValue → Option Visit → Option Tracking
with_visit pending none = none
with_visit pending (some visit) =
    some (record { pending = pending; visited = visit.visited; heap = visit.heap })

module _ (memory : Address → ℕ) (expired : Address → Bool) (store : Store) where
  -- while (klass != nullptr && visited.insert(klass).second)
  pub track_classes : ℕ → Option ℕ → List Address → RuntimeHeap → Option Visit
  track_classes zero klass visited heap = none
  track_classes (suc fuel) none visited heap = some (record { visited = visited; heap = heap })
  track_classes (suc fuel) (some k) visited heap =
      let rest =
        track_classes fuel (store.classes k).superclass (class_at k ∷ visited)
          (track memory expired (class_at k) heap) in
      if member (class_at k) visited then some (record { visited = visited; heap = heap }) else rest

  pub track_object :
      Address
      → Option ℕ
      → List StackValue
      → List StackValue
      → List Address
      → RuntimeHeap
      → Option Tracking
  track_object a klass held pending visited heap =
      if member a visited
      then some (record { pending = pending; visited = visited; heap = heap })
      else some (record {
        pending = push_all held (push_class klass pending);
        visited = a ∷ visited;
        heap = track memory expired a heap;
      })

  -- The body of the loop, for the value that was popped.
  pub track_round : ℕ → StackValue → List StackValue → List Address → RuntimeHeap → Option Tracking
  track_round fuel (map_handle (some i)) pending visited heap =
      track_object (map_at i) none (values (store.maps i)) pending visited heap
  track_round fuel (list_handle (some i)) pending visited heap =
      track_object (list_at i) none (store.lists i) pending visited heap
  track_round fuel (tuple_handle (some i)) pending visited heap =
      track_object (tuple_at i) none (store.tuples i) pending visited heap
  track_round fuel (class_handle k) pending visited heap =
      with_visit pending (track_classes fuel k visited heap)
  track_round fuel (instance_handle (some i)) pending visited heap =
      track_object (instance_at i) (store.instances i).klass (values (store.instances i).fields)
        pending visited heap
  track_round fuel (closure_handle (some i)) pending visited heap =
      track_object (closure_at i) (store.closures i).method_owner_class
        (captured store (store.closures i).captures) pending visited heap
  track_round fuel _ pending visited heap =
      some (record { pending = pending; visited = visited; heap = heap })

  pub track_loop : ℕ → List StackValue → List Address → RuntimeHeap → Option RuntimeHeap
  track_loop zero pending visited heap = none
  track_loop (suc fuel) [] visited heap = some heap
  track_loop (suc fuel) (value ∷ pending) visited heap =
      elim (track_round fuel value pending visited heap) [
        | none ↦ none
        | some next ↦ track_loop fuel next.pending next.visited next.heap
      ]

  unfoldable pub track_value : ℕ → StackValue → RuntimeHeap → Option RuntimeHeap
  track_value fuel value heap = track_loop fuel (value ∷ []) [] heap
