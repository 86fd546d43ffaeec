-- ===== src/Heap/Registry.antt =====
-- src/include/vpp/runtime/heap.h and src/runtime/heap.cpp: the weak registries of a heap and `track`. An
-- entry is the number of its object; where the object stands in memory, and whether its last owner is gone
-- in a store, are what `std::shared_ptr` and `std::weak_ptr` say, and parameters.
pub mod Tracking
use vxx.Prelude.{
  ℕ, ◌+◌, ◌-◌, ◌%◌, ◌^◌, ◌≡◌, Bool, true, false, not, ◌==◌, ◌||◌, leb, Option, none, some, List, [],
  ◌∷◌, length, if◌then◌else◌,
}
use vxx.Heap.Value.{Store, Address, map_at, list_at, tuple_at, class_at, instance_at, closure_at}

pub record RuntimeHeap : Type 0 where
  pub maps : List ℕ
  pub lists : List ℕ
  pub tuples : List ℕ
  pub classes : List ℕ
  pub instances : List ℕ
  pub closures : List ℕ
  pub allocation_generation : ℕ
  pub collected_allocation_generation : ℕ
  pub collection_budget : ℕ

pub record RuntimeHeapStats : Type 0 where
  pub tracked_before : ℕ
  pub marked : ℕ
  pub swept : ℕ
  pub tracked_after : ℕ

-- The registry of the kind of an object.
unfoldable pub registry : Address → RuntimeHeap → List ℕ
registry (map_at i) heap = heap.maps
registry (list_at i) heap = heap.lists
registry (tuple_at i) heap = heap.tuples
registry (class_at i) heap = heap.classes
registry (instance_at i) heap = heap.instances
registry (closure_at i) heap = heap.closures

unfoldable pub with_registry : Address → List ℕ → RuntimeHeap → RuntimeHeap
with_registry (map_at i) entries heap = record heap { maps = entries }
with_registry (list_at i) entries heap = record heap { lists = entries }
with_registry (tuple_at i) entries heap = record heap { tuples = entries }
with_registry (class_at i) entries heap = record heap { classes = entries }
with_registry (instance_at i) entries heap = record heap { instances = entries }
with_registry (closure_at i) entries heap = record heap { closures = entries }

-- An object of the same kind.
abbrev pub at_kind : Address → ℕ → Address
at_kind (map_at i) j = map_at j
at_kind (list_at i) j = list_at j
at_kind (tuple_at i) j = tuple_at j
at_kind (class_at i) j = class_at j
at_kind (instance_at i) j = instance_at j
at_kind (closure_at i) j = closure_at j

abbrev pub number : Address → ℕ
number (map_at i) = i
number (list_at i) = i
number (tuple_at i) = i
number (class_at i) = i
number (instance_at i) = i
number (closure_at i) = i

-- pruneExpired
unfoldable pub prune_expired : (ℕ → Bool) → List ℕ → List ℕ
prune_expired expired [] = []
prune_expired expired (i ∷ entries) =
    let rest = prune_expired expired entries in if expired i then rest else i ∷ rest

abbrev pub has : ℕ → List ℕ → Bool
has i [] = false
has i (j ∷ entries) = i == j || has i entries

-- liveCount
pub live_count : (ℕ → Bool) → List ℕ → ℕ
live_count expired [] = 0
live_count expired (i ∷ entries) =
    let rest = live_count expired entries in if expired i then rest else rest + 1

-- What `trackWeak` leaves, and what it returns.
pub record Tracked : Type 0 where
  pub entries : List ℕ
  pub added : Bool

abbrev with_entry : ℕ → Tracked → Tracked
with_entry j tracked = record { entries = j ∷ tracked.entries; added = tracked.added }

-- trackWeak, for a value that is not null
unfoldable pub track_weak : (ℕ → ℕ) → (ℕ → Bool) → ℕ → List ℕ → Tracked
track_weak memory expired i [] = record { entries = i ∷ []; added = true }
track_weak memory expired i (j ∷ entries) =
    let rest = track_weak memory expired i entries in
    if memory j == memory i
    then (if expired j
        then record { entries = i ∷ entries; added = true }
        else record { entries = j ∷ entries; added = false })
    else with_entry j rest

-- ++allocationGeneration_
abbrev count_allocation : Address → RuntimeHeap → Tracked → RuntimeHeap
count_allocation a heap tracked = record (with_registry a tracked.entries heap) {
  allocation_generation =
      if tracked.added
      then (heap.allocation_generation + 1) % 2 ^ 64
      else heap.allocation_generation;
}

-- The six `track`, for a handle that is not null.
unfoldable pub track : (Address → ℕ) → (Address → Bool) → Address → RuntimeHeap → RuntimeHeap
unfolding registry with_registry
track memory expired a heap = count_allocation a heap (
    track_weak (λ j. memory (at_kind a j)) (λ j. expired (at_kind a j)) (number a)
      (registry a heap))

unfoldable pub needs_collection : RuntimeHeap → Bool
needs_collection heap =
    leb heap.collection_budget
      ((heap.allocation_generation + 2 ^ 64 - heap.collected_allocation_generation) % 2 ^ 64)

-- The size of the six registries.
pub tracked_size : RuntimeHeap → ℕ
tracked_size heap =
    length heap.maps
    + length heap.lists
    + length heap.tuples
    + length heap.classes
    + length heap.instances
    + length heap.closures
