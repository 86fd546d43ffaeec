-- ===== src/Heap/Collect.antt =====
-- src/runtime/heap.cpp: `collect`.
mod Objects
pub mod Sweep
pub mod SweepAll
pub mod Safety
use vxx.Prelude.{
  ℕ, ◌+◌, ◌/◌, Bool, true, false, not, ◌&&◌, ◌==◌, leb, Option, none, some, List, [], ◌∷◌, length,
  if◌then◌else◌,
}
use vxx.Heap.Value.{
  StackValue, RuntimeClass, RuntimeInstance, RuntimeClosure, Store, Address, map_at, list_at,
  tuple_at, class_at, instance_at, closure_at, member,
}
use vxx.Heap.Mark.{Marked, mark_roots}
use vxx.Heap.Registry.{RuntimeHeap, RuntimeHeapStats, prune_expired, live_count, tracked_size}

abbrev pub update {ℓ} : {A : Type ℓ} → (ℕ → A) → ℕ → A → ℕ → A
update table i value j = if i == j then value else table j

-- The `clearEdges` of the six kinds.
unfoldable pub clear : Address → Store → Store
clear (map_at i) store = record store { maps = update store.maps i [] }
clear (list_at i) store = record store { lists = update store.lists i [] }
clear (tuple_at i) store = record store { tuples = update store.tuples i [] }
clear (instance_at i) store = record store {
  instances = update store.instances i (record { klass = none; fields = [] });
}
clear (class_at i) store = record store {
  classes =
      update store.classes i
        (record { name = (store.classes i).name; superclass = none; methods = [] });
}
clear (closure_at i) store = record store {
  closures = update store.closures i (record {
    function_id = (store.closures i).function_id;
    captures = [];
    method_owner_class = none;
  });
}

-- for (value : garbage) clearEdges(*value)
pub clear_all : (ℕ → Address) → List ℕ → Store → Store
clear_all kind [] store = store
clear_all kind (i ∷ garbage) store = clear_all kind garbage (clear (kind i) store)

-- The objects of a registry that are alive and not marked.
pub garbage_of : (Address → Bool) → (ℕ → Address) → List Address → List ℕ → List ℕ
garbage_of expired kind marked [] = []
garbage_of expired kind marked (i ∷ entries) =
    let rest = garbage_of expired kind marked entries in
    if expired (kind i) then rest else if member (kind i) marked then rest else i ∷ rest

pub record Swept : Type 0 where
  pub entries : List ℕ
  pub store : Store
  pub count : ℕ

module _ (expired : Store → Address → Bool) where
  pub prune : Store → (ℕ → Address) → List ℕ → List ℕ
  prune store kind entries = prune_expired (λ i. expired store (kind i)) entries

  -- The `pruneExpired` of the six registries.
  pub prune_all : Store → RuntimeHeap → RuntimeHeap
  prune_all store heap = record heap {
    maps = prune store map_at heap.maps;
    lists = prune store list_at heap.lists;
    tuples = prune store tuple_at heap.tuples;
    classes = prune store class_at heap.classes;
    instances = prune store instance_at heap.instances;
    closures = prune store closure_at heap.closures;
  }

  -- sweepRegistry
  pub sweep_registry : (ℕ → Address) → List Address → List ℕ → Store → Swept
  sweep_registry kind marked entries store =
      let garbage = garbage_of (expired store) kind marked entries in
      let cleared = clear_all kind garbage store in
      record { entries = prune cleared kind entries; store = cleared; count = length garbage }

  pub record Sweeping : Type 0 where
    pub heap : RuntimeHeap
    pub store : Store
    pub count : ℕ

  -- The six sweeps, in their order.
  pub sweep_all : List Address → RuntimeHeap → Store → Sweeping
  sweep_all marked heap store =
      let maps = sweep_registry map_at marked heap.maps store in
      let lists = sweep_registry list_at marked heap.lists maps.store in
      let tuples = sweep_registry tuple_at marked heap.tuples lists.store in
      let instances = sweep_registry instance_at marked heap.instances tuples.store in
      let classes = sweep_registry class_at marked heap.classes instances.store in
      let closures = sweep_registry closure_at marked heap.closures classes.store in
      record {
        heap = record heap {
          maps = maps.entries;
          lists = lists.entries;
          tuples = tuples.entries;
          instances = instances.entries;
          classes = classes.entries;
          closures = closures.entries;
        };
        store = closures.store;
        count =
            maps.count + lists.count + tuples.count + instances.count + classes.count
            + closures.count;
      }

  pub record Collection : Type 0 where
    pub heap : RuntimeHeap
    pub store : Store
    pub stats : RuntimeHeapStats

  -- std::max
  abbrev max : ℕ → ℕ → ℕ
  max a b = if leb a b then b else a

  -- What follows the marking.
  pub after_marking : RuntimeHeap → Store → Marked → Collection
  after_marking heap store done =
      let swept = sweep_all done.marked heap store in
      let kept = prune_all swept.store swept.heap in
      let after = tracked_size kept in
      record {
        heap = record kept {
          collected_allocation_generation = kept.allocation_generation;
          collection_budget = max 256 (max after done.traced / 2);
        };
        store = swept.store;
        stats = record {
          tracked_before = tracked_size heap;
          marked = length done.marked;
          swept = swept.count;
          tracked_after = after;
        };
      }

  -- The fuel is the one of the marking.
  unfoldable pub collect : ℕ → List StackValue → RuntimeHeap → Store → Option Collection
  collect fuel roots heap store = elim (mark_roots fuel store roots [] 0) [
    | none ↦ none
    | some done ↦ some (after_marking (prune_all store heap) store done)
  ]

  -- trackedObjectCount: the registries that it leaves, and the number.
  pub tracked_object_count : Store → RuntimeHeap → RuntimeHeap × ℕ
  tracked_object_count store heap =
      let kept = prune_all store heap in
      (
        kept,
        live_count (λ i. expired store (map_at i)) kept.maps
            + live_count (λ i. expired store (list_at i)) kept.lists
            + live_count (λ i. expired store (tuple_at i)) kept.tuples
            + live_count (λ i. expired store (class_at i)) kept.classes
            + live_count (λ i. expired store (instance_at i)) kept.instances
            + live_count (λ i. expired store (closure_at i)) kept.closures,
      )
