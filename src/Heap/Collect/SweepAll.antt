-- ===== src/Heap/Collect/SweepAll.antt =====
-- src/runtime/heap.cpp: what the sweeps of the six registries do together.
use vxx.Prelude.{◌≡◌, ◌⊎◌, inl, inr, Bool, true, false, List}
use vxx.Heap.Value.{
  Store, Address, map_at, list_at, tuple_at, class_at, instance_at, closure_at, member,
}
use vxx.Heap.Registry.{RuntimeHeap, registry, number, has}
use vxx.Heap.Collect.{prune, prune_all, sweep_registry, sweep_all}
use vxx.Heap.Collect.Objects.{SameObject, SameObject-trans}
use vxx.Heap.Collect.Sweep.{
  has-prune_expired, has-prune_fresh, sweep_registry-SameObject, Lasts, IsOver,
  sweep_registry-keeps_IsOver, sweep_registry-IsOver, has-sweep_registry,
}

or_later : {A B C : Type 0} → (B → C) → A ⊎ B → A ⊎ C
or_later f (inl a) = inl a
or_later f (inr b) = inr (f b)

module _ (expired : Store → Address → Bool) where
  abbrev swept_1 : List Address → RuntimeHeap → Store → Store
  swept_1 marked heap store = (sweep_registry expired map_at marked heap.maps store).store

  abbrev swept_2 : List Address → RuntimeHeap → Store → Store
  swept_2 marked heap store =
      (sweep_registry expired list_at marked heap.lists (swept_1 marked heap store)).store

  abbrev swept_3 : List Address → RuntimeHeap → Store → Store
  swept_3 marked heap store =
      (sweep_registry expired tuple_at marked heap.tuples (swept_2 marked heap store)).store

  abbrev swept_4 : List Address → RuntimeHeap → Store → Store
  swept_4 marked heap store =
      (sweep_registry expired instance_at marked heap.instances (swept_3 marked heap store)).store

  abbrev swept_5 : List Address → RuntimeHeap → Store → Store
  swept_5 marked heap store =
      (sweep_registry expired class_at marked heap.classes (swept_4 marked heap store)).store

  abbrev swept_6 : List Address → RuntimeHeap → Store → Store
  swept_6 marked heap store =
      (sweep_registry expired closure_at marked heap.closures (swept_5 marked heap store)).store

  -- What is marked keeps its contents in the six sweeps.
  pub sweep_all-SameObject :
      (marked : List Address) (heap : RuntimeHeap) (store : Store) (a : Address)
      → member a marked ≡ true
      → SameObject a store (sweep_all expired marked heap store).store
  unfolding sweep_all
  sweep_all-SameObject marked heap store a kept =
      SameObject-trans a store (swept_1 marked heap store) (swept_6 marked heap store)
        (sweep_registry-SameObject expired map_at marked heap.maps store a kept)
        (SameObject-trans a (swept_1 marked heap store) (swept_2 marked heap store)
          (swept_6 marked heap store)
          (sweep_registry-SameObject expired list_at marked heap.lists (swept_1 marked heap store) a
            kept)
          (SameObject-trans a (swept_2 marked heap store) (swept_3 marked heap store)
            (swept_6 marked heap store)
            (sweep_registry-SameObject expired tuple_at marked heap.tuples
              (swept_2 marked heap store) a kept)
            (SameObject-trans a (swept_3 marked heap store) (swept_4 marked heap store)
              (swept_6 marked heap store)
              (sweep_registry-SameObject expired instance_at marked heap.instances
                (swept_3 marked heap store) a kept)
              (SameObject-trans a (swept_4 marked heap store) (swept_5 marked heap store)
                (swept_6 marked heap store)
                (sweep_registry-SameObject expired class_at marked heap.classes
                  (swept_4 marked heap store) a kept)
                (sweep_registry-SameObject expired closure_at marked heap.closures
                  (swept_5 marked heap store) a kept)))))

  module _ (lasts : Lasts expired) (marked : List Address) (heap : RuntimeHeap)
      (store : Store) where
    IsOver-from_5 :
        (a : Address)
        → IsOver expired a (swept_5 marked heap store)
        → IsOver expired a (swept_6 marked heap store)
    IsOver-from_5 a over =
        sweep_registry-keeps_IsOver expired lasts closure_at marked heap.closures
          (swept_5 marked heap store) a over

    IsOver-from_4 :
        (a : Address)
        → IsOver expired a (swept_4 marked heap store)
        → IsOver expired a (swept_6 marked heap store)
    IsOver-from_4 a over = IsOver-from_5 a (
        sweep_registry-keeps_IsOver expired lasts class_at marked heap.classes
          (swept_4 marked heap store) a over)

    IsOver-from_3 :
        (a : Address)
        → IsOver expired a (swept_3 marked heap store)
        → IsOver expired a (swept_6 marked heap store)
    IsOver-from_3 a over = IsOver-from_4 a (
        sweep_registry-keeps_IsOver expired lasts instance_at marked heap.instances
          (swept_3 marked heap store) a over)

    IsOver-from_2 :
        (a : Address)
        → IsOver expired a (swept_2 marked heap store)
        → IsOver expired a (swept_6 marked heap store)
    IsOver-from_2 a over = IsOver-from_3 a (
        sweep_registry-keeps_IsOver expired lasts tuple_at marked heap.tuples
          (swept_2 marked heap store) a over)

    IsOver-from_1 :
        (a : Address)
        → IsOver expired a (swept_1 marked heap store)
        → IsOver expired a (swept_6 marked heap store)
    IsOver-from_1 a over = IsOver-from_2 a (
        sweep_registry-keeps_IsOver expired lasts list_at marked heap.lists
          (swept_1 marked heap store) a over)

    IsOver-from_0 :
        (a : Address) → IsOver expired a store → IsOver expired a (swept_6 marked heap store)
    IsOver-from_0 a over =
        IsOver-from_1 a
          (sweep_registry-keeps_IsOver expired lasts map_at marked heap.maps store a over)

    -- What is over stays so in the six sweeps.
    pub sweep_all-keeps_IsOver :
        (a : Address)
        → IsOver expired a store
        → IsOver expired a (sweep_all expired marked heap store).store
    unfolding sweep_all
    sweep_all-keeps_IsOver a over = IsOver-from_0 a over

    -- What was in a registry is marked, or it is over after the six sweeps.
    pub sweep_all-IsOver :
        (a : Address)
        → has (number a) (registry a heap) ≡ true
        → (member a marked ≡ true) ⊎ IsOver expired a (sweep_all expired marked heap store).store
    unfolding sweep_all registry
    sweep_all-IsOver (map_at i) h =
        or_later (IsOver-from_1 (map_at i))
          (sweep_registry-IsOver expired lasts map_at marked heap.maps store i h)
    sweep_all-IsOver (list_at i) h = or_later (IsOver-from_2 (list_at i)) (
        sweep_registry-IsOver expired lasts list_at marked heap.lists (swept_1 marked heap store) i
          h)
    sweep_all-IsOver (tuple_at i) h = or_later (IsOver-from_3 (tuple_at i)) (
        sweep_registry-IsOver expired lasts tuple_at marked heap.tuples (swept_2 marked heap store)
          i h)
    sweep_all-IsOver (instance_at i) h = or_later (IsOver-from_4 (instance_at i)) (
        sweep_registry-IsOver expired lasts instance_at marked heap.instances
          (swept_3 marked heap store) i h)
    sweep_all-IsOver (class_at i) h = or_later (IsOver-from_5 (class_at i)) (
        sweep_registry-IsOver expired lasts class_at marked heap.classes (swept_4 marked heap store)
          i h)
    sweep_all-IsOver (closure_at i) h =
        or_later (λ over. over)
          (sweep_registry-IsOver expired lasts closure_at marked heap.closures
            (swept_5 marked heap store) i h)

  -- The sweeps add nothing to a registry.
  pub has-sweep_all :
      (marked : List Address) (heap : RuntimeHeap) (store : Store) (a : Address)
      → has (number a) (registry a (sweep_all expired marked heap store).heap) ≡ true
      → has (number a) (registry a heap) ≡ true
  unfolding sweep_all registry
  has-sweep_all marked heap store (map_at i) h =
      has-sweep_registry expired map_at marked heap.maps store i h
  has-sweep_all marked heap store (list_at i) h =
      has-sweep_registry expired list_at marked heap.lists (swept_1 marked heap store) i h
  has-sweep_all marked heap store (tuple_at i) h =
      has-sweep_registry expired tuple_at marked heap.tuples (swept_2 marked heap store) i h
  has-sweep_all marked heap store (instance_at i) h =
      has-sweep_registry expired instance_at marked heap.instances (swept_3 marked heap store) i h
  has-sweep_all marked heap store (class_at i) h =
      has-sweep_registry expired class_at marked heap.classes (swept_4 marked heap store) i h
  has-sweep_all marked heap store (closure_at i) h =
      has-sweep_registry expired closure_at marked heap.closures (swept_5 marked heap store) i h

  -- What `pruneExpired` leaves was there, and is alive.
  pub has-prune_all :
      (store : Store) (heap : RuntimeHeap) (a : Address)
      → has (number a) (registry a (prune_all expired store heap)) ≡ true
      → (has (number a) (registry a heap) ≡ true) × (expired store a ≡ false)
  unfolding prune_all prune registry
  has-prune_all store heap (map_at i) h =
      has-prune_expired (λ j. expired store (map_at j)) heap.maps i h
  has-prune_all store heap (list_at i) h =
      has-prune_expired (λ j. expired store (list_at j)) heap.lists i h
  has-prune_all store heap (tuple_at i) h =
      has-prune_expired (λ j. expired store (tuple_at j)) heap.tuples i h
  has-prune_all store heap (instance_at i) h =
      has-prune_expired (λ j. expired store (instance_at j)) heap.instances i h
  has-prune_all store heap (class_at i) h =
      has-prune_expired (λ j. expired store (class_at j)) heap.classes i h
  has-prune_all store heap (closure_at i) h =
      has-prune_expired (λ j. expired store (closure_at j)) heap.closures i h

  -- What is alive is left.
  pub has-prune_all_fresh :
      (store : Store) (heap : RuntimeHeap) (a : Address)
      → has (number a) (registry a heap) ≡ true
      → expired store a ≡ false
      → has (number a) (registry a (prune_all expired store heap)) ≡ true
  unfolding prune_all prune registry
  has-prune_all_fresh store heap (map_at i) h fresh =
      has-prune_fresh (λ j. expired store (map_at j)) heap.maps i h fresh
  has-prune_all_fresh store heap (list_at i) h fresh =
      has-prune_fresh (λ j. expired store (list_at j)) heap.lists i h fresh
  has-prune_all_fresh store heap (tuple_at i) h fresh =
      has-prune_fresh (λ j. expired store (tuple_at j)) heap.tuples i h fresh
  has-prune_all_fresh store heap (instance_at i) h fresh =
      has-prune_fresh (λ j. expired store (instance_at j)) heap.instances i h fresh
  has-prune_all_fresh store heap (class_at i) h fresh =
      has-prune_fresh (λ j. expired store (class_at j)) heap.classes i h fresh
  has-prune_all_fresh store heap (closure_at i) h fresh =
      has-prune_fresh (λ j. expired store (closure_at j)) heap.closures i h fresh
