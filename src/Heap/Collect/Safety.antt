-- ===== src/Heap/Collect/Safety.antt =====
-- src/runtime/heap.cpp: what `collect` does to the objects that can be reached, and to the others that it tracks.
use vxx.Prelude.{
  ℕ, suc, ◌<◌, ◌≡◌, refl, ◌⊎◌, inl, inr, Bool, true, Bool-cases, arith, Option, none, some, List,
  [],
}
use mathlib.Core.Path.{subst}
use vxx.Heap.Value.{
  StackValue, Store, Address, map_at, list_at, tuple_at, class_at, instance_at, closure_at, member,
}
use vxx.Heap.Graph.{handles, Reach, IsClosed, weight}
use vxx.Heap.Mark.{Marked, mark_roots}
use vxx.Heap.Mark.Total.{MarksReached, mark_roots-MarksReached}
use vxx.Heap.Registry.{RuntimeHeap, registry, number, has}
use vxx.Heap.Collect.{prune_all, sweep_all, Sweeping, Collection, after_marking, collect}
use vxx.Heap.Collect.Objects.{SameObject, IsCut}
use vxx.Heap.Collect.Sweep.{Lasts, IsOver}
use vxx.Heap.Collect.SweepAll.{
  sweep_all-SameObject, sweep_all-keeps_IsOver, sweep_all-IsOver, has-sweep_all, has-prune_all,
  has-prune_all_fresh,
}

or_reached : {A B C : Type 0} → (A → B) → A ⊎ C → B ⊎ C
or_reached f (inl a) = inl (f a)
or_reached f (inr c) = inr c

-- The counters are no part of the registries.
registry-settled :
    (a : Address) (heap : RuntimeHeap) (generation budget : ℕ)
    → registry a
        (record heap { collected_allocation_generation = generation; collection_budget = budget })
      ≡ registry a heap
unfolding registry
registry-settled (map_at i) heap generation budget = refl
registry-settled (list_at i) heap generation budget = refl
registry-settled (tuple_at i) heap generation budget = refl
registry-settled (class_at i) heap generation budget = refl
registry-settled (instance_at i) heap generation budget = refl
registry-settled (closure_at i) heap generation budget = refl

module _ (expired : Store → Address → Bool) where
  -- The collection ends, and what the property says holds of it.
  abbrev pub Collects : (Collection expired → Type 0) → Option (Collection expired) → Type 0
  Collects Holds none = ⊥
  Collects Holds (some done) = Holds done

  abbrev pub Keeps : Store → List Address → Collection expired → Type 0
  Keeps store roots done = (a : Address) → Reach store roots a → SameObject a store done.store

  -- What was tracked before can be reached, or holds nothing any more, or has lost its last owner; and what is still
  -- tracked was so before, and can be reached or holds nothing any more.
  abbrev pub Cuts : RuntimeHeap → Store → List Address → Collection expired → Type 0
  Cuts heap store roots done =
      ((a : Address)
        → has (number a) (registry a heap) ≡ true
        → Reach store roots a ⊎ (IsCut a done.store ⊎ (expired done.store a ≡ true)))
      × ((a : Address)
          → has (number a) (registry a done.heap) ≡ true
          → (has (number a) (registry a heap) ≡ true) × (Reach store roots a ⊎ IsCut a done.store))

  collected :
      (Holds : Collection expired → Type 0) (store : Store) (heap : RuntimeHeap)
      (roots : List Address) (result : Option Marked)
      → MarksReached store roots result
      → ((done : Marked)
          → MarksReached store roots (some done)
          → Holds (after_marking expired heap store done))
      → Collects Holds
          (elim result [ none ↦ none | some done ↦ some (after_marking expired heap store done) ])
  collected Holds store heap roots none h rest = h
  collected Holds store heap roots (some done) h rest = rest done h

-- A collection ends with the same fuel as its marking, and keeps the contents of every object that can be reached from a
-- root, whatever the heap tracks and whichever objects lose their last owner on the way.
pub collect-Keeps :
    (expired : Store → Address → Bool) (store : Store) (heap : RuntimeHeap)
    (roots : List StackValue) (universe : List Address) (fuel : ℕ)
    → IsClosed store (handles roots) universe
    → suc (weight store universe []) < fuel
    → Collects expired (Keeps expired store (handles roots)) (collect expired fuel roots heap store)
unfolding collect after_marking
collect-Keeps expired store heap roots universe fuel closed enough =
    collected expired (Keeps expired store (handles roots)) store (prune_all expired store heap)
      (handles roots) (mark_roots fuel store roots [] 0)
      (mark_roots-MarksReached store roots universe fuel closed enough)
      (λ done reached a path.
        sweep_all-SameObject expired done.marked (prune_all expired store heap) store a
          ((reached.1 a).1 path))

module _ (expired : Store → Address → Bool) (lasts : Lasts expired) (marked : List Address)
    (heap : RuntimeHeap) (store : Store) where
  abbrev pruned : RuntimeHeap
  pruned = prune_all expired store heap

  abbrev swept : Sweeping expired
  swept = sweep_all expired marked pruned store

  tracked_fate :
      (a : Address)
      → has (number a) (registry a heap) ≡ true
      → (member a marked ≡ true) ⊎ IsOver expired a swept.store
  tracked_fate a tracked = elim (Bool-cases (expired store a)) [
    | inl gone ↦ inr (sweep_all-keeps_IsOver expired lasts marked pruned store a (inr gone))
    | inr fresh ↦
        sweep_all-IsOver expired lasts marked pruned store a
          (has-prune_all_fresh expired store heap a tracked fresh)
  ]

  still_tracked :
      (a : Address)
      → has (number a) (registry a (prune_all expired swept.store swept.heap)) ≡ true
      → (has (number a) (registry a heap) ≡ true) × ((member a marked ≡ true) ⊎ IsCut a swept.store)
  still_tracked a tracked =
      let kept = has-prune_all expired swept.store swept.heap a tracked in
      let before =
        (has-prune_all expired store heap a
          (has-sweep_all expired marked pruned store a kept.0)).0 in
      (
        before,
        elim (tracked_fate a before) [
          | inl found ↦ inl found
          | inr (inl cut) ↦ inr cut
          | inr (inr gone) ↦ absurd (grind (arith, gone, kept.1))
        ],
      )

-- If an object whose owners are gone stays so while edges are cut, then a collection ends with the same fuel as its
-- marking, and every object that the heap tracked before it can be reached from a root, or holds no other object any more,
-- or has lost its last owner. What the heap still tracks afterwards it tracked before, and it can be reached from a root
-- or holds no other object any more.
pub collect-Cuts :
    (expired : Store → Address → Bool) (store : Store) (heap : RuntimeHeap)
    (roots : List StackValue) (universe : List Address) (fuel : ℕ)
    → Lasts expired
    → IsClosed store (handles roots) universe
    → suc (weight store universe []) < fuel
    → Collects expired
        (Cuts expired heap store (handles roots))
        (collect expired fuel roots heap store)
unfolding collect after_marking
collect-Cuts expired store heap roots universe fuel lasts closed enough =
    collected expired (Cuts expired heap store (handles roots)) store (prune_all expired store heap)
      (handles roots) (mark_roots fuel store roots [] 0)
      (mark_roots-MarksReached store roots universe fuel closed enough)
      (λ done reached. (
        λ a tracked.
            or_reached (reached.1 a).0
              (tracked_fate expired lasts done.marked heap store a tracked),
        λ a tracked.
            let (before, fate) = still_tracked expired lasts done.marked heap store a (
              subst (λ entries. has (number a) entries ≡ true) (registry-settled a _ _ _)
                tracked) in
            (before, or_reached (reached.1 a).0 fate),
      ))
