-- ===== src/Heap/TrackValue/Live.antt =====
-- src/runtime/heap.cpp: tracking an object leaves the live ones registered.
use vxx.Prelude.{ℕ, ◌≡◌, Bool, true, false, List}
use vxx.Heap.Value.{
  Store, Address, map_at, list_at, tuple_at, class_at, instance_at, closure_at, member,
}
use vxx.Heap.Graph.{Reach}
use vxx.Heap.Registry.{RuntimeHeap, registry, at_kind, number, has, track, with_registry}
use vxx.Heap.Registry.Tracking.{IsAlone, track-registers}

module _ (memory : Address → ℕ) (expired : Address → Bool) where
  -- A live object stays registered when another one is tracked.
  pub track-keeps :
      (a b : Address) (heap : RuntimeHeap)
      → IsAlone (λ j. memory (at_kind a j)) (λ j. expired (at_kind a j)) (number a)
      → has (number b) (registry b heap) ≡ true
      → expired b ≡ false
      → has (number b) (registry b (track memory expired a heap)) ≡ true
  unfolding track registry with_registry
  track-keeps (map_at i) (map_at j) heap alone here live =
      (track-registers memory expired (map_at i) heap alone).1 j here live
  track-keeps (list_at i) (list_at j) heap alone here live =
      (track-registers memory expired (list_at i) heap alone).1 j here live
  track-keeps (tuple_at i) (tuple_at j) heap alone here live =
      (track-registers memory expired (tuple_at i) heap alone).1 j here live
  track-keeps (class_at i) (class_at j) heap alone here live =
      (track-registers memory expired (class_at i) heap alone).1 j here live
  track-keeps (instance_at i) (instance_at j) heap alone here live =
      (track-registers memory expired (instance_at i) heap alone).1 j here live
  track-keeps (closure_at i) (closure_at j) heap alone here live =
      (track-registers memory expired (closure_at i) heap alone).1 j here live
  track-keeps (map_at i) _ heap alone here live = here
  track-keeps (list_at i) _ heap alone here live = here
  track-keeps (tuple_at i) _ heap alone here live = here
  track-keeps (class_at i) _ heap alone here live = here
  track-keeps (instance_at i) _ heap alone here live = here
  track-keeps (closure_at i) _ heap alone here live = here

  -- Every object that can be reached is alive, and stands alone where it stands.
  pub record IsLive (store : Store) (roots : List Address) : Type 0 where
    pub alive : (a : Address) → Reach store roots a → expired a ≡ false
    pub alone :
        (a : Address)
        → Reach store roots a
        → IsAlone (λ j. memory (at_kind a j)) (λ j. expired (at_kind a j)) (number a)

  abbrev pub Registers : List Address → RuntimeHeap → Type 0
  Registers visited heap =
      (a : Address) → member a visited ≡ true → has (number a) (registry a heap) ≡ true
