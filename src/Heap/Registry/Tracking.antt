-- ===== src/Heap/Registry/Tracking.antt =====
-- src/runtime/heap.cpp: what `track` registers, and what it leaves registered.
use vxx.Prelude.{ℕ, ◌≡◌, refl, Bool, true, false, List, [], ◌∷◌, arith}
use vxx.Heap.Value.{Address, map_at, list_at, tuple_at, class_at, instance_at, closure_at}
use vxx.Heap.Registry.{
  RuntimeHeap, registry, with_registry, at_kind, number, has, track_weak, track,
}

-- No other object that is alive stands where the object stands.
abbrev pub IsAlone : (ℕ → ℕ) → (ℕ → Bool) → ℕ → Type 0
IsAlone memory expired i = (j : ℕ) → memory j ≡ memory i → expired j ≡ false → j ≡ i

module _ (memory : ℕ → ℕ) (expired : ℕ → Bool) (i : ℕ) (alone : IsAlone memory expired i) where
  track_weak-new : (entries : List ℕ) → has i (track_weak memory expired i entries).entries ≡ true
  unfolding track_weak
  track_weak-new [] = ground arith
  track_weak-new (j ∷ entries) =
      let rest = track_weak-new entries in let same = alone j in grind (arith, rest, same)

  track_weak-old :
      (entries : List ℕ) (j : ℕ)
      → has j entries ≡ true
      → expired j ≡ false
      → has j (track_weak memory expired i entries).entries ≡ true
  unfolding track_weak
  track_weak-old [] j here fresh = absurd (ground arith)
  track_weak-old (k ∷ entries) j here fresh =
      let rest = track_weak-old entries j in let same = alone j in grind (arith, rest, same)

registry-with_registry :
    (a : Address) (entries : List ℕ) (heap : RuntimeHeap) (generation : ℕ)
    → registry a (record (with_registry a entries heap) { allocation_generation = generation })
      ≡ entries
unfolding registry with_registry
registry-with_registry (map_at i) entries heap generation = refl
registry-with_registry (list_at i) entries heap generation = refl
registry-with_registry (tuple_at i) entries heap generation = refl
registry-with_registry (class_at i) entries heap generation = refl
registry-with_registry (instance_at i) entries heap generation = refl
registry-with_registry (closure_at i) entries heap generation = refl

at_kind-number : (a : Address) → at_kind a (number a) ≡ a
at_kind-number (map_at i) = refl
at_kind-number (list_at i) = refl
at_kind-number (tuple_at i) = refl
at_kind-number (class_at i) = refl
at_kind-number (instance_at i) = refl
at_kind-number (closure_at i) = refl

-- If no other live object of its kind stands where an object stands, then a heap that tracks the object has it in the
-- registry of its kind, and every live object that was in that registry is still there: an entry that is
-- replaced, since its memory is used again, is the entry of an object that is gone.
pub track-registers :
    (memory : Address → ℕ) (expired : Address → Bool) (a : Address) (heap : RuntimeHeap)
    → IsAlone (λ j. memory (at_kind a j)) (λ j. expired (at_kind a j)) (number a)
    → (has (number a) (registry a (track memory expired a heap)) ≡ true)
      × ((j : ℕ)
          → has j (registry a heap) ≡ true
          → expired (at_kind a j) ≡ false
          → has j (registry a (track memory expired a heap)) ≡ true)
unfolding track
track-registers memory expired a heap alone =
    let memory_of = λ (j : ℕ). memory (at_kind a j) in
    let expired_of = λ (j : ℕ). expired (at_kind a j) in
    rw
      (registry-with_registry a
        (track_weak memory_of expired_of (number a) (registry a heap)).entries heap _)
      (
        track_weak-new memory_of expired_of (number a) alone (registry a heap),
        track_weak-old memory_of expired_of (number a) alone (registry a heap),
      )
