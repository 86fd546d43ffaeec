-- ===== src/Heap/TrackValue/Total.antt =====
-- src/runtime/heap.cpp: `trackValue` ends, and registers all that can be reached.
use vxx.Prelude.{
  ℕ, zero, suc, ◌+◌, ◌*◌, ◌≤◌, ◌<◌, ◌≡◌, Bool, true, Option, none, some, List, [], ◌∷◌, ◌++◌,
  append-nil, append_assoc, length, arith,
}
use vxx.Heap.Value.{StackValue, Store, Address, member}
use vxx.Heap.Graph.{handles_of, handles, Reach, IsClosed, weight}
use vxx.Heap.Mark.Invariant.{Inv, Inv-start}
use vxx.Heap.Mark.Total.{reached-marked}
use vxx.Heap.Registry.{RuntimeHeap, registry, number, has}
use vxx.Heap.TrackValue.{Tracking, track_round, track_loop, track_value}
use vxx.Heap.TrackValue.Live.{IsLive, Registers}
use vxx.Heap.TrackValue.Rounds.{Tracks, track_round-Tracks}

-- Every object that can be reached is in the registry of its kind.
abbrev pub TracksReached : Store → List Address → Option RuntimeHeap → Type 0
TracksReached store roots none = ⊥
TracksReached store roots (some heap) =
    (a : Address) → Reach store roots a → has (number a) (registry a heap) ≡ true

module _ (memory : Address → ℕ) (expired : Address → Bool) (store : Store)
    (roots universe : List Address) (closed : IsClosed store roots universe)
    (live : IsLive memory expired store roots) where
  next-TracksReached :
      (fuel work : ℕ) (round : Option Tracking)
      → Tracks memory expired store roots universe closed live [] work round
      → ((next : Tracking)
          → Inv store roots (handles next.pending ++ []) next.visited
          → Registers memory expired next.visited next.heap
          → length next.pending + 2 * weight store universe next.visited ≤ work
          → TracksReached store roots
              (track_loop memory expired store fuel next.pending next.visited next.heap))
      → TracksReached store roots (elim round [
        | none ↦ none
        | some next ↦ track_loop memory expired store fuel next.pending next.visited next.heap
      ])
  next-TracksReached fuel work none tracks rest = tracks
  next-TracksReached fuel work (some next) tracks rest = rest next tracks.0 tracks.1 tracks.2

  track_loop-TracksReached :
      (fuel : ℕ) (pending : List StackValue) (visited : List Address) (heap : RuntimeHeap)
      → Inv store roots (handles pending ++ []) visited
      → Registers memory expired visited heap
      → length pending + 2 * weight store universe visited < fuel
      → TracksReached store roots (track_loop memory expired store fuel pending visited heap)
  unfolding track_loop
  track_loop-TracksReached zero pending visited heap inv registers enough = absurd (omega arith)
  track_loop-TracksReached (suc fuel) [] visited heap inv registers enough =
      λ a reached. registers a (reached-marked store roots universe closed visited a inv reached)
  track_loop-TracksReached (suc fuel) (value ∷ pending) visited heap inv registers enough =
      next-TracksReached fuel (length pending + 2 * weight store universe visited)
        (track_round memory expired store fuel value pending visited heap)
        (track_round-Tracks memory expired store roots universe closed live fuel value pending []
          visited heap (rw (← append_assoc (handles_of value) (handles pending) []) inv) registers
          (omega arith))
        (λ next invariant registered fewer.
          track_loop-TracksReached fuel next.pending next.visited next.heap invariant registered
            (omega arith))

nothing_marked : {T : Type 0} (a : Address) → member a [] ≡ true → T
unfolding member
nothing_marked a here = absurd (ground arith)

-- If every object that can be reached from a value is alive, and no other live object of its kind stands where it
-- stands, then with more fuel than twice the objects of a closed set and their values, tracking the value ends,
-- and the heap then tracks every object that can be reached from it.
pub track_value-TracksReached :
    (memory : Address → ℕ) (expired : Address → Bool) (store : Store) (universe : List Address)
    (value : StackValue) (heap : RuntimeHeap) (fuel : ℕ)
    → IsClosed store (handles (value ∷ [])) universe
    → IsLive memory expired store (handles (value ∷ []))
    → suc (2 * weight store universe []) < fuel
    → TracksReached store (handles (value ∷ [])) (track_value memory expired store fuel value heap)
unfolding track_value
track_value-TracksReached memory expired store universe value heap fuel closed live enough =
    track_loop-TracksReached memory expired store (handles (value ∷ [])) universe closed live fuel
      (value ∷ []) [] heap
      (rw (append-nil (handles (value ∷ []))) (Inv-start store (handles (value ∷ []))))
      (λ a here. nothing_marked a here) (omega arith)
