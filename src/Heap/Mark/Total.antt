-- ===== src/Heap/Mark/Total.antt =====
-- src/runtime/heap.cpp: with enough fuel the marking ends, and the marked objects are the ones that can be reached.
use vxx.Prelude.{
  ℕ, zero, suc, ◌+◌, ◌≤◌, ◌<◌, ◌≡◌, ◌↔◌, true, Option, none, some, List, [], ◌∷◌, ◌++◌, append-nil,
  append_assoc, length, arith,
}
use vxx.Heap.Value.{StackValue, Store, Address, member}
use vxx.Heap.Graph.{handles_of, handles, Reach, root, step, IsClosed, weight}
use vxx.Heap.Mark.{Marking, mark_round, Marked, mark_loop, mark_value, mark_roots}
use vxx.Heap.Mark.Invariant.{IsDistinct, Inv, Inv-start}
use vxx.Heap.Mark.Rounds.{Ready, mark_round-Ready}

-- What the marking must give: every object once, and just the ones that can be reached.
abbrev pub MarksReached : Store → List Address → Option Marked → Type 0
MarksReached store roots none = ⊥
MarksReached store roots (some done) =
    IsDistinct done.marked × ((a : Address) → (member a done.marked ≡ true) ↔ Reach store roots a)

module _ (store : Store) (roots universe : List Address)
    (closed : IsClosed store roots universe) where
  Inv-append :
      (xs ys zs marked : List Address)
      → Inv store roots ((xs ++ ys) ++ zs) marked
      → Inv store roots (xs ++ (ys ++ zs)) marked
  Inv-append xs ys zs marked inv = rw (← append_assoc xs ys zs) inv

  abbrev Finished : List Address → ℕ → Option Marked → Type 0
  Finished extra left none = ⊥
  Finished extra left (some done) =
      Inv store roots extra done.marked × (weight store universe done.marked ≤ left)

  Finished-le :
      (extra : List Address) (left more : ℕ) (result : Option Marked)
      → left ≤ more
      → Finished extra left result
      → Finished extra more result
  Finished-le extra left more none le h = h
  Finished-le extra left more (some done) le h = (h.0, omega (arith, h.1))

  next-Finished :
      (fuel : ℕ) (extra : List Address) (traced work left : ℕ) (round : Option Marking)
      → Ready store roots universe closed extra work left round
      → ((next : Marking)
          → Inv store roots (handles next.pending ++ extra) next.marked
          → length next.pending + weight store universe next.marked ≤ work
          → Finished extra
              (weight store universe next.marked)
              (mark_loop fuel store next.pending next.marked traced))
      → Finished extra left (elim round [
        | none ↦ none
        | some next ↦ mark_loop fuel store next.pending next.marked traced
      ])
  next-Finished fuel extra traced work left none ready rest = ready
  next-Finished fuel extra traced work left (some next) ready rest =
      Finished-le extra (weight store universe next.marked) left
        (mark_loop fuel store next.pending next.marked traced) ready.2 (rest next ready.0 ready.1)

  mark_loop-Finished :
      (fuel : ℕ) (pending : List StackValue) (extra marked : List Address) (traced : ℕ)
      → Inv store roots (handles pending ++ extra) marked
      → length pending + weight store universe marked < fuel
      → Finished extra (weight store universe marked) (mark_loop fuel store pending marked traced)
  unfolding mark_loop
  mark_loop-Finished zero pending extra marked traced inv enough = absurd (omega arith)
  mark_loop-Finished (suc fuel) [] extra marked traced inv enough = (inv, omega arith)
  mark_loop-Finished (suc fuel) (value ∷ pending) extra marked traced inv enough =
      next-Finished fuel extra (traced + 1) (length pending + weight store universe marked)
        (weight store universe marked) (mark_round fuel store value pending marked)
        (mark_round-Ready store roots universe closed fuel value pending extra marked
          (Inv-append (handles_of value) (handles pending) extra marked inv) (omega arith))
        (λ next invariant fewer.
          mark_loop-Finished fuel next.pending extra next.marked (traced + 1) invariant
            (omega arith))

  mark_value-Finished :
      (fuel : ℕ) (value : StackValue) (extra marked : List Address) (traced : ℕ)
      → Inv store roots (handles_of value ++ extra) marked
      → suc (weight store universe marked) < fuel
      → Finished extra (weight store universe marked) (mark_value fuel store value marked traced)
  unfolding mark_value
  mark_value-Finished fuel value extra marked traced inv enough =
      mark_loop-Finished fuel (value ∷ []) extra marked traced
        (rw (append-nil (handles_of value)) inv) (omega arith)

  next_root-Finished :
      (fuel : ℕ) (rest : List StackValue) (left : ℕ) (one : Option Marked)
      → Finished (handles rest) left one
      → ((next : Marked)
          → Inv store roots (handles rest) next.marked
          → weight store universe next.marked ≤ left
          → Finished []
              (weight store universe next.marked)
              (mark_roots fuel store rest next.marked next.traced))
      → Finished [] left (elim one [
        | none ↦ none
        | some next ↦ mark_roots fuel store rest next.marked next.traced
      ])
  next_root-Finished fuel rest left none h more = h
  next_root-Finished fuel rest left (some next) h more =
      Finished-le [] (weight store universe next.marked) left
        (mark_roots fuel store rest next.marked next.traced) h.1 (more next h.0 h.1)

  mark_roots-Finished :
      (fuel : ℕ) (rest : List StackValue) (marked : List Address) (traced : ℕ)
      → Inv store roots (handles rest) marked
      → suc (weight store universe marked) < fuel
      → Finished [] (weight store universe marked) (mark_roots fuel store rest marked traced)
  unfolding mark_roots
  mark_roots-Finished fuel [] marked traced inv enough = (inv, omega arith)
  mark_roots-Finished fuel (value ∷ rest) marked traced inv enough =
      next_root-Finished fuel rest (weight store universe marked)
        (mark_value fuel store value marked traced)
        (mark_value-Finished fuel value (handles rest) marked traced inv enough)
        (λ next invariant fewer.
          mark_roots-Finished fuel rest next.marked next.traced invariant (omega arith))

  pub reached-marked :
      (marked : List Address) (a : Address)
      → Inv store roots [] marked
      → Reach store roots a
      → member a marked ≡ true
  unfolding member
  reached-marked marked a inv (root h) = let known = inv.has_roots a h in ground arith
  reached-marked marked b inv (step {a = a} r h) =
      let known = inv.has_successors a b (reached-marked marked a inv r) h in ground arith

  Finished-MarksReached :
      (left : ℕ) (result : Option Marked)
      → Finished [] left result
      → MarksReached store roots result
  Finished-MarksReached left none h = h
  Finished-MarksReached left (some done) h =
      (h.0.distinct, λ a. (h.0.sound_marked a, reached-marked done.marked a h.0))

-- With more fuel than the objects of a closed set and the values that they hold, the marking from the roots
-- ends, and it has marked every object once, and exactly the objects that can be reached from a root: the
-- iterative worklist computes reachability, whatever cycles the graph has.
pub mark_roots-MarksReached :
    (store : Store) (roots : List StackValue) (universe : List Address) (fuel : ℕ)
    → IsClosed store (handles roots) universe
    → suc (weight store universe []) < fuel
    → MarksReached store (handles roots) (mark_roots fuel store roots [] 0)
mark_roots-MarksReached store roots universe fuel closed enough =
    Finished-MarksReached store (handles roots) universe closed (weight store universe [])
      (mark_roots fuel store roots [] 0)
      (mark_roots-Finished store (handles roots) universe closed fuel roots [] 0
        (Inv-start store (handles roots)) enough)
