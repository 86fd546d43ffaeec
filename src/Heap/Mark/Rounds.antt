-- ===== src/Heap/Mark/Rounds.antt =====
-- src/runtime/heap.cpp: a round of the marking keeps the invariant, and takes work away.
use vxx.Prelude.{
  ℕ, zero, suc, ◌+◌, ◌≤◌, ◌<◌, ◌≡◌, refl, false, ◌||◌, inl, inr, Option, none, some, List, [], ◌∷◌,
  ◌++◌, append-nil, length, Bool-cases, arith,
}
use vxx.Heap.Value.{
  StackValue, map_handle, list_handle, tuple_handle, class_handle, instance_handle, closure_handle,
  Store, Address, map_at, list_at, tuple_at, class_at, instance_at, closure_at, member,
}
use vxx.Heap.Graph.{
  class_handles, handles_of, handles, class_of, children, successors, IsClosed, Reach-IsClosed,
  member-append, member_head, weight, weight-mark,
}
use vxx.Heap.Mark.{push_all, mark_classes, Marking, with_classes, mark_object, mark_round}
use vxx.Heap.Mark.Invariant.{Inv, Inv-reorder, Inv-drop, Inv-mark}

pub length-push_all :
    (vs pending : List StackValue) → length (push_all vs pending) ≡ length vs + length pending
unfolding push_all
length-push_all [] pending = omega arith
length-push_all (v ∷ vs) pending = omega (arith, length-push_all vs (v ∷ pending))

pub member-push_all :
    (a : Address) (vs pending : List StackValue)
    → member a (handles (push_all vs pending))
      ≡ (member a (handles vs) || member a (handles pending))
unfolding push_all member
member-push_all a [] pending = refl
member-push_all a (v ∷ vs) pending =
    rw
      (
        member-append a (handles_of v) (handles vs),
        member-push_all a vs (v ∷ pending),
        member-append a (handles_of v) (handles pending),
      )
      (ground arith)

marked_object :
    (b : Address) (klass : List Address) (held pending : List StackValue) (extra : List Address)
    → member b (klass ++ (handles (push_all held pending) ++ extra))
      ≡ member b ((klass ++ handles held) ++ (handles pending ++ extra))
marked_object b klass held pending extra =
    rw
      (
        member-append b klass (handles (push_all held pending) ++ extra),
        member-append b (handles (push_all held pending)) extra,
        member-push_all b held pending,
        member-append b (klass ++ handles held) (handles pending ++ extra),
        member-append b klass (handles held),
        member-append b (handles pending) extra,
      )
      (ground arith)

module _ (store : Store) (roots universe : List Address)
    (closed : IsClosed store roots universe) where
  -- The marked objects after a chain of superclasses, with the work that is then left.
  abbrev Chained : List Address → ℕ → Option (List Address) → Type 0
  Chained extra bound none = ⊥
  Chained extra bound (some marked) =
      Inv store roots extra marked × (weight store universe marked ≤ bound)

  Chained-le :
      (extra : List Address) (bound more : ℕ) (result : Option (List Address))
      → bound ≤ more
      → Chained extra bound result
      → Chained extra more result
  Chained-le extra bound more none le h = h
  Chained-le extra bound more (some marked) le h = (h.0, omega (arith, h.1))

  lighter :
      (extra marked : List Address) (a : Address)
      → member a marked ≡ false
      → Inv store roots (a ∷ extra) marked
      → suc (length (children store a)) + weight store universe (a ∷ marked)
        ≤ weight store universe marked
  lighter extra marked a new inv =
      weight-mark store universe marked a
        (Reach-IsClosed store roots universe a closed (inv.sound_extra a (member_head a extra))) new

  mark_classes-Chained :
      (fuel : ℕ) (klass : Option ℕ) (extra marked : List Address)
      → Inv store roots (class_handles klass ++ extra) marked
      → weight store universe marked < fuel
      → Chained extra (weight store universe marked) (mark_classes fuel store klass marked)
  unfolding mark_classes
  mark_classes-Chained zero klass extra marked inv enough = absurd (omega arith)
  mark_classes-Chained (suc fuel) none extra marked inv enough = (inv, omega arith)
  mark_classes-Chained (suc fuel) (some k) extra marked inv enough =
      elim (Bool-cases (member (class_at k) marked)) [
        | inl old ↦ rw old (Inv-drop store roots extra marked (class_at k) old inv, omega arith)
        | inr new ↦
            let lower = lighter extra marked (class_at k) new inv in
            rw new (
              Chained-le extra (weight store universe (class_at k ∷ marked))
                (weight store universe marked)
                (mark_classes fuel store (store.classes k).superclass (class_at k ∷ marked))
                (omega arith)
                (mark_classes-Chained fuel (store.classes k).superclass extra (class_at k ∷ marked)
                  (Inv-reorder store roots (successors store (class_at k) ++ extra)
                    (class_handles (store.classes k).superclass ++ extra) (class_at k ∷ marked)
                    (λ a. rw (append-nil (class_handles (store.classes k).superclass)) refl)
                    (Inv-mark store roots extra marked (class_at k) new inv))
                  (omega arith)))
      ]

  -- A round: what is left to do does not grow.
  abbrev pub Ready : List Address → ℕ → ℕ → Option Marking → Type 0
  Ready extra work left none = ⊥
  Ready extra work left (some next) =
      Inv store roots (handles next.pending ++ extra) next.marked
      × (length next.pending + weight store universe next.marked ≤ work)
      × (weight store universe next.marked ≤ left)

  with_classes-Ready :
      (extra : List Address) (pending : List StackValue) (work left bound : ℕ)
      (result : Option (List Address))
      → Chained (handles pending ++ extra) bound result
      → length pending + bound ≤ work
      → bound ≤ left
      → Ready extra work left (with_classes pending result)
  unfolding with_classes
  with_classes-Ready extra pending work left bound none h le le' = h
  with_classes-Ready extra pending work left bound (some marked) h le le' =
      (h.0, omega (arith, h.1), omega (arith, h.1))

  mark_object-Ready :
      (fuel : ℕ) (a : Address) (pending : List StackValue) (extra marked : List Address)
      → Inv store roots (a ∷ (handles pending ++ extra)) marked
      → weight store universe marked < fuel
      → Ready extra
          (length pending + weight store universe marked)
          (weight store universe marked)
          (mark_object fuel store a (class_of store a) (children store a) pending marked)
  unfolding mark_object
  mark_object-Ready fuel a pending extra marked inv enough = elim (Bool-cases (member a marked)) [
    | inl old ↦
        rw old (
          Inv-drop store roots (handles pending ++ extra) marked a old inv,
          omega arith,
          omega arith,
        )
    | inr new ↦
        let lower = lighter (handles pending ++ extra) marked a new inv in
        let longer = length-push_all (children store a) pending in
        rw new (
          with_classes-Ready extra (push_all (children store a) pending)
            (length pending + weight store universe marked) (weight store universe marked)
            (weight store universe (a ∷ marked))
            (mark_classes fuel store (class_of store a) (a ∷ marked))
            (mark_classes-Chained fuel (class_of store a)
              (handles (push_all (children store a) pending) ++ extra) (a ∷ marked)
              (Inv-reorder store roots (successors store a ++ (handles pending ++ extra))
                (class_handles (class_of store a)
                  ++ (handles (push_all (children store a) pending) ++ extra))
                (a ∷ marked)
                (λ b.
                  marked_object b (class_handles (class_of store a)) (children store a) pending
                    extra)
                (Inv-mark store roots (handles pending ++ extra) marked a new inv))
              (omega arith))
            (omega arith) (omega arith))
  ]

  -- The handles of a value are the only ones that its round takes from what is left.
  pub mark_round-Ready :
      (fuel : ℕ) (value : StackValue) (pending : List StackValue) (extra marked : List Address)
      → Inv store roots (handles_of value ++ (handles pending ++ extra)) marked
      → weight store universe marked < fuel
      → Ready extra
          (length pending + weight store universe marked)
          (weight store universe marked)
          (mark_round fuel store value pending marked)
  unfolding mark_round
  mark_round-Ready fuel (map_handle (some i)) pending extra marked inv enough =
      mark_object-Ready fuel (map_at i) pending extra marked inv enough
  mark_round-Ready fuel (list_handle (some i)) pending extra marked inv enough =
      mark_object-Ready fuel (list_at i) pending extra marked inv enough
  mark_round-Ready fuel (tuple_handle (some i)) pending extra marked inv enough =
      mark_object-Ready fuel (tuple_at i) pending extra marked inv enough
  mark_round-Ready fuel (instance_handle (some i)) pending extra marked inv enough =
      mark_object-Ready fuel (instance_at i) pending extra marked inv enough
  mark_round-Ready fuel (closure_handle (some i)) pending extra marked inv enough =
      mark_object-Ready fuel (closure_at i) pending extra marked inv enough
  mark_round-Ready fuel (class_handle k) pending extra marked inv enough =
      with_classes-Ready extra pending (length pending + weight store universe marked)
        (weight store universe marked) (weight store universe marked)
        (mark_classes fuel store k marked)
        (mark_classes-Chained fuel k (handles pending ++ extra) marked inv enough) (omega arith)
        (omega arith)
  mark_round-Ready fuel _ pending extra marked inv enough = (inv, omega arith, omega arith)
