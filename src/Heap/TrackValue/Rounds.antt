-- ===== src/Heap/TrackValue/Rounds.antt =====
-- src/runtime/heap.cpp: a round of `trackValue` keeps the invariant, and takes work away.
use vxx.Prelude.{
  ℕ, zero, suc, ◌+◌, ◌*◌, ◌≤◌, ◌<◌, ◌≡◌, refl, Bool, true, false, inl, inr, Option, none, some,
  List, ◌∷◌, ◌++◌, append-nil, length, Bool-cases, arith,
}
use vxx.Heap.Value.{
  StackValue, map_handle, list_handle, tuple_handle, class_handle, instance_handle, closure_handle,
  Store, Address, map_at, list_at, tuple_at, class_at, instance_at, closure_at, same_address,
  member,
}
use vxx.Heap.Graph.{
  class_handles, handles_of, handles, class_of, children, successors, Reach, IsClosed,
  Reach-IsClosed, member-append, member_head, weight, weight-mark, same_address-eq,
}
use vxx.Heap.Mark.{push_all}
use vxx.Heap.Mark.Invariant.{Inv, Inv-reorder, Inv-drop, Inv-mark}
use vxx.Heap.Mark.Rounds.{length-push_all, member-push_all}
use vxx.Heap.Registry.{RuntimeHeap, registry, number, has, track}
use vxx.Heap.Registry.Tracking.{track-registers}
use vxx.Heap.TrackValue.{
  Visit, Tracking, push_class, with_visit, track_classes, track_object, track_round,
}
use vxx.Heap.TrackValue.Live.{track-keeps, IsLive, Registers}

module _ (memory : Address → ℕ) (expired : Address → Bool) where
  module _ (store : Store) (roots universe : List Address) (closed : IsClosed store roots universe)
      (live : IsLive memory expired store roots) where
    register-here :
        (a b : Address) (heap : RuntimeHeap)
        → Reach store roots a
        → b ≡ a
        → has (number b) (registry b (track memory expired a heap)) ≡ true
    register-here a b heap reached same =
        rw same (track-registers memory expired a heap (live.alone a reached)).0

    Registers-track :
        (extra visited : List Address) (a : Address) (heap : RuntimeHeap)
        → Inv store roots (a ∷ extra) visited
        → Registers memory expired visited heap
        → Registers memory expired (a ∷ visited) (track memory expired a heap)
    unfolding member
    Registers-track extra visited a heap inv registers b here =
        let reached = inv.sound_extra a (member_head a extra) in
        elim (Bool-cases (same_address b a)) [
          | inl same ↦ register-here a b heap reached (same_address-eq b a same)
          | inr other ↦
              let old : member b visited ≡ true = ground arith in
              track-keeps memory expired a b heap (live.alone a reached) (registers b old)
                (live.alive b (inv.sound_marked b old))
        ]

    lighter :
        (extra visited : List Address) (a : Address)
        → member a visited ≡ false
        → Inv store roots (a ∷ extra) visited
        → suc (length (children store a)) + weight store universe (a ∷ visited)
          ≤ weight store universe visited
    lighter extra visited a new inv =
        weight-mark store universe visited a
          (Reach-IsClosed store roots universe a closed (inv.sound_extra a (member_head a extra)))
          new

    abbrev Visits : List Address → ℕ → Option Visit → Type 0
    Visits extra bound none = ⊥
    Visits extra bound (some visit) =
        Inv store roots extra visit.visited
        × Registers memory expired visit.visited visit.heap
        × (weight store universe visit.visited ≤ bound)

    Visits-le :
        (extra : List Address) (bound more : ℕ) (result : Option Visit)
        → bound ≤ more
        → Visits extra bound result
        → Visits extra more result
    Visits-le extra bound more none le h = h
    Visits-le extra bound more (some visit) le h = (h.0, h.1, omega (arith, h.2))

    track_classes-Visits :
        (fuel : ℕ) (klass : Option ℕ) (extra visited : List Address) (heap : RuntimeHeap)
        → Inv store roots (class_handles klass ++ extra) visited
        → Registers memory expired visited heap
        → weight store universe visited < fuel
        → Visits extra
            (weight store universe visited)
            (track_classes memory expired store fuel klass visited heap)
    unfolding track_classes
    track_classes-Visits zero klass extra visited heap inv registers enough = absurd (omega arith)
    track_classes-Visits (suc fuel) none extra visited heap inv registers enough =
        (inv, registers, omega arith)
    track_classes-Visits (suc fuel) (some k) extra visited heap inv registers enough =
        elim (Bool-cases (member (class_at k) visited)) [
          | inl old ↦
              rw old
                (Inv-drop store roots extra visited (class_at k) old inv, registers, omega arith)
          | inr new ↦
              let lower = lighter extra visited (class_at k) new inv in
              rw new (
                Visits-le extra (weight store universe (class_at k ∷ visited))
                  (weight store universe visited)
                  (track_classes memory expired store fuel (store.classes k).superclass
                    (class_at k ∷ visited) (track memory expired (class_at k) heap))
                  (omega arith)
                  (track_classes-Visits fuel (store.classes k).superclass extra
                    (class_at k ∷ visited) (track memory expired (class_at k) heap)
                    (Inv-reorder store roots (successors store (class_at k) ++ extra)
                      (class_handles (store.classes k).superclass ++ extra) (class_at k ∷ visited)
                      (λ a. rw (append-nil (class_handles (store.classes k).superclass)) refl)
                      (Inv-mark store roots extra visited (class_at k) new inv))
                    (Registers-track extra visited (class_at k) heap inv registers) (omega arith)))
        ]

    -- A round: the work that is left, where each object counts twice, does not grow.
    abbrev pub Tracks : List Address → ℕ → Option Tracking → Type 0
    Tracks extra work none = ⊥
    Tracks extra work (some next) =
        Inv store roots (handles next.pending ++ extra) next.visited
        × Registers memory expired next.visited next.heap
        × (length next.pending + 2 * weight store universe next.visited ≤ work)

    with_visit-Tracks :
        (extra : List Address) (pending : List StackValue) (work bound : ℕ) (result : Option Visit)
        → Visits (handles pending ++ extra) bound result
        → length pending + 2 * bound ≤ work
        → Tracks extra work (with_visit pending result)
    with_visit-Tracks extra pending work bound none h le = h
    with_visit-Tracks extra pending work bound (some visit) h le = (h.0, h.1, omega (arith, h.2))

    handles-push_class :
        (klass : Option ℕ) (pending : List StackValue)
        → handles (push_class klass pending) ≡ class_handles klass ++ handles pending
    handles-push_class none pending = refl
    handles-push_class (some k) pending = refl

    length-push_class :
        (klass : Option ℕ) (pending : List StackValue)
        → length (push_class klass pending) ≤ suc (length pending)
    length-push_class none pending = omega arith
    length-push_class (some k) pending = omega arith

    pushed-object :
        (b : Address) (klass : Option ℕ) (held pending : List StackValue) (extra : List Address)
        → member b (handles (push_all held (push_class klass pending)) ++ extra)
          ≡ member b ((class_handles klass ++ handles held) ++ (handles pending ++ extra))
    pushed-object b klass held pending extra =
        rw
          (
            member-append b (handles (push_all held (push_class klass pending))) extra,
            member-push_all b held (push_class klass pending),
            handles-push_class klass pending,
            member-append b (class_handles klass) (handles pending),
            member-append b (class_handles klass ++ handles held) (handles pending ++ extra),
            member-append b (class_handles klass) (handles held),
            member-append b (handles pending) extra,
          )
          (ground arith)

    track_object-Tracks :
        (a : Address) (pending : List StackValue) (extra visited : List Address)
        (heap : RuntimeHeap)
        → Inv store roots (a ∷ (handles pending ++ extra)) visited
        → Registers memory expired visited heap
        → Tracks extra (length pending + 2 * weight store universe visited) (
            track_object memory expired store a
              (class_of store a)
              (children store a)
              pending
              visited
              heap)
    unfolding track_object
    track_object-Tracks a pending extra visited heap inv registers =
        elim (Bool-cases (member a visited)) [
          | inl old ↦ rw old (
            Inv-drop store roots (handles pending ++ extra) visited a old inv,
            registers,
            omega arith,
          )
          | inr new ↦
              let lower = lighter (handles pending ++ extra) visited a new inv in
              let one = length-push_class (class_of store a) pending in
              let longer =
                length-push_all (children store a) (push_class (class_of store a) pending) in
              rw new (
                Inv-reorder store roots (successors store a ++ (handles pending ++ extra))
                    (handles (push_all (children store a) (push_class (class_of store a) pending))
                      ++ extra)
                    (a ∷ visited)
                    (λ b. pushed-object b (class_of store a) (children store a) pending extra)
                    (Inv-mark store roots (handles pending ++ extra) visited a new inv),
                Registers-track (handles pending ++ extra) visited a heap inv registers,
                omega arith,
              )
        ]

    pub track_round-Tracks :
        (fuel : ℕ) (value : StackValue) (pending : List StackValue) (extra visited : List Address)
        (heap : RuntimeHeap)
        → Inv store roots (handles_of value ++ (handles pending ++ extra)) visited
        → Registers memory expired visited heap
        → weight store universe visited < fuel
        → Tracks extra
            (length pending + 2 * weight store universe visited)
            (track_round memory expired store fuel value pending visited heap)
    unfolding track_round
    track_round-Tracks fuel (map_handle (some i)) pending extra visited heap inv registers enough =
        track_object-Tracks (map_at i) pending extra visited heap inv registers
    track_round-Tracks fuel (list_handle (some i)) pending extra visited heap inv registers enough =
        track_object-Tracks (list_at i) pending extra visited heap inv registers
    track_round-Tracks fuel (tuple_handle (some i)) pending extra visited heap inv registers
          enough =
        track_object-Tracks (tuple_at i) pending extra visited heap inv registers
    track_round-Tracks fuel (instance_handle (some i)) pending extra visited heap inv registers
          enough =
        track_object-Tracks (instance_at i) pending extra visited heap inv registers
    track_round-Tracks fuel (closure_handle (some i)) pending extra visited heap inv registers
          enough =
        track_object-Tracks (closure_at i) pending extra visited heap inv registers
    track_round-Tracks fuel (class_handle k) pending extra visited heap inv registers enough =
        with_visit-Tracks extra pending (length pending + 2 * weight store universe visited)
          (weight store universe visited) (track_classes memory expired store fuel k visited heap)
          (track_classes-Visits fuel k (handles pending ++ extra) visited heap inv registers enough)
          (omega arith)
    track_round-Tracks fuel _ pending extra visited heap inv registers enough =
        (inv, registers, omega arith)
