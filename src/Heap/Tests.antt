-- ===== src/Heap/Tests.antt =====
-- A heap with two cycles, one of which can be reached.
use vxx.Prelude.{
  ◌*◌, ℕ, zero, ◌+◌, suc, ◌≡◌, refl, Bool, true, false, ◌<◌, none, some, List, [], ◌∷◌, arith,
}
use vxx.Prelude.Int.{pos}
use vxx.Prelude.Bytes.{codes}
use vxx.Heap.Value.{
  StackValue, int_value, list_handle, instance_handle, RuntimeClass, RuntimeInstance, Store,
  Address, list_at, class_at, map_at, tuple_at, closure_at, instance_at, member, same_address,
}
use vxx.Heap.Graph.{handles, weight, IsClosed}
use vxx.Heap.Graph.Closed.{is_closed, is_closed-IsClosed}
use vxx.Heap.Mark.{mark_roots}
use vxx.Heap.Mark.Total.{MarksReached, mark_roots-MarksReached}
use vxx.Heap.Registry.{at_kind, RuntimeHeap, registry, number, has, track}
use vxx.Heap.Registry.Tracking.{IsAlone, track-registers}
use vxx.Heap.TrackValue.{track_value}
use vxx.Heap.TrackValue.Live.{IsLive}
use vxx.Heap.TrackValue.Total.{TracksReached, track_value-TracksReached}
use vxx.Heap.Collect.{collect}
use vxx.Heap.Collect.Sweep.{Lasts}
use vxx.Heap.Collect.Safety.{Collects, Keeps, Cuts, collect-Keeps, collect-Cuts}

abbrev class_table : ℕ → RuntimeClass
class_table zero = record { name = codes "Base"; superclass = none; methods = [] }
class_table _ = record { name = codes "Derived"; superclass = some 0; methods = [] }

abbrev instance_table : ℕ → RuntimeInstance
instance_table _ = record { klass = some 1; fields = (codes "next", list_handle (some 0)) ∷ [] }

abbrev list_table : ℕ → List StackValue
list_table zero = instance_handle (some 0) ∷ int_value (pos 3) ∷ []
list_table _ = list_handle (some 1) ∷ []

-- List 0 holds instance 0 and is held by it; list 1 holds itself.
abbrev cyclic : Store
cyclic = record {
  maps = λ i. [];
  lists = list_table;
  tuples = λ i. [];
  classes = class_table;
  instances = instance_table;
  closures = λ i. record { function_id = pos 0; captures = []; method_owner_class = none };
  cells = λ i. int_value (pos 0);
}

abbrev roots : List StackValue
roots = list_handle (some 0) ∷ list_handle none ∷ []

abbrev reachable : List Address
reachable = list_at 0 ∷ instance_at 0 ∷ class_at 1 ∷ class_at 0 ∷ []

reachable-IsClosed : IsClosed cyclic (handles roots) reachable
unfolding is_closed member same_address
reachable-IsClosed = is_closed-IsClosed cyclic (handles roots) reachable refl

enough : suc (weight cyclic reachable []) < 10
unfolding weight member
enough = omega arith

abbrev heap : RuntimeHeap
heap = record {
  maps = [];
  lists = 0 ∷ 1 ∷ [];
  tuples = [];
  classes = 0 ∷ 1 ∷ [];
  instances = 0 ∷ [];
  closures = [];
  allocation_generation = 5;
  collected_allocation_generation = 0;
  collection_budget = 256;
}

mark_roots-MarksReached_example :
    MarksReached cyclic (handles roots) (mark_roots 10 cyclic roots [] 0)
mark_roots-MarksReached_example =
    mark_roots-MarksReached cyclic roots reachable 10 reachable-IsClosed enough

abbrev never : Store → Address → Bool
never store a = false

never-Lasts : Lasts never
never-Lasts a b store gone = gone

collect-Keeps_example :
    Collects never (Keeps never cyclic (handles roots)) (collect never 10 roots heap cyclic)
collect-Keeps_example = collect-Keeps never cyclic heap roots reachable 10 reachable-IsClosed enough

collect-Cuts_example :
    Collects never (Cuts never heap cyclic (handles roots)) (collect never 10 roots heap cyclic)
collect-Cuts_example =
    collect-Cuts never cyclic heap roots reachable 10 never-Lasts reachable-IsClosed enough

-- List 1 is gone, and list 2 stands where it stood.
abbrev place : Address → ℕ
place (list_at (suc (suc zero))) = 101
place a = 100 + number a

abbrev gone : Address → Bool
gone (list_at (suc zero)) = true
gone _ = false

IsAlone-two : IsAlone (λ j. place (list_at j)) (λ j. gone (list_at j)) 2
IsAlone-two zero same live = absurd (omega (arith, same))
IsAlone-two (suc zero) same live = absurd (ground arith)
IsAlone-two (suc (suc zero)) same live = refl
IsAlone-two (suc (suc (suc j))) same live = absurd (omega (arith, same))

track-registers_example :
    (has 2 (registry (list_at 2) (track place gone (list_at 2) heap)) ≡ true)
    × ((j : ℕ)
        → has j (registry (list_at 2) heap) ≡ true
        → gone (list_at j) ≡ false
        → has j (registry (list_at 2) (track place gone (list_at 2) heap)) ≡ true)
track-registers_example = track-registers place gone (list_at 2) heap IsAlone-two

list-IsClosed : IsClosed cyclic (handles (list_handle (some 0) ∷ [])) reachable
unfolding is_closed member same_address
list-IsClosed = is_closed-IsClosed cyclic (handles (list_handle (some 0) ∷ [])) reachable refl

enough_to_track : suc (2 * weight cyclic reachable []) < 20
unfolding weight member
enough_to_track = omega arith

number_of_kind :
    (a : Address) (j : ℕ) → number (at_kind a j) ≡ number (at_kind a (number a)) → j ≡ number a
number_of_kind (map_at i) j same = same
number_of_kind (list_at i) j same = same
number_of_kind (tuple_at i) j same = same
number_of_kind (class_at i) j same = same
number_of_kind (instance_at i) j same = same
number_of_kind (closure_at i) j same = same

-- Nothing is gone, and every object has a place of its own.
distinct-IsLive : IsLive number (λ a. false) cyclic (handles (list_handle (some 0) ∷ []))
distinct-IsLive = record {
  alive = λ a reached. refl;
  alone = λ a reached j same present. number_of_kind a j same;
}

track_value-TracksReached_example :
    TracksReached cyclic
      (handles (list_handle (some 0) ∷ []))
      (track_value number (λ a. false) cyclic 20 (list_handle (some 0)) heap)
track_value-TracksReached_example =
    track_value-TracksReached number (λ a. false) cyclic reachable (list_handle (some 0)) heap 20
      list-IsClosed distinct-IsLive enough_to_track
