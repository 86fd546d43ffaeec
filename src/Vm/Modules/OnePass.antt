-- ===== src/Vm/Modules/OnePass.antt =====
-- src/runtime/vm.cpp: a pass of `initializeModules` over modules that are not initialized yet.
use vxx.Prelude.{
  true, ◌≡◌, ◌≢◌, refl, ◌∙◌, Option, none, some, List, [], ◌∷◌, Bool-cases, arith, inl, inr, ap,
}
use vxx.Prelude.Bytes.{Bytes, equal}
use vxx.Bytecode.Opcode.{Instruction}
use vxx.Vm.Safe.{Every}
use vxx.Vm.Modules.{
  ModuleState, uninitialized, initializing, initialized, RuntimeModule, ModuleTable, same, state_is,
  lookup, find, state_of, state_at, with_state, move, begin, complete, Ran, finished, raised,
  initializer_error, Initialization, complete_with, stopped, run_module, finish, start,
  initialize_one, and_on, initialize_from, initialize_modules,
}
use vxx.Vm.Modules.Moves.{not_equal}

module _ {Location : Type 0} where
  abbrev Away : Bytes → RuntimeModule Location → Type 0
  Away id m = id ≢ m.identity

  -- The modules stand in the table under identities of their own, and none is initialized.
  abbrev pub IsFresh : ModuleTable Location → List (RuntimeModule Location) → Type 0
  IsFresh table [] = Unit
  IsFresh table (m ∷ ms) =
      (find table m.identity ≡ some m)
      × (m.state ≡ uninitialized)
      × Every (Away m.identity) ms
      × IsFresh table ms

  abbrev pub identities : List (RuntimeModule Location) → List Bytes
  identities [] = []
  identities (m ∷ ms) = m.identity ∷ identities ms

  lookup-with_state_away :
      (id other : Bytes) (state : ModuleState) (ms : List (RuntimeModule Location))
      → id ≢ other
      → lookup (with_state id state ms) other ≡ lookup ms other
  unfolding lookup with_state
  lookup-with_state_away id other state [] h = refl
  lookup-with_state_away id other state (n ∷ ms) h = elim (Bool-cases (equal n.identity id)) [
    | inl here ↦ let away = not_equal n.identity id other here h in rw (here, away) refl
    | inr later ↦ elim (Bool-cases (equal n.identity other)) [
      | inl found ↦ rw (later, found) refl
      | inr not_found ↦ rw (later, not_found) (lookup-with_state_away id other state ms h)
    ]
  ]

  lookup-with_state_self :
      (id : Bytes) (state : ModuleState) (ms : List (RuntimeModule Location))
      (m : RuntimeModule Location)
      → lookup ms id ≡ some m
      → lookup (with_state id state ms) id ≡ some (record m { state = state })
  unfolding lookup with_state
  lookup-with_state_self id state [] m h = ground arith
  lookup-with_state_self id state (n ∷ ms) m h = elim (Bool-cases (equal n.identity id)) [
    | inl here ↦
        let same_module : n ≡ m = ground arith in
        rw (here, here)
          (ap (λ (k : RuntimeModule Location). some (record k { state = state })) same_module)
    | inr later ↦ rw (later, later) (lookup-with_state_self id state ms m (ground arith))
  ]

  find-move_away :
      (from to : ModuleState) (id other : Bytes) (table : ModuleTable Location)
      → id ≢ other
      → find (move from to id table).1 other ≡ find table other
  unfolding find move
  find-move_away from to id other table h = elim (Bool-cases (state_is from (state_at table id))) [
    | inl moves ↦ rw moves (lookup-with_state_away id other to table.modules h)
    | inr stays ↦ rw stays refl
  ]

  IsFresh-move :
      (from to : ModuleState) (id : Bytes) (table : ModuleTable Location)
      (ms : List (RuntimeModule Location))
      → Every (Away id) ms
      → IsFresh table ms
      → IsFresh (move from to id table).1 ms
  IsFresh-move from to id table [] away fresh = tt
  IsFresh-move from to id table (m ∷ ms) (here, away) (found, state, others, fresh) = (
    find-move_away from to id m.identity table here ∙ found,
    state,
    others,
    IsFresh-move from to id table ms away fresh,
  )

module _ {Location S E : Type 0} (run : List Instruction → List Location → S → Ran S E) where
  then_run : Ran S E → (S → Ran S E) → Ran S E
  then_run (finished s) rest = rest s
  then_run (raised e s) rest = raised e s

  -- Every initializer once, in the order of the list, up to the first one that throws.
  unfoldable pub run_all : List (RuntimeModule Location) → S → Ran S E
  unfolding then_run
  run_all [] s = finished s
  run_all (m ∷ ms) s = then_run (run m.initializer m.debug_info s) (λ s'. run_all ms s')

  -- What a pass did to the shared state, where it ran to its end or an initializer threw.
  abbrev pub effect : Initialization Location S E → Option (Ran S E)
  effect (complete_with table s) = some (finished s)
  effect (stopped (initializer_error e) table s) = some (raised e s)
  effect (stopped _ table s) = none

  begin_fresh :
      (id : Bytes) (table : ModuleTable Location)
      → state_at table id ≡ some uninitialized
      → begin id table ≡ (true, record table { modules = with_state id initializing table.modules })
  unfolding begin move state_is same
  begin_fresh id table h = rw h refl

  one_fresh :
      (id : Bytes) (table : ModuleTable Location) (m : RuntimeModule Location) (s : S)
      → find table id ≡ some m
      → state_at table id ≡ some uninitialized
      → initialize_one run id (state_at table id) table s
        ≡ finish run id (begin id table).1 (run m.initializer m.debug_info s)
  unfolding initialize_one start run_module find
  one_fresh id table m s found state = rw state (
      rw (begin_fresh id table state)
        (rw (lookup-with_state_self id initializing table.modules m found) refl))

  state_fresh :
      (id : Bytes) (table : ModuleTable Location) (m : RuntimeModule Location)
      → find table id ≡ some m
      → m.state ≡ uninitialized
      → state_at table id ≡ some uninitialized
  unfolding state_at state_of
  state_fresh id table m found state = rw found (ap some state)

  rest-run_all :
      (id : Bytes) (ids : List Bytes) (table : ModuleTable Location)
      (ms : List (RuntimeModule Location)) (ran : Ran S E)
      → ((table' : ModuleTable Location) (s : S)
          → table' ≡ (complete id table).1
          → effect (initialize_from run ids table' s) ≡ some (run_all ms s))
      → effect
          (and_on run (finish run id table ran) (λ table' s'. initialize_from run ids table' s'))
        ≡ some (then_run ran (λ s'. run_all ms s'))
  unfolding finish and_on then_run
  rest-run_all id ids table ms (finished s) h = h (complete id table).1 s refl
  rest-run_all id ids table ms (raised e s) h = refl

  initialize_from-run_all :
      (ms : List (RuntimeModule Location)) (table : ModuleTable Location) (s : S)
      → IsFresh table ms
      → effect (initialize_from run (identities ms) table s) ≡ some (run_all ms s)
  unfolding initialize_from run_all begin complete
  initialize_from-run_all [] table s fresh = refl
  initialize_from-run_all (m ∷ ms) table s (found, state, others, fresh) =
      let started = move uninitialized initializing m.identity table in
      rw (one_fresh m.identity table m s found (state_fresh m.identity table m found state)) (
        rest-run_all m.identity (identities ms) (begin m.identity table).1 ms
          (run m.initializer m.debug_info s)
          (λ table' s' same_table. rw same_table (
            initialize_from-run_all ms (complete m.identity (begin m.identity table).1).1 s' (
              IsFresh-move initializing initialized m.identity started.1 ms others
                (IsFresh-move uninitialized initializing m.identity table ms others fresh)))))

-- For a table whose order lists modules with identities of their own, none of them initialized yet, a pass runs each
-- initializer once, in the order of the table, and stops at the first one that throws: it has the effect on the shared
-- state, and gives the exception, of running the initializers one after the other.
pub initialize_modules-run_all :
    {Location S E : Type 0} (run : List Instruction → List Location → S → Ran S E)
    (table : ModuleTable Location) (ms : List (RuntimeModule Location)) (s : S)
    → table.order ≡ identities ms
    → IsFresh table ms
    → effect run (initialize_modules run table s) ≡ some (run_all run ms s)
unfolding initialize_modules
initialize_modules-run_all run table ms s same_order fresh =
    ap (λ ids. effect run (initialize_from run ids table s)) same_order
    ∙ initialize_from-run_all run ms table s fresh
