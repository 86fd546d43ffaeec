-- ===== src/Vm/Modules/Failure.antt =====
-- What a pass over the modules does after a pass in which an initializer threw.
use vxx.Prelude.{
  Bool, true, false, ◌≡◌, refl, ap, sym, ◌∙◌, Option, none, some, List, [], ◌∷◌, arith,
}
use vxx.Prelude.Bytes.{Bytes}
use vxx.Bytecode.Opcode.{Instruction}
use vxx.Vm.Modules.Moves.{IsSettled, table_of, move-state, move-stays}
use vxx.Vm.Modules.Rounds.{Settles, one-Settles}
use vxx.Vm.Modules.Order.{initialize_from-order}
use vxx.Vm.Modules.Once.{one-again, initialize_from-settled}
use vxx.Vm.Modules.{
  ModuleState, uninitialized, initializing, initialized, failed, ModuleTable, Ran, finished, raised,
  initialization_failed, invalid_state, initializer_error, find, state_at, move, begin, fail,
  Initialization, complete_with, stopped, run_module, finish, start, initialize_one, and_on,
  initialize_from, initialize_modules,
}

module _ {Location S E : Type 0} (run : List Instruction → List Location → S → Ran S E) where
  -- After an initializer threw, its module has failed.
  abbrev Fails : Bytes → Initialization Location S E → Type 0
  Fails id (stopped (initializer_error e) table s) = state_at table id ≡ some failed
  Fails id _ = Unit

  -- After an initializer threw, the modules that are initialized first need nothing, and the next has failed.
  abbrev StopsAgain : List Bytes → Initialization Location S E → Type 0
  StopsAgain ids (stopped (initializer_error e) table s) =
      (id : Bytes) × ((s2 : S)
        → initialize_from run ids table s2 ≡ stopped (initialization_failed id) table s2)
  StopsAgain ids _ = Unit

  finish-Fails :
      (id : Bytes) (table : ModuleTable Location) (ran : Ran S E)
      → state_at table id ≡ some initializing
      → Fails id (finish run id table ran)
  unfolding finish fail
  finish-Fails id table (finished s) h = tt
  finish-Fails id table (raised e s) h = move-state initializing failed id table h

  start-Fails :
      (id : Bytes) (s : S) (begun : Bool × ModuleTable Location)
      → state_at begun.1 id ≡ some initializing
      → Fails id (start run id s begun)
  unfolding start
  start-Fails id s (false, table) h = tt
  start-Fails id s (true, table) h = finish-Fails id table (run_module run (find table id) s) h

  one-Fails :
      (id : Bytes) (state : Option ModuleState) (table : ModuleTable Location) (s : S)
      → state_at table id ≡ state
      → Fails id (initialize_one run id state table s)
  unfolding initialize_one begin start
  one-Fails id none table s h = tt
  one-Fails id (some initialized) table s h = tt
  one-Fails id (some failed) table s h = tt
  one-Fails id (some uninitialized) table s h =
      start-Fails id s (move uninitialized initializing id table)
        (move-state uninitialized initializing id table h)
  one-Fails id (some initializing) table s h = rw (move-stays id table h) tt

  failed-again :
      (id : Bytes) (ids : List Bytes) (table : ModuleTable Location) (s : S)
      → state_at table id ≡ some failed
      → initialize_from run (id ∷ ids) table s ≡ stopped (initialization_failed id) table s
  unfolding initialize_from initialize_one and_on
  failed-again id ids table s h = rw h refl

  more-StopsAgain :
      (id : Bytes) (ids : List Bytes) (result : Initialization Location S E)
      → IsSettled (table_of result) id
      → StopsAgain ids result
      → StopsAgain (id ∷ ids) result
  unfolding initialize_from and_on
  more-StopsAgain id ids (complete_with table s) settled h = tt
  more-StopsAgain id ids (stopped (initialization_failed x) table s) settled h = tt
  more-StopsAgain id ids (stopped (invalid_state x) table s) settled h = tt
  more-StopsAgain id ids (stopped (initializer_error e) table s) settled (failing, h) =
      (failing, λ s2. rw (one-again run id table s2 settled) (h s2))

  rest-StopsAgain :
      (id : Bytes) (ids : List Bytes) (one : Initialization Location S E)
      (rest : ModuleTable Location → S → Initialization Location S E)
      → Settles run id one
      → Fails id one
      → ((table : ModuleTable Location) (s : S)
          → IsSettled table id
          → StopsAgain (id ∷ ids) (rest table s))
      → StopsAgain (id ∷ ids) (and_on run one rest)
  unfolding and_on
  rest-StopsAgain id ids (complete_with table s) rest settled fails h = h table s settled
  rest-StopsAgain id ids (stopped (initialization_failed x) table s) rest settled fails h = tt
  rest-StopsAgain id ids (stopped (invalid_state x) table s) rest settled fails h = tt
  rest-StopsAgain id ids (stopped (initializer_error e) table s) rest settled fails h =
      (id, λ s2. failed-again id ids table s2 fails)

  initialize_from-StopsAgain :
      (ids : List Bytes) (table : ModuleTable Location) (s : S)
      → StopsAgain ids (initialize_from run ids table s)
  unfolding initialize_from
  initialize_from-StopsAgain [] table s = tt
  initialize_from-StopsAgain (id ∷ ids) table s =
      rest-StopsAgain id ids (initialize_one run id (state_at table id) table s)
        (λ table' s'. initialize_from run ids table' s')
        (one-Settles run id (state_at table id) table s refl)
        (one-Fails id (state_at table id) table s refl)
        (λ table' s' settled.
          more-StopsAgain id ids (initialize_from run ids table' s')
            (rw (initialize_from-settled run ids id table' s' settled) settled)
            (initialize_from-StopsAgain ids table' s'))

  stopped-again :
      (ids : List Bytes) (result : Initialization Location S E) (e : E)
      (table' : ModuleTable Location) (s' : S)
      → result ≡ stopped (initializer_error e) table' s'
      → StopsAgain ids result
      → (id : Bytes) × ((s2 : S)
          → initialize_from run ids table' s2 ≡ stopped (initialization_failed id) table' s2)
  stopped-again ids (complete_with table s) e table' s' same h = absurd (ground arith)
  stopped-again ids (stopped (initialization_failed x) table s) e table' s' same h =
      absurd (ground arith)
  stopped-again ids (stopped (invalid_state x) table s) e table' s' same h = absurd (ground arith)
  stopped-again ids (stopped (initializer_error f) table s) e table' s' same (failing, h) =
      (failing, rw (← ap table_of same) h)

-- Where an initializer throws, a later initialization of the table, from whatever state, runs no
-- initializer: it reports the failure of a module and leaves the table and its state as they are.
pub initialize_modules-stopped :
    {Location S E : Type 0} (run : List Instruction → List Location → S → Ran S E)
    (table table' : ModuleTable Location) (s s' s2 : S) (e : E)
    → initialize_modules run table s ≡ stopped (initializer_error e) table' s'
    → (id : Bytes) × (initialize_modules run table' s2
        ≡ stopped (initialization_failed id) table' s2)
unfolding initialize_modules
initialize_modules-stopped run table table' s s' s2 e h =
    let same_order =
      (ap (λ r. (table_of r).order) (sym h)) ∙ initialize_from-order run table.order table s in
    let found =
      stopped-again run table.order (initialize_from run table.order table s) e table' s' h
        (initialize_from-StopsAgain run table.order table s) in
    (found.0, ap (λ ids. initialize_from run ids table' s2) same_order ∙ found.1 s2)
