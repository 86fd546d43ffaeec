-- ===== src/Vm/Modules/Order.antt =====
-- The order of the modules stays the same.
use vxx.Prelude.{◌∙◌, Bool, true, false, ◌≡◌, refl, Option, none, some, List, [], ◌∷◌}
use vxx.Prelude.Bytes.{Bytes}
use vxx.Bytecode.Opcode.{Instruction}
use vxx.Vm.Modules.{
  ModuleState, uninitialized, initializing, initialized, failed, ModuleTable, Ran, finished, raised,
  find, state_at, move, begin, complete, fail, Initialization, complete_with, stopped, run_module,
  finish, start, initialize_one, and_on, initialize_from,
}
use vxx.Vm.Modules.Moves.{move-order, table_of}

module _ {Location S E : Type 0} (run : List Instruction → List Location → S → Ran S E) where
  rest-order :
      (one : Initialization Location S E) (table : ModuleTable Location)
      (rest : ModuleTable Location → S → Initialization Location S E)
      → (table_of one).order ≡ table.order
      → ((table' : ModuleTable Location) (s' : S)
          → (table_of (rest table' s')).order ≡ table'.order)
      → (table_of (and_on run one rest)).order ≡ table.order
  unfolding and_on
  rest-order (complete_with table' s') table rest e h = rw (← e) (h table' s')
  rest-order (stopped error table' s') table rest e h = e

  finish-order :
      (id : Bytes) (table : ModuleTable Location) (ran : Ran S E)
      → (table_of (finish run id table ran)).order ≡ table.order
  unfolding finish complete fail
  finish-order id table (finished s) = move-order initializing initialized id table
  finish-order id table (raised e s) = move-order initializing failed id table

  start-order :
      (id : Bytes) (s : S) (begun : Bool × ModuleTable Location)
      → (table_of (start run id s begun)).order ≡ begun.1.order
  unfolding start
  start-order id s (false, table) = refl
  start-order id s (true, table) = finish-order id table (run_module run (find table id) s)

  one-order :
      (id : Bytes) (state : Option ModuleState) (table : ModuleTable Location) (s : S)
      → (table_of (initialize_one run id state table s)).order ≡ table.order
  unfolding initialize_one begin
  one-order id none table s = refl
  one-order id (some initialized) table s = refl
  one-order id (some failed) table s = refl
  one-order id (some uninitialized) table s =
      start-order id s (move uninitialized initializing id table)
      ∙ move-order uninitialized initializing id table
  one-order id (some initializing) table s =
      start-order id s (move uninitialized initializing id table)
      ∙ move-order uninitialized initializing id table

  pub initialize_from-order :
      (ids : List Bytes) (table : ModuleTable Location) (s : S)
      → (table_of (initialize_from run ids table s)).order ≡ table.order
  unfolding initialize_from
  initialize_from-order [] table s = refl
  initialize_from-order (id ∷ ids) table s =
      rest-order (initialize_one run id (state_at table id) table s) table
        (λ table' s'. initialize_from run ids table' s') (one-order id (state_at table id) table s)
        (λ table' s'. initialize_from-order ids table' s')
