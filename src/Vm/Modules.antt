-- ===== src/Vm/Modules.antt =====
-- src/runtime/module.cpp and src/include/vpp/runtime/module.h, and `initializeModules` of src/runtime/vm.cpp.
-- The map from identities to modules is a list in the order of insertion.
pub mod Moves
pub mod Rounds
pub mod Order
pub mod Once
pub mod OnePass
pub mod Failure
mod Tests
use vxx.Prelude.{
  Bool, true, false, not, ◌&&◌, Option, none, some, List, [], ◌∷◌, ◌++◌, if◌then◌else◌, ℕ,
}
use vxx.Prelude.Bytes.{Bytes, codes, equal}
use vxx.Bytecode.Opcode.{Instruction}

pub data ModuleState : Type 0 where
  uninitialized initializing initialized failed : ModuleState

-- A location is what the debug information says of an instruction.
pub record RuntimeModule (Location : Type 0) : Type 0 where
  pub identity : Bytes
  pub initializer : List Instruction
  pub debug_info : List Location
  pub state : ModuleState

pub record ModuleTable (Location : Type 0) : Type 0 where
  pub modules : List (RuntimeModule Location)
  pub order : List Bytes

unfoldable pub same : ModuleState → ModuleState → Bool
same uninitialized uninitialized = true
same initializing initializing = true
same initialized initialized = true
same failed failed = true
same _ _ = false

unfoldable pub state_is : ModuleState → Option ModuleState → Bool
state_is expected none = false
state_is expected (some actual) = same expected actual

module_state_name : ModuleState → Bytes
module_state_name uninitialized = codes "uninitialized"
module_state_name initializing = codes "initializing"
module_state_name initialized = codes "initialized"
module_state_name failed = codes "failed"

-- What an initializer does to the state that the machine shares with it: it comes to its end, or throws.
pub data Ran (S E : Type 0) : Type 0 where
  finished : S → Ran S E
  raised : E → S → Ran S E

pub data ModuleError (E : Type 0) : Type 0 where
  initialization_failed : Bytes → ModuleError E
  invalid_state : Bytes → ModuleError E
  initializer_error : E → ModuleError E

pub data Initialization (Location S E : Type 0) : Type 0 where
  complete_with : ModuleTable Location → S → Initialization Location S E
  stopped : ModuleError E → ModuleTable Location → S → Initialization Location S E

module _ {Location : Type 0} where
  unfoldable pub lookup : List (RuntimeModule Location) → Bytes → Option (RuntimeModule Location)
  lookup [] id = none
  lookup (m ∷ ms) id = let later = lookup ms id in if equal m.identity id then some m else later

  -- ModuleTable::module
  unfoldable pub find : ModuleTable Location → Bytes → Option (RuntimeModule Location)
  find table id = lookup table.modules id

  unfoldable pub state_of : Option (RuntimeModule Location) → Option ModuleState
  state_of none = none
  state_of (some m) = some m.state

  -- ModuleTable::state
  unfoldable pub state_at : ModuleTable Location → Bytes → Option ModuleState
  state_at table id = state_of (find table id)

  unfoldable pub with_state :
      Bytes → ModuleState → List (RuntimeModule Location) → List (RuntimeModule Location)
  with_state id state [] = []
  with_state id state (m ∷ ms) =
      let later = with_state id state ms in
      if equal m.identity id then record m { state = state } ∷ ms else m ∷ later

  -- The one change of state that begin, complete and fail make.
  unfoldable pub move :
      ModuleState → ModuleState → Bytes → ModuleTable Location → Bool × ModuleTable Location
  move from to id table =
      if state_is from (state_at table id)
      then (true, record table { modules = with_state id to table.modules })
      else (false, table)

  unfoldable pub begin : Bytes → ModuleTable Location → Bool × ModuleTable Location
  begin id table = move uninitialized initializing id table

  unfoldable pub complete : Bytes → ModuleTable Location → Bool × ModuleTable Location
  complete id table = move initializing initialized id table

  unfoldable pub fail : Bytes → ModuleTable Location → Bool × ModuleTable Location
  fail id table = move initializing failed id table

  append_module :
      Bytes
      → List Instruction
      → List Location
      → Option (RuntimeModule Location)
      → ModuleTable Location
      → Bool × ModuleTable Location
  append_module id initializer locations (some m) table = (false, table)
  append_module id initializer locations none table = (
    true,
    record {
      modules =
          table.modules
          ++ record {
            identity = id;
            initializer = initializer;
            debug_info = locations;
            state = uninitialized;
          }
            ∷ [];
      order = table.order ++ id ∷ [];
    },
  )

  add :
      Bytes → List Instruction → List Location → ModuleTable Location → Bool × ModuleTable Location
  add [] initializer locations table = (false, table)
  add (c ∷ id) initializer locations table =
      append_module (c ∷ id) initializer locations (find table (c ∷ id)) table

  module _ {S E : Type 0} (run : List Instruction → List Location → S → Ran S E) where
    unfoldable pub run_module : Option (RuntimeModule Location) → S → Ran S E
    run_module none s = run [] [] s
    run_module (some m) s = run m.initializer m.debug_info s

    unfoldable pub finish : Bytes → ModuleTable Location → Ran S E → Initialization Location S E
    finish id table (finished s) = complete_with (complete id table).1 s
    finish id table (raised e s) = stopped (initializer_error e) (fail id table).1 s

    unfoldable pub start : Bytes → S → Bool × ModuleTable Location → Initialization Location S E
    start id s (false, table) = stopped (invalid_state id) table s
    start id s (true, table) = finish id table (run_module (find table id) s)

    -- One round of the loop of `VM::initializeModules`.
    unfoldable pub initialize_one :
        Bytes → Option ModuleState → ModuleTable Location → S → Initialization Location S E
    initialize_one id none table s = complete_with table s
    initialize_one id (some initialized) table s = complete_with table s
    initialize_one id (some failed) table s = stopped (initialization_failed id) table s
    initialize_one id (some uninitialized) table s = start id s (begin id table)
    initialize_one id (some initializing) table s = start id s (begin id table)

    unfoldable pub and_on :
        Initialization Location S E
        → (ModuleTable Location → S → Initialization Location S E)
        → Initialization Location S E
    and_on (complete_with table s) rest = rest table s
    and_on (stopped e table s) rest = stopped e table s

    unfoldable pub initialize_from :
        List Bytes → ModuleTable Location → S → Initialization Location S E
    initialize_from [] table s = complete_with table s
    initialize_from (id ∷ ids) table s =
        and_on (initialize_one id (state_at table id) table s)
          (λ table' s'. initialize_from ids table' s')

    unfoldable pub initialize_modules : ModuleTable Location → S → Initialization Location S E
    initialize_modules table s = initialize_from table.order table s
