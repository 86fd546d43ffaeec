-- ===== src/Vm/Modules/Tests.antt =====
-- `initializeModules` on a table of two modules.
use vxx.Prelude.{false, ℕ, zero, suc, true, ◌+◌, ◌≡◌, refl, some, List, [], ◌∷◌, ◌≢◌}
use vxx.Prelude.Int.{pos}
use vxx.Prelude.Bytes.{Bytes, codes, equal, equal_iff}
use vxx.Bytecode.Opcode.{Instruction, op_nem}
use vxx.Bytecode.Opcode.Codes.{code_of}
use vxx.Vm.Modules.{
  ModuleTable, uninitialized, initialized, failed, Ran, finished, raised, initializer_error,
  initialization_failed, complete_with, stopped, initialize_modules, initialize_from, and_on,
  initialize_one, start, finish, run_module, begin, complete, fail, move, state_is, same, state_at,
  find, lookup, state_of, with_state,
}
use vxx.Vm.Modules.Once.{initialize_modules-again}
use vxx.Vm.Modules.Failure.{initialize_modules-stopped}
use vxx.Vm.Modules.OnePass.{IsFresh, effect, run_all, initialize_modules-run_all}

abbrev throw : Instruction
throw = record {
  op = pos (code_of op_nem);
  operand = pos 0;
  operand_index = pos 0;
  operand_value = pos 0;
}

-- Two modules: the initializer of `b`, one instruction long, throws unless the state is positive.
abbrev run : List Instruction → List ℕ → ℕ → Ran ℕ Bytes
run [] locations s = finished (s + 1)
run (i ∷ is) locations zero = raised (codes "zero") 0
run (i ∷ is) locations (suc s) = finished (suc s)

abbrev table : ModuleTable ℕ
table = record {
  modules =
      record { identity = codes "a"; initializer = []; debug_info = []; state = uninitialized }
      ∷ record {
        identity = codes "b";
        initializer = throw ∷ [];
        debug_info = [];
        state = uninitialized;
      }
      ∷ [];
  order = codes "a" ∷ codes "b" ∷ [];
}

abbrev table_after : ModuleTable ℕ
table_after = record {
  modules =
      record { identity = codes "a"; initializer = []; debug_info = []; state = initialized }
      ∷ record {
        identity = codes "b";
        initializer = throw ∷ [];
        debug_info = [];
        state = initialized;
      }
      ∷ [];
  order = codes "a" ∷ codes "b" ∷ [];
}

table_initialized : initialize_modules run table 4 ≡ complete_with table_after 5
unfolding initialize_modules initialize_from and_on initialize_one start finish run_module begin
    complete fail move state_is same state_at find lookup state_of with_state equal
table_initialized = refl

initialize_modules-again_example :
    initialize_modules run table_after 0 ≡ complete_with table_after 0
initialize_modules-again_example =
    initialize_modules-again run table table_after 4 5 0 table_initialized

other_identity : codes "a" ≢ codes "b"
unfolding equal
other_identity joined =
    let wrong : false ≡ true = (equal_iff (codes "a") (codes "b")).1 joined in cc

table-IsFresh : IsFresh table table.modules
unfolding find lookup equal
table-IsFresh = (refl, refl, (other_identity, tt), (refl, refl, tt, tt))

initialize_modules-run_all_example :
    effect run (initialize_modules run table 0) ≡ some (run_all run table.modules 0)
initialize_modules-run_all_example =
    initialize_modules-run_all run table table.modules 0 refl table-IsFresh

-- The first initializer counts up, so that the second one does not throw.
run_table : run_all run table.modules 0 ≡ finished 1
unfolding run_all
run_table = refl

abbrev backwards : ModuleTable ℕ
backwards = record { modules = table.modules; order = codes "b" ∷ codes "a" ∷ [] }

abbrev backwards_after : ModuleTable ℕ
backwards_after = record {
  modules =
      record { identity = codes "a"; initializer = []; debug_info = []; state = uninitialized }
      ∷ record { identity = codes "b"; initializer = throw ∷ []; debug_info = []; state = failed }
      ∷ [];
  order = codes "b" ∷ codes "a" ∷ [];
}

backwards_stopped :
    initialize_modules run backwards 0
    ≡ stopped (initializer_error (codes "zero")) backwards_after 0
unfolding initialize_modules initialize_from and_on initialize_one start finish run_module begin
    complete fail move state_is same state_at find lookup state_of with_state equal
backwards_stopped = refl

initialize_modules-stopped_example :
    (id : Bytes) × (initialize_modules run backwards_after 7
      ≡ stopped (initialization_failed id) backwards_after 7)
initialize_modules-stopped_example =
    initialize_modules-stopped run backwards backwards_after 0 0 7 (codes "zero") backwards_stopped
