-- ===== src/Vm/Variables.antt =====
-- src/runtime/vm.cpp: the reading of a variable (`OP_TEN_BIEN_GIA_TRI` of `executeVariableOpcode`), with `hasIndexedLocal`
-- of src/include/common/vm_callframe.h.
pub mod CatchLoad
use vxx.Prelude.{ℕ, Bool, true, false, not, ◌&&◌, Option, none, some, ◌∷◌, get_elem?, if◌then◌else◌}
use vxx.Prelude.Int.{ℤ, pos, is_negative, to_size}
use vxx.Bytecode.Opcode.{Instruction}
use vxx.Vm.State.{StackValue, int_value, CallFrame, Machine, Outcome, next}
use vxx.Vm.Exceptions.{update}

is_set : Option Bool → Bool
is_set none = false
is_set (some present) = present

-- CallFrame::hasIndexedLocal
has_indexed_local : ℤ → CallFrame → Bool
unfolding is_set
has_indexed_local id frame =
    not (is_negative id) && is_set (get_elem? frame.locals_present (to_size id))

load_slot : ℤ → CallFrame → Option StackValue
unfolding has_indexed_local
load_slot id frame =
    if frame.locals_indexed
    then if has_indexed_local id frame then get_elem? frame.locals_vec (to_size id) else none
    else frame.locals_map id

push : StackValue → Machine → Outcome
push value m = next (record m { stack = value ∷ m.stack })

-- A variable that is not there is made, with the value 0.
load_global : ℤ → Option StackValue → Machine → Outcome
unfolding push
load_global id none m =
    push (int_value (pos 0)) (record m { variables = update m.variables id (int_value (pos 0)) })
load_global id (some value) m = push value m

load_local : ℤ → Option StackValue → Machine → Outcome
unfolding load_global push
load_local id none m = load_global id (m.variables id) m
load_local id (some value) m = push value m

load_captured : ℤ → CallFrame → Option (Option ℕ) → Machine → Outcome
unfolding load_local load_slot push
load_captured id frame none m = load_local id (load_slot id frame) m
load_captured id frame (some none) m = load_local id (load_slot id frame) m
load_captured id frame (some (some cell)) m = push (m.cells cell) m

load_in : ℤ → Option CallFrame → Machine → Outcome
unfolding load_captured load_global
load_in id none m = load_global id (m.variables id) m
load_in id (some frame) m = load_captured id frame (frame.captured_cells id) m

unfoldable pub load_variable : Instruction → Machine → Outcome
unfolding load_in
load_variable i m = load_in i.operand_index m.frame m
