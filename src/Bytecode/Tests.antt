-- ===== src/Bytecode/Tests.antt =====
-- The verifier and the tables on concrete code.
use text.Mathlib.Text.{◌==◌ as str_eq}
use vxx.Prelude.{◌≡◌, refl, true, false, none, some, [], ◌∷◌, arith, not}
use vxx.Prelude.Int.{ℤ, pos}
use vxx.Bytecode.Opcode.{
  Opcode, Instruction, op_chuoi, op_in, op_jump, op_jump_if_false, op_vm_length, op_ham,
}
use vxx.Bytecode.Opcode.Codes.{code_of, of_raw, of_raw-code_of}
use vxx.Bytecode.Opcode.Known.{is_known_opcode}
use vxx.Bytecode.Opcode.Names.{opcode_name}
use vxx.Bytecode.Opcode.Tables.{is_known-opcode_name, opcode_name-injective}
use vxx.Bytecode.Intrinsic.{IntrinsicDescriptor, intrinsic_by_name, intrinsic_by_opcode}
use vxx.Bytecode.Intrinsic.Laws.{by_name-by_opcode, by_opcode-known}
use vxx.Bytecode.Verifier.{
  BytecodeVerificationContext, BytecodeVerificationIssue, jump_address_out_of_range, Code,
  check_opcode, verify_instruction, verify_bytecode,
}
use vxx.Bytecode.Verifier.First.{Found, verify_bytecode-some, verify_bytecode-first}
use vxx.Bytecode.Verifier.Control.{ControlOk, verify_bytecode-ControlOk}
use vxx.Bytecode.Verifier.Pool.{ReferencesOk, verify_bytecode-ReferencesOk}

abbrev instruction : Opcode → ℤ → ℤ → Instruction
instruction o operand index = record {
  op = pos (code_of o);
  operand = operand;
  operand_index = index;
  operand_value = pos 0;
}

abbrev context : BytecodeVerificationContext
context = record {
  string_pool_size = 1;
  function_ids = [];
  foreign_descriptor_count = 0;
  foreign_descriptors = none;
}

-- A literal, then a branch to the end of the code.
abbrev good : Code
good =
    instruction op_chuoi (pos 0) (pos 0)
    ∷ instruction op_jump_if_false (pos 2) (pos 0)
    ∷ instruction op_in (pos 0) (pos 0)
    ∷ []

-- The branch leaves the code by one.
abbrev bad : Code
bad =
    instruction op_chuoi (pos 0) (pos 0)
    ∷ instruction op_jump_if_false (pos 3) (pos 0)
    ∷ instruction op_in (pos 0) (pos 0)
    ∷ []

abbrev bad_issue : BytecodeVerificationIssue
bad_issue = record {
  instruction_index = 1;
  raw_opcode = pos (code_of op_jump_if_false);
  message = jump_address_out_of_range;
}

good_verified : verify_bytecode good context ≡ none
unfolding verify_bytecode verify_instruction check_opcode is_known_opcode of_raw code_of
    intrinsic_by_opcode
good_verified = refl

bad_rejected : verify_bytecode bad context ≡ some bad_issue
unfolding verify_bytecode verify_instruction check_opcode is_known_opcode of_raw code_of
    intrinsic_by_opcode
bad_rejected = refl

read_branch : of_raw (pos (code_of op_jump_if_false)) ≡ some op_jump_if_false
read_branch = of_raw-code_of op_jump_if_false

verify_bytecode-ControlOk_example :
    ControlOk good 1 op_jump_if_false (instruction op_jump_if_false (pos 2) (pos 0))
verify_bytecode-ControlOk_example =
    verify_bytecode-ControlOk context good 1 op_jump_if_false
      (instruction op_jump_if_false (pos 2) (pos 0)) (omega arith) good_verified refl read_branch

-- Two functions, and the code that names the second one.
abbrev with_functions : BytecodeVerificationContext
with_functions = record {
  string_pool_size = 1;
  function_ids = pos 4 ∷ pos 9 ∷ [];
  foreign_descriptor_count = 0;
  foreign_descriptors = none;
}

abbrev function_code : Code
function_code = instruction op_ham (pos 0) (pos 9) ∷ []

function_verified : verify_bytecode function_code with_functions ≡ none
unfolding verify_bytecode verify_instruction check_opcode is_known_opcode of_raw code_of
    intrinsic_by_opcode
function_verified = refl

verify_bytecode-ReferencesOk_example :
    ReferencesOk with_functions op_ham (instruction op_ham (pos 0) (pos 9))
verify_bytecode-ReferencesOk_example =
    verify_bytecode-ReferencesOk with_functions function_code 0 op_ham
      (instruction op_ham (pos 0) (pos 9)) function_verified refl (of_raw-code_of op_ham)

verify_bytecode-some_example : Found context bad bad 0 bad_issue
verify_bytecode-some_example = verify_bytecode-some context bad bad_issue bad_rejected

verify_bytecode-first_example :
    verify_instruction context bad 0 (instruction op_chuoi (pos 0) (pos 0)) ≡ none
verify_bytecode-first_example =
    verify_bytecode-first context bad bad_issue 0 (instruction op_chuoi (pos 0) (pos 0))
      bad_rejected refl (omega arith)

is_known-opcode_name_example :
    is_known_opcode (pos 200) ≡ not (str_eq (opcode_name (pos 200)) "UNKNOWN_OPCODE")
is_known-opcode_name_example = is_known-opcode_name (pos 200)

jump_known : is_known_opcode (pos (code_of op_jump)) ≡ true
unfolding is_known_opcode of_raw code_of
jump_known = refl

opcode_name-injective_example : pos (code_of op_jump) ≡ pos (code_of op_jump)
opcode_name-injective_example =
    opcode_name-injective (pos (code_of op_jump)) (pos (code_of op_jump)) jump_known jump_known refl

abbrev length_intrinsic : IntrinsicDescriptor
length_intrinsic = record { name = "do_dai"; opcode = op_vm_length; arity = 1; reserved = false }

found_by_alias : intrinsic_by_name "độ dài" ≡ some length_intrinsic
unfolding intrinsic_by_name
found_by_alias = refl

by_name-by_opcode_example : intrinsic_by_opcode (pos (code_of op_vm_length)) ≡ some length_intrinsic
by_name-by_opcode_example = by_name-by_opcode "độ dài" length_intrinsic found_by_alias

by_opcode-known_example :
    (pos (code_of op_vm_length) ≡ pos (code_of op_vm_length))
    × (is_known_opcode (pos (code_of op_vm_length)) ≡ true)
by_opcode-known_example =
    by_opcode-known (pos (code_of op_vm_length)) length_intrinsic by_name-by_opcode_example
