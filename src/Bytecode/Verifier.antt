-- ===== src/Bytecode/Verifier.antt =====
-- src/bytecode/verifier.cpp and src/include/vpp/bytecode/verifier.h: `verifyBytecode`.
pub mod First
pub mod Control
pub mod Pool
use vxx.Prelude.{
  ℕ, zero, suc, ◌+◌, Bool, true, false, not, ◌&&◌, ◌||◌, Option, none, some, List, [], ◌∷◌, ltb,
  leb, ◌==◌, if◌then◌else◌, length, get_elem?,
}
use vxx.Prelude.Int.{ℤ, pos, negsuc, is_negative, to_size, is_value, to_int, leb_ℤ, eq_ℤ}
use vxx.Bytecode.Opcode.{
  Opcode, Instruction, op_chon, op_mac_dinh, op_thoat, op_jump, op_jump_if_false, op_thu,
  op_thu_ket_thuc, op_chuoi, op_bien_so_float, op_map_literal, op_list_literal, op_ham, op_goi,
  op_goi_gian_tiep, op_param, op_param_mac_dinh, op_ca, op_tao_lop, op_them_phuong_thuc,
  op_tao_doi_tuong, op_doc_thuoc_tinh, op_gan_thuoc_tinh, op_goi_phuong_thuc, op_tao_dong_bao,
  op_ffi_call, op_ket_thuc_chuyen, op_bat_loi,
}
use vxx.Bytecode.Opcode.Codes.{code_of, of_raw}
use vxx.Bytecode.Opcode.Known.{is_known_opcode}
use vxx.Bytecode.Intrinsic.{IntrinsicDescriptor, intrinsic_by_opcode}
use vxx.Bytecode.Foreign.{ForeignFunctionDescriptor, ForeignIssue, verify_foreign_descriptor}

-- The set of function ids is a list: only its emptiness and its members are asked for.
pub record BytecodeVerificationContext : Type 0 where
  pub string_pool_size : ℕ
  pub function_ids : List ℤ
  pub foreign_descriptor_count : ℕ
  pub foreign_descriptors : Option (List ForeignFunctionDescriptor)

pub data PoolLabel : Type 0 where
  literal function_name default_value class_name superclass_name method_name : PoolLabel
  constructor_class_name property_name : PoolLabel

-- The messages of the issues, in the order of the source.
pub data Message : Type 0 where
  unknown_opcode immediate_operand jump_address_out_of_range break_operand : Message
  catch_address_out_of_range catch_address_must_point_to_catch : Message
  try_end_address_out_of_range dynamic_collection_count_negative : Message
  pool_reference_out_of_range : PoolLabel → Message
  function_id_negative function_id_missing call_argument_count_negative : Message
  indirect_call_name_out_of_range indirect_call_argument_count_negative : Message
  parameter_metadata_invalid default_parameter_metadata_invalid case_label_kind_invalid : Message
  superclass_metadata_invalid method_class_name_out_of_range method_function_id_missing : Message
  constructor_argument_count_negative method_argument_count_negative : Message
  method_dispatch_mode_invalid closure_metadata_invalid closure_function_id_missing : Message
  foreign_argument_count_negative foreign_descriptor_out_of_range foreign_operand_value : Message
  foreign_descriptor_missing foreign_arity_mismatch : Message
  foreign_descriptor_invalid : ForeignIssue → Message

pub record BytecodeVerificationIssue : Type 0 where
  pub instruction_index : ℕ
  pub raw_opcode : ℤ
  pub message : Message

abbrev pub Code : Type 0
Code = List Instruction

valid_pool_index : ℤ → ℕ → Bool
valid_pool_index index size = not (is_negative index) && ltb (to_size index) size

-- Of a 32-bit value: -(encoded + 1) where it is negative.
pub decode_signed_index : ℤ → ℤ
decode_signed_index (pos n) = pos n
decode_signed_index (negsuc n) = pos n

-- z < 0 || static_cast<std::size_t>(z) >= size
abbrev outside : ℤ → ℕ → Bool
outside z size = is_negative z || leb size (to_size z)

instruction_is : Opcode → Option Instruction → Bool
instruction_is o none = false
instruction_is o (some instruction) = is_value (code_of o) instruction.op

-- code[i].op == o, asked only of an i within the code.
unfoldable pub op_at : Code → ℕ → Opcode → Bool
unfolding instruction_is
op_at code i o = instruction_is o (get_elem? code i)

abbrev pub missing {ℓ} : {A : Type ℓ} → List A → Bool
missing [] = true
missing (x ∷ xs) = false

pub contains : List ℤ → ℤ → Bool
contains [] id = false
contains (x ∷ xs) id = eq_ℤ x id || contains xs id

-- !functionIds.empty() && functionIds.find(id) == functionIds.end()
pub unknown_function : BytecodeVerificationContext → ℤ → Bool
unfolding contains
unknown_function context id =
    not (missing context.function_ids) && not (contains context.function_ids id)

abbrev reject : Bool → Message → Option Message → Option Message
reject bad message rest = if bad then some message else rest

require_pool_index : BytecodeVerificationContext → ℤ → PoolLabel → Option Message → Option Message
unfolding valid_pool_index
require_pool_index context index label rest =
    if valid_pool_index index context.string_pool_size
    then rest
    else some (pool_reference_out_of_range label)

-- The link of a case label to the next one.
bad_label_link : Code → ℕ → ℤ → Bool
bad_label_link code index value =
    not (is_value 0 value)
    && (leb_ℤ value (to_int index)
        || leb (length code) (to_size value)
        || not (
            op_at code (to_size value) op_ca
            || op_at code (to_size value) op_mac_dinh
            || op_at code (to_size value) op_ket_thuc_chuyen))

-- operandValue - 1
abbrev before : ℤ → ℤ
before (pos zero) = negsuc 0
before (pos (suc n)) = pos n
before (negsuc n) = negsuc (suc n)

is_positive : ℤ → Bool
is_positive z = not (is_negative z) && not (is_value 0 z)

check_descriptor : Instruction → Option ForeignFunctionDescriptor → Option Message
check_descriptor i none = some foreign_descriptor_missing
check_descriptor i (some descriptor) =
    reject (not (to_size i.operand == length descriptor.parameters)) foreign_arity_mismatch
      (elim (verify_foreign_descriptor descriptor (to_size i.operand_index)) [
        | none ↦ none
        | some issue ↦ some (foreign_descriptor_invalid issue)
      ])

check_table : Instruction → Option (List ForeignFunctionDescriptor) → Option Message
check_table i none = none
check_table i (some descriptors) =
    check_descriptor i (get_elem? descriptors (to_size i.operand_index))

-- The bodies that are more than one test.
check_literal : BytecodeVerificationContext → Instruction → Option Message
check_literal context i =
    if eq_ℤ i.operand_index (negsuc 0)
    then reject (is_negative i.operand) dynamic_collection_count_negative none
    else require_pool_index context i.operand_index literal none

check_break : Code → Instruction → Option Message
check_break code i =
    if is_negative i.operand_index
    then reject (outside i.operand (length code) || is_negative i.operand_value)
        jump_address_out_of_range none
    else reject
        (not (is_value 0 i.operand)
          || not (is_value 0 i.operand_index)
          || not (is_value 0 i.operand_value))
        break_operand none

-- The switch on the opcode.
unfoldable pub check_opcode :
    BytecodeVerificationContext → Code → ℕ → Opcode → Instruction → Option Message
unfolding require_pool_index unknown_function bad_label_link op_at decode_signed_index is_positive
    check_table check_descriptor check_literal check_break
check_opcode context code index op_chon i =
    reject
      (not (is_value 0 i.operand)
        && (outside i.operand (length code)
            || not (op_at code (to_size i.operand) op_ket_thuc_chuyen)))
      jump_address_out_of_range none
check_opcode context code index op_mac_dinh i =
    reject (bad_label_link code index i.operand_value) jump_address_out_of_range none
check_opcode context code index op_thoat i = check_break code i
check_opcode context code index op_jump i =
    reject (outside i.operand (length code)) jump_address_out_of_range none
check_opcode context code index op_jump_if_false i =
    reject (outside i.operand (length code)) jump_address_out_of_range none
check_opcode context code index op_thu i =
    reject (outside i.operand (length code)) catch_address_out_of_range (
      reject (not (op_at code (to_size i.operand) op_bat_loi)) catch_address_must_point_to_catch
        none)
check_opcode context code index op_thu_ket_thuc i =
    reject (is_negative i.operand || ltb (length code) (to_size i.operand))
      try_end_address_out_of_range none
check_opcode context code index op_chuoi i = require_pool_index context i.operand_index literal none
check_opcode context code index op_bien_so_float i =
    require_pool_index context i.operand_index literal none
check_opcode context code index op_map_literal i = check_literal context i
check_opcode context code index op_list_literal i = check_literal context i
check_opcode context code index op_ham i = require_pool_index context i.operand function_name (
    reject (is_negative i.operand_index) function_id_negative
      (reject (unknown_function context i.operand_index) function_id_missing none))
check_opcode context code index op_goi i =
    reject (is_negative i.operand) call_argument_count_negative (
      reject
        (is_negative i.operand_index
          && outside (decode_signed_index i.operand_index) context.string_pool_size)
        indirect_call_name_out_of_range none)
check_opcode context code index op_goi_gian_tiep i =
    reject (is_negative i.operand) indirect_call_argument_count_negative none
check_opcode context code index op_param i =
    reject (is_negative i.operand_index || leb_ℤ i.operand_value (negsuc 1))
      parameter_metadata_invalid none
check_opcode context code index op_param_mac_dinh i =
    reject (is_negative i.operand_index || is_negative i.operand_value)
      default_parameter_metadata_invalid (require_pool_index context i.operand default_value none)
check_opcode context code index op_ca i =
    reject (leb_ℤ i.operand_index (negsuc 2)) case_label_kind_invalid
      (reject (bad_label_link code index i.operand_value) jump_address_out_of_range none)
check_opcode context code index op_tao_lop i =
    require_pool_index context i.operand_index class_name (
      reject (is_negative i.operand_value) superclass_metadata_invalid (
        if is_positive i.operand_value
        then require_pool_index context (before i.operand_value) superclass_name none
        else none))
check_opcode context code index op_them_phuong_thuc i =
    reject (outside (decode_signed_index i.operand) context.string_pool_size)
      method_class_name_out_of_range
      (require_pool_index context i.operand_index method_name (
        reject (unknown_function context (to_int (to_size (decode_signed_index i.operand_value))))
          method_function_id_missing none))
check_opcode context code index op_tao_doi_tuong i =
    reject (is_negative i.operand) constructor_argument_count_negative
      (require_pool_index context i.operand_index constructor_class_name none)
check_opcode context code index op_doc_thuoc_tinh i =
    require_pool_index context i.operand_index property_name none
check_opcode context code index op_gan_thuoc_tinh i =
    require_pool_index context i.operand_index property_name none
check_opcode context code index op_goi_phuong_thuc i =
    reject (is_negative i.operand) method_argument_count_negative (
      reject (not (is_value 0 i.operand_value) && not (is_value 1 i.operand_value))
        method_dispatch_mode_invalid (require_pool_index context i.operand_index method_name none))
check_opcode context code index op_tao_dong_bao i =
    reject (is_negative i.operand || is_negative i.operand_index) closure_metadata_invalid
      (reject (unknown_function context i.operand) closure_function_id_missing none)
check_opcode context code index op_ffi_call i =
    reject (is_negative i.operand) foreign_argument_count_negative (
      reject (outside i.operand_index context.foreign_descriptor_count)
        foreign_descriptor_out_of_range
        (reject (not (is_value 0 i.operand_value)) foreign_operand_value
          (check_table i context.foreign_descriptors)))
check_opcode context code index _ i = none

check_switch : BytecodeVerificationContext → Code → ℕ → Option Opcode → Instruction → Option Message
check_switch context code index none i = none
check_switch context code index (some op) i = check_opcode context code index op i

abbrev is_intrinsic : Option IntrinsicDescriptor → Bool
is_intrinsic none = false
is_intrinsic (some d) = true

has_operands : Instruction → Bool
has_operands i =
    not (is_value 0 i.operand)
    || not (is_value 0 i.operand_index)
    || not (is_value 0 i.operand_value)

-- One round of the loop of `verifyBytecode`.
unfoldable pub verify_instruction :
    BytecodeVerificationContext → Code → ℕ → Instruction → Option Message
unfolding check_switch has_operands
verify_instruction context code index i = reject (not (is_known_opcode i.op)) unknown_opcode (
    reject (is_intrinsic (intrinsic_by_opcode i.op) && has_operands i) immediate_operand
      (check_switch context code index (of_raw i.op) i))

issue_at :
    ℕ
    → Instruction
    → Option Message
    → Option BytecodeVerificationIssue
    → Option BytecodeVerificationIssue
issue_at index i none rest = rest
issue_at index i (some message) rest =
    some (record { instruction_index = index; raw_opcode = i.op; message = message })

-- The loop from `index` on, over the instructions that are left.
verify_from : BytecodeVerificationContext → Code → ℕ → Code → Option BytecodeVerificationIssue
verify_from context code index [] = none
verify_from context code index (i ∷ rest) =
    issue_at index i (verify_instruction context code index i)
      (verify_from context code (suc index) rest)

-- verifyBytecode
unfoldable pub verify_bytecode :
    Code → BytecodeVerificationContext → Option BytecodeVerificationIssue
unfolding verify_from issue_at
verify_bytecode code context = verify_from context code 0 code
