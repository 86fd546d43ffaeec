-- ===== src/Bytecode/Verifier/Pool.antt =====
-- src/bytecode/verifier.cpp: what the instructions that `verifyBytecode` accepts refer to.
use vxx.Prelude.{
  ℕ, zero, suc, ◌<◌, ◌≡◌, refl, ◌⊎◌, inl, inr, true, false, none, some, arith, get_elem?, ltb, leb,
  Bool-cases, not, ◌&&◌, ◌||◌, List, [], ◌∷◌, ◌==◌,
}
use vxx.Prelude.Int.{ℤ, pos, negsuc, is_negative, to_size, eq_ℤ, leb_ℤ, is_value, to_int}
use vxx.Bytecode.Opcode.{
  Opcode, Instruction, op_chuoi, op_bien_so_float, op_map_literal, op_list_literal, op_ham, op_goi,
  op_param_mac_dinh, op_tao_lop, op_them_phuong_thuc, op_tao_doi_tuong, op_doc_thuoc_tinh,
  op_gan_thuoc_tinh, op_goi_phuong_thuc, op_ffi_call, op_goi_gian_tiep, op_param, op_tao_dong_bao,
}
use vxx.Bytecode.Opcode.Codes.{of_raw}
use vxx.Bytecode.Verifier.{
  BytecodeVerificationContext, Code, decode_signed_index, require_pool_index, check_literal,
  check_opcode, verify_bytecode, is_positive, before, contains, unknown_function, missing,
}
use vxx.Bytecode.Verifier.Control.{verify_instruction-check}
use vxx.Bytecode.Verifier.First.{verify_bytecode-none}

-- An index into the string pool, as `std::vector::at` wants it.
abbrev InPool : BytecodeVerificationContext → ℤ → Type 0
InPool context z = (n : ℕ) × (z ≡ pos n) × (n < context.string_pool_size)

-- A count.
abbrev IsCount : ℤ → Type 0
IsCount z = (n : ℕ) × (z ≡ pos n)

-- A function of the program, where the context lists the functions at all.
abbrev IsFunction : BytecodeVerificationContext → ℤ → Type 0
IsFunction context id =
    (context.function_ids ≡ []) ⊎ ((k : ℕ) × (get_elem? context.function_ids k ≡ some id))

-- What the VM reads with each opcode: entries of the string pool, functions, foreign descriptors, and numbers of
-- arguments, parameters and captured variables.
abbrev pub ReferencesOk : BytecodeVerificationContext → Opcode → Instruction → Type 0
ReferencesOk context op_chuoi i = InPool context i.operand_index
ReferencesOk context op_bien_so_float i = InPool context i.operand_index
ReferencesOk context op_map_literal i =
    InPool context i.operand_index ⊎ (i.operand_index ≡ negsuc 0) × IsCount i.operand
ReferencesOk context op_list_literal i =
    InPool context i.operand_index ⊎ (i.operand_index ≡ negsuc 0) × IsCount i.operand
ReferencesOk context op_ham i =
    InPool context i.operand × IsCount i.operand_index × IsFunction context i.operand_index
ReferencesOk context op_goi i =
    IsCount i.operand
    × (IsCount i.operand_index ⊎ InPool context (decode_signed_index i.operand_index))
ReferencesOk context op_goi_gian_tiep i = IsCount i.operand
ReferencesOk context op_param i =
    IsCount i.operand_index × ((i.operand_value ≡ negsuc 0) ⊎ IsCount i.operand_value)
ReferencesOk context op_param_mac_dinh i =
    InPool context i.operand × IsCount i.operand_index × IsCount i.operand_value
ReferencesOk context op_tao_lop i =
    InPool context i.operand_index
    × ((i.operand_value ≡ pos 0)
        ⊎ ((n : ℕ) × (i.operand_value ≡ pos (suc n)) × (n < context.string_pool_size)))
ReferencesOk context op_them_phuong_thuc i =
    InPool context (decode_signed_index i.operand)
    × InPool context i.operand_index
    × IsFunction context (to_int (to_size (decode_signed_index i.operand_value)))
ReferencesOk context op_tao_doi_tuong i = IsCount i.operand × InPool context i.operand_index
ReferencesOk context op_doc_thuoc_tinh i = InPool context i.operand_index
ReferencesOk context op_gan_thuoc_tinh i = InPool context i.operand_index
ReferencesOk context op_goi_phuong_thuc i =
    IsCount i.operand
    × InPool context i.operand_index
    × ((i.operand_value ≡ pos 0) ⊎ (i.operand_value ≡ pos 1))
ReferencesOk context op_tao_dong_bao i =
    IsCount i.operand × IsCount i.operand_index × IsFunction context i.operand
ReferencesOk context op_ffi_call i =
    IsCount i.operand
    × ((n : ℕ) × (i.operand_index ≡ pos n) × (n < context.foreign_descriptor_count))
ReferencesOk context _ i = Unit

below-of_inside :
    (z : ℤ) (n : ℕ) → is_negative z || leb n (to_size z) ≡ false → (m : ℕ) × (z ≡ pos m) × (m < n)
below-of_inside (pos m) n h = (m, refl, ground arith)
below-of_inside (negsuc m) n h = cc

below-of_valid :
    (z : ℤ) (n : ℕ)
    → not (is_negative z) && ltb (to_size z) n ≡ true
    → (m : ℕ) × (z ≡ pos m) × (m < n)
below-of_valid (pos m) n h = (m, refl, ground arith)
below-of_valid (negsuc m) n h = cc

IsCount-of_nonneg : (z : ℤ) → is_negative z ≡ false → IsCount z
IsCount-of_nonneg (pos n) h = (n, refl)
IsCount-of_nonneg (negsuc n) h = cc

minus_one : (z : ℤ) → eq_ℤ z (negsuc 0) ≡ true → z ≡ negsuc 0
minus_one (pos n) h = cc
minus_one (negsuc n) h = ground arith

param_value : (z : ℤ) → leb_ℤ z (negsuc 1) ≡ false → (z ≡ negsuc 0) ⊎ IsCount z
param_value (pos n) h = inr (n, refl)
param_value (negsuc zero) h = inl refl
param_value (negsuc (suc n)) h = absurd (ground arith)

dispatch_mode :
    (z : ℤ) → not (is_value 0 z) && not (is_value 1 z) ≡ false → (z ≡ pos 0) ⊎ (z ≡ pos 1)
dispatch_mode (pos n) h = elim (Bool-cases (n == 0)) [
  | inl none_of ↦ inl (ground arith)
  | inr other ↦ inr (ground arith)
]
dispatch_mode (negsuc n) h = cc

same_number : (x z : ℤ) → eq_ℤ x z ≡ true → x ≡ z
same_number (pos m) (pos n) h = ground arith
same_number (pos m) (negsuc n) h = cc
same_number (negsuc m) (pos n) h = cc
same_number (negsuc m) (negsuc n) h = ground arith

listed-of_contains :
    (ids : List ℤ) (id : ℤ) → contains ids id ≡ true → (k : ℕ) × (get_elem? ids k ≡ some id)
unfolding contains
listed-of_contains [] id h = cc
listed-of_contains (x ∷ ids) id h = elim (Bool-cases (eq_ℤ x id)) [
  | inl same ↦ (0, rw (same_number x id same) refl)
  | inr other ↦ let (k, found) = listed-of_contains ids id (ground arith) in (suc k, found)
]

nil-of_missing : (ids : List ℤ) → not (missing ids) ≡ false → ids ≡ []
nil-of_missing [] h = refl
nil-of_missing (x ∷ ids) h = cc

module _ (context : BytecodeVerificationContext) where
  IsFunction-ok : (id : ℤ) → unknown_function context id ≡ false → IsFunction context id
  unfolding unknown_function
  IsFunction-ok id h = elim (Bool-cases (contains context.function_ids id)) [
    | inl listed ↦ inr (listed-of_contains context.function_ids id listed)
    | inr missing ↦ inl (nil-of_missing context.function_ids (ground arith))
  ]

  literal-ok :
      (i : Instruction)
      → check_literal context i ≡ none
      → InPool context i.operand_index ⊎ (i.operand_index ≡ negsuc 0) × IsCount i.operand
  unfolding check_literal require_pool_index
  literal-ok i h = elim (Bool-cases (eq_ℤ i.operand_index (negsuc 0))) [
    | inl dynamic ↦
        inr (minus_one i.operand_index dynamic, IsCount-of_nonneg i.operand (ground arith))
    | inr pooled ↦ inl (below-of_valid i.operand_index context.string_pool_size (ground arith))
  ]

  superclass-ok :
      (z : ℤ)
      → is_negative z ≡ false
      → is_positive z ≡ false
        ⊎ (not (is_negative (before z)) && ltb (to_size (before z)) context.string_pool_size ≡ true)
      → (z ≡ pos 0) ⊎ ((n : ℕ) × (z ≡ pos (suc n)) × (n < context.string_pool_size))
  unfolding is_positive
  superclass-ok (pos zero) h k = inl refl
  superclass-ok (pos (suc n)) h (inl k) = absurd (grind arith)
  superclass-ok (pos (suc n)) h (inr k) = inr (n, refl, ground arith)
  superclass-ok (negsuc n) h k = cc

module _ (context : BytecodeVerificationContext) (code : Code) (index : ℕ) where
  check_opcode-ReferencesOk :
      (op : Opcode) (i : Instruction)
      → check_opcode context code index op i ≡ none
      → ReferencesOk context op i
  unfolding check_opcode
  check_opcode-ReferencesOk op_chuoi i h = below-of_valid i.operand_index _ (ground arith)
  check_opcode-ReferencesOk op_bien_so_float i h = below-of_valid i.operand_index _ (ground arith)
  check_opcode-ReferencesOk op_map_literal i h = literal-ok context i h
  check_opcode-ReferencesOk op_list_literal i h = literal-ok context i h
  check_opcode-ReferencesOk op_ham i h = (
    below-of_valid i.operand _ (ground arith),
    IsCount-of_nonneg i.operand_index (ground arith),
    IsFunction-ok context i.operand_index (ground arith),
  )
  check_opcode-ReferencesOk op_goi i h = (
    IsCount-of_nonneg i.operand (ground arith),
    elim (Bool-cases (is_negative i.operand_index)) [
      | inl named ↦ inr (below-of_inside (decode_signed_index i.operand_index) _ (ground arith))
      | inr direct ↦ inl (IsCount-of_nonneg i.operand_index direct)
    ],
  )
  check_opcode-ReferencesOk op_goi_gian_tiep i h = IsCount-of_nonneg i.operand (ground arith)
  check_opcode-ReferencesOk op_param i h =
      (IsCount-of_nonneg i.operand_index (ground arith), param_value i.operand_value (ground arith))
  check_opcode-ReferencesOk op_param_mac_dinh i h = (
    below-of_valid i.operand _ (ground arith),
    IsCount-of_nonneg i.operand_index (ground arith),
    IsCount-of_nonneg i.operand_value (ground arith),
  )
  check_opcode-ReferencesOk op_tao_lop i h = (
    below-of_valid i.operand_index _ (ground arith),
    superclass-ok context i.operand_value (ground arith)
        (elim (Bool-cases (is_positive i.operand_value)) [
          | inl named ↦ inr (ground arith)
          | inr root ↦ inl root
        ]),
  )
  check_opcode-ReferencesOk op_them_phuong_thuc i h = (
    below-of_inside (decode_signed_index i.operand) _ (ground arith),
    below-of_valid i.operand_index _ (ground arith),
    IsFunction-ok context (to_int (to_size (decode_signed_index i.operand_value))) (ground arith),
  )
  check_opcode-ReferencesOk op_tao_doi_tuong i h =
      (IsCount-of_nonneg i.operand (ground arith), below-of_valid i.operand_index _ (ground arith))
  check_opcode-ReferencesOk op_doc_thuoc_tinh i h = below-of_valid i.operand_index _ (ground arith)
  check_opcode-ReferencesOk op_gan_thuoc_tinh i h = below-of_valid i.operand_index _ (ground arith)
  check_opcode-ReferencesOk op_goi_phuong_thuc i h = (
    IsCount-of_nonneg i.operand (ground arith),
    below-of_valid i.operand_index _ (ground arith),
    dispatch_mode i.operand_value (ground arith),
  )
  check_opcode-ReferencesOk op_tao_dong_bao i h = (
    IsCount-of_nonneg i.operand (ground arith),
    IsCount-of_nonneg i.operand_index (ground arith),
    IsFunction-ok context i.operand (ground arith),
  )
  check_opcode-ReferencesOk op_ffi_call i h =
      (IsCount-of_nonneg i.operand (ground arith), below-of_inside i.operand_index _ (ground arith))
  check_opcode-ReferencesOk _ i h = tt

-- In code that the verifier accepts, these operands of an instruction are in range: its string pool indices (the text
-- of a case label apart, which is not looked at); the function ids of a function, a method and a closure, which are
-- ids of the context unless that has none; the index of a foreign descriptor; the numbers of arguments of a direct,
-- an indirect, a method, a constructor and a foreign call, and of the captured variables of a closure; the numbers of a
-- parameter; the dispatch mode of a method call; and the number of elements of a literal that is built from the stack.
pub verify_bytecode-ReferencesOk :
    (context : BytecodeVerificationContext) (code : Code) (index : ℕ) (op : Opcode)
    (i : Instruction)
    → verify_bytecode code context ≡ none
    → get_elem? code index ≡ some i
    → of_raw i.op ≡ some op
    → ReferencesOk context op i
verify_bytecode-ReferencesOk context code index op i v g o =
    check_opcode-ReferencesOk context code index op i (
      verify_instruction-check context code index op i o
        (verify_bytecode-none context code index i v g))
