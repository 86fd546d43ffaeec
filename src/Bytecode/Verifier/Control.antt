-- ===== src/Bytecode/Verifier/Control.antt =====
-- src/bytecode/verifier.cpp: the addresses in the instructions that `verifyBytecode` accepts.
use vxx.Prelude.{
  ℕ, zero, suc, ◌≤◌, ◌<◌, ◌^◌, ◌≡◌, refl, ◌⊎◌, inl, inr, true, false, none, some, arith, length,
  get_elem?, get_elem?-lt, ltb, leb, Bool-cases, ◌||◌,
}
use vxx.Prelude.Int.{ℤ, pos, negsuc, is_negative, is_value, to_size, to_int}
use vxx.Bytecode.Opcode.{
  Opcode, Instruction, op_chon, op_mac_dinh, op_thoat, op_jump, op_jump_if_false, op_thu,
  op_thu_ket_thuc, op_ca, op_ket_thuc_chuyen, op_bat_loi,
}
use vxx.Bytecode.Opcode.Codes.{of_raw}
use vxx.Bytecode.Verifier.{
  BytecodeVerificationContext, Code, op_at, bad_label_link, check_break, check_opcode,
  verify_instruction, verify_bytecode,
}
use vxx.Bytecode.Verifier.First.{verify_bytecode-none}

-- The address of an instruction of the code.
abbrev pub Target : Code → ℤ → Type 0
Target code z = (t : ℕ) × (z ≡ pos t) × (t < length code)

-- The address of an instruction with a given opcode.
abbrev pub TargetAt : Code → ℤ → Opcode → Type 0
TargetAt code z o = (t : ℕ) × (z ≡ pos t) × (t < length code) × (op_at code t o ≡ true)

-- No link, or the address of a later case label or of the end of the switch.
abbrev pub LabelLink : Code → ℕ → ℤ → Type 0
LabelLink code index z =
    (z ≡ pos 0)
    ⊎ ((t : ℕ) × (z ≡ pos t)
        × (index < t)
        × (t < length code)
        × (op_at code t op_ca || op_at code t op_mac_dinh || op_at code t op_ket_thuc_chuyen
            ≡ true))

-- What the VM relies on when it follows an instruction at an index.
abbrev pub ControlOk : Code → ℕ → Opcode → Instruction → Type 0
ControlOk code index op_chon i = (i.operand ≡ pos 0) ⊎ TargetAt code i.operand op_ket_thuc_chuyen
ControlOk code index op_mac_dinh i = LabelLink code index i.operand_value
ControlOk code index op_ca i = LabelLink code index i.operand_value
ControlOk code index op_thoat i =
    (Target code i.operand × (is_negative i.operand_value ≡ false))
    ⊎ (is_negative i.operand_index ≡ false)
ControlOk code index op_jump i = Target code i.operand
ControlOk code index op_jump_if_false i = Target code i.operand
ControlOk code index op_thu i = TargetAt code i.operand op_bat_loi
ControlOk code index op_thu_ket_thuc i = (t : ℕ) × (i.operand ≡ pos t) × (t ≤ length code)
ControlOk code index _ i = Unit

Target-of_inside :
    (z : ℤ) (code : Code) → is_negative z || leb (length code) (to_size z) ≡ false → Target code z
Target-of_inside (pos n) code h = (n, refl, ground arith)
Target-of_inside (negsuc n) code h = cc

TargetAt-of_checks :
    (z : ℤ) (code : Code) (o : Opcode)
    → is_negative z || leb (length code) (to_size z) ≡ false
    → op_at code (to_size z) o ≡ true
    → TargetAt code z o
TargetAt-of_checks (pos n) code o h k = (n, refl, ground arith, k)
TargetAt-of_checks (negsuc n) code o h k = cc

end_of_inside :
    (z : ℤ) (code : Code)
    → is_negative z || ltb (length code) (to_size z) ≡ false
    → (t : ℕ) × (z ≡ pos t) × (t ≤ length code)
end_of_inside (pos n) code h = (n, refl, ground arith)
end_of_inside (negsuc n) code h = cc

zero-of_is_value : (z : ℤ) → is_value 0 z ≡ true → z ≡ pos 0
zero-of_is_value (pos n) h = ground arith
zero-of_is_value (negsuc n) h = cc

to_int-small : (n : ℕ) → n < 2 ^ 31 → to_int n ≡ pos n
to_int-small n h = ground arith

LabelLink-of_check :
    (code : Code) (index : ℕ) (z : ℤ)
    → index < 2 ^ 31
    → bad_label_link code index z ≡ false
    → LabelLink code index z
unfolding bad_label_link
LabelLink-of_check code index (pos zero) s h = inl refl
LabelLink-of_check code index (pos (suc n)) s h =
    inr (suc n, refl, ground (arith, to_int-small index s), ground arith, ground arith)
LabelLink-of_check code index (negsuc n) s h = absurd (ground (arith, to_int-small index s))

module _ (context : BytecodeVerificationContext) (code : Code) (index : ℕ)
    (small : length code ≤ 2 ^ 31) (inside : index < length code) where
  check_opcode-ControlOk :
      (op : Opcode) (i : Instruction)
      → check_opcode context code index op i ≡ none
      → ControlOk code index op i
  unfolding check_opcode check_break
  check_opcode-ControlOk op_chon i h = elim (Bool-cases (is_value 0 i.operand)) [
    | inl no_end ↦ inl (zero-of_is_value i.operand no_end)
    | inr end ↦
        inr (TargetAt-of_checks i.operand code op_ket_thuc_chuyen (ground arith) (ground arith))
  ]
  check_opcode-ControlOk op_mac_dinh i h =
      LabelLink-of_check code index i.operand_value (omega arith) (ground arith)
  check_opcode-ControlOk op_ca i h =
      LabelLink-of_check code index i.operand_value (omega arith) (ground arith)
  check_opcode-ControlOk op_thoat i h = elim (Bool-cases (is_negative i.operand_index)) [
    | inl loop ↦ inl (Target-of_inside i.operand code (ground arith), ground arith)
    | inr switch ↦ inr switch
  ]
  check_opcode-ControlOk op_jump i h = Target-of_inside i.operand code (ground arith)
  check_opcode-ControlOk op_jump_if_false i h = Target-of_inside i.operand code (ground arith)
  check_opcode-ControlOk op_thu i h =
      TargetAt-of_checks i.operand code op_bat_loi (ground arith) (ground arith)
  check_opcode-ControlOk op_thu_ket_thuc i h = end_of_inside i.operand code (ground arith)
  check_opcode-ControlOk _ i h = tt

pub verify_instruction-check :
    (context : BytecodeVerificationContext) (code : Code) (index : ℕ) (op : Opcode)
    (i : Instruction)
    → of_raw i.op ≡ some op
    → verify_instruction context code index i ≡ none
    → check_opcode context code index op i ≡ none
unfolding verify_instruction
verify_instruction-check context code index op i o h = ground arith

-- In code that the verifier accepts (of a length that an `int` can count), the control operands of
-- every instruction are good: jumps and loop breaks have a target inside the code, a case label links
-- to a later label or to the end of its switch, a switch names its end, a `try` names a catch, and the
-- end of a `try` leads at most to the end of the code.
pub verify_bytecode-ControlOk :
    (context : BytecodeVerificationContext) (code : Code) (index : ℕ) (op : Opcode)
    (i : Instruction)
    → length code ≤ 2 ^ 31
    → verify_bytecode code context ≡ none
    → get_elem? code index ≡ some i
    → of_raw i.op ≡ some op
    → ControlOk code index op i
verify_bytecode-ControlOk context code index op i small v g o =
    check_opcode-ControlOk context code index small (get_elem?-lt code index i g) op i (
      verify_instruction-check context code index op i o
        (verify_bytecode-none context code index i v g))
