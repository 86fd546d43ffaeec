-- ===== src/Vm/Switch/Safety.antt =====
-- Switches and breaks of verified code.
use vxx.Prelude.{
  ℕ, zero, suc, ◌≤◌, ◌<◌, ◌≡◌, ◌≢◌, ◌⊎◌, refl, Bool, true, false, ◌&&◌, ◌||◌, not, leb, Option,
  none, some, List, [], ◌∷◌, Bool-cases, arith, length, inl, inr,
}
use vxx.Prelude.Int.{ℤ, pos, negsuc, is_value, is_negative, to_size, leb_ℤ, eq_ℤ}
use vxx.Prelude.Bytes.{Bytes}
use vxx.Bytecode.Opcode.{Instruction, op_ket_thuc_chuyen}
use vxx.Bytecode.Verifier.{Code, op_at}
use vxx.Bytecode.Verifier.Control.{TargetAt, LabelLink}
use vxx.Vm.State.{StackValue, SwitchFrame, Machine, jump_address_out_of_range}
use vxx.Vm.Switch.{
  start_switch, enter_switch, new_frame, select, Host, variable_number, Match, decided, error,
  on_text, on_number, case_match, enter_case, after_match, case_value, case_label, default_label,
  end_switch,
}
use vxx.Vm.Safe.{Every, Ends, IsSafe, StaysSafe}

abbrev NoJump : Match → Type 0
NoJump (decided b) = Unit
NoJump (error e) = e ≢ jump_address_out_of_range

module _ (code : Code) where
  start_checks :
      (n : ℕ)
      → suc n < length code
      → op_at code (suc n) op_ket_thuc_chuyen ≡ true
      → leb_ℤ (pos (suc n)) (pos 0)
          || leb (length code) (suc n)
          || not (op_at code (suc n) op_ket_thuc_chuyen)
        ≡ false
  start_checks n inside is_end = ground arith

  suc_not_zero : (n : ℕ) → is_value 0 (pos (suc n)) ≡ false
  suc_not_zero n = ground arith

  start_switch-StaysSafe :
      (i : Instruction) (value : StackValue) (m : Machine)
      → (i.operand ≡ pos 0) ⊎ TargetAt code i.operand op_ket_thuc_chuyen
      → (m.pc < length code) × IsSafe code m
      → StaysSafe code (start_switch code i value m)
  unfolding start_switch enter_switch new_frame
  start_switch-StaysSafe i value m (inl none_given) (inside, (at, tries, switches)) =
      rw none_given (inside, (at, tries, (inl refl, switches)))
  start_switch-StaysSafe i value m (inr (zero, e, end, is_end)) (inside, (at, tries, switches)) =
      rw e (inside, (at, tries, (inl refl, switches)))
  start_switch-StaysSafe i value m (inr (suc n, e, end, is_end)) (inside, (at, tries, switches)) =
      rw (e, suc_not_zero n, start_checks n end is_end)
        (inside, (at, tries, (inr (end, is_end), switches)))

  pub select-StaysSafe :
      (i : Instruction) (values : List StackValue) (m : Machine)
      → (i.operand ≡ pos 0) ⊎ TargetAt code i.operand op_ket_thuc_chuyen
      → (m.pc < length code) × IsSafe code m
      → StaysSafe code (select code i values m)
  unfolding select
  select-StaysSafe i [] m target safe = λ e. absurd (ground arith)
  select-StaysSafe i (value ∷ rest) m target safe =
      start_switch-StaysSafe i value (record m { stack = rest }) target safe

  link_inside :
      (index : ℕ) (z : ℤ) → LabelLink code index z → is_value 0 z ≡ false → to_size z ≤ length code
  link_inside index z (inl e) h = ground arith
  link_inside index z (inr (t, e, later, inside, label)) h = rw e (omega arith)

  enter_case-StaysSafe :
      (i : Instruction) (match : Bool) (frame : SwitchFrame) (rest : List SwitchFrame) (m : Machine)
      (index : ℕ)
      → LabelLink code index i.operand_value
      → (m.pc < length code) × IsSafe code m
      → Every (Ends code) (frame ∷ rest)
      → StaysSafe code (enter_case i match frame rest m)
  unfolding enter_case
  enter_case-StaysSafe i match frame rest m index link (inside, (at, tries, switches)) ends =
      elim (Bool-cases
        (not (not frame.case_matched && match) && not (is_value 0 i.operand_value))) [
          | inl skips ↦
              rw skips (link_inside index i.operand_value link (ground arith), tries, ends)
          | inr enters ↦ rw enters (inside, (at, tries, ends))
        ]

  after_match-StaysSafe :
      (i : Instruction) (match : Match) (frame : SwitchFrame) (rest : List SwitchFrame)
      (m : Machine) (index : ℕ)
      → NoJump match
      → LabelLink code index i.operand_value
      → (m.pc < length code) × IsSafe code m
      → Every (Ends code) (frame ∷ rest)
      → StaysSafe code (after_match i match frame rest m)
  unfolding after_match
  after_match-StaysSafe i (error e) frame rest m index other link safe ends = other
  after_match-StaysSafe i (decided match) frame rest m index other link safe ends =
      enter_case-StaysSafe i match frame rest m index link safe ends

  on_text-NoJump :
      (host : Host) (value : StackValue) (text : Option Bytes) → NoJump (on_text host value text)
  unfolding on_text
  on_text-NoJump host value none = λ e. absurd (ground arith)
  on_text-NoJump host value (some t) = tt

  on_number-NoJump :
      (host : Host) (value : StackValue) (number : Option ℤ) → NoJump (on_number host value number)
  unfolding on_number
  on_number-NoJump host value none = λ e. absurd (ground arith)
  on_number-NoJump host value (some n) = tt

  case_match-NoJump :
      (host : Host) (m : Machine) (i : Instruction) (value : StackValue)
      → NoJump (case_match host m i value)
  unfolding case_match
  case_match-NoJump host m i value = elim (Bool-cases (not (is_negative i.operand_index))) [
    | inl text ↦ rw text (on_text-NoJump host value (host.pool (to_size i.operand_index)))
    | inr other ↦ elim (Bool-cases (eq_ℤ i.operand_index (negsuc 0))) [
      | inl number ↦ rw (other, number) tt
      | inr no_number ↦ elim (Bool-cases (eq_ℤ i.operand_index (negsuc 1))) [
        | inl variable ↦
            rw (other, no_number, variable)
              (on_number-NoJump host value (variable_number host (m.variables i.operand)))
        | inr no_variable ↦ rw (other, no_number, no_variable) (λ e. absurd (ground arith))
      ]
    ]
  ]

  case_value-StaysSafe :
      (host : Host) (i : Instruction) (value : Option StackValue) (frame : SwitchFrame)
      (rest : List SwitchFrame) (m : Machine) (index : ℕ)
      → LabelLink code index i.operand_value
      → (m.pc < length code) × IsSafe code m
      → Every (Ends code) (frame ∷ rest)
      → StaysSafe code (case_value host i value frame rest m)
  unfolding case_value
  case_value-StaysSafe host i none frame rest m index link safe ends = λ e. absurd (ground arith)
  case_value-StaysSafe host i (some value) frame rest m index link safe ends =
      after_match-StaysSafe i (case_match host m i value) frame rest m index
        (case_match-NoJump host m i value) link safe ends

  pub case_label-StaysSafe :
      (host : Host) (i : Instruction) (frames : List SwitchFrame) (m : Machine) (index : ℕ)
      → LabelLink code index i.operand_value
      → (m.pc < length code) × IsSafe code m
      → Every (Ends code) frames
      → StaysSafe code (case_label host i frames m)
  unfolding case_label
  case_label-StaysSafe host i [] m index link safe ends = λ e. absurd (ground arith)
  case_label-StaysSafe host i (frame ∷ rest) m index link safe ends =
      case_value-StaysSafe host i frame.switch_value frame rest m index link safe ends

  pub default_label-StaysSafe :
      (i : Instruction) (frames : List SwitchFrame) (m : Machine) (index : ℕ)
      → LabelLink code index i.operand_value
      → (m.pc < length code) × IsSafe code m
      → Every (Ends code) frames
      → StaysSafe code (default_label i frames m)
  unfolding default_label
  default_label-StaysSafe i [] m index link safe ends = λ e. absurd (ground arith)
  default_label-StaysSafe i (frame ∷ rest) m index link safe ends =
      enter_case-StaysSafe i true frame rest m index link safe ends

  pub end_switch-StaysSafe :
      (frames : List SwitchFrame) (m : Machine)
      → (m.pc < length code) × IsSafe code m
      → Every (Ends code) frames
      → StaysSafe code (end_switch frames m)
  unfolding end_switch
  end_switch-StaysSafe [] m safe ends = λ e. absurd (ground arith)
  end_switch-StaysSafe (frame ∷ rest) m (inside, (at, tries, switches)) ends =
      (inside, (at, tries, ends.1))
