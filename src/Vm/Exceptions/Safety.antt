-- ===== src/Vm/Exceptions/Safety.antt =====
-- `thử`, `bắt lỗi` and `ném` in verified code.
use vxx.Prelude.{
  ℕ, ◌≤◌, ◌<◌, ◌≡◌, Option, none, some, List, [], ◌∷◌, Bool-cases, arith, length, inl, inr,
}
use vxx.Prelude.Int.{ℤ, pos, is_negative}
use vxx.Prelude.Bytes.{Bytes}
use vxx.Bytecode.Opcode.{Instruction, op_bat_loi}
use vxx.Bytecode.Verifier.{Code}
use vxx.Bytecode.Verifier.Control.{TargetAt}
use vxx.Vm.State.{StackValue, string_value, TryFrame, CallFrame, Machine}
use vxx.Vm.Exceptions.{
  open_try, close_try, transfer_to, transfer_thrown, throw_outcome, throw_value, store_local, store,
  catch_value,
}
use vxx.Vm.Safe.{Every, Catches, Ends, Every-keep, Every-tail, IsSafe, StaysSafe}

module _ (code : Code) where
  pub open_try-StaysSafe :
      (i : Instruction) (m : Machine)
      → TargetAt code i.operand op_bat_loi
      → m.pc < length code
      → IsSafe code m
      → StaysSafe code (open_try i m)
  unfolding open_try
  open_try-StaysSafe i m target inside (at, tries, switches) =
      (inside, (at, (target, tries), switches))

  pub close_try-StaysSafe :
      (i : Instruction) (m : Machine)
      → (t : ℕ) × (i.operand ≡ pos t) × (t ≤ length code)
      → IsSafe code m
      → StaysSafe code (close_try i m)
  unfolding close_try
  close_try-StaysSafe i m (t, e, inside) (at, tries, switches) =
      (rw e inside, Every-tail (Catches code) m.try_stack tries, switches)

  transfer_to-IsSafe :
      (value : StackValue) (frame : TryFrame) (rest : List TryFrame) (m : Machine)
      → Every (Catches code) (frame ∷ rest)
      → Every (Ends code) m.switch_stack
      → IsSafe code (transfer_to value frame rest m)
  unfolding transfer_to
  transfer_to-IsSafe value frame rest m ((t, e, inside, catches), tries) switches = (
    rw e (omega arith),
    tries,
    Every-keep (Ends code) frame.switch_stack_depth m.switch_stack switches,
  )

  throw_outcome-StaysSafe :
      (value : StackValue) (frames : List TryFrame) (m : Machine)
      → Every (Catches code) frames
      → IsSafe code m
      → StaysSafe code (throw_outcome value m (transfer_thrown value frames m))
  unfolding throw_outcome transfer_thrown
  throw_outcome-StaysSafe value [] m tries safe = safe
  throw_outcome-StaysSafe value (frame ∷ rest) m tries safe =
      transfer_to-IsSafe value frame rest m tries safe.2

  pub throw_value-StaysSafe :
      (unknown : Bytes) (values : List StackValue) (m : Machine)
      → IsSafe code m
      → StaysSafe code (throw_value unknown values m)
  unfolding throw_value
  throw_value-StaysSafe unknown [] m safe =
      throw_outcome-StaysSafe (string_value unknown) m.try_stack m safe.1 safe
  throw_value-StaysSafe unknown (value ∷ rest) m safe =
      throw_outcome-StaysSafe value m.try_stack (record m { stack = rest }) safe.1 safe

  store_local-IsSafe :
      (id : ℤ) (value : StackValue) (frame : CallFrame) (captured : Option (Option ℕ)) (m : Machine)
      → (m.pc < length code) × IsSafe code m
      → ((store_local id value frame captured m).pc < length code)
        × IsSafe code (store_local id value frame captured m)
  unfolding store_local
  store_local-IsSafe id value frame none m safe = safe
  store_local-IsSafe id value frame (some none) m safe = safe
  store_local-IsSafe id value frame (some (some cell)) m safe = safe

  store-IsSafe :
      (id : ℤ) (value : StackValue) (frame : Option CallFrame) (m : Machine)
      → (m.pc < length code) × IsSafe code m
      → ((store id value frame m).pc < length code) × IsSafe code (store id value frame m)
  unfolding store
  store-IsSafe id value none m safe = safe
  store-IsSafe id value (some frame) m safe =
      store_local-IsSafe id value frame (frame.captured_cells id) m safe

  pub catch_value-StaysSafe :
      (i : Instruction) (values : List StackValue) (m : Machine)
      → (m.pc < length code) × IsSafe code m
      → StaysSafe code (catch_value i values m)
  unfolding catch_value
  catch_value-StaysSafe i [] m safe = safe
  catch_value-StaysSafe i (value ∷ rest) m safe = elim (Bool-cases (is_negative i.operand_index)) [
    | inl skipped ↦ rw skipped safe
    | inr bound ↦
        rw bound (store-IsSafe i.operand_index value m.frame (record m { stack = rest }) safe)
  ]
