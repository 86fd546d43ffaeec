-- ===== src/Vm/Jump/Safety.antt =====
-- Branches of verified code.
use vxx.Prelude.{ℕ, inl, inr, ◌<◌, ◌^◌, ◌≡◌, false, List, [], ◌∷◌, Bool-cases, arith, length}
use vxx.Prelude.Int.{ℤ, pos, is_value, to_int}
use vxx.Bytecode.Verifier.{Code}
use vxx.Bytecode.Verifier.Control.{Target}
use vxx.Vm.State.{StackValue, int_value, string_value, other_value, Machine}
use vxx.Vm.Jump.{bad_jump, jump, branch_on, jump_if_false}
use vxx.Vm.Safe.{IsSafe, StaysSafe}

to_int-small : (n : ℕ) → n < 2 ^ 31 → to_int n ≡ pos n
to_int-small n h = ground arith

module _ (code : Code) (small : length code < 2 ^ 31) where
  bad_jump-Target : (t : ℕ) → t < length code → bad_jump code (pos t) ≡ false
  unfolding bad_jump
  bad_jump-Target t h = ground (arith, to_int-small (length code) small)

  pub jump-StaysSafe :
      (address : ℤ) (m : Machine)
      → Target code address
      → IsSafe code m
      → StaysSafe code (jump code address m)
  unfolding jump
  jump-StaysSafe address m (t, e, inside) (at, tries, switches) =
      rw (e, bad_jump-Target t inside) (ground arith, tries, switches)

  branch_on-StaysSafe :
      (address : ℤ) (value : StackValue) (m : Machine)
      → Target code address
      → (m.pc < length code) × IsSafe code m
      → StaysSafe code (branch_on code address value m)
  unfolding branch_on
  branch_on-StaysSafe address (int_value z) m target safe = elim (Bool-cases (is_value 0 z)) [
    | inl zero_value ↦ rw zero_value (jump-StaysSafe address m target safe.1)
    | inr other ↦ rw other safe
  ]
  branch_on-StaysSafe address (string_value s) m target safe = λ e. absurd (ground arith)
  branch_on-StaysSafe address (other_value v) m target safe = λ e. absurd (ground arith)

  pub jump_if_false-StaysSafe :
      (address : ℤ) (values : List StackValue) (m : Machine)
      → Target code address
      → (m.pc < length code) × IsSafe code m
      → StaysSafe code (jump_if_false code address values m)
  unfolding jump_if_false
  jump_if_false-StaysSafe address [] m target safe = λ e. absurd (ground arith)
  jump_if_false-StaysSafe address (value ∷ rest) m target safe =
      branch_on-StaysSafe address value (record m { stack = rest }) target safe
