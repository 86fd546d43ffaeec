-- ===== src/Vm/Switch/Breaks.antt =====
-- `thoát` in verified code.
use vxx.Prelude.{
  ℕ, zero, suc, ◌+◌, ◌-◌, ◌≤◌, ◌<◌, ◌≡◌, ◌⊎◌, false, ◌==◌, ◌||◌, ltb, leb, List, [], ◌∷◌,
  Bool-cases, arith, length, inl, inr,
}
use vxx.Prelude.Int.{ℤ, is_negative, to_size}
use vxx.Bytecode.Opcode.{Instruction}
use vxx.Bytecode.Verifier.{Code}
use vxx.Bytecode.Verifier.Control.{Target}
use vxx.Vm.State.{SwitchFrame, Machine}
use vxx.Vm.Switch.{
  leave_switches, break_loop, blocks_to_exit, scan_close, break_switch, is_skipping, break,
}
use vxx.Vm.Safe.{Every, Catches, Ends, Every-keep, IsSafe, StaysSafe}

module _ (code : Code) where
  leave_switches-Every :
      (depth : ℕ) (frames : List SwitchFrame)
      → Every (Ends code) frames
      → Every (Ends code) (leave_switches depth frames)
  unfolding leave_switches
  leave_switches-Every depth [] h = h
  leave_switches-Every depth (frame ∷ rest) h =
      elim (Bool-cases (ltb depth frame.block_depth_at_start)) [
        | inl left ↦ rw left (leave_switches-Every depth rest h.1)
        | inr kept ↦ rw kept h
      ]

  Target-checks :
      (z : ℤ)
      → Target code z
      → (is_negative z || leb (length code) (to_size z) ≡ false) × (to_size z < length code)
  Target-checks z (t, e, inside) = rw e (ground arith, inside)

  break_loop-StaysSafe :
      (i : Instruction) (blocks : ℕ) (m : Machine)
      → Target code i.operand
      → IsSafe code m
      → StaysSafe code (break_loop code i blocks m)
  unfolding break_loop
  break_loop-StaysSafe i blocks m target (at, tries, switches) =
      elim (Bool-cases (
        is_negative i.operand_value
        || ltb (length m.block_stack) blocks
        || ltb (length m.try_stack) (to_size i.operand_value))) [
          | inl bad ↦ rw ((Target-checks i.operand target).0, bad) (λ e. absurd (ground arith))
          | inr good ↦
              rw ((Target-checks i.operand target).0, good)
                (
                  omega (arith, (Target-checks i.operand target).1),
                  Every-keep (Catches code) (length m.try_stack - to_size i.operand_value)
                      m.try_stack tries,
                  leave_switches-Every (length m.block_stack - blocks) m.switch_stack switches,
                )
        ]

  scan_close-inside :
      (left at : ℕ) → at + left ≤ length code → scan_close code left at ≤ length code
  unfolding scan_close
  scan_close-inside zero at h = omega arith
  scan_close-inside (suc left) at h = ground (arith, scan_close-inside left (at + 1) (omega arith))

  Ends-inside :
      (frame : SwitchFrame)
      → Ends code frame
      → frame.end_pc == 0 ≡ false
      → frame.end_pc ≤ length code
  Ends-inside frame (inl none_given) h = ground arith
  Ends-inside frame (inr (inside, is_end)) h = omega arith

  break_switch-StaysSafe :
      (frames : List SwitchFrame) (m : Machine)
      → IsSafe code m
      → Every (Ends code) frames
      → StaysSafe code (break_switch code frames m)
  unfolding break_switch
  break_switch-StaysSafe [] m safe ends = λ e. absurd (ground arith)
  break_switch-StaysSafe (frame ∷ rest) m (at, tries, switches) (ends, others) =
      elim (Bool-cases (frame.end_pc == 0)) [
        | inl no_end ↦
            rw no_end
              (scan_close-inside (length code - m.pc) m.pc (omega arith), tries, (ends, others))
        | inr some_end ↦
            elim (Bool-cases (
              ltb (length m.block_stack) frame.block_depth_at_start
              || ltb (length m.try_stack) frame.try_depth_at_start)) [
                | inl bad ↦ rw (some_end, bad) (λ e. absurd (ground arith))
                | inr good ↦
                    rw (some_end, good)
                      (
                        Ends-inside frame ends some_end,
                        Every-keep (Catches code) frame.try_depth_at_start m.try_stack tries,
                        switches,
                      )
              ]
      ]

  pub break-StaysSafe :
      (i : Instruction) (m : Machine)
      → (Target code i.operand × (is_negative i.operand_value ≡ false))
        ⊎ (is_negative i.operand_index ≡ false)
      → (m.pc < length code) × IsSafe code m
      → StaysSafe code (break code i m)
  unfolding break
  break-StaysSafe i m h safe = elim (Bool-cases (is_skipping m.switch_stack)) [
    | inl skipping ↦ rw skipping safe
    | inr running ↦ elim (Bool-cases (is_negative i.operand_index)) [
      | inl loop ↦ elim h [
        | inl target ↦
            rw (running, loop)
              (break_loop-StaysSafe i (blocks_to_exit i.operand_index) m target.0 safe.1)
        | inr switch ↦ absurd cc
      ]
      | inr switch ↦ rw (running, switch) (break_switch-StaysSafe m.switch_stack m safe.1 safe.1.2)
    ]
  ]
