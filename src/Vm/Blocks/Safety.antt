-- ===== src/Vm/Blocks/Safety.antt =====
-- Blocks and loops of verified code.
use vxx.Prelude.{
  ℕ, zero, suc, ◌+◌, ◌-◌, ◌≤◌, ◌<◌, Bool, true, false, ◌==◌, ltb, not, if◌then◌else◌, ◌&&◌, List,
  [], ◌∷◌, Bool-cases, arith, length, inl, inr,
}
use vxx.Bytecode.Opcode.{op_cap_nhat, op_lap, op_mo_khoi, op_dong_khoi}
use vxx.Bytecode.Verifier.{Code, op_at}
use vxx.Vm.State.{SwitchFrame, Machine, Outcome}
use vxx.Vm.Blocks.{
  close_one, close_blocks, found_update, scan_update, continue_loop, leave_switch, close_block,
}
use vxx.Vm.Safe.{Every, Ends, IsSafe, StaysSafe}

module _ (code : Code) (at : ℕ) (inside : at < length code) where
  close_one-IsSafe :
      (blocks : List ℕ) (m : Machine) → IsSafe code m → IsSafe code (close_one blocks m)
  unfolding close_one
  close_one-IsSafe [] m safe = safe
  close_one-IsSafe (b ∷ rest) m safe = safe

  close_blocks-IsSafe :
      (n : ℕ) (m : Machine) → IsSafe code m → IsSafe code (record (close_blocks n m) { pc = at })
  unfolding close_blocks
  close_blocks-IsSafe zero m safe = (omega arith, safe.1, safe.2)
  close_blocks-IsSafe (suc n) m safe =
      close_blocks-IsSafe n (close_one m.block_stack m) (close_one-IsSafe m.block_stack m safe)

found_update-StaysSafe :
    (code : Code) (found : Bool) (scan closed : ℕ) (m : Machine) (later : Outcome)
    → scan < length code
    → IsSafe code m
    → StaysSafe code later
    → StaysSafe code (found_update found scan closed m later)
unfolding found_update
found_update-StaysSafe code true scan closed m later inside safe h =
    (inside, close_blocks-IsSafe code scan inside closed m safe)
found_update-StaysSafe code false scan closed m later inside safe h = h

scan_update-StaysSafe :
    (code : Code) (left scan loops skipped closed : ℕ) (m : Machine)
    → scan + left ≤ length code
    → IsSafe code m
    → StaysSafe code (scan_update code left scan loops skipped closed m)
unfolding scan_update
scan_update-StaysSafe code zero scan loops skipped closed m inside safe = λ e. absurd (ground arith)
scan_update-StaysSafe code (suc left) scan loops skipped closed m inside safe =
    let loops' = if op_at code scan op_lap then loops + 1 else loops in
    let opened = if op_at code scan op_mo_khoi then skipped + 1 else skipped in
    let closes = op_at code scan op_dong_khoi in
    let skipped' = if closes && ltb 0 opened then opened - 1 else opened in
    let closed' = if closes && not (ltb 0 opened) then closed + 1 else closed in
    let found = op_at code scan op_cap_nhat in
    let left_loops = if found then loops' - 1 else loops' in
    found_update-StaysSafe code (found && loops' == 0) scan closed' m
      (scan_update code left (scan + 1) left_loops skipped' closed' m) (omega arith) safe
      (scan_update-StaysSafe code left (scan + 1) left_loops skipped' closed' m (omega arith) safe)

pub continue_loop-StaysSafe :
    (code : Code) (m : Machine)
    → m.pc < length code
    → IsSafe code m
    → StaysSafe code (continue_loop code m)
unfolding continue_loop
continue_loop-StaysSafe code m inside safe =
    scan_update-StaysSafe code (length code - (m.pc + 1)) (m.pc + 1) 0 0 0 m (omega arith) safe

leave_switch-Every :
    (code : Code) (depth : ℕ) (frames : List SwitchFrame)
    → Every (Ends code) frames
    → Every (Ends code) (leave_switch depth frames)
unfolding leave_switch
leave_switch-Every code depth [] h = h
leave_switch-Every code depth (frame ∷ outer) h =
    elim (Bool-cases (depth + 1 == frame.block_depth_at_start)) [
      | inl left ↦ rw left h.1
      | inr kept ↦ rw kept h
    ]

pub close_block-StaysSafe :
    (code : Code) (blocks : List ℕ) (m : Machine)
    → m.pc < length code
    → IsSafe code m
    → StaysSafe code (close_block blocks m)
unfolding close_block
close_block-StaysSafe code [] m inside safe = λ e. absurd (ground arith)
close_block-StaysSafe code (b ∷ rest) m inside (at, tries, switches) =
    (inside, (at, tries, leave_switch-Every code (length rest) m.switch_stack switches))
