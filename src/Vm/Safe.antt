-- ===== src/Vm/Safe.antt =====
-- The machine that runs verified code: what its handlers keep.
use vxx.Prelude.{ℕ, zero, suc, ◌-◌, ◌≤◌, ◌<◌, ◌≡◌, ◌≢◌, ◌⊎◌, true, List, [], ◌∷◌, length, drop}
use vxx.Bytecode.Opcode.{op_bat_loi, op_ket_thuc_chuyen}
use vxx.Bytecode.Verifier.{Code, op_at}
use vxx.Bytecode.Verifier.Control.{TargetAt}
use vxx.Vm.State.{
  SwitchFrame, TryFrame, Machine, jump_address_out_of_range, Outcome, next, moved, failed, thrown,
  other_handler, keep, tail,
}

abbrev pub Every {ℓ} : {A : Type ℓ} → (A → Type 0) → List A → Type 0
Every P [] = Unit
Every P (x ∷ xs) = P x × Every P xs

-- The handler of a try frame is a catch.
abbrev pub Catches : Code → TryFrame → Type 0
Catches code frame = TargetAt code frame.catch_addr op_bat_loi

-- The end that a switch frame has is the end of a switch.
abbrev pub Ends : Code → SwitchFrame → Type 0
Ends code frame =
    (frame.end_pc ≡ 0)
    ⊎ ((frame.end_pc < length code) × (op_at code frame.end_pc op_ket_thuc_chuyen ≡ true))

abbrev pub IsSafe : Code → Machine → Type 0
IsSafe code m =
    (m.pc ≤ length code) × Every (Catches code) m.try_stack × Every (Ends code) m.switch_stack

-- The machine stays safe, and no address is found to be outside of the code.
abbrev pub StaysSafe : Code → Outcome → Type 0
StaysSafe code (next m) = (m.pc < length code) × IsSafe code m
StaysSafe code (moved m) = IsSafe code m
StaysSafe code (failed e) = e ≢ jump_address_out_of_range
StaysSafe code (thrown value m) = IsSafe code m
StaysSafe code other_handler = Unit

Every-drop {ℓ} :
    {A : Type ℓ} (P : A → Type 0) (n : ℕ) (xs : List A) → Every P xs → Every P (drop n xs)
Every-drop P zero xs h = h
Every-drop P (suc n) [] h = h
Every-drop P (suc n) (x ∷ xs) h = Every-drop P n xs h.1

pub Every-keep {ℓ} :
    {A : Type ℓ} (P : A → Type 0) (n : ℕ) (xs : List A) → Every P xs → Every P (keep n xs)
Every-keep P n xs h = Every-drop P (length xs - n) xs h

pub Every-tail {ℓ} : {A : Type ℓ} (P : A → Type 0) (xs : List A) → Every P xs → Every P (tail xs)
Every-tail P [] h = h
Every-tail P (x ∷ xs) h = h.1
