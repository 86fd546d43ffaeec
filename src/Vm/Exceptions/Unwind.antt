-- ===== src/Vm/Exceptions/Unwind.antt =====
-- `thử` and `ném` together.
use vxx.Prelude.{ap, ℕ, ◌-◌, ◌≡◌, refl, List, [], ◌∷◌, ◌++◌, arith, length, length-append, drop}
use vxx.Prelude.Int.{to_size}
use vxx.Prelude.Bytes.{Bytes}
use vxx.Bytecode.Opcode.{Instruction}
use vxx.Vm.State.{
  StackValue, SwitchFrame, Machine, Outcome, next, moved, failed, thrown, other_handler, keep,
}
use vxx.Vm.Exceptions.{open_try, transfer_to, transfer_thrown, throw_outcome, throw_value}

drop-append {ℓ} : {A : Type ℓ} (xs ys : List A) → drop (length xs) (xs ++ ys) ≡ ys
drop-append [] ys = refl
drop-append (x ∷ xs) ys = drop-append xs ys

keep-append {ℓ} : {A : Type ℓ} (xs ys : List A) → keep (length ys) (xs ++ ys) ≡ ys
keep-append xs ys =
    let grew : length (xs ++ ys) - length ys ≡ length xs = omega (arith, length-append xs ys) in
    rw grew (drop-append xs ys)

-- The machine that `opened` has become: every stack has grown by the given parts.
abbrev pub grown :
    Machine → List StackValue → List ℕ → List ℕ → List ℕ → List SwitchFrame → Machine → Machine
grown opened values loops branches blocks switches now = record now {
  stack = values ++ opened.stack;
  loop_start_stack = loops ++ opened.loop_start_stack;
  if_else_stack = branches ++ opened.if_else_stack;
  block_stack = blocks ++ opened.block_stack;
  switch_stack = switches ++ opened.switch_stack;
  try_stack = opened.try_stack;
}

-- The machine in which the catch starts.
abbrev pub caught : Instruction → StackValue → Machine → Machine → Machine
caught i value m now = record now {
  stack = value ∷ m.stack;
  loop_start_stack = m.loop_start_stack;
  if_else_stack = m.if_else_stack;
  block_stack = m.block_stack;
  block_depth = m.block_depth;
  switch_stack = m.switch_stack;
  try_stack = m.try_stack;
  pc = to_size i.operand;
}

abbrev machine_of : Machine → Outcome → Machine
machine_of default (next m) = m
machine_of default (moved m) = default
machine_of default (failed e) = default
machine_of default (thrown value m) = default
machine_of default other_handler = default

-- What a `thử` opens and a later `ném` undoes, whatever was pushed on the stacks in between: the throw
-- moves to the address of the catch with the thrown value on top of the values of the start, every
-- control stack and the depth of the blocks are those of the start, and the try frame is gone.
pub throw_value-open_try :
    (unknown : Bytes) (i : Instruction) (m opened now : Machine) (value : StackValue)
    (values : List StackValue) (loops branches blocks : List ℕ) (switches : List SwitchFrame)
    → open_try i m ≡ next opened
    → throw_value unknown
        (value ∷ values ++ m.stack)
        (grown opened (value ∷ values) loops branches blocks switches now)
      ≡ moved (caught i value m now)
unfolding open_try throw_value throw_outcome transfer_thrown transfer_to
throw_value-open_try unknown i m opened now value values loops branches blocks switches h =
    let e = ap (machine_of m) h in
    rw
      (
        ← e,
        keep-append (values) m.stack,
        keep-append loops m.loop_start_stack,
        keep-append branches m.if_else_stack,
        keep-append blocks m.block_stack,
        keep-append switches m.switch_stack,
      )
      refl
