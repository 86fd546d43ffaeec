-- ===== src/Vm/Variables/CatchLoad.antt =====
-- src/runtime/vm.cpp: what a catch stores, and what is read of its variable.
use vxx.Prelude.{
  ℕ, zero, suc, ◌≡◌, refl, true, false, Option, none, some, List, [], ◌∷◌, get_elem?, arith,
  Bool-cases, inl, inr, ap, ◌∙◌,
}
use vxx.Prelude.Int.{ℤ, pos, negsuc, is_negative, to_size, eq_ℤ}
use vxx.Bytecode.Opcode.{Instruction}
use vxx.Vm.State.{StackValue, CallFrame, Machine, next}
use vxx.Vm.Exceptions.{
  update, set_at, set_indexed_local, store_slot, write_cell, store_local, store, catch_value,
}
use vxx.Vm.Variables.{
  is_set, has_indexed_local, load_slot, push, load_global, load_local, load_captured, load_in,
  load_variable,
}

get_elem?-set_at {ℓ} :
    {A : Type ℓ} (fill : A) (n : ℕ) (value : A) (xs : List A)
    → get_elem? (set_at fill n value xs) n ≡ some value
unfolding set_at
get_elem?-set_at fill zero value [] = refl
get_elem?-set_at fill zero value (x ∷ xs) = refl
get_elem?-set_at fill (suc n) value [] = get_elem?-set_at fill n value []
get_elem?-set_at fill (suc n) value (x ∷ xs) = get_elem?-set_at fill n value xs

eq_ℤ-refl : (z : ℤ) → eq_ℤ z z ≡ true
eq_ℤ-refl (pos n) = ground arith
eq_ℤ-refl (negsuc n) = ground arith

update_self :
    (variables : ℤ → Option StackValue) (id : ℤ) (value : StackValue)
    → update variables id value id ≡ some value
unfolding update
update_self variables id value = rw (eq_ℤ-refl id) refl

write_cell_self :
    (cells : ℕ → StackValue) (cell : ℕ) (value : StackValue)
    → write_cell cells cell value cell ≡ value
unfolding write_cell
write_cell_self cells cell value = ground arith

load_slot-store_slot :
    (id : ℤ) (value : StackValue) (frame : CallFrame)
    → is_negative id ≡ false
    → load_slot id (store_slot id value frame) ≡ some value
unfolding load_slot store_slot set_indexed_local has_indexed_local is_set
load_slot-store_slot id value frame h = elim (Bool-cases frame.locals_indexed) [
  | inl indexed ↦
      rw (indexed, h)
        (rw (get_elem?-set_at false (to_size id) true frame.locals_present)
          (get_elem?-set_at _ (to_size id) value frame.locals_vec))
  | inr mapped ↦ rw mapped (update_self frame.locals_map id value)
]

captured_cells-store_slot :
    (id : ℤ) (value : StackValue) (frame : CallFrame)
    → (store_slot id value frame).captured_cells ≡ frame.captured_cells
unfolding store_slot set_indexed_local
captured_cells-store_slot id value frame = elim (Bool-cases frame.locals_indexed) [
  | inl indexed ↦ elim (Bool-cases (is_negative id)) [
    | inl below ↦ rw (indexed, below) refl
    | inr inside ↦ rw (indexed, inside) refl
  ]
  | inr mapped ↦ rw mapped refl
]

-- The variable is stored in the frame.
load-store_slot :
    (id : ℤ) (value : StackValue) (frame : CallFrame) (m : Machine)
    → is_negative id ≡ false
    → (cell : Option (Option ℕ)) → ((c : ℕ) → cell ≡ some (some c) → ⊥)
    → load_captured id (store_slot id value frame) cell m ≡ push value m
unfolding load_captured load_local
load-store_slot id value frame m h none free = rw (load_slot-store_slot id value frame h) refl
load-store_slot id value frame m h (some none) free =
    rw (load_slot-store_slot id value frame h) refl
load-store_slot id value frame m h (some (some c)) free = absurd (free c refl)

load-store_frame :
    (id : ℤ) (value : StackValue) (frame : CallFrame) (m : Machine)
    → is_negative id ≡ false
    → ((c : ℕ) → frame.captured_cells id ≡ some (some c) → ⊥)
    → load_in id (some (store_slot id value frame)) m ≡ push value m
unfolding load_in
load-store_frame id value frame m h free =
    rw (captured_cells-store_slot id value frame)
      (load-store_slot id value frame m h (frame.captured_cells id) free)

load-store_local :
    (id : ℤ) (value : StackValue) (frame : CallFrame) (m : Machine)
    → is_negative id ≡ false
    → m.frame ≡ some frame
    → (captured : Option (Option ℕ)) → frame.captured_cells id ≡ captured
    → load_in id
        (store_local id value frame captured m).frame
        (store_local id value frame captured m)
      ≡ push value (store_local id value frame captured m)
unfolding store_local load_in load_captured
load-store_local id value frame m h e none c = load-store_frame id value frame _ h (λ k same. cc)
load-store_local id value frame m h e (some none) c =
    load-store_frame id value frame _ h (λ k same. ground arith)
load-store_local id value frame m h e (some (some cell)) c =
    rw (e, c, write_cell_self m.cells cell value) refl

load-store :
    (id : ℤ) (value : StackValue) (m : Machine) (frame : Option CallFrame)
    → is_negative id ≡ false
    → m.frame ≡ frame
    → load_in id (store id value frame m).frame (store id value frame m)
      ≡ push value (store id value frame m)
unfolding store load_in load_global
load-store id value m none h e = rw e (rw (update_self m.variables id value) refl)
load-store id value m (some frame) h e =
    load-store_local id value frame m h e (frame.captured_cells id) refl

stack-store_local :
    (id : ℤ) (value : StackValue) (frame : CallFrame) (captured : Option (Option ℕ)) (m : Machine)
    → (store_local id value frame captured m).stack ≡ m.stack
unfolding store_local
stack-store_local id value frame none m = refl
stack-store_local id value frame (some none) m = refl
stack-store_local id value frame (some (some cell)) m = refl

stack-store :
    (id : ℤ) (value : StackValue) (frame : Option CallFrame) (m : Machine)
    → (store id value frame m).stack ≡ m.stack
unfolding store
stack-store id value none m = refl
stack-store id value (some frame) m = stack-store_local id value frame (frame.captured_cells id) m

-- Where the catch names a variable (its index is not negative), the catch puts the value on top of the stack into it, and a
-- reading of that variable gives that value back: whether it is a captured cell of the running call, a slot or an entry of
-- its frame, or a variable outside of calls. The reading changes nothing else.
pub load_variable-catch_value :
    (i j : Instruction) (value : StackValue) (rest : List StackValue) (m : Machine)
    → is_negative i.operand_index ≡ false
    → j.operand_index ≡ i.operand_index
    → (after : Machine) × (catch_value i (value ∷ rest) m ≡ next after)
      × (after.stack ≡ rest)
      × (load_variable j after ≡ next (record after { stack = value ∷ rest }))
unfolding catch_value load_variable push
load_variable-catch_value i j value rest m named same =
    let m' : Machine = record m { stack = rest } in
    let after : Machine = store i.operand_index value m.frame m' in
    let same_stack : after.stack ≡ rest = stack-store i.operand_index value m.frame m' in
    (
      after,
      rw named refl,
      same_stack,
      rw same (load-store i.operand_index value m' m.frame named refl)
          ∙ ap (λ (s : List StackValue). next (record after { stack = value ∷ s })) same_stack,
    )
