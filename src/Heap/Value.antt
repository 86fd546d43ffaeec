-- ===== src/Heap/Value.antt =====
-- src/include/vpp/runtime/value.h: the values and the objects that they share. A handle is the number of
-- an object of its kind, or `none` for nullptr; the kind and the number are the address of an object.
use vxx.Prelude.{
  ℕ, Bool, true, false, ◌==◌, ◌≡◌, ◌↔◌, ◌||◌, Option, none, some, List, [], ◌∷◌, arith,
}
use vxx.Prelude.Int.{ℤ}
use vxx.Prelude.Bytes.{Bytes}

pub record AbiInteger : Type 0 where
  pub is_signed : Bool
  pub signed_value : ℤ
  pub unsigned_value : ℕ

-- The bits stand for a `double`.
pub data StackValue : Type 0 where
  int_value : ℤ → StackValue
  double_value : ℕ → StackValue
  string_value : Bytes → StackValue
  null_value : StackValue
  map_handle list_handle tuple_handle class_handle instance_handle closure_handle :
      Option ℕ → StackValue
  abi_value : AbiInteger → StackValue

pub data RuntimeMemberVisibility : Type 0 where
  public private protected : RuntimeMemberVisibility

pub record RuntimeMethod : Type 0 where
  pub function_id : ℤ
  pub visibility : RuntimeMemberVisibility

pub record RuntimeClass : Type 0 where
  pub name : Bytes
  pub superclass : Option ℕ
  pub methods : List (Bytes × RuntimeMethod)

pub record RuntimeInstance : Type 0 where
  pub klass : Option ℕ
  pub fields : List (Bytes × StackValue)

-- A capture is the number of a `RuntimeCell`.
pub record RuntimeClosure : Type 0 where
  pub function_id : ℤ
  pub captures : List (ℤ × Option ℕ)
  pub method_owner_class : Option ℕ

-- The contents of the objects: a handle of a kind always leads to an object of that kind.
pub record Store : Type 0 where
  pub maps : ℕ → List (Bytes × StackValue)
  pub lists : ℕ → List StackValue
  pub tuples : ℕ → List StackValue
  pub classes : ℕ → RuntimeClass
  pub instances : ℕ → RuntimeInstance
  pub closures : ℕ → RuntimeClosure
  pub cells : ℕ → StackValue

pub data Address : Type 0 where
  map_at list_at tuple_at class_at instance_at closure_at : ℕ → Address

unfoldable pub same_address : Address → Address → Bool
same_address (map_at i) (map_at j) = i == j
same_address (list_at i) (list_at j) = i == j
same_address (tuple_at i) (tuple_at j) = i == j
same_address (class_at i) (class_at j) = i == j
same_address (instance_at i) (instance_at j) = i == j
same_address (closure_at i) (closure_at j) = i == j
same_address _ _ = false

pub same_address_iff : (a b : Address) → (same_address a b ≡ true) ↔ (a ≡ b)
unfolding same_address
same_address_iff (map_at i) (map_at j) = ground arith
same_address_iff (list_at i) (list_at j) = ground arith
same_address_iff (tuple_at i) (tuple_at j) = ground arith
same_address_iff (class_at i) (class_at j) = ground arith
same_address_iff (instance_at i) (instance_at j) = ground arith
same_address_iff (closure_at i) (closure_at j) = ground arith
same_address_iff _ _ = ground arith

-- marked.count(a) != 0
unfoldable pub member : Address → List Address → Bool
unfolding same_address
member a [] = false
member a (b ∷ bs) = same_address a b || member a bs

-- entry.second of every entry
abbrev pub values {ℓ} : {K : Type ℓ} → List (K × StackValue) → List StackValue
values [] = []
values ((k, v) ∷ entries) = v ∷ values entries

-- capture.second->value of every capture that is not null
abbrev pub captured : Store → List (ℤ × Option ℕ) → List StackValue
captured store [] = []
captured store ((slot, none) ∷ captures) = captured store captures
captured store ((slot, some cell) ∷ captures) = store.cells cell ∷ captured store captures
