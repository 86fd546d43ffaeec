-- ===== src/Literal/Types.antt =====
-- The values of the literals, the values of the IR that spell them, and the errors.
use vxx.Prelude.{ℕ, List}
use vxx.Prelude.Int.{ℤ}
use vxx.Prelude.Bytes.{Bytes}

-- A decoded value; a fresh map or list handle is given as what it holds. The bits stand for a `double`.
mutual
  pub data LiteralValue : Type 0 where
    int_value : ℤ → LiteralValue
    double_value : ℕ → LiteralValue
    string_value : Bytes → LiteralValue
    null_value : LiteralValue
    list_value : Elements → LiteralValue
    map_value : Entries → LiteralValue

  pub data Elements : Type 0 where
    no_elements : Elements
    element : LiteralValue → Elements → Elements

  -- The entries of a `std::map`, in the order of their keys.
  pub data Entries : Type 0 where
    no_entries : Entries
    entry : Bytes → LiteralValue → Entries → Entries

pub data IrValueOpcode : Type 0 where
  unsupported_direct_region const_int const_float const_string const_bool const_null map_literal
        list_literal index store_index load_name load_property store_name store_property unary
        binary call call_dynamic intrinsic foreign_call lambda :
      IrValueOpcode

-- The members of an `IrValue` that its literal reads. An operand is the number of a value of the program.
pub record IrValue : Type 0 where
  pub opcode : IrValueOpcode
  pub text : Bytes
  pub operands : List ℕ

-- What is thrown: the messages of the decoder, what `std::stoi` and `std::stod` throw, and the `logic_error` of
-- the encoder. A null pointer or an index out of range in the encoder is `undefined_value`.
pub data LiteralError : Type 0 where
  encode_invalid type_tag_invalid number_invalid unsupported_value undefined_value out_of_fuel :
      LiteralError

pub data Result {ℓ} (A : Type ℓ) : Type ℓ where
  ok : A → Result A
  err : LiteralError → Result A

abbrev pub and_then {ℓ ℓ'} : {A : Type ℓ} {B : Type ℓ'} → Result A → (A → Result B) → Result B
and_then (ok a) f = f a
and_then (err e) f = err e
