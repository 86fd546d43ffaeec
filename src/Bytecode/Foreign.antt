-- ===== src/Bytecode/Foreign.antt =====
-- src/include/vpp/bytecode/foreign.h, and the check of a foreign descriptor in
-- src/bytecode/verifier.cpp (`verifyForeignDescriptor` and its helpers).
use Prim.Native.String.{String}
use text.Mathlib.Text.{◌==◌ as str_eq}
use vxx.Prelude.{
  ℕ, zero, suc, Bool, true, false, not, ◌&&◌, ◌||◌, Option, none, some, List, [], ◌∷◌, ltb, leb,
  ◌==◌, if◌then◌else◌, length, get_or, set, replicate,
}
use vxx.Prelude.Int.{ℤ, is_negative, to_size, to_int, eq_ℤ}

-- The enumerators of `ForeignAbiType`; `unnamed` is a value of the enumeration's type that is none
-- of them.
pub data ForeignAbiType : Type 0 where
  void i32 u32 i64 u64 f64 c_string buffer_out buffer_in : ForeignAbiType
  file_handle directory_handle directory_entry pointer_status : ForeignAbiType
  dns_handle socket_handle : ForeignAbiType
  unnamed : ℕ → ForeignAbiType

pub record ForeignBufferExtent : Type 0 where
  pub parameter_index : ℕ
  pub length_parameter_index : ℤ
  pub fixed_length : ℕ

pub record ForeignFunctionDescriptor : Type 0 where
  pub id : ℤ
  pub library : String
  pub symbol : String
  pub parameters : List ForeignAbiType
  pub buffer_extents : List ForeignBufferExtent
  pub result : ForeignAbiType
  pub abi : String
  pub capability : String

-- The texts that `verifyForeignDescriptor` returns, in the order of the source.
pub data ForeignIssue : Type 0 where
  bad_identity bad_result bad_parameter : ForeignIssue
  extent_index_invalid extent_not_buffer fixed_length_out_of_range : ForeignIssue
  length_reference_invalid extent_missing : ForeignIssue

valid_foreign_abi_type : ForeignAbiType → Bool
valid_foreign_abi_type (unnamed n) = false
valid_foreign_abi_type _ = true

foreign_length_abi_type : ForeignAbiType → Bool
foreign_length_abi_type i32 = true
foreign_length_abi_type u32 = true
foreign_length_abi_type i64 = true
foreign_length_abi_type u64 = true
foreign_length_abi_type _ = false

-- type == BufferIn || type == BufferOut
abbrev is_buffer : ForeignAbiType → Bool
is_buffer buffer_in = true
is_buffer buffer_out = true
is_buffer _ = false

abbrev is_void : ForeignAbiType → Bool
is_void void = true
is_void _ = false

check_parameters : List ForeignAbiType → Option ForeignIssue
check_parameters [] = none
check_parameters (type ∷ types) =
    let rest = check_parameters types in
    if not (valid_foreign_abi_type type) || is_void type then some bad_parameter else rest

-- parameters[i] has the property; no parameter stands outside the list.
parameter_is : (ForeignAbiType → Bool) → List ForeignAbiType → ℕ → Bool
parameter_is test [] i = false
parameter_is test (type ∷ types) zero = test type
parameter_is test (type ∷ types) (suc i) = parameter_is test types i

-- The length of an extent: fixed, or that of another parameter.
extent_length : List ForeignAbiType → ForeignBufferExtent → Option ForeignIssue
extent_length parameters extent =
    if is_negative extent.length_parameter_index
    then if extent.fixed_length == 0 || ltb 65536 extent.fixed_length
      then some fixed_length_out_of_range
      else none
    else if not (extent.fixed_length == 0)
        || leb (length parameters) (to_size extent.length_parameter_index)
        || not (
            parameter_is foreign_length_abi_type parameters (to_size extent.length_parameter_index))
    then some length_reference_invalid
    else none

-- The loop over the extents: the parameters seen so far, or the first issue.
pub data Extents : Type 0 where
  seen_all : List Bool → Extents
  stopped : ForeignIssue → Extents

or_next : Option ForeignIssue → Extents → Extents
or_next none next = next
or_next (some issue) next = stopped issue

check_extents : List ForeignAbiType → List ForeignBufferExtent → List Bool → Extents
check_extents parameters [] seen = seen_all seen
check_extents parameters (extent ∷ extents) seen =
    let next = check_extents parameters extents (set seen extent.parameter_index true) in
    if leb (length parameters) extent.parameter_index || get_or seen extent.parameter_index false
    then stopped extent_index_invalid
    else if not (parameter_is is_buffer parameters extent.parameter_index)
    then stopped extent_not_buffer
    else or_next (extent_length parameters extent) next

-- The last loop: every buffer parameter was seen.
all_seen : List ForeignAbiType → List Bool → Option ForeignIssue
all_seen [] seen = none
all_seen (type ∷ types) [] = if is_buffer type then some extent_missing else all_seen types []
all_seen (type ∷ types) (b ∷ seen) =
    let rest = all_seen types seen in if is_buffer type && not b then some extent_missing else rest

after_extents : List ForeignAbiType → Extents → Option ForeignIssue
after_extents parameters (stopped issue) = some issue
after_extents parameters (seen_all seen) = all_seen parameters seen

check_buffers : List ForeignAbiType → List ForeignBufferExtent → Option ForeignIssue
check_buffers parameters [] = none
check_buffers parameters (extent ∷ extents) =
    after_extents parameters
      (check_extents parameters (extent ∷ extents) (replicate (length parameters) false))

or_else : Option ForeignIssue → Option ForeignIssue → Option ForeignIssue
or_else none later = later
or_else (some issue) later = some issue

-- verifyForeignDescriptor
pub verify_foreign_descriptor : ForeignFunctionDescriptor → ℕ → Option ForeignIssue
unfolding or_else check_buffers after_extents check_extents all_seen extent_length or_next
    check_parameters parameter_is valid_foreign_abi_type foreign_length_abi_type
verify_foreign_descriptor descriptor index =
    if not (eq_ℤ descriptor.id (to_int index))
      || str_eq descriptor.library ""
      || str_eq descriptor.symbol ""
      || str_eq descriptor.capability ""
      || not (str_eq descriptor.abi "c")
    then some bad_identity
    else if not (valid_foreign_abi_type descriptor.result) || is_buffer descriptor.result
    then some bad_result
    else or_else (check_parameters descriptor.parameters)
        (check_buffers descriptor.parameters descriptor.buffer_extents)
