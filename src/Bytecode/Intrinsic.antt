-- ===== src/Bytecode/Intrinsic.antt =====
-- src/include/vpp/bytecode/intrinsic.h: the look-ups in the table of the VM intrinsics.
mod Table
mod Aliases
pub mod Laws
pub use Table.{IntrinsicDescriptor}
unfoldable pub use Table.{vm_intrinsics}
unfoldable pub use Aliases.{aliases}
use Prim.Native.String.{String}
use text.Mathlib.Text.{◌==◌ as str_eq}
use vxx.Prelude.{ℕ, Bool, Option, none, some, List, [], ◌∷◌, ◌==◌, if◌then◌else◌}
use vxx.Prelude.Int.{ℤ, is_value}
use vxx.Bytecode.Opcode.{Opcode}
use vxx.Bytecode.Opcode.Codes.{code_of}

-- intrinsic.name == name
by_name : String → List IntrinsicDescriptor → Option IntrinsicDescriptor
by_name name [] = none
by_name name (d ∷ ds) = let rest = by_name name ds in if str_eq d.name name then some d else rest

-- static_cast<int>(intrinsic.opcode) == opcode
by_opcode : ℤ → List IntrinsicDescriptor → Option IntrinsicDescriptor
by_opcode raw [] = none
by_opcode raw (d ∷ ds) =
    let rest = by_opcode raw ds in if is_value (code_of d.opcode) raw then some d else rest

unfoldable pub intrinsic_by_opcode : ℤ → Option IntrinsicDescriptor
unfolding by_opcode vm_intrinsics code_of
intrinsic_by_opcode raw = by_opcode raw vm_intrinsics

-- intrinsic.opcode == alias.second
by_enum : Opcode → List IntrinsicDescriptor → Option IntrinsicDescriptor
by_enum o [] = none
by_enum o (d ∷ ds) =
    let rest = by_enum o ds in if code_of d.opcode == code_of o then some d else rest

-- The loop over the aliases goes on after a name whose opcode is not in the table.
or_more : Option IntrinsicDescriptor → Option IntrinsicDescriptor → Option IntrinsicDescriptor
or_more none more = more
or_more (some d) more = some d

by_alias : String → List (String × Opcode) → Option IntrinsicDescriptor
by_alias name [] = none
by_alias name ((other, o) ∷ rest) =
    let more = by_alias name rest in
    if str_eq other name then or_more (by_enum o vm_intrinsics) more else more

or_alias : Option IntrinsicDescriptor → String → Option IntrinsicDescriptor
or_alias none name = by_alias name aliases
or_alias (some d) name = some d

unfoldable pub intrinsic_by_name : String → Option IntrinsicDescriptor
unfolding by_name by_enum or_more by_alias or_alias vm_intrinsics aliases code_of
intrinsic_by_name name = or_alias (by_name name vm_intrinsics) name
