-- ===== src/Bytecode/Opcode/Tables.antt =====
-- src/bytecode/opcode.cpp: `isKnownOpcode` and `opcodeName` agree, and names tell opcodes apart.
use Prim.Native.String.{String}
use text.Mathlib.Text.{◌==◌ as str_eq}
use vxx.Prelude.{
  true, not, ◌&&◌, Option, none, some, List, [], ◌∷◌, ◌≡◌, refl, sym, ap, ◌∙◌, if◌then◌else◌,
}
use vxx.Prelude.Int.{ℤ, pos}
use vxx.Bytecode.Opcode.{Opcode, op_cong}
use vxx.Bytecode.Opcode.Codes.{code_of, all_opcodes, of_raw, of_raw-eq_some}
use vxx.Bytecode.Opcode.Known.{is_known, known?, is_known_opcode}
use vxx.Bytecode.Opcode.Names.{name_of, name_or, opcode_name}

known-name_of : (o : Opcode) → is_known o ≡ not (str_eq (name_of o) "UNKNOWN_OPCODE")
unfolding is_known name_of
known-name_of op_cong = refl
known-name_of _ = refl

known-name_or : (o : Option Opcode) → known? o ≡ not (str_eq (name_or o) "UNKNOWN_OPCODE")
known-name_or none = refl
known-name_or (some o) = known-name_of o

-- The switches of `isKnownOpcode` and `opcodeName` have the same labels: a raw number is known
-- exactly if its name is not "UNKNOWN_OPCODE".
pub is_known-opcode_name :
    (raw : ℤ) → is_known_opcode raw ≡ not (str_eq (opcode_name raw) "UNKNOWN_OPCODE")
unfolding is_known_opcode opcode_name
is_known-opcode_name raw = known-name_or (of_raw raw)

-- The known opcode with a given name.
find_name : String → List Opcode → Option Opcode
find_name name [] = none
find_name name (o ∷ os) =
    let rest = find_name name os in if is_known o && str_eq (name_of o) name then some o else rest

find_name-name_of :
    (o : Opcode) → find_name (name_of o) all_opcodes ≡ (if is_known o then some o else none)
unfolding find_name is_known name_of all_opcodes
find_name-name_of op_cong = refl
find_name-name_of _ = refl

name_of-injective :
    (a b : Opcode) → is_known a ≡ true → is_known b ≡ true → name_of a ≡ name_of b → a ≡ b
name_of-injective a b ka kb e =
    let fa : find_name (name_of a) all_opcodes ≡ some a = find_name-name_of a ∙ rw ka refl in
    let fb : find_name (name_of b) all_opcodes ≡ some b = find_name-name_of b ∙ rw kb refl in
    cc (fa, fb)

known?-eq_true :
    (o : Option Opcode) → known? o ≡ true → (x : Opcode) × (o ≡ some x) × (is_known x ≡ true)
known?-eq_true none k = cc
known?-eq_true (some x) k = (x, refl, k)

-- Two known raw numbers with the same name are the same.
pub opcode_name-injective :
    (a b : ℤ)
    → is_known_opcode a ≡ true
    → is_known_opcode b ≡ true
    → opcode_name a ≡ opcode_name b
    → a ≡ b
unfolding is_known_opcode opcode_name
opcode_name-injective a b ka kb e =
    let (x, ra, kx) = known?-eq_true (of_raw a) ka in
    let (y, rb, ky) = known?-eq_true (of_raw b) kb in
    let names : name_of x ≡ name_of y = sym (ap name_or ra) ∙ e ∙ ap name_or rb in
    of_raw-eq_some a x ra
    ∙ ap (λ o. pos (code_of o)) (name_of-injective x y kx ky names)
    ∙ sym (of_raw-eq_some b y rb)
