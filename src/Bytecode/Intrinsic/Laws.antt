-- ===== src/Bytecode/Intrinsic/Laws.antt =====
-- src/include/vpp/bytecode/intrinsic.h: the look-ups by name and by opcode agree, and every
-- intrinsic has a known opcode.
use Prim.Native.String.{String}
use text.Mathlib.Text.{◌==◌ as str_eq}
use vxx.Prelude.{
  ℕ, Bool, true, false, not, ◌&&◌, Option, none, some, List, [], ◌∷◌, ◌≡◌, ◌⊎◌, inl, inr, refl, sym,
  arith, ◌==◌, Bool-cases,
}
use vxx.Prelude.Int.{ℤ, pos, negsuc, is_value}
use vxx.Bytecode.Opcode.{Opcode}
use vxx.Bytecode.Opcode.Codes.{code_of, of_raw-code_of}
use vxx.Bytecode.Opcode.Known.{is_known, is_known_opcode}
use vxx.Bytecode.Intrinsic.{
  IntrinsicDescriptor, vm_intrinsics, aliases, by_name, by_opcode, intrinsic_by_opcode, by_enum,
  or_more, by_alias, or_alias, intrinsic_by_name,
}

abbrev In : IntrinsicDescriptor → List IntrinsicDescriptor → Type 0
In d [] = ⊥
In d (x ∷ xs) = (x ≡ d) ⊎ In d xs

by_name-In :
    (name : String) (ds : List IntrinsicDescriptor) (d : IntrinsicDescriptor)
    → by_name name ds ≡ some d
    → In d ds
unfolding by_name
by_name-In name [] d e = cc
by_name-In name (x ∷ xs) d e = elim (Bool-cases (str_eq x.name name)) [
  | inl hit ↦ let same : some x ≡ some d = rw hit at e in inl (cc)
  | inr miss ↦ inr (by_name-In name xs d (rw miss at e))
]

by_enum-In :
    (o : Opcode) (ds : List IntrinsicDescriptor) (d : IntrinsicDescriptor)
    → by_enum o ds ≡ some d
    → In d ds
unfolding by_enum
by_enum-In o [] d e = cc
by_enum-In o (x ∷ xs) d e = elim (Bool-cases (code_of x.opcode == code_of o)) [
  | inl hit ↦ let same : some x ≡ some d = rw hit at e in inl (cc)
  | inr miss ↦ inr (by_enum-In o xs d (rw miss at e))
]

by_opcode-In :
    (raw : ℤ) (ds : List IntrinsicDescriptor) (d : IntrinsicDescriptor)
    → by_opcode raw ds ≡ some d
    → In d ds × (is_value (code_of d.opcode) raw ≡ true)
unfolding by_opcode
by_opcode-In raw [] d e = absurd (grind arith)
by_opcode-In raw (x ∷ xs) d e = elim (Bool-cases (is_value (code_of x.opcode) raw)) [
  | inl hit ↦ let same : x ≡ d = ground arith in (inl same, rw same at hit)
  | inr miss ↦ let rest = by_opcode-In raw xs d (rw miss at e) in (inr rest.0, rest.1)
]

or_more-eq_some :
    (a b : Option IntrinsicDescriptor) (d : IntrinsicDescriptor)
    → or_more a b ≡ some d
    → (a ≡ some d) ⊎ (b ≡ some d)
unfolding or_more
or_more-eq_some none b d e = inr e
or_more-eq_some (some a) b d e = inl e

by_alias-In :
    (name : String) (rest : List (String × Opcode)) (d : IntrinsicDescriptor)
    → by_alias name rest ≡ some d
    → In d vm_intrinsics
unfolding by_alias
by_alias-In name [] d e = absurd (grind arith)
by_alias-In name ((other, o) ∷ rest) d e = elim (Bool-cases (str_eq other name)) [
  | inl hit ↦
      elim (or_more-eq_some (by_enum o vm_intrinsics) (by_alias name rest) d (rw hit at e)) [
        | inl found ↦ by_enum-In o vm_intrinsics d found
        | inr later ↦ by_alias-In name rest d later
      ]
  | inr miss ↦ by_alias-In name rest d (rw miss at e)
]

-- The number n is that of no descriptor in the list.
fresh : ℕ → List IntrinsicDescriptor → Bool
fresh n [] = true
fresh n (d ∷ ds) = not (code_of d.opcode == n) && fresh n ds

distinct : List IntrinsicDescriptor → Bool
distinct [] = true
distinct (d ∷ ds) = fresh (code_of d.opcode) ds && distinct ds

fresh-In :
    (n : ℕ) (ds : List IntrinsicDescriptor) (d : IntrinsicDescriptor)
    → fresh n ds ≡ true
    → In d ds
    → (code_of d.opcode == n) ≡ false
unfolding fresh
fresh-In n [] d f m = absurd m
fresh-In n (x ∷ xs) d f (inl same) = rw (sym same) (ground arith)
fresh-In n (x ∷ xs) d f (inr m) = fresh-In n xs d (ground arith) m

by_opcode-of_In :
    (ds : List IntrinsicDescriptor) (d : IntrinsicDescriptor)
    → distinct ds ≡ true
    → In d ds
    → by_opcode (pos (code_of d.opcode)) ds ≡ some d
unfolding distinct by_opcode
by_opcode-of_In [] d f m = absurd m
by_opcode-of_In (x ∷ xs) d f (inl same) = rw same (ground arith)
by_opcode-of_In (x ∷ xs) d f (inr m) =
    let other = fresh-In (code_of x.opcode) xs d (ground arith) m in
    rw (other) (by_opcode-of_In xs d (ground arith) m)

table-distinct : distinct vm_intrinsics ≡ true
unfolding distinct fresh vm_intrinsics code_of
table-distinct = refl

or_alias-In :
    (o : Option IntrinsicDescriptor) (name : String) (d : IntrinsicDescriptor)
    → (o ≡ some d → In d vm_intrinsics)
    → or_alias o name ≡ some d
    → In d vm_intrinsics
unfolding or_alias
or_alias-In none name d h e = by_alias-In name aliases d e
or_alias-In (some x) name d h e = h e

-- An intrinsic that is found by any of its names is the one that its opcode finds: the names of the
-- compiler and the numbers of the VM lead to the same descriptor.
pub by_name-by_opcode :
    (name : String) (d : IntrinsicDescriptor)
    → intrinsic_by_name name ≡ some d
    → intrinsic_by_opcode (pos (code_of d.opcode)) ≡ some d
unfolding intrinsic_by_name intrinsic_by_opcode
by_name-by_opcode name d e =
    by_opcode-of_In vm_intrinsics d table-distinct
      (or_alias-In (by_name name vm_intrinsics) name d (by_name-In name vm_intrinsics d) e)

all_known : List IntrinsicDescriptor → Bool
all_known [] = true
all_known (d ∷ ds) = is_known d.opcode && all_known ds

all_known-In :
    (ds : List IntrinsicDescriptor) (d : IntrinsicDescriptor)
    → all_known ds ≡ true
    → In d ds
    → is_known d.opcode ≡ true
unfolding all_known
all_known-In [] d k m = absurd m
all_known-In (x ∷ xs) d k (inl same) = rw (sym same) (ground arith)
all_known-In (x ∷ xs) d k (inr m) = all_known-In xs d (ground arith) m

table_known : all_known vm_intrinsics ≡ true
unfolding all_known vm_intrinsics is_known
table_known = refl

is_value-eq : (n : ℕ) (raw : ℤ) → is_value n raw ≡ true → raw ≡ pos n
is_value-eq n (pos m) h = ground arith
is_value-eq n (negsuc m) h = cc

-- A raw number that the table has is that of its descriptor, and is a known opcode.
pub by_opcode-known :
    (raw : ℤ) (d : IntrinsicDescriptor)
    → intrinsic_by_opcode raw ≡ some d
    → (raw ≡ pos (code_of d.opcode)) × (is_known_opcode raw ≡ true)
unfolding intrinsic_by_opcode is_known_opcode
by_opcode-known raw d e =
    let (member, value) = by_opcode-In raw vm_intrinsics d e in
    let same = is_value-eq (code_of d.opcode) raw value in
    (same, rw (same, of_raw-code_of d.opcode) (all_known-In vm_intrinsics d table_known member))
