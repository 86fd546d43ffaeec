-- ===== src/Literal/Wire/RoundTrip.antt =====
-- src/include/vpp/bytecode/literal_wire.h: escaping keeps the separators out, and is undone.
use vxx.Prelude.{
  ℕ, ◌≤◌, ◌≡◌, refl, ap, Bool, true, false, not, ◌==◌, ◌||◌, [], ◌∷◌, length, Bool-cases, inl, inr,
  arith,
}
use vxx.Prelude.Bytes.{Bytes, AllPass}
use vxx.Literal.Wire.{
  record_separator, field_separator, backslash, is_escaped, escape_mark, escape_literal_wire_field,
  unescape_mark, unescape_literal_wire_field,
}

unescape_mark-escape_mark :
    (byte : ℕ) → is_escaped byte ≡ true → unescape_mark (escape_mark byte) ≡ byte
unfolding unescape_mark escape_mark is_escaped
unescape_mark-escape_mark byte h = ground arith

unescape-plain :
    (byte : ℕ) (value : Bytes)
    → is_escaped byte ≡ false
    → unescape_literal_wire_field (byte ∷ value) ≡ byte ∷ unescape_literal_wire_field value
unfolding unescape_literal_wire_field is_escaped
unescape-plain byte [] h = refl
unescape-plain byte (next ∷ value) h = ground arith

-- No separator stands in the text.
abbrev pub is_clean : ℕ → Bool
is_clean byte = not (byte == record_separator || byte == field_separator)

unescape-escaped :
    (mark : ℕ) (value : Bytes)
    → unescape_literal_wire_field (backslash ∷ mark ∷ value)
      ≡ unescape_mark mark ∷ unescape_literal_wire_field value
unfolding unescape_literal_wire_field
unescape-escaped mark value = refl

unescape-nil : unescape_literal_wire_field [] ≡ []
unfolding unescape_literal_wire_field
unescape-nil = refl

escape_mark-is_clean : (byte : ℕ) → is_clean (escape_mark byte) ≡ true
unfolding escape_mark
escape_mark-is_clean byte = ground arith

plain-is_clean : (byte : ℕ) → is_escaped byte ≡ false → is_clean byte ≡ true
unfolding is_escaped
plain-is_clean byte h = ground arith

-- The machine reads back the very bytes that the compiler escaped.
pub unescape_literal_wire_field-escape_literal_wire_field :
    (value : Bytes) → unescape_literal_wire_field (escape_literal_wire_field value) ≡ value
unfolding escape_literal_wire_field
unescape_literal_wire_field-escape_literal_wire_field [] = unescape-nil
unescape_literal_wire_field-escape_literal_wire_field (byte ∷ value) =
    elim (Bool-cases (is_escaped byte)) [
      | inl special ↦
          rw
            (
              special,
              unescape-escaped (escape_mark byte) (escape_literal_wire_field value),
              unescape_mark-escape_mark byte special,
            )
            (ap (λ t. byte ∷ t) (unescape_literal_wire_field-escape_literal_wire_field value))
      | inr plain ↦
          rw (plain, unescape-plain byte (escape_literal_wire_field value) plain)
            (ap (λ t. byte ∷ t) (unescape_literal_wire_field-escape_literal_wire_field value))
    ]

pub escape_literal_wire_field-AllPass :
    (value : Bytes) → AllPass is_clean (escape_literal_wire_field value)
unfolding escape_literal_wire_field
escape_literal_wire_field-AllPass [] = tt
escape_literal_wire_field-AllPass (byte ∷ value) = elim (Bool-cases (is_escaped byte)) [
  | inl special ↦
      rw special (refl, (escape_mark-is_clean byte, escape_literal_wire_field-AllPass value))
  | inr plain ↦ rw plain (plain-is_clean byte plain, escape_literal_wire_field-AllPass value)
]

pub length-escape_literal_wire_field :
    (value : Bytes) → length value ≤ length (escape_literal_wire_field value)
unfolding escape_literal_wire_field
length-escape_literal_wire_field [] = omega arith
length-escape_literal_wire_field (byte ∷ value) =
    ground (arith, length-escape_literal_wire_field value)
