-- ===== src/Literal/Wire.antt =====
-- src/include/vpp/bytecode/literal_wire.h
pub mod RoundTrip
use vxx.Prelude.{ℕ, Bool, ◌==◌, ◌||◌, List, [], ◌∷◌, if◌then◌else◌}
use vxx.Prelude.Bytes.{Bytes}

-- kLiteralRecordSeparator and kLiteralFieldSeparator
abbrev pub record_separator : ℕ
record_separator = 30

abbrev pub field_separator : ℕ
field_separator = 31

-- The bytes \ n r t e f and the control bytes that they stand for.
abbrev pub backslash : ℕ
backslash = 92

unfoldable pub is_escaped : ℕ → Bool
is_escaped byte =
    byte == backslash
    || byte == 10
    || byte == 13
    || byte == 9
    || byte == record_separator
    || byte == field_separator

unfoldable pub escape_mark : ℕ → ℕ
escape_mark byte =
    if byte == 10
    then 110
    else if byte == 13
    then 114
    else if byte == 9
    then 116
    else if byte == record_separator
    then 101
    else if byte == field_separator
    then 102
    else backslash

unfoldable pub escape_literal_wire_field : Bytes → Bytes
escape_literal_wire_field [] = []
escape_literal_wire_field (byte ∷ value) =
    let rest = escape_literal_wire_field value in
    if is_escaped byte then backslash ∷ escape_mark byte ∷ rest else byte ∷ rest

unfoldable pub unescape_mark : ℕ → ℕ
unescape_mark next =
    if next == 110
    then 10
    else if next == 114
    then 13
    else if next == 116
    then 9
    else if next == 101
    then record_separator
    else if next == 102
    then field_separator
    else next

unfoldable pub unescape_literal_wire_field : Bytes → Bytes
unescape_literal_wire_field [] = []
unescape_literal_wire_field (byte ∷ []) = byte ∷ []
unescape_literal_wire_field (byte ∷ next ∷ value) =
    let escaped = unescape_literal_wire_field value in
    let rest = unescape_literal_wire_field (next ∷ value) in
    if byte == backslash then unescape_mark next ∷ escaped else byte ∷ rest
