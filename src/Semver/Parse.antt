-- ===== src/Semver/Parse.antt =====
-- src/core/semver.cpp: `SemanticVersion::parse` and `SemanticVersion::toString`. A text and a
-- cursor into it are the bytes from the cursor on.
pub mod Number
pub mod Identifiers
pub mod RoundTrip
pub mod Fuel
pub mod Chars
use vxx.Prelude.{
  ℕ, zero, suc, ◌+◌, ◌-◌, ◌*◌, ◌/◌, ◌%◌, Bool, true, false, not, ◌&&◌, ◌||◌, List, [], ◌∷◌, ◌++◌,
  ltb, leb, ◌==◌, if◌then◌else◌, length,
}
use vxx.Prelude.Bytes.{Bytes, span}
use vxx.Semver.Types.{
  SemanticVersion, SemverError, number_component_missing, number_leading_zero, number_out_of_range,
  identifier_invalid, prerelease_leading_zero, identifier_trailing_dot, semver_empty,
  expected_core_format, trailing_data_invalid, no_message, out_of_fuel, Result, ok, err, ◌>>=◌,
  int_max,
}
use vxx.Semver.Compare.{is_ascii_digit, all_digits, is_empty}

unfoldable pub is_identifier_char : ℕ → Bool
unfolding is_ascii_digit
is_identifier_char c =
    (leb b'a' c && leb c b'z') || (leb b'A' c && leb c b'Z') || is_ascii_digit c || c == b'-'

-- The loop over the digits; a `long long` holds every intermediate value.
accumulate : ℕ → Bytes → Result ℕ
accumulate parsed [] = ok parsed
accumulate parsed (c ∷ cs) =
    let next = parsed * 10 + (c - b'0') in
    let rest = accumulate next cs in if ltb int_max next then err number_out_of_range else rest

-- text[begin] == '0'
abbrev starts_with_zero : Bytes → Bool
starts_with_zero [] = false
starts_with_zero (c ∷ cs) = c == b'0'

number_value : Bytes → Result ℕ
number_value digits =
    if is_empty digits
    then err number_component_missing
    else if ltb 1 (length digits) && starts_with_zero digits
    then err number_leading_zero
    else accumulate 0 digits

-- The number and the rest of the text.
pub parse_number : Bytes → Result (ℕ × Bytes)
parse_number text =
    let (digits, rest) = span is_ascii_digit text in
    number_value digits >>= λ value. ok (value, rest)

-- What follows an identifier: `more` is the next round of the loop.
after_identifier :
    (Bytes → Result (List Bytes × Bytes)) → List Bytes → Bytes → Result (List Bytes × Bytes)
after_identifier more out [] = ok (out, [])
after_identifier more out (c ∷ cs) =
    if c == b'+'
    then ok (out, c ∷ cs)
    else if not (c == b'.')
    then ok (out, c ∷ cs)
    else if is_empty cs
    then err identifier_trailing_dot
    else more cs

-- The `while` loop, on fuel; the list and the rest of the text.
pub parse_identifiers : ℕ → Bytes → List Bytes → Bool → Result (List Bytes × Bytes)
parse_identifiers zero text out reject_numeric_leading_zero = err out_of_fuel
parse_identifiers (suc fuel) text out reject_numeric_leading_zero =
    let (identifier, rest) = span is_identifier_char text in
    let out' = out ++ identifier ∷ [] in
    let next =
      after_identifier (λ cs. parse_identifiers fuel cs out' reject_numeric_leading_zero) out'
        rest in
    if is_empty text
    then if is_empty out then err no_message else ok (out, text)
    else if is_empty identifier
    then err identifier_invalid
    else if reject_numeric_leading_zero
        && all_digits identifier
        && ltb 1 (length identifier)
        && starts_with_zero identifier
    then err prerelease_leading_zero
    else next

-- cursor >= text.size() || text[cursor++] != '.'
expect_dot : Bytes → Result Bytes
expect_dot [] = err expected_core_format
expect_dot (c ∷ cs) = if c == b'.' then ok cs else err expected_core_format

-- A list of identifiers behind `mark`, if the text goes on with it.
optional_identifiers : ℕ → Bool → Bytes → Result (List Bytes × Bytes)
optional_identifiers mark reject [] = ok ([], [])
optional_identifiers mark reject (c ∷ cs) =
    if c == mark then parse_identifiers (suc (length cs)) cs [] reject else ok ([], c ∷ cs)

pub finish : SemanticVersion → Bytes → Result SemanticVersion
finish version [] = ok version
finish version (c ∷ cs) = err trailing_data_invalid

parse_core : Bytes → Result SemanticVersion
parse_core text = do
  (major, text1) ← parse_number text
  text2 ← expect_dot text1
  (minor, text3) ← parse_number text2
  text4 ← expect_dot text3
  (patch, text5) ← parse_number text4
  (prerelease, text6) ← optional_identifiers b'-' true text5
  (build, text7) ← optional_identifiers b'+' false text6
  let version : SemanticVersion = record {
    major = major;
    minor = minor;
    patch = patch;
    prerelease = prerelease;
    build = build;
  }
  finish version text7

-- SemanticVersion::parse
unfoldable pub parse : Bytes → Result SemanticVersion
unfolding parse_core parse_number number_value accumulate optional_identifiers parse_identifiers
    after_identifier expect_dot finish is_identifier_char
parse text = if is_empty text then err semver_empty else parse_core text

-- `out << n` for a non-negative `int`: its decimal digits.
decimal_fuel : ℕ → ℕ → Bytes
decimal_fuel zero n = []
decimal_fuel (suc fuel) n =
    let front = decimal_fuel fuel (n / 10) in
    if ltb n 10 then (b'0' + n) ∷ [] else front ++ (b'0' + n % 10) ∷ []

pub decimal : ℕ → Bytes
unfolding decimal_fuel
decimal n = decimal_fuel (suc n) n

-- The loops that print a list of identifiers with dots between them.
pub join_identifiers : List Bytes → Bytes
join_identifiers [] = []
join_identifiers (x ∷ []) = x
join_identifiers (x ∷ y ∷ ys) = x ++ (b'.' ∷ join_identifiers (y ∷ ys))

abbrev marked : ℕ → List Bytes → Bytes
marked mark [] = []
marked mark (x ∷ xs) = mark ∷ join_identifiers (x ∷ xs)

-- SemanticVersion::toString
unfoldable pub to_string : SemanticVersion → Bytes
unfolding decimal join_identifiers
to_string v =
    decimal v.major
    ++ (b'.'
        ∷ (decimal v.minor
            ++ (b'.' ∷ (decimal v.patch ++ (marked b'-' v.prerelease ++ marked b'+' v.build)))))
