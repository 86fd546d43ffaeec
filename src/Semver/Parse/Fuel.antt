-- ===== src/Semver/Parse/Fuel.antt =====
-- The fuel of the loop over the identifiers is enough: no text exhausts it.
use vxx.Prelude.{
  ℕ, zero, suc, ◌+◌, ◌-◌, ◌*◌, ◌≤◌, ◌<◌, ◌≢◌, ap, Bool, List, [], ◌∷◌, ◌++◌, length, arith,
  length-append,
}
use vxx.Prelude.Bytes.{Bytes, span, span_parts}
use vxx.Semver.Types.{SemanticVersion, Result, err, >>=-ne-err, out_of_fuel}
use vxx.Semver.Compare.{is_ascii_digit}
use vxx.Semver.Parse.{
  is_identifier_char, accumulate, number_value, parse_number, after_identifier, parse_identifiers,
  expect_dot, optional_identifiers, finish, parse_core, parse,
}

accumulate-ne-out_of_fuel : (p : ℕ) (ds : Bytes) → accumulate p ds ≢ err out_of_fuel
unfolding accumulate
accumulate-ne-out_of_fuel p [] h = cc
accumulate-ne-out_of_fuel p (c ∷ cs) h =
    ground (arith, accumulate-ne-out_of_fuel (p * 10 + (c - b'0')) cs)

parse_number-ne-out_of_fuel : (text : Bytes) → parse_number text ≢ err out_of_fuel
unfolding parse_number number_value
parse_number-ne-out_of_fuel text h =
    ground (arith, accumulate-ne-out_of_fuel 0 (span is_ascii_digit text).0)

after-ne-out_of_fuel :
    (more : Bytes → Result (List Bytes × Bytes)) (out : List Bytes) (tail : Bytes)
    → ((cs : Bytes) → length cs < length tail → more cs ≢ err out_of_fuel)
    → after_identifier more out tail ≢ err out_of_fuel
unfolding after_identifier
after-ne-out_of_fuel more out [] k h = cc
after-ne-out_of_fuel more out (c ∷ cs) k h = let rest = k cs (omega arith) in ground arith

rest_shorter : (text : Bytes) → length (span is_identifier_char text).1 ≤ length text
rest_shorter text = omega (
  arith,
  ap length (span_parts is_identifier_char text).0,
  length-append (span is_identifier_char text).0 (span is_identifier_char text).1,
)

round-ne-out_of_fuel :
    (fuel : ℕ) (text : Bytes) (out : List Bytes) (reject : Bool)
    → after_identifier
        (λ cs. parse_identifiers fuel cs (out ++ (span is_identifier_char text).0 ∷ []) reject)
        (out ++ (span is_identifier_char text).0 ∷ [])
        (span is_identifier_char text).1
      ≢ err out_of_fuel
    → parse_identifiers (suc fuel) text out reject ≢ err out_of_fuel
unfolding parse_identifiers
round-ne-out_of_fuel fuel text out reject next h = ground arith

parse_identifiers-ne-out_of_fuel :
    (fuel : ℕ) (text : Bytes) (out : List Bytes) (reject : Bool)
    → length text < fuel
    → parse_identifiers fuel text out reject ≢ err out_of_fuel
parse_identifiers-ne-out_of_fuel zero text out reject h e = absurd (omega arith)
parse_identifiers-ne-out_of_fuel (suc fuel) text out reject h e =
    let out' = out ++ (span is_identifier_char text).0 ∷ [] in
    let next =
      after-ne-out_of_fuel (λ cs. parse_identifiers fuel cs out' reject) out'
        (span is_identifier_char text).1
        (λ cs k.
          parse_identifiers-ne-out_of_fuel fuel cs out' reject
            (omega (arith, rest_shorter text))) in
    round-ne-out_of_fuel fuel text out reject next e

optional-ne-out_of_fuel :
    (mark : ℕ) (reject : Bool) (text : Bytes)
    → optional_identifiers mark reject text ≢ err out_of_fuel
unfolding optional_identifiers
optional-ne-out_of_fuel mark reject [] h = cc
optional-ne-out_of_fuel mark reject (c ∷ cs) h =
    ground (arith, parse_identifiers-ne-out_of_fuel (suc (length cs)) cs [] reject (omega arith))

expect_dot-ne-out_of_fuel : (text : Bytes) → expect_dot text ≢ err out_of_fuel
unfolding expect_dot
expect_dot-ne-out_of_fuel [] h = cc
expect_dot-ne-out_of_fuel (c ∷ cs) h = ground arith

finish-ne-out_of_fuel : (v : SemanticVersion) (text : Bytes) → finish v text ≢ err out_of_fuel
unfolding finish
finish-ne-out_of_fuel v [] h = cc
finish-ne-out_of_fuel v (c ∷ cs) h = cc

parse_core-ne-out_of_fuel : (text : Bytes) → parse_core text ≢ err out_of_fuel
unfolding parse_core
parse_core-ne-out_of_fuel text = >>=-ne-err _ _ (parse_number-ne-out_of_fuel text) λ n1.
    >>=-ne-err _ _ (expect_dot-ne-out_of_fuel _) λ t2.
      >>=-ne-err _ _ (parse_number-ne-out_of_fuel t2) λ n2.
        >>=-ne-err _ _ (expect_dot-ne-out_of_fuel _) λ t4.
          >>=-ne-err _ _ (parse_number-ne-out_of_fuel t4) λ n3.
            >>=-ne-err _ _ (optional-ne-out_of_fuel _ _ _)
              λ l1. >>=-ne-err _ _ (optional-ne-out_of_fuel _ _ _) λ l2. finish-ne-out_of_fuel _ _

-- Whatever the text, the parser ends by one of its own returns: its loop never runs out of fuel.
pub parse-ne-out_of_fuel : (text : Bytes) → parse text ≢ err out_of_fuel
unfolding parse
parse-ne-out_of_fuel text h = ground (arith, parse_core-ne-out_of_fuel text)
