-- ===== src/Semver/Tests.antt =====
-- The version layer on concrete versions and ranges.
use vxx.Prelude.{◌<◌, arith, ℕ, false, ◌≡◌, ◌≢◌, refl, [], ◌∷◌, true}
use vxx.Prelude.Order.{Ordering}
use vxx.Prelude.Bytes.{Bytes, codes, equal, span}
use vxx.Semver.Types.{
  int_max, SemanticVersion, VersionRange, less, less_or_equal, greater_or_equal, ok, err,
  signed_overflow, out_of_fuel, number_leading_zero, trailing_data_invalid, no_message,
}
use vxx.Semver.Compare.{all_digits, is_ascii_digit, compare_semantic_version}
use vxx.Semver.Parse.{parse, to_string}
use vxx.Semver.Parse.RoundTrip.{IsValid, parse-to_string, parse-eq_ok}
use vxx.Semver.Parse.Fuel.{parse-ne-out_of_fuel}
use vxx.Semver.Range.{
  parse_range, parse_token, compare_matches, matches, caret_upper_bound, tilde_upper_bound,
}
use vxx.Semver.Range.Matches.{matches-between}
use vxx.Semver.Range.Caret.{
  ReadAs, Between, SameSeries, parse_range-caret, parse_range-tilde, next_minor, SameMinor,
  matches_tilde-SameMinor, matches_caret-SameSeries, parse_range-caret_overflow,
}

abbrev version : Bytes → Bytes → SemanticVersion
version prerelease build = record {
  major = 1;
  minor = 4;
  patch = 0;
  prerelease = prerelease ∷ codes "2" ∷ [];
  build = build ∷ [];
}

abbrev beta : SemanticVersion
beta = version (codes "beta") (codes "x-7")

abbrev plain : ℕ → ℕ → ℕ → SemanticVersion
plain x y z = record { major = x; minor = y; patch = z; prerelease = []; build = [] }

read_beta : parse (codes "1.4.0-beta.2+x-7") ≡ ok beta
unfolding parse span all_digits
read_beta = refl

read_plain : parse (codes "0.3.1") ≡ ok (plain 0 3 1)
unfolding parse span
read_plain = refl

read_max : parse (codes "2147483647.0.0") ≡ ok (plain 2147483647 0 0)
unfolding parse span
read_max = refl

read_leading_zero : parse (codes "1.04.0") ≡ err number_leading_zero
unfolding parse span
read_leading_zero = refl

read_trailing : parse (codes "1.4.0 ") ≡ err trailing_data_invalid
unfolding parse span
read_trailing = refl

beta-IsValid : IsValid beta
beta-IsValid = (parse-eq_ok (codes "1.4.0-beta.2+x-7") beta read_beta).0

plain-IsValid : IsValid (plain 0 3 1)
plain-IsValid = (parse-eq_ok (codes "0.3.1") (plain 0 3 1) read_plain).0

max-IsValid : IsValid (plain 2147483647 0 0)
max-IsValid = (parse-eq_ok (codes "2147483647.0.0") (plain 2147483647 0 0) read_max).0

parse-to_string_example : parse (to_string beta) ≡ ok beta
parse-to_string_example = parse-to_string beta beta-IsValid

parse-eq_ok_example : IsValid beta × (to_string beta ≡ codes "1.4.0-beta.2+x-7")
parse-eq_ok_example = parse-eq_ok (codes "1.4.0-beta.2+x-7") beta read_beta

parse-ne-out_of_fuel_example : parse (codes "1.2.3-a.b.c") ≢ err out_of_fuel
parse-ne-out_of_fuel_example = parse-ne-out_of_fuel (codes "1.2.3-a.b.c")

caret_of_plain : caret_upper_bound (plain 0 3 1) ≡ ok (plain 0 4 0)
unfolding caret_upper_bound
caret_of_plain = refl

tilde_of_plain : tilde_upper_bound (plain 0 3 1) ≡ ok (plain 0 4 0)
unfolding tilde_upper_bound
tilde_of_plain = refl

parse_range-caret_example :
    ReadAs
      (b'^' ∷ to_string (plain 0 3 1))
      (plain 0 3 9)
      (Between (plain 0 3 1) (plain 0 4 0) (plain 0 3 9))
parse_range-caret_example =
    parse_range-caret (plain 0 3 1) (plain 0 4 0) (plain 0 3 9) plain-IsValid caret_of_plain

minor_below : 3 < int_max
minor_below = omega arith

parse_range-tilde_example :
    ReadAs
      (b'~' ∷ to_string (plain 0 3 1))
      (plain 0 3 9)
      (Between (plain 0 3 1) (next_minor (plain 0 3 1)) (plain 0 3 9))
parse_range-tilde_example = parse_range-tilde (plain 0 3 1) (plain 0 3 9) plain-IsValid minor_below

matches_tilde-SameMinor_example :
    ReadAs (b'~' ∷ to_string (plain 0 3 1)) (plain 0 3 9) (SameMinor (plain 0 3 1) (plain 0 3 9))
matches_tilde-SameMinor_example =
    matches_tilde-SameMinor (plain 0 3 1) (plain 0 3 9) plain-IsValid minor_below refl

abbrev caret_range : VersionRange
caret_range = record {
  any = false;
  comparators =
      record { op = greater_or_equal; version = plain 0 3 1 }
      ∷ record { op = less; version = plain 0 4 0 }
      ∷ [];
}

read_caret_range : parse_range (b'^' ∷ to_string (plain 0 3 1)) ≡ ok caret_range
unfolding parse_range parse_token caret_upper_bound parse to_string span equal
read_caret_range = refl

caret_range-matches : matches caret_range (plain 0 3 9) ≡ true
unfolding matches compare_matches compare_semantic_version
caret_range-matches = refl

matches_caret-SameSeries_example : SameSeries (plain 0 3 1) (plain 0 3 9)
matches_caret-SameSeries_example =
    matches_caret-SameSeries (plain 0 3 1) (plain 0 4 0) (plain 0 3 9) caret_range plain-IsValid
      caret_of_plain read_caret_range refl caret_range-matches

parse_range-caret_overflow_example :
    parse_range (b'^' ∷ to_string (plain 2147483647 0 0)) ≡ err signed_overflow
parse_range-caret_overflow_example =
    parse_range-caret_overflow (plain 2147483647 0 0) max-IsValid refl

abbrev up_to : VersionRange
up_to = record {
  any = false;
  comparators =
      record { op = greater_or_equal; version = beta }
      ∷ record { op = less_or_equal; version = plain 2 0 0 }
      ∷ [];
}

up_to_facts :
    (compare_semantic_version beta (plain 1 5 0) ≢ Ordering.gt)
    × (compare_semantic_version (plain 1 5 0) (plain 2 0 0) ≢ Ordering.gt)
    × (matches up_to beta ≡ true)
    × (matches up_to (plain 2 0 0) ≡ true)
unfolding matches compare_matches compare_semantic_version all_digits is_ascii_digit equal
up_to_facts = (cc, cc, refl, refl)

matches-between_example : matches up_to (plain 1 5 0) ≡ true
matches-between_example =
    matches-between up_to beta (plain 1 5 0) (plain 2 0 0) up_to_facts.0 up_to_facts.1 up_to_facts.2
      up_to_facts.3

-- A mark with no identifier behind it is refused without a message.
read_bare_mark : parse (codes "1.4.0-") ≡ err no_message
unfolding parse span
read_bare_mark = refl
