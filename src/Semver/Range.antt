-- ===== src/Semver/Range.antt =====
-- src/core/semver.cpp: `VersionRange::parse` and `VersionRange::matches`, with their helpers.
pub mod Matches
pub mod Caret
use vxx.Prelude.{
  ℕ, zero, suc, ◌+◌, ◌<◌, Bool, true, false, not, ◌&&◌, ◌||◌, List, [], ◌∷◌, ◌++◌, ltb, leb, ◌==◌,
  if◌then◌else◌, length,
}
use vxx.Prelude.Bytes.{Bytes, span, equal as bytes_equal}
use vxx.Prelude.Order.{Ordering}
use vxx.Semver.Types.{
  SemanticVersion, VersionComparatorOperator, equal, greater, greater_or_equal, less, less_or_equal,
  VersionComparator, VersionRange, Result, ok, err, ◌>>=◌, int_max, wildcard_must_stand_alone,
  or_range_unsupported, comparator_missing_version, signed_overflow, out_of_fuel,
}
use vxx.Semver.Compare.{compare_semantic_version, is_empty}
use vxx.Semver.Parse.{parse}

-- std::isspace in the "C" locale
is_space : ℕ → Bool
is_space c = c == b' ' || (leb 9 c && leb c 13)

is_word : ℕ → Bool
unfolding is_space
is_word c = not (is_space c)

-- `splitWhitespace`, on fuel.
split_fuel : ℕ → Bytes → Result (List Bytes)
split_fuel zero text = err out_of_fuel
split_fuel (suc fuel) text =
    let text1 = (span is_space text).1 in
    let word = span is_word text1 in
    let rest = split_fuel fuel word.1 in
    if is_empty text1 then ok [] else rest >>= λ tokens. ok (word.0 ∷ tokens)

split_whitespace : Bytes → Result (List Bytes)
unfolding split_fuel is_space is_word
split_whitespace text = split_fuel (suc (length text)) text

make_comparator : VersionComparatorOperator → SemanticVersion → VersionComparator
make_comparator op version = record { op = op; version = version }

-- n + 1 for an `int` that is not negative; past `INT_MAX` the addition is undefined.
increment : ℕ → Result ℕ
increment n = if ltb n int_max then ok (n + 1) else err signed_overflow

abbrev release : ℕ → ℕ → ℕ → SemanticVersion
release major minor patch = record {
  major = major;
  minor = minor;
  patch = patch;
  prerelease = [];
  build = [];
}

unfoldable pub caret_upper_bound : SemanticVersion → Result SemanticVersion
unfolding increment
caret_upper_bound version =
    if ltb 0 version.major
    then (increment version.major >>= λ n. ok (release n 0 0))
    else if ltb 0 version.minor
    then (increment version.minor >>= λ n. ok (release 0 n 0))
    else (increment version.patch >>= λ n. ok (release 0 0 n))

unfoldable pub tilde_upper_bound : SemanticVersion → Result SemanticVersion
unfolding increment
tilde_upper_bound version = increment version.minor >>= λ n. ok (release version.major n 0)

holds : VersionComparatorOperator → Ordering → Bool
holds equal Ordering.eq = true
holds equal _ = false
holds greater Ordering.gt = true
holds greater _ = false
holds greater_or_equal Ordering.lt = false
holds greater_or_equal _ = true
holds less Ordering.lt = true
holds less _ = false
holds less_or_equal Ordering.gt = false
holds less_or_equal _ = true

unfoldable pub compare_matches : SemanticVersion → VersionComparator → Bool
unfolding holds
compare_matches version comparator =
    holds comparator.op (compare_semantic_version version comparator.version)

-- token.find("||") != npos
contains_or : Bytes → Bool
contains_or [] = false
contains_or (c ∷ []) = false
contains_or (c ∷ d ∷ cs) = (c == b'|' && d == b'|') || contains_or (d ∷ cs)

-- A comparison operator and the text behind it.
split_operator : Bytes → VersionComparatorOperator × Bytes
split_operator [] = (equal, [])
split_operator (c ∷ []) =
    if c == b'>'
    then (greater, [])
    else if c == b'<'
    then (less, [])
    else if c == b'='
    then (equal, [])
    else (equal, c ∷ [])
split_operator (c ∷ d ∷ cs) =
    if c == b'>' && d == b'='
    then (greater_or_equal, cs)
    else if c == b'<' && d == b'='
    then (less_or_equal, cs)
    else if c == b'>'
    then (greater, d ∷ cs)
    else if c == b'<'
    then (less, d ∷ cs)
    else if c == b'='
    then (equal, d ∷ cs)
    else (equal, c ∷ d ∷ cs)

comparator_token : Bytes → Result (List VersionComparator)
comparator_token token =
    let (op, text) = split_operator token in
    if is_empty text
    then err comparator_missing_version
    else parse text >>= λ version. ok (make_comparator op version ∷ [])

-- `^` and `~`: at least the version, and below a bound.
bounded_token : (SemanticVersion → Result SemanticVersion) → Bytes → Result (List VersionComparator)
bounded_token bound text = parse text >>= λ version. bound version >>= λ upper.
    ok (make_comparator greater_or_equal version ∷ make_comparator less upper ∷ [])

-- The body of the loop: the comparators that a token appends. No token is empty.
unfoldable pub parse_token : Bytes → Result (List VersionComparator)
unfolding bounded_token comparator_token split_operator contains_or make_comparator
parse_token [] = comparator_token []
parse_token (c ∷ cs) =
    if c == b'*' && is_empty cs
    then err wildcard_must_stand_alone
    else if contains_or (c ∷ cs)
    then err or_range_unsupported
    else if c == b'^'
    then bounded_token caret_upper_bound cs
    else if c == b'~'
    then bounded_token tilde_upper_bound cs
    else comparator_token (c ∷ cs)

parse_tokens : List VersionComparator → List Bytes → Result VersionRange
parse_tokens comparators [] = ok (record { any = false; comparators = comparators })
parse_tokens comparators (token ∷ tokens) =
    parse_token token >>= λ more. parse_tokens (comparators ++ more) tokens

-- tokens.empty() || (tokens.size() == 1 && tokens.front() == "*")
is_any : List Bytes → Bool
is_any [] = true
is_any (token ∷ []) = bytes_equal token (b'*' ∷ [])
is_any (token ∷ other ∷ tokens) = false

-- VersionRange::parse
unfoldable pub parse_range : Bytes → Result VersionRange
unfolding split_whitespace is_any parse_tokens
parse_range text = split_whitespace text >>= λ tokens.
    if is_any tokens then ok (record { any = true; comparators = [] }) else parse_tokens [] tokens

all_match : SemanticVersion → List VersionComparator → Bool
all_match version [] = true
all_match version (c ∷ cs) = compare_matches version c && all_match version cs

-- VersionRange::matches
unfoldable pub matches : VersionRange → SemanticVersion → Bool
unfolding all_match
matches range version = if range.any then true else all_match version range.comparators
