-- ===== src/Semver/Range/Caret.antt =====
-- The `^` and `~` ranges: how they are read, and which releases they accept.
use vxx.Prelude.{
  ℕ, ◌+◌, ◌<◌, ◌≡◌, ◌≢◌, ◌↔◌, ◌⊎◌, inl, inr, refl, true, false, List, [], ◌∷◌, ltb, ◌==◌, arith,
  Bool-cases,
}
use vxx.Prelude.Bytes.{equal, Bytes, span, AllPass, span-append, span_nil, span_all}
use vxx.Prelude.Order.{Ordering}
use vxx.Semver.Types.{
  SemanticVersion, VersionComparator, VersionRange, greater_or_equal, less, ok, err, int_max,
  signed_overflow,
}
use vxx.Semver.Compare.{compare_semantic_version}
use vxx.Semver.Compare.Core.{LexLe, LexLt, LexLe-of_compare, LexLt-of_compare, compare-of_LexLt}
use vxx.Semver.Parse.{to_string}
use vxx.Semver.Parse.Chars.{is_version_char, to_string_chars}
use vxx.Semver.Parse.RoundTrip.{IsValid, parse-to_string}
use vxx.Semver.Range.{
  is_space, is_word, split_fuel, split_whitespace, make_comparator, caret_upper_bound,
  tilde_upper_bound, holds, compare_matches, contains_or, bounded_token, parse_token, parse_tokens,
  is_any, parse_range, all_match, matches,
}

version_char_word : (c : ℕ) → is_version_char c ≡ true → (is_word c ≡ true) × ((c == b'|') ≡ false)
unfolding is_version_char is_word is_space
version_char_word c h = ground arith

abbrev IsPlain : Bytes → Type 0
IsPlain = AllPass is_version_char

plain_words : (xs : Bytes) → IsPlain xs → AllPass is_word xs
plain_words [] h = tt
plain_words (x ∷ xs) h = ((version_char_word x h.0).0, plain_words xs h.1)

plain_or : (c : ℕ) (xs : Bytes) → (c == b'|') ≡ false → IsPlain xs → contains_or (c ∷ xs) ≡ false
unfolding contains_or
plain_or c [] n h = refl
plain_or c (x ∷ xs) n h =
    let no_bar = (version_char_word x h.0).1 in rw n (plain_or x xs no_bar h.1)

word_first : (c : ℕ) (xs : Bytes) → is_word c ≡ true → span is_space (c ∷ xs) ≡ ([], c ∷ xs)
unfolding is_word
word_first c xs h = span-append is_space [] (c ∷ xs) tt (ground arith)

-- One word is one token.
split_word :
    (c : ℕ) (xs : Bytes)
    → is_word c ≡ true
    → AllPass is_word xs
    → split_whitespace (c ∷ xs) ≡ ok ((c ∷ xs) ∷ [])
unfolding split_whitespace split_fuel
split_word c xs h hs =
    rw (word_first c xs h) (rw (span_all is_word (c ∷ xs) (h, hs), span_nil is_space) refl)

not_star : (c : ℕ) (xs : Bytes) → (c == b'*') ≡ false → equal (c ∷ xs) (b'*' ∷ []) ≡ false
unfolding equal
not_star c xs h = rw h refl

-- A token that starts with `^` or `~`, before a printed version.
range_of_token :
    (c : ℕ) (xs : Bytes) (comparators : List VersionComparator)
    → is_word c ≡ true
    → IsPlain xs
    → (c == b'*') ≡ false
    → parse_token (c ∷ xs) ≡ ok comparators
    → parse_range (c ∷ xs) ≡ ok (record { any = false; comparators = comparators })
unfolding parse_range is_any parse_tokens
range_of_token c xs comparators h plain star e =
    rw (split_word c xs h (plain_words xs plain)) (rw (not_star c xs star, e) refl)

module _ (v : SemanticVersion) (valid : IsValid v) where
  caret_token :
      (u : SemanticVersion)
      → caret_upper_bound v ≡ ok u
      → parse_token (b'^' ∷ to_string v)
        ≡ ok (make_comparator greater_or_equal v ∷ make_comparator less u ∷ [])
  unfolding parse_token bounded_token
  caret_token u e =
      rw (plain_or b'^' (to_string v) refl (to_string_chars v valid), parse-to_string v valid, e)
        refl

  tilde_token :
      (u : SemanticVersion)
      → tilde_upper_bound v ≡ ok u
      → parse_token (b'~' ∷ to_string v)
        ≡ ok (make_comparator greater_or_equal v ∷ make_comparator less u ∷ [])
  unfolding parse_token bounded_token
  tilde_token u e =
      rw (plain_or b'~' (to_string v) refl (to_string_chars v valid), parse-to_string v valid, e)
        refl

-- At least v, and below u.
abbrev pub Between : SemanticVersion → SemanticVersion → SemanticVersion → Type 0
Between v u w =
    (compare_semantic_version w v ≢ Ordering.lt) × (compare_semantic_version w u ≡ Ordering.lt)

abbrev between_range : SemanticVersion → SemanticVersion → VersionRange
between_range v u = record {
  any = false;
  comparators =
      record { op = greater_or_equal; version = v } ∷ record { op = less; version = u } ∷ [];
}

between_range-matches :
    (v u w : SemanticVersion) → (matches (between_range v u) w ≡ true) ↔ Between v u w
unfolding matches all_match compare_matches holds
between_range-matches v u w = (λ h. (ground arith, ground arith), λ h. ground arith)

-- A range that is read, and what it says of the version w.
abbrev pub ReadAs : Bytes → SemanticVersion → Type 0 → Type 0
ReadAs text w P = (r : VersionRange) × (parse_range text ≡ ok r) × ((matches r w ≡ true) ↔ P)

-- `^v` is read for every valid v that has an upper bound, and a version matches it exactly if it is
-- at least v and below that bound.
pub parse_range-caret :
    (v u w : SemanticVersion)
    → IsValid v
    → caret_upper_bound v ≡ ok u
    → ReadAs (b'^' ∷ to_string v) w (Between v u w)
unfolding make_comparator is_word
parse_range-caret v u w valid e = (
  between_range v u,
  range_of_token b'^' (to_string v) _ refl (to_string_chars v valid) refl (caret_token v valid u e),
  between_range-matches v u w,
)

-- The first release of the minor series behind that of v.
abbrev pub next_minor : SemanticVersion → SemanticVersion
next_minor v = record {
  major = v.major;
  minor = v.minor + 1;
  patch = 0;
  prerelease = [];
  build = [];
}

tilde_bound : (v : SemanticVersion) → v.minor < int_max → tilde_upper_bound v ≡ ok (next_minor v)
unfolding tilde_upper_bound
tilde_bound v h = ground arith

-- For every valid v whose minor number is below `INT_MAX`, `~v` is read, and a version matches it exactly if it is at
-- least v and below the release with the same major number, the minor number plus one and the patch number 0.
pub parse_range-tilde :
    (v w : SemanticVersion)
    → IsValid v
    → v.minor < int_max
    → ReadAs (b'~' ∷ to_string v) w (Between v (next_minor v) w)
unfolding make_comparator is_word
parse_range-tilde v w valid below = (
  between_range v (next_minor v),
  range_of_token b'~' (to_string v) _ refl (to_string_chars v valid) refl
      (tilde_token v valid (next_minor v) (tilde_bound v below)),
  between_range-matches v (next_minor v) w,
)

-- At least v, with its major and its minor number.
abbrev pub SameMinor : SemanticVersion → SemanticVersion → Type 0
SameMinor v w =
    (compare_semantic_version w v ≢ Ordering.lt) × (w.major ≡ v.major) × (w.minor ≡ v.minor)

Between-next_minor :
    (v w : SemanticVersion) → w.prerelease ≡ [] → Between v (next_minor v) w ↔ SameMinor v w
Between-next_minor v w plain = (
  λ h.
      let above = LexLe-of_compare v w h.0 in
      let under = LexLt-of_compare w (next_minor v) plain refl h.1 in
      (h.0, omega arith, omega arith),
  λ h. (h.0, compare-of_LexLt w (next_minor v) (inr (h.1, inl (omega arith)))),
)

-- For every valid v whose minor number is below `INT_MAX`, `~v` is read, and a release (a version with no prerelease
-- part) matches it exactly if it is at least v and has the major and the minor number of v.
pub matches_tilde-SameMinor :
    (v w : SemanticVersion)
    → IsValid v
    → v.minor < int_max
    → w.prerelease ≡ []
    → ReadAs (b'~' ∷ to_string v) w (SameMinor v w)
matches_tilde-SameMinor v w valid below plain =
    let (r, read, agrees) = parse_range-tilde v w valid below in
    let (into, back) = Between-next_minor v w plain in
    (r, read, (λ m. into (agrees.0 m), λ h. agrees.1 (back h)))

-- What `^v` is meant to keep: the leftmost number that is not zero, and those before it.
abbrev pub SameSeries : SemanticVersion → SemanticVersion → Type 0
SameSeries v w =
    (w.major ≡ v.major)
    × ((0 < v.major) ⊎ (w.minor ≡ v.minor))
    × ((0 < v.major) ⊎ ((0 < v.minor) ⊎ (w.patch ≡ v.patch)))

caret_bound_series :
    (v u w : SemanticVersion) → caret_upper_bound v ≡ ok u → LexLe v w → LexLt w u → SameSeries v w
unfolding caret_upper_bound
caret_bound_series v u w e h k = elim (Bool-cases (ltb 0 v.major)) [
  | inl major ↦
      let m : u.major ≡ v.major + 1 = ground arith in
      let n : u.minor ≡ 0 = ground arith in
      let p : u.patch ≡ 0 = ground arith in (omega arith, inl (ground arith), inl (ground arith))
  | inr no_major ↦ elim (Bool-cases (ltb 0 v.minor)) [
    | inl minor ↦
        let m : u.major ≡ 0 = ground arith in
        let n : u.minor ≡ v.minor + 1 = ground arith in
        let p : u.patch ≡ 0 = ground arith in
        let z : v.major ≡ 0 = ground arith in
        (omega arith, inr (omega arith), inr (inl (ground arith)))
    | inr no_minor ↦
        let m : u.major ≡ 0 = ground arith in
        let n : u.minor ≡ 0 = ground arith in
        let p : u.patch ≡ v.patch + 1 = ground arith in
        let z : v.major ≡ 0 = ground arith in
        let y : v.minor ≡ 0 = ground arith in
        (omega arith, inr (omega arith), inr (inr (omega arith)))
  ]
]

bound_no_prerelease : (v u : SemanticVersion) → caret_upper_bound v ≡ ok u → u.prerelease ≡ []
unfolding caret_upper_bound
bound_no_prerelease v u e = ground arith

-- Every release (a version with no prerelease part) that matches `^v` keeps the leftmost number of v
-- that is not zero and those before it; with all numbers of v zero it keeps them all.
pub matches_caret-SameSeries :
    (v u w : SemanticVersion) (r : VersionRange)
    → IsValid v
    → caret_upper_bound v ≡ ok u
    → parse_range (b'^' ∷ to_string v) ≡ ok r
    → w.prerelease ≡ []
    → matches r w ≡ true
    → SameSeries v w
matches_caret-SameSeries v u w r valid e read plain m =
    let (r', read', agrees) = parse_range-caret v u w valid e in
    let same : r ≡ r' = cc (read, read') in
    let between = agrees.0 (rw same at m) in
    caret_bound_series v u w e (LexLe-of_compare v w between.0)
      (LexLt-of_compare w u plain (bound_no_prerelease v u e) between.1)

-- For every valid v whose major number is `INT_MAX`, reading `^v` computes its upper bound by a signed
-- addition that overflows.
pub parse_range-caret_overflow :
    (v : SemanticVersion)
    → IsValid v
    → v.major ≡ int_max
    → parse_range (b'^' ∷ to_string v) ≡ err signed_overflow
unfolding parse_range is_any parse_tokens parse_token bounded_token caret_upper_bound is_word
parse_range-caret_overflow v valid e =
    rw
      (
        split_word b'^' (to_string v) refl (plain_words _ (to_string_chars v valid)),
        not_star b'^' (to_string v) refl,
        plain_or b'^' (to_string v) refl (to_string_chars v valid),
        parse-to_string v valid,
        e,
      )
      refl
