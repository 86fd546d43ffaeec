-- ===== src/Semver/Parse/RoundTrip.antt =====
-- `SemanticVersion::parse` accepts exactly the texts that `toString` prints for a valid version.
use mathlib.Core.Path.{subst}
use vxx.Prelude.{
  ℕ, suc, ◌≤◌, ◌≡◌, refl, sym, ap, ◌∙◌, Bool, true, false, List, [], ◌∷◌, ◌++◌, ◌==◌, length, arith,
  append-nil, Bool-cases, inl, inr,
}
use vxx.Prelude.Bytes.{Bytes, Stops}
use vxx.Semver.Types.{SemanticVersion, Result, ok, >>=-eq-ok, int_max}
use vxx.Semver.Compare.{is_ascii_digit, is_empty}
use vxx.Semver.Parse.{
  is_identifier_char, parse_identifiers, expect_dot, optional_identifiers, finish, parse_core,
  parse, decimal, marked, to_string, parse_number,
}
use vxx.Semver.Parse.Number.{decimal-IsNumeral, parse_number-decimal, parse_number_digits}
use vxx.Semver.Parse.Identifiers.{
  AllIdentifiers, EndsList, parse_identifiers-join, Reads, parse_identifiers-Reads, is_empty-append,
}

-- A version that the grammar can write: numbers that fit in an `int`, and well-formed identifiers.
pub record IsValid (v : SemanticVersion) : Type 0 where
  pub major_fits : v.major ≤ int_max
  pub minor_fits : v.minor ≤ int_max
  pub patch_fits : v.patch ≤ int_max
  pub prerelease_valid : AllIdentifiers true v.prerelease
  pub build_valid : AllIdentifiers false v.build

-- What may follow the optional lists: no identifier character, no dot.
marked_ends : (ids : List Bytes) → EndsList (marked b'+' ids)
unfolding is_identifier_char
marked_ends [] = tt
marked_ends (x ∷ xs) = (refl, refl)

optional_marked :
    (mark : ℕ) (reject : Bool) (ids : List Bytes) (rest : Bytes)
    → AllIdentifiers reject ids
    → EndsList rest
    → ((c : ℕ) (cs : Bytes) → rest ≡ c ∷ cs → (c == mark) ≡ false)
    → optional_identifiers mark reject (marked mark ids ++ rest) ≡ ok (ids, rest)
unfolding optional_identifiers
optional_marked mark reject [] [] v e other = refl
optional_marked mark reject [] (c ∷ cs) v e other = rw (other c cs refl) refl
optional_marked mark reject (x ∷ xs) rest v e other =
    let hit : (mark == mark) ≡ true = ground arith in
    rw hit (parse_identifiers-join _ reject [] x xs rest (omega arith) v e)

build_differs :
    (ids : List Bytes) (c : ℕ) (cs : Bytes) → marked b'+' ids ≡ c ∷ cs → (c == b'-') ≡ false
build_differs [] c cs e = absurd (grind arith)
build_differs (x ∷ xs) c cs e = ground arith

marked-Stops_digits :
    (ids ids' : List Bytes) → Stops is_ascii_digit (marked b'-' ids ++ marked b'+' ids')
unfolding is_ascii_digit
marked-Stops_digits [] [] = tt
marked-Stops_digits [] (x ∷ xs) = refl
marked-Stops_digits (x ∷ xs) ids' = refl

dot_no_digit : is_ascii_digit b'.' ≡ false
unfolding is_ascii_digit
dot_no_digit = refl

optional_build :
    (ids : List Bytes)
    → AllIdentifiers false ids
    → optional_identifiers b'+' false (marked b'+' ids) ≡ ok (ids, [])
optional_build ids h =
    ap (optional_identifiers b'+' false) (sym (append-nil (marked b'+' ids)))
    ∙ optional_marked b'+' false ids [] h tt (λ c cs e. absurd (grind arith))

parse_core-to_string : (v : SemanticVersion) → IsValid v → parse_core (to_string v) ≡ ok v
unfolding parse_core to_string expect_dot finish
parse_core-to_string v h =
    rw
      (
        parse_number-decimal v.major _ h.major_fits dot_no_digit,
        parse_number-decimal v.minor _ h.minor_fits dot_no_digit,
        parse_number-decimal v.patch _ h.patch_fits (marked-Stops_digits v.prerelease v.build),
        optional_marked b'-' true v.prerelease _ h.prerelease_valid (marked_ends v.build)
            (build_differs v.build),
      )
      (rw (optional_build v.build h.build_valid) refl)

to_string_not_empty : (v : SemanticVersion) → is_empty (to_string v) ≡ false
unfolding to_string
to_string_not_empty v = is_empty-append (decimal v.major) _ (decimal-IsNumeral v.major).some_digit

-- A valid version is read back from its printed form.
pub parse-to_string : (v : SemanticVersion) → IsValid v → parse (to_string v) ≡ ok v
unfolding parse
parse-to_string v h = rw (to_string_not_empty v) (parse_core-to_string v h)

expect_dot-eq_ok : (text rest : Bytes) → expect_dot text ≡ ok rest → text ≡ b'.' ∷ rest
unfolding expect_dot
expect_dot-eq_ok [] rest e = absurd (grind arith)
expect_dot-eq_ok (c ∷ cs) rest e = ground arith

finish-eq_ok : (v w : SemanticVersion) (text : Bytes) → finish v text ≡ ok w → (text ≡ []) × (v ≡ w)
unfolding finish
finish-eq_ok v w [] e = (refl, cc)
finish-eq_ok v w (c ∷ cs) e = absurd (grind arith)

abbrev Optional : ℕ → Bool → Bytes → List Bytes → Bytes → Type 0
Optional mark reject text ids rest = (text ≡ marked mark ids ++ rest) × AllIdentifiers reject ids

Optional-of_Reads :
    (mark : ℕ) (reject : Bool) (text : Bytes) (ids : List Bytes) (rest : Bytes)
    → Reads reject text [] ids rest
    → Optional mark reject (mark ∷ text) ids rest
Optional-of_Reads mark reject text ids rest r =
    subst (λ t. Optional mark reject (mark ∷ text) t rest) (sym r.read)
      (ap (λ t. mark ∷ t) r.printed, r.valid)

Optional-none :
    (mark : ℕ) (reject : Bool) (text : Bytes) (ids : List Bytes) (rest : Bytes)
    → ◌≡◌ {A = Result (List Bytes × Bytes)} (ok ([], text)) (ok (ids, rest))
    → Optional mark reject text ids rest
Optional-none mark reject text ids rest e =
    let none_read : [] ≡ ids = cc in
    let at_end : text ≡ rest = cc in
    subst (λ t. Optional mark reject text t rest) none_read (at_end, tt)

no_empty_read :
    (fuel : ℕ) (reject : Bool) (text : Bytes) (ids : List Bytes) (rest : Bytes)
    → parse_identifiers (suc fuel) text [] reject ≡ ok (ids, rest)
    → is_empty text ≡ false
unfolding parse_identifiers
no_empty_read fuel reject [] ids rest e = absurd (grind arith)
no_empty_read fuel reject (c ∷ cs) ids rest e = refl

Optional-eq_ok :
    (mark : ℕ) (reject : Bool) (text : Bytes) (ids : List Bytes) (rest : Bytes)
    → optional_identifiers mark reject text ≡ ok (ids, rest)
    → Optional mark reject text ids rest
unfolding optional_identifiers
Optional-eq_ok mark reject [] ids rest e = Optional-none mark reject [] ids rest e
Optional-eq_ok mark reject (c ∷ cs) ids rest e = elim (Bool-cases (c == mark)) [
  | inl hit ↦
      let same : c ≡ mark = ground arith in
      let read : parse_identifiers (suc (length cs)) cs [] reject ≡ ok (ids, rest) = rw hit at e in
      rw same (
        Optional-of_Reads mark reject cs ids rest (
          parse_identifiers-Reads (suc (length cs)) reject cs rest [] ids
            (no_empty_read (length cs) reject cs ids rest read) read))
  | inr other ↦ Optional-none mark reject (c ∷ cs) ids rest (rw other at e)
]

module _ (major minor patch : ℕ) (pre build : List Bytes) where
  to_string-parts :
      (t0 t1 t2 t3 t4 t5 t6 : Bytes)
      → t0 ≡ decimal major ++ t1
      → t1 ≡ b'.' ∷ t2
      → t2 ≡ decimal minor ++ t3
      → t3 ≡ b'.' ∷ t4
      → t4 ≡ decimal patch ++ t5
      → t5 ≡ marked b'-' pre ++ t6
      → t6 ≡ marked b'+' build ++ []
      → to_string
          (record { major = major; minor = minor; patch = patch; prerelease = pre; build = build })
        ≡ t0
  unfolding to_string
  to_string-parts t0 t1 t2 t3 t4 t5 t6 e0 e1 e2 e3 e4 e5 e6 =
      rw (e0, e1, e2, e3, e4, e5, e6, append-nil) refl

-- Every text that is read is the printed form of the version that it gives, and that is valid.
pub parse-eq_ok :
    (text : Bytes) (v : SemanticVersion) → parse text ≡ ok v → IsValid v × (to_string v ≡ text)
unfolding parse parse_core
parse-eq_ok [] v e = absurd (grind arith)
parse-eq_ok (c ∷ cs) v e =
    let ((major, t1), number1, e1) = >>=-eq-ok (parse_number (c ∷ cs)) _ e in
    let (t2, dot1, e2) = >>=-eq-ok (expect_dot t1) _ e1 in
    let ((minor, t3), number2, e3) = >>=-eq-ok (parse_number t2) _ e2 in
    let (t4, dot2, e4) = >>=-eq-ok (expect_dot t3) _ e3 in
    let ((patch, t5), number3, e5) = >>=-eq-ok (parse_number t4) _ e4 in
    let ((pre, t6), list1, e6) = >>=-eq-ok (optional_identifiers b'-' true t5) _ e5 in
    let ((build, t7), list2, e7) = >>=-eq-ok (optional_identifiers b'+' false t6) _ e6 in
    let (last, same) = finish-eq_ok _ v t7 e7 in
    let n1 = parse_number_digits (c ∷ cs) t1 major number1 in
    let n2 = parse_number_digits t2 t3 minor number2 in
    let n3 = parse_number_digits t4 t5 patch number3 in
    let l1 = Optional-eq_ok b'-' true t5 pre t6 list1 in
    let l2 = Optional-eq_ok b'+' false t6 build t7 list2 in
    subst (λ w. IsValid w × (to_string w ≡ c ∷ cs)) same
      (
        record {
          major_fits = n1.1;
          minor_fits = n2.1;
          patch_fits = n3.1;
          prerelease_valid = l1.1;
          build_valid = l2.1;
        },
        to_string-parts major minor patch pre build (c ∷ cs) t1 t2 t3 t4 t5 t6 n1.0
            (expect_dot-eq_ok t1 t2 dot1) n2.0 (expect_dot-eq_ok t3 t4 dot2) n3.0 l1.0
            (l2.0 ∙ ap (λ t. marked b'+' build ++ t) last),
      )
