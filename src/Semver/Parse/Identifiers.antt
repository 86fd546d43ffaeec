-- ===== src/Semver/Parse/Identifiers.antt =====
-- The identifiers of a version (`parseIdentifiers`): they are read exactly as they are printed.
use vxx.Prelude.{
  ℕ, zero, suc, ◌<◌, ◌≡◌, refl, sym, ap, ◌∙◌, ◌⊎◌, Bool, false, ◌&&◌, List, [], ◌∷◌, ◌++◌, ltb,
  ◌==◌, length, arith, append_assoc, Bool-cases, inl, inr, length-append,
}
use mathlib.Core.Path.{subst}
use vxx.Prelude.Bytes.{Bytes, span, AllPass, Stops, span-append, span_parts}
use vxx.Semver.Types.{Result, ok}
use vxx.Semver.Compare.{all_digits, is_empty}
use vxx.Semver.Parse.{
  is_identifier_char, starts_with_zero, after_identifier, parse_identifiers, join_identifiers,
}

-- The test that refuses a numeric identifier with a zero in front.
abbrev has_leading_zero : Bool → Bytes → Bool
has_leading_zero reject id = reject && all_digits id && ltb 1 (length id) && starts_with_zero id

-- One identifier: some letters, digits and hyphens, with no zero in front where that is refused.
pub record IsIdentifier (reject : Bool) (id : Bytes) : Type 0 where
  pub chars : AllPass is_identifier_char id
  pub some_char : is_empty id ≡ false
  pub no_zero : has_leading_zero reject id ≡ false

abbrev pub AllIdentifiers : Bool → List Bytes → Type 0
AllIdentifiers reject [] = Unit
AllIdentifiers reject (x ∷ xs) = IsIdentifier reject x × AllIdentifiers reject xs

-- What may stand behind a list of identifiers: the end, or a byte that goes on with none.
abbrev pub EndsList : Bytes → Type 0
EndsList [] = Unit
EndsList (c ∷ cs) = (is_identifier_char c ≡ false) × ((c == b'.') ≡ false)

dot_stops : is_identifier_char b'.' ≡ false
unfolding is_identifier_char
dot_stops = refl

EndsList-Stops : (rest : Bytes) → EndsList rest → Stops is_identifier_char rest
EndsList-Stops [] h = tt
EndsList-Stops (c ∷ cs) h = h.0

after-EndsList :
    (more : Bytes → Result (List Bytes × Bytes)) (out : List Bytes) (rest : Bytes)
    → EndsList rest
    → after_identifier more out rest ≡ ok (out, rest)
unfolding after_identifier
after-EndsList more out [] h = refl
after-EndsList more out (c ∷ cs) h = ground arith

pub is_empty-append : (xs ys : Bytes) → is_empty xs ≡ false → is_empty (xs ++ ys) ≡ false
is_empty-append [] ys h = cc
is_empty-append (x ∷ xs) ys h = refl

-- One round of the loop on an identifier that something ends.
parse_one :
    (fuel : ℕ) (reject : Bool) (out : List Bytes) (id rest : Bytes)
    → IsIdentifier reject id
    → Stops is_identifier_char rest
    → parse_identifiers (suc fuel) (id ++ rest) out reject
      ≡ after_identifier
          (λ cs. parse_identifiers fuel cs (out ++ id ∷ []) reject)
          (out ++ id ∷ [])
          rest
unfolding parse_identifiers
parse_one fuel reject out id rest v s =
    rw
      (
        span-append is_identifier_char id rest v.chars s,
        is_empty-append id rest v.some_char,
        v.some_char,
        v.no_zero,
      )
      refl

after_dot :
    (more : Bytes → Result (List Bytes × Bytes)) (out : List Bytes) (cs : Bytes)
    → is_empty cs ≡ false
    → after_identifier more out (b'.' ∷ cs) ≡ more cs
unfolding after_identifier
after_dot more out cs h = rw h refl

join_not_empty :
    (reject : Bool) (id : Bytes) (ids : List Bytes)
    → IsIdentifier reject id
    → is_empty (join_identifiers (id ∷ ids)) ≡ false
unfolding join_identifiers
join_not_empty reject id [] v = v.some_char
join_not_empty reject id (id' ∷ ids) v = is_empty-append id _ v.some_char

fuel_left :
    (id tail rest : Bytes) (fuel : ℕ)
    → length ((id ++ (b'.' ∷ tail)) ++ rest) < suc fuel
    → length (tail ++ rest) < fuel
fuel_left id tail rest fuel h = omega (
  arith,
  length-append (id ++ (b'.' ∷ tail)) rest,
  length-append id (b'.' ∷ tail),
  length-append tail rest,
)

-- Printed identifiers are read back, with what follows them left over.
pub parse_identifiers-join :
    (fuel : ℕ) (reject : Bool) (out : List Bytes) (id : Bytes) (ids : List Bytes) (rest : Bytes)
    → length (join_identifiers (id ∷ ids) ++ rest) < fuel
    → AllIdentifiers reject (id ∷ ids)
    → EndsList rest
    → parse_identifiers fuel (join_identifiers (id ∷ ids) ++ rest) out reject
      ≡ ok (out ++ id ∷ ids, rest)
unfolding join_identifiers
parse_identifiers-join zero reject out id ids rest f v e = absurd (omega arith)
parse_identifiers-join (suc fuel) reject out id [] rest f v e =
    parse_one fuel reject out id rest v.0 (EndsList-Stops rest e) ∙ after-EndsList _ _ rest e
parse_identifiers-join (suc fuel) reject out id (id' ∷ ids) rest f v e =
    rw (append_assoc id (b'.' ∷ join_identifiers (id' ∷ ids)) rest) (
      parse_one fuel reject out id _ v.0 dot_stops
      ∙ after_dot _ _ (join_identifiers (id' ∷ ids) ++ rest)
          (is_empty-append _ rest (join_not_empty reject id' ids v.1.0))
      ∙ parse_identifiers-join fuel reject (out ++ id ∷ []) id' ids rest
          (fuel_left id _ rest fuel f) v.1 e
      ∙ ap (λ t. ok (t, rest)) (append_assoc out (id ∷ []) (id' ∷ ids)))

-- What a list of identifiers that was read looks like in the text.
pub record Reads (reject : Bool) (text : Bytes) (out ids : List Bytes) (rest : Bytes) : Type 0 where
  pub first : Bytes
  pub others : List Bytes
  pub read : ids ≡ out ++ first ∷ others
  pub valid : AllIdentifiers reject (first ∷ others)
  pub printed : text ≡ join_identifiers (first ∷ others) ++ rest
  pub ended : EndsList rest

after_cases :
    (more : Bytes → Result (List Bytes × Bytes)) (out ids : List Bytes) (tail rest : Bytes)
    → Stops is_identifier_char tail
    → after_identifier more out tail ≡ ok (ids, rest)
    → ((ids ≡ out) × (tail ≡ rest) × EndsList rest)
      ⊎ ((cs : Bytes) × (tail ≡ b'.' ∷ cs) × (is_empty cs ≡ false) × (more cs ≡ ok (ids, rest)))
unfolding after_identifier
after_cases more out ids [] rest s e =
    let ends : [] ≡ rest = cc in inl (cc, ends, subst EndsList ends tt)
after_cases more out ids (c ∷ cs) rest s e = elim (Bool-cases (c == b'.')) [
  | inl dot ↦ inr (cs, ground arith, ground arith, ground arith)
  | inr other ↦
      let ends : c ∷ cs ≡ rest = ground arith in
      inl (ground arith, ends, subst EndsList ends (s, other))
]

-- A round that succeeds has read an identifier.
round_eq :
    (fuel : ℕ) (reject : Bool) (text rest : Bytes) (out ids : List Bytes)
    → is_empty text ≡ false
    → parse_identifiers (suc fuel) text out reject ≡ ok (ids, rest)
    → (is_empty (span is_identifier_char text).0 ≡ false)
      × (has_leading_zero reject (span is_identifier_char text).0 ≡ false)
      × (after_identifier
            (λ cs. parse_identifiers fuel cs (out ++ (span is_identifier_char text).0 ∷ []) reject)
            (out ++ (span is_identifier_char text).0 ∷ [])
            (span is_identifier_char text).1
          ≡ ok (ids, rest))
unfolding parse_identifiers
round_eq fuel reject text rest out ids n e = ground arith

join_more :
    (front tail cs rest id : Bytes) (ids : List Bytes)
    → tail ≡ b'.' ∷ cs
    → cs ≡ join_identifiers (id ∷ ids) ++ rest
    → front ++ tail ≡ join_identifiers (front ∷ id ∷ ids) ++ rest
unfolding join_identifiers
join_more front tail cs rest id ids dot printed =
    ap (λ t. front ++ t) (dot ∙ ap (λ t. b'.' ∷ t) printed) ∙ sym (append_assoc front _ rest)

pub parse_identifiers-Reads :
    (fuel : ℕ) (reject : Bool) (text rest : Bytes) (out ids : List Bytes)
    → is_empty text ≡ false
    → parse_identifiers fuel text out reject ≡ ok (ids, rest)
    → Reads reject text out ids rest
parse_identifiers-Reads zero reject text rest out ids n e = unfold parse_identifiers in cc e
parse_identifiers-Reads (suc fuel) reject text rest out ids n e =
    let parts = span_parts is_identifier_char text in
    let front = (span is_identifier_char text).0 in
    let tail = (span is_identifier_char text).1 in
    let step = round_eq fuel reject text rest out ids n e in
    let v : IsIdentifier reject (span is_identifier_char text).0 = record {
      chars = parts.1;
      some_char = step.0;
      no_zero = step.1;
    } in
    subst (λ t. Reads reject t out ids rest) (sym parts.0)
      (elim (after_cases _ _ ids tail rest parts.2 step.2) [
        | inl (same, ends, last) ↦ record {
          first = front;
          others = [];
          read = same;
          valid = (v, tt);
          printed = unfold join_identifiers in ap (λ t. front ++ t) ends;
          ended = last;
        }
        | inr (cs, dot, some_cs, more) ↦
            let r =
              parse_identifiers-Reads fuel reject cs rest (out ++ front ∷ []) ids some_cs more in
            record {
              first = front;
              others = r.first ∷ r.others;
              read = r.read ∙ append_assoc out (front ∷ []) (r.first ∷ r.others);
              valid = (v, r.valid);
              printed = join_more front tail cs rest r.first r.others dot r.printed;
              ended = r.ended;
            }
      ])
