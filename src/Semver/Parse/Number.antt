-- ===== src/Semver/Parse/Number.antt =====
-- The numbers of a version (`parseNumber`): they are read exactly as they are printed.
use vxx.Prelude.{
  ℕ, zero, suc, ◌+◌, ◌-◌, ◌*◌, ◌/◌, ◌%◌, ◌≤◌, ◌<◌, ◌≡◌, refl, sym, ap, ◌∙◌, true, false, ◌&&◌, [],
  ◌∷◌, ◌++◌, ltb, length, arith, append_assoc, append-nil, Bool-cases, inl, inr,
}
use vxx.Prelude.Bytes.{Bytes, span, AllPass, Stops, span-append, span_parts, AllPass-append}
use vxx.Semver.Types.{ok, ◌>>=◌, int_max, >>=-eq-ok}
use vxx.Semver.Compare.{is_ascii_digit, is_empty}
use vxx.Semver.Parse.{
  accumulate, starts_with_zero, number_value, parse_number, decimal_fuel, decimal,
}

decimal_fuel-eq : (f g n : ℕ) → n < f → n < g → decimal_fuel f n ≡ decimal_fuel g n
unfolding decimal_fuel
decimal_fuel-eq zero g n h k = absurd (omega arith)
decimal_fuel-eq (suc f) zero n h k = absurd (omega arith)
decimal_fuel-eq (suc f) (suc g) n h k = elim (Bool-cases (ltb n 10)) [
  | inl small ↦ rw small refl
  | inr large ↦ rw (large, decimal_fuel-eq f g (n / 10) (ground arith) (ground arith)) refl
]

decimal_small : (d : ℕ) → d < 10 → decimal d ≡ (b'0' + d) ∷ []
unfolding decimal decimal_fuel
decimal_small d h = ground arith

decimal_large : (n : ℕ) → 10 ≤ n → decimal n ≡ decimal (n / 10) ++ (b'0' + n % 10) ∷ []
unfolding decimal
decimal_large n h =
    rw (decimal_fuel-eq (suc (n / 10)) n (n / 10) (omega arith) (omega arith))
      (unfold decimal_fuel in ground arith)

decimal-snoc : (p d : ℕ) → 0 < p → d < 10 → decimal (p * 10 + d) ≡ decimal p ++ (b'0' + d) ∷ []
decimal-snoc p d h k =
    let whole : (p * 10 + d) / 10 ≡ p = omega arith in
    let digit : (p * 10 + d) % 10 ≡ d = omega arith in
    decimal_large (p * 10 + d) (omega arith) ∙ rw (whole, digit) refl

accumulate-append :
    (p : ℕ) (xs ys : Bytes) → accumulate p (xs ++ ys) ≡ accumulate p xs >>= λ q. accumulate q ys
unfolding accumulate
accumulate-append p [] ys = refl
accumulate-append p (x ∷ xs) ys = elim (Bool-cases (ltb int_max (p * 10 + (x - b'0')))) [
  | inl over ↦ rw over refl
  | inr fits ↦ rw fits (accumulate-append (p * 10 + (x - b'0')) xs ys)
]

accumulate_one : (q d : ℕ) → q * 10 + d ≤ int_max → accumulate q ((b'0' + d) ∷ []) ≡ ok (q * 10 + d)
unfolding accumulate
accumulate_one q d h = ground arith

accumulate-decimal_fuel : (f n : ℕ) → n < f → n ≤ int_max → accumulate 0 (decimal n) ≡ ok n
accumulate-decimal_fuel zero n h k = absurd (omega arith)
accumulate-decimal_fuel (suc f) n h k = elim (Bool-cases (ltb n 10)) [
  | inl small ↦
      rw (decimal_small n (ground arith)) (accumulate_one 0 n (omega arith) ∙ ap ok (omega arith))
  | inr large ↦
      rw
        (
          decimal_large n (ground arith),
          accumulate-append 0 (decimal (n / 10)) ((b'0' + n % 10) ∷ []),
          accumulate-decimal_fuel f (n / 10) (ground arith) (ground arith),
        )
        (accumulate_one (n / 10) (n % 10) (ground arith) ∙ ap ok (omega arith))
]

-- The digits of a number that fits in an `int` are read back.
accumulate-decimal : (n : ℕ) → n ≤ int_max → accumulate 0 (decimal n) ≡ ok n
accumulate-decimal n h = accumulate-decimal_fuel (suc n) n (omega arith) h

is_digit_bounds : (c : ℕ) → is_ascii_digit c ≡ true → (b'0' ≤ c) × (c < b'0' + 10)
unfolding is_ascii_digit
is_digit_bounds c h = ground arith

-- What is read behind a positive number extends its digits.
accumulate_digits :
    (p n : ℕ) (ds : Bytes)
    → 0 < p
    → p ≤ int_max
    → AllPass is_ascii_digit ds
    → accumulate p ds ≡ ok n
    → (decimal n ≡ decimal p ++ ds) × (n ≤ int_max)
unfolding accumulate
accumulate_digits p n [] h k a e =
    let same_n : p ≡ n = cc in (rw append-nil (ap decimal (sym same_n)), omega arith)
accumulate_digits p n (c ∷ ds) h k a e = elim (Bool-cases (ltb int_max (p * 10 + (c - b'0')))) [
  | inl over ↦ absurd (grind arith)
  | inr fits ↦
      let bounds = is_digit_bounds c a.0 in
      let more =
        accumulate_digits (p * 10 + (c - b'0')) n ds (omega arith) (ground arith) a.1
          (rw fits at e) in
      let back : b'0' + (c - b'0') ≡ c = omega arith in
      (
        more.0
            ∙ rw (decimal-snoc p (c - b'0') h (omega arith), back)
                (append_assoc (decimal p) (c ∷ []) ds),
        more.1,
      )
]

-- The digits of a number are digits, with no zero in front of a longer one.
pub record IsNumeral (ds : Bytes) : Type 0 where
  pub digits : AllPass is_ascii_digit ds
  pub some_digit : is_empty ds ≡ false
  pub no_zero : ltb 1 (length ds) && starts_with_zero ds ≡ false

starts_with_zero-append :
    (xs ys : Bytes) → is_empty xs ≡ false → starts_with_zero (xs ++ ys) ≡ starts_with_zero xs
starts_with_zero-append [] ys h = cc
starts_with_zero-append (x ∷ xs) ys h = refl

is_empty-append : (xs ys : Bytes) → is_empty xs ≡ false → is_empty (xs ++ ys) ≡ false
is_empty-append [] ys h = cc
is_empty-append (x ∷ xs) ys h = refl

digit_passes : (d : ℕ) → d < 10 → is_ascii_digit (b'0' + d) ≡ true
unfolding is_ascii_digit
digit_passes d h = ground arith

decimal_shape :
    (f n : ℕ)
    → n < f
    → AllPass is_ascii_digit (decimal n)
      × (is_empty (decimal n) ≡ false)
      × (0 < n → starts_with_zero (decimal n) ≡ false)
decimal_shape zero n h = absurd (omega arith)
decimal_shape (suc f) n h = elim (Bool-cases (ltb n 10)) [
  | inl small ↦
      rw (decimal_small n (ground arith))
        ((digit_passes n (ground arith), tt), refl, λ pos_n. ground arith)
  | inr large ↦
      let shape = decimal_shape f (n / 10) (ground arith) in
      rw (decimal_large n (ground arith)) (
        AllPass-append is_ascii_digit (decimal (n / 10)) _ shape.0
            (digit_passes (n % 10) (omega arith), tt),
        is_empty-append _ _ shape.1,
        λ pos_n. starts_with_zero-append _ _ shape.1 ∙ shape.2 (ground arith),
      )
]

decimal_no_zero : (n : ℕ) → ltb 1 (length (decimal n)) && starts_with_zero (decimal n) ≡ false
decimal_no_zero zero = rw (decimal_small 0 (omega arith)) refl
decimal_no_zero (suc n) =
    ground (arith, (decimal_shape (suc (suc n)) (suc n) (omega arith)).2 (omega arith))

pub decimal-IsNumeral : (n : ℕ) → IsNumeral (decimal n)
decimal-IsNumeral n =
    let shape = decimal_shape (suc n) n (omega arith) in
    record { digits = shape.0; some_digit = shape.1; no_zero = decimal_no_zero n }

-- A printed number is read back, with what follows it left over.
pub parse_number-decimal :
    (n : ℕ) (rest : Bytes)
    → n ≤ int_max
    → Stops is_ascii_digit rest
    → parse_number (decimal n ++ rest) ≡ ok (n, rest)
unfolding parse_number number_value
parse_number-decimal n rest h s =
    let numeral = decimal-IsNumeral n in
    rw
      (
        span-append is_ascii_digit (decimal n) rest numeral.digits s,
        numeral.some_digit,
        numeral.no_zero,
        accumulate-decimal n h,
      )
      refl

one_digit : (c : ℕ) → is_ascii_digit c ≡ true → decimal (c - b'0') ≡ c ∷ []
one_digit c h =
    let bounds = is_digit_bounds c h in
    let back : b'0' + (c - b'0') ≡ c = omega arith in
    decimal_small (c - b'0') (omega arith) ∙ ap (λ t. t ∷ []) back

number_value_digits :
    (ds : Bytes) (n : ℕ)
    → AllPass is_ascii_digit ds
    → number_value ds ≡ ok n
    → (decimal n ≡ ds) × (n ≤ int_max)
unfolding number_value accumulate
number_value_digits [] n a e = absurd (grind arith)
number_value_digits (c ∷ []) n a e =
    let bounds = is_digit_bounds c a.0 in
    let value : n ≡ c - b'0' = ground arith in (ap decimal value ∙ one_digit c a.0, omega arith)
number_value_digits (c ∷ d ∷ ds) n a e =
    let bounds = is_digit_bounds c a.0 in
    let positive : b'0' < c = ground arith in
    let read : accumulate (c - b'0') (d ∷ ds) ≡ ok n = ground arith in
    let more = accumulate_digits (c - b'0') n (d ∷ ds) (omega arith) (omega arith) a.1 read in
    (more.0 ∙ rw (one_digit c a.0) refl, more.1)

-- What is read as a number is its decimal form, followed by no further digit.
pub parse_number_digits :
    (text rest : Bytes) (n : ℕ)
    → parse_number text ≡ ok (n, rest)
    → (text ≡ decimal n ++ rest) × (n ≤ int_max) × Stops is_ascii_digit rest
unfolding parse_number
parse_number_digits text rest n e =
    let parts = span_parts is_ascii_digit text in
    let (value, read, pair) = >>=-eq-ok (number_value (span is_ascii_digit text).0) _ e in
    let digits = number_value_digits (span is_ascii_digit text).0 value parts.1 read in
    let same_value : value ≡ n = cc in
    let same_rest : (span is_ascii_digit text).1 ≡ rest = cc in
    (cc (parts.0, digits.0), rw same_value at (digits.1), rw same_rest at (parts.2))
