-- ===== src/Literal/Laws.antt =====
-- src/runtime/literal.cpp: cutting a text at a separator that does not stand in its first part.
use vxx.Prelude.{ℕ, ◌≡◌, refl, Bool, false, not, ◌==◌, some, [], ◌∷◌, ◌++◌, arith}
use vxx.Prelude.Bytes.{Bytes, AllPass}
use vxx.Literal.Decode.{split, cut}
use vxx.Literal.Wire.{record_separator, field_separator}
use vxx.Literal.Wire.RoundTrip.{is_clean}

abbrev pub without : ℕ → ℕ → Bool
without separator c = not (c == separator)

pub cut-append :
    (separator : ℕ) (front rest : Bytes)
    → AllPass (without separator) front
    → cut separator (front ++ (separator ∷ rest)) ≡ some (front, rest)
unfolding cut
cut-append separator [] rest clean = ground arith
cut-append separator (c ∷ front) rest (first, clean) =
    let other : (c == separator) ≡ false = ground arith in
    rw (other, cut-append separator front rest clean) refl

pub split-append :
    (separator : ℕ) (front rest : Bytes)
    → AllPass (without separator) front
    → split separator (front ++ (separator ∷ rest)) ≡ front ∷ split separator rest
unfolding split
split-append separator [] rest clean = ground arith
split-append separator (c ∷ front) rest (first, clean) =
    let other : (c == separator) ≡ false = ground arith in
    rw (other, split-append separator front rest clean) refl

pub split_all :
    (separator : ℕ) (front : Bytes)
    → AllPass (without separator) front
    → split separator (front ++ []) ≡ front ∷ []
unfolding split
split_all separator [] clean = refl
split_all separator (c ∷ front) (first, clean) =
    let other : (c == separator) ≡ false = ground arith in
    rw (other, split_all separator front clean) refl

-- What has neither separator is free of each of them.
pub AllPass-without_record :
    (text : Bytes) → AllPass is_clean text → AllPass (without record_separator) text
AllPass-without_record [] clean = tt
AllPass-without_record (c ∷ text) (first, clean) = (ground arith, AllPass-without_record text clean)

pub AllPass-without_field :
    (text : Bytes) → AllPass is_clean text → AllPass (without field_separator) text
AllPass-without_field [] clean = tt
AllPass-without_field (c ∷ text) (first, clean) = (ground arith, AllPass-without_field text clean)
