-- ===== src/Semver/Types.antt =====
-- src/include/vpp/core/semver.h: the data of the version layer, with the outcomes of its parsers.
use vxx.Prelude.{ℕ, ◌-◌, ◌^◌, List, Bool, ◌≡◌, ◌≢◌, refl}
use vxx.Prelude.Bytes.{Bytes}

-- The components are `int`; a parsed version and the bounds of a range never have negative ones.
pub record SemanticVersion : Type 0 where
  pub major : ℕ
  pub minor : ℕ
  pub patch : ℕ
  pub prerelease : List Bytes
  pub build : List Bytes

pub data VersionComparatorOperator : Type 0 where
  equal greater greater_or_equal less less_or_equal : VersionComparatorOperator

pub record VersionComparator : Type 0 where
  pub op : VersionComparatorOperator
  pub version : SemanticVersion

pub record VersionRange : Type 0 where
  pub any : Bool
  pub comparators : List VersionComparator

-- What ends a parser early: a message of the catalogue, `false` with no message written, a signed
-- addition past `INT_MAX` (undefined in C++), or the fuel of a loop of the model.
pub data SemverError : Type 0 where
  number_component_missing number_leading_zero number_out_of_range : SemverError
  identifier_invalid prerelease_leading_zero identifier_trailing_dot : SemverError
  semver_empty expected_core_format trailing_data_invalid : SemverError
  wildcard_must_stand_alone or_range_unsupported comparator_missing_version : SemverError
  no_message signed_overflow out_of_fuel : SemverError

pub data Result {ℓ} (V : Type ℓ) : Type ℓ where
  err : SemverError → Result V
  ok : V → Result V

-- The next step, on the value of the first.
infixl 5 ◌>>=◌
abbrev pub ◌>>=◌ {ℓ κ} : {V : Type ℓ} {W : Type κ} → Result V → (V → Result W) → Result W
err reason >>= step = err reason
ok value >>= step = step value

-- std::numeric_limits<int>::max()
abbrev pub int_max : ℕ
int_max = 2 ^ 31 - 1

module _ {ℓ κ} {V : Type ℓ} {W : Type κ} where
  -- Two steps that succeed together both do.
  pub >>=-eq-ok :
      (first : Result V) (step : V → Result W) {end : W}
      → (first >>= step) ≡ ok end
      → (value : V) × (first ≡ ok value) × (step value ≡ ok end)
  >>=-eq-ok (err reason) step together = cc
  >>=-eq-ok (ok value) step together = (value, refl, together)

  -- An error that neither of two steps gives is not given by both.
  pub >>=-ne-err :
      (first : Result V) (step : V → Result W) {reason : SemverError}
      → first ≢ err reason
      → ((value : V) → step value ≢ err reason)
      → (first >>= step) ≢ err reason
  >>=-ne-err (err other) step never nowhere together = never (cc together)
  >>=-ne-err (ok value) step never nowhere together = nowhere value together
