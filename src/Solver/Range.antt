-- ===== src/Solver/Range.antt =====
-- src/core/package_solver.cpp: `validateRange`.
use vxx.Prelude.{◌≡◌, refl, Bool, true, if◌then◌else◌, Bool-cases, inl, inr}
use vxx.Prelude.Bytes.{Bytes}
use vxx.Semver.Types.{SemanticVersion, VersionRange, Result, ok, err}
use vxx.Semver.Parse.{parse}
use vxx.Semver.Range.{parse_range, matches}
use vxx.Solver.Types.{range_invalid, version_invalid, version_conflict, Outcome, done, thrown}

abbrev pub validate_match : VersionRange → SemanticVersion → Outcome Bool
validate_match range version = if matches range version then done true else thrown version_conflict

abbrev pub validate_version : VersionRange → Result SemanticVersion → Outcome Bool
validate_version range (err e) = thrown (version_invalid e)
validate_version range (ok version) = validate_match range version

abbrev pub validate_parsed : Result VersionRange → Result SemanticVersion → Outcome Bool
validate_parsed (err e) version = thrown (range_invalid e)
validate_parsed (ok range) version = validate_version range version

-- The messages name the package and the requester.
unfoldable pub validate_range : Bytes → Bytes → Bytes → Bytes → Outcome Bool
validate_range name requester range_text version_text =
    validate_parsed (parse_range range_text) (parse version_text)

-- The text of a version is in the range that the other text gives.
pub record Satisfies (range_text version_text : Bytes) : Type 0 where
  pub range : VersionRange
  pub version : SemanticVersion
  pub range_parsed : parse_range range_text ≡ ok range
  pub version_parsed : parse version_text ≡ ok version
  pub matched : matches range version ≡ true

abbrev pub IfDone : Outcome Bool → Type 0 → Type 0
IfDone (done b) T = T
IfDone (thrown e) T = Unit

satisfied :
    (range_text version_text : Bytes) (range : Result VersionRange)
    (version : Result SemanticVersion)
    → parse_range range_text ≡ range
    → parse version_text ≡ version
    → IfDone (validate_parsed range version) (Satisfies range_text version_text)
satisfied range_text version_text (err e) version same same' = tt
satisfied range_text version_text (ok range) (err e) same same' = tt
satisfied range_text version_text (ok range) (ok version) same same' =
    elim (Bool-cases (matches range version)) [
      | inl holds ↦ rw holds (record {
        range = range;
        version = version;
        range_parsed = same;
        version_parsed = same';
        matched = holds;
      })
      | inr fails ↦ rw fails tt
    ]

-- A range that is validated holds the version.
pub validate_range-Satisfies :
    (name requester range_text version_text : Bytes)
    → IfDone
        (validate_range name requester range_text version_text)
        (Satisfies range_text version_text)
unfolding validate_range
validate_range-Satisfies name requester range_text version_text =
    satisfied range_text version_text (parse_range range_text) (parse version_text) refl refl
