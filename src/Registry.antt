-- ===== src/Registry.antt =====
-- src/core/package_source.cpp: `materializeRegistrySource`, the choice of a version in a registry.
-- The entries of a directory come in an order that the file system gives.
pub mod Scan
pub mod Selection
mod Tests
use vxx.Prelude.{Bool, true, false, not, ◌||◌, Option, none, some, List, [], ◌∷◌, if◌then◌else◌}
use vxx.Prelude.Order.{Ordering}
use vxx.Prelude.Bytes.{Bytes, equal}
use vxx.Semver.Types.{SemanticVersion, VersionRange, SemverError, Result, ok, err}
use vxx.Semver.Compare.{compare_semantic_version}
use vxx.Semver.Parse.{parse}
use vxx.Semver.Range.{parse_range, matches}

-- What is read of a manifest here.
pub record ProjectManifest : Type 0 where
  pub name : Bytes
  pub version : Bytes

-- A manifest file that is absent, one that `readProjectManifest` throws on, or its contents.
pub data ManifestFile : Type 0 where
  absent unreadable : ManifestFile
  contents : ProjectManifest → ManifestFile

pub record DirectoryEntry : Type 0 where
  pub is_directory : Bool
  pub filename : Bytes
  pub path : Bytes
  pub manifest_file : ManifestFile

pub record RegistryCandidate : Type 0 where
  pub version : SemanticVersion
  pub version_text : Bytes
  pub path : Bytes

pub data RegistryError : Type 0 where
  package_missing version_missing manifest_unreadable : RegistryError
  range_invalid : SemverError → RegistryError
  manifest_missing metadata_mismatch : Bytes → RegistryError

pub data Outcome (A : Type 0) : Type 0 where
  done : A → Outcome A
  thrown : RegistryError → Outcome A

-- ordering > 0
is_greater : Ordering → Bool
is_greater Ordering.lt = false
is_greater Ordering.eq = false
is_greater Ordering.gt = true

is_better : SemanticVersion → Option RegistryCandidate → Bool
is_better version none = true
is_better version (some selected) = is_greater (compare_semantic_version version selected.version)

pub replace : DirectoryEntry → SemanticVersion → Option RegistryCandidate → Option RegistryCandidate
replace entry version selected =
    if is_better version selected
    then some (record { version = version; version_text = entry.filename; path = entry.path })
    else selected

check_manifest :
    Bytes
    → DirectoryEntry
    → SemanticVersion
    → ManifestFile
    → Option RegistryCandidate
    → Outcome (Option RegistryCandidate)
check_manifest name entry version absent selected = thrown (manifest_missing entry.filename)
check_manifest name entry version unreadable selected = thrown manifest_unreadable
check_manifest name entry version (contents manifest) selected =
    if not (equal manifest.name name) || not (equal manifest.version entry.filename)
    then thrown (metadata_mismatch entry.filename)
    else done (replace entry version selected)

with_version :
    Bytes
    → VersionRange
    → DirectoryEntry
    → Result SemanticVersion
    → Option RegistryCandidate
    → Outcome (Option RegistryCandidate)
with_version name range entry (err e) selected = done selected
with_version name range entry (ok version) selected =
    if not (matches range version)
    then done selected
    else check_manifest name entry version entry.manifest_file selected

-- The body of the loop.
consider :
    Bytes
    → VersionRange
    → DirectoryEntry
    → Option RegistryCandidate
    → Outcome (Option RegistryCandidate)
consider name range entry selected =
    if not entry.is_directory
    then done selected
    else with_version name range entry (parse entry.filename) selected

pub and_on :
    Outcome (Option RegistryCandidate)
    → (Option RegistryCandidate → Outcome (Option RegistryCandidate))
    → Outcome (Option RegistryCandidate)
and_on (done selected) rest = rest selected
and_on (thrown e) rest = thrown e

pub scan :
    Bytes
    → VersionRange
    → List DirectoryEntry
    → Option RegistryCandidate
    → Outcome (Option RegistryCandidate)
scan name range [] selected = done selected
scan name range (entry ∷ entries) selected =
    and_on (consider name range entry selected) (λ next. scan name range entries next)

pub chosen : Outcome (Option RegistryCandidate) → Outcome RegistryCandidate
chosen (thrown e) = thrown e
chosen (done none) = thrown version_missing
chosen (done (some selected)) = done selected

in_range : Bytes → Result VersionRange → List DirectoryEntry → Outcome RegistryCandidate
in_range name (err e) entries = thrown (range_invalid e)
in_range name (ok range) entries = chosen (scan name range entries none)

-- `none` stands for a package with no directory in the registry.
pub materialize_registry : Bytes → Bytes → Option (List DirectoryEntry) → Outcome RegistryCandidate
materialize_registry name version_range none = thrown package_missing
materialize_registry name version_range (some entries) =
    in_range name (parse_range version_range) entries
