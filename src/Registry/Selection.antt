-- ===== src/Registry/Selection.antt =====
-- Which version the registry gives.
use mathlib.Core.Path.{subst}
use vxx.Prelude.{◌≡◌, ◌≢◌, refl, inl, inr, ap, true, Option, none, some, List, arith, Bool-cases}
use vxx.Prelude.Order.{Ordering}
use vxx.Prelude.Bytes.{Bytes}
use vxx.Semver.Types.{SemanticVersion, VersionRange, ok}
use vxx.Semver.Compare.{compare_semantic_version}
use vxx.Semver.Parse.{parse}
use vxx.Semver.Range.{parse_range, matches}
use vxx.Registry.{
  DirectoryEntry, RegistryCandidate, Outcome, done, thrown, is_better, replace, scan, chosen,
  in_range, materialize_registry,
}
use vxx.Registry.Scan.{Among, AtLeast, OnDone, scan-OnDone, scan-AtLeast}

abbrev value_of : RegistryCandidate → Outcome RegistryCandidate → RegistryCandidate
value_of default (done c) = c
value_of default (thrown e) = default

-- What a chosen candidate satisfies, from what the scan gives.
chosen-OnDone :
    (P : Option RegistryCandidate → Type 0) (result : Outcome (Option RegistryCandidate))
    (c : RegistryCandidate)
    → OnDone P result
    → chosen result ≡ done c
    → P (some c)
unfolding chosen
chosen-OnDone P (done none) c h e = absurd (ground arith)
chosen-OnDone P (done (some selected)) c h e = subst (λ x. P (some x)) (ap (value_of selected) e) h
chosen-OnDone P (thrown error) c h e = absurd (ground arith)

-- The registry gives a greatest version: no directory of the package whose name is a version in the
-- range has a version above the chosen one in the precedence order.
pub materialize_registry-greatest :
    (name version_range : Bytes) (entries : List DirectoryEntry) (c : RegistryCandidate)
    (range : VersionRange) (entry : DirectoryEntry) (v : SemanticVersion)
    → materialize_registry name version_range (some entries) ≡ done c
    → parse_range version_range ≡ ok range
    → Among entry entries
    → entry.is_directory ≡ true
    → parse entry.filename ≡ ok v
    → matches range v ≡ true
    → compare_semantic_version v c.version ≢ Ordering.gt
unfolding materialize_registry in_range
materialize_registry-greatest name version_range entries c range entry v h r among d e m =
    let chose : chosen (scan name range entries none) ≡ done c = rw r at h in
    chosen-OnDone (AtLeast v) (scan name range entries none) c
      (scan-AtLeast name range entries none entry v among d e m) chose

-- A directory of the package whose name reads as the version of the candidate, which is in the range.
abbrev pub IsEntryOf : List DirectoryEntry → VersionRange → RegistryCandidate → Type 0
IsEntryOf entries range c =
    (entry : DirectoryEntry) × Among entry entries
    × (entry.is_directory ≡ true)
    × (entry.filename ≡ c.version_text)
    × (entry.path ≡ c.path)
    × (parse c.version_text ≡ ok c.version)
    × (matches range c.version ≡ true)

abbrev FromEntry : List DirectoryEntry → VersionRange → Option RegistryCandidate → Type 0
FromEntry entries range none = Unit
FromEntry entries range (some c) = IsEntryOf entries range c

replace-FromEntry :
    (range : VersionRange) (entries : List DirectoryEntry) (entry : DirectoryEntry)
    (w : SemanticVersion) (before : Option RegistryCandidate)
    → Among entry entries
    → entry.is_directory ≡ true
    → parse entry.filename ≡ ok w
    → matches range w ≡ true
    → FromEntry entries range before
    → FromEntry entries range (replace entry w before)
unfolding replace
replace-FromEntry range entries entry w before among d e m h =
    elim (Bool-cases (is_better w before)) [
      | inl better ↦ rw better (entry, among, d, refl, refl, e, m)
      | inr other ↦ rw other h
    ]

-- The registry gives one of the directories of the package: its name is the text of the chosen
-- version, reads as that version, and the version is in the range that was asked for.
pub materialize_registry-IsEntryOf :
    (name version_range : Bytes) (entries : List DirectoryEntry) (c : RegistryCandidate)
    (range : VersionRange)
    → materialize_registry name version_range (some entries) ≡ done c
    → parse_range version_range ≡ ok range
    → IsEntryOf entries range c
unfolding materialize_registry in_range
materialize_registry-IsEntryOf name version_range entries c range h r =
    let chose : chosen (scan name range entries none) ≡ done c = rw r at h in
    chosen-OnDone (FromEntry entries range) (scan name range entries none) c
      (scan-OnDone name range (FromEntry entries range) entries none tt
        (λ entry w before among d e m h.
          replace-FromEntry range entries entry w before among d e m h))
      chose
