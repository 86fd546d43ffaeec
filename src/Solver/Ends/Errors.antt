-- ===== src/Solver/Ends/Errors.antt =====
-- src/core/package_solver.cpp: no step but the recursion uses up fuel.
use vxx.Prelude.{Bool, true, false, not, ◌&&◌, Option, none, some, if◌then◌else◌}
use vxx.Prelude.Bytes.{Bytes}
use vxx.Solver.Types.{
  PackageSourceKind, path_source, git_source, registry_source, PackageDependencySpec,
  MaterializedPackageSource, ManifestFile, absent, unreadable, contents, out_of_fuel, Outcome, done,
  thrown, World,
}
use vxx.Semver.Types.{SemanticVersion, VersionRange, Result, ok, err}
use vxx.Semver.Parse.{parse}
use vxx.Semver.Range.{parse_range, matches}
use vxx.Solver.Range.{validate_range, validate_parsed}
use vxx.Solver.{
  read_source_metadata, local_source, or_failed, materialize_source, check_source, local_metadata,
  of_manifest,
}

unfoldable pub NoFuel : {A : Type 0} → Outcome A → Type 0
NoFuel (done a) = Unit
NoFuel (thrown out_of_fuel) = ⊥
NoFuel (thrown _) = Unit

if-NoFuel :
    {A : Type 0} (test : Bool) (yes_case no_case : Outcome A)
    → NoFuel yes_case
    → NoFuel no_case
    → NoFuel (if test then yes_case else no_case)
if-NoFuel true yes_case no_case h k = h
if-NoFuel false yes_case no_case h k = k

module _ (world : World) where
  or_failed-NoFuel : (found : Option MaterializedPackageSource) → NoFuel (or_failed world found)
  unfolding NoFuel
  or_failed-NoFuel none = tt
  or_failed-NoFuel (some materialized) = tt

  local_source-NoFuel :
      (d : PackageDependencySpec) (declaring_root : Bytes) (kind : PackageSourceKind)
      → NoFuel (local_source world d declaring_root kind)
  unfolding NoFuel local_source
  local_source-NoFuel d declaring_root path_source = tt
  local_source-NoFuel d declaring_root git_source = tt
  local_source-NoFuel d declaring_root registry_source = tt

  pub materialize_source-NoFuel :
      (materializer : Option (PackageDependencySpec → Bytes → Option MaterializedPackageSource))
      (d : PackageDependencySpec) (declaring_root : Bytes)
      → NoFuel (materialize_source world materializer d declaring_root)
  unfolding materialize_source
  materialize_source-NoFuel (some materializer) d declaring_root =
      or_failed-NoFuel (materializer d declaring_root)
  materialize_source-NoFuel none d declaring_root =
      local_source-NoFuel d declaring_root d.source_kind

  pub check_source-NoFuel :
      (materialized : MaterializedPackageSource) → NoFuel (check_source world materialized)
  unfolding check_source NoFuel
  check_source-NoFuel materialized = if-NoFuel (not (world.exists materialized.path)) _ _ tt (
      if-NoFuel
        (not (world.is_directory materialized.path)
          && not (world.is_regular_file materialized.path))
        _ _ tt tt)

  of_manifest-NoFuel : (file : ManifestFile) → NoFuel (of_manifest world local_metadata file)
  unfolding NoFuel
  of_manifest-NoFuel absent = tt
  of_manifest-NoFuel unreadable = tt
  of_manifest-NoFuel (contents metadata) = tt

  pub read_source_metadata-NoFuel : (path : Bytes) → NoFuel (read_source_metadata world path)
  unfolding read_source_metadata NoFuel
  read_source_metadata-NoFuel path =
      if-NoFuel (world.is_directory path) _ _ (of_manifest-NoFuel (world.manifest_file path)) tt

  validate_parsed-NoFuel :
      (range : Result VersionRange) (version : Result SemanticVersion)
      → NoFuel (validate_parsed range version)
  unfolding NoFuel
  validate_parsed-NoFuel (err e) version = tt
  validate_parsed-NoFuel (ok range) (err e) = tt
  validate_parsed-NoFuel (ok range) (ok version) = if-NoFuel (matches range version) _ _ tt tt

  pub validate_range-NoFuel :
      (name requester range version : Bytes) → NoFuel (validate_range name requester range version)
  unfolding validate_range
  validate_range-NoFuel name requester range version =
      validate_parsed-NoFuel (parse_range range) (parse version)
