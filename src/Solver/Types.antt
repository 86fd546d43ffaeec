-- ===== src/Solver/Types.antt =====
-- src/include/vpp/core/package_manifest.h, package_source.h and package_solver.h: the data of the solver. A
-- `fs::path` is its bytes.
use vxx.Prelude.{ℕ, Bool, false, ◌||◌, Option, List, [], ◌∷◌}
use vxx.Prelude.Bytes.{Bytes, equal}
use vxx.Semver.Types.{SemverError}

pub data PackageSourceKind : Type 0 where
  path_source git_source registry_source : PackageSourceKind

pub record PackageDependencySpec : Type 0 where
  pub name : Bytes
  pub version_range : Bytes
  pub source_kind : PackageSourceKind
  pub location : Bytes
  pub reference : Bytes

pub record MaterializedPackageSource : Type 0 where
  pub path : Bytes
  pub revision : Bytes
  pub resolved_location : Bytes

pub record ResolvedPackageDependency : Type 0 where
  pub name : Bytes
  pub version : Bytes
  pub source_kind : PackageSourceKind
  pub declared_location : Bytes
  pub source_path : Bytes
  pub resolved_location : Bytes
  pub source_revision : Bytes
  pub requested_ranges : List Bytes

pub record SourceMetadata : Type 0 where
  pub version : Bytes
  pub dependencies : List PackageDependencySpec

-- The manifest of a directory: there is none, `readProjectManifest` throws, or what is read of it.
pub data ManifestFile : Type 0 where
  absent unreadable : ManifestFile
  contents : SourceMetadata → ManifestFile

-- The messages that are thrown. `materializer_failed` is what the materializer throws, and `undefined_index` an
-- index out of the ordered packages, which would be undefined.
pub data SolverError : Type 0 where
  range_invalid version_invalid : SemverError → SolverError
  version_conflict transport_unsupported source_missing source_invalid manifest_unreadable
        materializer_failed resolved_conflict undefined_index out_of_fuel :
      SolverError
  dependency_cycle : List Bytes → SolverError

pub data Outcome {ℓ} (A : Type ℓ) : Type ℓ where
  done : A → Outcome A
  thrown : SolverError → Outcome A

abbrev pub and_then {ℓ ℓ'} : {A : Type ℓ} {B : Type ℓ'} → Outcome A → (A → Outcome B) → Outcome B
and_then (done a) f = f a
and_then (thrown e) f = thrown e

-- std::find and count on names
abbrev pub contains : Bytes → List Bytes → Bool
contains name [] = false
contains name (item ∷ items) = equal name item || contains name items

-- The file system, which does not change while the solver runs, and `std::sort`.
pub record World : Type 0 where
  pub exists : Bytes → Bool
  pub is_directory : Bytes → Bool
  pub is_regular_file : Bytes → Bool
  pub parent_path : Bytes → Bytes
  pub absolute_lexical : Bytes → Bytes → Bytes
  pub generic_u8string : Bytes → Bytes
  pub manifest_file : Bytes → ManifestFile
  pub sort_dependencies :
      (PackageDependencySpec → PackageDependencySpec → Bool)
      → List PackageDependencySpec
      → List PackageDependencySpec
  pub sort_texts : (Bytes → Bytes → Bool) → List Bytes → List Bytes

-- The state of the class `Solver`.
pub record Solver : Type 0 where
  pub ordered : List ResolvedPackageDependency
  pub index_by_name : Bytes → Option ℕ
  pub visiting : List Bytes
  pub stack : List Bytes
