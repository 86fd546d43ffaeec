-- ===== src/Solver.antt =====
-- src/core/package_solver.cpp: the graph of the resolved packages.
pub mod Types
pub mod Range
pub mod Invariant
pub mod Steps
pub mod Edges
pub mod Ends
mod Tests
use vxx.Prelude.{
  ℕ, zero, suc, Bool, true, false, not, ◌&&◌, ◌||◌, Option, none, some, List, [], ◌∷◌, ◌++◌, length,
  get_elem?, set, if◌then◌else◌,
}
use vxx.Prelude.Bytes.{codes, Bytes, equal, less}
use vxx.Solver.Types.{
  PackageSourceKind, path_source, git_source, registry_source, PackageDependencySpec,
  MaterializedPackageSource, ResolvedPackageDependency, SourceMetadata, ManifestFile, absent,
  unreadable, contents, SolverError, transport_unsupported, source_missing, source_invalid,
  manifest_unreadable, materializer_failed, resolved_conflict, dependency_cycle, undefined_index,
  out_of_fuel, Outcome, done, thrown, and_then, contains, World, Solver,
}
use vxx.Solver.Range.{validate_range}

-- The comparison of `sortDependencies`.
pub is_before : PackageDependencySpec → PackageDependencySpec → Bool
is_before left right =
    if not (equal left.name right.name)
    then less left.name right.name
    else if not (equal left.version_range right.version_range)
    then less left.version_range right.version_range
    else less left.location right.location

-- joinCycle: the names that it joins by arrows
pub join_cycle : List Bytes → Bytes → List Bytes
join_cycle [] name = name ∷ []
join_cycle (item ∷ stack) name =
    let rest = join_cycle stack name in
    if equal item name then item ∷ (stack ++ (name ∷ [])) else rest

-- visiting_.erase(name), where no name stands twice
abbrev pub erase : Bytes → List Bytes → List Bytes
erase name [] = []
erase name (item ∷ items) =
    let rest = erase name items in if equal name item then items else item ∷ rest

abbrev update : (Bytes → Option ℕ) → Bytes → ℕ → Bytes → Option ℕ
update index name i key = if equal name key then some i else index key

-- The members' initial values.
abbrev pub local_metadata : SourceMetadata
local_metadata = record { version = codes "0.0.0+local"; dependencies = [] }

pub is_conflict : ResolvedPackageDependency → MaterializedPackageSource → SourceMetadata → Bool
is_conflict resolved materialized metadata =
    not (equal resolved.resolved_location materialized.resolved_location)
    || not (equal resolved.source_revision materialized.revision)
    || not (equal resolved.version metadata.version)

pub enter : Bytes → Solver → Solver
enter name solver = record solver {
  visiting = name ∷ solver.visiting;
  stack = solver.stack ++ (name ∷ []);
}

abbrev pop_back : List Bytes → List Bytes
pop_back [] = []
pop_back (name ∷ []) = []
pop_back (name ∷ other ∷ names) = name ∷ pop_back (other ∷ names)

abbrev pub resolved_of :
    PackageDependencySpec → MaterializedPackageSource → SourceMetadata → ResolvedPackageDependency
resolved_of dependency materialized metadata = record {
  name = dependency.name;
  version = metadata.version;
  source_kind = dependency.source_kind;
  declared_location = dependency.location;
  source_path = materialized.path;
  resolved_location = materialized.resolved_location;
  source_revision = materialized.revision;
  requested_ranges = dependency.version_range ∷ [];
}

-- What follows the children.
pub leave : ResolvedPackageDependency → Solver → Solver
leave resolved solver = record {
  ordered = solver.ordered ++ (resolved ∷ []);
  index_by_name = update solver.index_by_name resolved.name (length solver.ordered);
  visiting = erase resolved.name solver.visiting;
  stack = pop_back solver.stack;
}

unfoldable pub resolve_all :
    (PackageDependencySpec → Solver → Outcome Solver)
    → List PackageDependencySpec
    → Solver
    → Outcome Solver
resolve_all resolve [] solver = done solver
resolve_all resolve (dependency ∷ dependencies) solver =
    and_then (resolve dependency solver) (λ next. resolve_all resolve dependencies next)

-- The members before the first dependency.
abbrev pub empty_solver : Solver
empty_solver = record { ordered = []; index_by_name = λ name. none; visiting = []; stack = [] }

module _ (world : World) where
  -- Without a materializer only a path is resolved.
  pub local_source :
      PackageDependencySpec → Bytes → PackageSourceKind → Outcome MaterializedPackageSource
  local_source dependency declaring_root path_source =
      let path = world.absolute_lexical declaring_root dependency.location in
      done (record { path = path; revision = []; resolved_location = world.generic_u8string path })
  local_source dependency declaring_root _ = thrown transport_unsupported

  -- What a materializer gives, or throws.
  abbrev pub or_failed : Option MaterializedPackageSource → Outcome MaterializedPackageSource
  or_failed none = thrown materializer_failed
  or_failed (some materialized) = done materialized

  pub materialize_source :
      Option (PackageDependencySpec → Bytes → Option MaterializedPackageSource)
      → PackageDependencySpec
      → Bytes
      → Outcome MaterializedPackageSource
  materialize_source (some materializer) dependency declaring_root =
      or_failed (materializer dependency declaring_root)
  materialize_source none dependency declaring_root =
      local_source dependency declaring_root dependency.source_kind

  pub check_source : MaterializedPackageSource → Outcome MaterializedPackageSource
  check_source materialized =
      if not (world.exists materialized.path)
      then thrown source_missing
      else if not (world.is_directory materialized.path)
          && not (world.is_regular_file materialized.path)
      then thrown source_invalid
      else done materialized

  abbrev pub of_manifest : SourceMetadata → ManifestFile → Outcome SourceMetadata
  of_manifest local absent = done local
  of_manifest local unreadable = thrown manifest_unreadable
  of_manifest local (contents metadata) = done metadata

  -- readSourceMetadata
  unfoldable pub read_source_metadata : Bytes → Outcome SourceMetadata
  read_source_metadata source_path =
      if world.is_directory source_path
      then of_manifest local_metadata (world.manifest_file source_path)
      else done local_metadata

  -- The range joins the requested ones.
  pub with_range : Bytes → ResolvedPackageDependency → ResolvedPackageDependency
  with_range range resolved = record resolved {
    requested_ranges =
        if contains range resolved.requested_ranges
        then resolved.requested_ranges
        else world.sort_texts less (resolved.requested_ranges ++ (range ∷ []));
  }

  -- A package that is resolved already.
  abbrev pub merge :
      PackageDependencySpec
      → MaterializedPackageSource
      → SourceMetadata
      → ℕ
      → Option ResolvedPackageDependency
      → Solver
      → Outcome Solver
  merge dependency materialized metadata i none solver = thrown undefined_index
  merge dependency materialized metadata i (some resolved) solver =
      if is_conflict resolved materialized metadata
      then thrown resolved_conflict
      else done (record solver {
        ordered = set solver.ordered i (with_range dependency.version_range resolved);
      })

  -- A package that is not resolved yet.
  abbrev pub resolve_new :
      (PackageDependencySpec → Solver → Outcome Solver)
      → PackageDependencySpec
      → MaterializedPackageSource
      → SourceMetadata
      → Solver
      → Outcome Solver
  resolve_new resolve dependency materialized metadata solver =
      let rest =
        and_then
          (resolve_all resolve (world.sort_dependencies is_before metadata.dependencies)
            (enter dependency.name solver))
          (λ next. done (leave (resolved_of dependency materialized metadata) next)) in
      if contains dependency.name solver.visiting
      then thrown (dependency_cycle (join_cycle solver.stack dependency.name))
      else rest

  abbrev pub resolve_indexed :
      (PackageDependencySpec → Solver → Outcome Solver)
      → PackageDependencySpec
      → MaterializedPackageSource
      → SourceMetadata
      → Solver
      → Option ℕ
      → Outcome Solver
  resolve_indexed resolve dependency materialized metadata solver (some i) =
      merge dependency materialized metadata i (get_elem? solver.ordered i) solver
  resolve_indexed resolve dependency materialized metadata solver none =
      resolve_new resolve dependency materialized metadata solver

  abbrev pub child_base : Bytes → Bytes
  child_base source_path =
      if world.is_directory source_path then source_path else world.parent_path source_path

  -- resolveDependency, with fuel for the depth
  unfoldable pub resolve_dependency :
      Option (PackageDependencySpec → Bytes → Option MaterializedPackageSource)
      → ℕ
      → Bytes
      → Bytes
      → PackageDependencySpec
      → Solver
      → Outcome Solver
  resolve_dependency materializer zero declaring_root requester dependency solver =
      thrown out_of_fuel
  resolve_dependency materializer (suc fuel) declaring_root requester dependency solver =
      and_then (materialize_source materializer dependency declaring_root) (λ found.
        and_then (check_source found) (λ materialized.
          and_then (read_source_metadata materialized.path) (λ metadata.
            and_then
              (validate_range dependency.name requester dependency.version_range metadata.version)
              (λ valid.
                resolve_indexed
                  (resolve_dependency materializer fuel (child_base materialized.path)
                    dependency.name)
                  dependency materialized metadata solver (solver.index_by_name dependency.name)))))

  -- Solver::solve, for the dependencies and the name of a manifest
  unfoldable pub solve :
      Option (PackageDependencySpec → Bytes → Option MaterializedPackageSource)
      → ℕ
      → Bytes
      → Bytes
      → List PackageDependencySpec
      → Outcome Solver
  solve materializer fuel project_root name dependencies =
      resolve_all (resolve_dependency materializer fuel project_root name)
        (world.sort_dependencies is_before dependencies) empty_solver
