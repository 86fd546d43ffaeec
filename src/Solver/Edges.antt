-- ===== src/Solver/Edges.antt =====
-- src/core/package_solver.cpp: a resolved graph is in order, and every dependency is met.
pub mod Follows
mod Packages
use mathlib.Core.Path.{subst}
use vxx.Prelude.{
  ℕ, zero, suc, ◌≡◌, ◌∙◌, refl, sym, ap, inl, inr, Bool, false, Option, none, some, List, [], ◌∷◌,
  ◌++◌, length, length-append, get_elem?, get_elem?-lt, set, Bool-cases, arith,
}
use vxx.Prelude.Bytes.{Bytes, equal_iff}
use vxx.Solver.Types.{
  PackageDependencySpec, MaterializedPackageSource, ResolvedPackageDependency, SourceMetadata,
  Outcome, done, thrown, and_then, contains, World, Solver,
}
use vxx.Solver.Range.{validate_range, Satisfies, IfDone, validate_range-Satisfies}
use vxx.Solver.{
  is_before, is_conflict, with_range, enter, leave, resolved_of, resolve_all, merge, resolve_new,
  resolve_indexed, read_source_metadata, materialize_source, check_source, child_base,
  resolve_dependency, empty_solver, solve,
}
use vxx.Solver.Invariant.{
  IsIn, dependencies_in, dependencies_of, Meets, IsConsistent, SamePackage, Extends, Extends-refl,
  Extends-trans, Meets-extend, get_elem?-last, Extends-append, some-injective, length-set,
  Extends-set,
}
use vxx.Solver.Steps.{set-IsConsistent, enter-IsConsistent, leave-IsConsistent, leave-visiting}
use vxx.Solver.Edges.Follows.{SortKeeps, ResolvesAll, resolve_all-ResolvesAll}
use vxx.Solver.Edges.Packages.{resolve_dependency-Resolves}

module _ (world : World) where
  empty-IsConsistent : IsConsistent world empty_solver
  empty-IsConsistent = record {
    indexed = λ name i h. absurd (ground arith);
    unique = λ i p h. absurd (ground arith);
    edges = λ i p h d needed. absurd (ground arith);
    fresh = λ name h. refl;
  }

-- What a resolved graph is: each package stands once, behind all that the manifest of its source depends on; every
-- dependency, of a package or of the root, is met by the package of its name, with a version in its range.
abbrev pub IsResolved : World → List PackageDependencySpec → Outcome Solver → Type 0
IsResolved world dependencies (thrown e) = Unit
IsResolved world dependencies (done solver) =
    IsConsistent world solver
    × ((d : PackageDependencySpec)
        → IsIn d dependencies
        → Meets solver.ordered (length solver.ordered) d)

solved :
    (world : World) (dependencies : List PackageDependencySpec) (result : Outcome Solver)
    → SortKeeps world
    → ResolvesAll world empty_solver (world.sort_dependencies is_before dependencies) result
    → IsResolved world dependencies result
solved world dependencies (thrown e) sorts all = tt
solved world dependencies (done solver) sorts ((c, v, e), m) =
    (c, λ d h. m d (sorts dependencies d h))

-- If sorting drops no dependency and the solver does not throw, then in the order that it gives every package
-- stands once, under its name, behind the packages that its manifest depends on; each of these
-- dependencies, and each of the project's own, is met by the package of its name, with a version in the range
-- that it asks for.
pub solve-IsResolved :
    (world : World)
    (materializer : Option (PackageDependencySpec → Bytes → Option MaterializedPackageSource))
    (fuel : ℕ) (project_root name : Bytes) (dependencies : List PackageDependencySpec)
    → SortKeeps world
    → IsResolved world dependencies (solve world materializer fuel project_root name dependencies)
unfolding solve
solve-IsResolved world materializer fuel project_root name dependencies sorts =
    solved world dependencies
      (resolve_all (resolve_dependency world materializer fuel project_root name)
        (world.sort_dependencies is_before dependencies) empty_solver)
      sorts
      (resolve_all-ResolvesAll world (resolve_dependency world materializer fuel project_root name)
        (λ d s c. resolve_dependency-Resolves world sorts materializer fuel project_root name d s c)
        (world.sort_dependencies is_before dependencies) empty_solver (empty-IsConsistent world))
