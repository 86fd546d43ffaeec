-- ===== src/Solver/Ends.antt =====
-- src/core/package_solver.cpp: the depth of the resolution is bounded by the names of the packages.
mod Names
mod Errors
use mathlib.Core.Path.{subst}
use vxx.Prelude.{
  ℕ, zero, suc, ◌+◌, ◌<◌, ◌≤◌, ◌≡◌, ◌⊎◌, ◌∙◌, refl, sym, ap, inl, inr, Bool, true, false, not, ◌&&◌,
  ◌||◌, Option, none, some, List, [], ◌∷◌, length, get_elem?, if◌then◌else◌, Bool-cases, arith,
}
use vxx.Prelude.Bytes.{Bytes, equal, equal_iff}
use vxx.Solver.Types.{
  PackageSourceKind, path_source, git_source, registry_source, PackageDependencySpec,
  MaterializedPackageSource, ResolvedPackageDependency, SourceMetadata, ManifestFile, absent,
  unreadable, contents, out_of_fuel, Outcome, done, thrown, and_then, contains, World, Solver,
}
use vxx.Semver.Types.{SemanticVersion, VersionRange, Result, ok, err}
use vxx.Semver.Parse.{parse}
use vxx.Semver.Range.{parse_range, matches}
use vxx.Solver.Range.{validate_range, validate_parsed, validate_version, validate_match}
use vxx.Solver.{
  is_before, is_conflict, enter, leave, erase, resolved_of, resolve_all, merge, resolve_new,
  resolve_indexed, read_source_metadata, local_source, or_failed, materialize_source, check_source,
  child_base, resolve_dependency, empty_solver, solve, is_conflict, local_metadata, of_manifest,
}
use vxx.Solver.Invariant.{IsIn, dependencies_in, dependencies_of}
use vxx.Solver.Ends.Names.{open_names, open_names-nil, open_names-enter}
use vxx.Solver.Ends.Errors.{
  NoFuel, materialize_source-NoFuel, check_source-NoFuel, read_source_metadata-NoFuel,
  validate_range-NoFuel,
}

-- No step but the fuel gives the error of the fuel, and a resolution leaves the visited names as they were.
abbrev pub EndsVisiting : List Bytes → Outcome Solver → Type 0
EndsVisiting visiting (done s) = s.visiting ≡ visiting
EndsVisiting visiting (thrown out_of_fuel) = ⊥
EndsVisiting visiting (thrown _) = Unit

next-EndsVisiting :
    (visiting : List Bytes) (first : Outcome Solver) (next : Solver → Outcome Solver)
    → EndsVisiting visiting first
    → ((s : Solver) → s.visiting ≡ visiting → EndsVisiting visiting (next s))
    → EndsVisiting visiting (and_then first next)
next-EndsVisiting visiting (done s) next ends rest = rest s ends
next-EndsVisiting visiting (thrown out_of_fuel) next ends rest = ends
next-EndsVisiting visiting (thrown _) next ends rest = tt

bind-EndsVisiting :
    {A : Type 0} (visiting : List Bytes) (first : Outcome A) (next : A → Outcome Solver)
    → NoFuel first
    → ((a : A) → first ≡ done a → EndsVisiting visiting (next a))
    → EndsVisiting visiting (and_then first next)
unfolding NoFuel
bind-EndsVisiting visiting (done a) next ends rest = rest a refl
bind-EndsVisiting visiting (thrown out_of_fuel) next ends rest = ends
bind-EndsVisiting visiting (thrown _) next ends rest = tt

module _ (world : World) where
  -- Each dependency that a manifest can name is one of the names.
  abbrev pub NamesIn : List Bytes → Type 0
  NamesIn names =
      (path : Bytes) (d : PackageDependencySpec)
      → IsIn d (dependencies_of world path)
      → contains d.name names ≡ true

  -- `std::sort` adds nothing.
  abbrev pub SortAdds : Type 0
  SortAdds =
      (dependencies : List PackageDependencySpec) (d : PackageDependencySpec)
      → IsIn d (world.sort_dependencies is_before dependencies)
      → IsIn d dependencies

  resolve_all-EndsVisiting :
      (resolve : PackageDependencySpec → Solver → Outcome Solver) (visiting : List Bytes)
      (dependencies : List PackageDependencySpec) (solver : Solver)
      → ((d : PackageDependencySpec) (s : Solver)
          → IsIn d dependencies
          → s.visiting ≡ visiting
          → EndsVisiting visiting (resolve d s))
      → solver.visiting ≡ visiting
      → EndsVisiting visiting (resolve_all resolve dependencies solver)
  unfolding resolve_all
  resolve_all-EndsVisiting resolve visiting [] solver each same = same
  resolve_all-EndsVisiting resolve visiting (d ∷ dependencies) solver each same =
      next-EndsVisiting visiting (resolve d solver) (λ next. resolve_all resolve dependencies next)
        (each d solver (inl refl) same)
        (λ next h.
          resolve_all-EndsVisiting resolve visiting dependencies next
            (λ e s needed v. each e s (inr needed) v) h)

  left-EndsVisiting :
      (resolved : ResolvedPackageDependency) (visiting : List Bytes) (next : Solver)
      → next.visiting ≡ resolved.name ∷ visiting
      → (leave resolved next).visiting ≡ visiting
  unfolding leave
  left-EndsVisiting resolved visiting next same =
      rw (same, (equal_iff resolved.name resolved.name).1 refl) refl

  leave-EndsVisiting :
      (resolved : ResolvedPackageDependency) (visiting : List Bytes) (result : Outcome Solver)
      → EndsVisiting (resolved.name ∷ visiting) result
      → EndsVisiting visiting (and_then result (λ next. done (leave resolved next)))
  leave-EndsVisiting resolved visiting (done next) h = left-EndsVisiting resolved visiting next h
  leave-EndsVisiting resolved visiting (thrown out_of_fuel) h = h
  leave-EndsVisiting resolved visiting (thrown _) h = tt

  merge-EndsVisiting :
      (d : PackageDependencySpec) (materialized : MaterializedPackageSource)
      (metadata : SourceMetadata) (i : ℕ) (found : Option ResolvedPackageDependency)
      (solver : Solver)
      → EndsVisiting solver.visiting (merge world d materialized metadata i found solver)
  merge-EndsVisiting d materialized metadata i none solver = tt
  merge-EndsVisiting d materialized metadata i (some p) solver =
      elim (Bool-cases (is_conflict p materialized metadata)) [
        | inl conflict ↦ rw conflict tt
        | inr agrees ↦ rw agrees refl
      ]

  module _ (names : List Bytes) (known : NamesIn names) (sorts : SortAdds) where
    new-EndsVisiting :
        (resolve : PackageDependencySpec → Solver → Outcome Solver) (d : PackageDependencySpec)
        (materialized : MaterializedPackageSource) (metadata : SourceMetadata) (solver : Solver)
        → ((e : PackageDependencySpec) (s : Solver)
            → IsIn e metadata.dependencies
            → s.visiting ≡ d.name ∷ solver.visiting
            → contains d.name solver.visiting ≡ false
            → EndsVisiting (d.name ∷ solver.visiting) (resolve e s))
        → EndsVisiting solver.visiting (resolve_new world resolve d materialized metadata solver)
    unfolding enter
    new-EndsVisiting resolve d materialized metadata solver each =
        elim (Bool-cases (contains d.name solver.visiting)) [
          | inl cycle ↦ rw cycle tt
          | inr once ↦
              let children = world.sort_dependencies is_before metadata.dependencies in
              rw once (
                leave-EndsVisiting (resolved_of d materialized metadata) solver.visiting
                  (resolve_all resolve children (enter d.name solver))
                  (resolve_all-EndsVisiting resolve (d.name ∷ solver.visiting) children
                    (enter d.name solver)
                    (λ e s needed v. each e s (sorts metadata.dependencies e needed) v once) refl))
        ]

    indexed-EndsVisiting :
        (resolve : PackageDependencySpec → Solver → Outcome Solver) (d : PackageDependencySpec)
        (materialized : MaterializedPackageSource) (metadata : SourceMetadata) (solver : Solver)
        (index : Option ℕ)
        → ((e : PackageDependencySpec) (s : Solver)
            → IsIn e metadata.dependencies
            → s.visiting ≡ d.name ∷ solver.visiting
            → contains d.name solver.visiting ≡ false
            → EndsVisiting (d.name ∷ solver.visiting) (resolve e s))
        → EndsVisiting solver.visiting
            (resolve_indexed world resolve d materialized metadata solver index)
    indexed-EndsVisiting resolve d materialized metadata solver none each =
        new-EndsVisiting resolve d materialized metadata solver each
    indexed-EndsVisiting resolve d materialized metadata solver (some i) each =
        merge-EndsVisiting d materialized metadata i (get_elem? solver.ordered i) solver

    resolve_dependency-EndsVisiting :
        (materializer : Option (PackageDependencySpec → Bytes → Option MaterializedPackageSource))
        (fuel : ℕ) (declaring_root requester : Bytes) (d : PackageDependencySpec) (solver : Solver)
        → contains d.name names ≡ true
        → open_names names solver.visiting < fuel
        → EndsVisiting solver.visiting
            (resolve_dependency world materializer fuel declaring_root requester d solver)
    unfolding resolve_dependency
    resolve_dependency-EndsVisiting materializer zero declaring_root requester d solver named
          enough =
        absurd (omega arith)
    resolve_dependency-EndsVisiting materializer (suc fuel) declaring_root requester d solver named
          enough =
        bind-EndsVisiting solver.visiting (materialize_source world materializer d declaring_root) _
          (materialize_source-NoFuel world materializer d declaring_root)
          (λ found source.
            bind-EndsVisiting solver.visiting (check_source world found) _
              (check_source-NoFuel world found)
              (λ materialized checked.
                bind-EndsVisiting solver.visiting (read_source_metadata world materialized.path) _
                  (read_source_metadata-NoFuel world materialized.path)
                  (λ metadata same.
                    bind-EndsVisiting solver.visiting
                      (validate_range d.name requester d.version_range metadata.version) _
                      (validate_range-NoFuel world d.name requester d.version_range
                        metadata.version)
                      (λ valid validated.
                        indexed-EndsVisiting
                          (resolve_dependency world materializer fuel
                            (child_base world materialized.path) d.name)
                          d materialized metadata solver (solver.index_by_name d.name)
                          (λ e s needed v once.
                            let fewer = open_names-enter names solver.visiting d.name named once in
                            subst
                              (λ items. EndsVisiting items (
                                resolve_dependency world materializer fuel
                                  (child_base world materialized.path) d.name e s))
                              v
                              (resolve_dependency-EndsVisiting materializer fuel
                                (child_base world materialized.path) d.name e s
                                (known materialized.path e
                                  (subst (λ o. IsIn e (dependencies_in o)) (sym same) needed))
                                (subst (λ items. open_names names items < fuel) (sym v)
                                  (omega (arith, fewer)))))))))

abbrev pub Ends : Outcome Solver → Type 0
Ends (done solver) = Unit
Ends (thrown out_of_fuel) = ⊥
Ends (thrown _) = Unit

EndsVisiting-Ends :
    (visiting : List Bytes) (result : Outcome Solver) → EndsVisiting visiting result → Ends result
EndsVisiting-Ends visiting (done solver) h = tt
EndsVisiting-Ends visiting (thrown out_of_fuel) h = h
EndsVisiting-Ends visiting (thrown _) h = tt

-- If all that the manifests can depend on has a name of a list, as the project's own dependencies have, and sorting adds no
-- dependency, then the recursion ends, with a graph or an error, at a depth of at most one more than the
-- names: whatever cycles the manifests describe.
pub solve-Ends :
    (world : World)
    (materializer : Option (PackageDependencySpec → Bytes → Option MaterializedPackageSource))
    (fuel : ℕ) (project_root name : Bytes) (dependencies : List PackageDependencySpec)
    (names : List Bytes)
    → NamesIn world names
    → SortAdds world
    → ((d : PackageDependencySpec) → IsIn d dependencies → contains d.name names ≡ true)
    → length names < fuel
    → Ends (solve world materializer fuel project_root name dependencies)
unfolding solve
solve-Ends world materializer fuel project_root name dependencies names known sorts roots enough =
    EndsVisiting-Ends []
      (resolve_all (resolve_dependency world materializer fuel project_root name)
        (world.sort_dependencies is_before dependencies) empty_solver)
      (resolve_all-EndsVisiting world (resolve_dependency world materializer fuel project_root name)
        [] (world.sort_dependencies is_before dependencies) empty_solver
        (λ d s needed v.
          subst
            (λ items.
              EndsVisiting items (resolve_dependency world materializer fuel project_root name d s))
            v
            (resolve_dependency-EndsVisiting world names known sorts materializer fuel project_root
              name d s (roots d (sorts dependencies d needed))
              (subst (λ items. open_names names items < fuel) (sym v)
                (omega (arith, open_names-nil names)))))
        refl)
