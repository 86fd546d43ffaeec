-- ===== src/Solver/Edges/Packages.antt =====
-- src/core/package_solver.cpp: the resolution of one dependency.
use mathlib.Core.Path.{subst}
use vxx.Prelude.{
  ℕ, zero, suc, ◌≡◌, ◌∙◌, refl, sym, ap, inl, inr, Bool, false, Option, none, some, List, [], ◌∷◌,
  ◌++◌, length, length-append, get_elem?, get_elem?-lt, set, Bool-cases, arith,
}
use vxx.Prelude.Bytes.{Bytes, equal_iff}
use vxx.Solver.Types.{
  PackageDependencySpec, MaterializedPackageSource, ResolvedPackageDependency, SourceMetadata,
  Outcome, done, thrown, and_then, contains, World, Solver,
}
use vxx.Solver.Range.{validate_range, Satisfies, IfDone, validate_range-Satisfies}
use vxx.Solver.{
  is_before, is_conflict, with_range, enter, leave, resolved_of, resolve_all, merge, resolve_new,
  resolve_indexed, read_source_metadata, materialize_source, check_source, child_base,
  resolve_dependency,
}
use vxx.Solver.Invariant.{
  IsIn, dependencies_in, dependencies_of, IsConsistent, SamePackage, Extends-trans, get_elem?-last,
  Extends-append, some-injective, length-set, Extends-set,
}
use vxx.Solver.Steps.{set-IsConsistent, enter-IsConsistent, leave-IsConsistent, leave-visiting}
use vxx.Solver.Edges.Follows.{SortKeeps, Resolves, ResolvesAll, resolve_all-ResolvesAll}

module _ (world : World) where
  same_version :
      (resolved : ResolvedPackageDependency) (materialized : MaterializedPackageSource)
      (metadata : SourceMetadata)
      → is_conflict resolved materialized metadata ≡ false
      → resolved.version ≡ metadata.version
  unfolding is_conflict
  same_version resolved materialized metadata h =
      (equal_iff resolved.version metadata.version).0 (ground (arith, h))

  module _ (d : PackageDependencySpec) (materialized : MaterializedPackageSource)
      (metadata : SourceMetadata) (solver : Solver) (consistent : IsConsistent world solver)
      (valid : Satisfies d.version_range metadata.version) where
    merged-Resolves :
        (i : ℕ) (p : ResolvedPackageDependency)
        → solver.index_by_name d.name ≡ some i
        → get_elem? solver.ordered i ≡ some p
        → is_conflict p materialized metadata ≡ false
        → Resolves world solver d (
            done (record solver {
              ordered = set solver.ordered i (with_range world d.version_range p);
            }))
    unfolding with_range
    merged-Resolves i p at found agrees =
        let q = with_range world d.version_range p in
        let same : SamePackage p q = record {
          name_same = refl;
          version_same = refl;
          source_same = refl;
        } in
        let extends = Extends-set p q same solver.ordered i found in
        let kept = extends.keeps i p found in
        let named = consistent.indexed d.name i at in
        (
          (set-IsConsistent world solver i p q consistent found same, refl, extends),
          record {
            position = i;
            provider = kept.0;
            before = omega (
              arith,
              length-set p q same solver.ordered i,
              get_elem?-lt solver.ordered i p found,
            );
            found = kept.1;
            same_name =
                kept.2.name_same
                ∙ (ap (λ r. r.name) (some-injective p named.0 (sym found ∙ named.1)) ∙ named.2);
            satisfies =
                subst (λ v. Satisfies d.version_range v)
                  (sym (kept.2.version_same ∙ same_version p materialized metadata agrees)) valid;
          },
        )

    merge-Resolves :
        (i : ℕ) (found : Option ResolvedPackageDependency)
        → solver.index_by_name d.name ≡ some i
        → get_elem? solver.ordered i ≡ found
        → Resolves world solver d (merge world d materialized metadata i found solver)
    merge-Resolves i none at found = tt
    merge-Resolves i (some p) at found = elim (Bool-cases (is_conflict p materialized metadata)) [
      | inl conflict ↦ rw conflict tt
      | inr agrees ↦ rw agrees (merged-Resolves i p at found agrees)
    ]

    -- The children are resolved, and the package goes behind them.
    leave-Resolves :
        (children : List PackageDependencySpec) (result : Outcome Solver)
        → contains d.name solver.visiting ≡ false
        → ((e : PackageDependencySpec)
            → IsIn e (dependencies_of world materialized.path)
            → IsIn e children)
        → ResolvesAll world (enter d.name solver) children result
        → Resolves world solver d
            (and_then result (λ next. done (leave (resolved_of d materialized metadata) next)))
    unfolding enter leave
    leave-Resolves children (thrown e) once sorted all = tt
    leave-Resolves children (done next) once sorted ((c, v, e), m) =
        let resolved = resolved_of d materialized metadata in
        let needs =
          λ (x : PackageDependencySpec) (h : IsIn x (dependencies_of world materialized.path)).
            m x (sorted x h) in
        let longer = Extends-append next.ordered resolved in
        (
          (
            leave-IsConsistent world resolved next solver.visiting c v once needs,
            leave-visiting world resolved next solver.visiting c v once needs,
            Extends-trans solver.ordered next.ordered (next.ordered ++ (resolved ∷ [])) e longer,
          ),
          record {
            position = length next.ordered;
            provider = resolved;
            before = omega (arith, length-append next.ordered (resolved ∷ []));
            found = get_elem?-last next.ordered resolved;
            same_name = refl;
            satisfies = valid;
          },
        )

    -- A new package, with the resolution of its children.
    resolve_new-Resolves :
        (resolve : PackageDependencySpec → Solver → Outcome Solver)
        → SortKeeps world
        → solver.index_by_name d.name ≡ none
        → ((e : PackageDependencySpec)
            → IsIn e (dependencies_of world materialized.path)
            → IsIn e metadata.dependencies)
        → ((e : PackageDependencySpec) (s : Solver)
            → IsConsistent world s
            → Resolves world s e (resolve e s))
        → Resolves world solver d (resolve_new world resolve d materialized metadata solver)
    resolve_new-Resolves resolve sorts new listed each =
        elim (Bool-cases (contains d.name solver.visiting)) [
          | inl cycle ↦ rw cycle tt
          | inr once ↦
              let children = world.sort_dependencies is_before metadata.dependencies in
              rw once (
                leave-Resolves children (resolve_all resolve children (enter d.name solver)) once
                  (λ e h. sorts metadata.dependencies e (listed e h))
                  (resolve_all-ResolvesAll world resolve each children (enter d.name solver)
                    (enter-IsConsistent world d.name solver consistent new)))
        ]

    resolve_indexed-Resolves :
        (resolve : PackageDependencySpec → Solver → Outcome Solver) (index : Option ℕ)
        → SortKeeps world
        → solver.index_by_name d.name ≡ index
        → ((e : PackageDependencySpec)
            → IsIn e (dependencies_of world materialized.path)
            → IsIn e metadata.dependencies)
        → ((e : PackageDependencySpec) (s : Solver)
            → IsConsistent world s
            → Resolves world s e (resolve e s))
        → Resolves world solver d
            (resolve_indexed world resolve d materialized metadata solver index)
    resolve_indexed-Resolves resolve none sorts at listed each =
        resolve_new-Resolves resolve sorts at listed each
    resolve_indexed-Resolves resolve (some i) sorts at listed each =
        merge-Resolves i (get_elem? solver.ordered i) at refl

  after_valid :
      (d : PackageDependencySpec) (solver : Solver) (version : Bytes) (checked : Outcome Bool)
      (next : Outcome Solver)
      → IfDone checked (Satisfies d.version_range version)
      → (Satisfies d.version_range version → Resolves world solver d next)
      → Resolves world solver d (and_then checked (λ valid. next))
  after_valid d solver version (done valid) next satisfies rest = rest satisfies
  after_valid d solver version (thrown e) next satisfies rest = tt

  after_read :
      (d : PackageDependencySpec) (solver : Solver) (read : Outcome SourceMetadata)
      (next : SourceMetadata → Outcome Solver)
      → ((metadata : SourceMetadata)
          → read ≡ done metadata
          → Resolves world solver d (next metadata))
      → Resolves world solver d (and_then read next)
  after_read d solver (done metadata) next rest = rest metadata refl
  after_read d solver (thrown e) next rest = tt

  after_source :
      (d : PackageDependencySpec) (solver : Solver) (source : Outcome MaterializedPackageSource)
      (next : MaterializedPackageSource → Outcome Solver)
      → ((materialized : MaterializedPackageSource) → Resolves world solver d (next materialized))
      → Resolves world solver d (and_then source next)
  after_source d solver (done materialized) next rest = rest materialized
  after_source d solver (thrown e) next rest = tt

  pub resolve_dependency-Resolves :
      SortKeeps world
      → (materializer : Option (PackageDependencySpec → Bytes → Option MaterializedPackageSource))
        (fuel : ℕ) (declaring_root requester : Bytes) (d : PackageDependencySpec) (solver : Solver)
      → IsConsistent world solver
      → Resolves world solver d
          (resolve_dependency world materializer fuel declaring_root requester d solver)
  unfolding resolve_dependency
  resolve_dependency-Resolves sorts materializer zero declaring_root requester d solver consistent =
      tt
  resolve_dependency-Resolves sorts materializer (suc fuel) declaring_root requester d solver
        consistent =
      after_source d solver (materialize_source world materializer d declaring_root) _ (λ found.
        after_source d solver (check_source world found) _ (λ materialized.
          after_read d solver (read_source_metadata world materialized.path) _ (λ metadata same.
            after_valid d solver metadata.version
              (validate_range d.name requester d.version_range metadata.version) _
              (validate_range-Satisfies d.name requester d.version_range metadata.version)
              (λ valid.
                resolve_indexed-Resolves d materialized metadata solver consistent valid
                  (resolve_dependency world materializer fuel (child_base world materialized.path)
                    d.name)
                  (solver.index_by_name d.name) sorts refl
                  (λ e h. subst (λ o. IsIn e (dependencies_in o)) same h)
                  (λ e s c.
                    resolve_dependency-Resolves sorts materializer fuel
                      (child_base world materialized.path) d.name e s c)))))
