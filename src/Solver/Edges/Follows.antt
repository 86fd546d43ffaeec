-- ===== src/Solver/Edges/Follows.antt =====
-- src/core/package_solver.cpp: resolving several dependencies one after the other.
use mathlib.Core.Path.{subst}
use vxx.Prelude.{◌≡◌, ◌∙◌, refl, sym, inl, inr, List, [], ◌∷◌, length}
use vxx.Solver.Types.{PackageDependencySpec, Outcome, done, thrown, and_then, World, Solver}
use vxx.Solver.{is_before, resolve_all}
use vxx.Solver.Invariant.{
  IsIn, Meets, IsConsistent, Extends, Extends-refl, Extends-trans, Meets-extend,
}

-- `std::sort` drops nothing.
abbrev pub SortKeeps : World → Type 0
SortKeeps world =
    (dependencies : List PackageDependencySpec) (d : PackageDependencySpec)
    → IsIn d dependencies
    → IsIn d (world.sort_dependencies is_before dependencies)

module _ (world : World) where
  -- From a state to a consistent one that has the same packages being visited, and every package of before.
  abbrev pub Follows : Solver → Solver → Type 0
  Follows before after =
      IsConsistent world after
      × (after.visiting ≡ before.visiting)
      × Extends before.ordered after.ordered

  abbrev pub Resolves : Solver → PackageDependencySpec → Outcome Solver → Type 0
  Resolves before d (thrown e) = Unit
  Resolves before d (done after) =
      Follows before after × Meets after.ordered (length after.ordered) d

  abbrev pub ResolvesAll : Solver → List PackageDependencySpec → Outcome Solver → Type 0
  ResolvesAll before dependencies (thrown e) = Unit
  ResolvesAll before dependencies (done after) =
      Follows before after
      × ((d : PackageDependencySpec)
          → IsIn d dependencies
          → Meets after.ordered (length after.ordered) d)

  both-ResolvesAll :
      (before next : Solver) (d : PackageDependencySpec) (dependencies : List PackageDependencySpec)
      (result : Outcome Solver)
      → Resolves before d (done next)
      → ResolvesAll next dependencies result
      → ResolvesAll before (d ∷ dependencies) result
  both-ResolvesAll before next d dependencies (thrown e) one all = tt
  both-ResolvesAll before next d dependencies (done after) ((c1, v1, e1), m1) ((c2, v2, e2), m2) = (
    (c2, v2 ∙ v1, Extends-trans before.ordered next.ordered after.ordered e1 e2),
    λ e needed. elim needed [
      | inl same ↦
          subst (λ x. Meets after.ordered (length after.ordered) x) (sym same)
            (Meets-extend next.ordered after.ordered (length next.ordered) (length after.ordered) d
              e2 e2.longer m1)
      | inr later ↦ m2 e later
    ],
  )

  one-ResolvesAll :
      (before : Solver) (d : PackageDependencySpec) (dependencies : List PackageDependencySpec)
      (one : Outcome Solver) (rest : Solver → Outcome Solver)
      → Resolves before d one
      → ((next : Solver) → IsConsistent world next → ResolvesAll next dependencies (rest next))
      → ResolvesAll before (d ∷ dependencies) (and_then one rest)
  one-ResolvesAll before d dependencies (thrown e) rest first others = tt
  one-ResolvesAll before d dependencies (done next) rest first others =
      both-ResolvesAll before next d dependencies (rest next) first (others next first.0.0)

  pub resolve_all-ResolvesAll :
      (resolve : PackageDependencySpec → Solver → Outcome Solver)
      → ((d : PackageDependencySpec) (solver : Solver)
          → IsConsistent world solver
          → Resolves solver d (resolve d solver))
      → (dependencies : List PackageDependencySpec) (solver : Solver) → IsConsistent world solver
      → ResolvesAll solver dependencies (resolve_all resolve dependencies solver)
  unfolding resolve_all
  resolve_all-ResolvesAll resolve each [] solver consistent =
      ((consistent, refl, Extends-refl solver.ordered), λ d never. absurd never)
  resolve_all-ResolvesAll resolve each (d ∷ dependencies) solver consistent =
      one-ResolvesAll solver d dependencies (resolve d solver)
        (λ next. resolve_all resolve dependencies next) (each d solver consistent)
        (λ next c. resolve_all-ResolvesAll resolve each dependencies next c)
