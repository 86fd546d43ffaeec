-- ===== src/Solver/Invariant.antt =====
-- src/core/package_solver.cpp: what holds of the state of the solver between two resolutions.
use mathlib.Core.Path.{subst}
use vxx.Prelude.{
  ℕ, zero, suc, ◌<◌, ◌≤◌, ◌≡◌, ◌⊎◌, ◌∙◌, refl, sym, ap, inl, inr, true, Option, none, some, List,
  [], ◌∷◌, ◌++◌, length, length-append, get_elem?, set, arith,
}
use vxx.Prelude.Bytes.{Bytes}
use vxx.Solver.Types.{
  PackageDependencySpec, ResolvedPackageDependency, SourceMetadata, Outcome, done, thrown, contains,
  World, Solver,
}
use vxx.Solver.Range.{Satisfies}
use vxx.Solver.{read_source_metadata}

abbrev pub IsIn : PackageDependencySpec → List PackageDependencySpec → Type 0
IsIn d [] = ⊥
IsIn d (e ∷ dependencies) = (d ≡ e) ⊎ IsIn d dependencies

abbrev pub dependencies_in : Outcome SourceMetadata → List PackageDependencySpec
dependencies_in (done metadata) = metadata.dependencies
dependencies_in (thrown e) = []

-- What the manifest of a source depends on.
abbrev pub dependencies_of : World → Bytes → List PackageDependencySpec
dependencies_of world source_path = dependencies_in (read_source_metadata world source_path)

-- A dependency is met by a package of its name, in front of a position, with a version in its range.
pub record Meets (ordered : List ResolvedPackageDependency) (bound : ℕ) (d : PackageDependencySpec)
    : Type 0 where
  pub position : ℕ
  pub provider : ResolvedPackageDependency
  pub before : position < bound
  pub found : get_elem? ordered position ≡ some provider
  pub same_name : provider.name ≡ d.name
  pub satisfies : Satisfies d.version_range provider.version

pub record IsConsistent (world : World) (solver : Solver) : Type 0 where
  -- The index leads to the package of the name, and to each package.
  pub indexed :
      (name : Bytes) (i : ℕ)
      → solver.index_by_name name ≡ some i
      → (p : ResolvedPackageDependency) × (get_elem? solver.ordered i ≡ some p) × (p.name ≡ name)
  pub unique :
      (i : ℕ) (p : ResolvedPackageDependency)
      → get_elem? solver.ordered i ≡ some p
      → solver.index_by_name p.name ≡ some i
  -- Every dependency of a package stands in front of it, with a version in the range.
  pub edges :
      (i : ℕ) (p : ResolvedPackageDependency)
      → get_elem? solver.ordered i ≡ some p
      → (d : PackageDependencySpec) → IsIn d (dependencies_of world p.source_path)
      → Meets solver.ordered i d
  -- What is being visited is not resolved yet.
  pub fresh :
      (name : Bytes) → contains name solver.visiting ≡ true → solver.index_by_name name ≡ none

-- The packages stay, at most with further requested ranges.
pub record SamePackage (p q : ResolvedPackageDependency) : Type 0 where
  pub name_same : q.name ≡ p.name
  pub version_same : q.version ≡ p.version
  pub source_same : q.source_path ≡ p.source_path

pub record Extends (before after : List ResolvedPackageDependency) : Type 0 where
  pub longer : length before ≤ length after
  pub keeps :
      (i : ℕ) (p : ResolvedPackageDependency)
      → get_elem? before i ≡ some p
      → (q : ResolvedPackageDependency) × (get_elem? after i ≡ some q) × SamePackage p q

pub SamePackage-refl : (p : ResolvedPackageDependency) → SamePackage p p
SamePackage-refl p = record { name_same = refl; version_same = refl; source_same = refl }

abbrev or_given :
    ResolvedPackageDependency → Option ResolvedPackageDependency → ResolvedPackageDependency
or_given p none = p
or_given p (some q) = q

pub some-injective : (p q : ResolvedPackageDependency) → some p ≡ some q → p ≡ q
some-injective p q h = ap (or_given p) h

pub Extends-refl : (ordered : List ResolvedPackageDependency) → Extends ordered ordered
Extends-refl ordered = record {
  longer = omega arith;
  keeps = λ i p h. (p, h, record { name_same = refl; version_same = refl; source_same = refl });
}

pub Extends-trans :
    (first second third : List ResolvedPackageDependency)
    → Extends first second
    → Extends second third
    → Extends first third
Extends-trans first second third h k = record {
  longer = omega (arith, h.longer, k.longer);
  keeps = λ i p found.
      let one = h.keeps i p found in
      let two = k.keeps i one.0 one.1 in
      (
        two.0,
        two.1,
        record {
          name_same = two.2.name_same ∙ one.2.name_same;
          version_same = two.2.version_same ∙ one.2.version_same;
          source_same = two.2.source_same ∙ one.2.source_same;
        },
      );
}

pub Meets-extend :
    (before after : List ResolvedPackageDependency) (low high : ℕ) (d : PackageDependencySpec)
    → Extends before after
    → low ≤ high
    → Meets before low d
    → Meets after high d
Meets-extend before after low high d extends le meets =
    let kept = extends.keeps meets.position meets.provider meets.found in
    record {
      position = meets.position;
      provider = kept.0;
      before = omega (arith, meets.before);
      found = kept.1;
      same_name = kept.2.name_same ∙ meets.same_name;
      satisfies =
          subst (λ v. Satisfies d.version_range v) (sym kept.2.version_same) meets.satisfies;
    }

pub get_elem?-append :
    (ordered : List ResolvedPackageDependency) (p q : ResolvedPackageDependency) (i : ℕ)
    → get_elem? ordered i ≡ some q
    → get_elem? (ordered ++ (p ∷ [])) i ≡ some q
get_elem?-append [] p q i h = absurd (ground arith)
get_elem?-append (x ∷ ordered) p q zero h = h
get_elem?-append (x ∷ ordered) p q (suc i) h = get_elem?-append ordered p q i h

pub get_elem?-last :
    (ordered : List ResolvedPackageDependency) (p : ResolvedPackageDependency)
    → get_elem? (ordered ++ (p ∷ [])) (length ordered) ≡ some p
get_elem?-last [] p = refl
get_elem?-last (x ∷ ordered) p = get_elem?-last ordered p

-- What stands in a list with one more element.
pub get_elem?-split :
    (ordered : List ResolvedPackageDependency) (p q : ResolvedPackageDependency) (i : ℕ)
    → get_elem? (ordered ++ (p ∷ [])) i ≡ some q
    → (get_elem? ordered i ≡ some q) ⊎ ((i ≡ length ordered) × (some p ≡ some q))
get_elem?-split [] p q zero h = inr (refl, h)
get_elem?-split [] p q (suc i) h = absurd (ground arith)
get_elem?-split (x ∷ ordered) p q zero h = inl h
get_elem?-split (x ∷ ordered) p q (suc i) h = elim (get_elem?-split ordered p q i h) [
  | inl found ↦ inl found
  | inr (same, last) ↦ inr (ap suc same, last)
]

pub Extends-append :
    (ordered : List ResolvedPackageDependency) (p : ResolvedPackageDependency)
    → Extends ordered (ordered ++ (p ∷ []))
Extends-append ordered p = record {
  longer = omega (arith, length-append ordered (p ∷ []));
  keeps = λ i q h. (
    q,
    get_elem?-append ordered p q i h,
    record { name_same = refl; version_same = refl; source_same = refl },
  );
}

-- Replacing a package by one that is the same but for its ranges.
module _ (p q : ResolvedPackageDependency) (same : SamePackage p q) where
  pub length-set :
      (ordered : List ResolvedPackageDependency) (i : ℕ) → length (set ordered i q) ≡ length ordered
  length-set [] i = refl
  length-set (x ∷ ordered) zero = refl
  length-set (x ∷ ordered) (suc i) = ap suc (length-set ordered i)

  same_as : (r : ResolvedPackageDependency) → some p ≡ some r → SamePackage r q
  same_as r h = subst (λ x. SamePackage x q) (some-injective p r h) same

  set-keeps :
      (ordered : List ResolvedPackageDependency) (i j : ℕ) (r : ResolvedPackageDependency)
      → get_elem? ordered i ≡ some p
      → get_elem? ordered j ≡ some r
      → (t : ResolvedPackageDependency) × (get_elem? (set ordered i q) j ≡ some t) × SamePackage r t
  set-keeps [] i j r found h = absurd (ground arith)
  set-keeps (x ∷ ordered) zero zero r found h = (q, refl, same_as r (sym found ∙ h))
  set-keeps (x ∷ ordered) zero (suc j) r found h = (r, h, SamePackage-refl r)
  set-keeps (x ∷ ordered) (suc i) zero r found h = (r, h, SamePackage-refl r)
  set-keeps (x ∷ ordered) (suc i) (suc j) r found h = set-keeps ordered i j r found h

  pub set-back :
      (ordered : List ResolvedPackageDependency) (i j : ℕ) (t : ResolvedPackageDependency)
      → get_elem? ordered i ≡ some p
      → get_elem? (set ordered i q) j ≡ some t
      → (r : ResolvedPackageDependency) × (get_elem? ordered j ≡ some r) × SamePackage r t
  set-back [] i j t found h = absurd (ground arith)
  set-back (x ∷ ordered) zero zero t found h =
      (p, found, subst (λ y. SamePackage p y) (some-injective q t h) same)
  set-back (x ∷ ordered) zero (suc j) t found h = (t, h, SamePackage-refl t)
  set-back (x ∷ ordered) (suc i) zero t found h = (t, h, SamePackage-refl t)
  set-back (x ∷ ordered) (suc i) (suc j) t found h = set-back ordered i j t found h

  pub Extends-set :
      (ordered : List ResolvedPackageDependency) (i : ℕ)
      → get_elem? ordered i ≡ some p
      → Extends ordered (set ordered i q)
  Extends-set ordered i found = record {
    longer = omega (arith, length-set ordered i);
    keeps = λ j r h. set-keeps ordered i j r found h;
  }
