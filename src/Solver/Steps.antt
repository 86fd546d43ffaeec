-- ===== src/Solver/Steps.antt =====
-- src/core/package_solver.cpp: the changes of the state keep it consistent.
use mathlib.Core.Path.{subst}
use vxx.Prelude.{
  ℕ, ◌≡◌, ◌∙◌, refl, sym, ap, inl, inr, Bool, true, false, Option, none, some, List, [], ◌∷◌, ◌++◌,
  length, get_elem?, set, Bool-cases, arith,
}
use vxx.Prelude.Bytes.{Bytes, equal, equal_iff}
use vxx.Solver.Types.{PackageDependencySpec, ResolvedPackageDependency, contains, World, Solver}
use vxx.Solver.{update, enter, leave}
use vxx.Solver.Invariant.{
  IsIn, dependencies_of, Meets, IsConsistent, SamePackage, Meets-extend, get_elem?-append,
  get_elem?-last, get_elem?-split, Extends-append, some-injective, set-back, Extends-set,
}

module _ (world : World) where
  pub set-IsConsistent :
      (solver : Solver) (i : ℕ) (p q : ResolvedPackageDependency)
      → IsConsistent world solver
      → get_elem? solver.ordered i ≡ some p
      → SamePackage p q
      → IsConsistent world (record solver { ordered = set solver.ordered i q })
  set-IsConsistent solver i p q consistent found same =
      let extends = Extends-set p q same solver.ordered i found in
      record {
        indexed = λ name j h.
            let one = consistent.indexed name j h in
            let two = extends.keeps j one.0 one.1 in (two.0, two.1, two.2.name_same ∙ one.2);
        unique = λ j t h.
            let old = set-back p q same solver.ordered i j t found h in
            ap solver.index_by_name old.2.name_same ∙ consistent.unique j old.0 old.1;
        edges = λ j t h d needed.
            let old = set-back p q same solver.ordered i j t found h in
            Meets-extend solver.ordered (set solver.ordered i q) j j d extends (omega arith) (
              consistent.edges j old.0 old.1 d
                (subst (λ path. IsIn d (dependencies_of world path)) old.2.source_same needed));
        fresh = λ name visited. consistent.fresh name visited;
      }

  pub enter-IsConsistent :
      (name : Bytes) (solver : Solver)
      → IsConsistent world solver
      → solver.index_by_name name ≡ none
      → IsConsistent world (enter name solver)
  unfolding enter
  enter-IsConsistent name solver consistent new = record {
    indexed = consistent.indexed;
    unique = consistent.unique;
    edges = consistent.edges;
    fresh = λ key visited. elim (Bool-cases (equal key name)) [
      | inl same ↦ ap solver.index_by_name ((equal_iff key name).0 same) ∙ new
      | inr other ↦ consistent.fresh key (ground arith)
    ];
  }

  equal_self : (name : Bytes) → equal name name ≡ true
  equal_self name = (equal_iff name name).1 refl

  update-same :
      (index : Bytes → Option ℕ) (name : Bytes) (i : ℕ) → update index name i name ≡ some i
  update-same index name i = rw (equal_self name) refl

  update-found :
      (index : Bytes → Option ℕ) (name key : Bytes) (i : ℕ)
      → equal name key ≡ true
      → update index name i key ≡ some i
  update-found index name key i same = rw same refl

  some-none : (i : ℕ) → some i ≡ none → ⊥
  some-none i h = ground arith

  true-false : (b : Bool) → b ≡ true → b ≡ false → ⊥
  true-false b h k = ground arith

  position_injective : (i j : ℕ) → some i ≡ some j → i ≡ j
  position_injective i j h = ground arith

  -- Another name keeps its index.
  update-other :
      (index : Bytes → Option ℕ) (name key : Bytes) (i : ℕ)
      → equal name key ≡ false
      → update index name i key ≡ index key
  update-other index name key i other = rw other refl

  module _ (resolved : ResolvedPackageDependency) (solver : Solver) (names : List Bytes)
      (consistent : IsConsistent world solver) (visited : solver.visiting ≡ resolved.name ∷ names)
      (once : contains resolved.name names ≡ false)
      (needs : (d : PackageDependencySpec)
        → IsIn d (dependencies_of world resolved.source_path)
        → Meets solver.ordered (length solver.ordered) d) where
    new_name : solver.index_by_name resolved.name ≡ none
    new_name = consistent.fresh resolved.name (rw (visited, equal_self resolved.name) refl)

    pub leave-visiting : (leave resolved solver).visiting ≡ names
    unfolding leave
    leave-visiting = rw (visited, equal_self resolved.name) refl

    leave-indexed :
        (name : Bytes) (i : ℕ)
        → (leave resolved solver).index_by_name name ≡ some i
        → (p : ResolvedPackageDependency) × (get_elem? (leave resolved solver).ordered i ≡ some p)
          × (p.name ≡ name)
    unfolding leave
    leave-indexed name i h = elim (Bool-cases (equal resolved.name name)) [
      | inl same ↦ (
        resolved,
        subst (λ j. get_elem? (solver.ordered ++ (resolved ∷ [])) j ≡ some resolved)
            (position_injective (length solver.ordered) i (
              sym
                (update-found solver.index_by_name resolved.name name (length solver.ordered) same)
              ∙ h))
            (get_elem?-last solver.ordered resolved),
        (equal_iff resolved.name name).0 same,
      )
      | inr other ↦
          let old = consistent.indexed name i (
            sym (update-other solver.index_by_name resolved.name name (length solver.ordered) other)
            ∙ h) in
          (old.0, get_elem?-append solver.ordered resolved old.0 i old.1, old.2)
    ]

    leave_unique_old :
        (i : ℕ) (p : ResolvedPackageDependency)
        → get_elem? solver.ordered i ≡ some p
        → update solver.index_by_name resolved.name (length solver.ordered) p.name ≡ some i
    leave_unique_old i p h = elim (Bool-cases (equal resolved.name p.name)) [
      | inl same ↦
          let here : solver.index_by_name resolved.name ≡ some i =
            ap solver.index_by_name ((equal_iff resolved.name p.name).0 same)
            ∙ consistent.unique i p h in
          absurd (some-none i (sym here ∙ new_name))
      | inr other ↦
          update-other solver.index_by_name resolved.name p.name (length solver.ordered) other
          ∙ consistent.unique i p h
    ]

    leave_unique :
        (i : ℕ) (p : ResolvedPackageDependency)
        → get_elem? (leave resolved solver).ordered i ≡ some p
        → (leave resolved solver).index_by_name p.name ≡ some i
    unfolding leave
    leave_unique i p h = elim (get_elem?-split solver.ordered resolved p i h) [
      | inl old ↦ leave_unique_old i p old
      | inr (last, same) ↦
          subst
            (λ x. update solver.index_by_name resolved.name (length solver.ordered) x.name ≡ some i)
            (some-injective resolved p same)
            (update-same solver.index_by_name resolved.name (length solver.ordered)
              ∙ ap some (sym last))
    ]

    leave-edges :
        (i : ℕ) (p : ResolvedPackageDependency)
        → get_elem? (leave resolved solver).ordered i ≡ some p
        → (d : PackageDependencySpec) → IsIn d (dependencies_of world p.source_path)
        → Meets (leave resolved solver).ordered i d
    unfolding leave
    leave-edges i p h d needed =
        let extends = Extends-append solver.ordered resolved in
        elim (get_elem?-split solver.ordered resolved p i h) [
          | inl old ↦
              Meets-extend solver.ordered (solver.ordered ++ (resolved ∷ [])) i i d extends
                (omega arith) (consistent.edges i p old d needed)
          | inr (last, same) ↦
              Meets-extend solver.ordered (solver.ordered ++ (resolved ∷ []))
                (length solver.ordered) i d extends (omega arith)
                (needs d (
                  subst (λ x. IsIn d (dependencies_of world x.source_path))
                    (sym (some-injective resolved p same)) needed))
        ]

    fresh_rest :
        (name : Bytes)
        → contains name names ≡ true
        → (leave resolved solver).index_by_name name ≡ none
    unfolding leave
    fresh_rest name h = elim (Bool-cases (equal resolved.name name)) [
      | inl same ↦
          let again : contains resolved.name names ≡ true =
            subst (λ key. contains key names ≡ true) (sym ((equal_iff resolved.name name).0 same))
              h in
          absurd (true-false (contains resolved.name names) again once)
      | inr other ↦
          update-other solver.index_by_name resolved.name name (length solver.ordered) other
          ∙ consistent.fresh name (rw visited (ground (arith, h)))
    ]

    leave-fresh :
        (name : Bytes)
        → contains name (leave resolved solver).visiting ≡ true
        → (leave resolved solver).index_by_name name ≡ none
    leave-fresh name h =
        fresh_rest name (subst (λ items. contains name items ≡ true) leave-visiting h)

    pub leave-IsConsistent : IsConsistent world (leave resolved solver)
    leave-IsConsistent = record {
      indexed = leave-indexed;
      unique = leave_unique;
      edges = leave-edges;
      fresh = leave-fresh;
    }
