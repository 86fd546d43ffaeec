-- ===== src/Solver/Tests.antt =====
-- A project that needs two packages, one of which needs the other.
use vxx.Prelude.{
  ◌≡◌, refl, ◌⊎◌, inl, inr, Bool, true, false, none, List, [], ◌∷◌, if◌then◌else◌, Bool-cases,
  arith,
}
use vxx.Prelude.Bytes.{Bytes, codes, equal}
use vxx.Solver.Types.{
  path_source, PackageDependencySpec, ManifestFile, absent, contents, contains, World,
}
use vxx.Solver.{is_before, read_source_metadata, solve}
use vxx.Solver.Invariant.{IsIn}
use vxx.Solver.Edges.Follows.{SortKeeps}
use vxx.Solver.Edges.{IsResolved, solve-IsResolved}
use vxx.Solver.Ends.{Ends, NamesIn, SortAdds, solve-Ends}

-- A sorting function.
module _ {A : Type 0} (before : A → A → Bool) where
  abbrev place : A → List A → List A
  place x [] = x ∷ []
  place x (y ∷ ys) = let rest = place x ys in if before y x then y ∷ rest else x ∷ y ∷ ys

  abbrev insertion_sort : List A → List A
  insertion_sort [] = []
  insertion_sort (x ∷ xs) = place x (insertion_sort xs)

pushed : {A B C D : Type 0} → (A ⊎ C → D) → A ⊎ (B ⊎ C) → B ⊎ D
pushed place_of (inl a) = inr (place_of (inl a))
pushed place_of (inr (inl b)) = inl b
pushed place_of (inr (inr c)) = inr (place_of (inr c))

pulled : {A B C D : Type 0} → (D → A ⊎ C) → B ⊎ D → A ⊎ (B ⊎ C)
pulled found_in (inl b) = inr (inl b)
pulled found_in (inr d) = elim (found_in d) [ inl a ↦ inl a | inr c ↦ inr (inr c) ]

IsIn-place :
    (before : PackageDependencySpec → PackageDependencySpec → Bool) (x d : PackageDependencySpec)
    (xs : List PackageDependencySpec)
    → (d ≡ x) ⊎ IsIn d xs
    → IsIn d (place before x xs)
IsIn-place before x d [] h = h
IsIn-place before x d (y ∷ ys) h = elim (Bool-cases (before y x)) [
  | inl first ↦ rw first (pushed (λ k. IsIn-place before x d ys k) h)
  | inr later ↦ rw later h
]

place-IsIn :
    (before : PackageDependencySpec → PackageDependencySpec → Bool) (x d : PackageDependencySpec)
    (xs : List PackageDependencySpec)
    → IsIn d (place before x xs)
    → (d ≡ x) ⊎ IsIn d xs
place-IsIn before x d [] = λ h. h
place-IsIn before x d (y ∷ ys) = elim (Bool-cases (before y x)) [
  | inl first ↦ rw first (λ h. pulled (λ k. place-IsIn before x d ys k) h)
  | inr later ↦ rw later (λ h. h)
]

abbrev spec : Bytes → Bytes → PackageDependencySpec
spec name range = record {
  name = name;
  version_range = range;
  source_kind = path_source;
  location = name;
  reference = [];
}

abbrev name_a : Bytes
name_a = codes "a"

abbrev name_b : Bytes
name_b = codes "b"

abbrev manifest : Bytes → ManifestFile
manifest path =
    if equal path name_a
    then contents
        (record { version = codes "1.2.0"; dependencies = spec name_b (codes "^1.0.0") ∷ [] })
    else if equal path name_b
    then contents (record { version = codes "1.0.5"; dependencies = [] })
    else absent

abbrev world : World
world = record {
  exists = λ path. true;
  is_directory = λ path. true;
  is_regular_file = λ path. false;
  parent_path = λ path. [];
  absolute_lexical = λ root path. path;
  generic_u8string = λ path. path;
  manifest_file = manifest;
  sort_dependencies = insertion_sort;
  sort_texts = insertion_sort;
}

abbrev project : List PackageDependencySpec
project = spec name_b (codes "*") ∷ spec name_a (codes "1.2.0") ∷ []

world-SortKeeps : SortKeeps world
world-SortKeeps [] d h = h
world-SortKeeps (x ∷ xs) d (inl same) =
    IsIn-place is_before x d (insertion_sort is_before xs) (inl same)
world-SortKeeps (x ∷ xs) d (inr more) =
    IsIn-place is_before x d (insertion_sort is_before xs) (inr (world-SortKeeps xs d more))

world-SortAdds : SortAdds world
world-SortAdds [] d h = h
world-SortAdds (x ∷ xs) d h = elim (place-IsIn is_before x d (insertion_sort is_before xs) h) [
  | inl same ↦ inl same
  | inr more ↦ inr (world-SortAdds xs d more)
]

solve-IsResolved_example : IsResolved world project (solve world none 3 [] [] project)
solve-IsResolved_example = solve-IsResolved world none 3 [] [] project world-SortKeeps

in_b-named :
    (d : PackageDependencySpec)
    → IsIn d (spec name_b (codes "^1.0.0") ∷ [])
    → contains d.name (name_a ∷ name_b ∷ []) ≡ true
unfolding equal
in_b-named d (inl same) = rw same refl
in_b-named d (inr never) = absurd never

world-NamesIn : NamesIn world (name_a ∷ name_b ∷ [])
unfolding read_source_metadata
world-NamesIn path d = elim (Bool-cases (equal path name_a)) [
  | inl first ↦ rw first (λ h. in_b-named d h)
  | inr later ↦ elim (Bool-cases (equal path name_b)) [
    | inl second ↦ rw (later, second) (λ h. absurd h)
    | inr none_of ↦ rw (later, none_of) (λ h. absurd h)
  ]
]

project-names :
    (d : PackageDependencySpec) → IsIn d project → contains d.name (name_a ∷ name_b ∷ []) ≡ true
unfolding equal
project-names d (inl same) = rw same refl
project-names d (inr (inl same)) = rw same refl
project-names d (inr (inr never)) = absurd never

solve-Ends_example : Ends (solve world none 3 [] [] project)
solve-Ends_example =
    solve-Ends world none 3 [] [] project (name_a ∷ name_b ∷ []) world-NamesIn world-SortAdds
      project-names (omega arith)
