-- ===== src/Solver/Ends/Names.antt =====
-- src/core/package_solver.cpp: the names that are not being visited.
use vxx.Prelude.{
  ℕ, suc, ◌≤◌, ◌≡◌, refl, inl, inr, true, false, List, [], ◌∷◌, length, if◌then◌else◌, Bool-cases,
  arith,
}
use vxx.Prelude.Bytes.{Bytes, equal, equal_iff}
use vxx.Solver.Types.{contains}

-- How many of the names are not being visited.
unfoldable pub open_names : List Bytes → List Bytes → ℕ
open_names [] visiting = 0
open_names (name ∷ names) visiting =
    let rest = open_names names visiting in if contains name visiting then rest else suc rest

open_names-le :
    (names visiting : List Bytes) (key : Bytes)
    → open_names names (key ∷ visiting) ≤ open_names names visiting
unfolding open_names
open_names-le [] visiting key = omega arith
open_names-le (name ∷ names) visiting key = ground (arith, open_names-le names visiting key)

open_names_here :
    (names visiting : List Bytes) (key name : Bytes)
    → contains key visiting ≡ false
    → key ≡ name
    → suc (open_names (name ∷ names) (key ∷ visiting)) ≤ open_names (name ∷ names) visiting
unfolding open_names
open_names_here names visiting key name once same =
    rw (← same, (equal_iff key key).1 refl, once) (omega (arith, open_names-le names visiting key))

pub open_names-nil : (names : List Bytes) → open_names names [] ≤ length names
unfolding open_names
open_names-nil [] = omega arith
open_names-nil (name ∷ names) = omega (arith, open_names-nil names)

pub open_names-enter :
    (names visiting : List Bytes) (key : Bytes)
    → contains key names ≡ true
    → contains key visiting ≡ false
    → suc (open_names names (key ∷ visiting)) ≤ open_names names visiting
unfolding open_names
open_names-enter [] visiting key here once = absurd (ground arith)
open_names-enter (name ∷ names) visiting key here once = elim (Bool-cases (equal key name)) [
  | inl same ↦ open_names_here names visiting key name once ((equal_iff key name).0 same)
  | inr other ↦
      let fewer = open_names-enter names visiting key (ground (arith, here)) once in ground arith
]
