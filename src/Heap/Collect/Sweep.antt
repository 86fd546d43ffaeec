-- ===== src/Heap/Collect/Sweep.antt =====
-- src/runtime/heap.cpp: what one `sweepRegistry` does.
use vxx.Prelude.{ℕ, ◌==◌, ◌≡◌, ◌⊎◌, inl, inr, Bool, true, false, List, [], ◌∷◌, arith, Bool-cases}
use vxx.Heap.Value.{Store, Address, member}
use vxx.Heap.Graph.{member-differs}
use vxx.Heap.Registry.{prune_expired, has}
use vxx.Heap.Collect.{clear, clear_all, garbage_of, prune, sweep_registry}
use vxx.Heap.Collect.Objects.{
  SameObject, IsCut, SameObject-refl, SameObject-trans, clear-SameObject, clear-IsCut, IsCut-clear,
}

pub has-prune_expired :
    (gone : ℕ → Bool) (entries : List ℕ) (i : ℕ)
    → has i (prune_expired gone entries) ≡ true
    → (has i entries ≡ true) × (gone i ≡ false)
unfolding prune_expired
has-prune_expired gone [] i h = absurd (ground arith)
has-prune_expired gone (j ∷ entries) i h =
    let rest = has-prune_expired gone entries i in (grind (arith, rest), grind (arith, rest))

pub has-prune_fresh :
    (gone : ℕ → Bool) (entries : List ℕ) (i : ℕ)
    → has i entries ≡ true
    → gone i ≡ false
    → has i (prune_expired gone entries) ≡ true
unfolding prune_expired
has-prune_fresh gone [] i h fresh = h
has-prune_fresh gone (j ∷ entries) i h fresh = elim (Bool-cases (i == j)) [
  | inl same ↦ let here : i ≡ j = ground arith in grind arith
  | inr other ↦
      let rest = has-prune_fresh gone entries i (ground arith) fresh in grind (arith, rest)
]

-- What is marked keeps its contents.
pub garbage-SameObject :
    (gone : Address → Bool) (kind : ℕ → Address) (marked : List Address) (entries : List ℕ)
    (store : Store) (a : Address)
    → member a marked ≡ true
    → SameObject a store (clear_all kind (garbage_of gone kind marked entries) store)
unfolding garbage_of clear_all
garbage-SameObject gone kind marked [] store a kept = SameObject-refl a store
garbage-SameObject gone kind marked (i ∷ entries) store a kept = elim (Bool-cases (gone (kind i))) [
  | inl old ↦ rw old (garbage-SameObject gone kind marked entries store a kept)
  | inr fresh ↦ elim (Bool-cases (member (kind i) marked)) [
    | inl found ↦ rw (fresh, found) (garbage-SameObject gone kind marked entries store a kept)
    | inr lost ↦
        rw (fresh, lost)
          (SameObject-trans a store (clear (kind i) store)
            (clear_all kind (garbage_of gone kind marked entries) (clear (kind i) store))
            (clear-SameObject a (kind i) store (member-differs a (kind i) marked kept lost))
            (garbage-SameObject gone kind marked entries (clear (kind i) store) a kept))
  ]
]

clear_all-IsCut :
    (kind : ℕ → Address) (garbage : List ℕ) (store : Store) (a : Address)
    → IsCut a store
    → IsCut a (clear_all kind garbage store)
unfolding clear_all
clear_all-IsCut kind [] store a cut = cut
clear_all-IsCut kind (i ∷ garbage) store a cut =
    clear_all-IsCut kind garbage (clear (kind i) store) a (IsCut-clear a (kind i) store cut)

garbage-IsCut_here :
    (gone : Address → Bool) (kind : ℕ → Address) (marked : List Address) (entries : List ℕ)
    (store : Store) (i j : ℕ)
    → gone (kind i) ≡ false
    → member (kind i) marked ≡ false
    → i ≡ j
    → IsCut (kind i) (clear_all kind (garbage_of gone kind marked (j ∷ entries)) store)
unfolding garbage_of clear_all
garbage-IsCut_here gone kind marked entries store i j fresh lost same =
    rw (← same, fresh, lost)
      (clear_all-IsCut kind (garbage_of gone kind marked entries) (clear (kind i) store) (kind i)
        (clear-IsCut (kind i) store))

garbage-IsCut_later :
    (gone : Address → Bool) (kind : ℕ → Address) (marked : List Address) (entries : List ℕ)
    (store : Store) (i j : ℕ)
    → gone (kind i) ≡ false
    → member (kind i) marked ≡ false
    → ((now : Store) → IsCut (kind i) (clear_all kind (garbage_of gone kind marked entries) now))
    → IsCut (kind i) (clear_all kind (garbage_of gone kind marked (j ∷ entries)) store)
unfolding garbage_of clear_all
garbage-IsCut_later gone kind marked entries store i j fresh lost rest =
    elim (Bool-cases (gone (kind j))) [
      | inl old ↦ rw old (rest store)
      | inr young ↦ elim (Bool-cases (member (kind j) marked)) [
        | inl found ↦ rw (young, found) (rest store)
        | inr missing ↦ rw (young, missing) (rest (clear (kind j) store))
      ]
    ]

-- What is alive and not marked is cut.
garbage-IsCut :
    (gone : Address → Bool) (kind : ℕ → Address) (marked : List Address) (entries : List ℕ)
    (store : Store) (i : ℕ)
    → has i entries ≡ true
    → gone (kind i) ≡ false
    → member (kind i) marked ≡ false
    → IsCut (kind i) (clear_all kind (garbage_of gone kind marked entries) store)
unfolding garbage_of clear_all
garbage-IsCut gone kind marked [] store i here fresh lost = absurd (ground arith)
garbage-IsCut gone kind marked (j ∷ entries) store i here fresh lost = elim (Bool-cases (i == j)) [
  | inl same ↦ garbage-IsCut_here gone kind marked entries store i j fresh lost (ground arith)
  | inr other ↦
      garbage-IsCut_later gone kind marked entries store i j fresh lost
        (λ now. garbage-IsCut gone kind marked entries now i (ground arith) fresh lost)
]

module _ (expired : Store → Address → Bool) where
  pub sweep_registry-SameObject :
      (kind : ℕ → Address) (marked : List Address) (entries : List ℕ) (store : Store) (a : Address)
      → member a marked ≡ true
      → SameObject a store (sweep_registry expired kind marked entries store).store
  unfolding sweep_registry
  sweep_registry-SameObject kind marked entries store a kept =
      garbage-SameObject (expired store) kind marked entries store a kept

  -- An object whose owners are gone stays so while edges are cut.
  abbrev pub Lasts : Type 0
  Lasts =
      (a b : Address) (store : Store) → expired store a ≡ true → expired (clear b store) a ≡ true

  clear_all-expired :
      Lasts
      → (kind : ℕ → Address) (garbage : List ℕ) (store : Store) (a : Address)
      → expired store a ≡ true
      → expired (clear_all kind garbage store) a ≡ true
  unfolding clear_all
  clear_all-expired lasts kind [] store a gone = gone
  clear_all-expired lasts kind (i ∷ garbage) store a gone =
      clear_all-expired lasts kind garbage (clear (kind i) store) a (lasts a (kind i) store gone)

  -- The object holds nothing any more, or its owners are gone.
  abbrev pub IsOver : Address → Store → Type 0
  IsOver a store = IsCut a store ⊎ (expired store a ≡ true)

  pub sweep_registry-keeps_IsOver :
      Lasts
      → (kind : ℕ → Address) (marked : List Address) (entries : List ℕ) (store : Store)
      → (a : Address) → IsOver a store
      → IsOver a (sweep_registry expired kind marked entries store).store
  unfolding sweep_registry
  sweep_registry-keeps_IsOver lasts kind marked entries store a (inl cut) =
      inl (clear_all-IsCut kind (garbage_of (expired store) kind marked entries) store a cut)
  sweep_registry-keeps_IsOver lasts kind marked entries store a (inr gone) =
      inr
        (clear_all-expired lasts kind (garbage_of (expired store) kind marked entries) store a gone)

  -- What was in the registry is marked, or it is over after the sweep.
  pub sweep_registry-IsOver :
      Lasts
      → (kind : ℕ → Address) (marked : List Address) (entries : List ℕ) (store : Store) (i : ℕ)
      → has i entries ≡ true
      → (member (kind i) marked ≡ true)
        ⊎ IsOver (kind i) (sweep_registry expired kind marked entries store).store
  unfolding sweep_registry
  sweep_registry-IsOver lasts kind marked entries store i here =
      elim (Bool-cases (member (kind i) marked)) [
        | inl found ↦ inl found
        | inr lost ↦ elim (Bool-cases (expired store (kind i))) [
          | inl gone ↦
              inr (sweep_registry-keeps_IsOver lasts kind marked entries store (kind i) (inr gone))
          | inr fresh ↦
              inr (inl (garbage-IsCut (expired store) kind marked entries store i here fresh lost))
        ]
      ]

  -- A sweep adds nothing to the registry.
  pub has-sweep_registry :
      (kind : ℕ → Address) (marked : List Address) (entries : List ℕ) (store : Store) (i : ℕ)
      → has i (sweep_registry expired kind marked entries store).entries ≡ true
      → has i entries ≡ true
  unfolding sweep_registry prune
  has-sweep_registry kind marked entries store i h =
      let cleared = clear_all kind (garbage_of (expired store) kind marked entries) store in
      (has-prune_expired (λ (j : ℕ). expired cleared (kind j)) entries i h).0
