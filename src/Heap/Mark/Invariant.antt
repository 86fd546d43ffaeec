-- ===== src/Heap/Mark/Invariant.antt =====
-- src/runtime/heap.cpp: what is known of the marked objects while objects are left to mark.
use vxx.Prelude.{◌≡◌, refl, true, false, ◌||◌, inl, inr, List, [], ◌∷◌, ◌++◌, Bool-cases, arith}
use vxx.Heap.Value.{Store, Address, same_address, member}
use vxx.Heap.Graph.{
  successors, Reach, root, step, member-append, same_address_refl, same_address-eq,
}

abbrev pub IsDistinct : List Address → Type 0
IsDistinct [] = Unit
IsDistinct (a ∷ others) = (member a others ≡ false) × IsDistinct others

-- `extra` are the objects that are still to be marked.
pub record Inv (store : Store) (roots extra marked : List Address) : Type 0 where
  -- What is marked or is to be marked can be reached.
  pub sound_marked : (a : Address) → member a marked ≡ true → Reach store roots a
  pub sound_extra : (a : Address) → member a extra ≡ true → Reach store roots a
  pub distinct : IsDistinct marked
  -- No root is forgotten, and nothing that a marked object holds.
  pub has_roots : (a : Address) → member a roots ≡ true → (member a marked || member a extra) ≡ true
  pub has_successors :
      (a b : Address)
      → member a marked ≡ true
      → member b (successors store a) ≡ true
      → (member b marked || member b extra) ≡ true

pub Inv-start : (store : Store) (roots : List Address) → Inv store roots roots []
unfolding member
Inv-start store roots = record {
  sound_marked = λ a h. absurd (ground arith);
  sound_extra = λ a h. root h;
  distinct = tt;
  has_roots = λ a h. h;
  has_successors = λ a b h k. absurd (ground arith);
}

-- The order of what is left does not matter.
pub Inv-reorder :
    (store : Store) (roots extra other marked : List Address)
    → ((a : Address) → member a other ≡ member a extra)
    → Inv store roots extra marked
    → Inv store roots other marked
Inv-reorder store roots extra other marked same inv = record {
  sound_marked = inv.sound_marked;
  sound_extra = λ a h. inv.sound_extra a (rw (← same a) h);
  distinct = inv.distinct;
  has_roots = λ a h. rw (same a) (inv.has_roots a h);
  has_successors = λ a b h k. rw (same b) (inv.has_successors a b h k);
}

covered-drop :
    (a b : Address) (extra marked : List Address)
    → member a marked ≡ true
    → (member b marked || member b (a ∷ extra)) ≡ true
    → (member b marked || member b extra) ≡ true
unfolding member
covered-drop a b extra marked old h = elim (Bool-cases (same_address b a)) [
  | inl same ↦ rw (same_address-eq b a same, old) refl
  | inr other ↦ ground arith
]

-- An object that is marked is not left.
pub Inv-drop :
    (store : Store) (roots extra marked : List Address) (a : Address)
    → member a marked ≡ true
    → Inv store roots (a ∷ extra) marked
    → Inv store roots extra marked
unfolding member
Inv-drop store roots extra marked a old inv = record {
  sound_marked = inv.sound_marked;
  sound_extra = λ b h. inv.sound_extra b (ground arith);
  distinct = inv.distinct;
  has_roots = λ b h. covered-drop a b extra marked old (inv.has_roots b h);
  has_successors = λ b c h k. covered-drop a c extra marked old (inv.has_successors b c h k);
}

covered-mark :
    (a b : Address) (more extra marked : List Address)
    → (member b marked || member b (a ∷ extra)) ≡ true
    → (member b (a ∷ marked) || member b (more ++ extra)) ≡ true
unfolding member
covered-mark a b more extra marked h = rw (member-append b more extra) (ground arith)

later :
    (a b : Address) (more extra : List Address)
    → member b (more ++ extra) ≡ true
    → member b more ≡ false
    → member b (a ∷ extra) ≡ true
unfolding member
later a b more extra h other = ground (arith, member-append b more extra)

covered-held :
    (store : Store) (a b c : Address) (extra marked : List Address)
    → b ≡ a
    → member c (successors store b) ≡ true
    → (member c (a ∷ marked) || member c (successors store a ++ extra)) ≡ true
covered-held store a b c extra marked same held =
    rw (← same, member-append c (successors store b) extra, held) (ground arith)

-- An object is marked, and what it holds is left.
pub Inv-mark :
    (store : Store) (roots extra marked : List Address) (a : Address)
    → member a marked ≡ false
    → Inv store roots (a ∷ extra) marked
    → Inv store roots (successors store a ++ extra) (a ∷ marked)
unfolding member
Inv-mark store roots extra marked a new inv =
    let reached : Reach store roots a = inv.sound_extra a (rw (same_address_refl a) refl) in
    record {
      sound_marked = λ b h. elim (Bool-cases (same_address b a)) [
        | inl same ↦ rw (same_address-eq b a same) reached
        | inr other ↦ inv.sound_marked b (ground arith)
      ];
      sound_extra = λ b h. elim (Bool-cases (member b (successors store a))) [
        | inl held ↦ step reached held
        | inr other ↦ inv.sound_extra b (later a b (successors store a) extra h other)
      ];
      distinct = (new, inv.distinct);
      has_roots = λ b h. covered-mark a b (successors store a) extra marked (inv.has_roots b h);
      has_successors = λ b c h k. elim (Bool-cases (same_address b a)) [
        | inl same ↦ covered-held store a b c extra marked (same_address-eq b a same) k
        | inr other ↦
            covered-mark a c (successors store a) extra marked
              (inv.has_successors b c (ground arith) k)
      ];
    }
