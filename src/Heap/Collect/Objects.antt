-- ===== src/Heap/Collect/Objects.antt =====
-- src/runtime/heap.cpp: what cutting the edges of an object does to the others.
use vxx.Prelude.{ℕ, ◌==◌, ◌≡◌, refl, ◌∙◌, false, none, [], arith, Bool-cases, inl, inr}
use vxx.Heap.Value.{
  Store, Address, map_at, list_at, tuple_at, class_at, instance_at, closure_at, same_address,
}
use vxx.Heap.Graph.{same_address-eq}
use vxx.Heap.Collect.{update, clear}

-- The object has the same contents in both stores.
abbrev pub SameObject : Address → Store → Store → Type 0
SameObject (map_at i) before after = after.maps i ≡ before.maps i
SameObject (list_at i) before after = after.lists i ≡ before.lists i
SameObject (tuple_at i) before after = after.tuples i ≡ before.tuples i
SameObject (class_at i) before after = after.classes i ≡ before.classes i
SameObject (instance_at i) before after = after.instances i ≡ before.instances i
SameObject (closure_at i) before after = after.closures i ≡ before.closures i

-- The object holds nothing.
abbrev pub IsCut : Address → Store → Type 0
IsCut (map_at i) store = store.maps i ≡ []
IsCut (list_at i) store = store.lists i ≡ []
IsCut (tuple_at i) store = store.tuples i ≡ []
IsCut (class_at i) store = ((store.classes i).superclass ≡ none) × ((store.classes i).methods ≡ [])
IsCut (instance_at i) store = ((store.instances i).klass ≡ none) × ((store.instances i).fields ≡ [])
IsCut (closure_at i) store =
    ((store.closures i).captures ≡ []) × ((store.closures i).method_owner_class ≡ none)

pub SameObject-refl : (a : Address) (store : Store) → SameObject a store store
SameObject-refl (map_at i) store = refl
SameObject-refl (list_at i) store = refl
SameObject-refl (tuple_at i) store = refl
SameObject-refl (class_at i) store = refl
SameObject-refl (instance_at i) store = refl
SameObject-refl (closure_at i) store = refl

pub SameObject-trans :
    (a : Address) (first second third : Store)
    → SameObject a first second
    → SameObject a second third
    → SameObject a first third
SameObject-trans (map_at i) first second third h k = k ∙ h
SameObject-trans (list_at i) first second third h k = k ∙ h
SameObject-trans (tuple_at i) first second third h k = k ∙ h
SameObject-trans (class_at i) first second third h k = k ∙ h
SameObject-trans (instance_at i) first second third h k = k ∙ h
SameObject-trans (closure_at i) first second third h k = k ∙ h

update_other {ℓ} :
    {A : Type ℓ} (table : ℕ → A) (i j : ℕ) (value : A)
    → (i == j) ≡ false
    → update table j value i ≡ table i
update_other table i j value other = ground arith

-- Cutting another object changes nothing of this one.
pub clear-SameObject :
    (a b : Address) (store : Store) → same_address a b ≡ false → SameObject a store (clear b store)
unfolding clear same_address
clear-SameObject (map_at i) (map_at j) store other = update_other store.maps i j [] other
clear-SameObject (list_at i) (list_at j) store other = update_other store.lists i j [] other
clear-SameObject (tuple_at i) (tuple_at j) store other = update_other store.tuples i j [] other
clear-SameObject (class_at i) (class_at j) store other = update_other store.classes i j _ other
clear-SameObject (instance_at i) (instance_at j) store other =
    update_other store.instances i j _ other
clear-SameObject (closure_at i) (closure_at j) store other = update_other store.closures i j _ other
clear-SameObject (map_at i) _ store other = refl
clear-SameObject (list_at i) _ store other = refl
clear-SameObject (tuple_at i) _ store other = refl
clear-SameObject (class_at i) _ store other = refl
clear-SameObject (instance_at i) _ store other = refl
clear-SameObject (closure_at i) _ store other = refl

update_self {ℓ} : {A : Type ℓ} (table : ℕ → A) (i : ℕ) (value : A) → update table i value i ≡ value
update_self table i value = ground arith

pub clear-IsCut : (a : Address) (store : Store) → IsCut a (clear a store)
unfolding clear
clear-IsCut (map_at i) store = update_self store.maps i []
clear-IsCut (list_at i) store = update_self store.lists i []
clear-IsCut (tuple_at i) store = update_self store.tuples i []
clear-IsCut (class_at i) store = rw (update_self store.classes i _) (refl, refl)
clear-IsCut (instance_at i) store = rw (update_self store.instances i _) (refl, refl)
clear-IsCut (closure_at i) store = rw (update_self store.closures i _) (refl, refl)

SameObject-IsCut :
    (a : Address) (before after : Store)
    → SameObject a before after
    → IsCut a before
    → IsCut a after
SameObject-IsCut (map_at i) before after h cut = h ∙ cut
SameObject-IsCut (list_at i) before after h cut = h ∙ cut
SameObject-IsCut (tuple_at i) before after h cut = h ∙ cut
SameObject-IsCut (class_at i) before after h cut = rw h cut
SameObject-IsCut (instance_at i) before after h cut = rw h cut
SameObject-IsCut (closure_at i) before after h cut = rw h cut

-- What is cut stays cut.
pub IsCut-clear : (a b : Address) (store : Store) → IsCut a store → IsCut a (clear b store)
IsCut-clear a b store cut = elim (Bool-cases (same_address a b)) [
  | inl same ↦ rw (same_address-eq a b same) (clear-IsCut b store)
  | inr other ↦ SameObject-IsCut a store (clear b store) (clear-SameObject a b store other) cut
]
