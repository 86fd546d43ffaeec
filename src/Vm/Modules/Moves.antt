-- ===== src/Vm/Modules/Moves.antt =====
-- One change of the state of a module.
use vxx.Prelude.{
  true, false, ◌≡◌, ◌≢◌, ◌⊎◌, refl, inl, inr, Option, none, some, List, [], ◌∷◌, Bool-cases, arith,
}
use vxx.Prelude.Bytes.{Bytes, equal, equal_iff}
use vxx.Vm.Modules.{
  ModuleState, uninitialized, initializing, initialized, failed, RuntimeModule, ModuleTable, same,
  state_is, lookup, find, state_of, state_at, with_state, move, Initialization, complete_with,
  stopped,
}

same_refl : (state : ModuleState) → same state state ≡ true
unfolding same
same_refl uninitialized = refl
same_refl initializing = refl
same_refl initialized = refl
same_refl failed = refl

pub not_equal : (a b c : Bytes) → equal a b ≡ true → b ≢ c → equal a c ≡ false
not_equal a b c h other = elim (Bool-cases (equal a c)) [
  | inl both ↦ absurd (other (rw (← (equal_iff a b).0 h) ((equal_iff a c).0 both)))
  | inr differ ↦ differ
]

module _ {Location : Type 0} where
  lookup-with_state :
      (id : Bytes) (state : ModuleState) (ms : List (RuntimeModule Location))
      (m : RuntimeModule Location)
      → lookup ms id ≡ some m
      → state_of (lookup (with_state id state ms) id) ≡ some state
  unfolding lookup with_state state_of
  lookup-with_state id state [] m h = ground arith
  lookup-with_state id state (n ∷ ms) m h = elim (Bool-cases (equal n.identity id)) [
    | inl here ↦ rw (here, here) refl
    | inr later ↦ rw (later, later) (lookup-with_state id state ms m (ground arith))
  ]

  lookup-with_state_other :
      (id other : Bytes) (state : ModuleState) (ms : List (RuntimeModule Location))
      → id ≢ other
      → state_of (lookup (with_state id state ms) other) ≡ state_of (lookup ms other)
  unfolding lookup with_state
  lookup-with_state_other id other state [] h = refl
  lookup-with_state_other id other state (n ∷ ms) h = elim (Bool-cases (equal n.identity id)) [
    | inl here ↦ let away = not_equal n.identity id other here h in rw (here, away) refl
    | inr later ↦ elim (Bool-cases (equal n.identity other)) [
      | inl found ↦ rw (later, found) refl
      | inr not_found ↦ rw (later, not_found) (lookup-with_state_other id other state ms h)
    ]
  ]

  -- A module that needs no more work, or no module at all.
  abbrev pub IsSettled : ModuleTable Location → Bytes → Type 0
  IsSettled table id = (state_at table id ≡ none) ⊎ (state_at table id ≡ some initialized)

  state_is-settled :
      (from : ModuleState) (table : ModuleTable Location) (id : Bytes)
      → same from initialized ≡ false
      → IsSettled table id
      → state_is from (state_at table id) ≡ false
  unfolding state_is
  state_is-settled from table id h (inl e) = rw e refl
  state_is-settled from table id h (inr e) = rw e h

  other_state :
      (from to : ModuleState) (id other : Bytes) (table : ModuleTable Location)
      → same from initialized ≡ false
      → IsSettled table other
      → state_is from (state_at table id) ≡ true
      → state_at (record table { modules = with_state id to table.modules }) other
        ≡ state_at table other
  unfolding state_at find
  other_state from to id other table h settled moves =
      lookup-with_state_other id other to table.modules
        (λ e. absurd (let stays = state_is-settled from table other h settled in cc))

  pub move-settled :
      (from to : ModuleState) (id other : Bytes) (table : ModuleTable Location)
      → same from initialized ≡ false
      → IsSettled table other
      → state_at (move from to id table).1 other ≡ state_at table other
  unfolding move
  move-settled from to id other table h settled =
      elim (Bool-cases (state_is from (state_at table id))) [
        | inr stays ↦ rw stays refl
        | inl moves ↦ rw moves (other_state from to id other table h settled moves)
      ]

  state-with_state :
      (id : Bytes) (from to : ModuleState) (ms : List (RuntimeModule Location))
      (m : Option (RuntimeModule Location))
      → lookup ms id ≡ m
      → state_of m ≡ some from
      → state_of (lookup (with_state id to ms) id) ≡ some to
  unfolding state_of
  state-with_state id from to ms none e h = ground arith
  state-with_state id from to ms (some m) e h = lookup-with_state id to ms m e

  moved_state :
      (from to : ModuleState) (id : Bytes) (table : ModuleTable Location)
      → state_at table id ≡ some from
      → state_at (record table { modules = with_state id to table.modules }) id ≡ some to
  unfolding state_at find
  moved_state from to id table h =
      state-with_state id from to table.modules (lookup table.modules id) refl h

  -- A change of state that is due is made.
  pub move-state :
      (from to : ModuleState) (id : Bytes) (table : ModuleTable Location)
      → state_at table id ≡ some from
      → state_at (move from to id table).1 id ≡ some to
  unfolding move state_is
  move-state from to id table h = rw (h, same_refl from) (moved_state from to id table h)

  pub move-stays :
      (id : Bytes) (table : ModuleTable Location)
      → state_at table id ≡ some initializing
      → move uninitialized initializing id table ≡ (false, table)
  unfolding move state_is same
  move-stays id table h = rw h refl

  pub move-order :
      (from to : ModuleState) (id : Bytes) (table : ModuleTable Location)
      → (move from to id table).1.order ≡ table.order
  unfolding move
  move-order from to id table = elim (Bool-cases (state_is from (state_at table id))) [
    | inl moves ↦ rw moves refl
    | inr stays ↦ rw stays refl
  ]

  abbrev pub table_of : {S E : Type 0} → Initialization Location S E → ModuleTable Location
  table_of (complete_with table s) = table
  table_of (stopped e table s) = table
