-- ===== src/Vm/Modules/Rounds.antt =====
-- One round of `initializeModules`: what it does to the states of the modules.
use vxx.Prelude.{Bool, true, false, ◌≡◌, refl, inl, inr, Option, none, some, List}
use vxx.Prelude.Bytes.{Bytes}
use vxx.Bytecode.Opcode.{Instruction}
use vxx.Vm.Modules.{
  ModuleState, uninitialized, initializing, initialized, failed, ModuleTable, same, Ran, finished,
  raised, find, state_at, move, begin, complete, fail, Initialization, complete_with, stopped,
  run_module, finish, start, initialize_one,
}
use vxx.Vm.Modules.Moves.{IsSettled, move-settled, move-state, move-stays, table_of}

module _ {Location S E : Type 0} (run : List Instruction → List Location → S → Ran S E) where
  finish-settled :
      (id other : Bytes) (table : ModuleTable Location) (ran : Ran S E)
      → IsSettled table other
      → state_at (table_of (finish run id table ran)) other ≡ state_at table other
  unfolding finish complete fail same
  finish-settled id other table (finished s) settled =
      move-settled initializing initialized id other table refl settled
  finish-settled id other table (raised e s) settled =
      move-settled initializing failed id other table refl settled

  start-settled :
      (id other : Bytes) (s : S) (begun : Bool × ModuleTable Location)
      → IsSettled begun.1 other
      → state_at (table_of (start run id s begun)) other ≡ state_at begun.1 other
  unfolding start
  start-settled id other s (false, table) settled = refl
  start-settled id other s (true, table) settled =
      finish-settled id other table (run_module run (find table id) s) settled

  begin-settled :
      (id other : Bytes) (table : ModuleTable Location) (s : S)
      → IsSettled table other
      → state_at (table_of (start run id s (begin id table))) other ≡ state_at table other
  unfolding begin same
  begin-settled id other table s settled =
      let begun = move-settled uninitialized initializing id other table refl settled in
      rw (← begun)
        (start-settled id other s (move uninitialized initializing id table) (rw begun settled))

  pub one-settled :
      (id other : Bytes) (state : Option ModuleState) (table : ModuleTable Location) (s : S)
      → IsSettled table other
      → state_at (table_of (initialize_one run id state table s)) other ≡ state_at table other
  unfolding initialize_one
  one-settled id other none table s settled = refl
  one-settled id other (some initialized) table s settled = refl
  one-settled id other (some failed) table s settled = refl
  one-settled id other (some uninitialized) table s settled = begin-settled id other table s settled
  one-settled id other (some initializing) table s settled = begin-settled id other table s settled

  -- After a round that comes to its end, its module is settled.
  abbrev pub Settles : Bytes → Initialization Location S E → Type 0
  Settles id (complete_with table s) = IsSettled table id
  Settles id (stopped e table s) = Unit

  finish-Settles :
      (id : Bytes) (table : ModuleTable Location) (ran : Ran S E)
      → state_at table id ≡ some initializing
      → Settles id (finish run id table ran)
  unfolding finish complete
  finish-Settles id table (finished s) h = inr (move-state initializing initialized id table h)
  finish-Settles id table (raised e s) h = tt

  start-Settles :
      (id : Bytes) (s : S) (begun : Bool × ModuleTable Location)
      → state_at begun.1 id ≡ some initializing
      → Settles id (start run id s begun)
  unfolding start
  start-Settles id s (false, table) h = tt
  start-Settles id s (true, table) h = finish-Settles id table (run_module run (find table id) s) h

  pub one-Settles :
      (id : Bytes) (state : Option ModuleState) (table : ModuleTable Location) (s : S)
      → state_at table id ≡ state
      → Settles id (initialize_one run id state table s)
  unfolding initialize_one begin start
  one-Settles id none table s h = inl h
  one-Settles id (some initialized) table s h = inr h
  one-Settles id (some failed) table s h = tt
  one-Settles id (some uninitialized) table s h =
      start-Settles id s (move uninitialized initializing id table)
        (move-state uninitialized initializing id table h)
  one-Settles id (some initializing) table s h = rw (move-stays id table h) tt
