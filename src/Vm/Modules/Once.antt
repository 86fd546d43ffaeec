-- ===== src/Vm/Modules/Once.antt =====
-- What a pass over the modules does after a pass that came to its end.
use vxx.Prelude.{sym, ◌∙◌, ◌≡◌, refl, ap, inl, inr, List, [], ◌∷◌, arith}
use vxx.Prelude.Bytes.{Bytes}
use vxx.Bytecode.Opcode.{Instruction}
use vxx.Vm.Safe.{Every}
use vxx.Vm.Modules.{
  ModuleTable, Ran, state_at, Initialization, complete_with, stopped, initialize_one, and_on,
  initialize_from, initialize_modules,
}
use vxx.Vm.Modules.Moves.{IsSettled, table_of}
use vxx.Vm.Modules.Rounds.{one-settled, Settles, one-Settles}
use vxx.Vm.Modules.Order.{initialize_from-order}

module _ {Location S E : Type 0} (run : List Instruction → List Location → S → Ran S E) where
  rest-settled :
      (other : Bytes) (one : Initialization Location S E) (table : ModuleTable Location)
      (rest : ModuleTable Location → S → Initialization Location S E)
      → state_at (table_of one) other ≡ state_at table other
      → ((table' : ModuleTable Location) (s' : S)
          → state_at table' other ≡ state_at table other
          → state_at (table_of (rest table' s')) other ≡ state_at table' other)
      → state_at (table_of (and_on run one rest)) other ≡ state_at table other
  unfolding and_on
  rest-settled other (complete_with table' s') table rest e h = rw (← e) (h table' s' e)
  rest-settled other (stopped error table' s') table rest e h = e

  -- A module that is settled stays as it is, whatever runs.
  pub initialize_from-settled :
      (ids : List Bytes) (other : Bytes) (table : ModuleTable Location) (s : S)
      → IsSettled table other
      → state_at (table_of (initialize_from run ids table s)) other ≡ state_at table other
  unfolding initialize_from
  initialize_from-settled [] other table s settled = refl
  initialize_from-settled (id ∷ ids) other table s settled =
      rest-settled other (initialize_one run id (state_at table id) table s) table
        (λ table' s'. initialize_from run ids table' s')
        (one-settled run id other (state_at table id) table s settled)
        (λ table' s' e. initialize_from-settled ids other table' s' (rw e settled))

  abbrev AllSettled : List Bytes → Initialization Location S E → Type 0
  AllSettled ids (complete_with table s) = Every (IsSettled table) ids
  AllSettled ids (stopped e table s) = Unit

  more_settled :
      (id : Bytes) (ids : List Bytes) (result : Initialization Location S E)
      → IsSettled (table_of result) id
      → AllSettled ids result
      → AllSettled (id ∷ ids) result
  more_settled id ids (complete_with table s) h rest = (h, rest)
  more_settled id ids (stopped e table s) h rest = tt

  rest-AllSettled :
      (id : Bytes) (ids : List Bytes) (one : Initialization Location S E)
      (rest : ModuleTable Location → S → Initialization Location S E)
      → Settles run id one
      → ((table : ModuleTable Location) (s : S)
          → IsSettled table id
          → AllSettled (id ∷ ids) (rest table s))
      → AllSettled (id ∷ ids) (and_on run one rest)
  unfolding and_on
  rest-AllSettled id ids (complete_with table s) rest settled h = h table s settled
  rest-AllSettled id ids (stopped e table s) rest settled h = tt

  initialize_from-AllSettled :
      (ids : List Bytes) (table : ModuleTable Location) (s : S)
      → AllSettled ids (initialize_from run ids table s)
  unfolding initialize_from
  initialize_from-AllSettled [] table s = tt
  initialize_from-AllSettled (id ∷ ids) table s =
      rest-AllSettled id ids (initialize_one run id (state_at table id) table s)
        (λ table' s'. initialize_from run ids table' s')
        (one-Settles run id (state_at table id) table s refl)
        (λ table' s' settled.
          more_settled id ids (initialize_from run ids table' s')
            (rw (initialize_from-settled ids id table' s' settled) settled)
            (initialize_from-AllSettled ids table' s'))

  pub one-again :
      (id : Bytes) (table : ModuleTable Location) (s : S)
      → IsSettled table id
      → initialize_one run id (state_at table id) table s ≡ complete_with table s
  unfolding initialize_one
  one-again id table s (inl e) = rw e refl
  one-again id table s (inr e) = rw e refl

  again :
      (ids : List Bytes) (table : ModuleTable Location) (s : S)
      → Every (IsSettled table) ids
      → initialize_from run ids table s ≡ complete_with table s
  unfolding initialize_from and_on
  again [] table s h = refl
  again (id ∷ ids) table s (here, rest) = rw (one-again id table s here) (again ids table s rest)

  settled-again :
      (ids : List Bytes) (result : Initialization Location S E) (table' : ModuleTable Location)
      (s' s2 : S)
      → result ≡ complete_with table' s'
      → AllSettled ids result
      → initialize_from run ids table' s2 ≡ complete_with table' s2
  settled-again ids (complete_with table s) table' s' s2 e h =
      let same_table = ap table_of e in rw (← same_table) (again ids table s2 h)
  settled-again ids (stopped error table s) table' s' s2 e h = absurd (ground arith)

-- Once the modules of a table are initialized, initializing them again runs no initializer and changes
-- nothing: it leaves the table and whatever state it is given as they are.
pub initialize_modules-again :
    {Location S E : Type 0} (run : List Instruction → List Location → S → Ran S E)
    (table table' : ModuleTable Location) (s s' s2 : S)
    → initialize_modules run table s ≡ complete_with table' s'
    → initialize_modules run table' s2 ≡ complete_with table' s2
unfolding initialize_modules
initialize_modules-again run table table' s s' s2 h =
    let same_order =
      (ap (λ r. (table_of r).order) (sym h)) ∙ initialize_from-order run table.order table s in
    ap (λ ids. initialize_from run ids table' s2) same_order
    ∙ settled-again run table.order (initialize_from run table.order table s) table' s' s2 h
        (initialize_from-AllSettled run table.order table s)
