-- ===== src/Bank/System.antt =====
-- `main` of HW4 (bank.cpp), its threads and the end of the bank. A thread is what is left of its
-- work; a schedule says whose turn it is, and a turn is one line of an input file, one round of
-- commissions or one round of the status print. Which files exist, with their lines, is a parameter.
pub mod History
pub mod Turns
pub mod Free
pub mod End
mod Tests
use structure_of_os.Prelude.{
  ℕ, suc, ◌≡◌, ℤ, Bool, true, false, ◌||◌, ◌&&◌, ◌==◌, Option, none, some, List, [], ◌∷◌, ◌++◌, map,
  Text, ⊤, get_elem?, set, if◌then◌else◌,
}
use structure_of_os.Bank.Dict.{Dict}
use structure_of_os.Bank.State.{Vault, new_bank}
use structure_of_os.Bank.Monad.{Action, Outcome, pure, ◌>>=◌, ◌>>◌, gets}
use structure_of_os.Bank.Script.{Locals, read_line, command, execute}
use structure_of_os.Bank.Fees.{rand_fee, collect}
use structure_of_os.Bank.Status.{accounts_status_print}

-- `class atm`, less its pointers into the bank, with the variables of its `parser_file` and the
-- lines that it has not read yet.
pub record Atm : Type 0 where
  pub id : ℕ
  pub file_path : Text
  pub lines : List Text
  pub locals : Locals

-- A line that `getline` gives the loop of `atm::parser_file`.
unfoldable pub take_line : Atm → Text → Action Atm
unfolding execute read_line command
take_line a [] = pure a
take_line a (c ∷ t) =
    let new = read_line a.locals (c ∷ t) in
    execute a.id (command new) >> pure (record a { locals = new })

-- One round of that loop; an ATM without lines has ended.
unfoldable pub next_line : Atm → Action Atm
unfolding take_line
next_line a = elim a.lines [
  | [] ↦ pure a
  | line ∷ rest ↦ take_line (record a { lines = rest }) line
]

pub data Turn : Type 0 where
  atm_turn : (thread : ℕ) → Turn
  fee_turn : (rand : ℕ) → Turn
  print_turn : Turn

abbrev pub is_done : List Text → Bool
is_done [] = true
is_done (line ∷ lines) = false

-- Every ATM has ended: what the joins of `main` wait for.
abbrev pub all_done : List Atm → Bool
all_done [] = true
all_done (a ∷ atms) = is_done a.lines && all_done atms

-- `delete` of each pointer in order; a pointer that was deleted before is an error.
abbrev pub holds : ℕ → List ℕ → Bool
holds p [] = false
holds p (q ∷ l) = p == q || holds p l

abbrev pub delete_all : List ℕ → List ℕ → Option (List ℕ)
delete_all freed [] = some freed
delete_all freed (p ∷ l) = if holds p freed then none else delete_all (p ∷ freed) l

abbrev pub pointers : Dict → List ℕ
pointers [] = []
pointers ((id, p) ∷ m) = p ∷ pointers m

-- `bank::free_accounts`
unfoldable pub free_accounts : Vault → Option (List ℕ)
free_accounts v = elim (delete_all [] (pointers v.map_of_accounts)) [
  | none ↦ none
  | some freed ↦ delete_all freed (pointers v.map_of_deleted_accounts)
]

-- The objects of `list_of_atms`; an ATM is told from the others by its number.
abbrev pub numbers : List Atm → List ℕ
numbers [] = []
numbers (a ∷ atms) = a.id ∷ numbers atms

-- `bank::free_atms`
unfoldable pub free_atms : List Atm → Option (List ℕ)
free_atms atms = delete_all [] (numbers atms)

-- How `main` ends: with a message and `exit(1)`, waiting for an ATM, or with the ATMs and the
-- accounts freed.
pub data Exit : Type 0 where
  illegal_arguments : Exit
  joins : List Atm → Exit
  exits : (freed_atms freed : Option (List ℕ)) → Exit

-- `bank::~bank`
abbrev pub delete_bank : List Atm → Vault → Exit
delete_bank atms v = exits (free_atms atms) (free_accounts v)

-- `atm_handler` runs `parser_file` of the ATM in this place.
unfoldable pub atm_handler : List Atm → ℕ → Action (List Atm)
unfolding next_line take_line
atm_handler atms i = elim (get_elem? atms i) [
  | none ↦ pure atms
  | some a ↦ next_line a >>= λ a'. pure (set atms i a')
]

module _ (fee_of : ℕ → ℤ → ℤ) where
  unfoldable pub turn : List Atm → Turn → Action (List Atm)
  unfolding atm_handler collect accounts_status_print
  turn atms (atm_turn i) = atm_handler atms i
  turn atms (fee_turn r) = collect fee_of (rand_fee r) >> pure atms
  turn atms print_turn = accounts_status_print >>= λ _. pure atms

  unfoldable pub run : List Atm → List Turn → Action (List Atm)
  unfolding turn
  run atms [] = pure atms
  run atms (t ∷ turns) = turn atms t >>= λ atms'. run atms' turns

  -- The threads run; where all ATMs have ended, `delete leumi` follows.
  unfoldable pub start : List Atm → List Turn → Action Exit
  unfolding run free_atms free_accounts
  start atms turns =
      run atms turns >>= λ left. gets λ v. if all_done left then delete_bank left v else joins left

module _ (files : Text → Option (List Text)) (unset : ℕ → Locals) where
  -- `vallid_file`
  abbrev pub valid_file : Text → Bool
  valid_file path = elim (files path) [ none ↦ false | some _ ↦ true ]

  abbrev pub all_valid : List Text → Bool
  all_valid [] = true
  all_valid (path ∷ paths) = valid_file path && all_valid paths

  abbrev pub lines_of : Option (List Text) → List Text
  lines_of none = []
  lines_of (some lines) = lines

  -- `atm::atm` and the variables of its thread's own with which `parser_file` starts, `unset`
  abbrev pub new_atm : ℕ → Text → Atm
  new_atm id path = record {
    id = id;
    file_path = path;
    lines = lines_of (files path);
    locals = unset id;
  }

  -- The loop of `main` that makes the ATMs, from the number that the next one gets.
  abbrev pub new_atms : ℕ → List Text → List Atm
  new_atms id [] = []
  new_atms id (path ∷ paths) = new_atm id path ∷ new_atms (suc id) paths

  -- `main`, from its arguments after the name of the program.
  unfoldable pub main : (ℕ → ℤ → ℤ) → List Text → List Turn → Outcome Exit
  unfolding start
  main fee_of [] turns = pure illegal_arguments new_bank
  main fee_of (path ∷ paths) turns =
      if all_valid (path ∷ paths)
      then start fee_of (new_atms 1 (path ∷ paths)) turns new_bank
      else pure illegal_arguments new_bank
