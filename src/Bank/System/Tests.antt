-- ===== src/Bank/System/Tests.antt =====
-- Two ATMs at one bank, from their files to the end of `main`.
use structure_of_os.Prelude.{
  ℕ, zero, suc, ℤ, pos, ◌≡◌, refl, Option, none, some, List, [], ◌∷◌, Text, text_eq, bytes, true,
  ◌↔◌, ◌⊎◌, inl, inr, Bool-cases, eqb_ℤ, eqb_ℤ_iff, if◌then◌else◌, arith,
}
use mathlib.Core.Option.{some-injective}
use structure_of_os.Bank.State.{Vault, new_account, new_bank}
use structure_of_os.Bank.Monad.{Outcome, done, blocked, dangling}
use structure_of_os.Bank.Script.{Locals, read_line, command}
use structure_of_os.Bank.Fees.{charge_all}
use structure_of_os.Bank.Fees.Ledger.{Collected, collect-Collected}
use structure_of_os.Bank.Status.{show_all}
use structure_of_os.Bank.Invariant.{IsValid}
use structure_of_os.Bank.Kept.{Kept, closed_account}
use structure_of_os.Bank.System.{
  holds, Atm, Turn, atm_turn, fee_turn, print_turn, Exit, illegal_arguments, exits, new_atms, main,
  run, free_accounts,
}
use structure_of_os.Bank.System.History.{history, AllReady, atms_left}
use structure_of_os.Bank.System.Turns.{Yields, run-Yields}
use structure_of_os.Bank.System.Free.{LeadsTo, free_accounts-frees}
use structure_of_os.Bank.System.End.{Enough, Ends, main-Ends, new_bank-IsValid, new_bank-Kept}

abbrev no_fee : ℕ → ℤ → ℤ
no_fee rate b = pos 1

abbrev unset : Locals
unset = record {
  action = 0;
  account_id = pos 0;
  account_password = [];
  amount = pos 0;
  target_account_id = pos 0;
}

abbrev two_files : Text → Option (List Text)
two_files path =
    if text_eq path (bytes "a")
    then some (bytes "O 5 pw 100" ∷ [] ∷ bytes "Q 5 pw" ∷ [])
    else if text_eq path (bytes "b")
    then some (bytes "D 5 pw 7" ∷ [])
    else none

abbrev schedule : List Turn
schedule =
    atm_turn 0 ∷ atm_turn 1 ∷ fee_turn 3 ∷ atm_turn 0 ∷ print_turn ∷ atm_turn 1 ∷ atm_turn 0 ∷ []

abbrev exit_of : Outcome Exit → Option Exit
exit_of o = elim o [ done e b ↦ some e | blocked k b ↦ none | dangling p b ↦ none ]

schedule_exit :
    exit_of (main two_files (λ id. unset) no_fee (bytes "a" ∷ bytes "b" ∷ []) schedule)
    ≡ some (exits (some (2 ∷ 1 ∷ [])) (some (0 ∷ [])))
unfolding main charge_all show_all
schedule_exit = refl

no_such_file :
    exit_of (main two_files (λ id. unset) no_fee (bytes "a" ∷ bytes "c" ∷ []) schedule)
    ≡ some illegal_arguments
unfolding main
no_such_file = refl

abbrev two_atms : List Atm
two_atms = new_atms two_files (λ id. unset) 1 (bytes "a" ∷ bytes "b" ∷ [])

two_atms-AllReady : AllReady two_atms
unfolding read_line command
two_atms-AllReady zero a e = rw (← some-injective _ a e) (ground arith)
two_atms-AllReady (suc zero) a e = rw (← some-injective _ a e) (ground arith)
two_atms-AllReady (suc (suc i)) a e = cc

two_atms-Enough : Enough two_atms schedule
two_atms-Enough zero a e = rw (← some-injective _ a e) (omega arith)
two_atms-Enough (suc zero) a e = rw (← some-injective _ a e) (omega arith)
two_atms-Enough (suc (suc i)) a e = cc

main-Ends_example :
    Ends
      (main two_files (λ id. unset) no_fee (bytes "a" ∷ bytes "b" ∷ []) schedule)
      (history no_fee two_atms schedule (λ id. none))
main-Ends_example =
    main-Ends no_fee two_files (λ id. unset) (bytes "a") (bytes "b" ∷ []) schedule refl
      two_atms-AllReady two_atms-Enough

run-Yields_example :
    Yields
      (run no_fee two_atms schedule)
      (atms_left two_atms schedule)
      (history no_fee two_atms schedule)
      new_bank.vault
run-Yields_example =
    run-Yields no_fee two_atms schedule new_bank.vault two_atms-AllReady new_bank-IsValid
      new_bank-Kept

-- Number 7 is open and number 5 was closed.
abbrev one_each : Vault
one_each = record {
  balance = pos 4;
  map_of_accounts = (pos 7, 0) ∷ [];
  map_of_deleted_accounts = (pos 5, 1) ∷ [];
  accounts =
      new_account (pos 7) (pos 30) (bytes "pw") ∷ closed_account (pos 5) (pos 1) (bytes "x") ∷ [];
  log = [];
  slept = 0;
}

one_each-IsValid : IsValid one_each
one_each-IsValid id p e = elim (Bool-cases (eqb_ℤ id (pos 7))) [
  | inl same ↦
      let found : some 0 ≡ some p = rw same at e in
      (pos 30, bytes "pw", rw (← some-injective 0 p found, (eqb_ℤ_iff id (pos 7)).0 same) refl)
  | inr other ↦ cc (rw other at e)
]

one_each-Kept : Kept one_each
one_each-Kept = (
  (refl, tt),
  (refl, tt),
  λ id q e. elim (Bool-cases (eqb_ℤ id (pos 5))) [
    | inl same ↦
        let found : some 1 ≡ some q = rw same at e in
        (pos 1, bytes "x", rw (← some-injective 1 q found, (eqb_ℤ_iff id (pos 5)).0 same) refl)
    | inr other ↦ cc (rw other at e)
  ],
)

free_accounts-frees_example :
    (freed : List ℕ) × (free_accounts one_each ≡ some freed)
    × ((p : ℕ)
        → (holds p freed ≡ true)
          ↔ (LeadsTo one_each.map_of_accounts p ⊎ LeadsTo one_each.map_of_deleted_accounts p))
free_accounts-frees_example = free_accounts-frees one_each one_each-IsValid one_each-Kept

collect-Collected_example : Collected no_fee 3 one_each
collect-Collected_example = collect-Collected no_fee 3 one_each one_each-IsValid one_each-Kept
