-- ===== src/Bank/Tests.antt =====
-- Runs of small input files, and the theorems at concrete banks.
use structure_of_os.Prelude.{
  ℕ, ℤ, pos, negsuc, ◌≡◌, ◌≢◌, refl, some, none, true, Bool-cases, inl, inr, eqb_ℤ, List, [], ◌∷◌,
  Text, bytes, arith, ◌+ℤ◌, ◌-ℤ◌, ⊤, eqb_ℤ_iff, get_elem?,
}
use structure_of_os.Prelude.Int.{IsInt}
use structure_of_os.Bank.Dict.{find}
use structure_of_os.Bank.State.{
  Account, new_account, Bank, Message, Vault, idle, opened, does_not_exist, wrong_password,
  deposited, withdrew, balance_too_low, closed, balance_is, transferred, account_write,
  account_list_write, transfer,
}
use structure_of_os.Bank.Monad.{Outcome, done, blocked, dangling, ◌>>◌}
use structure_of_os.Bank.Atm.{
  create_account, deposit_to_account, withdrawal_from_account, balance_check, closing_account,
  transfer_between_accounts,
}
use structure_of_os.Bank.Script.{Locals, read_line, command, execute, parser_file}
use structure_of_os.Bank.Replay.{commands, AllSeparate, Achieves, replay, parser_file-Achieves}
use structure_of_os.Bank.Invariant.{IsValid, IsOpen, view}
use structure_of_os.Bank.Ledger
use structure_of_os.Bank.Refines.{Refines}
use structure_of_os.Bank.Refines.Create.{create-Refines}
use structure_of_os.Bank.Refines.Protected.{
  deposit-Refines, withdrawal-Refines, check-Refines, closing-Refines,
}
use structure_of_os.Bank.Refines.Transfer.{transfer-Refines, transfer_to_self-blocked, stuck}
use structure_of_os.Bank.Money.{Conserves, transfer-Conserves}
use structure_of_os.Bank.Kept.{AllClosed}
use structure_of_os.Bank.System.Free.{LeadsTo}
use structure_of_os.Bank.Reclose.{closing-forgets}
use structure_of_os.Bank.Repeats.{parser_file-repeats}

abbrev unset : Locals
unset = record {
  action = 0;
  account_id = pos 0;
  account_password = [];
  amount = pos 0;
  target_account_id = pos 0;
}

abbrev empty : Vault
empty = record {
  balance = pos 0;
  map_of_accounts = [];
  map_of_deleted_accounts = [];
  accounts = [];
  log = [];
  slept = 0;
}

abbrev script : List Text
script =
    bytes "O 12 abcd 100"
    ∷ bytes "D 12 abcd 15"
    ∷ []
    ∷ bytes "O 7 pw -3"
    ∷ bytes "W 12 abcd 16"
    ∷ bytes "W 12 abce 16"
    ∷ bytes "T 12 abcd 7 50"
    ∷ bytes "B 7 pw"
    ∷ bytes "Q 12 abcd"
    ∷ bytes "D 12 abcd 1"
    ∷ bytes "W 7 pw 90"
    ∷ bytes "X 7 pw 90"
    ∷ []

abbrev log_of : Outcome ⊤ → List Message
log_of (done a b) = b.vault.log
log_of (blocked k b) = b.vault.log
log_of (dangling p b) = b.vault.log

script_log :
    log_of (parser_file 3 unset script (idle empty))
    ≡ opened 3 (pos 12) (bytes "abcd") (pos 100)
      ∷ deposited 3 (pos 12) (pos 115) (pos 15)
      ∷ opened 3 (pos 7) (bytes "pw") (negsuc 2)
      ∷ withdrew 3 (pos 12) (pos 99) (pos 16)
      ∷ wrong_password 3 (pos 12)
      ∷ transferred 3 (pos 50) (pos 12) (pos 7) (pos 49) (pos 47)
      ∷ balance_is 3 (pos 7) (pos 47)
      ∷ closed 3 (pos 12) (pos 49)
      ∷ does_not_exist 3 (pos 12)
      ∷ balance_too_low 3 (pos 7) (pos 90)
      ∷ []
unfolding parser_file execute command read_line
script_log = refl

empty-IsValid : IsValid empty
empty-IsValid id p e = cc

script-AllSeparate : AllSeparate (commands unset script)
unfolding read_line command
script-AllSeparate = ground arith

parser_file-Achieves_example :
    Achieves (parser_file 3 unset script) (replay 3 (commands unset script)) empty
parser_file-Achieves_example =
    parser_file-Achieves 3 unset script empty script-AllSeparate empty-IsValid

-- Two accounts are open, and another one under the number 7 was closed.
abbrev two_accounts : Vault
two_accounts = record {
  balance = pos 4;
  map_of_accounts = (pos 7, 1) ∷ (pos 12, 0) ∷ [];
  map_of_deleted_accounts = (pos 7, 2) ∷ [];
  accounts =
      new_account (pos 12) (pos 100) (bytes "abcd")
      ∷ new_account (pos 7) (negsuc 2) (bytes "pw")
      ∷ record (new_account (pos 7) (pos 5) (bytes "pw")) { deleted = true }
      ∷ [];
  log = [];
  slept = 0;
}

abbrev at_7 : IsOpen (pos 7) two_accounts 1 (negsuc 2) (bytes "pw")
at_7 = (refl, refl)

abbrev at_12 : IsOpen (pos 12) two_accounts 0 (pos 100) (bytes "abcd")
at_12 = (refl, refl)

two_accounts-IsValid : IsValid two_accounts
two_accounts-IsValid id p e = elim (Bool-cases (eqb_ℤ id (pos 7))) [
  | inl same ↦
      let found : some 1 ≡ some p = rw same at e in
      (negsuc 2, bytes "pw", cc (found, at_7.1, (eqb_ℤ_iff id (pos 7)).0 same))
  | inr other ↦ elim (Bool-cases (eqb_ℤ id (pos 12))) [
    | inl same ↦
        let found : some 0 ≡ some p = rw (other, same) at e in
        (pos 100, bytes "abcd", cc (found, at_12.1, (eqb_ℤ_iff id (pos 12)).0 same))
    | inr neither ↦ cc (rw (other, neither) at e)
  ]
]

create-Refines_example :
    Refines
      (create_account 1 (pos 9) (bytes "new") (pos 30))
      (Ledger.create 1 (pos 9) (bytes "new") (pos 30))
      two_accounts
create-Refines_example =
    create-Refines 1 (pos 9) (bytes "new") (pos 30) two_accounts two_accounts-IsValid

deposit-Refines_example :
    Refines
      (deposit_to_account 1 (pos 7) (bytes "pw") (pos 30))
      (Ledger.deposit 1 (pos 7) (bytes "pw") (pos 30))
      two_accounts
deposit-Refines_example =
    deposit-Refines 1 (pos 7) (bytes "pw") (pos 30) two_accounts two_accounts-IsValid

withdrawal-Refines_example :
    Refines
      (withdrawal_from_account 1 (pos 12) (bytes "abcd") (pos 30))
      (Ledger.withdraw 1 (pos 12) (bytes "abcd") (pos 30))
      two_accounts
withdrawal-Refines_example =
    withdrawal-Refines 1 (pos 12) (bytes "abcd") (pos 30) two_accounts two_accounts-IsValid

check-Refines_example :
    Refines
      (balance_check 1 (pos 12) (bytes "abcd"))
      (Ledger.check 1 (pos 12) (bytes "abcd"))
      two_accounts
check-Refines_example = check-Refines 1 (pos 12) (bytes "abcd") two_accounts two_accounts-IsValid

closing-Refines_example :
    Refines
      (closing_account 1 (pos 12) (bytes "abcd"))
      (Ledger.close 1 (pos 12) (bytes "abcd"))
      two_accounts
closing-Refines_example =
    closing-Refines 1 (pos 12) (bytes "abcd") two_accounts two_accounts-IsValid

twelve_is_not_seven : pos 12 ≢ pos 7
twelve_is_not_seven e = cc

transfer-Refines_example :
    Refines
      (transfer_between_accounts 1 (pos 12) (bytes "abcd") (pos 7) (pos 40))
      (Ledger.transfer 1 (pos 12) (bytes "abcd") (pos 7) (pos 40))
      two_accounts
transfer-Refines_example =
    transfer-Refines 1 (pos 12) (bytes "abcd") (pos 7) (pos 40) two_accounts twelve_is_not_seven
      two_accounts-IsValid

in_range : IsInt (pos 100 -ℤ pos 40) × IsInt (negsuc 2 +ℤ pos 40)
unfolding ◌-ℤ◌ ◌+ℤ◌
in_range = ((omega arith, omega arith), (omega arith, omega arith))

transfer-Conserves_example :
    (v' : Vault) × (transfer_between_accounts 1
        (pos 12)
        (bytes "abcd")
        (pos 7)
        (pos 40)
        (idle two_accounts)
      ≡ done tt (idle v'))
    × Conserves (pos 12) (pos 7) (view two_accounts) (view v')
transfer-Conserves_example =
    transfer-Conserves 1 (pos 12) (bytes "abcd") (pos 7) (pos 40) two_accounts
      (record { balance = pos 100; password = bytes "abcd" })
      (record { balance = negsuc 2; password = bytes "pw" }) twelve_is_not_seven
      two_accounts-IsValid refl refl in_range.0 in_range.1

transfer_to_self-blocked_example :
    (a : Account) × (get_elem? two_accounts.accounts 1 ≡ some a)
    × (transfer_between_accounts 1 (pos 7) (bytes "pw") (pos 7) (pos 1) (idle two_accounts)
        ≡ blocked (account_write 1) (stuck two_accounts 1 a))
    × ((other : ℕ) (i : ℤ) (w : Text) (y : ℤ)
        → (c : Bank) × (create_account other i w y (stuck two_accounts 1 a)
            ≡ blocked account_list_write c))
    × ((other : ℕ) (i : ℤ) (w : Text)
        → (c : Bank) × (closing_account other i w (stuck two_accounts 1 a)
            ≡ blocked account_list_write c))
    × ((other : ℕ) (i : ℤ) (w : Text) (j y : ℤ)
        → (c : Bank) × (transfer_between_accounts other i w j y (stuck two_accounts 1 a)
            ≡ blocked transfer c))
transfer_to_self-blocked_example =
    transfer_to_self-blocked 1 (pos 7) (bytes "pw") (pos 1) two_accounts 1 two_accounts-IsValid refl

two_accounts-AllClosed : AllClosed two_accounts
two_accounts-AllClosed id q e = elim (Bool-cases (eqb_ℤ id (pos 7))) [
  | inl same ↦
      let found : some 2 ≡ some q = rw same at e in
      (pos 5, bytes "pw", cc (found, (eqb_ℤ_iff id (pos 7)).0 same))
  | inr other ↦ cc (rw other at e)
]

closing-forgets_example :
    (v' : Vault) × (closing_account 1 (pos 7) (bytes "pw") (idle two_accounts) ≡ done tt (idle v'))
    × (find (pos 7) v'.map_of_accounts ≡ none)
    × (v'.map_of_deleted_accounts ≡ (pos 7, 2) ∷ [])
    × (get_elem? v'.accounts 1
        ≡ some (record (new_account (pos 7) (negsuc 2) (bytes "pw")) { deleted = true }))
    × (¬ LeadsTo v'.map_of_accounts 1)
    × (¬ LeadsTo v'.map_of_deleted_accounts 1)
closing-forgets_example =
    closing-forgets 1 (pos 7) (bytes "pw") two_accounts 1 2 (negsuc 2) (bytes "pw")
      two_accounts-IsValid two_accounts-AllClosed at_7 refl refl

parser_file-repeats_example : parser_file 1 unset (bytes "D 7 pw 5" ∷ bytes " " ∷ []) ≡ (
    let new = read_line unset (bytes "D 7 pw 5") in
    execute 1 (command new) >> (execute 1 (command new) >> parser_file 1 new []))
parser_file-repeats_example = parser_file-repeats 1 unset b'D' 32 (bytes " 7 pw 5") [] [] refl
