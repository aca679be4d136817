-- ===== src/Bank/Atm.antt =====
-- The operations of `class atm` (atm.cpp), each with every lock that it takes and releases.
-- The code after the lookup of an account is a function of its own, over the pointer found.
use structure_of_os.Prelude.{
  ℕ, ℤ, Bool, true, false, not, ◌&&◌, Option, none, some, [], ◌∷◌, ◌++◌, ⊤, length, Text, text_eq,
  ltb_ℤ, if◌then◌else◌,
}
use structure_of_os.Prelude.Int.{int_add, int_sub}
use structure_of_os.Bank.Dict.{find, insert, erase}
use structure_of_os.Bank.State.{
  Account, Message, new_account, opened, already_exists, does_not_exist, wrong_password, deposited,
  withdrew, balance_too_low, closed, balance_is, transferred, transfer, account_list_write,
  stdout_print,
}
use structure_of_os.Bank.Monad.{
  Action, pure, ◌>>=◌, ◌>>◌, gets, modify, gets_sync, modify_sync, load, store, sleep, lock, unlock,
  write_log,
}
use structure_of_os.Bank.Locks.{
  when, lock_for_write, unlock_from_write, lock_for_readers, unlock_from_read,
  lock_account_list_for_read, unlock_account_list_from_read,
}

-- `account::vallid_password`
abbrev pub valid_password : Account → Text → Bool
valid_password a password = text_eq a.password password

-- `account::deposit`
abbrev pub deposit : ℕ → ℤ → Action ⊤
deposit p amount = do sleep; store p λ a. record a { balance = int_add a.balance amount }

-- `account::withdrawl`
abbrev pub withdrawal : ℕ → ℤ → Action Bool
withdrawal p amount = do
  sleep
  a ← load p
  if ltb_ℤ a.balance amount
      then pure false
      else store p (λ c. record c { balance = int_sub c.balance amount }) >> pure true

-- The accounts that `new account(…)` made, with one more; its pointer is the result.
abbrev pub allocate : Account → Action ℕ
allocate a = do
  p ← gets λ v. length v.accounts
  modify λ v. record v { accounts = v.accounts ++ a ∷ [] }
  pure p

-- What `create_account` and `closing_account` do first and last.
abbrev pub open_for_change : Action ⊤
open_for_change = do modify_sync λ s. record s { accounts_print = true }; lock account_list_write

abbrev pub close_after_change : Action ⊤
close_after_change = do
  unlock account_list_write
  modify_sync λ s. record s { accounts_print = false }
  unlock stdout_print

-- What every other operation does first and last.
abbrev pub open_for_use : Action ⊤
open_for_use = do
  printing ← gets_sync λ s. s.accounts_print
  when printing (lock stdout_print)
  lock_account_list_for_read

-- The test `it == map_of_accounts->end() || it->second->deleted`.
abbrev pub is_absent : Option ℕ → Action Bool
is_absent none = pure true
is_absent (some p) = load p >>= λ a. pure a.deleted

-- How the operations refuse: they wait, write a line, and release what they hold.
abbrev pub refuse : Message → Action ⊤ → Action ⊤
refuse line release = do sleep; write_log line; release

abbrev pub release_account : ℕ → Action ⊤
release_account p = unlock_from_write p >> unlock_account_list_from_read

abbrev pub release_reader : ℕ → Action ⊤
release_reader p = unlock_from_read p >> unlock_account_list_from_read

abbrev pub release_closed : ℕ → Action ⊤
release_closed p = unlock_from_write p >> close_after_change

abbrev pub release_transfer : Action ⊤
release_transfer = unlock transfer >> unlock_account_list_from_read

abbrev pub release_both : ℕ → ℕ → Action ⊤
release_both p q = do unlock_from_write p; unlock_from_write q; release_transfer

module _ (id : ℕ) where
  abbrev pub create_at : ℤ → Text → ℤ → Action ⊤
  create_at account_id password balance = do
    p ← allocate (new_account account_id balance password)
    lock_for_write p
    sleep
    modify λ v. record v { map_of_accounts = insert account_id p v.map_of_accounts }
    write_log (opened id account_id password balance)
    release_closed p

  -- `atm::create_account`
  unfoldable pub create_account : ℤ → Text → ℤ → Action ⊤
  create_account account_id password balance = do
    open_for_change
    it ← gets λ v. find account_id v.map_of_accounts
    absent ← is_absent it
    if absent
        then create_at account_id password balance
        else refuse (already_exists id) close_after_change

  abbrev pub deposit_in : ℤ → ℤ → ℕ → Action ⊤
  deposit_in account_id amount p = do
    deposit p amount
    a ← load p
    write_log (deposited id account_id a.balance amount)
    release_account p

  abbrev pub deposit_at : ℤ → Text → ℤ → Option ℕ → Action ⊤
  deposit_at account_id password amount none =
      refuse (does_not_exist id account_id) unlock_account_list_from_read
  deposit_at account_id password amount (some p) = do
    lock_for_write p
    a ← load p
    if not a.deleted
        then (if valid_password a password
            then deposit_in account_id amount p
            else refuse (wrong_password id account_id) (release_account p))
        else refuse (does_not_exist id account_id) (release_account p)

  -- `atm::deposit_to_account`
  unfoldable pub deposit_to_account : ℤ → Text → ℤ → Action ⊤
  unfolding lock_account_list_for_read unlock_account_list_from_read
  deposit_to_account account_id password amount = do
    open_for_use
    it ← gets λ v. find account_id v.map_of_accounts
    deposit_at account_id password amount it

  abbrev pub withdraw_from : ℤ → ℤ → ℕ → Action ⊤
  withdraw_from account_id amount p = do
    enough ← withdrawal p amount
    a ← load p
    write_log (
        if enough
        then withdrew id account_id a.balance amount
        else balance_too_low id account_id amount)
    release_account p

  abbrev pub withdraw_at : ℤ → Text → ℤ → Option ℕ → Action ⊤
  withdraw_at account_id password amount none =
      refuse (does_not_exist id account_id) unlock_account_list_from_read
  withdraw_at account_id password amount (some p) = do
    lock_for_write p
    a ← load p
    if not a.deleted
        then (if valid_password a password
            then withdraw_from account_id amount p
            else refuse (wrong_password id account_id) (release_account p))
        else refuse (does_not_exist id account_id) (release_account p)

  -- `atm::withdrawl_from_account`
  unfoldable pub withdrawal_from_account : ℤ → Text → ℤ → Action ⊤
  unfolding lock_account_list_for_read unlock_account_list_from_read
  withdrawal_from_account account_id password amount = do
    open_for_use
    it ← gets λ v. find account_id v.map_of_accounts
    withdraw_at account_id password amount it

  abbrev pub close_found : ℤ → ℕ → Action ⊤
  close_found account_id p = do
    sleep
    a ← load p
    modify λ v. record v { map_of_deleted_accounts = insert a.id p v.map_of_deleted_accounts }
    store p λ c. record c { deleted = true }
    modify λ v. record v { map_of_accounts = erase account_id v.map_of_accounts }
    c ← load p
    write_log (closed id account_id c.balance)
    release_closed p

  abbrev pub close_at : ℤ → Text → Option ℕ → Action ⊤
  close_at account_id password none = refuse (does_not_exist id account_id) close_after_change
  close_at account_id password (some p) = do
    lock_for_write p
    a ← load p
    if not a.deleted
        then (if valid_password a password
            then close_found account_id p
            else refuse (wrong_password id account_id) (release_closed p))
        else refuse (does_not_exist id account_id) (release_closed p)

  -- `atm::closing_account`. The code reads `it->second` after `erase(it)`, when `it` is no longer
  -- valid; the model keeps the pointer that it held.
  unfoldable pub closing_account : ℤ → Text → Action ⊤
  closing_account account_id password = do
    open_for_change
    it ← gets λ v. find account_id v.map_of_accounts
    close_at account_id password it

  abbrev pub check_found : ℤ → ℕ → Action ⊤
  check_found account_id p = do
    sleep
    a ← load p
    write_log (balance_is id account_id a.balance)
    release_reader p

  abbrev pub check_at : ℤ → Text → Option ℕ → Action ⊤
  check_at account_id password none =
      refuse (does_not_exist id account_id) unlock_account_list_from_read
  check_at account_id password (some p) = do
    lock_for_readers p
    a ← load p
    if not a.deleted
        then (if valid_password a password
            then check_found account_id p
            else refuse (wrong_password id account_id) (release_reader p))
        else refuse (does_not_exist id account_id) (release_reader p)

  -- `atm::balance_check`
  unfoldable pub balance_check : ℤ → Text → Action ⊤
  unfolding lock_account_list_for_read unlock_account_list_from_read lock_for_readers
      unlock_from_read
  balance_check account_id password = do
    open_for_use
    it ← gets λ v. find account_id v.map_of_accounts
    check_at account_id password it

  abbrev pub transfer_done : ℤ → ℤ → ℤ → ℕ → ℕ → Action ⊤
  transfer_done source target amount p q = do
    store q λ d. record d { balance = int_add d.balance amount }
    a ← load p
    c ← load q
    write_log (transferred id amount source target a.balance c.balance)
    release_both p q

  abbrev pub transfer_from : ℤ → ℤ → ℤ → ℕ → ℕ → Action ⊤
  transfer_from source target amount p q = do
    enough ← withdrawal p amount
    if enough
        then transfer_done source target amount p q
        else write_log (balance_too_low id source amount) >> release_both p q

  abbrev pub transfer_at : ℤ → Text → ℤ → ℤ → Option ℕ → Option ℕ → Action ⊤
  transfer_at source password target amount none it_target =
      refuse (does_not_exist id source) release_transfer
  transfer_at source password target amount (some p) none =
      refuse (does_not_exist id target) release_transfer
  transfer_at source password target amount (some p) (some q) = do
    lock_for_write p
    lock_for_write q
    a ← load p
    c ← load q
    if not a.deleted && not c.deleted
        then (if valid_password a password
            then transfer_from source target amount p q
            else refuse (wrong_password id source) (release_both p q))
        else refuse (does_not_exist id (if a.deleted then source else target)) (release_both p q)

  -- `atm::transfer_between_accounts`
  unfoldable pub transfer_between_accounts : ℤ → Text → ℤ → ℤ → Action ⊤
  unfolding lock_account_list_for_read unlock_account_list_from_read
  transfer_between_accounts source password target amount = do
    open_for_use
    lock transfer
    it_source ← gets λ v. find source v.map_of_accounts
    it_target ← gets λ v. find target v.map_of_accounts
    transfer_at source password target amount it_source it_target
