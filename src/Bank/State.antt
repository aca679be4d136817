-- ===== src/Bank/State.antt =====
-- The state of HW4: the fields of `class account` and `class bank`, the globals of bank.cpp, and
-- the lines of log.txt.
use structure_of_os.Prelude.{ℕ, ℤ, pos, Bool, false, List, [], Text}
use structure_of_os.Bank.Dict.{Dict}

-- `class account`; a lock is true while it is held.
pub record Account : Type 0 where
  pub id : ℤ
  pub balance : ℤ
  pub password : Text
  pub deleted : Bool
  pub lock_read : Bool
  pub lock_write : Bool
  pub num_of_readers : ℕ

-- `account::account`
abbrev pub new_account : ℤ → ℤ → Text → Account
new_account id balance password = record {
  id = id;
  balance = balance;
  password = password;
  deleted = false;
  lock_read = false;
  lock_write = false;
  num_of_readers = 0;
}

-- The lines of log.txt, by the values that they show.
pub data Message : Type 0 where
  opened : (atm : ℕ) (id : ℤ) (password : Text) (balance : ℤ) → Message
  already_exists : (atm : ℕ) → Message
  does_not_exist : (atm : ℕ) (id : ℤ) → Message
  wrong_password : (atm : ℕ) (id : ℤ) → Message
  deposited : (atm : ℕ) (id balance amount : ℤ) → Message
  withdrew : (atm : ℕ) (id balance amount : ℤ) → Message
  balance_too_low : (atm : ℕ) (id amount : ℤ) → Message
  closed : (atm : ℕ) (id balance : ℤ) → Message
  balance_is : (atm : ℕ) (id balance : ℤ) → Message
  transferred : (atm : ℕ) (amount source target source_balance target_balance : ℤ) → Message
  commission : (percent : ℕ) (fee id : ℤ) → Message

-- What the bank stores. `accounts` holds every account that `new` made, and a pointer is a place
-- in it; `slept` counts the calls of `sleep(ACTION_SLEEP_TIME)`.
pub record Vault : Type 0 where
  pub balance : ℤ
  pub map_of_accounts : Dict
  pub map_of_deleted_accounts : Dict
  pub accounts : List Account
  pub log : List Message
  pub slept : ℕ

-- The locks and flags that its threads share.
pub record Sync : Type 0 where
  pub account_list_num_of_readers : ℤ
  pub log_print_lock : Bool
  pub transfer_lock : Bool
  pub account_list_read_lock : Bool
  pub account_list_write_lock : Bool
  pub stdout_print_lock : Bool
  pub accounts_print : Bool

pub record Bank : Type 0 where
  pub vault : Vault
  pub sync : Sync

-- No thread holds a lock of the bank, reads the list of accounts or wants to print it.
abbrev pub quiet : Sync
quiet = record {
  account_list_num_of_readers = pos 0;
  log_print_lock = false;
  transfer_lock = false;
  account_list_read_lock = false;
  account_list_write_lock = false;
  stdout_print_lock = false;
  accounts_print = false;
}

abbrev pub idle : Vault → Bank
idle v = record { vault = v; sync = quiet }

-- `bank::bank`, over an empty log.txt
abbrev pub new_bank : Bank
new_bank = idle record {
  balance = pos 0;
  map_of_accounts = [];
  map_of_deleted_accounts = [];
  accounts = [];
  log = [];
  slept = 0;
}

pub data Mutex : Type 0 where
  log_print transfer account_list_read account_list_write stdout_print : Mutex
  account_read account_write : (pointer : ℕ) → Mutex
