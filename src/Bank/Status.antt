-- ===== src/Bank/Status.antt =====
-- `bank::accounts_status_print` (bank.cpp), one round: the lines for the accounts and the bank's own
-- money. The escape codes that clear the screen and `usleep` are left out.
use structure_of_os.Prelude.{
  ℤ, ◌≡◌, refl, true, false, List, [], ◌∷◌, Text, get_elem?-set_self, set-set, set-get_elem?,
}
use structure_of_os.Bank.Dict.{Dict}
use structure_of_os.Bank.State.{
  new_account, Vault, Bank, idle, quiet, account_list_write, stdout_print,
}
use structure_of_os.Bank.Monad.{
  Action, done, pure, ◌>>=◌, ◌>>◌, gets, modify_sync, load, lock, unlock,
}
use structure_of_os.Bank.Locks.{lock_for_readers, unlock_from_read}
use structure_of_os.Bank.Fees.Conserved.{AllHeld}

-- The line of an account.
pub record Shown : Type 0 where
  pub id : ℤ
  pub balance : ℤ
  pub password : Text

-- The loop over the map.
unfoldable pub show_all : Dict → Action (List Shown)
unfolding lock_for_readers unlock_from_read
show_all [] = pure []
show_all ((id, p) ∷ m) = do
  lock_for_readers p
  a ← load p
  unlock_from_read p
  rest ← show_all m
  pure (record { id = a.id; balance = a.balance; password = a.password } ∷ rest)

unfoldable pub accounts_status_print : Action (List Shown × ℤ)
accounts_status_print = do
  modify_sync λ s. record s { accounts_print = true }
  lock account_list_write
  m ← gets λ v. v.map_of_accounts
  lines ← show_all m
  money ← gets λ v. v.balance
  unlock account_list_write
  modify_sync λ s. record s { accounts_print = false }
  unlock stdout_print
  pure (lines, money)

-- What there is to show.
abbrev pub shown : (v : Vault) (m : Dict) → AllHeld v m → List Shown
shown v [] h = []
shown v ((id, p) ∷ m) ((b, w, _), h) = record { id = id; balance = b; password = w } ∷ shown v m h

-- The bank while its accounts are printed.
abbrev printing : Vault → Bank
printing v = record {
  vault = v;
  sync = record quiet { account_list_write_lock = true; accounts_print = true };
}

module _ (v : Vault) where
  show_all-runs :
      (m : Dict) (h : AllHeld v m) → show_all m (printing v) ≡ done (shown v m h) (printing v)
  unfolding show_all
  show_all-runs [] h = refl
  show_all-runs ((id, p) ∷ m) ((b, w, held), h) =
      simp
        (
          held,
          get_elem?-set_self v.accounts p held,
          set-set,
          set-get_elem? v.accounts p (new_account id b w) held,
        )
        (rw (◌>>=◌, show_all-runs m h) refl)

-- Where no other thread runs, one round shows the number, the balance and the password of each
-- account in the order of the map and the money of the bank, and leaves the bank as it was with
-- all locks free. All entries of the map must lead to open accounts.
pub accounts_status_print-runs :
    (v : Vault) (h : AllHeld v v.map_of_accounts)
    → accounts_status_print (idle v) ≡ done (shown v v.map_of_accounts h, v.balance) (idle v)
unfolding accounts_status_print
accounts_status_print-runs v h = rw (◌>>=◌, show_all-runs v v.map_of_accounts h) refl
