-- ===== src/Bank/Locks.antt =====
-- The readers-writer locks: of an account (account.cpp) and of the list of accounts (bank.cpp; the
-- copies in atm.cpp work on the same fields through pointers).
use structure_of_os.Prelude.{ℕ, ◌+◌, ◌-◌, ◌%◌, ◌^◌, pos, Bool, true, false, ⊤, ◌==◌, eqb_ℤ}
use structure_of_os.Prelude.Int.{int_add, int_sub}
use structure_of_os.Bank.State.{account_list_read, account_list_write, account_read, account_write}
use structure_of_os.Bank.Monad.{
  Action, pure, ◌>>=◌, ◌>>◌, load, store, gets_sync, modify_sync, lock, unlock,
}

abbrev pub when : Bool → Action ⊤ → Action ⊤
when true act = act
when false act = pure tt

-- `account::lock_for_write`
abbrev pub lock_for_write : ℕ → Action ⊤
lock_for_write p = lock (account_write p)

-- `account::unlock_from_write`
abbrev pub unlock_from_write : ℕ → Action ⊤
unlock_from_write p = unlock (account_write p)

-- `account::lock_for_readres`; `num_of_readers` is a `uint`.
unfoldable pub lock_for_readers : ℕ → Action ⊤
lock_for_readers p = do
  lock (account_read p)
  store p λ a. record a { num_of_readers = (a.num_of_readers + 1) % 2 ^ 32 }
  a ← load p
  when (a.num_of_readers == 1) (lock (account_write p))
  unlock (account_read p)

-- `account::unlock_from_read`
unfoldable pub unlock_from_read : ℕ → Action ⊤
unlock_from_read p = do
  lock (account_read p)
  store p λ a. record a { num_of_readers = (a.num_of_readers + 2 ^ 32 - 1) % 2 ^ 32 }
  a ← load p
  when (a.num_of_readers == 0) (unlock (account_write p))
  unlock (account_read p)

-- `bank::lock_account_list_for_read`, `atm::lock_account_list_for_read`
unfoldable pub lock_account_list_for_read : Action ⊤
unfolding int_add
lock_account_list_for_read = do
  lock account_list_read
  modify_sync
      λ s. record s { account_list_num_of_readers = int_add s.account_list_num_of_readers (pos 1) }
  n ← gets_sync λ s. s.account_list_num_of_readers
  when (eqb_ℤ n (pos 1)) (lock account_list_write)
  unlock account_list_read

-- `bank::unlock_account_list_from_read`, `atm::unlock_account_list_from_read`
unfoldable pub unlock_account_list_from_read : Action ⊤
unfolding int_sub
unlock_account_list_from_read = do
  lock account_list_read
  modify_sync
      λ s. record s { account_list_num_of_readers = int_sub s.account_list_num_of_readers (pos 1) }
  n ← gets_sync λ s. s.account_list_num_of_readers
  when (eqb_ℤ n (pos 0)) (unlock account_list_write)
  unlock account_list_read
