-- ===== src/Bank/Fees.antt =====
-- `bank::fee_collection` (bank.cpp): the bank takes a commission from every open account.
-- The commission is `round(balance * (rate / 100))` in floating point, which is a parameter here.
-- `sleep(FEE_TIME)` is left out.
pub mod Conserved
pub mod Ledger
mod Tests
use structure_of_os.Prelude.{ℕ, ◌+◌, ◌%◌, ℤ, List, [], ◌∷◌, ⊤}
use structure_of_os.Prelude.Int.{int_add, int_sub}
use structure_of_os.Bank.Dict.{Dict}
use structure_of_os.Bank.State.{commission}
use structure_of_os.Bank.Monad.{Action, pure, ◌>>=◌, ◌>>◌, gets, modify, load, store, write_log}
use structure_of_os.Bank.Locks.{
  lock_for_write, unlock_from_write, lock_account_list_for_read, unlock_account_list_from_read,
}

-- `rand() % MAX_FEE + 1`, from what `rand` returns
abbrev pub rand_fee : ℕ → ℕ
rand_fee r = r % 5 + 1

module _ (fee_of : ℕ → ℤ → ℤ) where
  -- One account.
  abbrev pub charge : ℕ → ℕ → Action ⊤
  charge rate p = do
    lock_for_write p
    a ← load p
    modify λ v. record v { balance = int_add v.balance (fee_of rate a.balance) }
    store p λ c. record c { balance = int_sub c.balance (fee_of rate a.balance) }
    c ← load p
    write_log (commission rate (fee_of rate a.balance) c.id)
    unlock_from_write p

  -- The loop over the map.
  unfoldable pub charge_all : ℕ → Dict → Action ⊤
  charge_all rate [] = pure tt
  charge_all rate ((id, p) ∷ m) = charge rate p >> charge_all rate m

  -- All accounts, once.
  unfoldable pub collect : ℕ → Action ⊤
  unfolding lock_account_list_for_read unlock_account_list_from_read
  collect rate = do
    lock_account_list_for_read
    m ← gets λ v. v.map_of_accounts
    charge_all rate m
    unlock_account_list_from_read

  -- The rounds of the loop while `progress` holds, by what `rand` returns in each.
  unfoldable pub fee_collection : List ℕ → Action ⊤
  fee_collection [] = pure tt
  fee_collection (r ∷ rs) = collect (rand_fee r) >> fee_collection rs
