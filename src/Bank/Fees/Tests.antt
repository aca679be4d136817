-- ===== src/Bank/Fees/Tests.antt =====
-- Commissions from a concrete bank, and its print.
use structure_of_os.Prelude.{ℕ, ◌+◌, ◌*◌, ◌/◌, ℤ, pos, negsuc, ◌≡◌, refl, [], ◌∷◌, bytes, arith}
use structure_of_os.Bank.State.{Vault, new_account, idle, commission}
use structure_of_os.Bank.Monad.{done}
use structure_of_os.Bank.Fees.{charge_all, collect, fee_collection}
use structure_of_os.Bank.Status.{accounts_status_print, accounts_status_print-runs}
use structure_of_os.Bank.Fees.Conserved.{IsRounding, AllHeld, Worth, Moves, fee_collection-Moves}

-- A commission of so many percent, rounded half up; nothing from a debt.
abbrev half_up : ℕ → ℤ → ℤ
half_up rate (pos n) = pos ((rate * n + 50) / 100)
half_up rate (negsuc n) = pos 0

half_up-IsRounding : IsRounding half_up
half_up-IsRounding rate n low small = ((rate * n + 50) / 100, refl, omega arith, omega arith)

abbrev two_savers : Vault
two_savers = record {
  balance = pos 4;
  map_of_accounts = (pos 7, 1) ∷ (pos 12, 0) ∷ [];
  map_of_deleted_accounts = [];
  accounts =
      new_account (pos 12) (pos 100) (bytes "abcd")
      ∷ new_account (pos 7) (pos 30) (bytes "pw")
      ∷ [];
  log = [];
  slept = 0;
}

abbrev two_savers_charged : Vault
two_savers_charged = record two_savers {
  balance = pos 8;
  accounts =
      new_account (pos 12) (pos 97) (bytes "abcd") ∷ new_account (pos 7) (pos 29) (bytes "pw") ∷ [];
  log = commission 3 (pos 1) (pos 7) ∷ commission 3 (pos 3) (pos 12) ∷ [];
}

-- `rand` returns 42.
fee_collection_run :
    fee_collection half_up (42 ∷ []) (idle two_savers) ≡ done tt (idle two_savers_charged)
unfolding fee_collection collect charge_all
fee_collection_run = refl

two_savers-Worth : Worth 134 two_savers
two_savers-Worth = (4, 130, refl, (100, 30, refl, refl, (30, 0, refl, refl, refl)), refl)

abbrev two_savers-AllHeld : AllHeld two_savers two_savers.map_of_accounts
two_savers-AllHeld = ((pos 30, bytes "pw", refl), ((pos 100, bytes "abcd", refl), tt))

fee_collection-Moves_example :
    (v' : Vault) × (fee_collection half_up (42 ∷ 13 ∷ []) (idle two_savers) ≡ done tt (idle v'))
    × Moves 134 two_savers v'
fee_collection-Moves_example =
    fee_collection-Moves half_up 134 (42 ∷ 13 ∷ []) two_savers half_up-IsRounding (omega arith)
      two_savers-Worth two_savers-AllHeld

accounts_status_print-runs_example :
    accounts_status_print (idle two_savers)
    ≡ done
        (
          record { id = pos 7; balance = pos 30; password = bytes "pw" }
              ∷ record { id = pos 12; balance = pos 100; password = bytes "abcd" }
              ∷ [],
          pos 4,
        )
        (idle two_savers)
accounts_status_print-runs_example = accounts_status_print-runs two_savers two_savers-AllHeld
