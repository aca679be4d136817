-- ===== src/Bank/Refines/Create.antt =====
-- `atm::create_account` against its specification.
use structure_of_os.Prelude.{
  ℕ, ℤ, refl, Text, get_elem?-append_new, set-append_new, Option-cases, inl, inr,
}
use structure_of_os.Bank.Dict.{find}
use structure_of_os.Bank.State.{new_account, Vault, opened, already_exists}
use structure_of_os.Bank.Atm.{create_account}
use structure_of_os.Bank.Invariant.{
  IsValid, view-absent, view-held, add_account, add_account-IsValid, view-add_account,
}
use structure_of_os.Bank.Kept.{add_account-Kept}
use structure_of_os.Bank.Ledger
use structure_of_os.Bank.Refines.{Refines, Refines-by, Refines-refused}

-- Over a valid bank with all locks free, opening an account returns with all locks free and does
-- what the specification says: it enters the account under a number that no open account has, and
-- is refused under any other.
pub create-Refines :
    (atm : ℕ) (id : ℤ) (password : Text) (b : ℤ) (v : Vault)
    → IsValid v
    → Refines (create_account atm id password b) (Ledger.create atm id password b) v
unfolding create_account
create-Refines atm id password b v valid = elim (Option-cases (find id v.map_of_accounts)) [
  | inl e ↦
      Refines-by v (add_account v id (new_account id b password)) _ (opened atm id password b)
        (simp (e, get_elem?-append_new, set-append_new)) (rw (view-absent v id e, Ledger.create))
        (add_account-IsValid v id valid e b password) (view-add_account v id valid e b password)
        (refl, refl, refl) (add_account-Kept v id (new_account id b password) e)
  | inr (p, e) ↦
      let (c, w, h) = valid id p e in
      Refines-refused v (already_exists atm) valid (simp (e, h))
        (rw (view-held v id p c w e h, Ledger.create))
]
