-- ===== src/Bank/Reclose.antt =====
-- What becomes of an account whose number was closed before.
use structure_of_os.Prelude.{
  ℕ, ℤ, ◌≡◌, refl, true, none, some, Text, text_eq, eqb_ℤ, eqb_ℤ_iff, get_elem?, get_elem?-set_self,
  Bool-cases, inl, inr, arith,
}
use structure_of_os.Bank.Dict.{find, erase, find-erase, insert-held}
use structure_of_os.Bank.State.{Vault, idle}
use structure_of_os.Bank.Monad.{done}
use structure_of_os.Bank.Atm.{closing_account}
use structure_of_os.Bank.Kept.{closed_account, AllClosed}
use structure_of_os.Bank.Invariant.{IsValid, IsOpen, pointer_injective}
use structure_of_os.Bank.System.Free.{LeadsTo}
use structure_of_os.Bank.Refines.Protected.{closing-runs}

-- A pointer to an open account is in the map of accounts under its own number alone, and not among
-- the deleted accounts.
pointers_apart :
    (v : Vault) (id : ℤ) (p : ℕ) (b : ℤ) (w : Text)
    → IsValid v
    → AllClosed v
    → IsOpen id v p b w
    → (¬ LeadsTo (erase id v.map_of_accounts) p) × (¬ LeadsTo v.map_of_deleted_accounts p)
pointers_apart v id p b w valid closed (found, held) = (
  λ (j, e). elim (Bool-cases (eqb_ℤ j id)) [
    | inl same ↦ cc (rw (find-erase, same) at e)
    | inr other ↦ cc (
      other,
      (eqb_ℤ_iff j id).1 (pointer_injective v j id p valid (rw (find-erase, other) at e) found),
    )
  ],
  λ (j, e). let (c, u, h) = closed j p e in ground arith,
)

-- Over a valid bank with all locks free, whose map of deleted accounts leads to closed accounts
-- only, closing an account whose number is already among the deleted ones, with the right
-- password, takes it out of the map of accounts and leaves the map of deleted accounts as it
-- was: the account is still in memory, closed, and neither of the maps leads to it under any
-- number.
pub closing-forgets :
    (atm : ℕ) (id : ℤ) (password : Text) (v : Vault) (p q : ℕ) (b : ℤ) (w : Text)
    → IsValid v
    → AllClosed v
    → IsOpen id v p b w
    → text_eq w password ≡ true
    → find id v.map_of_deleted_accounts ≡ some q
    → (v' : Vault) × (closing_account atm id password (idle v) ≡ done tt (idle v'))
      × (find id v'.map_of_accounts ≡ none)
      × (v'.map_of_deleted_accounts ≡ v.map_of_deleted_accounts)
      × (get_elem? v'.accounts p ≡ some (closed_account id b w))
      × (¬ LeadsTo v'.map_of_accounts p)
      × (¬ LeadsTo v'.map_of_deleted_accounts p)
closing-forgets atm id password v p q b w valid closed open_at right before =
    let same = insert-held id p v.map_of_deleted_accounts before in
    let (gone, never) = pointers_apart v id p b w valid closed open_at in
    (
      _,
      closing-runs atm id password v valid open_at right,
      rw (find-erase, (eqb_ℤ_iff id id).1 refl),
      same,
      get_elem?-set_self v.accounts p open_at.1 _,
      gone,
      rw same never,
    )
