-- ===== src/Bank/Refines/Protected.antt =====
-- The operations on one account that ask for its password, against their specifications: deposit,
-- withdrawal, balance check and closing.
use structure_of_os.Prelude.{
  ℕ, ℤ, ◌≡◌, refl, true, false, some, Text, ⊤, get_elem?, set, text_eq, ltb_ℤ, get_elem?-set_self,
  set-set, set-get_elem?, Bool-cases, inl, inr,
}
use structure_of_os.Prelude.Int.{int_add, int_sub}
use structure_of_os.Bank.Dict.{find, insert, erase-Distinct}
use structure_of_os.Bank.State.{
  Account, new_account, Vault, idle, deposited, withdrew, balance_too_low, balance_is, closed,
  wrong_password,
}
use structure_of_os.Bank.Monad.{done, Action}
use structure_of_os.Bank.Atm.{
  deposit_to_account, withdrawal_from_account, balance_check, closing_account,
}
use structure_of_os.Bank.Invariant.{
  IsValid, IsOpen, rewrite_account, close_account, close_account-IsValid, view-close_account,
}
use structure_of_os.Bank.Kept.{closed_account, close_account-Kept}
use structure_of_os.Bank.Ledger
use structure_of_os.Bank.Refines.{
  Refines, Refines-by, Refines-refused, Refines-rewritten, Refines-password, noted,
}

module _ (atm : ℕ) (id : ℤ) (password : Text) (v : Vault) where
  -- What an operation does to an account whose password is another one.
  abbrev Refuses : Action ⊤ → Type 0
  Refuses m = m (idle v) ≡ done tt (idle (noted v (wrong_password atm id)))

  module _ {p : ℕ} {b : ℤ} {w : Text} (valid : IsValid v) (open_at : IsOpen id v p b w) where
    mapped : find id v.map_of_accounts ≡ some p
    mapped = open_at.0

    held : get_elem? v.accounts p ≡ some (new_account id b w)
    held = open_at.1

    rewritten : (a : Account) → get_elem? (set v.accounts p a) p ≡ some a
    rewritten = get_elem?-set_self v.accounts p held

    restored : set v.accounts p (new_account id b w) ≡ v.accounts
    restored = set-get_elem? v.accounts p (new_account id b w) held

    ruleset laws = (mapped, held, rewritten, restored, set-set)

    module _ (wrong : text_eq w password ≡ false) where
      deposit-Refuses : (x : ℤ) → Refuses (deposit_to_account atm id password x)
      unfolding deposit_to_account
      deposit-Refuses x = simp (laws, wrong)

      withdrawal-Refuses : (x : ℤ) → Refuses (withdrawal_from_account atm id password x)
      unfolding withdrawal_from_account
      withdrawal-Refuses x = simp (laws, wrong)

      check-Refuses : Refuses (balance_check atm id password)
      unfolding balance_check
      check-Refuses = simp (laws, wrong)

      closing-Refuses : Refuses (closing_account atm id password)
      unfolding closing_account
      closing-Refuses = simp (laws, wrong)

    module _ (right : text_eq w password ≡ true) where
      -- The vault with another balance at `p`.
      abbrev changed : ℤ → Vault
      changed c = rewrite_account v p (new_account id c w)

      deposit-runs :
          (x : ℤ)
          → deposit_to_account atm id password x (idle v)
            ≡ done tt (idle (noted (changed (int_add b x)) (deposited atm id (int_add b x) x)))
      unfolding deposit_to_account
      deposit-runs x = simp (laws, right)

      withdrawal-runs_low :
          (x : ℤ)
          → ltb_ℤ b x ≡ true
          → withdrawal_from_account atm id password x (idle v)
            ≡ done tt (idle (noted v (balance_too_low atm id x)))
      unfolding withdrawal_from_account
      withdrawal-runs_low x low = simp (laws, right, low)

      withdrawal-runs :
          (x : ℤ)
          → ltb_ℤ b x ≡ false
          → withdrawal_from_account atm id password x (idle v)
            ≡ done tt (idle (noted (changed (int_sub b x)) (withdrew atm id (int_sub b x) x)))
      unfolding withdrawal_from_account
      withdrawal-runs x enough = simp (laws, right, enough)

      check-runs :
          balance_check atm id password (idle v) ≡ done tt (idle (noted v (balance_is atm id b)))
      unfolding balance_check
      check-runs = simp (laws, right)

      abbrev pub closed_vault : Vault
      closed_vault = record (close_account v id p valid open_at.0 (closed_account id b w)) {
        map_of_deleted_accounts = insert id p v.map_of_deleted_accounts;
      }

      pub closing-runs :
          closing_account atm id password (idle v)
          ≡ done tt (idle (noted closed_vault (closed atm id b)))
      unfolding closing_account
      closing-runs = simp (laws, right)

-- Over a valid bank with all locks free, a deposit returns with all locks free and does what the
-- specification says on every branch: the balance rises where the password is right.
pub deposit-Refines :
    (atm : ℕ) (id : ℤ) (password : Text) (x : ℤ) (v : Vault)
    → IsValid v
    → Refines (deposit_to_account atm id password x) (Ledger.deposit atm id password x) v
unfolding deposit_to_account
deposit-Refines atm id password x v valid =
    Refines-password _ atm id password _ v _ refl valid (λ e. rw e)
      (λ p b w h wrong. deposit-Refuses atm id password v valid h wrong x)
      (λ p b w h right.
        Refines-rewritten v id p (int_add b x) w _ valid h.0
          (deposit-runs atm id password v valid h right x) refl)

-- Over a valid bank with all locks free, a withdrawal returns with all locks free and does what
-- the specification says on every branch: the balance falls where the password is right and the
-- balance is enough.
pub withdrawal-Refines :
    (atm : ℕ) (id : ℤ) (password : Text) (x : ℤ) (v : Vault)
    → IsValid v
    → Refines (withdrawal_from_account atm id password x) (Ledger.withdraw atm id password x) v
unfolding withdrawal_from_account
withdrawal-Refines atm id password x v valid =
    Refines-password _ atm id password _ v _ refl valid (λ e. rw e)
      (λ p b w h wrong. withdrawal-Refuses atm id password v valid h wrong x)
      (λ p b w h right. elim (Bool-cases (ltb_ℤ b x)) [
        | inl low ↦
            Refines-refused v _ valid (withdrawal-runs_low atm id password v valid h right x low)
              (rw low)
        | inr enough ↦
            Refines-rewritten v id p (int_sub b x) w _ valid h.0
              (withdrawal-runs atm id password v valid h right x enough) (rw enough)
      ])

-- Over a valid bank with all locks free, a balance check returns with all locks free, the readers
-- of the account counted up and down again, and changes no account; the log has the line that the
-- specification says.
pub check-Refines :
    (atm : ℕ) (id : ℤ) (password : Text) (v : Vault)
    → IsValid v
    → Refines (balance_check atm id password) (Ledger.check atm id password) v
unfolding balance_check
check-Refines atm id password v valid =
    Refines-password _ atm id password _ v _ refl valid (λ e. rw e)
      (λ p b w h wrong. check-Refuses atm id password v valid h wrong)
      (λ p b w h right. Refines-refused v _ valid (check-runs atm id password v valid h right) refl)

-- Over a valid bank with all locks free, closing an account returns with all locks free and does
-- what the specification says on every branch: only the right password takes the account out of
-- the ledger.
pub closing-Refines :
    (atm : ℕ) (id : ℤ) (password : Text) (v : Vault)
    → IsValid v
    → Refines (closing_account atm id password) (Ledger.close atm id password) v
unfolding closing_account
closing-Refines atm id password v valid =
    Refines-password _ atm id password _ v _ refl valid (λ e. rw e)
      (λ p b w h wrong. closing-Refuses atm id password v valid h wrong)
      (λ p b w h right.
        Refines-by v (closed_vault atm id password v valid h right) _ _
          (closing-runs atm id password v valid h right) refl
          (close_account-IsValid v id p valid h.0 _) (view-close_account v id p valid h.0 _)
          (refl, refl, refl)
          (λ k.
            close_account-Kept v id p h.1 (closed_vault atm id password v valid h right) refl
              (erase-Distinct id v.map_of_accounts k.0) refl k))
