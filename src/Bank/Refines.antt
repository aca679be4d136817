-- ===== src/Bank/Refines.antt =====
-- What it is for an operation to implement its specification, run while no other thread runs.
pub mod Protected
pub mod Create
pub mod Transfer
use structure_of_os.Prelude.{
  ℕ, ℤ, ◌+◌, ◌≡◌, refl, ap, ◌∙◌, true, false, some, none, [], ◌∷◌, ◌++◌, ⊤, Text, text_eq,
  get_elem?, set, inl, inr, Option-cases, Bool-cases, set-get_elem?, set-set, get_elem?-set_self,
}
use structure_of_os.Bank.Dict.{find, insert}
use structure_of_os.Bank.State.{
  Account, new_account, Message, does_not_exist, wrong_password, Vault, idle,
}
use structure_of_os.Bank.Monad.{Action, done}
use structure_of_os.Bank.Ledger.{
  Entry, Spec, Ledger, put, check_password, check_password-absent, check_password-right,
  check_password-wrong,
}
use structure_of_os.Bank.Kept.{Kept, rewrite_account-Kept}
use structure_of_os.Bank.Invariant.{
  IsValid, IsOpen, view, view-absent, view-held, rewrite_account, rewrite_account-IsValid,
  view-rewrite_account, close_account, close_account-IsValid, view-close_account, add_account,
  add_account-IsValid, view-add_account,
}

-- The vault after one more line of log.txt and one more wait.
abbrev pub noted : Vault → Message → Vault
noted v line = record v { log = v.log ++ line ∷ []; slept = v.slept + 1 }

-- The operation returns, with every lock free again; it keeps the invariants, changes the ledger
-- and the log as its specification says, waits once, and leaves the bank's own money alone.
pub record Refines (m : Action ⊤) (f : Spec) (v : Vault) : Type 0 where
  pub result : Vault
  pub runs : m (idle v) ≡ done tt (idle result)
  pub keeps : IsValid result
  pub ledger : (id : ℤ) → view result id ≡ (f (view v)).0 id
  pub logged : result.log ≡ v.log ++ (f (view v)).1 ∷ []
  pub waited : result.slept ≡ v.slept + 1
  pub same_money : result.balance ≡ v.balance
  pub kept : Kept v → Kept result

module _ {m : Action ⊤} {f : Spec} (v : Vault) where
  -- From a vault that is valid and stands for the new ledger.
  pub Refines-by :
      (u : Vault) (l : Ledger) (line : Message)
      → m (idle v) ≡ done tt (idle (noted u line))
      → f (view v) ≡ (l, line)
      → IsValid u
      → ((id : ℤ) → view u id ≡ l id)
      → (u.log ≡ v.log) × (u.slept ≡ v.slept) × (u.balance ≡ v.balance)
      → (Kept v → Kept u)
      → Refines m f v
  Refines-by u l line runs spec keeps ledger same kept = record {
    result = noted u line;
    runs = runs;
    keeps = keeps;
    ledger = λ id. rw spec (ledger id);
    logged = rw spec (ap (λ t. t ++ line ∷ []) same.0);
    waited = ap (λ (n : ℕ). n + 1) same.1;
    same_money = same.2;
    kept = kept;
  }

  pub Refines-refused :
      (line : Message)
      → IsValid v
      → m (idle v) ≡ done tt (idle (noted v line))
      → f (view v) ≡ (view v, line)
      → Refines m f v
  Refines-refused line valid runs spec =
      Refines-by v (view v) line runs spec valid (λ _. refl) (refl, refl, refl) (λ k. k)

  pub Refines-rewritten :
      (id : ℤ) (p : ℕ) (b : ℤ) (w : Text) (line : Message)
      → IsValid v
      → find id v.map_of_accounts ≡ some p
      → m (idle v) ≡ done tt (idle (noted (rewrite_account v p (new_account id b w)) line))
      → f (view v) ≡ (put id (some (record { balance = b; password = w })) (view v), line)
      → Refines m f v
  Refines-rewritten id p b w line valid found runs spec =
      Refines-by (rewrite_account v p (new_account id b w)) _ line runs spec
        (rewrite_account-IsValid v id p valid found b w)
        (view-rewrite_account v id p valid found b w) (refl, refl, refl)
        (let (c, x, held) = valid id p found in
          rewrite_account-Kept v id p held (new_account id b w))

-- The specification matters only at the ledger of the vault.
pub Refines-spec :
    {m : Action ⊤} {f : Spec} (g : Spec) (v : Vault)
    → g (view v) ≡ f (view v)
    → Refines m f v
    → Refines m g v
Refines-spec g v same r = record {
  result = r.result;
  runs = r.runs;
  keeps = r.keeps;
  ledger = λ id. rw same (r.ledger id);
  logged = rw same r.logged;
  waited = r.waited;
  same_money = r.same_money;
  kept = r.kept;
}

-- An operation behind a password, from what it does in each of the three cases.
module _ (m : Action ⊤) (atm : ℕ) (id : ℤ) (password : Text) (g : Spec) (v : Vault) where
  pub Refines-password :
      (f : Entry → Ledger × Message)
      → g (view v) ≡ check_password atm id password f (view v)
      → IsValid v
      → (find id v.map_of_accounts ≡ none
          → m (idle v) ≡ done tt (idle (noted v (does_not_exist atm id))))
      → ((p : ℕ) (b : ℤ) (w : Text)
          → IsOpen id v p b w
          → text_eq w password ≡ false
          → m (idle v) ≡ done tt (idle (noted v (wrong_password atm id))))
      → ((p : ℕ) (b : ℤ) (w : Text)
          → IsOpen id v p b w
          → text_eq w password ≡ true
          → Refines m (λ _. f (record { balance = b; password = w })) v)
      → Refines m g v
  Refines-password f spec valid absent wrong right =
      elim (Option-cases (find id v.map_of_accounts)) [
        | inl e ↦
            Refines-refused v (does_not_exist atm id) valid (absent e)
              (spec ∙ check_password-absent atm id password f (view v) (view-absent v id e))
        | inr (p, e) ↦
            let (b, w, h) = valid id p e in
            elim (Bool-cases (text_eq w password)) [
              | inl same ↦
                  Refines-spec g v
                    (spec
                      ∙ check_password-right atm id password f (view v) _ (view-held v id p b w e h)
                          same)
                    (right p b w (e, h) same)
              | inr ne ↦ Refines-refused v (wrong_password atm id) valid (wrong p b w (e, h) ne) (
                  spec
                  ∙ check_password-wrong atm id password f (view v) _ (view-held v id p b w e h) ne)
            ]
      ]
