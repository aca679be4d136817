-- ===== src/Bank/Kept.antt =====
-- The two maps of the bank (bank.h): each number has one entry in each, and the map of deleted
-- accounts leads to accounts that are closed.
use structure_of_os.Prelude.{
  ℕ, ℤ, ◌≡◌, ◌≢◌, ◌∙◌, true, none, some, ◌∷◌, [], length, Text, get_elem?, set, get_elem?-set_self,
  get_elem?-set_ne, get_elem?-append_left, arith, inl, inr,
}
use structure_of_os.Bank.Dict.{find, insert, Distinct, place-Distinct, insert-Distinct, find-insert}
use structure_of_os.Bank.State.{Account, new_account, Vault}
use structure_of_os.Bank.Invariant.{rewrite_account, add_account}

-- An account as `closing_account` leaves it in memory.
abbrev pub closed_account : ℤ → ℤ → Text → Account
closed_account id b w = record (new_account id b w) { deleted = true }

abbrev pub AllClosed : Vault → Type 0
AllClosed v =
    (id : ℤ) (q : ℕ)
    → find id v.map_of_deleted_accounts ≡ some q
    → (b : ℤ) × (w : Text) × (get_elem? v.accounts q ≡ some (closed_account id b w))

abbrev pub Kept : Vault → Type 0
Kept v = Distinct v.map_of_accounts × Distinct v.map_of_deleted_accounts × AllClosed v

module _ (v : Vault) (id : ℤ) (p : ℕ) {b : ℤ} {w : Text}
    (held : get_elem? v.accounts p ≡ some (new_account id b w)) where
  -- A closed account is no open one.
  apart :
      (j : ℤ) (q : ℕ) {c : ℤ} {u : Text}
      → get_elem? v.accounts q ≡ some (closed_account j c u)
      → p ≢ q
  apart j q h same = ground (arith)

  AllClosed-set : (a : Account) → AllClosed v → AllClosed (rewrite_account v p a)
  AllClosed-set a closed j q e =
      let (c, u, h) = closed j q e in (c, u, get_elem?-set_ne v.accounts p q a (apart j q h) ∙ h)

  pub rewrite_account-Kept : (a : Account) → Kept v → Kept (rewrite_account v p a)
  rewrite_account-Kept a (d, e, closed) = (d, e, AllClosed-set a closed)

  -- The vault after the account at `p` is closed.
  pub close_account-Kept :
      (u : Vault)
      → u.accounts ≡ set v.accounts p (closed_account id b w)
      → Distinct u.map_of_accounts
      → u.map_of_deleted_accounts ≡ insert id p v.map_of_deleted_accounts
      → Kept v
      → Kept u
  close_account-Kept u same d deleted (_, e, closed) = (
    d,
    rw deleted (insert-Distinct id p v.map_of_deleted_accounts e),
    λ j q found. elim (find-insert j id p q v.map_of_deleted_accounts (rw deleted at found)) [
      | inl old ↦
          let (c, w', h) = AllClosed-set (closed_account id b w) closed j q old in
          (c, w', rw same h)
      | inr (here, there) ↦ (
        b,
        w,
        rw (same, here, there) (get_elem?-set_self v.accounts p held (closed_account id b w)),
      )
    ],
  )

pub add_account-Kept :
    (v : Vault) (id : ℤ) (a : Account)
    → find id v.map_of_accounts ≡ none
    → Kept v
    → Kept (add_account v id a)
add_account-Kept v id a absent (d, e, closed) = (
  place-Distinct id (length v.accounts) v.map_of_accounts absent d,
  e,
  λ j q found.
      let (c, u, h) = closed j q found in (c, u, get_elem?-append_left v.accounts (a ∷ []) q h),
)
