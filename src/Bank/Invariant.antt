-- ===== src/Bank/Invariant.antt =====
-- What the bank keeps between operations, and the ledger that it stands for.
use structure_of_os.Prelude.{
  ℕ, ℤ, ◌≡◌, ◌≢◌, ◌∙◌, ap, false, Option, none, some, Text, get_elem?, set, inl, inr, Option-cases,
  Bool-cases, arith, eqb_ℤ, eqb_ℤ_iff, get_elem?-set_self, get_elem?-set_ne, ◌++◌, ◌∷◌, [], length,
  get_elem?-append_left, get_elem?-append_new,
}
use structure_of_os.Bank.Dict.{find, place, erase, find-place, find-erase}
use structure_of_os.Bank.State.{Account, new_account, Vault}
use structure_of_os.Bank.Ledger.{Entry, Ledger, put}

-- The pointer leads to an account with this number that is open, with all its locks free.
abbrev pub Holds : Vault → ℤ → ℕ → Type 0
Holds v id p =
    (balance : ℤ) × (password : Text) × (get_elem? v.accounts p
      ≡ some (new_account id balance password))

-- The account `id`, open at `p` with this balance and this password.
abbrev pub IsOpen : ℤ → Vault → ℕ → ℤ → Text → Type 0
IsOpen id v p b w =
    (find id v.map_of_accounts ≡ some p) × (get_elem? v.accounts p ≡ some (new_account id b w))

-- Every entry of `map_of_accounts` is such a pointer.
abbrev pub IsValid : Vault → Type 0
IsValid v = (id : ℤ) (p : ℕ) → find id v.map_of_accounts ≡ some p → Holds v id p

abbrev pub entry_of : Option Account → Option Entry
entry_of none = none
entry_of (some a) = some (record { balance = a.balance; password = a.password })

abbrev pub entry_at : Vault → Option ℕ → Option Entry
entry_at v none = none
entry_at v (some p) = entry_of (get_elem? v.accounts p)

abbrev pub view : Vault → Ledger
view v id = entry_at v (find id v.map_of_accounts)

-- Two numbers with one pointer are one number.
pub pointer_injective :
    (v : Vault) (i j : ℤ) (p : ℕ)
    → IsValid v
    → find i v.map_of_accounts ≡ some p
    → find j v.map_of_accounts ≡ some p
    → i ≡ j
pointer_injective v i j p valid hi hj =
    let (b, w, e) = valid i p hi in let (c, x, f) = valid j p hj in ground arith

-- The vault whose account at `p` is replaced.
abbrev pub rewrite_account : Vault → ℕ → Account → Vault
rewrite_account v p a = record v { accounts = set v.accounts p a }

module _ (v : Vault) (id : ℤ) (p : ℕ) (valid : IsValid v)
    (found : find id v.map_of_accounts ≡ some p) where
  abbrev there : Holds v id p
  there = valid id p found

  other_pointer : (j : ℤ) (q : ℕ) → find j v.map_of_accounts ≡ some q → eqb_ℤ j id ≡ false → p ≢ q
  other_pointer j q e ne same =
      let k : j ≡ id = pointer_injective v j id q valid e (rw (← same) found) in
      ground (arith, eqb_ℤ_iff j id)

  -- What is written at `p` is read there.
  rewritten : (a : Account) → get_elem? (set v.accounts p a) p ≡ some a
  rewritten a = get_elem?-set_self v.accounts p there.2 a

  pub rewrite_account-IsValid :
      (b : ℤ) (w : Text) → IsValid (rewrite_account v p (new_account id b w))
  rewrite_account-IsValid b w j q e = elim (Bool-cases (eqb_ℤ j id)) [
    | inl same ↦ (b, w, cc ((eqb_ℤ_iff j id).0 same, rewritten (new_account id b w)))
    | inr ne ↦
        let (c, x, h) = valid j q e in
        (c, x, get_elem?-set_ne v.accounts p q _ (other_pointer j q e ne) ∙ h)
  ]

  other_entry :
      (a : Account) (j : ℤ) → eqb_ℤ j id ≡ false → view (rewrite_account v p a) j ≡ view v j
  other_entry a j ne = elim (Option-cases (find j v.map_of_accounts)) [
    | inl e ↦ rw e
    | inr (q, e) ↦ rw e (ap entry_of (get_elem?-set_ne v.accounts p q a (other_pointer j q e ne)))
  ]

  pub view-rewrite_account :
      (b : ℤ) (w : Text) (j : ℤ)
      → view (rewrite_account v p (new_account id b w)) j
        ≡ put id (some (record { balance = b; password = w })) (view v) j
  view-rewrite_account b w j = elim (Bool-cases (eqb_ℤ j id)) [
    | inl same ↦ rw same (rw ((eqb_ℤ_iff j id).0 same, found, rewritten (new_account id b w)))
    | inr ne ↦ rw ne (other_entry (new_account id b w) j ne)
  ]

  -- The vault whose account at `p` is closed: it leaves the map, and is kept in memory.
  abbrev pub close_account : Account → Vault
  close_account a = record (rewrite_account v p a) { map_of_accounts = erase id v.map_of_accounts }

  pub close_account-IsValid : (a : Account) → IsValid (close_account a)
  close_account-IsValid a j q e = elim (Bool-cases (eqb_ℤ j id)) [
    | inl same ↦ cc (rw (find-erase, same) at e)
    | inr ne ↦
        let old : find j v.map_of_accounts ≡ some q = rw (find-erase, ne) at e in
        let (c, x, h) = valid j q old in
        (c, x, get_elem?-set_ne v.accounts p q a (other_pointer j q old ne) ∙ h)
  ]

  pub view-close_account : (a : Account) (j : ℤ) → view (close_account a) j ≡ put id none (view v) j
  view-close_account a j = elim (Bool-cases (eqb_ℤ j id)) [
    | inl same ↦ rw (find-erase, same)
    | inr ne ↦ rw (find-erase, ne) (other_entry a j ne)
  ]

-- The vault with one more account, in memory and in the map.
abbrev pub add_account : Vault → ℤ → Account → Vault
add_account v id a = record v {
  map_of_accounts = place id (length v.accounts) v.map_of_accounts;
  accounts = v.accounts ++ a ∷ [];
}

module _ (v : Vault) (id : ℤ) (valid : IsValid v) (absent : find id v.map_of_accounts ≡ none) where
  pub add_account-IsValid : (b : ℤ) (w : Text) → IsValid (add_account v id (new_account id b w))
  add_account-IsValid b w j q e = elim (Bool-cases (eqb_ℤ j id)) [
    | inl same ↦
        let new : some (length v.accounts) ≡ some q =
          rw (find-place j id (length v.accounts) v.map_of_accounts absent, same) at e in
        (
          b,
          w,
          cc (new, (eqb_ℤ_iff j id).0 same, get_elem?-append_new v.accounts (new_account id b w)),
        )
    | inr ne ↦
        let old : find j v.map_of_accounts ≡ some q =
          rw (find-place j id (length v.accounts) v.map_of_accounts absent, ne) at e in
        let (c, x, h) = valid j q old in
        (c, x, get_elem?-append_left v.accounts (new_account id b w ∷ []) q h)
  ]

  kept_entry :
      (a : Account) (j : ℤ) → entry_at (add_account v id a) (find j v.map_of_accounts) ≡ view v j
  kept_entry a j = elim (Option-cases (find j v.map_of_accounts)) [
    | inl e ↦ rw e
    | inr (q, e) ↦
        let (c, x, h) = valid j q e in rw (e, h, get_elem?-append_left v.accounts (a ∷ []) q h)
  ]

  pub view-add_account :
      (b : ℤ) (w : Text) (j : ℤ)
      → view (add_account v id (new_account id b w)) j
        ≡ put id (some (record { balance = b; password = w })) (view v) j
  view-add_account b w j =
      rw (find-place j id (length v.accounts) v.map_of_accounts absent)
        (elim (Bool-cases (eqb_ℤ j id)) [
          | inl same ↦ rw same (rw (get_elem?-append_new v.accounts (new_account id b w)))
          | inr ne ↦ rw ne (kept_entry _ j)
        ])

-- What the ledger says, from the map and the memory.
pub view-absent : (v : Vault) (id : ℤ) → find id v.map_of_accounts ≡ none → view v id ≡ none
view-absent v id e = rw e

pub view-held :
    (v : Vault) (id : ℤ) (p : ℕ) (b : ℤ) (w : Text)
    → find id v.map_of_accounts ≡ some p
    → get_elem? v.accounts p ≡ some (new_account id b w)
    → view v id ≡ some (record { balance = b; password = w })
view-held v id p b w e h = rw (e, h)
