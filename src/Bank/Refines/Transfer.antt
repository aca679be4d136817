-- ===== src/Bank/Refines/Transfer.antt =====
-- `atm::transfer_between_accounts` against its specification, and from an account to itself.
use structure_of_os.Prelude.{
  ℕ, ℤ, pos, ◌≡◌, ◌≢◌, refl, fun_ext, ◌∙◌, sym, ap, true, false, some, Text, get_elem?, set,
  text_eq, ltb_ℤ, get_elem?-set_self, get_elem?-set_ne, set-set, set_comm, set-get_elem?,
  Bool-cases, Option-cases, inl, inr,
}
use structure_of_os.Prelude.Int.{int_add, int_sub}
use structure_of_os.Bank.Dict.{find}
use structure_of_os.Bank.State.{
  Account, new_account, Message, Vault, Bank, idle, transferred, balance_too_low, wrong_password,
  does_not_exist, account_write, account_list_write, transfer, quiet,
}
use structure_of_os.Bank.Monad.{done, blocked}
use structure_of_os.Bank.Atm.{transfer_between_accounts, create_account, closing_account}
use structure_of_os.Bank.Invariant.{
  IsValid, IsOpen, view, view-absent, view-held, pointer_injective, rewrite_account,
  rewrite_account-IsValid, view-rewrite_account,
}
use structure_of_os.Bank.Kept.{rewrite_account-Kept}
use structure_of_os.Bank.Ledger
use structure_of_os.Bank.Refines.{Refines, Refines-by, Refines-refused, noted}

module _ (atm : ℕ) (source : ℤ) (password : Text) (target : ℤ) (x : ℤ) (v : Vault) where
  module _ {p q : ℕ} {b c : ℤ} {w u : Text} (open_p : IsOpen source v p b w)
      (open_q : IsOpen target v q c u) (apart : p ≢ q) where
    mapped_p : find source v.map_of_accounts ≡ some p
    mapped_p = open_p.0

    mapped_q : find target v.map_of_accounts ≡ some q
    mapped_q = open_q.0

    held_p : get_elem? v.accounts p ≡ some (new_account source b w)
    held_p = open_p.1

    held_q : get_elem? v.accounts q ≡ some (new_account target c u)
    held_q = open_q.1

    past_p : (a : Account) → get_elem? (set v.accounts p a) q ≡ some (new_account target c u)
    past_p a = get_elem?-set_ne v.accounts p q a apart ∙ held_q

    rewritten_p : (a : Account) → get_elem? (set v.accounts p a) p ≡ some a
    rewritten_p = get_elem?-set_self v.accounts p held_p

    past_q : (a d : Account) → get_elem? (set (set v.accounts p a) q d) p ≡ some a
    past_q a d = get_elem?-set_ne (set v.accounts p a) q p d (λ e. apart (sym e)) ∙ rewritten_p a

    rewritten_q : (a d : Account) → get_elem? (set (set v.accounts p a) q d) q ≡ some d
    rewritten_q a d = get_elem?-set_self (set v.accounts p a) q (past_p a) d

    alone_q : (d : Account) → get_elem? (set v.accounts q d) q ≡ some d
    alone_q = get_elem?-set_self v.accounts q held_q

    -- Writes at `p` are moved before writes at `q`.
    turned :
        (a a' d : Account) → set (set (set v.accounts p a) q d) p a' ≡ set (set v.accounts p a') q d
    turned a a' d =
        set_comm (set v.accounts p a) q p d a' (λ e. apart (sym e))
        ∙ ap (λ l. set l q d) (set-set v.accounts p a a')

    restored_p : set v.accounts p (new_account source b w) ≡ v.accounts
    restored_p = set-get_elem? v.accounts p (new_account source b w) held_p

    restored_q : set v.accounts q (new_account target c u) ≡ v.accounts
    restored_q = set-get_elem? v.accounts q (new_account target c u) held_q

    ruleset laws = (
      mapped_p, mapped_q, held_p, held_q, past_p, rewritten_p, past_q, rewritten_q, alone_q, turned,
      set-set, restored_p, restored_q,
    )

    transfer-wrong :
        text_eq w password ≡ false
        → transfer_between_accounts atm source password target x (idle v)
          ≡ done tt (idle (noted v (wrong_password atm source)))
    unfolding transfer_between_accounts
    transfer-wrong wrong = simp (laws, wrong)

    transfer-runs_low :
        text_eq w password ≡ true
        → ltb_ℤ b x ≡ true
        → transfer_between_accounts atm source password target x (idle v)
          ≡ done tt (idle (noted v (balance_too_low atm source x)))
    unfolding transfer_between_accounts
    transfer-runs_low right low = simp (laws, right, low)

    -- The vault with another balance at both ends.
    abbrev transferred_vault : Vault
    transferred_vault =
        rewrite_account (rewrite_account v p (new_account source (int_sub b x) w)) q
          (new_account target (int_add c x) u)

    transfer-runs :
        text_eq w password ≡ true
        → ltb_ℤ b x ≡ false
        → transfer_between_accounts atm source password target x (idle v)
          ≡ done tt (
              idle (
                noted transferred_vault
                  (transferred atm x source target (int_sub b x) (int_add c x))))
    unfolding transfer_between_accounts
    transfer-runs right enough = simp (laws, right, enough)

  abbrev debited : ℕ → ℤ → Text → Vault
  debited p b w = rewrite_account v p (new_account source b w)

  module _ {p q : ℕ} {b c : ℤ} {w u : Text} (valid : IsValid v) (open_p : IsOpen source v p b w)
      (open_q : IsOpen target v q c u) (other : source ≢ target) where
    apart : p ≢ q
    apart e = other (pointer_injective v source target p valid open_p.0 (rw e open_q.0))

    debited-IsValid : (b' : ℤ) → IsValid (debited p b' w)
    debited-IsValid b' = rewrite_account-IsValid v source p valid open_p.0 b' w

    -- The ledger after both balances are written.
    view-transferred :
        (b' c' : ℤ) (id : ℤ)
        → view (rewrite_account (debited p b' w) q (new_account target c' u)) id
          ≡ Ledger.put target
              (some (record { balance = c'; password = u }))
              (Ledger.put source (some (record { balance = b'; password = w })) (view v))
              id
    view-transferred b' c' id =
        view-rewrite_account (debited p b' w) target q (debited-IsValid b') open_q.0 c' u id
        ∙ ap
            (λ (l : Ledger.Ledger).
              Ledger.put target (some (record { balance = c'; password = u })) l id)
            (fun_ext (view-rewrite_account v source p valid open_p.0 b' w))

    at_source : view v source ≡ some (record { balance = b; password = w })
    at_source = view-held v source p b w open_p.0 open_p.1

    abbrev moved : Ledger.Entry → Ledger.Ledger × Message
    moved = Ledger.move atm source target x (record { balance = c; password = u }) (view v)

    spec :
        Ledger.transfer atm source password target x (view v)
        ≡ Ledger.check_password atm source password moved (view v)
    spec =
        Ledger.transfer-open atm source password target x (view v) _ _ at_source
          (view-held v target q c u open_q.0 open_q.1)

    spec_right :
        text_eq w password ≡ true
        → Ledger.transfer atm source password target x (view v)
          ≡ moved (record { balance = b; password = w })
    spec_right right =
        spec ∙ Ledger.check_password-right atm source password _ (view v) _ at_source right

    transfer-Refines_open :
        Refines
          (transfer_between_accounts atm source password target x)
          (Ledger.transfer atm source password target x)
          v
    transfer-Refines_open = elim (Bool-cases (text_eq w password)) [
      | inl right ↦ elim (Bool-cases (ltb_ℤ b x)) [
        | inl low ↦
            Refines-refused v _ valid (transfer-runs_low open_p open_q apart right low)
              (spec_right right ∙ rw low)
        | inr enough ↦
            Refines-by v (transferred_vault open_p open_q apart) _ _
              (transfer-runs open_p open_q apart right enough) (spec_right right ∙ rw enough)
              (rewrite_account-IsValid (debited p _ w) target q (debited-IsValid _) open_q.0 _ u)
              (view-transferred _ _) (refl, refl, refl)
              (λ k.
                rewrite_account-Kept (debited p _ w) target q (past_p open_p open_q apart _) _
                  (rewrite_account-Kept v source p open_p.1 _ k))
      ]
      | inr wrong ↦
          Refines-refused v _ valid (transfer-wrong open_p open_q apart wrong)
            (spec ∙ Ledger.check_password-wrong atm source password _ (view v) _ at_source wrong)
    ]

-- Over a valid bank with all locks free, a transfer between two different accounts returns with
-- all locks free and does to the ledger and to log.txt what the specification says on every
-- branch: an account is missing, the password is wrong, the balance is too low, or the amount
-- moves.
pub transfer-Refines :
    (atm : ℕ) (source : ℤ) (password : Text) (target x : ℤ) (v : Vault)
    → source ≢ target
    → IsValid v
    → Refines
        (transfer_between_accounts atm source password target x)
        (Ledger.transfer atm source password target x)
        v
unfolding transfer_between_accounts
transfer-Refines atm source password target x v other valid =
    elim (Option-cases (find source v.map_of_accounts)) [
      | inl e ↦
          Refines-refused v (does_not_exist atm source) valid (rw e)
            (rw (view-absent v source e, Ledger.transfer))
      | inr (p, e) ↦ elim (Option-cases (find target v.map_of_accounts)) [
        | inl k ↦
            let (b, w, h) = valid source p e in
            Refines-refused v (does_not_exist atm target) valid (simp (e, k))
              (rw (view-held v source p b w e h, Ledger.transfer, view-absent v target k))
        | inr (q, k) ↦
            let (b, w, h) = valid source p e in
            let (c, u, g) = valid target q k in
            transfer-Refines_open atm source password target x v valid (e, h) (k, g) other
      ]
    ]

-- The bank in which an ATM stands that waits for an account which it has locked itself.
abbrev pub stuck : Vault → ℕ → Account → Bank
stuck v p a = record {
  vault = rewrite_account v p (record a { lock_write = true });
  sync = record quiet {
    account_list_num_of_readers = pos 1;
    account_list_write_lock = true;
    transfer_lock = true;
  };
}

-- Over a valid bank with all locks free, a transfer from an open account to itself waits for ever
-- for the lock of the account that it holds itself, whatever the password and the amount, and
-- meanwhile every opening, closing and transfer of any ATM waits for it.
pub transfer_to_self-blocked :
    (atm : ℕ) (id : ℤ) (password : Text) (x : ℤ) (v : Vault) (p : ℕ)
    → IsValid v
    → find id v.map_of_accounts ≡ some p
    → (a : Account) × (get_elem? v.accounts p ≡ some a)
      × (transfer_between_accounts atm id password id x (idle v)
          ≡ blocked (account_write p) (stuck v p a))
      × ((other : ℕ) (i : ℤ) (w : Text) (y : ℤ)
          → (c : Bank) × (create_account other i w y (stuck v p a) ≡ blocked account_list_write c))
      × ((other : ℕ) (i : ℤ) (w : Text)
          → (c : Bank) × (closing_account other i w (stuck v p a) ≡ blocked account_list_write c))
      × ((other : ℕ) (i : ℤ) (w : Text) (j y : ℤ)
          → (c : Bank) × (transfer_between_accounts other i w j y (stuck v p a)
              ≡ blocked transfer c))
unfolding transfer_between_accounts create_account closing_account
transfer_to_self-blocked atm id password x v p valid e =
    let (b, w, h) = valid id p e in
    (
      new_account id b w,
      h,
      simp (e, h, get_elem?-set_self v.accounts p h),
      λ other i u y. (_, refl),
      λ other i u. (_, refl),
      λ other i u j y. (_, refl),
    )
