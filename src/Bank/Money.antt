-- ===== src/Bank/Money.antt =====
-- Where the money goes in a transfer.
use structure_of_os.Prelude.{
  ℕ, ℤ, pos, ◌+ℤ◌, ◌-ℤ◌, ◌≡◌, ◌≢◌, refl, ◌∙◌, false, Option, none, some, Text, text_eq, ltb_ℤ,
  eqb_ℤ, eqb_ℤ_iff, Bool-cases, fun_ext, inl, inr, arith, int_laws,
}
use structure_of_os.Prelude.Int.{IsInt, int_add, int_sub, int_add_fits, int_sub_fits}
use structure_of_os.Bank.State.{Vault, idle}
use structure_of_os.Bank.Monad.{done}
use structure_of_os.Bank.Atm.{transfer_between_accounts}
use structure_of_os.Bank.Ledger
use structure_of_os.Bank.Ledger.{Ledger, Entry, put}
use structure_of_os.Bank.Invariant.{IsValid, view}
use structure_of_os.Bank.Refines.Transfer.{transfer-Refines}

abbrev pub balance_of : Option Entry → ℤ
balance_of none = pos 0
balance_of (some e) = e.balance

put_self : (k : ℤ) (e : Option Entry) (l : Ledger) → put k e l k ≡ e
put_self k e l = rw ((eqb_ℤ_iff k k).1 refl)

eqb_ℤ_ne : (j k : ℤ) → j ≢ k → eqb_ℤ j k ≡ false
eqb_ℤ_ne j k h = ground (arith, eqb_ℤ_iff j k)

put_other : (j k : ℤ) (e : Option Entry) (l : Ledger) → j ≢ k → put k e l j ≡ l j
put_other j k e l h = rw (eqb_ℤ_ne j k h)

-- Taking from one balance and adding to another keeps their sum, where both stay in range.
sum_kept : (b c x : ℤ) → IsInt (b -ℤ x) → IsInt (c +ℤ x) → int_sub b x +ℤ int_add c x ≡ b +ℤ c
sum_kept b c x hb hc = rw (int_sub_fits b x hb, int_add_fits c x hc) (omega int_laws)

-- The ledger after a transfer, compared with the one before.
pub record Conserves (source target : ℤ) (l l' : Ledger) : Type 0 where
  pub sum :
      balance_of (l' source) +ℤ balance_of (l' target)
      ≡ balance_of (l source) +ℤ balance_of (l target)
  pub others : (j : ℤ) → j ≢ source → j ≢ target → l' j ≡ l j

unchanged : (source target : ℤ) (l : Ledger) → Conserves source target l l
unchanged source target l = record { sum = refl; others = λ j a b. refl }

module _ (source target x : ℤ) (other : source ≢ target) (l : Ledger) (e d : Entry)
    (at_source : l source ≡ some e) (at_target : l target ≡ some d) (down : IsInt (e.balance -ℤ x))
    (up : IsInt (d.balance +ℤ x)) where
  abbrev moved : Ledger
  moved =
      put target (Ledger.with_balance (int_add d.balance x) d)
        (put source (Ledger.with_balance (int_sub e.balance x) e) l)

  abbrev debited : Ledger
  debited = put source (Ledger.with_balance (int_sub e.balance x) e) l

  abbrev credit : Option Entry
  credit = Ledger.with_balance (int_add d.balance x) d

  source_after : moved source ≡ Ledger.with_balance (int_sub e.balance x) e
  source_after = put_other source target credit debited other ∙ put_self source _ l

  moved-Conserves : Conserves source target l moved
  moved-Conserves = record {
    sum =
        rw (source_after, put_self target credit debited, at_source, at_target)
          (sum_kept e.balance d.balance x down up);
    others = λ j a b. put_other j target credit debited b ∙ put_other j source _ l a;
  }

  ledger_transfer-Conserves :
      (atm : ℕ) (password : Text)
      → Conserves source target l (Ledger.transfer atm source password target x l).0
  ledger_transfer-Conserves atm password =
      let opened = Ledger.transfer-open atm source password target x l e d at_source at_target in
      elim (Bool-cases (text_eq e.password password)) [
        | inl right ↦ elim (Bool-cases (ltb_ℤ e.balance x)) [
          | inl low ↦
              rw
                (opened, Ledger.check_password-right atm source password _ l e at_source right, low)
                (unchanged source target l)
          | inr enough ↦
              rw
                (
                  opened,
                  Ledger.check_password-right atm source password _ l e at_source right,
                  enough,
                )
                moved-Conserves
        ]
        | inr wrong ↦
            rw (opened, Ledger.check_password-wrong atm source password _ l e at_source wrong)
              (unchanged source target l)
      ]

-- Over a valid bank with all locks free, a transfer between two different open accounts returns
-- with all locks free, keeps the sum of the two balances and leaves every other account as it was,
-- where neither balance leaves the range of an int.
pub transfer-Conserves :
    (atm : ℕ) (source : ℤ) (password : Text) (target x : ℤ) (v : Vault) (e d : Entry)
    → source ≢ target
    → IsValid v
    → view v source ≡ some e
    → view v target ≡ some d
    → IsInt (e.balance -ℤ x)
    → IsInt (d.balance +ℤ x)
    → (v' : Vault) × (transfer_between_accounts atm source password target x (idle v)
        ≡ done tt (idle v'))
      × Conserves source target (view v) (view v')
transfer-Conserves atm source password target x v e d other valid h k down up =
    let r = transfer-Refines atm source password target x v other valid in
    (
      r.result,
      r.runs,
      rw (fun_ext r.ledger)
          (ledger_transfer-Conserves source target x other (view v) e d h k down up atm password),
    )
