-- ===== src/Bank/Fees/Ledger.antt =====
-- `bank::fee_collection` (bank.cpp) against a specification on the ledger: each open account pays
-- once a round.
use structure_of_os.Prelude.{
  ℕ, ℤ, ◌≡◌, ◌∙◌, refl, ap, fun_ext, Option, none, some, [], ◌∷◌, Bool-cases, Option-cases, inl,
  inr, eqb_ℤ, eqb_ℤ_iff,
}
use structure_of_os.Prelude.Int.{int_sub}
use structure_of_os.Bank.Dict.{Dict, find, Distinct, AllFound, Distinct-AllFound}
use structure_of_os.Bank.State.{Vault, idle, new_account}
use structure_of_os.Bank.Monad.{done}
use structure_of_os.Bank.Ledger.{Ledger, Entry, put}
use structure_of_os.Bank.Invariant.{
  IsValid, view, view-held, rewrite_account-IsValid, view-rewrite_account,
}
use structure_of_os.Bank.Kept.{Kept, rewrite_account-Kept}
use structure_of_os.Bank.Fees.{charge_all, collect}
use structure_of_os.Bank.Fees.Conserved.{charged, charge-runs, reading}

module _ (fee_of : ℕ → ℤ → ℤ) (rate : ℕ) where
  -- An open account after it paid.
  abbrev pub paid : Option Entry → Option Entry
  paid none = none
  paid (some e) = some (record e { balance = int_sub e.balance (fee_of rate e.balance) })

  -- Every open account pays.
  abbrev pub everyone_pays : Ledger → Ledger
  everyone_pays l id = paid (l id)

  -- Those in the list pay.
  abbrev pays_if : Option ℕ → Option Entry → Option Entry
  pays_if none e = e
  pays_if (some _) e = paid e

  pays-cons :
      (m : Dict) (id : ℤ) (p : ℕ) (l : Ledger)
      → find id m ≡ none
      → (j : ℤ)
      → pays_if (find j m) (put id (paid (l id)) l j) ≡ pays_if (find j ((id, p) ∷ m)) (l j)
  pays-cons m id p l new j = elim (Bool-cases (eqb_ℤ j id)) [
    | inl same ↦ rw same (rw ((eqb_ℤ_iff j id).0 same, new) refl)
    | inr other ↦ rw other refl
  ]

  view-charged :
      (v : Vault) (id : ℤ) (p : ℕ) (valid : IsValid v) (found : find id v.map_of_accounts ≡ some p)
      → (j : ℤ)
      → let (b, w, held) = valid id p found in
        view (charged fee_of rate v id p b w) j ≡ put id (paid (view v id)) (view v) j
  view-charged v id p valid found j =
      let (b, w, held) = valid id p found in
      view-rewrite_account v id p valid found (int_sub b (fee_of rate b)) w j
      ∙ ap (λ e. put id e (view v) j) (rw (view-held v id p b w found held) refl)

  record Charged (m : Dict) (v v' : Vault) : Type 0 where
    runs : charge_all fee_of rate m (reading v) ≡ done tt (reading v')
    valid : IsValid v'
    kept : Kept v → Kept v'
    same_map : v'.map_of_accounts ≡ v.map_of_accounts
    ledger : (j : ℤ) → view v' j ≡ pays_if (find j m) (view v j)

  charge_all-Charged :
      (m : Dict) (v : Vault)
      → IsValid v
      → Distinct m
      → AllFound v.map_of_accounts m
      → (v' : Vault) × Charged m v v'
  unfolding charge_all
  charge_all-Charged [] v valid d f =
      (v, record { runs = refl; valid = valid; kept = λ k. k; same_map = refl; ledger = λ j. refl })
  charge_all-Charged ((id, p) ∷ m) v valid (new, d) (found, f) =
      let (b, w, held) = valid id p found in
      let u = charged fee_of rate v id p b w in
      let valid' : IsValid u = rewrite_account-IsValid v id p valid found _ w in
      let (v', rest) = charge_all-Charged m u valid' d f in
      (
        v',
        record {
          runs = rw (charge-runs fee_of rate v id p b w held) rest.runs;
          valid = rest.valid;
          kept = λ k.
              rest.kept
                (rewrite_account-Kept v id p held (new_account id (int_sub b (fee_of rate b)) w) k);
          same_map = rest.same_map;
          ledger = λ j.
              rest.ledger j
              ∙ ap (pays_if (find j m)) (view-charged v id p valid found j)
              ∙ pays-cons m id p (view v) new j;
        },
      )

  -- One round returns with all locks free, and every open account has paid once.
  pub record Collected (v : Vault) : Type 0 where
    pub result : Vault
    pub runs : collect fee_of rate (idle v) ≡ done tt (idle result)
    pub valid : IsValid result
    pub kept : Kept result
    pub ledger : view result ≡ everyone_pays (view v)

  pays_all : (v : Vault) (j : ℤ) → pays_if (find j v.map_of_accounts) (view v j) ≡ paid (view v j)
  pays_all v j = elim (Option-cases (find j v.map_of_accounts)) [
    | inl none_there ↦ rw none_there refl
    | inr (p, there) ↦ rw there refl
  ]

  -- From a valid bank with all locks free whose maps are kept, a round of commissions returns with
  -- all locks free, keeps all that, and every open account of the ledger has paid once, from the
  -- balance that it had.
  pub collect-Collected : (v : Vault) → IsValid v → Kept v → Collected v
  unfolding collect charge_all
  collect-Collected v valid kept =
      let (v', r) =
        charge_all-Charged v.map_of_accounts v valid kept.0
          (Distinct-AllFound v.map_of_accounts kept.0) in
      record {
        result = v';
        runs = rw r.runs refl;
        valid = r.valid;
        kept = r.kept kept;
        ledger = fun_ext (λ j. r.ledger j ∙ pays_all v j);
      }
