-- ===== src/Bank/Fees/Conserved.antt =====
-- Where `bank::fee_collection` (bank.cpp) takes money from, and where it goes.
use structure_of_os.Prelude.{
  ℕ, zero, suc, ◌+◌, ◌-◌, ◌*◌, ◌≤◌, ℤ, pos, ◌≡◌, refl, ◌∙◌, true, ◌==◌, some, List, [], ◌∷◌, ◌++◌,
  ⊤, Text, get_elem?, set, get_elem?-set_self, get_elem?-set_ne, set-set, Bool-cases, inl, inr,
  arith, int_laws, ◌+ℤ◌, ◌-ℤ◌, ◌≤ℤ◌,
}
use native.Mathlib.Nat
use structure_of_os.Prelude.Int.{int_add, int_sub, int_add_fits, int_sub_fits}
use structure_of_os.Bank.Dict.{Dict}
use structure_of_os.Bank.State.{Account, new_account, Vault, Bank, idle, quiet, commission}
use structure_of_os.Bank.Monad.{done, ◌>>=◌}
use structure_of_os.Bank.Invariant.{Holds, rewrite_account}
use structure_of_os.Bank.Fees.{rand_fee, charge, charge_all, collect, fee_collection}

-- No account in memory has a debt, and their balances add up to the number.
abbrev pub Amounts : List Account → ℕ → Type 0
Amounts [] n = n ≡ 0
Amounts (a ∷ l) n = (b k : ℕ) × (a.balance ≡ pos b) × (n ≡ b + k) × Amounts l k

-- One balance is apart from the others.
balance_apart :
    (l : List Account) (n p : ℕ) {a : Account}
    → Amounts l n
    → get_elem? l p ≡ some a
    → (b k : ℕ) × (a.balance ≡ pos b)
      × (n ≡ b + k)
      × ((a' : Account) (c : ℕ) → a'.balance ≡ pos c → Amounts (set l p a') (c + k))
balance_apart [] n p h e = cc
balance_apart (x ∷ l) n zero h e =
    let (b, k, hb, hn, rest) = h in (b, k, cc (e, hb), hn, λ a' c hc. (c, k, hc, refl, rest))
balance_apart (x ∷ l) n (suc p) h e =
    let (b, k, hb, hn, rest) = h in
    let (b', k', hb', hn', f) = balance_apart l k p rest e in
    (b', b + k', hb', omega arith, λ a' c hc. (b, c + k', hb, omega arith, f a' c hc))

-- What an open account is stays true of it when a balance is rewritten.
abbrev KeepsOpen : Vault → Vault → Type 0
KeepsOpen v v' = (id : ℤ) (p : ℕ) → Holds v id p → Holds v' id p

rewritten-KeepsOpen :
    (v : Vault) (id : ℤ) (p : ℕ) (b : ℤ) (w : Text) (c : ℤ)
    → get_elem? v.accounts p ≡ some (new_account id b w)
    → KeepsOpen v (rewrite_account v p (new_account id c w))
rewritten-KeepsOpen v id p b w c held i q (d, u, h) = elim (Bool-cases (p == q)) [
  | inl same ↦
      let here : p ≡ q = ground arith in
      (c, w, cc (here, held, h, get_elem?-set_self v.accounts p held (new_account id c w)))
  | inr other ↦ (d, u, get_elem?-set_ne v.accounts p q _ (λ e. ground arith) ∙ h)
]

-- Every entry leads to an open account with all its locks free.
abbrev pub AllHeld : Vault → Dict → Type 0
AllHeld v [] = ⊤
AllHeld v ((id, p) ∷ m) = Holds v id p × AllHeld v m

kept-AllHeld : (v v' : Vault) (m : Dict) → KeepsOpen v v' → AllHeld v m → AllHeld v' m
kept-AllHeld v v' [] keeps h = tt
kept-AllHeld v v' ((id, p) ∷ m) keeps (h, hs) = (keeps id p h, kept-AllHeld v v' m keeps hs)

-- The bank while a thread reads the list of accounts.
abbrev pub reading : Vault → Bank
reading v = record {
  vault = v;
  sync = record quiet { account_list_num_of_readers = pos 1; account_list_write_lock = true };
}

-- Rounding to a whole number, as the code uses it: up to five percent of a balance that is no debt
-- become a fee that is at most half a unit off.
abbrev pub IsRounding : (ℕ → ℤ → ℤ) → Type 0
IsRounding fee_of =
    (rate n : ℕ)
    → rate ≤ 5
    → n ≤ 2147483647
    → (f : ℕ) × (fee_of rate (pos n) ≡ pos f)
      × (100 * f ≤ rate * n + 50)
      × (rate * n ≤ 100 * f + 50)

fee_covered : (rate c f : ℕ) → rate ≤ 5 → 100 * f ≤ rate * c + 50 → f ≤ c
fee_covered rate c f low up = omega (arith, Nat.mul-le-mul_right c low)

-- Sums and differences of amounts that fit.
gained : (b f : ℕ) → b + f ≤ 2147483647 → int_add (pos b) (pos f) ≡ pos (b + f)
gained b f h =
    let same : pos b +ℤ pos f ≡ pos (b + f) = omega int_laws in
    int_add_fits (pos b) (pos f) (rw same (h, omega arith)) ∙ same

charged_off : (c f : ℕ) → f ≤ c → c ≤ 2147483647 → int_sub (pos c) (pos f) ≡ pos (c - f)
charged_off c f h k =
    let same : pos c -ℤ pos f ≡ pos (c - f) = omega int_laws in
    int_sub_fits (pos c) (pos f) (rw same (omega arith, omega arith)) ∙ same

-- The bank's own money and the balances come to this amount, and nobody has a debt.
abbrev pub Worth : ℕ → Vault → Type 0
Worth total v = (b n : ℕ) × (v.balance ≡ pos b) × Amounts v.accounts n × (b + n ≡ total)

-- Money goes from the accounts to the bank and none is lost; the same accounts are open.
pub record Moves (total : ℕ) (v v' : Vault) : Type 0 where
  pub worth : Worth total v'
  pub stays_open : KeepsOpen v v'
  pub same_map : v'.map_of_accounts ≡ v.map_of_accounts
  pub gains : v.balance ≤ℤ v'.balance

unmoved : (total : ℕ) (v : Vault) → Worth total v → Moves total v v
unmoved total v worth = record {
  worth = worth;
  stays_open = λ id p h. h;
  same_map = refl;
  gains = omega arith;
}

then_Moves : {total : ℕ} {u v w : Vault} → Moves total u v → Moves total v w → Moves total u w
then_Moves a b = record {
  worth = b.worth;
  stays_open = λ id p h. b.stays_open id p (a.stays_open id p h);
  same_map = b.same_map ∙ a.same_map;
  gains = omega (arith, a.gains, b.gains);
}

module _ (fee_of : ℕ → ℤ → ℤ) where
  abbrev pub charged : ℕ → Vault → ℤ → ℕ → ℤ → Text → Vault
  charged rate v id p b w = record v {
    balance = int_add v.balance (fee_of rate b);
    accounts = set v.accounts p (new_account id (int_sub b (fee_of rate b)) w);
    log = v.log ++ commission rate (fee_of rate b) id ∷ [];
  }

  pub charge-runs :
      (rate : ℕ) (v : Vault) (id : ℤ) (p : ℕ) (b : ℤ) (w : Text)
      → get_elem? v.accounts p ≡ some (new_account id b w)
      → charge fee_of rate p (reading v) ≡ done tt (reading (charged rate v id p b w))
  charge-runs rate v id p b w held = simp (held, get_elem?-set_self v.accounts p held, set-set)

  collected :
      (r : ℕ) (rs : List ℕ) (v u v' : Vault)
      → collect fee_of (rand_fee r) (idle v) ≡ done tt (idle u)
      → fee_collection fee_of rs (idle u) ≡ done tt (idle v')
      → fee_collection fee_of (r ∷ rs) (idle v) ≡ done tt (idle v')
  unfolding fee_collection
  collected r rs v u v' h k = rw (◌>>=◌, h) k

  module _ (rounding : IsRounding fee_of) (total : ℕ) (fits : total ≤ 2147483647) where
    charge-Moves :
        (rate : ℕ) (v : Vault) (id : ℤ) (p : ℕ) (b : ℤ) (w : Text)
        → rate ≤ 5
        → Worth total v
        → get_elem? v.accounts p ≡ some (new_account id b w)
        → Moves total v (charged rate v id p b w)
    charge-Moves rate v id p b w low (mine, n, hm, am, sum) held =
        let (c, k, hc, hn, put) = balance_apart v.accounts n p am held in
        let (f, hf, up, down) = rounding rate c low (omega arith) in
        let covered = fee_covered rate c f low up in
        let fee : fee_of rate b ≡ pos f = rw hc hf in
        let left : int_sub b (fee_of rate b) ≡ pos (c - f) =
          rw (fee, hc) (charged_off c f covered (omega arith)) in
        let more : int_add v.balance (fee_of rate b) ≡ pos (mine + f) =
          rw (fee, hm) (gained mine f (omega arith)) in
        record {
          worth = (mine + f, c - f + k, more, put _ (c - f) left, omega arith);
          stays_open = rewritten-KeepsOpen v id p b w _ held;
          same_map = refl;
          gains = rw (more, hm) (omega arith);
        }

    charge_all-Moves :
        (rate : ℕ) (m : Dict) (v : Vault)
        → rate ≤ 5
        → Worth total v
        → AllHeld v m
        → (v' : Vault) × (charge_all fee_of rate m (reading v) ≡ done tt (reading v'))
          × Moves total v v'
    unfolding charge_all
    charge_all-Moves rate [] v low worth held = (v, refl, unmoved total v worth)
    charge_all-Moves rate ((id, p) ∷ m) v low worth ((b, w, h), held) =
        let first = charge-Moves rate v id p b w low worth h in
        let (v', runs, rest) =
          charge_all-Moves rate m (charged rate v id p b w) low first.worth
            (kept-AllHeld v (charged rate v id p b w) m first.stays_open held) in
        (v', rw (charge-runs rate v id p b w h) runs, then_Moves first rest)

    collect-Moves :
        (rate : ℕ) (v : Vault)
        → rate ≤ 5
        → Worth total v
        → AllHeld v v.map_of_accounts
        → (v' : Vault) × (collect fee_of rate (idle v) ≡ done tt (idle v')) × Moves total v v'
    unfolding collect charge_all
    collect-Moves rate v low worth held =
        let (v', runs, moves) = charge_all-Moves rate v.map_of_accounts v low worth held in
        (v', rw runs refl, moves)

  -- However often commissions are taken and whatever rand returns, the collection returns with all
  -- locks free; the money of the bank and all balances come to the same amount as before, nobody
  -- gets a debt, the bank never loses, and the same accounts stay open. The rounding is a
  -- parameter that is at most half a unit off, every entry of the map leads to an open account,
  -- nobody has a debt before and the amount fits in an int.
  pub fee_collection-Moves :
      (total : ℕ) (rs : List ℕ) (v : Vault)
      → IsRounding fee_of
      → total ≤ 2147483647
      → Worth total v
      → AllHeld v v.map_of_accounts
      → (v' : Vault) × (fee_collection fee_of rs (idle v) ≡ done tt (idle v')) × Moves total v v'
  unfolding fee_collection
  fee_collection-Moves total [] v rounding fits worth held = (v, refl, unmoved total v worth)
  fee_collection-Moves total (r ∷ rs) v rounding fits worth held =
      let (u, runs, first) =
        collect-Moves rounding total fits (rand_fee r) v (omega arith) worth held in
      let (v', then_runs, rest) =
        fee_collection-Moves total rs u rounding fits first.worth
          (rw first.same_map (kept-AllHeld v u v.map_of_accounts first.stays_open held)) in
      (v', collected r rs v u v' runs then_runs, then_Moves first rest)
