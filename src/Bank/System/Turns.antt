-- ===== src/Bank/System/Turns.antt =====
-- The turns of the threads (bank.cpp, atm.cpp) against the history of the ledger.
use structure_of_os.Prelude.{
  ℕ, ℤ, ◌≡◌, ◌∙◌, refl, ap, some, List, [], ◌∷◌, Text, get_elem?, Option-cases, inl, inr,
}
use structure_of_os.Bank.Dict.{Dict, AllFound, Distinct-AllFound}
use structure_of_os.Bank.State.{Vault, idle}
use structure_of_os.Bank.Monad.{Action, done, pure, ◌>>=◌}
use structure_of_os.Bank.Ledger.{Ledger}
use structure_of_os.Bank.Invariant.{IsValid, view}
use structure_of_os.Bank.Kept.{Kept}
use structure_of_os.Bank.Script.{Locals, Command, read_line, command, execute}
use structure_of_os.Bank.Replay.{effect, commands, Separate, AllSeparate, execute-Achieves}
use structure_of_os.Bank.Fees.{rand_fee, collect}
use structure_of_os.Bank.Fees.Conserved.{AllHeld}
use structure_of_os.Bank.Fees.Ledger.{everyone_pays, collect-Collected}
use structure_of_os.Bank.Status.{accounts_status_print, accounts_status_print-runs}
use structure_of_os.Bank.System.{
  Atm, Turn, atm_turn, fee_turn, print_turn, take_line, next_line, atm_handler, turn, run,
}
use structure_of_os.Bank.System.History.{
  advance, first_command, advance_at, atms_after, atms_left, line_effect, turn_effect, history,
  AllReady, after-AllReady,
}

-- The action returns `x` with all locks free, keeps the bank valid and does `f` to its ledger.
pub record Yields {X : Type 0} (m : Action X) (x : X) (f : Ledger → Ledger) (v : Vault)
    : Type 0 where
  pub result : Vault
  pub runs : m (idle v) ≡ done x (idle result)
  pub valid : IsValid result
  pub kept : Kept result
  pub ledger : view result ≡ f (view v)

pub Yields-pure :
    {X : Type 0} (x : X) (v : Vault) → IsValid v → Kept v → Yields (pure x) x (λ l. l) v
Yields-pure x v valid kept = record {
  result = v;
  runs = refl;
  valid = valid;
  kept = kept;
  ledger = refl;
}

pub Yields->>= :
    {X Y : Type 0} {m : Action X} {x : X} {y : Y} {f g : Ledger → Ledger} (v : Vault)
    (k : X → Action Y)
    → Yields m x f v
    → ((u : Vault) → IsValid u → Kept u → Yields (k x) y g u)
    → Yields (m >>= k) y (λ l. g (f l)) v
Yields->>= {g} v k first next =
    let second = next first.result first.valid first.kept in
    record {
      result = second.result;
      runs = rw (◌>>=◌, first.runs) second.runs;
      valid = second.valid;
      kept = second.kept;
      ledger = second.ledger ∙ ap g first.ledger;
    }

first-Separate :
    (old : Locals) (lines : List Text)
    → AllSeparate (commands old lines)
    → Separate (first_command old lines)
first-Separate old [] s = tt
first-Separate old ([] ∷ lines) s = tt
first-Separate old ((c ∷ t) ∷ lines) s = s.0

execute-Yields :
    (id : ℕ) (c : Command) (v : Vault)
    → Separate c
    → IsValid v
    → Kept v
    → Yields (execute id c) tt (λ l. (effect id c l).0) v
execute-Yields id c v s valid kept =
    let a = execute-Achieves id c v s valid in
    record {
      result = a.result;
      runs = a.runs;
      valid = a.keeps;
      kept = a.kept kept;
      ledger = a.ledger;
    }

next_line-Yields :
    (id : ℕ) (path : Text) (old : Locals) (lines : List Text) (v : Vault)
    → AllSeparate (commands old lines)
    → IsValid v
    → Kept v
    → let a : Atm = record { id = id; file_path = path; lines = lines; locals = old } in
      Yields (next_line a) (advance a) (line_effect (some a)) v
unfolding next_line take_line
next_line-Yields id path old [] v s valid kept = Yields-pure _ v valid kept
next_line-Yields id path old ([] ∷ lines) v s valid kept = Yields-pure _ v valid kept
next_line-Yields id path old ((c ∷ t) ∷ lines) v s valid kept =
    Yields->>= v _ (execute-Yields id (command (read_line old (c ∷ t))) v s.0 valid kept)
      (λ u ok still. Yields-pure _ u ok still)

-- The number of entries stays, and each entry is found in memory.
found-AllHeld : (v : Vault) (m : Dict) → IsValid v → AllFound v.map_of_accounts m → AllHeld v m
found-AllHeld v [] valid f = tt
found-AllHeld v ((id, p) ∷ m) valid (found, f) = (valid id p found, found-AllHeld v m valid f)

pub valid-AllHeld : (v : Vault) → IsValid v → Kept v → AllHeld v v.map_of_accounts
valid-AllHeld v valid kept =
    found-AllHeld v v.map_of_accounts valid (Distinct-AllFound v.map_of_accounts kept.0)

collect-Yields :
    (fee_of : ℕ → ℤ → ℤ) (rate : ℕ) (v : Vault)
    → IsValid v
    → Kept v
    → Yields (collect fee_of rate) tt (everyone_pays fee_of rate) v
collect-Yields fee_of rate v valid kept =
    let c = collect-Collected fee_of rate v valid kept in
    record { result = c.result; runs = c.runs; valid = c.valid; kept = c.kept; ledger = c.ledger }

print-Yields :
    (atms : List Atm) (v : Vault)
    → IsValid v
    → Kept v
    → Yields (accounts_status_print >>= λ _. pure atms) atms (λ l. l) v
print-Yields atms v valid kept = record {
  result = v;
  runs = rw (◌>>=◌, accounts_status_print-runs v (valid-AllHeld v valid kept)) refl;
  valid = valid;
  kept = kept;
  ledger = refl;
}

atm_handler-Yields :
    (atms : List Atm) (i : ℕ) (v : Vault)
    → AllReady atms
    → IsValid v
    → Kept v
    → Yields (atm_handler atms i) (advance_at atms i) (line_effect (get_elem? atms i)) v
unfolding atm_handler
atm_handler-Yields atms i v ready valid kept = elim (Option-cases (get_elem? atms i)) [
  | inl out ↦ rw (atm_handler, advance_at, out) (Yields-pure atms v valid kept)
  | inr (a, here) ↦
      rw (atm_handler, advance_at, here)
        (Yields->>= v _
          (next_line-Yields a.id a.file_path a.locals a.lines v (ready i a here) valid kept)
          (λ u ok still. Yields-pure _ u ok still))
]

module _ (fee_of : ℕ → ℤ → ℤ) where
  turn-Yields :
      (atms : List Atm) (t : Turn) (v : Vault)
      → AllReady atms
      → IsValid v
      → Kept v
      → Yields (turn fee_of atms t) (atms_after atms t) (turn_effect fee_of atms t) v
  unfolding turn
  turn-Yields atms (atm_turn i) v ready valid kept = atm_handler-Yields atms i v ready valid kept
  turn-Yields atms (fee_turn r) v ready valid kept =
      Yields->>= v _ (collect-Yields fee_of (rand_fee r) v valid kept)
        (λ u ok still. Yields-pure atms u ok still)
  turn-Yields atms print_turn v ready valid kept = print-Yields atms v valid kept

  -- From a valid bank with all locks free whose maps are kept, and whatever the order of the
  -- threads' turns, each ends with all locks free and does to the ledger what the history says: one
  -- command of an ATM's file at a time, in the order of the file, a commission from every open
  -- account, or nothing; and the bank is valid and its maps are kept again. No transfer of a file
  -- may name one account twice.
  pub run-Yields :
      (atms : List Atm) (turns : List Turn) (v : Vault)
      → AllReady atms
      → IsValid v
      → Kept v
      → Yields (run fee_of atms turns) (atms_left atms turns) (history fee_of atms turns) v
  unfolding run
  run-Yields atms [] v ready valid kept = Yields-pure atms v valid kept
  run-Yields atms (t ∷ turns) v ready valid kept =
      Yields->>= v _ (turn-Yields atms t v ready valid kept) (λ u ok still.
        run-Yields (atms_after atms t) turns u (after-AllReady atms t ready) ok still)
