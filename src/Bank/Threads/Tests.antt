-- ===== src/Bank/Threads/Tests.antt =====
-- A transfer that waits for an account which a deposit holds.
use structure_of_os.Prelude.{ℕ, ◌≡◌, ◌≢◌, refl, true, false, [], ◌∷◌, arith}
use structure_of_os.Bank.Threads.{
  idle, one, half, State, put_lock, lock_one, lock_transfer, lock_source, Reaches, nothing_yet,
  begins, goes_on,
}
use structure_of_os.Bank.Threads.Exclusion.{Held, Reaches-Held}
use structure_of_os.Bank.Threads.Progress.{CanFinish, no_deadlock}

-- The only transfer is from account 0 to account 1.
abbrev Asked : ℕ → ℕ → Type 0
Asked s t = (s ≡ 0) × (t ≡ 1)

Asked-apart : (s t : ℕ) → Asked s t → s ≢ t
Asked-apart s t (a, b) same = omega arith

abbrev waits : State
waits = record {
  threads = half 0 1 ∷ one 1 ∷ [];
  account_lock = put_lock 0 true (put_lock 1 true (λ p. false));
  transfer_lock = true;
  log_lock = false;
}

waits-Reaches : Reaches Asked 2 waits
waits-Reaches =
    goes_on
      (begins (begins nothing_yet (lock_one (idle ∷ []) [] 1 (λ p. false) false false refl))
        (lock_transfer [] (one 1 ∷ []) 0 1 (put_lock 1 true (λ p. false)) false (refl, refl)))
      (lock_source [] (one 1 ∷ []) 0 1 (put_lock 1 true (λ p. false)) true false refl)

Reaches-Held_example : Held waits
Reaches-Held_example = Reaches-Held Asked 2 waits waits-Reaches

no_deadlock_example : CanFinish waits
no_deadlock_example = no_deadlock Asked 2 waits Asked-apart waits-Reaches
