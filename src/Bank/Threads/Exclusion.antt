-- ===== src/Bank/Threads/Exclusion.antt =====
-- Who holds an account, among the threads that read the list of accounts.
use structure_of_os.Prelude.{
  ℕ, ◌+◌, ◌≤◌, ◌≡◌, ◌==◌, ==_iff, refl, Bool, true, false, List, arith, Bool-cases, inl, inr,
}
use structure_of_os.Bank.Totals.{bit, bit_le_one, total, total-move, total-replicate, le_total}
use structure_of_os.Bank.Threads.{
  Place, idle, one, one_logs, one_logged, refuses, asks, half, both, both_log, both_logged,
  target_only, ends, transfer_refuses, State, start, put_lock, at, Begins, lock_one, lock_log,
  lock_transfer, Step, one_log, one_unlog, one_unlock, refused, lock_source, not_found, lock_target,
  transfer_log, transfer_unlog, unlock_source, unlock_target, transfer_refused, unlock_transfer,
  Reaches, nothing_yet, begins, goes_on,
}

abbrev pub is : ℕ → ℕ → ℕ
is q p = bit (q == p)

-- How often a thread has locked the account `q`.
abbrev pub has : ℕ → Place → ℕ
has q (one p) = is q p
has q (one_logs p) = is q p
has q (one_logged p) = is q p
has q (half s t) = is q s
has q (both s t) = is q s + is q t
has q (both_log s t) = is q s + is q t
has q (both_logged s t) = is q s + is q t
has q (target_only t) = is q t
has q _ = 0

abbrev pub has_log : Place → ℕ
has_log (one_logs p) = 1
has_log refuses = 1
has_log (both_log s t) = 1
has_log transfer_refuses = 1
has_log _ = 0

abbrev pub has_transfer : Place → ℕ
has_transfer (asks s t) = 1
has_transfer (half s t) = 1
has_transfer (both s t) = 1
has_transfer (both_log s t) = 1
has_transfer (both_logged s t) = 1
has_transfer (target_only t) = 1
has_transfer ends = 1
has_transfer transfer_refuses = 1
has_transfer _ = 0

-- Each lock is set just while one thread has it.
pub record Held (s : State) : Type 0 where
  pub accounts : (q : ℕ) → total (has q) s.threads ≡ bit (s.account_lock q)
  pub transfer : total has_transfer s.threads ≡ bit s.transfer_lock
  pub log : total has_log s.threads ≡ bit s.log_lock

start-Held : (n : ℕ) → Held (start n)
start-Held n = record {
  accounts = λ q. total-replicate (has q) n idle refl;
  transfer = total-replicate has_transfer n idle refl;
  log = total-replicate has_log n idle refl;
}

-- A thread's move that changes the locks as it changes what the thread has.
move-Held :
    (a b : List Place) (x y : Place) (k k' : ℕ → Bool) (m m' l l' : Bool)
    → ((q : ℕ) → has q x ≤ bit (k q) → bit (k' q) + has q x ≡ bit (k q) + has q y)
    → (has_transfer x ≤ bit m → bit m' + has_transfer x ≡ bit m + has_transfer y)
    → (has_log x ≤ bit l → bit l' + has_log x ≡ bit l + has_log y)
    → Held (at a b x k m l)
    → Held (at a b y k' m' l')
move-Held a b x y k k' m m' l l' on_accounts on_transfer on_log h = record {
  accounts = λ q. omega (
    arith,
    total-move (has q) a b x y,
    h.accounts q,
    on_accounts q (omega (arith, le_total (has q) a b x, h.accounts q)),
  );
  transfer = omega (
    arith,
    total-move has_transfer a b x y,
    h.transfer,
    on_transfer (omega (arith, le_total has_transfer a b x, h.transfer)),
  );
  log = omega (
    arith,
    total-move has_log a b x y,
    h.log,
    on_log (omega (arith, le_total has_log a b x, h.log)),
  );
}

-- Taking and releasing an account changes its own lock only.
pub taken : (k : ℕ → Bool) (p q : ℕ) → k p ≡ false → bit (put_lock p true k q) ≡ bit (k q) + is q p
taken k p q free = elim (Bool-cases (q == p)) [
  | inl same ↦ rw (same, (==_iff q p).0 same, free) refl
  | inr other ↦ rw other (omega arith)
]

pub released :
    (k : ℕ → Bool) (p q : ℕ) → is q p ≤ bit (k q) → bit (put_lock p false k q) + is q p ≡ bit (k q)
released k p q h = elim (Bool-cases (q == p)) [
  | inl same ↦ rw same (omega (arith, bit_le_one (k q), rw same at h))
  | inr other ↦ rw other (omega arith)
]

Begins-Held : {Asked : ℕ → ℕ → Type 0} {s s' : State} → Begins Asked s s' → Held s → Held s'
Begins-Held (lock_one a b p k m l free) h =
    move-Held a b idle (one p) k (put_lock p true k) m m l l
      (λ q c. omega (arith, taken k p q free)) (λ c. refl) (λ c. refl) h
Begins-Held (lock_log a b k m) h =
    move-Held a b idle refuses k k m m false true (λ q c. refl) (λ c. refl) (λ c. refl) h
Begins-Held (lock_transfer a b s t k l asked) h =
    move-Held a b idle (asks s t) k k false true l l (λ q c. refl) (λ c. refl) (λ c. refl) h

pub Step-Held : {s s' : State} → Step s s' → Held s → Held s'
Step-Held (one_log a b p k m) h =
    move-Held a b (one p) (one_logs p) k k m m false true (λ q c. refl) (λ c. refl) (λ c. refl) h
Step-Held (one_unlog a b p k m l) h =
    move-Held a b (one_logs p) (one_logged p) k k m m l false (λ q c. refl) (λ c. refl)
      (λ c. omega (arith, bit_le_one l)) h
Step-Held (one_unlock a b p k m l) h =
    move-Held a b (one_logged p) idle k (put_lock p false k) m m l l
      (λ q c. omega (arith, released k p q c)) (λ c. refl) (λ c. refl) h
Step-Held (refused a b k m l) h =
    move-Held a b refuses idle k k m m l false (λ q c. refl) (λ c. refl)
      (λ c. omega (arith, bit_le_one l)) h
Step-Held (lock_source a b s t k m l free) h =
    move-Held a b (asks s t) (half s t) k (put_lock s true k) m m l l
      (λ q c. omega (arith, taken k s q free)) (λ c. refl) (λ c. refl) h
Step-Held (not_found a b s t k m) h =
    move-Held a b (asks s t) transfer_refuses k k m m false true (λ q c. refl) (λ c. refl)
      (λ c. refl) h
Step-Held (lock_target a b s t k m l free) h =
    move-Held a b (half s t) (both s t) k (put_lock t true k) m m l l
      (λ q c. omega (arith, taken k t q free)) (λ c. refl) (λ c. refl) h
Step-Held (transfer_log a b s t k m) h =
    move-Held a b (both s t) (both_log s t) k k m m false true (λ q c. refl) (λ c. refl) (λ c. refl)
      h
Step-Held (transfer_unlog a b s t k m l) h =
    move-Held a b (both_log s t) (both_logged s t) k k m m l false (λ q c. refl) (λ c. refl)
      (λ c. omega (arith, bit_le_one l)) h
Step-Held (unlock_source a b s t k m l) h =
    move-Held a b (both_logged s t) (target_only t) k (put_lock s false k) m m l l
      (λ q c. omega (arith, released k s q (omega (arith, c)))) (λ c. refl) (λ c. refl) h
Step-Held (unlock_target a b t k m l) h =
    move-Held a b (target_only t) ends k (put_lock t false k) m m l l
      (λ q c. omega (arith, released k t q c)) (λ c. refl) (λ c. refl) h
Step-Held (transfer_refused a b k m l) h =
    move-Held a b transfer_refuses ends k k m m l false (λ q c. refl) (λ c. refl)
      (λ c. omega (arith, bit_le_one l)) h
Step-Held (unlock_transfer a b k m l) h =
    move-Held a b ends idle k k m false l l (λ q c. refl) (λ c. omega (arith, bit_le_one m))
      (λ c. refl) h

-- However many threads make deposits, withdrawals, commissions and transfers under the read lock
-- of the list of accounts, whatever transfers are asked for and in whatever order their
-- instructions run: no account is locked for writing by two of them or twice by one, and it is
-- locked just while one has it; the same of `transfer_lock` and of `log_print_lock`. Checks of a
-- balance are not among them.
pub Reaches-Held : (Asked : ℕ → ℕ → Type 0) (n : ℕ) (s : State) → Reaches Asked n s → Held s
Reaches-Held Asked n s nothing_yet = start-Held n
Reaches-Held Asked n s (begins {s = u} before step) =
    Begins-Held step (Reaches-Held Asked n u before)
Reaches-Held Asked n s (goes_on {s = u} before step) =
    Step-Held step (Reaches-Held Asked n u before)
