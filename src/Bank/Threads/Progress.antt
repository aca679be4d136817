-- ===== src/Bank/Threads/Progress.antt =====
-- How the threads that read the list of accounts come to an end of what they do.
use structure_of_os.Prelude.{
  ℕ, zero, suc, ◌≤◌, ◌≡◌, ◌≢◌, ==_iff, refl, Bool, false, List, ◌∷◌, ◌++◌, leb, arith, Bool-cases,
  inl, inr,
}
use structure_of_os.Bank.Totals.{
  bit_le_one, total, total-move, total-append, total-replicate, total-le, total_mono, le_total,
  find_thread,
}
use structure_of_os.Bank.Threads.{
  Place, idle, one, one_logs, one_logged, refuses, asks, half, both, both_log, both_logged,
  target_only, ends, transfer_refuses, State, Begins, lock_one, lock_log, lock_transfer, Step,
  one_log, one_unlog, one_unlock, refused, lock_source, not_found, lock_target, transfer_log,
  transfer_unlog, unlock_source, unlock_target, transfer_refused, unlock_transfer, Reaches,
  nothing_yet, begins, goes_on,
}
use structure_of_os.Bank.Threads.Exclusion.{
  has, has_log, has_transfer, Held, Step-Held, Reaches-Held,
}
use structure_of_os.Bank.Threads.Work.{
  remaining, is_ready, wants_log, is_half, is_asking, is_twice, is_free, has_log_le, is_half_le,
  is_busy_le, has_le, total-is_busy, total-is_free, is_busy, Moves, bit_zero, ready-Moves,
  log-Moves, half-Moves, asking-Moves, target_of, source_of,
}

-- A thread that asks for its target does not have it, unless it is its source.
half_apart : (x : Place) → 1 ≤ is_half x → has (target_of x) x ≤ is_twice x
half_apart idle h = elim h [ ]
half_apart (one p) h = elim h [ ]
half_apart (one_logs p) h = elim h [ ]
half_apart (one_logged p) h = elim h [ ]
half_apart refuses h = elim h [ ]
half_apart (asks s t) h = elim h [ ]
half_apart (half s t) h = omega arith
half_apart (both s t) h = elim h [ ]
half_apart (both_log s t) h = elim h [ ]
half_apart (both_logged s t) h = elim h [ ]
half_apart (target_only t) h = elim h [ ]
half_apart ends h = elim h [ ]
half_apart transfer_refuses h = elim h [ ]

module _ (k : ℕ → Bool) (m l : Bool) where
  abbrev with_threads : List Place → State
  with_threads ts = record { threads = ts; account_lock = k; transfer_lock = m; log_lock = l }

  -- No account is held but by the one transfer that asks for its target.
  target_is_free :
      (a b : List Place) (x : Place)
      → Held (with_threads (a ++ x ∷ b))
      → total is_twice (a ++ x ∷ b) ≡ 0
      → total is_free (a ++ x ∷ b) ≡ 0
      → 1 ≤ is_half x
      → k (target_of x) ≡ false
  target_is_free a b x held twice settled here =
      let q = target_of x in
      bit_zero (k q) (
        omega (
          arith,
          held.accounts q,
          held.transfer,
          bit_le_one m,
          half_apart x here,
          is_half_le x,
          le_total is_twice a b x,
          total-append (has q) a (x ∷ b),
          total-append is_free a (x ∷ b),
          total-append has_transfer a (x ∷ b),
          total-le (has q) is_free is_half a (has_le q),
          total-le (has q) is_free is_half b (has_le q),
          total_mono is_half has_transfer a is_half_le,
          total_mono is_half has_transfer b is_half_le,
        ))

  account_is_free :
      (ts : List Place)
      → Held (with_threads ts)
      → total is_free ts ≡ 0
      → total is_half ts ≡ 0
      → (q : ℕ) → k q ≡ false
  account_is_free ts held settled none q =
      bit_zero (k q)
        (omega (arith, held.accounts q, total-le (has q) is_free is_half ts (has_le q)))

  -- Where something is left to do, a thread goes on: one that asks for nothing, or else one that
  -- asks for the log, for its target, or for its source.
  held-Moves :
      (ts : List Place)
      → Held (with_threads ts)
      → total is_twice ts ≡ 0
      → 1 ≤ total is_busy ts
      → Moves (with_threads ts)
  held-Moves ts held twice busy = elim (Bool-cases (leb 1 (total is_ready ts))) [
    | inl ready ↦
        let (a, b, x, e, here) = find_thread is_ready ts (ground arith) in
        rw e (ready-Moves a b x k m l here)
    | inr none ↦ elim (Bool-cases (leb 1 (total wants_log ts))) [
      | inl wants ↦
          let (a, b, x, e, here) = find_thread wants_log ts (ground arith) in
          let unlogged : l ≡ false =
            bit_zero l (ground (arith, held.log, total_mono has_log is_ready ts has_log_le)) in
          rw (e, unlogged) (log-Moves a b x k m here)
      | inr silent ↦
          let settled : total is_free ts ≡ 0 = ground (arith, total-is_free ts) in
          elim (Bool-cases (leb 1 (total is_half ts))) [
            | inl halves ↦
                let (a, b, x, e, here) = find_thread is_half ts (ground arith) in
                rw e (
                  half-Moves a b x k m l here
                    (target_is_free a b x (rw e at held) (rw e at twice) (rw e at settled) here))
            | inr no_half ↦
                let (a, b, x, e, here) =
                  find_thread is_asking ts (ground (arith, total-is_busy ts)) in
                rw e (
                  asking-Moves a b x k m l here
                    (account_is_free ts held settled (ground arith) (source_of x)))
          ]
    ]
  ]

-- No transfer names one account twice.
move-Single :
    (a b : List Place) (x y : Place)
    → is_twice y ≤ is_twice x
    → total is_twice (a ++ x ∷ b) ≡ 0
    → total is_twice (a ++ y ∷ b) ≡ 0
move-Single a b x y less h = omega (arith, total-move is_twice a b x y)

abbrev Single : State → Type 0
Single s = total is_twice s.threads ≡ 0

Step-Single : {s s' : State} → Step s s' → Single s → Single s'
Step-Single (one_log a b p k m) = move-Single a b (one p) (one_logs p) (omega arith)
Step-Single (one_unlog a b p k m l) = move-Single a b (one_logs p) (one_logged p) (omega arith)
Step-Single (one_unlock a b p k m l) = move-Single a b (one_logged p) idle (omega arith)
Step-Single (refused a b k m l) = move-Single a b refuses idle (omega arith)
Step-Single (lock_source a b s t k m l free) = move-Single a b (asks s t) (half s t) (omega arith)
Step-Single (not_found a b s t k m) = move-Single a b (asks s t) transfer_refuses (omega arith)
Step-Single (lock_target a b s t k m l free) = move-Single a b (half s t) (both s t) (omega arith)
Step-Single (transfer_log a b s t k m) = move-Single a b (both s t) (both_log s t) (omega arith)
Step-Single (transfer_unlog a b s t k m l) =
    move-Single a b (both_log s t) (both_logged s t) (omega arith)
Step-Single (unlock_source a b s t k m l) =
    move-Single a b (both_logged s t) (target_only t) (omega arith)
Step-Single (unlock_target a b t k m l) = move-Single a b (target_only t) ends (omega arith)
Step-Single (transfer_refused a b k m l) = move-Single a b transfer_refuses ends (omega arith)
Step-Single (unlock_transfer a b k m l) = move-Single a b ends idle (omega arith)

module _ (Asked : ℕ → ℕ → Type 0) (apart : (s t : ℕ) → Asked s t → s ≢ t) where
  Begins-Single : {s s' : State} → Begins Asked s s' → Single s → Single s'
  Begins-Single (lock_one a b p k m l free) = move-Single a b idle (one p) (omega arith)
  Begins-Single (lock_log a b k m) = move-Single a b idle refuses (omega arith)
  Begins-Single (lock_transfer a b s t k l asked) =
      move-Single a b idle (asks s t) (ground (arith, ==_iff t s, apart s t asked))

  Reaches-Single : (n : ℕ) (s : State) → Reaches Asked n s → Single s
  Reaches-Single n s nothing_yet = total-replicate is_twice n idle refl
  Reaches-Single n s (begins {s = u} before step) = Begins-Single step (Reaches-Single n u before)
  Reaches-Single n s (goes_on {s = u} before step) = Step-Single step (Reaches-Single n u before)

-- From one state to another, with no operation that begins.
pub data Goes : State → State → Type 0 where
  stays : {s : State} → Goes s s
  then_goes : {s s' s'' : State} → Step s s' → Goes s' s'' → Goes s s''

-- The operations that have begun can all come to their ends.
abbrev pub CanFinish : State → Type 0
CanFinish s = (s' : State) × Goes s s' × (total is_busy s'.threads ≡ 0)

finish : (n : ℕ) (s : State) → total remaining s.threads ≤ n → Held s → Single s → CanFinish s
finish zero s h held single =
    (s, stays, omega (arith, total_mono is_busy remaining s.threads is_busy_le))
finish (suc n) s h held single = elim (Bool-cases (leb 1 (total is_busy s.threads))) [
  | inr idle_all ↦ (s, stays, ground arith)
  | inl busy ↦
      let (s', step, less) =
        held-Moves s.account_lock s.transfer_lock s.log_lock s.threads held single (ground arith) in
      let (s'', goes, done) =
        finish n s' (omega (arith, less)) (Step-Held step held) (Step-Single step single) in
      (s'', then_goes step goes, done)
]

-- Whatever threads that read the list of accounts and have no lock yet have come to with deposits,
-- withdrawals, commissions and transfers, their operations can all be brought to an end with
-- nothing else that begins: no thread waits for another that waits for it. No transfer that is
-- asked for may name one account twice.
pub no_deadlock :
    (Asked : ℕ → ℕ → Type 0) (n : ℕ) (s : State)
    → ((p q : ℕ) → Asked p q → p ≢ q)
    → Reaches Asked n s
    → CanFinish s
no_deadlock Asked n s apart run =
    finish (total remaining s.threads) s (omega arith) (Reaches-Held Asked n s run)
      (Reaches-Single Asked apart n s run)
