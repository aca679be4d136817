-- ===== src/Bank/Threads.antt =====
-- Threads that make deposits, withdrawals, commissions and transfers under the read lock of the list of
-- accounts (atm.cpp, bank.cpp), an instruction of one thread at a time: the locks for writing of the
-- accounts, `transfer_lock` and `log_print_lock`. Checks of a balance are not among them.
pub mod Exclusion
pub mod Work
pub mod Progress
mod Tests
use structure_of_os.Prelude.{
  ℕ, ◌≡◌, ◌==◌, Bool, true, false, List, ◌∷◌, ◌++◌, replicate, if◌then◌else◌,
}

-- Where a thread stands; `p`, `s` and `t` are accounts.
pub data Place : Type 0 where
  -- It reads the list and has no other lock.
  idle : Place
  -- It holds an account: a deposit, a withdrawal or a commission.
  one : (p : ℕ) → Place
  -- It writes to the log as well.
  one_logs : (p : ℕ) → Place
  -- It is about to release the account.
  one_logged : (p : ℕ) → Place
  -- It writes that there is no such account.
  refuses : Place
  -- A transfer holds `transfer_lock` and asks for its source.
  asks : (s t : ℕ) → Place
  -- It holds its source and asks for its target.
  half : (s t : ℕ) → Place
  -- It holds both.
  both : (s t : ℕ) → Place
  both_log : (s t : ℕ) → Place
  both_logged : (s t : ℕ) → Place
  -- It has released its source.
  target_only : (t : ℕ) → Place
  -- It has neither account.
  ends : Place
  -- A transfer that found no account writes so.
  transfer_refuses : Place

pub record State : Type 0 where
  pub threads : List Place
  pub account_lock : ℕ → Bool
  pub transfer_lock : Bool
  pub log_lock : Bool

abbrev pub start : ℕ → State
start n = record {
  threads = replicate n idle;
  account_lock = λ p. false;
  transfer_lock = false;
  log_lock = false;
}

abbrev pub put_lock : ℕ → Bool → (ℕ → Bool) → ℕ → Bool
put_lock p b locks q = if q == p then b else locks q

-- One thread goes from one place to the next.
module _ (before after : List Place) where
  abbrev pub at : Place → (ℕ → Bool) → Bool → Bool → State
  at x locks m l = record {
    threads = before ++ x ∷ after;
    account_lock = locks;
    transfer_lock = m;
    log_lock = l;
  }

-- An operation begins, with a transfer only where one is asked for.
pub data Begins (Asked : ℕ → ℕ → Type 0) : State → State → Type 0 where
  lock_one :
      (a b : List Place) (p : ℕ) (k : ℕ → Bool) (m l : Bool)
      → k p ≡ false
      → Begins Asked (at a b idle k m l) (at a b (one p) (put_lock p true k) m l)
  lock_log :
      (a b : List Place) (k : ℕ → Bool) (m : Bool)
      → Begins Asked (at a b idle k m false) (at a b refuses k m true)
  lock_transfer :
      (a b : List Place) (s t : ℕ) (k : ℕ → Bool) (l : Bool)
      → Asked s t
      → Begins Asked (at a b idle k false l) (at a b (asks s t) k true l)

-- An operation that has begun goes on.
pub data Step : State → State → Type 0 where
  one_log :
      (a b : List Place) (p : ℕ) (k : ℕ → Bool) (m : Bool)
      → Step (at a b (one p) k m false) (at a b (one_logs p) k m true)
  one_unlog :
      (a b : List Place) (p : ℕ) (k : ℕ → Bool) (m l : Bool)
      → Step (at a b (one_logs p) k m l) (at a b (one_logged p) k m false)
  one_unlock :
      (a b : List Place) (p : ℕ) (k : ℕ → Bool) (m l : Bool)
      → Step (at a b (one_logged p) k m l) (at a b idle (put_lock p false k) m l)
  refused :
      (a b : List Place) (k : ℕ → Bool) (m l : Bool)
      → Step (at a b refuses k m l) (at a b idle k m false)
  lock_source :
      (a b : List Place) (s t : ℕ) (k : ℕ → Bool) (m l : Bool)
      → k s ≡ false
      → Step (at a b (asks s t) k m l) (at a b (half s t) (put_lock s true k) m l)
  not_found :
      (a b : List Place) (s t : ℕ) (k : ℕ → Bool) (m : Bool)
      → Step (at a b (asks s t) k m false) (at a b transfer_refuses k m true)
  lock_target :
      (a b : List Place) (s t : ℕ) (k : ℕ → Bool) (m l : Bool)
      → k t ≡ false
      → Step (at a b (half s t) k m l) (at a b (both s t) (put_lock t true k) m l)
  transfer_log :
      (a b : List Place) (s t : ℕ) (k : ℕ → Bool) (m : Bool)
      → Step (at a b (both s t) k m false) (at a b (both_log s t) k m true)
  transfer_unlog :
      (a b : List Place) (s t : ℕ) (k : ℕ → Bool) (m l : Bool)
      → Step (at a b (both_log s t) k m l) (at a b (both_logged s t) k m false)
  unlock_source :
      (a b : List Place) (s t : ℕ) (k : ℕ → Bool) (m l : Bool)
      → Step (at a b (both_logged s t) k m l) (at a b (target_only t) (put_lock s false k) m l)
  unlock_target :
      (a b : List Place) (t : ℕ) (k : ℕ → Bool) (m l : Bool)
      → Step (at a b (target_only t) k m l) (at a b ends (put_lock t false k) m l)
  transfer_refused :
      (a b : List Place) (k : ℕ → Bool) (m l : Bool)
      → Step (at a b transfer_refuses k m l) (at a b ends k m false)
  unlock_transfer :
      (a b : List Place) (k : ℕ → Bool) (m l : Bool)
      → Step (at a b ends k m l) (at a b idle k false l)

-- What threads that have no lock yet can come to.
pub data Reaches (Asked : ℕ → ℕ → Type 0) (n : ℕ) : State → Type 0 where
  nothing_yet : Reaches Asked n (start n)
  begins : {s s' : State} → Reaches Asked n s → Begins Asked s s' → Reaches Asked n s'
  goes_on : {s s' : State} → Reaches Asked n s → Step s s' → Reaches Asked n s'
