-- ===== src/Bank/Updates.antt =====
-- The balances under the locks of their accounts, with any number of threads that deposit, withdraw,
-- transfer and take commissions (account.cpp, atm.cpp, bank.cpp): reading a balance and writing it
-- are two steps, and other threads come between. `committed` is what the balances come to where
-- each change is one step. More orders are possible here than in the program, which also has
-- `transfer_lock` and the lock of the log.
pub mod Current
mod Tests
use structure_of_os.Prelude.{
  ℕ, ℤ, ◌≡◌, ◌==◌, Bool, true, false, List, ◌∷◌, ◌++◌, replicate, if◌then◌else◌,
}
use structure_of_os.Bank.Threads.{put_lock}

-- Where a thread stands.
pub data Place : Type 0 where
  -- It has no account.
  idle : Place
  -- A deposit, a withdrawal or a commission holds its account, whose balance `f` is to change.
  one : (p : ℕ) (f : ℤ → ℤ) → Place
  -- It has read the balance.
  one_read : (p : ℕ) (v : ℤ) (f : ℤ → ℤ) → Place
  -- It is about to release the account.
  one_done : (p : ℕ) → Place
  -- A transfer holds its source.
  half : (s t : ℕ) (f g : ℤ → ℤ) → Place
  -- It holds both accounts; `f` changes the source and `g` the target.
  both : (s t : ℕ) (f g : ℤ → ℤ) → Place
  -- It has read the balance of its source.
  source_read : (s t : ℕ) (v : ℤ) (f g : ℤ → ℤ) → Place
  -- It has changed it.
  source_written : (s t : ℕ) (g : ℤ → ℤ) → Place
  -- It has read the balance of its target.
  target_read : (s t : ℕ) (v : ℤ) (g : ℤ → ℤ) → Place
  -- It is about to release its source, or else its target.
  both_done : (s t : ℕ) → Place
  target_only : (t : ℕ) → Place

pub record State : Type 0 where
  pub threads : List Place
  pub account_lock : ℕ → Bool
  pub balance : ℕ → ℤ
  pub committed : ℕ → ℤ

abbrev pub start : (ℕ → ℤ) → ℕ → State
start balance n = record {
  threads = replicate n idle;
  account_lock = λ p. false;
  balance = balance;
  committed = balance;
}

abbrev pub put_balance : ℕ → ℤ → (ℕ → ℤ) → ℕ → ℤ
put_balance p v h q = if q == p then v else h q

module _ (before after : List Place) where
  abbrev pub at : Place → (ℕ → Bool) → (ℕ → ℤ) → (ℕ → ℤ) → State
  at x k h c = record {
    threads = before ++ x ∷ after;
    account_lock = k;
    balance = h;
    committed = c;
  }

pub data Step : State → State → Type 0 where
  lock_one :
      (a b : List Place) (p : ℕ) (f : ℤ → ℤ) (k : ℕ → Bool) (h c : ℕ → ℤ)
      → k p ≡ false
      → Step (at a b idle k h c) (at a b (one p f) (put_lock p true k) h c)
  read_one :
      (a b : List Place) (p : ℕ) (f : ℤ → ℤ) (k : ℕ → Bool) (h c : ℕ → ℤ)
      → Step (at a b (one p f) k h c) (at a b (one_read p (h p) f) k h c)
  refuse_one :
      (a b : List Place) (p : ℕ) (f : ℤ → ℤ) (k : ℕ → Bool) (h c : ℕ → ℤ)
      → Step (at a b (one p f) k h c) (at a b (one_done p) k h c)
  write_one :
      (a b : List Place) (p : ℕ) (v : ℤ) (f : ℤ → ℤ) (k : ℕ → Bool) (h c : ℕ → ℤ)
      → Step
          (at a b (one_read p v f) k h c)
          (at a b (one_done p) k (put_balance p (f v) h) (put_balance p (f (c p)) c))
  unlock_one :
      (a b : List Place) (p : ℕ) (k : ℕ → Bool) (h c : ℕ → ℤ)
      → Step (at a b (one_done p) k h c) (at a b idle (put_lock p false k) h c)
  lock_source :
      (a b : List Place) (s t : ℕ) (f g : ℤ → ℤ) (k : ℕ → Bool) (h c : ℕ → ℤ)
      → k s ≡ false
      → Step (at a b idle k h c) (at a b (half s t f g) (put_lock s true k) h c)
  lock_target :
      (a b : List Place) (s t : ℕ) (f g : ℤ → ℤ) (k : ℕ → Bool) (h c : ℕ → ℤ)
      → k t ≡ false
      → Step (at a b (half s t f g) k h c) (at a b (both s t f g) (put_lock t true k) h c)
  refuse_both :
      (a b : List Place) (s t : ℕ) (f g : ℤ → ℤ) (k : ℕ → Bool) (h c : ℕ → ℤ)
      → Step (at a b (both s t f g) k h c) (at a b (both_done s t) k h c)
  read_source :
      (a b : List Place) (s t : ℕ) (f g : ℤ → ℤ) (k : ℕ → Bool) (h c : ℕ → ℤ)
      → Step (at a b (both s t f g) k h c) (at a b (source_read s t (h s) f g) k h c)
  too_low :
      (a b : List Place) (s t : ℕ) (v : ℤ) (f g : ℤ → ℤ) (k : ℕ → Bool) (h c : ℕ → ℤ)
      → Step (at a b (source_read s t v f g) k h c) (at a b (both_done s t) k h c)
  write_source :
      (a b : List Place) (s t : ℕ) (v : ℤ) (f g : ℤ → ℤ) (k : ℕ → Bool) (h c : ℕ → ℤ)
      → Step
          (at a b (source_read s t v f g) k h c)
          (at a b (source_written s t g) k (put_balance s (f v) h) (put_balance s (f (c s)) c))
  read_target :
      (a b : List Place) (s t : ℕ) (g : ℤ → ℤ) (k : ℕ → Bool) (h c : ℕ → ℤ)
      → Step (at a b (source_written s t g) k h c) (at a b (target_read s t (h t) g) k h c)
  write_target :
      (a b : List Place) (s t : ℕ) (v : ℤ) (g : ℤ → ℤ) (k : ℕ → Bool) (h c : ℕ → ℤ)
      → Step
          (at a b (target_read s t v g) k h c)
          (at a b (both_done s t) k (put_balance t (g v) h) (put_balance t (g (c t)) c))
  unlock_source :
      (a b : List Place) (s t : ℕ) (k : ℕ → Bool) (h c : ℕ → ℤ)
      → Step (at a b (both_done s t) k h c) (at a b (target_only t) (put_lock s false k) h c)
  unlock_target :
      (a b : List Place) (t : ℕ) (k : ℕ → Bool) (h c : ℕ → ℤ)
      → Step (at a b (target_only t) k h c) (at a b idle (put_lock t false k) h c)

pub data Reaches (balance : ℕ → ℤ) (n : ℕ) : State → Type 0 where
  begins : Reaches balance n (start balance n)
  goes_on : {s s' : State} → Reaches balance n s → Step s s' → Reaches balance n s'
