-- ===== src/Bank/Readers.antt =====
-- The lock of the list of accounts with any number of threads (bank.cpp), an instruction of one
-- thread at a time: `lock_account_list_for_read` and its kin, and the write lock. What a thread does
-- under the lock is a step of its own, which may wait for other locks.
pub mod Exclusion
pub mod Progress
mod Tests
use structure_of_os.Prelude.{ℕ, suc, ◌+◌, Bool, true, false, List, [], ◌∷◌, ◌++◌, replicate}

-- Where a thread stands.
pub data Place : Type 0 where
  outside : Place
  -- It holds the read lock and counts itself in.
  entering : Place
  -- It is the first reader and asks for the write lock.
  first : Place
  -- It is counted in and releases the read lock.
  entered : Place
  -- It is at work on the list, which it may read.
  reading : Place
  -- It is done with the list and asks for the read lock.
  finished : Place
  -- It holds the read lock and counts itself out.
  leaving : Place
  -- It was the last reader and releases the write lock.
  last : Place
  -- It is counted out and releases the read lock.
  left : Place
  -- It holds the write lock and is at work on the list, which it may change.
  writing : Place
  -- It is done with the list and releases the write lock.
  written : Place

pub record State : Type 0 where
  pub threads : List Place
  pub num_of_readers : ℕ
  pub read_lock : Bool
  pub write_lock : Bool

abbrev pub start : ℕ → State
start n = record {
  threads = replicate n outside;
  num_of_readers = 0;
  read_lock = false;
  write_lock = false;
}

-- One thread goes from one place to the next.
module _ (before after : List Place) where
  abbrev pub at : Place → ℕ → Bool → Bool → State
  at x n r w = record {
    threads = before ++ x ∷ after;
    num_of_readers = n;
    read_lock = r;
    write_lock = w;
  }

-- The instructions of the lock.
pub data Step : State → State → Type 0 where
  lock_read :
      (a b : List Place) (n : ℕ) (w : Bool)
      → Step (at a b outside n false w) (at a b entering n true w)
  count_in_first :
      (a b : List Place) (r w : Bool) → Step (at a b entering 0 r w) (at a b first 1 r w)
  count_in :
      (a b : List Place) (n : ℕ) (r w : Bool)
      → Step (at a b entering (suc n) r w) (at a b entered (suc (suc n)) r w)
  first_locks :
      (a b : List Place) (n : ℕ) (r : Bool)
      → Step (at a b first n r false) (at a b entered n r true)
  release_entered :
      (a b : List Place) (n : ℕ) (r w : Bool)
      → Step (at a b entered n r w) (at a b reading n false w)
  lock_leave :
      (a b : List Place) (n : ℕ) (w : Bool)
      → Step (at a b finished n false w) (at a b leaving n true w)
  count_out_last : (a b : List Place) (r w : Bool) → Step (at a b leaving 1 r w) (at a b last 0 r w)
  count_out :
      (a b : List Place) (n : ℕ) (r w : Bool)
      → Step (at a b leaving (suc (suc n)) r w) (at a b left (suc n) r w)
  last_unlocks :
      (a b : List Place) (n : ℕ) (r w : Bool) → Step (at a b last n r w) (at a b left n r false)
  release_left :
      (a b : List Place) (n : ℕ) (r w : Bool) → Step (at a b left n r w) (at a b outside n false w)
  lock_write :
      (a b : List Place) (n : ℕ) (r : Bool)
      → Step (at a b outside n r false) (at a b writing n r true)
  unlock_write :
      (a b : List Place) (n : ℕ) (r w : Bool)
      → Step (at a b written n r w) (at a b outside n r false)

-- A thread gets done with what it does under the lock. The locks of the accounts and of the log, for
-- which it may wait meanwhile, are not part of this state.
pub data Work : State → State → Type 0 where
  reads :
      (a b : List Place) (n : ℕ) (r w : Bool) → Work (at a b reading n r w) (at a b finished n r w)
  writes :
      (a b : List Place) (n : ℕ) (r w : Bool) → Work (at a b writing n r w) (at a b written n r w)

-- What threads that all start outside can come to.
pub data Reaches (n : ℕ) : State → Type 0 where
  begins : Reaches n (start n)
  goes_on : {s s' : State} → Reaches n s → Step s s' → Reaches n s'
  works : {s s' : State} → Reaches n s → Work s s' → Reaches n s'
