-- ===== src/Bank/Readers/Progress.antt =====
-- Which thread can go on at the lock of the list of accounts.
use structure_of_os.Prelude.{
  ℕ, zero, suc, ◌+◌, ◌≤◌, ◌≡◌, ◌⊎◌, inl, inr, refl, Bool, true, false, List, [], ◌∷◌, ◌++◌, length,
  leb, arith, Bool-cases, ◌∙◌,
}
use structure_of_os.Bank.Totals.{
  bit, bit_le_one, total, le_total, find_thread, length-move, length-replicate,
}
use structure_of_os.Bank.Readers.{
  Place, outside, entering, first, entered, reading, finished, leaving, last, left, writing,
  written, State, at, Step, lock_read, count_in_first, count_in, first_locks, release_entered,
  lock_leave, count_out_last, count_out, last_unlocks, release_left, lock_write, unlock_write,
  Reaches, begins, goes_on, Work, reads, writes, works,
}
use structure_of_os.Bank.Readers.Exclusion.{
  is_first, is_last, is_inside, is_onward, is_writing, Holds, Reaches-Holds,
}

-- An instruction of the lock that a thread can carry out now.
abbrev pub CanStep : State → Type 0
CanStep s = (s' : State) × Step s s'

-- A thread is at work under the lock.
abbrev pub is_working : Place → ℕ
is_working reading = 1
is_working writing = 1
is_working _ = 0

-- The places whose next instruction does not ask for the read lock.
abbrev is_busy : Place → ℕ
is_busy x = is_first x + is_last x + is_inside x + is_writing x

total-is_busy :
    (l : List Place)
    → total is_busy l ≡ total is_first l + total is_last l + total is_inside l + total is_writing l
total-is_busy [] = refl
total-is_busy (x ∷ l) = omega (arith, total-is_busy l)

is_busy_le_one : (x : Place) → is_busy x ≤ 1
is_busy_le_one outside = omega arith
is_busy_le_one entering = omega arith
is_busy_le_one first = omega arith
is_busy_le_one entered = omega arith
is_busy_le_one reading = omega arith
is_busy_le_one finished = omega arith
is_busy_le_one leaving = omega arith
is_busy_le_one last = omega arith
is_busy_le_one left = omega arith
is_busy_le_one writing = omega arith
is_busy_le_one written = omega arith

-- A thread whose next instruction waits for no lock that is held.
step_from :
    (a b : List Place) (x : Place) (n : ℕ) (r w : Bool)
    → is_first x + bit w ≤ 1
    → is_onward x ≤ n
    → bit r ≤ is_busy x
    → is_working x ≤ 0
    → CanStep (at a b x n r w)
step_from a b outside n true w f o h idle = elim h [ ]
step_from a b outside n false w f o h idle = (_, lock_read a b n w)
step_from a b entering zero r w f o h idle = (_, count_in_first a b r w)
step_from a b entering (suc n) r w f o h idle = (_, count_in a b n r w)
step_from a b first n r true f o h idle = let absurd : 1 ≤ 0 = omega arith in elim absurd [ ]
step_from a b first n r false f o h idle = (_, first_locks a b n r)
step_from a b entered n r w f o h idle = (_, release_entered a b n r w)
step_from a b reading n r w f o h idle = elim idle [ ]
step_from a b finished n true w f o h idle = elim h [ ]
step_from a b finished n false w f o h idle = (_, lock_leave a b n w)
step_from a b leaving zero r w f o h idle = elim o [ ]
step_from a b leaving (suc zero) r w f o h idle = (_, count_out_last a b r w)
step_from a b leaving (suc (suc n)) r w f o h idle = (_, count_out a b n r w)
step_from a b last n r w f o h idle = (_, last_unlocks a b n r w)
step_from a b left n r w f o h idle = (_, release_left a b n r w)
step_from a b writing n r w f o h idle = elim idle [ ]
step_from a b written n r w f o h idle = (_, unlock_write a b n r w)

-- With the balance: a thread that writes, or else one that is busy, or else any.
balanced-CanStep :
    (a b : List Place) (x : Place) (n : ℕ) (r w : Bool)
    → Holds (at a b x n r w)
    → total is_working (a ++ x ∷ b) ≡ 0
    → (1 ≤ is_writing x)
      ⊎ ((total is_writing (a ++ x ∷ b) ≡ 0) × ((1 ≤ is_busy x) ⊎ (total is_busy (a ++ x ∷ b) ≡ 0)))
    → CanStep (at a b x n r w)
balanced-CanStep a b x n r w (one, count, lock, alone, none) idle choice =
    step_from a b x n r w
      (ground (arith, is_busy_le_one x, bit_le_one w, bit_le_one r, le_total is_first a b x))
      (ground (arith, le_total is_onward a b x))
      (ground (arith, bit_le_one r, total-is_busy (a ++ x ∷ b)))
      (omega (arith, le_total is_working a b x, idle))

-- The same with the thread found in a list.
found-CanStep :
    (l a b : List Place) (x : Place) (n : ℕ) (r w : Bool)
    → l ≡ a ++ x ∷ b
    → Holds (record { threads = l; num_of_readers = n; read_lock = r; write_lock = w })
    → total is_working l ≡ 0
    → (1 ≤ is_writing x) ⊎ ((total is_writing l ≡ 0) × ((1 ≤ is_busy x) ⊎ (total is_busy l ≡ 0)))
    → CanStep (record { threads = l; num_of_readers = n; read_lock = r; write_lock = w })
found-CanStep l a b x n r w e h idle choice =
    rw e (balanced-CanStep a b x n r w (rw e at h) (rw e at idle) (rw e at choice))

held-CanStep :
    (l : List Place) (n : ℕ) (r w : Bool)
    → 1 ≤ length l
    → Holds (record { threads = l; num_of_readers = n; read_lock = r; write_lock = w })
    → total is_working l ≡ 0
    → CanStep (record { threads = l; num_of_readers = n; read_lock = r; write_lock = w })
held-CanStep [] n r w some h quiet = elim some [ ]
held-CanStep (y ∷ l) n r w some h quiet = elim (Bool-cases (leb 1 (total is_writing (y ∷ l)))) [
  | inl writers ↦
      let (a, b, x, e, k) = find_thread is_writing (y ∷ l) (ground arith) in
      found-CanStep (y ∷ l) a b x n r w e h quiet (inl k)
  | inr none ↦ elim (Bool-cases (leb 1 (total is_busy (y ∷ l)))) [
    | inl busy ↦
        let (a, b, x, e, k) = find_thread is_busy (y ∷ l) (ground arith) in
        found-CanStep (y ∷ l) a b x n r w e h quiet (inr (ground arith, inl k))
    | inr idle ↦ balanced-CanStep [] l y n r w h quiet (inr (ground arith, inr (ground arith)))
  ]
]

Step-length : {s s' : State} → Step s s' → length s'.threads ≡ length s.threads
Step-length (lock_read a b n w) = length-move a b outside entering
Step-length (count_in_first a b r w) = length-move a b entering first
Step-length (count_in a b n r w) = length-move a b entering entered
Step-length (first_locks a b n r) = length-move a b first entered
Step-length (release_entered a b n r w) = length-move a b entered reading
Step-length (lock_leave a b n w) = length-move a b finished leaving
Step-length (count_out_last a b r w) = length-move a b leaving last
Step-length (count_out a b n r w) = length-move a b leaving left
Step-length (last_unlocks a b n r w) = length-move a b last left
Step-length (release_left a b n r w) = length-move a b left outside
Step-length (lock_write a b n r) = length-move a b outside writing
Step-length (unlock_write a b n r w) = length-move a b written outside

Work-length : {s s' : State} → Work s s' → length s'.threads ≡ length s.threads
Work-length (reads a b n r w) = length-move a b reading finished
Work-length (writes a b n r w) = length-move a b writing written

Reaches-length : (n : ℕ) (s : State) → Reaches n s → length s.threads ≡ n
Reaches-length n s begins = length-replicate n outside
Reaches-length n s (goes_on {s = u} before step) = Step-length step ∙ Reaches-length n u before
Reaches-length n s (works {s = u} before work) = Work-length work ∙ Reaches-length n u before

-- Whatever threads that start outside the lock of the list of accounts have come to, where there
-- is one at all: a thread is at work under the lock, where it may wait for locks of accounts and
-- of the log, or else a thread has a next instruction of this lock that it can carry out at
-- once. So the lock alone never stops all of them.
pub never_stuck :
    (n : ℕ) (s : State) → Reaches n s → 1 ≤ n → (1 ≤ total is_working s.threads) ⊎ CanStep s
never_stuck n s run some = elim (Bool-cases (leb 1 (total is_working s.threads))) [
  | inl working ↦ inl (ground arith)
  | inr quiet ↦ inr (
      held-CanStep s.threads s.num_of_readers s.read_lock s.write_lock
        (rw (Reaches-length n s run) some) (Reaches-Holds n s run) (ground arith))
]
