-- ===== src/Bank/Readers/Exclusion.antt =====
-- Who reads and who writes under the lock of the list of accounts.
use structure_of_os.Prelude.{
  ℕ, zero, suc, ◌+◌, ◌≤◌, ◌≡◌, ◌⊎◌, inl, refl, Bool, true, false, List, [], ◌∷◌, arith,
}
use structure_of_os.Bank.Totals.{bit, bit_le_one, total, total-move, le_total, total-replicate}
use structure_of_os.Bank.Readers.{
  Place, outside, entering, first, entered, reading, finished, leaving, last, left, writing,
  written, State, start, at, Step, lock_read, count_in_first, count_in, first_locks,
  release_entered, lock_leave, count_out_last, count_out, last_unlocks, release_left, lock_write,
  unlock_write, Reaches, begins, goes_on, Work, reads, writes, works,
}

abbrev pub is_first : Place → ℕ
is_first first = 1
is_first _ = 0

abbrev pub is_last : Place → ℕ
is_last last = 1
is_last _ = 0

-- The other places in which a thread holds the read lock.
abbrev pub is_inside : Place → ℕ
is_inside entering = 1
is_inside entered = 1
is_inside leaving = 1
is_inside left = 1
is_inside _ = 0

-- Behind the first reader, and counted.
abbrev pub is_onward : Place → ℕ
is_onward entered = 1
is_onward reading = 1
is_onward finished = 1
is_onward leaving = 1
is_onward _ = 0

abbrev pub is_reading : Place → ℕ
is_reading reading = 1
is_reading finished = 1
is_reading _ = 0

abbrev pub is_writing : Place → ℕ
is_writing writing = 1
is_writing written = 1
is_writing _ = 0

-- 1 where there are readers.
abbrev pub some_readers : ℕ → ℕ
some_readers zero = 0
some_readers (suc n) = 1

reading_le_onward : (l : List Place) → total is_reading l ≤ total is_onward l
reading_le_onward [] = omega arith
reading_le_onward (outside ∷ l) = omega (arith, reading_le_onward l)
reading_le_onward (entering ∷ l) = omega (arith, reading_le_onward l)
reading_le_onward (first ∷ l) = omega (arith, reading_le_onward l)
reading_le_onward (entered ∷ l) = omega (arith, reading_le_onward l)
reading_le_onward (reading ∷ l) = omega (arith, reading_le_onward l)
reading_le_onward (finished ∷ l) = omega (arith, reading_le_onward l)
reading_le_onward (leaving ∷ l) = omega (arith, reading_le_onward l)
reading_le_onward (last ∷ l) = omega (arith, reading_le_onward l)
reading_le_onward (left ∷ l) = omega (arith, reading_le_onward l)
reading_le_onward (writing ∷ l) = omega (arith, reading_le_onward l)
reading_le_onward (written ∷ l) = omega (arith, reading_le_onward l)

-- What holds between all instructions, of the five totals. The read lock is held by one thread or
-- free; the readers are counted; the write lock is held by a writer, or by the readers from the
-- first to the last; a first reader is alone, and a last one leaves none.
abbrev pub Balanced : (f l i o t n : ℕ) (r w : Bool) → Type 0
Balanced f l i o t n r w =
    (f + l + i ≡ bit r)
    × (f + o ≡ n)
    × (t + some_readers n + l ≡ bit w + f)
    × ((f ≡ 0) ⊎ (n ≡ 1))
    × ((l ≡ 0) ⊎ (n ≡ 0))

abbrev pub Holds : State → Type 0
Holds s =
    Balanced (total is_first s.threads) (total is_last s.threads) (total is_inside s.threads)
      (total is_onward s.threads) (total is_writing s.threads) s.num_of_readers s.read_lock
      s.write_lock

start-Holds : (n : ℕ) → Holds (start n)
start-Holds n = (
  omega (
    arith,
    total-replicate is_first n outside refl,
    total-replicate is_last n outside refl,
    total-replicate is_inside n outside refl,
  ),
  omega (arith, total-replicate is_first n outside refl, total-replicate is_onward n outside refl),
  omega (
    arith,
    total-replicate is_first n outside refl,
    total-replicate is_last n outside refl,
    total-replicate is_writing n outside refl,
  ),
  inl (total-replicate is_first n outside refl),
  inl (total-replicate is_last n outside refl),
)

-- Going from one place to the next keeps the balance, as far as the totals tell.
abbrev Fits : (x y : Place) (n n' : ℕ) (r r' w w' : Bool) → Type 0
Fits x y n n' r r' w w' =
    (f l i o t f' l' i' o' t' : ℕ)
    → f' + is_first x ≡ f + is_first y
    → l' + is_last x ≡ l + is_last y
    → i' + is_inside x ≡ i + is_inside y
    → o' + is_onward x ≡ o + is_onward y
    → t' + is_writing x ≡ t + is_writing y
    → is_inside x ≤ i
    → bit r ≤ 1
    → bit w ≤ 1
    → Balanced f l i o t n r w
    → Balanced f' l' i' o' t' n' r' w'

move-Holds :
    (a b : List Place) (x y : Place) (n n' : ℕ) (r r' w w' : Bool)
    → Fits x y n n' r r' w w'
    → Holds (at a b x n r w)
    → Holds (at a b y n' r' w')
move-Holds a b x y n n' r r' w w' fits h =
    fits _ _ _ _ _ _ _ _ _ _ (total-move is_first a b x y) (total-move is_last a b x y)
      (total-move is_inside a b x y) (total-move is_onward a b x y) (total-move is_writing a b x y)
      (le_total is_inside a b x) (bit_le_one r) (bit_le_one w) h

Step-Holds : {s s' : State} → Step s s' → Holds s → Holds s'
Step-Holds (lock_read a b n w) h =
    move-Holds a b outside entering n n false true w w
      (λ f l i o t f' l' i' o' t' hf hl hi ho ht here hr hw (one, count, lock, alone, none).
        ground arith)
      h
Step-Holds (count_in_first a b r w) h =
    move-Holds a b entering first 0 1 r r w w
      (λ f l i o t f' l' i' o' t' hf hl hi ho ht here hr hw (one, count, lock, alone, none).
        ground arith)
      h
Step-Holds (count_in a b n r w) h =
    move-Holds a b entering entered (suc n) (suc (suc n)) r r w w
      (λ f l i o t f' l' i' o' t' hf hl hi ho ht here hr hw (one, count, lock, alone, none).
        ground arith)
      h
Step-Holds (first_locks a b n r) h =
    move-Holds a b first entered n n r r false true
      (λ f l i o t f' l' i' o' t' hf hl hi ho ht here hr hw (one, count, lock, alone, none).
        ground arith)
      h
Step-Holds (release_entered a b n r w) h =
    move-Holds a b entered reading n n r false w w
      (λ f l i o t f' l' i' o' t' hf hl hi ho ht here hr hw (one, count, lock, alone, none).
        ground arith)
      h
Step-Holds (lock_leave a b n w) h =
    move-Holds a b finished leaving n n false true w w
      (λ f l i o t f' l' i' o' t' hf hl hi ho ht here hr hw (one, count, lock, alone, none).
        ground arith)
      h
Step-Holds (count_out_last a b r w) h =
    move-Holds a b leaving last 1 0 r r w w
      (λ f l i o t f' l' i' o' t' hf hl hi ho ht here hr hw (one, count, lock, alone, none).
        ground arith)
      h
Step-Holds (count_out a b n r w) h =
    move-Holds a b leaving left (suc (suc n)) (suc n) r r w w
      (λ f l i o t f' l' i' o' t' hf hl hi ho ht here hr hw (one, count, lock, alone, none).
        ground arith)
      h
Step-Holds (last_unlocks a b n r w) h =
    move-Holds a b last left n n r r w false
      (λ f l i o t f' l' i' o' t' hf hl hi ho ht here hr hw (one, count, lock, alone, none).
        ground arith)
      h
Step-Holds (release_left a b n r w) h =
    move-Holds a b left outside n n r false w w
      (λ f l i o t f' l' i' o' t' hf hl hi ho ht here hr hw (one, count, lock, alone, none).
        ground arith)
      h
Step-Holds (lock_write a b n r) h =
    move-Holds a b outside writing n n r r false true
      (λ f l i o t f' l' i' o' t' hf hl hi ho ht here hr hw (one, count, lock, alone, none).
        ground arith)
      h
Step-Holds (unlock_write a b n r w) h =
    move-Holds a b written outside n n r r w false
      (λ f l i o t f' l' i' o' t' hf hl hi ho ht here hr hw (one, count, lock, alone, none).
        ground arith)
      h

Work-Holds : {s s' : State} → Work s s' → Holds s → Holds s'
Work-Holds (reads a b n r w) h =
    move-Holds a b reading finished n n r r w w
      (λ f l i o t f' l' i' o' t' hf hl hi ho ht here hr hw (one, count, lock, alone, none).
        ground arith)
      h
Work-Holds (writes a b n r w) h =
    move-Holds a b writing written n n r r w w
      (λ f l i o t f' l' i' o' t' hf hl hi ho ht here hr hw (one, count, lock, alone, none).
        ground arith)
      h

pub Reaches-Holds : (n : ℕ) (s : State) → Reaches n s → Holds s
Reaches-Holds n s begins = start-Holds n
Reaches-Holds n s (goes_on {s = u} before step) = Step-Holds step (Reaches-Holds n u before)
Reaches-Holds n s (works {s = u} before work) = Work-Holds work (Reaches-Holds n u before)

-- However many threads there are and in whatever order the instructions of the lock of the list of
-- accounts run, at most one thread holds the list for writing, and none reads it meanwhile.
pub readers_or_writer :
    (n : ℕ) (s : State)
    → Reaches n s
    → (total is_writing s.threads ≡ 0)
      ⊎ ((total is_writing s.threads ≡ 1) × (total is_reading s.threads ≡ 0))
readers_or_writer n s run =
    let (one, count, lock, alone, none) = Reaches-Holds n s run in
    ground (arith, bit_le_one s.read_lock, bit_le_one s.write_lock, reading_le_onward s.threads)
