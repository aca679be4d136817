-- ===== src/Bank/Readers/Tests.antt =====
-- Two threads at the lock of the list of accounts.
use structure_of_os.Prelude.{◌≤◌, ◌≡◌, ◌⊎◌, true, false, [], ◌∷◌, arith}
use structure_of_os.Bank.Readers.{
  outside, reading, finished, State, reads, works, lock_read, count_in_first, first_locks,
  release_entered, Reaches, begins, goes_on,
}
use structure_of_os.Bank.Totals.{total}
use structure_of_os.Bank.Readers.Exclusion.{is_reading, is_writing, readers_or_writer}
use structure_of_os.Bank.Readers.Progress.{is_working, CanStep, never_stuck}

-- One thread reads.
abbrev one_reads : State
one_reads = record {
  threads = reading ∷ outside ∷ [];
  num_of_readers = 1;
  read_lock = false;
  write_lock = true;
}

one_reads-Reaches : Reaches 2 one_reads
one_reads-Reaches =
    goes_on
      (goes_on
        (goes_on (goes_on begins (lock_read [] (outside ∷ []) 0 false))
          (count_in_first [] (outside ∷ []) true false))
        (first_locks [] (outside ∷ []) 1 true))
      (release_entered [] (outside ∷ []) 1 true true)

readers_or_writer_example :
    (total is_writing one_reads.threads ≡ 0)
    ⊎ ((total is_writing one_reads.threads ≡ 1) × (total is_reading one_reads.threads ≡ 0))
readers_or_writer_example = readers_or_writer 2 one_reads one_reads-Reaches

-- It is done with the list.
abbrev one_finished : State
one_finished = record one_reads { threads = finished ∷ outside ∷ [] }

one_finished-Reaches : Reaches 2 one_finished
one_finished-Reaches = works one_reads-Reaches (reads [] (outside ∷ []) 1 false true)

never_stuck_example : (1 ≤ total is_working one_finished.threads) ⊎ CanStep one_finished
never_stuck_example = never_stuck 2 one_finished one_finished-Reaches (omega arith)
