-- ===== src/Bank/Updates/Tests.antt =====
-- A deposit that has read a balance, while a transfer from another account goes on.
use structure_of_os.Prelude.{ℕ, ℤ, pos, ◌≡◌, refl, Bool, true, false, [], ◌∷◌}
use structure_of_os.Prelude.Int.{int_add, int_sub}
use structure_of_os.Bank.Threads.{put_lock}
use structure_of_os.Bank.Updates.{
  idle, one_read, one_done, half, State, put_balance, lock_one, read_one, write_one, lock_source,
  Reaches, begins, goes_on,
}
use structure_of_os.Bank.Updates.Current.{no_lost_update}

abbrev hundred : ℕ → ℤ
hundred p = pos 100

abbrev add_five : ℤ → ℤ
add_five b = int_add b (pos 5)

abbrev take_two : ℤ → ℤ
take_two b = int_sub b (pos 2)

abbrev give_two : ℤ → ℤ
give_two b = int_add b (pos 2)

abbrev locks_0 : ℕ → Bool
locks_0 = put_lock 0 true (λ p. false)

abbrev locks_both : ℕ → Bool
locks_both = put_lock 1 true locks_0

abbrev paid_in : State
paid_in = record {
  threads = one_done 0 ∷ half 1 0 take_two give_two ∷ [];
  account_lock = locks_both;
  balance = put_balance 0 (add_five (pos 100)) hundred;
  committed = put_balance 0 (add_five (hundred 0)) hundred;
}

paid_in-Reaches : Reaches hundred 2 paid_in
paid_in-Reaches =
    goes_on
      (goes_on
        (goes_on
          (goes_on begins (lock_one [] (idle ∷ []) 0 add_five (λ p. false) hundred hundred refl))
          (read_one [] (idle ∷ []) 0 add_five locks_0 hundred hundred))
        (lock_source (one_read 0 (pos 100) add_five ∷ []) [] 1 0 take_two give_two locks_0 hundred
          hundred refl))
      (write_one [] (half 1 0 take_two give_two ∷ []) 0 (pos 100) add_five locks_both hundred
        hundred)

no_lost_update_example : paid_in.balance 0 ≡ paid_in.committed 0
no_lost_update_example = no_lost_update hundred 2 paid_in paid_in-Reaches 0
