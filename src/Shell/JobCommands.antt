-- ===== src/Shell/JobCommands.antt =====
-- The built-in commands of `ExeCmd` (commands.cpp) on the list of jobs: jobs, kill, fg, bg and quit.
use structure_of_os.Prelude.{
  ℕ, ℤ, pos, Bool, true, false, ◌||◌, Option, none, some, List, [], ◌∷◌, Text, bytes, text_eq, atoi,
  ◌==◌, eqb_ℤ, ltb_ℤ, if◌then◌else◌,
}
use structure_of_os.Prelude.Int.{int_sub}
use structure_of_os.Shell.State.{
  Os, Job, background_state, stop_state, invalid_arguments, job_is, signal_sent, no_such_job,
  no_such_argument, jobs_list_is_empty, resumes, no_stopped_jobs, already_running, kill, waitpid,
  wait_status, time,
}
use structure_of_os.Shell.Monad.{
  Action, pure, ◌>>=◌, ◌>>◌, gets, modify, set_jobs, print, exit, call,
}
use structure_of_os.Shell.Jobs.{
  find_job, erase_job, set_state, last_job, drop_last, max_id_stopped_job, update_list,
}
use structure_of_os.Shell.Commands.{success, complain, perror, is_zero}

-- Signals that count as a stop, and as an end, of the job.
abbrev pub is_stop : ℤ → Bool
is_stop s = eqb_ℤ s (pos 20) || (eqb_ℤ s (pos 19) || eqb_ℤ s (pos 6))

abbrev pub is_end : ℤ → Bool
is_end s =
    eqb_ℤ s (pos 9)
    || (eqb_ℤ s (pos 7) || (eqb_ℤ s (pos 1) || (eqb_ℤ s (pos 15) || eqb_ℤ s (pos 2))))

abbrev pub is_continue : ℤ → Bool
is_continue s = eqb_ℤ s (pos 18)

-- The list after `kill` has sent the signal to the job.
abbrev pub after_signal : ℤ → ℤ → List Job → List Job
after_signal signal id l =
    if is_stop signal
    then set_state id stop_state l
    else if is_end signal
    then erase_job id l
    else if is_continue signal
    then set_state id background_state l
    else l

module _ (os : Os) where
  -- The lines of the jobs, each with the time at which it is written.
  abbrev pub show_jobs : List Job → Action ℕ
  show_jobs [] = pure success
  show_jobs (j ∷ l) = do
    now ← call os.answers time
    print (
        job_is j.job_id j.command j.process_id (int_sub now j.inserted_to_list_time)
          (j.state == stop_state))
    show_jobs l

  unfoldable pub jobs : Action ℕ
  unfolding update_list
  jobs = do update_list os.answers; l ← gets λ s. s.jobs; show_jobs l

  abbrev pub signal_job : ℤ → ℤ → Option Job → Action ℕ
  signal_job signal id none = do
    l ← gets λ s. s.jobs
    complain (no_such_job (bytes "kill") (os.end_id l))
  signal_job signal id (some j) = do
    r ← call os.answers (kill j.process_id signal)
    if is_zero r
        then (do
          l ← gets λ s. s.jobs
          set_jobs (after_signal signal id l)
          print (signal_sent signal j.process_id)
          pure success)
        else perror (bytes "kill")

  -- `kill -signal id`; the process number is read after the job is erased, and is taken to be what
  -- it was.
  unfoldable pub kill_job : List Text → Action ℕ
  unfolding atoi
  kill_job (a ∷ b ∷ []) =
      let signal = int_sub (pos 0) (atoi a) in
      let id = atoi b in
      if ltb_ℤ signal (pos 0) || ltb_ℤ id (pos 0)
      then complain (invalid_arguments (bytes "kill"))
      else do l ← gets λ s. s.jobs; signal_job signal id (find_job id l)
  kill_job _ = complain (invalid_arguments (bytes "kill"))

  -- A job that has left the list is woken and waited for.
  abbrev pub bring_back : Job → Action ℕ
  bring_back j = do
    r ← call os.answers (kill j.process_id (pos 18))
    if is_zero r
        then (do
          call os.answers (waitpid j.process_id) >>= λ _. pure tt
          modify λ s. record s { l_fg_cmd = j.command; fg_process_pid = j.process_id }
          pure success)
        else perror (bytes "kill")

  abbrev pub fg_last : Option Job → Action ℕ
  fg_last none = complain jobs_list_is_empty
  fg_last (some j) = do
    l ← gets λ s. s.jobs
    set_jobs (drop_last l)
    print (resumes j.command j.process_id)
    bring_back j

  abbrev pub fg_given : ℤ → Option Job → Action ℕ
  fg_given id none = complain (no_such_job (bytes "fg") id)
  fg_given id (some j) = do
    l ← gets λ s. s.jobs
    print (resumes j.command j.process_id)
    set_jobs (erase_job id l)
    bring_back j

  abbrev pub fg_of : List Job → List Text → Action ℕ
  fg_of [] _ = complain jobs_list_is_empty
  fg_of (j ∷ l) [] = fg_last (last_job (j ∷ l))
  fg_of (j ∷ l) (a ∷ []) = fg_given (atoi a) (find_job (atoi a) (j ∷ l))
  fg_of (j ∷ l) (_ ∷ _ ∷ _) = complain (invalid_arguments (bytes "fg"))

  -- `fg`; the job is read after it leaves the list, and is taken to be what it was.
  unfoldable pub fg : List Text → Action ℕ
  unfolding atoi
  fg rest = gets (λ s. s.jobs) >>= λ l. fg_of l rest

  abbrev pub wake : Job → Action ℕ
  wake j = do
    r ← call os.answers (kill j.process_id (pos 18))
    if is_zero r
        then (do
          l ← gets λ s. s.jobs
          print (resumes j.command j.job_id)
          set_jobs (set_state j.job_id background_state l)
          pure success)
        else perror (bytes "kill")

  abbrev pub bg_largest : Option Job → Action ℕ
  bg_largest none = complain no_stopped_jobs
  bg_largest (some j) = wake j

  abbrev pub bg_given : ℤ → Option Job → Action ℕ
  bg_given id none = complain (no_such_job (bytes "bg") id)
  bg_given id (some j) =
      if j.state == stop_state then wake j else complain (already_running j.job_id)

  abbrev pub bg_of : List Job → List Text → Action ℕ
  bg_of _ (_ ∷ _ ∷ _) = complain (invalid_arguments (bytes "bg"))
  bg_of [] (a ∷ []) = complain (no_such_argument a)
  bg_of [] [] = complain no_stopped_jobs
  bg_of (j ∷ l) [] = bg_largest (max_id_stopped_job none (j ∷ l))
  bg_of (j ∷ l) (a ∷ []) = bg_given (atoi a) (find_job (atoi a) (j ∷ l))

  unfoldable pub bg : List Text → Action ℕ
  unfolding atoi
  bg rest = gets (λ s. s.jobs) >>= λ l. bg_of l rest

  -- The loop of `quit kill`. The status is what `waitpid` left: other than 0 says that a signal has
  -- ended the process, and else five seconds pass.
  abbrev pub end_jobs : List Job → Action ℕ
  end_jobs [] = exit
  end_jobs (j ∷ l) = do
    r ← call os.answers (kill j.process_id (pos 15))
    if is_zero r
        then (do
          status ← call os.answers (wait_status j.process_id)
          if is_zero status
              then (do
                r' ← call os.answers (kill j.process_id (pos 9))
                if is_zero r' then set_jobs l >> end_jobs l else perror (bytes "kill"))
              else set_jobs l >> end_jobs l)
        else perror (bytes "kill")

  abbrev pub quit_word : Bool → Action ℕ
  quit_word true = gets (λ s. s.jobs) >>= end_jobs
  quit_word false = exit

  unfoldable pub quit : List Text → Action ℕ
  quit [] = exit
  quit (a ∷ _) = quit_word (text_eq (bytes "kill") a)
