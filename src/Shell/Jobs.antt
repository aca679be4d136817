-- ===== src/Shell/Jobs.antt =====
-- The list of jobs: `update_list`, new jobs (commands.cpp, signals.cpp), and the searches through
-- the list.
use structure_of_os.Prelude.{
  ℕ, ℤ, pos, Option, none, some, List, [], ◌∷◌, ◌++◌, ⊤, Text, ◌==◌, eqb_ℤ, ltb_ℤ, if◌then◌else◌,
}
use structure_of_os.Prelude.Int.{int_add}
use structure_of_os.Shell.State.{Job, new_job, stop_state, waitpid, time}
use structure_of_os.Shell.Monad.{Action, pure, ◌>>=◌, ◌>>◌, gets, set_jobs, call}

abbrev pub find_job : ℤ → List Job → Option Job
find_job id [] = none
find_job id (j ∷ l) = if eqb_ℤ j.job_id id then some j else find_job id l

-- `erase` at the first job with the number.
abbrev pub erase_job : ℤ → List Job → List Job
erase_job id [] = []
erase_job id (j ∷ l) = if eqb_ℤ j.job_id id then l else j ∷ erase_job id l

abbrev pub set_state : ℤ → ℕ → List Job → List Job
set_state id state [] = []
set_state id state (j ∷ l) =
    if eqb_ℤ j.job_id id then record j { state = state } ∷ l else j ∷ set_state id state l

abbrev pub last_job : List Job → Option Job
last_job [] = none
last_job (j ∷ []) = some j
last_job (j ∷ k ∷ l) = last_job (k ∷ l)

-- `pop_back`
abbrev pub drop_last : List Job → List Job
drop_last [] = []
drop_last (j ∷ []) = []
drop_last (j ∷ k ∷ l) = j ∷ drop_last (k ∷ l)

abbrev pub larger_stopped : Option Job → Job → Option Job
larger_stopped none j = some j
larger_stopped (some m) j = if ltb_ℤ m.job_id j.job_id then some j else some m

-- The loop of `bg` without an argument: the stopped job with the largest number, the first of them.
abbrev pub max_id_stopped_job : Option Job → List Job → Option Job
max_id_stopped_job best [] = best
max_id_stopped_job best (j ∷ l) =
    max_id_stopped_job (if j.state == stop_state then larger_stopped best j else best) l

-- `answers` is what the system calls return, by their number.
module _ (answers : ℕ → ℤ) where
  -- The jobs for which `waitpid` returns 0.
  abbrev pub still_running : List Job → Action (List Job)
  still_running [] = pure []
  still_running (j ∷ l) = do
    ended ← call answers (waitpid j.process_id)
    rest ← still_running l
    pure (if eqb_ℤ ended (pos 0) then j ∷ rest else rest)

  -- `update_list`
  unfoldable pub update_list : Action ⊤
  update_list = do l ← gets λ s. s.jobs; kept ← still_running l; set_jobs kept

  -- `end_id` is what `jobs.end()->job_id` reads, which the language leaves open.
  module _ (end_id : List Job → ℤ) where
    -- One more than the number of the last job.
    abbrev pub next_id : List Job → ℤ
    next_id l = elim (last_job l) [
      | none ↦ int_add (end_id l) (pos 1)
      | some j ↦ int_add j.job_id (pos 1)
    ]

    -- The number is chosen before ended jobs are removed.
    unfoldable pub add_job : Text → ℤ → ℕ → Action ⊤
    unfolding update_list
    add_job command pid state = do
      before ← gets λ s. s.jobs
      now ← call answers time
      update_list
      l ← gets λ s. s.jobs
      set_jobs (l ++ new_job (next_id before) command pid now state ∷ [])
