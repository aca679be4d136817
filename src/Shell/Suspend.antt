-- ===== src/Shell/Suspend.antt =====
-- A process that ctrl-Z has stopped, and `fg` behind it.
use structure_of_os.Prelude.{
  suc, ◌+◌, pos, ◌≡◌, refl, ap, true, false, some, List, [], ◌∷◌, ◌++◌, length, length-append,
  arith, eqb_ℤ,
}
use structure_of_os.Shell.State.{
  Os, Job, Shell, Call, kill, time, stop_state, caught_ctrl_z, was_stopped,
}
use structure_of_os.Shell.Monad.{done, ◌>>=◌, ◌>>◌}
use structure_of_os.Shell.Jobs.{last_job, drop_last, next_id}
use structure_of_os.Shell.Commands.{success, is_zero}
use structure_of_os.Shell.JobCommands.{fg}
use structure_of_os.Shell.Smash.{ctrl_z_handler}
use structure_of_os.Shell.Numbered.{joined, add_job-runs, kept_from, waits}
use structure_of_os.Shell.Foreground.{brought}

last_job-append : (l : List Job) (i : Job) → last_job (l ++ i ∷ []) ≡ some i
last_job-append [] i = refl
last_job-append (j ∷ []) i = refl
last_job-append (j ∷ k ∷ l) i = last_job-append (k ∷ l) i

drop_last-append : (l : List Job) (i : Job) → drop_last (l ++ i ∷ []) ≡ l
drop_last-append [] i = refl
drop_last-append (j ∷ []) i = refl
drop_last-append (j ∷ k ∷ l) i = ap (λ t. j ∷ t) (drop_last-append (k ∷ l) i)

length-waits : (l : List Job) → length (waits l) ≡ length l
length-waits [] = refl
length-waits (j ∷ l) = ap suc (length-waits l)

fg-append :
    (os : Os) (s : Shell) (kept : List Job) (i : Job)
    → is_zero (os.answers (length s.calls)) ≡ true
    → fg os [] (record s { jobs = kept ++ i ∷ [] }) ≡ done success (brought i kept s)
unfolding fg
fg-append os s [] i woken = simp woken
fg-append os s (j ∷ l) i woken = simp (last_job-append (j ∷ l) i, drop_last-append (j ∷ l) i, woken)

module _ (os : Os) (s : Shell) where
  -- The shell when it has just stopped its process.
  abbrev stopping : Shell
  stopping = record s {
    out = (s.out ++ caught_ctrl_z ∷ []) ++ was_stopped s.fg_process_pid ∷ [];
    calls = s.calls ++ kill s.fg_process_pid (pos 19) ∷ [];
  }

  abbrev suspended : Shell
  suspended = record (joined os.answers os.end_id s.l_fg_cmd s.fg_process_pid stop_state stopping) {
    fg_process_pid = s.smash_pid;
  }

  ctrl_z_handler-runs :
      eqb_ℤ s.fg_process_pid s.smash_pid ≡ false
      → is_zero (os.answers (length s.calls)) ≡ true
      → ctrl_z_handler os s ≡ done tt suspended
  unfolding ctrl_z_handler
  ctrl_z_handler-runs other killed = simp (
    other,
    killed,
    ◌>>=◌,
    add_job-runs os.answers os.end_id s.l_fg_cmd s.fg_process_pid stop_state stopping,
  )

  abbrev asked : List Call
  asked = stopping.calls ++ time ∷ []

  -- The jobs behind which the stopped one joins, and the stopped one.
  abbrev kept_jobs : List Job
  kept_jobs = kept_from os.answers (length asked) s.jobs

  abbrev stopped_job : Job
  stopped_job = record {
    job_id = next_id os.answers os.end_id s.jobs;
    command = s.l_fg_cmd;
    process_id = s.fg_process_pid;
    inserted_to_list_time = os.answers (length stopping.calls);
    state = stop_state;
  }

  length-asked : length asked ≡ length s.calls + 2
  length-asked =
      let k = kill s.fg_process_pid (pos 19) ∷ [] in
      rw (length-append (s.calls ++ k) (time ∷ []), length-append s.calls k) (omega arith)

  length-suspended : length suspended.calls ≡ length s.calls + length s.jobs + 2
  length-suspended =
      rw (length-append asked (waits s.jobs), length-asked, length-waits s.jobs) (omega arith)

  woken_last :
      is_zero (os.answers (length s.calls + length s.jobs + 2)) ≡ true
      → fg os [] suspended ≡ done success (brought stopped_job kept_jobs suspended)
  woken_last woken = fg-append os suspended kept_jobs stopped_job (rw length-suspended woken)

-- ctrl-Z and then `fg` without a number: where a process other than smash is in the foreground and
-- can be stopped and woken, it is in the foreground again with its command, and the list has just
-- the jobs that were still running.
pub fg-ctrl_z :
    (os : Os) (s : Shell)
    → eqb_ℤ s.fg_process_pid s.smash_pid ≡ false
    → is_zero (os.answers (length s.calls)) ≡ true
    → is_zero (os.answers (length s.calls + length s.jobs + 2)) ≡ true
    → (s' : Shell) × ((ctrl_z_handler os >> fg os []) s ≡ done success s')
      × (s'.fg_process_pid ≡ s.fg_process_pid)
      × (s'.l_fg_cmd ≡ s.l_fg_cmd)
      × (s'.jobs ≡ kept_from os.answers (length s.calls + 2) s.jobs)
fg-ctrl_z os s other killed woken = (
  brought (stopped_job os s) (kept_jobs os s) (suspended os s),
  rw (◌>>=◌, ctrl_z_handler-runs os s other killed) (woken_last os s woken),
  refl,
  refl,
  ap (λ n. kept_from os.answers n s.jobs) (length-asked os s),
)
