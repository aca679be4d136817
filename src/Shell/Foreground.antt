-- ===== src/Shell/Foreground.antt =====
-- `fg` without a number.
use structure_of_os.Prelude.{
  ℕ, ◌<◌, ℤ, pos, ◌<ℤ◌, ◌≡◌, refl, ap, true, some, List, [], ◌∷◌, ◌++◌, ⊤, length, arith,
}
use structure_of_os.Shell.State.{Os, Job, Shell, resumes, kill, waitpid}
use structure_of_os.Shell.Monad.{done}
use structure_of_os.Shell.Jobs.{last_job, drop_last}
use structure_of_os.Shell.Commands.{success, is_zero}
use structure_of_os.Shell.JobCommands.{fg}
use structure_of_os.Shell.Numbers.{Numbered}
use structure_of_os.Shell.Numbered.{Ids}

abbrev pub AllBelow : ℤ → List Job → Type 0
AllBelow z [] = ⊤
AllBelow z (j ∷ l) = (j.job_id <ℤ z) × AllBelow z l

-- The last job stands above all others.
last_job-AllBelow :
    (low n : ℕ) (j : Job) (l : List Job)
    → Numbered low n (j ∷ l)
    → (i : Job) × (m : ℕ) × (last_job (j ∷ l) ≡ some i)
      × (j ∷ l ≡ drop_last (j ∷ l) ++ i ∷ [])
      × (i.job_id ≡ pos m)
      × (low < m)
      × AllBelow (pos m) (drop_last (j ∷ l))
last_job-AllBelow low n j [] (k, e, lt, le, h) = (j, k, refl, refl, e, lt, tt)
last_job-AllBelow low n j (o ∷ l) (k, e, lt, le, h) =
    let (i, m, last, split, same, above, below) = last_job-AllBelow k n o l h in
    (i, m, last, ap (λ t. j ∷ t) split, same, omega arith, (rw e (omega arith), below))

-- The shell after a job was brought to the foreground.
abbrev pub brought : Job → List Job → Shell → Shell
brought i kept s = record s {
  jobs = kept;
  fg_process_pid = i.process_id;
  l_fg_cmd = i.command;
  out = s.out ++ resumes i.command i.process_id ∷ [];
  calls = (s.calls ++ kill i.process_id (pos 18) ∷ []) ++ waitpid i.process_id ∷ [];
}

-- Where the jobs are in the order of their numbers, there is one, and it can be woken: `fg` takes
-- the job with the largest number out of the list and brings it to the foreground.
pub fg-takes_largest :
    (os : Os) (n : ℕ) (s : Shell) (j : Job) (l : List Job)
    → Ids n s
    → s.jobs ≡ j ∷ l
    → is_zero (os.answers (length s.calls)) ≡ true
    → (i : Job) × (kept : List Job) × (s' : Shell) × (fg os [] s ≡ done success s')
      × (s.jobs ≡ kept ++ i ∷ [])
      × (s'.jobs ≡ kept)
      × (s'.fg_process_pid ≡ i.process_id)
      × (s'.l_fg_cmd ≡ i.command)
      × AllBelow i.job_id kept
unfolding fg
fg-takes_largest os n s j l h e woken =
    let (i, m, last, split, same, above, below) = last_job-AllBelow 0 n j l (rw e at h) in
    (
      i,
      drop_last (j ∷ l),
      brought i (drop_last (j ∷ l)) s,
      simp (e, last, woken),
      rw e split,
      refl,
      refl,
      refl,
      rw same below,
    )
