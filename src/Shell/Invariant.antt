-- ===== src/Shell/Invariant.antt =====
-- The numbers of the jobs over one built-in command of `ExeCmd` (commands.cpp).
use structure_of_os.Prelude.{
  ℕ, ℤ, pos, Bool, true, false, Option, none, some, List, [], ◌∷◌, ◌++◌, Text, arith, inl, inr,
  text_eq, bytes, length, atoi, Bool-cases,
}
use structure_of_os.Prelude.Int.{int_sub}
use structure_of_os.Shell.State.{Os, Job, Shell, background_state, kill, wait_status}
use structure_of_os.Shell.Monad.{Action, ◌>>=◌}
use structure_of_os.Shell.Jobs.{find_job}
use structure_of_os.Shell.Commands.{change_to, go_back, cd, diff_of, diff}
use structure_of_os.Shell.JobCommands.{
  show_jobs, jobs, signal_job, kill_job, bring_back, fg_last, fg_given, fg_of, fg, wake, bg_largest,
  bg_given, bg_of, bg, end_jobs, quit, quit_word,
}
use structure_of_os.Shell.Numbers.{
  Numbered, erase_job-Numbered, set_state-Numbered, drop_last-Numbered, after_signal-Numbered,
  looser-Numbered,
}
use structure_of_os.Shell.Numbered.{After, Ids, update_list-runs, updated, kept_from-Numbered}

module _ (os : Os) (n : ℕ) where
  -- The action keeps the numbers in order wherever smash goes on.
  abbrev pub KeepsIds : {A : Type 0} → Action A → Type 0
  KeepsIds m = (s : Shell) → Ids n s → After (Ids n) (m s)

  change_to-KeepsIds : (p q : Text) → KeepsIds (change_to os p q)
  change_to-KeepsIds p q s h = ground arith

  go_back-KeepsIds : (p q : Text) → KeepsIds (go_back os p q)
  go_back-KeepsIds [] q s h = h
  go_back-KeepsIds (c ∷ p) q s h = change_to-KeepsIds (c ∷ p) q s h

  pub cd-KeepsIds : (rest : List Text) → KeepsIds (cd os rest)
  cd-KeepsIds [] s h = tt
  cd-KeepsIds (p ∷ []) s h = elim (Bool-cases (text_eq p (bytes "-"))) [
    | inl e ↦ rw (cd, e) (go_back-KeepsIds _ _ _ h)
    | inr e ↦ rw (cd, e) (change_to-KeepsIds _ _ _ h)
  ]
  cd-KeepsIds (_ ∷ _ ∷ _) s h = h

  show_jobs-KeepsIds : (l : List Job) → KeepsIds (show_jobs os l)
  show_jobs-KeepsIds [] s h = h
  show_jobs-KeepsIds (j ∷ l) s h = show_jobs-KeepsIds l _ h

  pub jobs-KeepsIds : KeepsIds (jobs os)
  unfolding jobs
  jobs-KeepsIds s h =
      rw (◌>>=◌, update_list-runs os.answers s)
        (show_jobs-KeepsIds (updated os.answers s).jobs (updated os.answers s)
          (kept_from-Numbered os.answers (length s.calls) 0 n s.jobs h))

  signal_job-KeepsIds : (signal id : ℤ) (o : Option Job) → KeepsIds (signal_job os signal id o)
  signal_job-KeepsIds signal id none s h = h
  signal_job-KeepsIds signal id (some j) s h =
      ground (arith, after_signal-Numbered signal id 0 n s.jobs h)

  pub kill_job-KeepsIds : (rest : List Text) → KeepsIds (kill_job os rest)
  unfolding kill_job
  kill_job-KeepsIds [] s h = h
  kill_job-KeepsIds (a ∷ []) s h = h
  kill_job-KeepsIds (a ∷ b ∷ []) s h =
      let signal = int_sub (pos 0) (atoi a) in
      let id = atoi b in ground (arith, signal_job-KeepsIds signal id (find_job id s.jobs) s h)
  kill_job-KeepsIds (_ ∷ _ ∷ _ ∷ _) s h = h

  bring_back-KeepsIds : (j : Job) → KeepsIds (bring_back os j)
  bring_back-KeepsIds j s h = ground arith

  fg_last-KeepsIds : (o : Option Job) → KeepsIds (fg_last os o)
  fg_last-KeepsIds none s h = h
  fg_last-KeepsIds (some j) s h = bring_back-KeepsIds j _ (drop_last-Numbered 0 n s.jobs h)

  fg_given-KeepsIds : (id : ℤ) (o : Option Job) → KeepsIds (fg_given os id o)
  fg_given-KeepsIds id none s h = h
  fg_given-KeepsIds id (some j) s h = bring_back-KeepsIds j _ (erase_job-Numbered id 0 n s.jobs h)

  fg_of-KeepsIds : (l : List Job) (rest : List Text) → KeepsIds (fg_of os l rest)
  fg_of-KeepsIds [] rest s h = h
  fg_of-KeepsIds (j ∷ l) [] s h = fg_last-KeepsIds _ s h
  fg_of-KeepsIds (j ∷ l) (a ∷ []) s h = fg_given-KeepsIds _ _ s h
  fg_of-KeepsIds (j ∷ l) (_ ∷ _ ∷ _) s h = h

  pub fg-KeepsIds : (rest : List Text) → KeepsIds (fg os rest)
  unfolding fg
  fg-KeepsIds rest s h = fg_of-KeepsIds s.jobs rest s h

  wake-KeepsIds : (j : Job) → KeepsIds (wake os j)
  wake-KeepsIds j s h = ground (arith, set_state-Numbered j.job_id background_state 0 n s.jobs h)

  bg_largest-KeepsIds : (o : Option Job) → KeepsIds (bg_largest os o)
  bg_largest-KeepsIds none s h = h
  bg_largest-KeepsIds (some j) s h = wake-KeepsIds j s h

  bg_given-KeepsIds : (id : ℤ) (o : Option Job) → KeepsIds (bg_given os id o)
  bg_given-KeepsIds id none s h = h
  bg_given-KeepsIds id (some j) s h = ground (arith, wake-KeepsIds j s h)

  bg_of-KeepsIds : (l : List Job) (rest : List Text) → KeepsIds (bg_of os l rest)
  bg_of-KeepsIds [] [] s h = h
  bg_of-KeepsIds [] (a ∷ []) s h = h
  bg_of-KeepsIds (j ∷ l) [] s h = bg_largest-KeepsIds _ s h
  bg_of-KeepsIds (j ∷ l) (a ∷ []) s h = bg_given-KeepsIds (atoi a) (find_job (atoi a) (j ∷ l)) s h
  bg_of-KeepsIds [] (_ ∷ _ ∷ _) s h = h
  bg_of-KeepsIds (j ∷ l) (_ ∷ _ ∷ _) s h = h

  pub bg-KeepsIds : (rest : List Text) → KeepsIds (bg os rest)
  unfolding bg
  bg-KeepsIds rest s h = bg_of-KeepsIds s.jobs rest s h

  -- The jobs that are left are the rest of a list in order.
  end_jobs-KeepsIds : (l : List Job) → Numbered 0 n l → KeepsIds (end_jobs os l)
  end_jobs-KeepsIds [] o s h = tt
  end_jobs-KeepsIds (j ∷ l) (k, e, lt, le, o) s h =
      let rest : Numbered 0 n l = looser-Numbered k 0 n n l (omega arith) (omega arith) o in
      let asked = (s.calls ++ kill j.process_id (pos 15) ∷ []) ++ wait_status j.process_id ∷ [] in
      let soon = record s { jobs = l; calls = asked } in
      let late = record s { jobs = l; calls = asked ++ kill j.process_id (pos 9) ∷ [] } in
      ground (arith, end_jobs-KeepsIds l rest soon rest, end_jobs-KeepsIds l rest late rest)

  quit_word-KeepsIds : (b : Bool) → KeepsIds (quit_word os b)
  quit_word-KeepsIds true s h = end_jobs-KeepsIds s.jobs h s h
  quit_word-KeepsIds false s h = tt

  pub quit-KeepsIds : (rest : List Text) → KeepsIds (quit os rest)
  unfolding quit
  quit-KeepsIds [] s h = tt
  quit-KeepsIds (a ∷ _) s h = quit_word-KeepsIds _ s h

  diff_of-KeepsIds : (x y : Option Text) → KeepsIds (diff_of os x y)
  diff_of-KeepsIds none y s h = h
  diff_of-KeepsIds (some x) none s h = h
  diff_of-KeepsIds (some x) (some y) s h = ground arith

  pub diff-KeepsIds : (rest : List Text) → KeepsIds (diff os rest)
  unfolding diff
  diff-KeepsIds [] s h = h
  diff-KeepsIds (a ∷ []) s h = h
  diff-KeepsIds (a ∷ b ∷ []) s h = diff_of-KeepsIds (os.files a) (os.files b) s h
  diff-KeepsIds (_ ∷ _ ∷ _ ∷ _) s h = h
