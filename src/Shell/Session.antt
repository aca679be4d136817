-- ===== src/Shell/Session.antt =====
-- The numbers of the jobs over a whole session of smash (smash.cpp).
use structure_of_os.Prelude.{
  ℕ, suc, ◌+◌, ◌≤◌, ℤ, pos, ◌≡◌, Bool, true, false, List, [], ◌∷◌, ◌++◌, ⊤, Text, arith, inl, inr,
  if◌then◌else◌, length, Bool-cases,
}
use structure_of_os.Shell.State.{
  Os, Shell, new_shell, kill, fork, background_state, stop_state, caught_ctrl_z, was_stopped,
}
use structure_of_os.Shell.Monad.{
  Action, Outcome, done, exited, crashed, in_child, pure, modify, ◌>>=◌, ◌>>◌,
}
use structure_of_os.Shell.Words.{tokens, through_first_word, before_ampersand, is_built_in_cmd}
use structure_of_os.Shell.Jobs.{add_job}
use structure_of_os.Shell.Commands.{success, cd, diff}
use structure_of_os.Shell.JobCommands.{jobs, kill_job, fg, bg, quit}
use structure_of_os.Shell.Smash.{
  Input, line, ctrl_c, ctrl_z, exe_external, exe_cmd, exe_words, dispatch, bg_cmd, bg_words,
  read_command, ctrl_c_handler, ctrl_z_handler, step, smash,
}
use structure_of_os.Shell.Numbers.{looser-Numbered}
use structure_of_os.Shell.Numbered.{
  After, Ids, bind-After, update_list-runs, updated, kept_from-Numbered, add_job-Ids,
}
use structure_of_os.Shell.Invariant.{
  cd-KeepsIds, jobs-KeepsIds, kill_job-KeepsIds, fg-KeepsIds, bg-KeepsIds, quit-KeepsIds,
  diff-KeepsIds,
}

looser-After : {A : Type 0} (n : ℕ) (o : Outcome A) → After (Ids n) o → After (Ids (suc n)) o
looser-After n (done a s) h = looser-Numbered 0 0 n (suc n) s.jobs (omega arith) (omega arith) h
looser-After n (exited s) h = tt
looser-After n (crashed s) h = tt
looser-After n (in_child args s) h = tt

chain-After :
    {A B : Type 0} (P Q : Shell → Type 0) (o : Outcome A) (f : A → Action B) (s : Shell)
    → After P o
    → ((a : A) (s' : Shell) → P s' → After Q (f a s'))
    → After Q (((λ _. o) >>= f) s)
chain-After P Q (done a s') f s h k = k a s' h
chain-After P Q (exited s') f s h k = tt
chain-After P Q (crashed s') f s h k = tt
chain-After P Q (in_child args s') f s h k = tt

-- A result that is given ends the first part.
given-After :
    {A : Type 0} (P : Shell → Type 0) (o : Outcome ⊤) (b : A) (f : A → Action ⊤) (s : Shell)
    → After P o
    → ((s' : Shell) → P s' → After P (f b s'))
    → After P ((((λ _. o) >> pure b) >>= f) s)
given-After P (done _ s') b f s h k = k s' h
given-After P (exited s') b f s h k = tt
given-After P (crashed s') b f s h k = tt
given-After P (in_child args s') b f s h k = tt

module _ (os : Os) (first : os.end_id [] ≡ pos 0) where
  module _ (n : ℕ) (small : n ≤ 2147483646) where
    -- The action leaves room for one more job.
    abbrev AddsOne : {A : Type 0} → Action A → Type 0
    AddsOne m = (s : Shell) → Ids n s → After (Ids (suc n)) (m s)

    looser : (s : Shell) → Ids n s → Ids (suc n) s
    looser s h = looser-Numbered 0 0 n (suc n) s.jobs (omega arith) (omega arith) h

    exe_external-AddsOne :
        (args : List Text) (in_bg : Bool) (full : Text) → AddsOne (exe_external os args in_bg full)
    unfolding exe_external
    exe_external-AddsOne args in_bg full s h =
        let forked = record s { calls = s.calls ++ fork args ∷ [] } in
        ground (
          arith,
          looser s h,
          add_job-Ids os.answers os.end_id first n full (os.answers (length s.calls))
              background_state forked small h,
        )

    dispatch-AddsOne : (text cmd : Text) (rest : List Text) → AddsOne (dispatch os text cmd rest)
    dispatch-AddsOne text cmd rest s h = ground (
      arith,
      looser s h,
      looser-After n (cd os rest s) (cd-KeepsIds os n rest s h),
      looser-After n (jobs os s) (jobs-KeepsIds os n s h),
      looser-After n (kill_job os rest s) (kill_job-KeepsIds os n rest s h),
      looser-After n (fg os rest s) (fg-KeepsIds os n rest s h),
      looser-After n (bg os rest s) (bg-KeepsIds os n rest s h),
      looser-After n (quit os rest s) (quit-KeepsIds os n rest s h),
      looser-After n (diff os rest s) (diff-KeepsIds os n rest s h),
      bind-After (Ids (suc n)) (exe_external os (cmd ∷ rest) false (through_first_word text))
          (λ _. pure success) s
          (exe_external-AddsOne (cmd ∷ rest) false (through_first_word text) s h) (λ a s' h'. h'),
    )

    exe_words-AddsOne : (text : Text) (ws : List Text) → AddsOne (exe_words os text ws)
    exe_words-AddsOne text [] s h = looser s h
    exe_words-AddsOne text (cmd ∷ rest) s h = dispatch-AddsOne text cmd rest s h

    exe_cmd-AddsOne : (text : Text) → AddsOne (exe_cmd os text)
    unfolding exe_cmd
    exe_cmd-AddsOne text s h = exe_words-AddsOne text (tokens text) s h

    -- A line that is not done in the background, as `main` goes on with it.
    abbrev go_on : Text → Bool → Action ⊤
    go_on text finished = if finished then pure tt else (exe_cmd os text >>= λ _. pure tt)

    foreground-AddsOne : (text : Text) → AddsOne (go_on text false)
    foreground-AddsOne text s h =
        bind-After (Ids (suc n)) (exe_cmd os text) (λ _. pure tt) s (exe_cmd-AddsOne text s h)
          (λ a s' h'. h')

    bg_words-AddsOne :
        (full text : Text) (ws : List Text) → AddsOne (bg_words os full ws >>= go_on text)
    bg_words-AddsOne full text [] s h = looser s h
    bg_words-AddsOne full text (cmd ∷ rest) s h = elim (Bool-cases (is_built_in_cmd cmd)) [
      | inl e ↦ rw (bg_words, e) (foreground-AddsOne text s h)
      | inr e ↦
          rw (bg_words, e)
            (given-After (Ids (suc n)) (exe_external os (cmd ∷ rest) true full s) true (go_on text)
              s (exe_external-AddsOne (cmd ∷ rest) true full s h) (λ s' h'. h'))
    ]

    bg_cmd-AddsOne : (full : Text) (b : Bool × Text) → AddsOne (bg_cmd os full b >>= go_on b.1)
    bg_cmd-AddsOne full (false, text) s h = foreground-AddsOne text s h
    bg_cmd-AddsOne full (true, text) s h = bg_words-AddsOne full text (tokens text) s h

    read_command-AddsOne : (text : Text) → AddsOne (read_command os text)
    unfolding read_command
    read_command-AddsOne text s h =
        rw (◌>>=◌, update_list-runs os.answers s)
          (bg_cmd-AddsOne text (before_ampersand text) (updated os.answers s)
            (kept_from-Numbered os.answers (length s.calls) 0 n s.jobs h))

    ctrl_c_handler-AddsOne : AddsOne (ctrl_c_handler os)
    unfolding ctrl_c_handler
    ctrl_c_handler-AddsOne s h = ground (arith, looser s h)

    ctrl_z_handler-AddsOne : AddsOne (ctrl_z_handler os)
    unfolding ctrl_z_handler
    ctrl_z_handler-AddsOne s h =
        let stopped = record s {
          out = (s.out ++ caught_ctrl_z ∷ []) ++ was_stopped s.fg_process_pid ∷ [];
          calls = s.calls ++ kill s.fg_process_pid (pos 19) ∷ [];
        } in
        ground (
          arith,
          looser s h,
          bind-After (Ids (suc n))
              (add_job os.answers os.end_id s.l_fg_cmd s.fg_process_pid stop_state)
              (λ _. modify λ s. record s { fg_process_pid = s.smash_pid }) stopped
              (add_job-Ids os.answers os.end_id first n s.l_fg_cmd s.fg_process_pid stop_state
                stopped small h)
              (λ a s' h'. h'),
        )

    step-AddsOne : (i : Input) → AddsOne (step os i)
    unfolding step
    step-AddsOne (line text) s h = read_command-AddsOne text s h
    step-AddsOne ctrl_c s h = ctrl_c_handler-AddsOne s h
    step-AddsOne ctrl_z s h = ctrl_z_handler-AddsOne s h

  sessions-Ids :
      (is : List Input) (n m : ℕ) (s : Shell)
      → n + length is ≤ m
      → m ≤ 2147483647
      → Ids n s
      → After (Ids m) (smash os is s)
  unfolding smash
  sessions-Ids [] n m s short fits h = looser-Numbered 0 0 n m s.jobs (omega arith) (omega arith) h
  sessions-Ids (i ∷ is) n m s short fits h =
      chain-After (Ids (suc n)) (Ids m) (step os i s) (λ _. smash os is) s
        (step-AddsOne n (omega arith) i s h)
        (λ _ s' h'. sessions-Ids is (suc n) m s' (omega arith) fits h')

  -- Whatever is typed, whichever of the two signals arrive between the commands and whatever the
  -- system calls return: wherever smash goes on, the numbers of its jobs strictly increase along
  -- the list and are between 1 and how many inputs there were. The past-the-end job of an empty
  -- list must read as number 0, and there are fewer than 2^31 inputs.
  pub smash-Ids :
      (is : List Input) (pid : ℤ)
      → length is ≤ 2147483647
      → After (Ids (length is)) (smash os is (new_shell pid))
  smash-Ids is pid short = sessions-Ids is 0 (length is) (new_shell pid) (omega arith) short tt
