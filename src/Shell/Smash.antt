-- ===== src/Shell/Smash.antt =====
-- External commands, `ExeCmd`, `BgCmd` (commands.cpp), the signal handlers (signals.cpp) and the
-- loop of `main` (smash.cpp). A line comes without its newline and fits in the buffer. A signal is
-- handled between two commands.
use structure_of_os.Prelude.{
  ℕ, ℤ, pos, negsuc, Bool, true, false, List, [], ◌∷◌, ⊤, Text, bytes, text_eq, length, ltb, eqb_ℤ,
  not, if◌then◌else◌,
}
use structure_of_os.Shell.State.{
  Os, background_state, stop_state, caught_ctrl_c, caught_ctrl_z, was_killed, was_stopped,
  call_failed, kill, waitpid, fork,
}
use structure_of_os.Shell.Monad.{Action, in_child, pure, ◌>>=◌, ◌>>◌, gets, modify, print, call}
use structure_of_os.Shell.Words.{tokens, through_first_word, is_built_in_cmd, before_ampersand}
use structure_of_os.Shell.Jobs.{update_list, add_job}
use structure_of_os.Shell.Commands.{success, is_zero, show_pid, pwd, cd, diff}
use structure_of_os.Shell.JobCommands.{jobs, kill_job, fg, bg, quit}

-- What reaches smash.
pub data Input : Type 0 where
  line : (text : Text) → Input
  ctrl_c : Input
  ctrl_z : Input

-- `fork` has made this process, which becomes the program or exits.
abbrev child : List Text → Action ⊤
child args s = in_child args s

module _ (os : Os) where
  -- A new job, where there are fewer than a hundred.
  abbrev pub in_background : Text → ℤ → Action ⊤
  in_background full_command pid = do
    l ← gets λ s. s.jobs
    if ltb (length l) 100
        then add_job os.answers os.end_id full_command pid background_state
        else pure tt

  abbrev pub in_foreground : Text → ℤ → Action ⊤
  in_foreground full_command pid = do
    modify λ s. record s { l_fg_cmd = full_command; fg_process_pid = pid }
    call os.answers (waitpid pid) >>= λ _. pure tt

  -- `ExeExternal`
  unfoldable pub exe_external : List Text → Bool → Text → Action ⊤
  unfolding add_job
  exe_external args in_bg full_command = do
    pid ← call os.answers (fork args)
    if eqb_ℤ pid (negsuc 0)
        then print (call_failed (bytes "fork"))
        else if is_zero pid
        then child args
        else if in_bg
        then in_background full_command pid
        else in_foreground full_command pid

  -- The chain of tests on the command's name.
  abbrev pub dispatch : Text → Text → List Text → Action ℕ
  dispatch text cmd rest =
      if text_eq cmd (bytes "showpid")
      then show_pid os
      else if text_eq cmd (bytes "pwd")
      then pwd os
      else if text_eq cmd (bytes "cd")
      then cd os rest
      else if text_eq cmd (bytes "jobs")
      then jobs os
      else if text_eq cmd (bytes "kill")
      then kill_job os rest
      else if text_eq cmd (bytes "fg")
      then fg os rest
      else if text_eq cmd (bytes "bg")
      then bg os rest
      else if text_eq cmd (bytes "quit")
      then quit os rest
      else if text_eq cmd (bytes "diff")
      then diff os rest
      else exe_external (cmd ∷ rest) false (through_first_word text) >> pure success

  abbrev pub exe_words : Text → List Text → Action ℕ
  exe_words text [] = pure success
  exe_words text (cmd ∷ rest) = dispatch text cmd rest

  -- `ExeCmd`; `strtok` leaves only the first word of the line for `ExeExternal`.
  unfoldable pub exe_cmd : Text → Action ℕ
  unfolding tokens jobs kill_job fg bg quit diff exe_external
  exe_cmd text = exe_words text (tokens text)

  abbrev pub bg_words : Text → List Text → Action Bool
  bg_words full_command [] = pure true
  bg_words full_command (cmd ∷ rest) =
      if not (is_built_in_cmd cmd)
      then exe_external (cmd ∷ rest) true full_command >> pure true
      else pure false

  -- `BgCmd`, for a line that ends in `&`, of which the text before is given; whether it is done.
  abbrev pub bg_cmd : Text → Bool × Text → Action Bool
  bg_cmd full_command (false, text) = pure false
  bg_cmd full_command (true, text) = bg_words full_command (tokens text)

  -- One round of the loop of `main`.
  unfoldable pub read_command : Text → Action ⊤
  unfolding update_list exe_external exe_cmd tokens
  read_command text = do
    update_list os.answers
    finished ← bg_cmd text (before_ampersand text)
    if finished then pure tt else (exe_cmd (before_ampersand text).1 >>= λ _. pure tt)

  -- Whether a process other than smash is in the foreground.
  abbrev foreground_pid : Action (Bool × ℤ)
  foreground_pid = gets λ s. (not (eqb_ℤ s.fg_process_pid s.smash_pid), s.fg_process_pid)

  -- `ctrl_c_hanlder`
  unfoldable pub ctrl_c_handler : Action ⊤
  ctrl_c_handler = do
    print caught_ctrl_c
    (other, pid) ← foreground_pid
    if other
        then (do
          r ← call os.answers (kill pid (pos 9))
          if is_zero r then print (was_killed pid) else print (call_failed (bytes "kill")))
        else pure tt

  -- `ctrl_z_hanlder`
  unfoldable pub ctrl_z_handler : Action ⊤
  unfolding add_job
  ctrl_z_handler = do
    print caught_ctrl_z
    (other, pid) ← foreground_pid
    if other
        then (do
          r ← call os.answers (kill pid (pos 19))
          if is_zero r
              then (do
                print (was_stopped pid)
                command ← gets λ s. s.l_fg_cmd
                add_job os.answers os.end_id command pid stop_state
                modify λ s. record s { fg_process_pid = s.smash_pid })
              else print (call_failed (bytes "kill")))
        else pure tt

  unfoldable pub step : Input → Action ⊤
  unfolding read_command ctrl_c_handler ctrl_z_handler
  step (line text) = read_command text
  step ctrl_c = ctrl_c_handler
  step ctrl_z = ctrl_z_handler

  -- The loop of `main`, over what reaches it.
  unfoldable pub smash : List Input → Action ⊤
  smash [] = pure tt
  smash (i ∷ is) = step i >> smash is
