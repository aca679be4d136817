-- ===== src/Shell/Tests.antt =====
-- A session of smash, and the theorems at concrete sessions.
use structure_of_os.Prelude.{
  ℕ, zero, suc, ℤ, pos, ◌≡◌, refl, List, [], ◌∷◌, ◌++◌, Text, ◌==◌, if◌then◌else◌, bytes, arith,
  Option, none, some, ⊤, atoi, text_eq, Bool, false, not, ◌⊎◌, ◌↔◌,
}
use structure_of_os.Prelude.Int.{int_add}
use structure_of_os.Shell.State.{
  Os, Job, Shell, new_shell, Line, already_running, too_many_arguments, caught_ctrl_c,
  no_stopped_jobs,
}
use structure_of_os.Shell.Monad.{Outcome, done, exited, crashed, in_child, ◌>>◌}
use structure_of_os.Shell.Smash.{Input, line, ctrl_c, smash, step, ctrl_z_handler}
use structure_of_os.Shell.Numbered.{After, Ids}
use structure_of_os.Shell.Commands.{success, failure, visible, diff}
use structure_of_os.Shell.JobCommands.{fg, bg}
use structure_of_os.Shell.Background.{NoneStopped, Resumed, bg-resumes}
use structure_of_os.Shell.Compare.{found, diff-blind, diff-exact}
use structure_of_os.Shell.Words.{tokens}
use structure_of_os.Shell.Tokens.{tokens-typed}
use structure_of_os.Shell.Foreground.{AllBelow, fg-takes_largest}
use structure_of_os.Shell.Suspend.{fg-ctrl_z}
use structure_of_os.Shell.Session.{smash-Ids}

-- `fork` is the first call and returns 50, `time` is the second and returns 7; all else is 0.
abbrev answers : ℕ → ℤ
answers zero = pos 50
answers (suc zero) = pos 7
answers (suc (suc n)) = pos 0

abbrev home : ℕ → Text
home n = bytes "/home"

abbrev no_files : Text → Option Text
no_files t = none

-- What `jobs.end()` reads where the length stands at the place of the number.
abbrev length_read : List Job → ℤ
length_read [] = pos 0
length_read (j ∷ l) = pos 1

-- Behind the end the last character is read again.
abbrev last_again : Text → ℕ → ℕ
last_again [] n = 0
last_again (c ∷ []) n = c
last_again (c ∷ d ∷ t) n = last_again (d ∷ t) n

abbrev os : Os
os = record {
  answers = answers;
  paths = home;
  files = no_files;
  end_id = length_read;
  past_end = last_again;
}

abbrev session : List Input
session = line (bytes "sleep 9 &") ∷ line (bytes "bg 1") ∷ line (bytes "cd a b") ∷ ctrl_c ∷ []

abbrev out_of : Outcome ⊤ → List Line
out_of (done a s) = s.out
out_of (exited s) = s.out
out_of (crashed s) = s.out
out_of (in_child args s) = s.out

session_out :
    out_of (smash os session (new_shell (pos 10)))
    ≡ already_running (pos 1) ∷ too_many_arguments (bytes "cd") ∷ caught_ctrl_c ∷ []
unfolding smash step int_add atoi
session_out = refl

smash-Ids_example : After (Ids 4) (smash os session (new_shell (pos 10)))
smash-Ids_example = smash-Ids os refl session (pos 10) (omega arith)

abbrev job : ℤ → ℤ → ℕ → Job
job id pid state = record {
  job_id = id;
  command = bytes "sleep 9";
  process_id = pid;
  inserted_to_list_time = pos 0;
  state = state;
}

-- Two jobs, and a third process in the foreground.
abbrev busy : Shell
busy = record {
  jobs = job (pos 1) (pos 31) 2 ∷ job (pos 4) (pos 34) 3 ∷ [];
  fg_process_pid = pos 36;
  smash_pid = pos 10;
  l_fg_cmd = bytes "cat";
  previous_path = [];
  out = [];
  calls = [];
}

-- The fourth call, which is `waitpid` for the second job, says that it has ended.
abbrev calm : Os
calm = record os { answers = λ n. if n == 3 then pos 34 else pos 0 }

busy-Ids : Ids 4 busy
busy-Ids = (1, refl, omega arith, omega arith, (4, refl, omega arith, omega arith, tt))

fg-takes_largest_example :
    (i : Job) × (kept : List Job) × (s' : Shell) × (fg calm [] busy ≡ done 0 s')
    × (busy.jobs ≡ kept ++ i ∷ [])
    × (s'.jobs ≡ kept)
    × (s'.fg_process_pid ≡ i.process_id)
    × (s'.l_fg_cmd ≡ i.command)
    × AllBelow i.job_id kept
fg-takes_largest_example =
    fg-takes_largest calm 4 busy (job (pos 1) (pos 31) 2) (job (pos 4) (pos 34) 3 ∷ []) busy-Ids
      refl refl

fg-ctrl_z_example :
    (s' : Shell) × ((ctrl_z_handler calm >> fg calm []) busy ≡ done 0 s')
    × (s'.fg_process_pid ≡ pos 36)
    × (s'.l_fg_cmd ≡ bytes "cat")
    × (s'.jobs ≡ job (pos 1) (pos 31) 2 ∷ [])
fg-ctrl_z_example = fg-ctrl_z calm busy refl refl refl

bg-resumes_example :
    (NoneStopped busy.jobs
      × (bg calm [] busy ≡ done failure (record busy { out = busy.out ++ no_stopped_jobs ∷ [] })))
    ⊎ ((j : Job) × Resumed calm busy (bg calm [] busy) j)
bg-resumes_example = bg-resumes calm 4 busy busy-Ids refl

-- Files by one name each.
abbrev with_files : Os
with_files = record os {
  files = λ t.
      if text_eq t (bytes "a")
      then some (bytes "x y")
      else if text_eq t (bytes "b")
      then some (bytes "xyz")
      else some (bytes "xyw");
}

diff-blind_example :
    (answer : Bool) × (diff with_files (bytes "a" ∷ bytes "b" ∷ []) busy
      ≡ done success (found answer busy))
    × ((answer ≡ false) ↔ ((z : Text) × (visible (bytes "xyz") ≡ visible (bytes "x y") ++ z)))
diff-blind_example =
    diff-blind with_files (bytes "a") (bytes "b") (bytes "x y") (bytes "xyz") busy refl refl refl
      (omega arith)

diff-exact_example :
    (result : ℕ) × (diff with_files (bytes "b" ∷ bytes "c" ∷ []) busy
      ≡ done result (found (not (text_eq (bytes "xyz") (bytes "xyw"))) busy))
diff-exact_example =
    diff-exact with_files (bytes "b") (bytes "c") (bytes "xyz") (bytes "xyw") busy refl refl
      (refl, (refl, (refl, tt))) (refl, (refl, (refl, tt)))

-- The first file begins like the second one, but for its space.
diff_run : diff with_files (bytes "a" ∷ bytes "b" ∷ []) busy ≡ done success (found false busy)
unfolding diff
diff_run = refl

tokens-typed_example : tokens (bytes " kill \t-9  3") ≡ bytes "kill" ∷ bytes "-9" ∷ bytes "3" ∷ []
tokens-typed_example =
    tokens-typed (bytes " ")
      ((bytes "kill", bytes " \t") ∷ (bytes "-9", bytes "  ") ∷ (bytes "3", []) ∷ []) (refl, tt)
      (ground arith) (omega arith)
