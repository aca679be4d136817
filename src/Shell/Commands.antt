-- ===== src/Shell/Commands.antt =====
-- The built-in commands of `ExeCmd` (commands.cpp) that work on the shell and its jobs. The
-- arguments are those behind the command's name; the result is what `ExeCmd` returns.
use structure_of_os.Prelude.{
  ℕ, suc, ℤ, pos, Bool, true, ◌&&◌, not, is_space, length, Option, some, List, [], ◌∷◌, Text, bytes,
  text_eq, ◌==◌, eqb_ℤ, if◌then◌else◌,
}
use structure_of_os.Shell.State.{
  Os, Line, smash_pid_is, path_is, too_many_arguments, invalid_arguments, old_pwd_not_set,
  call_failed, differs, chdir, getcwd,
}
use structure_of_os.Shell.Monad.{Action, pure, ◌>>=◌, ◌>>◌, gets, modify, print, crash, call}

-- `SUCCESS` and `FAILURE`
abbrev pub success : ℕ
success = 0

abbrev pub failure : ℕ
failure = 1

abbrev pub complain : Line → Action ℕ
complain line = print line >> pure failure

abbrev pub perror : Text → Action ℕ
perror what = complain (call_failed what)

abbrev pub is_zero : ℤ → Bool
is_zero z = eqb_ℤ z (pos 0)

-- The characters that `istream_iterator<char>` yields.
abbrev pub visible : Text → Text
visible [] = []
visible (c ∷ t) = if is_space c then visible t else c ∷ visible t

-- `equal` over the first one's characters. Past the second one's end it goes on to read, one place
-- after the other, which the language leaves open: there it reads what `past` gives.
abbrev pub starts_with : (ℕ → ℕ) → Text → Text → Bool
starts_with past [] _ = true
starts_with past (a ∷ x) [] = a == past 0 && starts_with (λ n. past (suc n)) x []
starts_with past (a ∷ x) (b ∷ y) = a == b && starts_with past x y

-- What `diff` finds in two files of one size.
abbrev pub same_files : (ℕ → ℕ) → Text → Text → Bool
same_files past x y = starts_with past (visible x) (visible y)

module _ (os : Os) where
  abbrev pub show_pid : Action ℕ
  show_pid = do pid ← gets λ s. s.smash_pid; print (smash_pid_is pid); pure success

  abbrev pub pwd : Action ℕ
  pwd = do path ← call os.paths getcwd; print (path_is path); pure success

  -- Go to the path, and keep the one before.
  abbrev pub change_to : Text → Text → Action ℕ
  change_to path here = do
    r ← call os.answers (chdir path)
    if is_zero r
        then modify (λ s. record s { previous_path = here }) >> pure success
        else perror (bytes "chdir")

  abbrev pub go_back : Text → Text → Action ℕ
  go_back [] here = complain old_pwd_not_set
  go_back (c ∷ t) here = change_to (c ∷ t) here

  -- Without an argument a null pointer is compared.
  abbrev pub cd : List Text → Action ℕ
  cd [] = call os.paths getcwd >>= λ _. crash
  cd (path ∷ []) = do
    here ← call os.paths getcwd
    previous ← gets λ s. s.previous_path
    if text_eq path (bytes "-") then go_back previous here else change_to path here
  cd (_ ∷ _ ∷ _) = complain (too_many_arguments (bytes "cd"))

  abbrev pub diff_of : Option Text → Option Text → Action ℕ
  diff_of (some x) (some y) =
      if not (length x == length y)
      then complain (differs true)
      else print (differs (not (same_files (os.past_end y) x y))) >> pure success
  diff_of _ _ = perror (bytes "fopen")

  unfoldable pub diff : List Text → Action ℕ
  diff (a ∷ b ∷ []) = diff_of (os.files a) (os.files b)
  diff _ = complain (invalid_arguments (bytes "diff"))
