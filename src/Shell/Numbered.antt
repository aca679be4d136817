-- ===== src/Shell/Numbered.antt =====
-- What the operations do to the numbers of the jobs.
use structure_of_os.Prelude.{
  ℕ, suc, ◌≤◌, ℤ, pos, ◌≡◌, refl, ◌∙◌, Bool, true, false, List, [], ◌∷◌, ◌++◌, ⊤, Text, arith,
  eqb_ℤ, int_laws, ◌+ℤ◌, if◌then◌else◌, length, append-nil, append_assoc,
}
use structure_of_os.Prelude.Int.{int_add, int_add_fits}
use structure_of_os.Shell.State.{Job, Shell, Call, waitpid, time}
use structure_of_os.Shell.Monad.{Action, Outcome, done, exited, crashed, in_child, ◌>>=◌}
use structure_of_os.Shell.Jobs.{still_running, update_list, add_job, next_id}
use structure_of_os.Shell.Numbers.{
  Numbered, looser-Numbered, if-Numbered, last_job-Numbered, append-Numbered,
}

-- The property holds of the state in which smash goes on.
abbrev pub After : {A : Type 0} → (Shell → Type 0) → Outcome A → Type 0
After P (done a s) = P s
After P (exited s) = ⊤
After P (crashed s) = ⊤
After P (in_child args s) = ⊤

module _ (P : Shell → Type 0) where
  pub if-After :
      {A : Type 0} (b : Bool) (m k : Action A) (s : Shell)
      → After P (m s)
      → After P (k s)
      → After P ((if b then m else k) s)
  if-After true m k s h h' = h
  if-After false m k s h h' = h'

  outcome-After :
      {A B : Type 0} (o : Outcome A) (f : A → Action B) (s : Shell)
      → After P o
      → ((a : A) (s' : Shell) → P s' → After P (f a s'))
      → After P (((λ _. o) >>= f) s)
  outcome-After (done a s') f s h k = k a s' h
  outcome-After (exited s') f s h k = tt
  outcome-After (crashed s') f s h k = tt
  outcome-After (in_child args s') f s h k = tt

  pub bind-After :
      {A B : Type 0} (m : Action A) (f : A → Action B) (s : Shell)
      → After P (m s)
      → ((a : A) (s' : Shell) → P s' → After P (f a s'))
      → After P ((m >>= f) s)
  bind-After m f s h k = outcome-After (m s) f s h k

length-append_one {ℓ} : {A : Type ℓ} (x : A) (l : List A) → length (l ++ x ∷ []) ≡ suc (length l)
length-append_one x [] = refl
length-append_one x (y ∷ l) = rw (length-append_one x l) refl

abbrev pub Ids : ℕ → Shell → Type 0
Ids n s = Numbered 0 n s.jobs

one_more : (m : ℕ) → m ≤ 2147483646 → int_add (pos m) (pos 1) ≡ pos (suc m)
one_more m h =
    let same : pos m +ℤ pos 1 ≡ pos (suc m) = omega int_laws in
    int_add_fits (pos m) (pos 1) (rw same (omega arith, omega arith)) ∙ same

-- The calls of `waitpid` for the jobs.
abbrev pub waits : List Job → List Call
waits [] = []
waits (j ∷ l) = waitpid j.process_id ∷ waits l

module _ (answers : ℕ → ℤ) where
  -- The jobs that `waitpid` finds running, where its first call has this number.
  abbrev pub kept_from : ℕ → List Job → List Job
  kept_from k [] = []
  kept_from k (j ∷ l) =
      let rest = kept_from (suc k) l in if eqb_ℤ (answers k) (pos 0) then j ∷ rest else rest

  still_running-runs :
      (l : List Job) (s : Shell)
      → still_running answers l s
        ≡ done (kept_from (length s.calls) l) (record s { calls = s.calls ++ waits l })
  still_running-runs [] s = rw append-nil refl
  still_running-runs (j ∷ l) s = simp (
    ◌>>=◌,
    still_running-runs l (record s { calls = s.calls ++ waitpid j.process_id ∷ [] }),
    length-append_one (waitpid j.process_id) s.calls,
    append_assoc,
  )

  -- What `update_list` leaves.
  abbrev pub updated : Shell → Shell
  updated s = record s { jobs = kept_from (length s.calls) s.jobs; calls = s.calls ++ waits s.jobs }

  -- `update_list` asks once for each job, in order, and leaves just those for which the answer is 0.
  pub update_list-runs : (s : Shell) → update_list answers s ≡ done tt (updated s)
  unfolding update_list
  update_list-runs s = rw (◌>>=◌, still_running-runs s.jobs s) refl

  pub kept_from-Numbered :
      (k low n : ℕ) (l : List Job) → Numbered low n l → Numbered low n (kept_from k l)
  kept_from-Numbered k low n [] h = tt
  kept_from-Numbered k low n (j ∷ l) (i, e, lt, le, h) =
      if-Numbered (eqb_ℤ (answers k) (pos 0)) low n (j ∷ kept_from (suc k) l) (kept_from (suc k) l)
        (i, e, lt, le, kept_from-Numbered (suc k) i n l h)
        (looser-Numbered i low n n _ (omega arith) (omega arith)
          (kept_from-Numbered (suc k) i n l h))

  module _ (end_id : List Job → ℤ) where
    -- The shell with one more job.
    abbrev pub joined : Text → ℤ → ℕ → Shell → Shell
    joined command pid state s =
        let asked = updated (record s { calls = s.calls ++ time ∷ [] }) in
        record asked {
          jobs =
              asked.jobs
              ++ record {
                job_id = next_id answers end_id s.jobs;
                command = command;
                process_id = pid;
                inserted_to_list_time = answers (length s.calls);
                state = state;
              }
                ∷ [];
        }

    pub add_job-runs :
        (command : Text) (pid : ℤ) (state : ℕ) (s : Shell)
        → add_job answers end_id command pid state s ≡ done tt (joined command pid state s)
    unfolding add_job
    add_job-runs command pid state s =
        rw (◌>>=◌, still_running-runs s.jobs (record s { calls = s.calls ++ time ∷ [] })) refl

    module _ (first : end_id [] ≡ pos 0) where
      -- The next number is one more than a bound of all the numbers.
      next_id-Numbered :
          (n : ℕ) (l : List Job)
          → n ≤ 2147483646
          → Numbered 0 n l
          → (m : ℕ) × (m ≤ n) × (next_id answers end_id l ≡ pos (suc m)) × Numbered 0 m l
      next_id-Numbered n [] small h = (0, omega arith, rw first (one_more 0 (omega arith)), tt)
      next_id-Numbered n (j ∷ l) small h =
          let (m, i, last, same, le, h') = last_job-Numbered 0 n j l h in
          (m, le, rw (next_id, last) (rw same (one_more m (omega arith))), h')

      pub joined-Ids :
          (n : ℕ) (command : Text) (pid : ℤ) (state : ℕ) (s : Shell)
          → n ≤ 2147483646
          → Ids n s
          → Ids (suc n) (joined command pid state s)
      joined-Ids n command pid state s small h =
          let (m, le, next, h') = next_id-Numbered n s.jobs small h in
          looser-Numbered 0 0 (suc m) (suc n) _ (omega arith) (omega arith) (
            append-Numbered 0 m _ _ (omega arith)
              (kept_from-Numbered (length (s.calls ++ time ∷ [])) 0 m s.jobs h') next)

      pub add_job-Ids :
          (n : ℕ) (command : Text) (pid : ℤ) (state : ℕ) (s : Shell)
          → n ≤ 2147483646
          → Ids n s
          → After (Ids (suc n)) (add_job answers end_id command pid state s)
      add_job-Ids n command pid state s small h =
          rw (add_job-runs command pid state s) (joined-Ids n command pid state s small h)
