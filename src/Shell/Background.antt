-- ===== src/Shell/Background.antt =====
-- `bg` without a number (commands.cpp).
use structure_of_os.Prelude.{
  ℕ, ◌<◌, ◌≤◌, pos, ◌≡◌, ◌⊎◌, ◌∙◌, refl, ap, inl, inr, true, false, Option, none, some, List, [],
  ◌∷◌, ◌++◌, ⊤, length, ◌==◌, eqb_ℤ, eqb_ℤ_iff, arith, Bool-cases,
}
use structure_of_os.Shell.State.{
  Os, Job, Shell, background_state, stop_state, resumes, no_stopped_jobs, kill,
}
use structure_of_os.Shell.Monad.{Outcome, done}
use structure_of_os.Shell.Jobs.{max_id_stopped_job, larger_stopped, set_state}
use structure_of_os.Shell.Commands.{success, failure, is_zero}
use structure_of_os.Shell.JobCommands.{bg, bg_of, bg_largest}
use structure_of_os.Shell.Numbers.{Numbered}
use structure_of_os.Shell.Numbered.{Ids}

abbrev pub NoneStopped : List Job → Type 0
NoneStopped [] = ⊤
NoneStopped (j ∷ l) = ((j.state == stop_state) ≡ false) × NoneStopped l

-- The last stopped job of a list.
pub record LastStopped (l : List Job) (j : Job) : Type 0 where
  pub before : List Job
  pub after : List Job
  pub split : l ≡ before ++ j ∷ after
  pub stopped : (j.state == stop_state) ≡ true
  pub rest : NoneStopped after

LastStopped-cons : (i j : Job) (l : List Job) → LastStopped l j → LastStopped (i ∷ l) j
LastStopped-cons i j l h = record {
  before = i ∷ h.before;
  after = h.after;
  split = ap (λ t. i ∷ t) h.split;
  stopped = h.stopped;
  rest = h.rest;
}

abbrev UpTo : ℕ → Option Job → Type 0
UpTo low none = ⊤
UpTo low (some j) = (k : ℕ) × (j.job_id ≡ pos k) × (k ≤ low)

UpTo-le : (low high : ℕ) (best : Option Job) → low ≤ high → UpTo low best → UpTo high best
UpTo-le low high none h u = tt
UpTo-le low high (some j) h (k, e, le) = (k, e, omega arith)

larger_stopped-above :
    (low k : ℕ) (best : Option Job) (j : Job)
    → UpTo low best
    → j.job_id ≡ pos k
    → low < k
    → larger_stopped best j ≡ some j
larger_stopped-above low k none j u e h = refl
larger_stopped-above low k (some m) j (i, f, le) e h = rw (f, e) (ground arith)

-- In a list that is in the order of its numbers, the largest stopped job is the last one.
max_id_stopped_job-last :
    (low n : ℕ) (best : Option Job) (l : List Job)
    → UpTo low best
    → Numbered low n l
    → (NoneStopped l × (max_id_stopped_job best l ≡ best))
      ⊎ ((j : Job) × LastStopped l j × (max_id_stopped_job best l ≡ some j))
max_id_stopped_job-last low n best [] u h = inl (tt, refl)
max_id_stopped_job-last low n best (j ∷ l) u (k, e, lt, le, h) =
    elim (Bool-cases (j.state == stop_state)) [
      | inl stopped ↦
          rw (stopped, larger_stopped-above low k best j u e lt)
            (elim (max_id_stopped_job-last k n (some j) l (k, e, omega arith) h) [
              | inl (rest, same) ↦ inr (
                j,
                record { before = []; after = l; split = refl; stopped = stopped; rest = rest },
                same,
              )
              | inr (i, last, same) ↦ inr (i, LastStopped-cons j i l last, same)
            ])
      | inr running ↦
          rw running
            (elim (max_id_stopped_job-last k n best l (UpTo-le low k best (omega arith) u) h) [
              | inl (rest, same) ↦ inl ((refl, rest), same)
              | inr (i, last, same) ↦ inr (i, LastStopped-cons j i l last, same)
            ])
    ]

-- A job in the middle has a number above those before it.
middle_above :
    (low n : ℕ) (before after : List Job) (j : Job)
    → Numbered low n (before ++ j ∷ after)
    → (m : ℕ) × (j.job_id ≡ pos m) × (low < m)
middle_above low n [] after j (k, e, lt, le, h) = (k, e, lt)
middle_above low n (i ∷ before) after j (k, e, lt, le, h) =
    let (m, f, above) = middle_above k n before after j h in (m, f, omega arith)

set_state-middle :
    (low n state : ℕ) (before after : List Job) (j : Job)
    → Numbered low n (before ++ j ∷ after)
    → set_state j.job_id state (before ++ j ∷ after) ≡ before ++ record j { state = state } ∷ after
set_state-middle low n state [] after j h = rw ((eqb_ℤ_iff j.job_id j.job_id).1 refl) refl
set_state-middle low n state (i ∷ before) after j (k, e, lt, le, h) =
    let (m, f, above) = middle_above k n before after j h in
    let other : eqb_ℤ i.job_id j.job_id ≡ false = rw (e, f) (ground arith) in
    rw other (ap (λ t. i ∷ t) (set_state-middle k n state before after j h))

bg_of-largest : (os : Os) (l : List Job) → bg_of os l [] ≡ bg_largest os (max_id_stopped_job none l)
bg_of-largest os [] = refl
bg_of-largest os (j ∷ l) = refl

-- What `bg` comes to.
abbrev pub Resumed : Os → Shell → Outcome ℕ → Job → Type 0
Resumed os s o j =
    (last : LastStopped s.jobs j) × (o
      ≡ done success (record s {
        jobs = last.before ++ record j { state = background_state } ∷ last.after;
        out = s.out ++ resumes j.command j.job_id ∷ [];
        calls = s.calls ++ kill j.process_id (pos 18) ∷ [];
      }))

resumed-jobs :
    (n : ℕ) (j : Job) (s : Shell) (last : LastStopped s.jobs j)
    → Ids n s
    → set_state j.job_id background_state s.jobs
      ≡ last.before ++ record j { state = background_state } ∷ last.after
resumed-jobs n j s last h =
    ap (set_state j.job_id background_state) last.split
    ∙ set_state-middle 0 n background_state last.before last.after j (rw last.split at h)

-- `bg` without a number, where the jobs are in the order of their numbers: if none is stopped it
-- says so and changes nothing else; or else, if the job can be woken, the last stopped job, which
-- has the largest number of them, is woken and runs in the background, and all others stay as they
-- are.
pub bg-resumes :
    (os : Os) (n : ℕ) (s : Shell)
    → Ids n s
    → is_zero (os.answers (length s.calls)) ≡ true
    → (NoneStopped s.jobs
        × (bg os [] s ≡ done failure (record s { out = s.out ++ no_stopped_jobs ∷ [] })))
      ⊎ ((j : Job) × Resumed os s (bg os [] s) j)
unfolding bg
bg-resumes os n s h woken = elim (max_id_stopped_job-last 0 n none s.jobs tt h) [
  | inl (idle, best) ↦ inl (idle, ap (λ f. f s) (bg_of-largest os s.jobs) ∙ rw best refl)
  | inr (j, last, best) ↦ inr (
    j,
    (
      last,
      ap (λ f. f s) (bg_of-largest os s.jobs)
          ∙ rw best (
              rw woken (
                ap
                  (λ l. done success (record s {
                    jobs = l;
                    out = s.out ++ resumes j.command j.job_id ∷ [];
                    calls = s.calls ++ kill j.process_id (pos 18) ∷ [];
                  }))
                  (resumed-jobs n j s last h))),
    ),
  )
]
