-- ===== src/Shell/Numbers.antt =====
-- The numbers of jobs, and what the changes of the list do to them.
use structure_of_os.Prelude.{
  ℕ, suc, ◌≤◌, ◌<◌, ℤ, pos, ◌≡◌, refl, Bool, true, false, some, List, [], ◌∷◌, ◌++◌, ⊤, arith,
  eqb_ℤ, if◌then◌else◌,
}
use structure_of_os.Shell.State.{Job}
use structure_of_os.Shell.Jobs.{erase_job, set_state, last_job, drop_last}
use structure_of_os.Shell.JobCommands.{after_signal, is_stop, is_end, is_continue}

-- The numbers increase, from above the first bound and up to the second one.
abbrev pub Numbered : ℕ → ℕ → List Job → Type 0
Numbered low n [] = ⊤
Numbered low n (j ∷ l) = (k : ℕ) × (j.job_id ≡ pos k) × (low < k) × (k ≤ n) × Numbered k n l

pub looser-Numbered :
    (low low' n n' : ℕ) (l : List Job) → low' ≤ low → n ≤ n' → Numbered low n l → Numbered low' n' l
looser-Numbered low low' n n' [] a b h = tt
looser-Numbered low low' n n' (j ∷ l) a b (k, e, lt, le, h) =
    (k, e, omega arith, omega arith, looser-Numbered k k n n' l (omega arith) b h)

pub if-Numbered :
    (b : Bool) (low n : ℕ) (l l' : List Job)
    → Numbered low n l
    → Numbered low n l'
    → Numbered low n (if b then l else l')
if-Numbered true low n l l' h h' = h
if-Numbered false low n l l' h h' = h'

pub erase_job-Numbered :
    (id : ℤ) (low n : ℕ) (l : List Job) → Numbered low n l → Numbered low n (erase_job id l)
erase_job-Numbered id low n [] h = tt
erase_job-Numbered id low n (j ∷ l) (k, e, lt, le, h) =
    if-Numbered (eqb_ℤ j.job_id id) low n l (j ∷ erase_job id l)
      (looser-Numbered k low n n l (omega arith) (omega arith) h)
      (k, e, lt, le, erase_job-Numbered id k n l h)

pub set_state-Numbered :
    (id : ℤ) (state low n : ℕ) (l : List Job)
    → Numbered low n l
    → Numbered low n (set_state id state l)
set_state-Numbered id state low n [] h = tt
set_state-Numbered id state low n (j ∷ l) (k, e, lt, le, h) =
    if-Numbered (eqb_ℤ j.job_id id) low n (record j { state = state } ∷ l)
      (j ∷ set_state id state l) (k, e, lt, le, h)
      (k, e, lt, le, set_state-Numbered id state k n l h)

pub drop_last-Numbered :
    (low n : ℕ) (l : List Job) → Numbered low n l → Numbered low n (drop_last l)
drop_last-Numbered low n [] h = tt
drop_last-Numbered low n (j ∷ []) h = tt
drop_last-Numbered low n (j ∷ i ∷ l) (k, e, lt, le, h) =
    (k, e, lt, le, drop_last-Numbered k n (i ∷ l) h)

pub after_signal-Numbered :
    (signal id : ℤ) (low n : ℕ) (l : List Job)
    → Numbered low n l
    → Numbered low n (after_signal signal id l)
after_signal-Numbered signal id low n l h =
    if-Numbered (is_stop signal) low n _ _ (set_state-Numbered id _ low n l h) (
      if-Numbered (is_end signal) low n _ _ (erase_job-Numbered id low n l h)
        (if-Numbered (is_continue signal) low n _ _ (set_state-Numbered id _ low n l h) h))

-- The last number bounds all of them.
pub last_job-Numbered :
    (low n : ℕ) (j : Job) (l : List Job)
    → Numbered low n (j ∷ l)
    → (m : ℕ) × (i : Job) × (last_job (j ∷ l) ≡ some i)
      × (i.job_id ≡ pos m)
      × (m ≤ n)
      × Numbered low m (j ∷ l)
last_job-Numbered low n j [] (k, e, lt, le, h) = (k, j, refl, e, le, (k, e, lt, omega arith, tt))
last_job-Numbered low n j (i ∷ l) (k, e, lt, le, h) =
    let (m, o, last, same, le', h') = last_job-Numbered k n i l h in
    let (k', _, lt', le'', _) = h' in (m, o, last, same, le', (k, e, lt, omega arith, h'))

pub append-Numbered :
    (low m : ℕ) (l : List Job) (j : Job)
    → low ≤ m
    → Numbered low m l
    → j.job_id ≡ pos (suc m)
    → Numbered low (suc m) (l ++ j ∷ [])
append-Numbered low m [] j a h e = (suc m, e, omega arith, omega arith, tt)
append-Numbered low m (i ∷ l) j a (k, same, lt, le, h) e =
    (k, same, lt, omega arith, append-Numbered k m l j le h e)
