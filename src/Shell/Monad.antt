-- ===== src/Shell/Monad.antt =====
-- What smash does: it goes on, exits, crashes, or finds itself in the child that `fork` made.
use structure_of_os.Prelude.{ℕ, List, [], ◌∷◌, ◌++◌, ⊤, Text, length}
use structure_of_os.Shell.State.{Job, Line, Call, Shell}

pub data Outcome (A : Type 0) : Type 0 where
  done : A → Shell → Outcome A
  exited : Shell → Outcome A
  crashed : Shell → Outcome A
  in_child : List Text → Shell → Outcome A

abbrev pub Action : Type 0 → Type 0
Action A = Shell → Outcome A

abbrev pub pure : {A : Type 0} → A → Action A
pure a s = done a s

infixl 5 ◌>>=◌ ◌>>◌
abbrev pub ◌>>=◌ : {A B : Type 0} → Action A → (A → Action B) → Action B
◌>>=◌ m f s = elim (m s) [
  | done a s' ↦ f a s'
  | exited s' ↦ exited s'
  | crashed s' ↦ crashed s'
  | in_child args s' ↦ in_child args s'
]

abbrev pub ◌>>◌ : {B : Type 0} → Action ⊤ → Action B → Action B
m >> k = m >>= λ _. k

abbrev pub gets : {A : Type 0} → (Shell → A) → Action A
gets f s = done (f s) s

abbrev pub modify : (Shell → Shell) → Action ⊤
modify f s = done tt (f s)

abbrev pub set_jobs : List Job → Action ⊤
set_jobs l = modify λ s. record s { jobs = l }

abbrev pub print : Line → Action ⊤
print line = modify λ s. record s { out = s.out ++ line ∷ [] }

-- `exit`
abbrev pub exit : {A : Type 0} → Action A
exit s = exited s

-- A null pointer is read.
abbrev pub crash : {A : Type 0} → Action A
crash s = crashed s

-- A system call returns what the system answers, in the order of the calls.
abbrev pub call : {A : Type 0} → (ℕ → A) → Call → Action A
call answers c s = done (answers (length s.calls)) (record s { calls = s.calls ++ c ∷ [] })
