-- ===== src/Bank/Threads/Work.antt =====
-- What the threads that read the list of accounts have before them, and their next instructions.
use structure_of_os.Prelude.{
  ℕ, ◌+◌, ◌*◌, ◌≤◌, ◌<◌, ◌≡◌, ◌==◌, refl, Bool, true, false, List, [], ◌∷◌, arith,
}
use structure_of_os.Bank.Totals.{bit, bit_le_one, total, total-move}
use structure_of_os.Bank.Threads.{
  Place, idle, one, one_logs, one_logged, refuses, asks, half, both, both_log, both_logged,
  target_only, ends, transfer_refuses, State, at, Step, one_log, one_unlog, one_unlock, refused,
  lock_source, lock_target, transfer_log, transfer_unlog, unlock_source, unlock_target,
  transfer_refused, unlock_transfer,
}
use structure_of_os.Bank.Threads.Exclusion.{is, has, has_log, has_transfer}

-- The instructions that a thread has before it, at most.
abbrev pub remaining : Place → ℕ
remaining idle = 0
remaining (one p) = 3
remaining (one_logs p) = 2
remaining (one_logged p) = 1
remaining refuses = 1
remaining (asks s t) = 7
remaining (half s t) = 6
remaining (both s t) = 5
remaining (both_log s t) = 4
remaining (both_logged s t) = 3
remaining (target_only t) = 2
remaining ends = 1
remaining transfer_refuses = 2

-- Its next instruction asks for no lock.
abbrev pub is_ready : Place → ℕ
is_ready (one_logs p) = 1
is_ready (one_logged p) = 1
is_ready refuses = 1
is_ready (both_log s t) = 1
is_ready (both_logged s t) = 1
is_ready (target_only t) = 1
is_ready ends = 1
is_ready transfer_refuses = 1
is_ready _ = 0

-- Its next instruction asks for `log_print_lock`.
abbrev pub wants_log : Place → ℕ
wants_log (one p) = 1
wants_log (both s t) = 1
wants_log _ = 0

-- It asks for the target of a transfer, or for the source.
abbrev pub is_half : Place → ℕ
is_half (half s t) = 1
is_half _ = 0

abbrev pub is_asking : Place → ℕ
is_asking (asks s t) = 1
is_asking _ = 0

-- It has a transfer before it whose source is its target.
abbrev pub is_twice : Place → ℕ
is_twice (asks s t) = is t s
is_twice (half s t) = is t s
is_twice _ = 0

abbrev pub is_free : Place → ℕ
is_free x = is_ready x + wants_log x

abbrev pub is_busy : Place → ℕ
is_busy x = is_free x + is_half x + is_asking x

pub total-is_free : (l : List Place) → total is_free l ≡ total is_ready l + total wants_log l
total-is_free [] = refl
total-is_free (x ∷ l) = omega (arith, total-is_free l)

pub total-is_busy :
    (l : List Place) → total is_busy l ≡ total is_free l + total is_half l + total is_asking l
total-is_busy [] = refl
total-is_busy (x ∷ l) = omega (arith, total-is_busy l)

pub has_log_le : (x : Place) → has_log x ≤ is_ready x
has_log_le idle = omega arith
has_log_le (one p) = omega arith
has_log_le (one_logs p) = omega arith
has_log_le (one_logged p) = omega arith
has_log_le refuses = omega arith
has_log_le (asks s t) = omega arith
has_log_le (half s t) = omega arith
has_log_le (both s t) = omega arith
has_log_le (both_log s t) = omega arith
has_log_le (both_logged s t) = omega arith
has_log_le (target_only t) = omega arith
has_log_le ends = omega arith
has_log_le transfer_refuses = omega arith

pub is_half_le : (x : Place) → is_half x ≤ has_transfer x
is_half_le idle = omega arith
is_half_le (one p) = omega arith
is_half_le (one_logs p) = omega arith
is_half_le (one_logged p) = omega arith
is_half_le refuses = omega arith
is_half_le (asks s t) = omega arith
is_half_le (half s t) = omega arith
is_half_le (both s t) = omega arith
is_half_le (both_log s t) = omega arith
is_half_le (both_logged s t) = omega arith
is_half_le (target_only t) = omega arith
is_half_le ends = omega arith
is_half_le transfer_refuses = omega arith

pub is_busy_le : (x : Place) → is_busy x ≤ remaining x
is_busy_le idle = omega arith
is_busy_le (one p) = omega arith
is_busy_le (one_logs p) = omega arith
is_busy_le (one_logged p) = omega arith
is_busy_le refuses = omega arith
is_busy_le (asks s t) = omega arith
is_busy_le (half s t) = omega arith
is_busy_le (both s t) = omega arith
is_busy_le (both_log s t) = omega arith
is_busy_le (both_logged s t) = omega arith
is_busy_le (target_only t) = omega arith
is_busy_le ends = omega arith
is_busy_le transfer_refuses = omega arith

-- An account that a thread has, and what the thread is about to do.
pub has_le : (q : ℕ) (x : Place) → has q x ≤ 2 * is_free x + is_half x
has_le q idle = omega arith
has_le q (one p) = omega (arith, bit_le_one (q == p))
has_le q (one_logs p) = omega (arith, bit_le_one (q == p))
has_le q (one_logged p) = omega (arith, bit_le_one (q == p))
has_le q refuses = omega arith
has_le q (asks s t) = omega arith
has_le q (half s t) = omega (arith, bit_le_one (q == s))
has_le q (both s t) = omega (arith, bit_le_one (q == s), bit_le_one (q == t))
has_le q (both_log s t) = omega (arith, bit_le_one (q == s), bit_le_one (q == t))
has_le q (both_logged s t) = omega (arith, bit_le_one (q == s), bit_le_one (q == t))
has_le q (target_only t) = omega (arith, bit_le_one (q == t))
has_le q ends = omega arith
has_le q transfer_refuses = omega arith

pub bit_zero : (b : Bool) → bit b ≡ 0 → b ≡ false
bit_zero true h = absurd (omega arith)
bit_zero false h = refl

-- Some thread goes on, and has less before it.
abbrev pub Moves : State → Type 0
Moves s = (s' : State) × Step s s' × (total remaining s'.threads < total remaining s.threads)

moved :
    (a b : List Place) (x y : Place) {k : ℕ → Bool} {m l : Bool} {k' : ℕ → Bool} {m' l' : Bool}
    → Step (at a b x k m l) (at a b y k' m' l')
    → remaining y < remaining x
    → Moves (at a b x k m l)
moved a b x y step less = (_, step, omega (arith, total-move remaining a b x y))

pub ready-Moves :
    (a b : List Place) (x : Place) (k : ℕ → Bool) (m l : Bool)
    → 1 ≤ is_ready x
    → Moves (at a b x k m l)
ready-Moves a b idle k m l h = elim h [ ]
ready-Moves a b (one p) k m l h = elim h [ ]
ready-Moves a b (one_logs p) k m l h =
    moved a b (one_logs p) (one_logged p) (one_unlog a b p k m l) (omega arith)
ready-Moves a b (one_logged p) k m l h =
    moved a b (one_logged p) idle (one_unlock a b p k m l) (omega arith)
ready-Moves a b refuses k m l h = moved a b refuses idle (refused a b k m l) (omega arith)
ready-Moves a b (asks s t) k m l h = elim h [ ]
ready-Moves a b (half s t) k m l h = elim h [ ]
ready-Moves a b (both s t) k m l h = elim h [ ]
ready-Moves a b (both_log s t) k m l h =
    moved a b (both_log s t) (both_logged s t) (transfer_unlog a b s t k m l) (omega arith)
ready-Moves a b (both_logged s t) k m l h =
    moved a b (both_logged s t) (target_only t) (unlock_source a b s t k m l) (omega arith)
ready-Moves a b (target_only t) k m l h =
    moved a b (target_only t) ends (unlock_target a b t k m l) (omega arith)
ready-Moves a b ends k m l h = moved a b ends idle (unlock_transfer a b k m l) (omega arith)
ready-Moves a b transfer_refuses k m l h =
    moved a b transfer_refuses ends (transfer_refused a b k m l) (omega arith)

pub log-Moves :
    (a b : List Place) (x : Place) (k : ℕ → Bool) (m : Bool)
    → 1 ≤ wants_log x
    → Moves (at a b x k m false)
log-Moves a b idle k m h = elim h [ ]
log-Moves a b (one p) k m h = moved a b (one p) (one_logs p) (one_log a b p k m) (omega arith)
log-Moves a b (one_logs p) k m h = elim h [ ]
log-Moves a b (one_logged p) k m h = elim h [ ]
log-Moves a b refuses k m h = elim h [ ]
log-Moves a b (asks s t) k m h = elim h [ ]
log-Moves a b (half s t) k m h = elim h [ ]
log-Moves a b (both s t) k m h =
    moved a b (both s t) (both_log s t) (transfer_log a b s t k m) (omega arith)
log-Moves a b (both_log s t) k m h = elim h [ ]
log-Moves a b (both_logged s t) k m h = elim h [ ]
log-Moves a b (target_only t) k m h = elim h [ ]
log-Moves a b ends k m h = elim h [ ]
log-Moves a b transfer_refuses k m h = elim h [ ]

abbrev pub target_of : Place → ℕ
target_of (half s t) = t
target_of _ = 0

abbrev pub source_of : Place → ℕ
source_of (asks s t) = s
source_of _ = 0

pub half-Moves :
    (a b : List Place) (x : Place) (k : ℕ → Bool) (m l : Bool)
    → 1 ≤ is_half x
    → k (target_of x) ≡ false
    → Moves (at a b x k m l)
half-Moves a b idle k m l h free = elim h [ ]
half-Moves a b (one p) k m l h free = elim h [ ]
half-Moves a b (one_logs p) k m l h free = elim h [ ]
half-Moves a b (one_logged p) k m l h free = elim h [ ]
half-Moves a b refuses k m l h free = elim h [ ]
half-Moves a b (asks s t) k m l h free = elim h [ ]
half-Moves a b (half s t) k m l h free =
    moved a b (half s t) (both s t) (lock_target a b s t k m l free) (omega arith)
half-Moves a b (both s t) k m l h free = elim h [ ]
half-Moves a b (both_log s t) k m l h free = elim h [ ]
half-Moves a b (both_logged s t) k m l h free = elim h [ ]
half-Moves a b (target_only t) k m l h free = elim h [ ]
half-Moves a b ends k m l h free = elim h [ ]
half-Moves a b transfer_refuses k m l h free = elim h [ ]

pub asking-Moves :
    (a b : List Place) (x : Place) (k : ℕ → Bool) (m l : Bool)
    → 1 ≤ is_asking x
    → k (source_of x) ≡ false
    → Moves (at a b x k m l)
asking-Moves a b idle k m l h free = elim h [ ]
asking-Moves a b (one p) k m l h free = elim h [ ]
asking-Moves a b (one_logs p) k m l h free = elim h [ ]
asking-Moves a b (one_logged p) k m l h free = elim h [ ]
asking-Moves a b refuses k m l h free = elim h [ ]
asking-Moves a b (asks s t) k m l h free =
    moved a b (asks s t) (half s t) (lock_source a b s t k m l free) (omega arith)
asking-Moves a b (half s t) k m l h free = elim h [ ]
asking-Moves a b (both s t) k m l h free = elim h [ ]
asking-Moves a b (both_log s t) k m l h free = elim h [ ]
asking-Moves a b (both_logged s t) k m l h free = elim h [ ]
asking-Moves a b (target_only t) k m l h free = elim h [ ]
asking-Moves a b ends k m l h free = elim h [ ]
asking-Moves a b transfer_refuses k m l h free = elim h [ ]
