-- ===== src/Bank/System/History.antt =====
-- The history of the ledger under a schedule of the threads (bank.cpp), without locks or memory.
use structure_of_os.Prelude.{
  ℕ, ℤ, ◌≡◌, ◌≢◌, ◌∙◌, sym, refl, ap, Option, none, some, List, [], ◌∷◌, Text, get_elem?, set,
  get_elem?-set_self, get_elem?-set_ne, Option-cases, Bool-cases, inl, inr, ==_iff, ◌==◌,
}
use mathlib.Core.Option.{some-injective}
use structure_of_os.Bank.Ledger.{Ledger}
use structure_of_os.Bank.Script.{Locals, Command, nothing, read_line, command}
use structure_of_os.Bank.Replay.{effect, commands, AllSeparate}
use structure_of_os.Bank.Fees.{rand_fee}
use structure_of_os.Bank.Fees.Ledger.{everyone_pays}
use structure_of_os.Bank.System.{Atm, Turn, atm_turn, fee_turn, print_turn}

-- An ATM after its next line.
abbrev pub skip_line : Atm → Text → Atm
skip_line a [] = a
skip_line a (c ∷ t) = record a { locals = read_line a.locals (c ∷ t) }

abbrev pub advance : Atm → Atm
advance a = elim a.lines [ [] ↦ a | line ∷ rest ↦ skip_line (record a { lines = rest }) line ]

-- The command of the next line.
abbrev pub first_command : Locals → List Text → Command
first_command old [] = nothing
first_command old ([] ∷ lines) = nothing
first_command old ((c ∷ t) ∷ lines) = command (read_line old (c ∷ t))

abbrev pub advance_at : List Atm → ℕ → List Atm
advance_at atms i = elim (get_elem? atms i) [ none ↦ atms | some a ↦ set atms i (advance a) ]

abbrev pub atms_after : List Atm → Turn → List Atm
atms_after atms (atm_turn i) = advance_at atms i
atms_after atms (fee_turn r) = atms
atms_after atms print_turn = atms

abbrev pub atms_left : List Atm → List Turn → List Atm
atms_left atms [] = atms
atms_left atms (t ∷ turns) = atms_left (atms_after atms t) turns

-- What a turn does to the ledger.
abbrev pub line_effect : Option Atm → Ledger → Ledger
line_effect none l = l
line_effect (some a) l = (effect a.id (first_command a.locals a.lines) l).0

module _ (fee_of : ℕ → ℤ → ℤ) where
  abbrev pub turn_effect : List Atm → Turn → Ledger → Ledger
  turn_effect atms (atm_turn i) l = line_effect (get_elem? atms i) l
  turn_effect atms (fee_turn r) l = everyone_pays fee_of (rand_fee r) l
  turn_effect atms print_turn l = l

  abbrev pub history : List Atm → List Turn → Ledger → Ledger
  history atms [] l = l
  history atms (t ∷ turns) l = history (atms_after atms t) turns (turn_effect atms t l)

-- No transfer among the lines that are left names one account twice.
abbrev pub Ready : Atm → Type 0
Ready a = AllSeparate (commands a.locals a.lines)

abbrev pub AllReady : List Atm → Type 0
AllReady atms = (i : ℕ) (a : Atm) → get_elem? atms i ≡ some a → Ready a

-- The thread of an ATM's turn.
abbrev thread_of : Turn → ℕ
thread_of (atm_turn i) = i
thread_of (fee_turn r) = 0
thread_of print_turn = 0

advance-Ready :
    (id : ℕ) (path : Text) (old : Locals) (lines : List Text)
    → AllSeparate (commands old lines)
    → Ready (advance (record { id = id; file_path = path; lines = lines; locals = old }))
advance-Ready id path old [] r = r
advance-Ready id path old ([] ∷ lines) r = r
advance-Ready id path old ((c ∷ t) ∷ lines) r = r.1

-- What a line makes of the ATM whose turn it is, and what stays true of the others.
pub all-after :
    (P Q : ℕ → Atm → Type 0) (atms : List Atm) (t : Turn)
    → ((i : ℕ) (a : Atm) → t ≡ atm_turn i → P i a → Q i (advance a))
    → ((i : ℕ) (a : Atm) → t ≢ atm_turn i → P i a → Q i a)
    → ((i : ℕ) (a : Atm) → get_elem? atms i ≡ some a → P i a)
    → (i : ℕ) (a : Atm) → get_elem? (atms_after atms t) i ≡ some a
    → Q i a
all-after P Q atms (atm_turn j) moves stays all i a e = elim (Option-cases (get_elem? atms j)) [
  | inl out ↦ elim (Bool-cases (j == i)) [
    | inl same ↦ cc (out, (==_iff j i).0 same, rw (advance_at, out) at e)
    | inr other ↦
        stays i a (λ t. cc (other, (==_iff j i).1 (ap thread_of t)))
          (all i a (rw (advance_at, out) at e))
  ]
  | inr (b, here) ↦ elim (Bool-cases (j == i)) [
    | inl same ↦
        let at_j : j ≡ i = (==_iff j i).0 same in
        let new : get_elem? (set atms j (advance b)) j ≡ some a =
          rw (advance_at, here, ← at_j) at e in
        let is : some (advance b) ≡ some a =
          sym (get_elem?-set_self atms j here (advance b)) ∙ new in
        rw (← some-injective (advance b) a is, ← at_j) (moves j b refl (all j b here))
    | inr other ↦
        let apart : j ≢ i = λ e'. cc (other, (==_iff j i).1 e') in
        stays i a (λ t. apart (ap thread_of t))
          (all i a
            (sym (get_elem?-set_ne atms j i (advance b) apart) ∙ (rw (advance_at, here) at e)))
  ]
]
all-after P Q atms (fee_turn r) moves stays all i a e = stays i a (λ t. cc) (all i a e)
all-after P Q atms print_turn moves stays all i a e = stays i a (λ t. cc) (all i a e)

pub after-AllReady : (atms : List Atm) (t : Turn) → AllReady atms → AllReady (atms_after atms t)
after-AllReady atms t ready =
    all-after (λ i. Ready) (λ i. Ready) atms t
      (λ i a e. advance-Ready a.id a.file_path a.locals a.lines) (λ i a e r. r) ready
