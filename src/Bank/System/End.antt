-- ===== src/Bank/System/End.antt =====
-- How `main` of HW4 (bank.cpp) ends.
use structure_of_os.Prelude.{
  ℕ, zero, set, Option-cases, suc, ℤ, ◌+◌, ◌-◌, ◌≤◌, ◌≡◌, ◌∙◌, ◌≢◌, ◌↔◌, ◌⊎◌, sym, refl, ap, true,
  ◌==◌, ==_iff, Option, none, some, List, [], ◌∷◌, length, Text, get_elem?, arith, if◌then◌else◌,
  Bool-cases, inl, inr,
}
use mathlib.Core.Option.{some-injective}
use structure_of_os.Bank.State.{Vault, idle, new_bank}
use structure_of_os.Bank.Ledger.{Ledger}
use structure_of_os.Bank.Monad.{Outcome, done, ◌>>=◌}
use structure_of_os.Bank.Invariant.{view, IsValid}
use structure_of_os.Bank.Kept.{Kept}
use structure_of_os.Bank.Script.{Locals}
use structure_of_os.Bank.System.{
  numbers, delete_bank, Atm, Turn, atm_turn, fee_turn, print_turn, is_done, all_done, holds, Exit,
  exits, start, all_valid, new_atms, main,
}
use structure_of_os.Bank.System.History.{
  advance_at, advance, atms_after, atms_left, history, AllReady, all-after,
}
use structure_of_os.Bank.System.Turns.{run-Yields}
use structure_of_os.Bank.System.Free.{from, free_atms-from, LeadsTo, free_accounts-frees}

-- How often a thread has its turn.
abbrev pub turns_in : ℕ → Turn → ℕ
turns_in i (atm_turn j) = if i == j then 1 else 0
turns_in i (fee_turn r) = 0
turns_in i print_turn = 0

abbrev pub turns_of : ℕ → List Turn → ℕ
turns_of i [] = 0
turns_of i (t ∷ turns) = turns_in i t + turns_of i turns

-- Each ATM has at least as many turns as there are lines left for it.
abbrev pub Enough : List Atm → List Turn → Type 0
Enough atms turns =
    (i : ℕ) (a : Atm) → get_elem? atms i ≡ some a → length a.lines ≤ turns_of i turns

length-advance :
    (id : ℕ) (path : Text) (old : Locals) (lines : List Text)
    → let a : Atm = record { id = id; file_path = path; lines = lines; locals = old } in
      length (advance a).lines ≡ length lines - 1
length-advance id path old [] = refl
length-advance id path old ([] ∷ lines) = omega arith
length-advance id path old ((c ∷ t) ∷ lines) = omega arith

turns_in-other : (i : ℕ) (t : Turn) → t ≢ atm_turn i → turns_in i t ≡ 0
turns_in-other i (atm_turn j) ne = elim (Bool-cases (i == j)) [
  | inl same ↦ absurd (ne (ap atm_turn (sym ((==_iff i j).0 same))))
  | inr other ↦ rw other refl
]
turns_in-other i (fee_turn r) ne = refl
turns_in-other i print_turn ne = refl

after-Enough :
    (atms : List Atm) (t : Turn) (turns : List Turn)
    → Enough atms (t ∷ turns)
    → Enough (atms_after atms t) turns
after-Enough atms t turns =
    all-after (λ i a. length a.lines ≤ turns_of i (t ∷ turns))
      (λ i a. length a.lines ≤ turns_of i turns) atms t
      (λ i a e h.
        let own : turns_in i t ≡ 1 = rw e (ground arith) in
        omega (arith, length-advance a.id a.file_path a.locals a.lines, h, own))
      (λ i a ne h. omega (arith, turns_in-other i t ne, h))

is_done-short : (lines : List Text) → length lines ≤ 0 → is_done lines ≡ true
is_done-short [] h = refl
is_done-short (line ∷ lines) h = absurd (omega arith)

all_done-short :
    (atms : List Atm)
    → ((i : ℕ) (a : Atm) → get_elem? atms i ≡ some a → length a.lines ≤ 0)
    → all_done atms ≡ true
all_done-short [] h = refl
all_done-short (a ∷ atms) h =
    rw (is_done-short a.lines (h 0 a refl)) (all_done-short atms (λ i b e. h (suc i) b e))

left-all_done :
    (atms : List Atm) (turns : List Turn)
    → Enough atms turns
    → all_done (atms_left atms turns) ≡ true
left-all_done atms [] h = all_done-short atms h
left-all_done atms (t ∷ turns) h =
    left-all_done (atms_after atms t) turns (after-Enough atms t turns h)

advance-id :
    (id : ℕ) (path : Text) (old : Locals) (lines : List Text)
    → let a : Atm = record { id = id; file_path = path; lines = lines; locals = old } in
      (advance a).id ≡ id
advance-id id path old [] = refl
advance-id id path old ([] ∷ lines) = refl
advance-id id path old ((c ∷ t) ∷ lines) = refl

-- The numbers of the ATMs stay what they are.
numbers-advance :
    (atms : List Atm) (i : ℕ) (a : Atm)
    → get_elem? atms i ≡ some a
    → numbers (set atms i (advance a)) ≡ numbers atms
numbers-advance [] i a e = refl
numbers-advance (b ∷ atms) zero a e =
    let is : b ≡ a = some-injective b a e in
    ap (λ n. n ∷ numbers atms)
      (advance-id a.id a.file_path a.locals a.lines ∙ ap (λ x. x.id) (sym is))
numbers-advance (b ∷ atms) (suc i) a e = ap (λ l. b.id ∷ l) (numbers-advance atms i a e)

numbers-after : (atms : List Atm) (t : Turn) → numbers (atms_after atms t) ≡ numbers atms
numbers-after atms (atm_turn i) = elim (Option-cases (get_elem? atms i)) [
  | inl out ↦ rw (advance_at, out) refl
  | inr (a, here) ↦ rw (advance_at, here) (numbers-advance atms i a here)
]
numbers-after atms (fee_turn r) = refl
numbers-after atms print_turn = refl

numbers-left : (atms : List Atm) (turns : List Turn) → numbers (atms_left atms turns) ≡ numbers atms
numbers-left atms [] = refl
numbers-left atms (t ∷ turns) = numbers-left (atms_after atms t) turns ∙ numbers-after atms t

numbers-new_atms :
    (files : Text → Option (List Text)) (unset : ℕ → Locals) (id : ℕ) (paths : List Text)
    → numbers (new_atms files unset id paths) ≡ from id (length paths)
numbers-new_atms files unset id [] = refl
numbers-new_atms files unset id (path ∷ paths) =
    ap (λ l. id ∷ l) (numbers-new_atms files unset (suc id) paths)

pub new_bank-IsValid : IsValid new_bank.vault
new_bank-IsValid id p e = cc

pub new_bank-Kept : Kept new_bank.vault
new_bank-Kept = (tt, tt, λ id q e. cc)

-- The program ends with these ATMs and accounts freed, and its ledger is this one.
pub record Ends (m : Outcome Exit) (l : Ledger) : Type 0 where
  pub result : Vault
  pub freed_atms : List ℕ
  pub freed : List ℕ
  pub returns : m ≡ done (exits (some freed_atms) (some freed)) (idle result)
  pub ledger : view result ≡ l
  pub frees :
      (p : ℕ)
      → (holds p freed ≡ true)
        ↔ (LeadsTo result.map_of_accounts p ⊎ LeadsTo result.map_of_deleted_accounts p)

start-Ends :
    (fee_of : ℕ → ℤ → ℤ) (atms : List Atm) (turns : List Turn) (n : ℕ)
    → numbers atms ≡ from 1 n
    → AllReady atms
    → Enough atms turns
    → Ends (start fee_of atms turns new_bank) (history fee_of atms turns (λ id. none))
unfolding start
start-Ends fee_of atms turns n row ready enough =
    let r = run-Yields fee_of atms turns new_bank.vault ready new_bank-IsValid new_bank-Kept in
    let (freed_atms, frees_atms) =
      free_atms-from (atms_left atms turns) 1 n (numbers-left atms turns ∙ row) in
    let (freed, frees, which) = free_accounts-frees r.result r.valid r.kept in
    record {
      result = r.result;
      freed_atms = freed_atms;
      freed = freed;
      returns =
          rw (start, ◌>>=◌, r.runs, left-all_done atms turns enough, delete_bank, frees_atms, frees)
            refl;
      ledger = r.ledger;
      frees = which;
    }

module _ (fee_of : ℕ → ℤ → ℤ) (files : Text → Option (List Text)) (unset : ℕ → Locals) where
  -- Where the files of all arguments exist and each ATM has at least as many turns as its file has
  -- lines, in whatever order, `main` gets past its joins and returns: the ledger is what the history
  -- of the turns makes of an empty one, no ATM is freed twice, and just
  -- the accounts that a map leads to are freed, each once. No transfer of a file may name one account twice.
  pub main-Ends :
      (path : Text) (paths : List Text) (turns : List Turn)
      → all_valid files unset (path ∷ paths) ≡ true
      → AllReady (new_atms files unset 1 (path ∷ paths))
      → Enough (new_atms files unset 1 (path ∷ paths)) turns
      → Ends
          (main files unset fee_of (path ∷ paths) turns)
          (history fee_of (new_atms files unset 1 (path ∷ paths)) turns (λ id. none))
  unfolding main start
  main-Ends path paths turns valid ready enough =
      rw (main, valid)
        (start-Ends fee_of (new_atms files unset 1 (path ∷ paths)) turns (length (path ∷ paths))
          (numbers-new_atms files unset 1 (path ∷ paths)) ready enough)
