-- ===== src/Bank/Written.antt =====
-- The lines of an input file as they are meant to be written, for `atm::parser_file` (atm.cpp): an
-- action, an account, a password and the rest, with a space between.
mod Tests
use structure_of_os.Prelude.{
  ℕ, zero, suc, ◌+◌, ◌-◌, ◌*◌, ◌≤◌, ◌<◌, ℤ, pos, negsuc, ◌≡◌, refl, Bool, true, false, List, [],
  ◌∷◌, ◌++◌, map, append_assoc, append-nil, ⊤, Text, leb, ◌==◌, is_space, skip_space, is_digit,
  digits, ap, ◌∙◌, arith, if◌then◌else◌, Bool-cases, inl, inr,
}
use structure_of_os.Bank.Script.{
  Stream, Locals, clamp_pos, clamp_neg, number, int_at, read_int, read_char, word, word_at,
  read_word, Command, create, deposit, withdraw, check, close, transfer, read_head, read_amount,
  read_target, read_line, command, is_amount_action,
}
use structure_of_os.Bank.State.{Vault}
use structure_of_os.Bank.Invariant.{IsValid}
use structure_of_os.Bank.Script.{parser_file}
use structure_of_os.Bank.Replay.{commands, AllSeparate, Achieves, replay, parser_file-Achieves}
use structure_of_os.Bank.Numerals.{
  Numeral, text_of, value_of, FitsInt, EndsWord, IsWord, going_on, read_int-text_of,
  read_word-written,
}

-- What a line is meant to say.
pub data Order : Type 0 where
  open_it : (id : Numeral) (password : Text) (balance : Numeral) → Order
  pay_in : (id : Numeral) (password : Text) (amount : Numeral) → Order
  take_out : (id : Numeral) (password : Text) (amount : Numeral) → Order
  show : (id : Numeral) (password : Text) → Order
  close_it : (id : Numeral) (password : Text) → Order
  move : (source : Numeral) (password : Text) (target amount : Numeral) → Order

abbrev head_of : ℕ → Numeral → Text → Text → Text
head_of action id password rest = action ∷ 32 ∷ (text_of id ++ 32 ∷ (password ++ rest))

-- The line.
abbrev pub written : Order → Text
written (open_it id w b) = head_of b'O' id w (32 ∷ text_of b ++ [])
written (pay_in id w x) = head_of b'D' id w (32 ∷ text_of x ++ [])
written (take_out id w x) = head_of b'W' id w (32 ∷ text_of x ++ [])
written (show id w) = head_of b'B' id w []
written (close_it id w) = head_of b'Q' id w []
written (move s w t x) = head_of b'T' s w (32 ∷ (text_of t ++ 32 ∷ (text_of x ++ [])))

-- The command.
abbrev pub meant : Order → Command
meant (open_it id w b) = create (value_of id) w (value_of b)
meant (pay_in id w x) = deposit (value_of id) w (value_of x)
meant (take_out id w x) = withdraw (value_of id) w (value_of x)
meant (show id w) = check (value_of id) w
meant (close_it id w) = close (value_of id) w
meant (move s w t x) = transfer (value_of s) w (value_of t) (value_of x)

-- The numbers fit in an `int` and the password is one word.
abbrev pub CanWrite : Order → Type 0
CanWrite (open_it id w b) = FitsInt id × IsWord w × FitsInt b
CanWrite (pay_in id w x) = FitsInt id × IsWord w × FitsInt x
CanWrite (take_out id w x) = FitsInt id × IsWord w × FitsInt x
CanWrite (show id w) = FitsInt id × IsWord w
CanWrite (close_it id w) = FitsInt id × IsWord w
CanWrite (move s w t x) = FitsInt s × IsWord w × FitsInt t × FitsInt x

-- What is read behind the action, and behind the account.
abbrev behind_action : Locals → ℕ → ℤ × Stream → Locals × Stream
behind_action old a (i, s) =
    let (w, s') = read_word old.account_password s in
    (record old { action = a; account_id = i; account_password = w }, s')

abbrev behind_account : Locals → ℕ → ℤ → Text × Stream → Locals × Stream
behind_account old a i (w, s) = (record old { action = a; account_id = i; account_password = w }, s)

read_head-plain :
    (old : Locals) (a : ℕ) (t : Text)
    → is_space a ≡ false
    → read_head old (a ∷ t) ≡ behind_action old a (read_int old.account_id (going_on t))
read_head-plain old a t plain = rw plain refl

abbrev head_read : Locals → ℕ → Numeral → Text → Text → Locals × Stream
head_read old a id w rest =
    (record old { action = a; account_id = value_of id; account_password = w }, going_on rest)

read_head-head_of :
    (old : Locals) (a : ℕ) (id : Numeral) (w rest : Text)
    → is_space a ≡ false
    → FitsInt id
    → IsWord w
    → EndsWord rest
    → read_head old (head_of a id w rest) ≡ head_read old a id w rest
read_head-head_of old a id w rest plain fits is_word e =
    read_head-plain old a (32 ∷ (text_of id ++ 32 ∷ (w ++ rest))) plain
    ∙ ap (behind_action old a) (read_int-text_of old.account_id id (32 ∷ (w ++ rest)) fits refl)
    ∙ ap (behind_account old a (value_of id))
        (read_word-written old.account_password w rest is_word e)

-- The rest of `read_line`.
abbrev read_rest : Locals × Stream → Locals
read_rest head =
    if is_amount_action head.0.action
    then read_amount head
    else if head.0.action == b'T'
    then read_amount (read_target head)
    else head.0

read_line-head :
    (old : Locals) (line : Text) (head : Locals × Stream)
    → read_head old line ≡ head
    → command (read_line old line) ≡ command (read_rest head)
unfolding read_line command
read_line-head old line head e = ap (λ h. command (read_rest h)) e

amount-read :
    (old : ℤ) (n : Numeral) (f : ℤ → Command)
    → FitsInt n
    → f (read_int old (going_on (32 ∷ text_of n ++ []))).0 ≡ f (value_of n)
amount-read old n f fits = ap (λ p. f p.0) (read_int-text_of old n [] fits tt)

-- A line that is written as it is meant, with its numbers in the range of an int and a password of
-- one word, is read as it is meant, whatever the lines before it left
-- in the variables.
pub command-written :
    (old : Locals) (o : Order) → CanWrite o → command (read_line old (written o)) ≡ meant o
unfolding command
command-written old (show id w) (fits, is_word) =
    read_line-head old _ _ (read_head-head_of old b'B' id w [] refl fits is_word tt)
command-written old (close_it id w) (fits, is_word) =
    read_line-head old _ _ (read_head-head_of old b'Q' id w [] refl fits is_word tt)
command-written old (open_it id w b) (fits, is_word, small) =
    read_line-head old _ _
      (read_head-head_of old b'O' id w (32 ∷ text_of b ++ []) refl fits is_word refl)
    ∙ amount-read old.amount b (create (value_of id) w) small
command-written old (pay_in id w x) (fits, is_word, small) =
    read_line-head old _ _
      (read_head-head_of old b'D' id w (32 ∷ text_of x ++ []) refl fits is_word refl)
    ∙ amount-read old.amount x (deposit (value_of id) w) small
command-written old (take_out id w x) (fits, is_word, small) =
    read_line-head old _ _
      (read_head-head_of old b'W' id w (32 ∷ text_of x ++ []) refl fits is_word refl)
    ∙ amount-read old.amount x (withdraw (value_of id) w) small
command-written old (move s w t x) (fits, is_word, near, small) =
    read_line-head old _ _ (
      read_head-head_of old b'T' s w (32 ∷ (text_of t ++ 32 ∷ (text_of x ++ []))) refl fits is_word
        refl)
    ∙ ap (λ p. transfer (value_of s) w p.0 (read_int old.amount p.1).0)
        (read_int-text_of old.target_account_id t (32 ∷ (text_of x ++ [])) near refl)
    ∙ amount-read old.amount x (transfer (value_of s) w (value_of t)) small

written-cons : (o : Order) → (c : ℕ) × (t : Text) × (written o ≡ c ∷ t)
written-cons (open_it id w b) = (_, _, refl)
written-cons (pay_in id w x) = (_, _, refl)
written-cons (take_out id w x) = (_, _, refl)
written-cons (show id w) = (_, _, refl)
written-cons (close_it id w) = (_, _, refl)
written-cons (move s w t x) = (_, _, refl)

commands-cons :
    (old : Locals) (line : Text) (c : ℕ) (t : Text) (lines : List Text)
    → line ≡ c ∷ t
    → commands old (line ∷ lines)
      ≡ command (read_line old line) ∷ commands (read_line old line) lines
commands-cons old line c t lines e = rw e refl

abbrev pub AllWritable : List Order → Type 0
AllWritable [] = ⊤
AllWritable (o ∷ os) = CanWrite o × AllWritable os

pub commands-written :
    (old : Locals) (os : List Order) → AllWritable os → commands old (map written os) ≡ map meant os
commands-written old [] h = refl
commands-written old (o ∷ os) (can, h) =
    let (c, t, e) = written-cons o in
    commands-cons old (written o) c t (map written os) e
    ∙ ap (λ d. d ∷ commands (read_line old (written o)) (map written os))
        (command-written old o can)
    ∙ ap (λ ds. meant o ∷ ds) (commands-written (read_line old (written o)) os h)

-- A file whose lines are written as they are meant, with their numbers in the range of an int and
-- passwords of one word, is carried out as it is meant: over a valid bank with all locks free the ATM
-- does to the ledger and to log.txt what the specification says of the commands that are meant, in
-- order. No transfer among them may name one account twice.
pub written-Achieves :
    (atm : ℕ) (old : Locals) (os : List Order) (v : Vault)
    → AllWritable os
    → AllSeparate (map meant os)
    → IsValid v
    → Achieves (parser_file atm old (map written os)) (replay atm (map meant os)) v
written-Achieves atm old os v can separate valid =
    let same = commands-written old os can in
    let a = parser_file-Achieves atm old (map written os) v (rw same separate) valid in
    rw (← same) a
