-- ===== src/Bank/Script.antt =====
-- `atm::parser_file`: the commands of an ATM's input file. A `stringstream` is the text that is
-- left and its fail bit; a value that cannot be read leaves the variable as the last line set it.
use structure_of_os.Prelude.{
  ℕ, zero, suc, ℤ, pos, negsuc, Bool, true, false, ◌||◌, List, [], ◌∷◌, Text, ⊤, leb, ◌==◌,
  is_space, skip_space, is_digit, digits, if◌then◌else◌,
}
use structure_of_os.Bank.Monad.{Action, pure, ◌>>◌}
use structure_of_os.Bank.Atm.{
  create_account, deposit_to_account, withdrawal_from_account, balance_check, closing_account,
  transfer_between_accounts,
}

pub record Stream : Type 0 where
  pub rest : Text
  pub failed : Bool

-- The variables of `parser_file`, which live across the lines.
pub record Locals : Type 0 where
  pub action : ℕ
  pub account_id : ℤ
  pub account_password : Text
  pub amount : ℤ
  pub target_account_id : ℤ

-- Out of range, `>>` stores the nearest `int` and fails.
abbrev pub clamp_pos : ℕ × Text → ℤ × Stream
clamp_pos (n, t) =
    if leb n 2147483647
    then (pos n, record { rest = t; failed = false })
    else (pos 2147483647, record { rest = t; failed = true })

abbrev pub clamp_neg : ℕ × Text → ℤ × Stream
clamp_neg (zero, t) = (pos 0, record { rest = t; failed = false })
clamp_neg (suc n, t) =
    if leb n 2147483647
    then (negsuc n, record { rest = t; failed = false })
    else (negsuc 2147483647, record { rest = t; failed = true })

-- Digits are wanted; where there are none, `>>` stores 0 and fails.
abbrev pub number : (ℕ × Text → ℤ × Stream) → Text → ℤ × Stream
number f [] = (pos 0, record { rest = []; failed = true })
number f (c ∷ t) =
    if is_digit c then f (digits 0 (c ∷ t)) else (pos 0, record { rest = c ∷ t; failed = true })

-- With `old` the value of the variable before.
abbrev pub int_at : ℤ → Text → ℤ × Stream
int_at old [] = (old, record { rest = []; failed = true })
int_at old (c ∷ t) =
    if c == b'-'
    then number clamp_neg t
    else if c == b'+'
    then number clamp_pos t
    else number clamp_pos (c ∷ t)

-- `stream >> int`
abbrev pub read_int : ℤ → Stream → ℤ × Stream
read_int old s = if s.failed then (old, s) else int_at old (skip_space s.rest)

abbrev pub char_at : ℕ → Text → ℕ × Stream
char_at old [] = (old, record { rest = []; failed = true })
char_at old (c ∷ t) = (c, record { rest = t; failed = false })

-- `stream >> char`
abbrev pub read_char : ℕ → Stream → ℕ × Stream
read_char old s = if s.failed then (old, s) else char_at old (skip_space s.rest)

-- The text up to the next space, and the rest.
abbrev pub word : Text → Text × Text
word [] = ([], [])
word (c ∷ t) = let (w, r) = word t in if is_space c then ([], c ∷ t) else (c ∷ w, r)

abbrev pub word_at : Text → Text → Text × Stream
word_at old [] = (old, record { rest = []; failed = true })
word_at old (c ∷ t) = let (w, r) = word (c ∷ t) in (w, record { rest = r; failed = false })

-- `stream >> string`
abbrev pub read_word : Text → Stream → Text × Stream
read_word old s = if s.failed then (old, s) else word_at old (skip_space s.rest)

-- What one line asks an ATM to do; `nothing` is the `default` of the `switch`.
pub data Command : Type 0 where
  create : (id : ℤ) (password : Text) (balance : ℤ) → Command
  deposit : (id : ℤ) (password : Text) (amount : ℤ) → Command
  withdraw : (id : ℤ) (password : Text) (amount : ℤ) → Command
  check : (id : ℤ) (password : Text) → Command
  close : (id : ℤ) (password : Text) → Command
  transfer : (source : ℤ) (password : Text) (target amount : ℤ) → Command
  nothing : Command

-- The first three values of a line.
abbrev pub read_head : Locals → Text → Locals × Stream
read_head old line =
    let (a, s) = read_char old.action (record { rest = line; failed = false }) in
    let (i, s') = read_int old.account_id s in
    let (w, s'') = read_word old.account_password s' in
    (record old { action = a; account_id = i; account_password = w }, s'')

abbrev pub read_amount : Locals × Stream → Locals
read_amount (v, s) = record v { amount = (read_int v.amount s).0 }

abbrev pub read_target : Locals × Stream → Locals × Stream
read_target (v, s) =
    let (t, s') = read_int v.target_account_id s in (record v { target_account_id = t }, s')

abbrev pub is_amount_action : ℕ → Bool
is_amount_action a = a == b'O' || (a == b'D' || a == b'W')

-- The variables after one line.
unfoldable pub read_line : Locals → Text → Locals
read_line old line =
    let head = read_head old line in
    if is_amount_action head.0.action
    then read_amount head
    else if head.0.action == b'T'
    then read_amount (read_target head)
    else head.0

-- The `switch`
unfoldable pub command : Locals → Command
command v =
    if v.action == b'O'
    then create v.account_id v.account_password v.amount
    else if v.action == b'D'
    then deposit v.account_id v.account_password v.amount
    else if v.action == b'W'
    then withdraw v.account_id v.account_password v.amount
    else if v.action == b'B'
    then check v.account_id v.account_password
    else if v.action == b'Q'
    then close v.account_id v.account_password
    else if v.action == b'T'
    then transfer v.account_id v.account_password v.target_account_id v.amount
    else nothing

unfoldable pub execute : ℕ → Command → Action ⊤
unfolding create_account deposit_to_account withdrawal_from_account balance_check closing_account
    transfer_between_accounts
execute atm (create id password balance) = create_account atm id password balance
execute atm (deposit id password amount) = deposit_to_account atm id password amount
execute atm (withdraw id password amount) = withdrawal_from_account atm id password amount
execute atm (check id password) = balance_check atm id password
execute atm (close id password) = closing_account atm id password
execute atm (transfer source password target amount) =
    transfer_between_accounts atm source password target amount
execute atm nothing = pure tt

-- `atm::parser_file` over the lines of the file; an empty line is skipped.
unfoldable pub parser_file : ℕ → Locals → List Text → Action ⊤
parser_file atm old [] = pure tt
parser_file atm old ([] ∷ lines) = parser_file atm old lines
parser_file atm old ((c ∷ t) ∷ lines) =
    let new = read_line old (c ∷ t) in execute atm (command new) >> parser_file atm new lines
