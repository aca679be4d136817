-- ===== src/Bank/Repeats.antt =====
-- Lines of an input file that are not empty and yet name no command.
use structure_of_os.Prelude.{ℕ, ◌≡◌, ◌∷◌, [], List, Text, skip_space, ◌==◌, Bool-cases, inl, inr}
use structure_of_os.Bank.Monad.{◌>>◌}
use structure_of_os.Bank.Script.{Locals, is_amount_action, read_line, command, execute, parser_file}

-- No value can be read, so the variables keep what the line before left in them.
read_line-blank : (old : Locals) (line : Text) → skip_space line ≡ [] → read_line old line ≡ old
unfolding read_line
read_line-blank old line blank = rw blank (elim (Bool-cases (is_amount_action old.action)) [
  | inl same ↦ rw same
  | inr other ↦
      rw other (elim (Bool-cases (old.action == b'T')) [ inl same ↦ rw same | inr ne ↦ rw ne ])
])

-- A line of white space only, which is not empty, makes the ATM carry out the command of the line
-- before it a second time.
pub parser_file-repeats :
    (atm : ℕ) (old : Locals) (c d : ℕ) (line blank : Text) (lines : List Text)
    → skip_space (d ∷ blank) ≡ []
    → parser_file atm old ((c ∷ line) ∷ (d ∷ blank) ∷ lines) ≡ (
        let new = read_line old (c ∷ line) in
        execute atm (command new) >> (execute atm (command new) >> parser_file atm new lines))
unfolding parser_file
parser_file-repeats atm old c d line blank lines h =
    rw (read_line-blank (read_line old (c ∷ line)) (d ∷ blank) h)
