-- ===== src/Bank/Replay.antt =====
-- A whole input file (`atm::parser_file`), command by command, against its specification.
use structure_of_os.Prelude.{
  ℕ, ◌+◌, ◌≡◌, ◌≢◌, refl, ap, ◌∙◌, sym, fun_ext, List, [], ◌∷◌, ◌++◌, append-nil, append_assoc,
  length, length-append, Text, arith,
}
use structure_of_os.Bank.State.{Message, Vault, idle}
use structure_of_os.Bank.Monad.{Action, done, ◌>>=◌, ◌>>◌}
use structure_of_os.Bank.Ledger
use structure_of_os.Bank.Ledger.{Ledger, Spec}
use structure_of_os.Bank.Invariant.{IsValid, view}
use structure_of_os.Bank.Kept.{Kept}
use structure_of_os.Bank.Refines.{Refines}
use structure_of_os.Bank.Refines.Protected.{
  deposit-Refines, withdrawal-Refines, check-Refines, closing-Refines,
}
use structure_of_os.Bank.Refines.Create.{create-Refines}
use structure_of_os.Bank.Refines.Transfer.{transfer-Refines}
use structure_of_os.Bank.Script.{
  Command, create, deposit, withdraw, check, close, transfer, nothing, Locals, read_line, command,
  execute, parser_file,
}

-- A command's effect on the ledger, and the lines that it adds to log.txt.
abbrev pub Effect : Type 0
Effect = Ledger → Ledger × List Message

abbrev pub one_line : Spec → Effect
one_line f l = let (l', line) = f l in (l', line ∷ [])

abbrev pub effect : ℕ → Command → Effect
effect atm (create id w b) = one_line (Ledger.create atm id w b)
effect atm (deposit id w x) = one_line (Ledger.deposit atm id w x)
effect atm (withdraw id w x) = one_line (Ledger.withdraw atm id w x)
effect atm (check id w) = one_line (Ledger.check atm id w)
effect atm (close id w) = one_line (Ledger.close atm id w)
effect atm (transfer s w t x) = one_line (Ledger.transfer atm s w t x)
effect atm nothing = λ l. (l, [])

-- The commands that the lines of a file ask for, from the values of the variables before.
abbrev pub commands : Locals → List Text → List Command
commands old [] = []
commands old ([] ∷ lines) = commands old lines
commands old ((c ∷ t) ∷ lines) =
    command (read_line old (c ∷ t)) ∷ commands (read_line old (c ∷ t)) lines

-- One effect after another.
abbrev pub followed_by : Effect → Effect → Effect
followed_by f g l = let (l', new) = f l in let (l'', rest) = g l' in (l'', new ++ rest)

abbrev pub replay : ℕ → List Command → Effect
replay atm [] = λ l. (l, [])
replay atm (c ∷ cs) = followed_by (effect atm c) (replay atm cs)

-- A transfer names two accounts; nothing is asked of any other command.
abbrev pub Separate : Command → Type 0
Separate (transfer s w t x) = s ≢ t
Separate _ = Unit

abbrev pub AllSeparate : List Command → Type 0
AllSeparate [] = Unit
AllSeparate (c ∷ cs) = Separate c × AllSeparate cs

-- The run returns with every lock free; the ledger and the log are as the effect says.
pub record Achieves (m : Action Unit) (f : Effect) (v : Vault) : Type 0 where
  pub result : Vault
  pub runs : m (idle v) ≡ done tt (idle result)
  pub keeps : IsValid result
  pub ledger : view result ≡ (f (view v)).0
  pub logged : result.log ≡ v.log ++ (f (view v)).1
  pub waited : result.slept ≡ v.slept + length (f (view v)).1
  pub same_money : result.balance ≡ v.balance
  pub kept : Kept v → Kept result

Achieves-one_line :
    {m : Action Unit} {f : Spec} (v : Vault) → Refines m f v → Achieves m (one_line f) v
Achieves-one_line v r = record {
  result = r.result;
  runs = r.runs;
  keeps = r.keeps;
  ledger = fun_ext r.ledger;
  logged = r.logged;
  waited = r.waited;
  same_money = r.same_money;
  kept = r.kept;
}

Achieves-followed_by :
    {m n : Action Unit} {f g : Effect} (v : Vault)
    → Achieves m f v
    → ((u : Vault) → IsValid u → Achieves n g u)
    → Achieves (m >> n) (followed_by f g) v
Achieves-followed_by {n} {f} {g} v a next = record {
  result = b.result;
  runs = rw (a.runs, ◌>>◌, ◌>>=◌) b.runs;
  keeps = b.keeps;
  ledger = rw (← a.ledger) b.ledger;
  logged =
      b.logged
      ∙ ap (λ t. t ++ (g (view a.result)).1) a.logged
      ∙ append_assoc v.log (f (view v)).1 (g (view a.result)).1
      ∙ ap (λ l. v.log ++ ((f (view v)).1 ++ (g l).1)) a.ledger;
  waited =
      rw (← a.ledger)
        (omega (arith, a.waited, b.waited, length-append {0} (f (view v)).1 (g (view a.result)).1));
  same_money = b.same_money ∙ a.same_money;
  kept = λ k. b.kept (a.kept k);
}
  where
    b : Achieves n g a.result
    b = next a.result a.keeps

pub execute-Achieves :
    (atm : ℕ) (c : Command) (v : Vault)
    → Separate c
    → IsValid v
    → Achieves (execute atm c) (effect atm c) v
unfolding execute
execute-Achieves atm (create id w b) v s valid =
    Achieves-one_line v (create-Refines atm id w b v valid)
execute-Achieves atm (deposit id w x) v s valid =
    Achieves-one_line v (deposit-Refines atm id w x v valid)
execute-Achieves atm (withdraw id w x) v s valid =
    Achieves-one_line v (withdrawal-Refines atm id w x v valid)
execute-Achieves atm (check id w) v s valid = Achieves-one_line v (check-Refines atm id w v valid)
execute-Achieves atm (close id w) v s valid = Achieves-one_line v (closing-Refines atm id w v valid)
execute-Achieves atm (transfer p w t x) v s valid =
    Achieves-one_line v (transfer-Refines atm p w t x v s valid)
execute-Achieves atm nothing v s valid = record {
  result = v;
  runs = refl;
  keeps = valid;
  ledger = refl;
  logged = sym (append-nil v.log);
  waited = omega arith;
  same_money = refl;
  kept = λ k. k;
}

-- Over a valid bank with all locks free the input file is read to its end: each command does to the
-- ledger and to log.txt what the specification says of it, in order, with one wait each; all locks
-- are free afterwards, the bank is valid again, its own money is unchanged, and its maps are kept
-- where they were. No transfer in the file may name one account twice.
pub parser_file-Achieves :
    (atm : ℕ) (old : Locals) (lines : List Text) (v : Vault)
    → AllSeparate (commands old lines)
    → IsValid v
    → Achieves (parser_file atm old lines) (replay atm (commands old lines)) v
unfolding parser_file
parser_file-Achieves atm old [] v s valid = record {
  result = v;
  runs = refl;
  keeps = valid;
  ledger = refl;
  logged = sym (append-nil v.log);
  waited = omega arith;
  same_money = refl;
  kept = λ k. k;
}
parser_file-Achieves atm old ([] ∷ lines) v s valid = parser_file-Achieves atm old lines v s valid
parser_file-Achieves atm old ((c ∷ t) ∷ lines) v s valid =
    Achieves-followed_by v (execute-Achieves atm (command (read_line old (c ∷ t))) v s.0 valid)
      (λ u ok. parser_file-Achieves atm (read_line old (c ∷ t)) lines u s.1 ok)
