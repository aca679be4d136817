-- ===== src/Bank/Written/Tests.antt =====
-- A file that is written as it is meant.
use structure_of_os.Prelude.{pos, negsuc, ◌≡◌, refl, true, false, List, [], ◌∷◌, map, bytes, arith}
use structure_of_os.Bank.State.{new_bank}
use structure_of_os.Bank.Invariant.{IsValid}
use structure_of_os.Bank.Script.{Locals, transfer, read_line, command, parser_file}
use structure_of_os.Bank.Replay.{AllSeparate, Achieves, replay}
use structure_of_os.Bank.Numerals.{Numeral}
use structure_of_os.Bank.Written.{
  Order, open_it, pay_in, move, written, meant, CanWrite, AllWritable, command-written,
  written-Achieves,
}

abbrev old : Locals
old = record {
  action = 0;
  account_id = pos 3;
  account_password = [];
  amount = pos 0;
  target_account_id = pos 9;
}

abbrev twelve : Numeral
twelve = record { negative = false; leading = 1; others = 2 ∷ [] }

abbrev seven : Numeral
seven = record { negative = false; leading = 0; others = 7 ∷ [] }

abbrev minus_five : Numeral
minus_five = record { negative = true; leading = 5; others = [] }

line_of_move : written (move twelve (bytes "pw") seven minus_five) ≡ bytes "T 12 pw 07 -5"
line_of_move = refl

abbrev move-CanWrite : CanWrite (move twelve (bytes "pw") seven minus_five)
move-CanWrite = ground arith

command-written_example :
    command (read_line old (written (move twelve (bytes "pw") seven minus_five)))
    ≡ transfer (pos 12) (bytes "pw") (pos 7) (negsuc 4)
command-written_example =
    command-written old (move twelve (bytes "pw") seven minus_five) move-CanWrite

abbrev orders : List Order
orders =
    open_it twelve (bytes "pw") seven
    ∷ pay_in twelve (bytes "pw") minus_five
    ∷ move twelve (bytes "pw") seven minus_five
    ∷ []

orders-AllWritable : AllWritable orders
orders-AllWritable = ground arith

orders-AllSeparate : AllSeparate (map meant orders)
orders-AllSeparate = ground arith

nothing-IsValid : IsValid new_bank.vault
nothing-IsValid id p e = cc

written-Achieves_example :
    Achieves (parser_file 1 old (map written orders)) (replay 1 (map meant orders)) new_bank.vault
written-Achieves_example =
    written-Achieves 1 old orders new_bank.vault orders-AllWritable orders-AllSeparate
      nothing-IsValid
