-- ===== src/Prelude/Chars.antt =====
-- Characters and numerals in C strings, as the C library reads them.
use Prim.Native.Nat.{ℕ, zero, suc, ◌+◌, ◌-◌, ◌*◌}
use mathlib.Core.Bool.{Bool, ◌&&◌, ◌||◌}
use mathlib.Core.List.{[], ◌∷◌}
use structure_of_os.Prelude.Tests.{leb, ◌==◌, if◌then◌else◌}
use structure_of_os.Prelude.Lists.{Text}
use structure_of_os.Prelude.Signed.{ℤ, pos, negsuc}
use structure_of_os.Prelude.Int.{int32}

-- `isspace`
abbrev pub is_space : ℕ → Bool
is_space c = c == 32 || (leb 9 c && leb c 13)

abbrev pub skip_space : Text → Text
skip_space [] = []
skip_space (c ∷ t) = if is_space c then skip_space t else c ∷ t

abbrev pub is_digit : ℕ → Bool
is_digit c = leb b'0' c && leb c b'9'

-- The number that the digits at the front continue, and the text behind them.
abbrev pub digits : ℕ → Text → ℕ × Text
digits n [] = (n, [])
digits n (c ∷ t) = if is_digit c then digits (n * 10 + (c - 48)) t else (n, c ∷ t)

abbrev long_pos : ℕ → ℤ
long_pos n = if leb n 9223372036854775807 then pos n else pos 9223372036854775807

abbrev long_neg : ℕ → ℤ
long_neg zero = pos 0
long_neg (suc n) = if leb n 9223372036854775807 then negsuc n else negsuc 9223372036854775807

abbrev signed : Text → ℤ
signed [] = pos 0
signed (c ∷ t) =
    if c == b'-'
    then long_neg (digits 0 t).0
    else if c == b'+'
    then long_pos (digits 0 t).0
    else long_pos (digits 0 (c ∷ t)).0

-- `atoi`, which is the low half of `strtol`: what is no number is 0.
unfoldable pub atoi : Text → ℤ
unfolding int32
atoi t = int32 (signed (skip_space t))
