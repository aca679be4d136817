-- ===== src/Bank/Numerals.antt =====
-- Numbers and words as they stand in a line of an input file (atm.cpp), and how a `stringstream`
-- reads them.
use structure_of_os.Prelude.{
  ℕ, zero, suc, ◌+◌, ◌-◌, ◌*◌, ◌≤◌, ℤ, pos, negsuc, ◌≡◌, refl, Bool, true, false, List, [], ◌∷◌,
  ◌++◌, ⊤, Text, ◌==◌, is_space, skip_space, is_digit, digits, ap, ◌∙◌, arith, if◌then◌else◌,
}
use structure_of_os.Bank.Script.{
  Stream, clamp_pos, clamp_neg, number, read_int, word, word_at, read_word,
}

-- A number as it is written: a sign where it is negative, and at least one digit.
pub record Numeral : Type 0 where
  pub negative : Bool
  pub leading : ℕ
  pub others : List ℕ

abbrev pub AllDigits : List ℕ → Type 0
AllDigits [] = ⊤
AllDigits (d ∷ ds) = (d ≤ 9) × AllDigits ds

abbrev pub chars : List ℕ → Text
chars [] = []
chars (d ∷ ds) = (48 + d) ∷ chars ds

abbrev pub text_of : Numeral → Text
text_of n = let ds = chars (n.leading ∷ n.others) in if n.negative then b'-' ∷ ds else ds

-- The digits go on from a number.
abbrev pub value : ℕ → List ℕ → ℕ
value n [] = n
value n (d ∷ ds) = value (n * 10 + d) ds

abbrev pub magnitude : Numeral → ℕ
magnitude n = value 0 (n.leading ∷ n.others)

abbrev pub minus : ℕ → ℤ
minus zero = pos 0
minus (suc n) = negsuc n

abbrev pub value_of : Numeral → ℤ
value_of n = if n.negative then minus (magnitude n) else pos (magnitude n)

-- Its digits are digits, and an `int` can hold it.
abbrev pub FitsInt : Numeral → Type 0
FitsInt n =
    AllDigits (n.leading ∷ n.others)
    × (magnitude n ≤ (if n.negative then 2147483648 else 2147483647))

-- The text ends or goes on with a space.
abbrev pub EndsWord : Text → Type 0
EndsWord [] = ⊤
EndsWord (c ∷ t) = is_space c ≡ true

digits-chars :
    (n : ℕ) (ds : List ℕ) (t : Text)
    → AllDigits ds
    → digits n (chars ds ++ t) ≡ digits (value n ds) t
digits-chars n [] t h = refl
digits-chars n (d ∷ ds) t (small, h) =
    let next : 48 + d - 48 ≡ d = omega arith in
    let is_one : is_digit (48 + d) ≡ true = ground arith in
    rw (is_one, next) (digits-chars (n * 10 + d) ds t h)

digits-end : (n : ℕ) (t : Text) → EndsWord t → digits n t ≡ (n, t)
digits-end n [] h = refl
digits-end n (c ∷ t) h = ground arith

abbrev pub going_on : Text → Stream
going_on t = record { rest = t; failed = false }

number-chars :
    (f : ℕ × Text → ℤ × Stream) (d : ℕ) (ds : List ℕ) (t : Text)
    → AllDigits (d ∷ ds)
    → EndsWord t
    → number f (chars (d ∷ ds) ++ t) ≡ f (value 0 (d ∷ ds), t)
number-chars f d ds t h e =
    let is_one : is_digit (48 + d) ≡ true = ground arith in
    let next : 48 + d - 48 ≡ d = omega arith in
    rw (is_one, next) (ap f (digits-chars (0 + d) ds t h.1 ∙ digits-end (value 0 (d ∷ ds)) t e))

clamp_pos_fits : (n : ℕ) (t : Text) → n ≤ 2147483647 → clamp_pos (n, t) ≡ (pos n, going_on t)
clamp_pos_fits n t h = ground arith

clamp_neg_fits : (n : ℕ) (t : Text) → n ≤ 2147483648 → clamp_neg (n, t) ≡ (minus n, going_on t)
clamp_neg_fits zero t h = refl
clamp_neg_fits (suc n) t h = ground arith

-- A number behind a space is read as its value, up to the next space.
read_int-written :
    (old : ℤ) (negative : Bool) (d : ℕ) (ds : List ℕ) (t : Text)
    → let n : Numeral = record { negative = negative; leading = d; others = ds } in
      FitsInt n
      → EndsWord t
      → read_int old (going_on (32 ∷ text_of n ++ t)) ≡ (value_of n, going_on t)
read_int-written old true d ds t (h, small) e =
    number-chars clamp_neg d ds t h e ∙ clamp_neg_fits (value 0 (d ∷ ds)) t small
read_int-written old false d ds t (h, small) e =
    let no_space : is_space (48 + d) ≡ false = ground arith in
    let no_minus : (48 + d == 45) ≡ false = ground arith in
    let no_plus : (48 + d == 43) ≡ false = ground arith in
    rw (no_space, no_minus, no_plus)
      (number-chars clamp_pos d ds t h e ∙ clamp_pos_fits (value 0 (d ∷ ds)) t small)

-- A word: some characters that are no spaces.
abbrev pub NoSpaces : Text → Type 0
NoSpaces [] = ⊤
NoSpaces (c ∷ t) = (is_space c ≡ false) × NoSpaces t

abbrev pub IsWord : Text → Type 0
IsWord [] = ⊥
IsWord (c ∷ t) = NoSpaces (c ∷ t)

word-NoSpaces : (w t : Text) → NoSpaces w → EndsWord t → word (w ++ t) ≡ (w, t)
word-NoSpaces [] [] h e = refl
word-NoSpaces [] (c ∷ t) h e = rw e refl
word-NoSpaces (c ∷ w) t (plain, h) e = rw (plain, word-NoSpaces w t h e) refl

skip_space-plain : (c : ℕ) (t : Text) → is_space c ≡ false → skip_space (c ∷ t) ≡ c ∷ t
skip_space-plain c t plain = rw plain refl

read_word-plain :
    (old : Text) (c : ℕ) (t : Text)
    → is_space c ≡ false
    → read_word old (going_on (32 ∷ c ∷ t)) ≡ word_at old (c ∷ t)
read_word-plain old c t plain = ap (word_at old) (skip_space-plain c t plain)

-- A word behind a space is read up to the next space.
pub read_word-written :
    (old w t : Text)
    → IsWord w
    → EndsWord t
    → read_word old (going_on (32 ∷ w ++ t)) ≡ (w, going_on t)
read_word-written old [] t h e = elim h [ ]
read_word-written old (c ∷ w) t (plain, h) e =
    read_word-plain old c (w ++ t) plain
    ∙ ap (λ p. (p.0, going_on p.1)) (word-NoSpaces (c ∷ w) t (plain, h) e)

pub read_int-text_of :
    (old : ℤ) (n : Numeral) (t : Text)
    → FitsInt n
    → EndsWord t
    → read_int old (going_on (32 ∷ text_of n ++ t)) ≡ (value_of n, going_on t)
read_int-text_of old n t = read_int-written old n.negative n.leading n.others t
