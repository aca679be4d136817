-- ===== src/Shell/Tokens.antt =====
-- A line of words and the spaces between them, as `strtok` cuts it (commands.cpp).
use structure_of_os.Prelude.{
  suc, ◌≤◌, ◌≡◌, ◌∙◌, refl, ap, true, false, List, [], ◌∷◌, ◌++◌, map, ⊤, Text, length, take,
  take_all, arith,
}
use structure_of_os.Shell.Words.{is_delimiter, finish_word, scan, words, tokens}

-- A word, and the delimiters behind it.
abbrev pub Piece : Type 0
Piece = Text × Text

abbrev pub word_of : Piece → Text
word_of (w, gap) = w

abbrev pub typed : List Piece → Text
typed [] = []
typed ((w, gap) ∷ l) = w ++ (gap ++ typed l)

abbrev pub AllDelimiters : Text → Type 0
AllDelimiters [] = ⊤
AllDelimiters (c ∷ t) = (is_delimiter c ≡ true) × AllDelimiters t

abbrev pub NoDelimiter : Text → Type 0
NoDelimiter [] = ⊤
NoDelimiter (c ∷ t) = (is_delimiter c ≡ false) × NoDelimiter t

abbrev pub IsCons : Text → Type 0
IsCons [] = ⊥
IsCons (c ∷ t) = ⊤

-- Words are not empty, and something stands between two of them.
abbrev pub AllApart : List Piece → Type 0
AllApart [] = ⊤
AllApart ((w, gap) ∷ []) = IsCons w × NoDelimiter w × AllDelimiters gap
AllApart ((w, gap) ∷ (p ∷ l)) =
    IsCons w × NoDelimiter w × AllDelimiters gap × IsCons gap × AllApart (p ∷ l)

scan-word :
    (w t : Text) (ws : List Text) → NoDelimiter w → scan t ≡ ([], ws) → scan (w ++ t) ≡ (w, ws)
scan-word [] t ws h e = e
scan-word (c ∷ w) t ws (plain, h) e = rw (plain, scan-word w t ws h e) refl

-- Behind delimiters a new word begins.
scan-gap : (gap t : Text) → IsCons gap → AllDelimiters gap → scan (gap ++ t) ≡ ([], words t)
scan-gap [] t some h = elim some [ ]
scan-gap (c ∷ []) t some (d, h) = rw d refl
scan-gap (c ∷ (e ∷ gap)) t some (d, h) = rw (d, scan-gap (e ∷ gap) t tt h) refl

scan-end : (gap : Text) → AllDelimiters gap → scan (gap ++ []) ≡ ([], [])
scan-end [] h = refl
scan-end (c ∷ gap) h = scan-gap (c ∷ gap) [] tt h

finish_word-IsCons : (w : Text) (ws : List Text) → IsCons w → finish_word w ws ≡ w ∷ ws
finish_word-IsCons [] ws h = elim h [ ]
finish_word-IsCons (c ∷ w) ws h = refl

words-typed : (l : List Piece) → AllApart l → words (typed l) ≡ map word_of l
words-typed [] h = refl
words-typed ((w, gap) ∷ []) (some, plain, delimiters) =
    ap (λ p. finish_word p.0 p.1) (scan-word w (gap ++ []) [] plain (scan-end gap delimiters))
    ∙ finish_word-IsCons w [] some
words-typed ((w, gap) ∷ (p ∷ l)) (some, plain, delimiters, between, h) =
    ap (λ q. finish_word q.0 q.1)
      (scan-word w (gap ++ typed (p ∷ l)) (words (typed (p ∷ l))) plain
        (scan-gap gap (typed (p ∷ l)) between delimiters))
    ∙ finish_word-IsCons w (words (typed (p ∷ l))) some
    ∙ ap (λ ws. w ∷ ws) (words-typed (p ∷ l) h)

length-map : (l : List Piece) → length (map word_of l) ≡ length l
length-map [] = refl
length-map (p ∷ l) = ap suc (length-map l)

-- A line of up to twenty words, with some delimiters between each two of them and perhaps others
-- before and behind, is cut into just these words.
pub tokens-typed :
    (lead : Text) (l : List Piece)
    → AllDelimiters lead
    → AllApart l
    → length l ≤ 20
    → tokens (lead ++ typed l) ≡ map word_of l
unfolding tokens
tokens-typed [] l d h few =
    ap (take 20) (words-typed l h) ∙ take_all 20 (map word_of l) (omega (arith, length-map l))
tokens-typed (c ∷ lead) l d h few =
    ap (λ p. take 20 (finish_word p.0 p.1)) (scan-gap (c ∷ lead) (typed l) tt d)
    ∙ ap (take 20) (words-typed l h)
    ∙ take_all 20 (map word_of l) (omega (arith, length-map l))
