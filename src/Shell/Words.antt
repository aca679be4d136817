-- ===== src/Shell/Words.antt =====
-- A line as `strtok` cuts it, and the names of the built-in commands.
use structure_of_os.Prelude.{
  ℕ, Bool, true, false, ◌||◌, List, [], ◌∷◌, Text, text_eq, take, bytes, ◌==◌, if◌then◌else◌,
}

-- `" \t\n"`
abbrev pub is_delimiter : ℕ → Bool
is_delimiter c = c == 32 || (c == 9 || c == 10)

-- The text up to the next delimiter.
abbrev pub first_word : Text → Text
first_word [] = []
first_word (c ∷ t) = if is_delimiter c then [] else c ∷ first_word t

-- The words of a text, by a scan that carries the word that it stands in.
abbrev pub finish_word : Text → List Text → List Text
finish_word [] ws = ws
finish_word (c ∷ w) ws = (c ∷ w) ∷ ws

abbrev pub scan : Text → Text × List Text
scan [] = ([], [])
scan (c ∷ t) =
    let (w, ws) = scan t in if is_delimiter c then ([], finish_word w ws) else (c ∷ w, ws)

abbrev pub words : Text → List Text
words t = let (w, ws) = scan t in finish_word w ws

-- `args`, of which there are at most MAX_ARG.
unfoldable pub tokens : Text → List Text
tokens t = take 20 (words t)

-- What is left of the line under its first word's end mark: the delimiters before it and the word.
abbrev pub through_first_word : Text → Text
through_first_word [] = []
through_first_word (c ∷ t) =
    let rest = through_first_word t in if is_delimiter c then c ∷ rest else first_word (c ∷ t)

abbrev pub is_in : List Text → Text → Bool
is_in [] w = false
is_in (v ∷ vs) w = text_eq v w || is_in vs w

-- `is_built_in_cmd`
abbrev pub is_built_in_cmd : Text → Bool
is_built_in_cmd = is_in (
    bytes "showpid"
    ∷ bytes "pwd"
    ∷ bytes "cd"
    ∷ bytes "jobs"
    ∷ bytes "kill"
    ∷ bytes "fg"
    ∷ bytes "bg"
    ∷ bytes "quit"
    ∷ bytes "diff"
    ∷ [])

-- The text before a last `&`, where there is one.
abbrev pub before_ampersand : Text → Bool × Text
before_ampersand [] = (false, [])
before_ampersand (c ∷ []) = if c == b'&' then (true, []) else (false, c ∷ [])
before_ampersand (c ∷ d ∷ t) = let (b, r) = before_ampersand (d ∷ t) in (b, c ∷ r)
