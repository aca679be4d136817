-- ===== src/Server/Io.antt =====
-- The world of the server: files, datagrams, and system calls that may fail.
use structure_of_os.Prelude.{
  ℕ, ◌==◌, ◌&&◌, Bool, true, Option, none, some, List, [], ◌∷◌, ◌++◌, Text, ⊤, text_eq,
  if◌then◌else◌,
}

-- `struct sockaddr_in`: the two fields that the code compares
pub record Address : Type 0 where
  pub ip : ℕ
  pub port : ℕ

abbrev pub same_address : Address → Address → Bool
same_address a b = a.ip == b.ip && a.port == b.port

pub record Datagram : Type 0 where
  pub to : Address
  pub payload : Text

-- `answers` says of each system call to come whether it succeeds; when it is used up, all do.
pub record World : Type 0 where
  pub files : List (Text × Text)
  pub sent : List Datagram
  pub answers : List Bool

-- A call returns; the process exits (`sys_call_error`); or it reads past the end of a buffer.
pub data Outcome (A : Type 0) : Type 0 where
  done : A → World → Outcome A
  exited : World → Outcome A
  overrun : World → Outcome A

abbrev pub Io : Type 0 → Type 0
Io A = World → Outcome A

abbrev pub pure : {A : Type 0} → A → Io A
pure a w = done a w

infixl 5 ◌>>=◌ ◌>>◌
abbrev pub ◌>>=◌ : {A B : Type 0} → Io A → (A → Io B) → Io B
◌>>=◌ m f w = elim (m w) [ done a w' ↦ f a w' | exited w' ↦ exited w' | overrun w' ↦ overrun w' ]

abbrev pub ◌>>◌ : {B : Type 0} → Io ⊤ → Io B → Io B
m >> k = m >>= λ _. k

abbrev pub gets : {A : Type 0} → (World → A) → Io A
gets f w = done (f w) w

abbrev pub modify : (World → World) → Io ⊤
modify f w = done tt (f w)

abbrev pop : List Bool → Bool × List Bool
pop [] = (true, [])
pop (b ∷ l) = (b, l)

-- Whether the next system call succeeds.
abbrev pub succeeds : Io Bool
succeeds w = let (b, l) = pop w.answers in done b (record w { answers = l })

-- `sys_call_error`
abbrev pub sys_call_error : {A : Type 0} → Io A
sys_call_error w = exited w

-- `sendto`, and the exit where it fails
abbrev pub send_or_exit : Datagram → Io ⊤
send_or_exit d = do
  ok ← succeeds
  if ok then modify (λ w. record w { sent = w.sent ++ d ∷ [] }) else sys_call_error

abbrev pub content : Text → List (Text × Text) → Option Text
content name [] = none
content name ((n, c) ∷ fs) = if text_eq n name then some c else content name fs

abbrev pub put_file : Text → Text → List (Text × Text) → List (Text × Text)
put_file name c [] = (name, c) ∷ []
put_file name c ((n, d) ∷ fs) = if text_eq n name then (n, c) ∷ fs else (n, d) ∷ put_file name c fs

abbrev pub add_to_file : Text → Text → List (Text × Text) → List (Text × Text)
add_to_file name c [] = []
add_to_file name c ((n, d) ∷ fs) =
    if text_eq n name then (n, d ++ c) ∷ fs else (n, d) ∷ add_to_file name c fs

abbrev pub remove_file : Text → List (Text × Text) → List (Text × Text)
remove_file name [] = []
remove_file name ((n, c) ∷ fs) = if text_eq n name then fs else (n, c) ∷ remove_file name fs

-- `delete_file`
unfoldable pub delete_file : Text → Io ⊤
delete_file name = do
  ok ← succeeds
  if ok then modify (λ w. record w { files = remove_file name w.files }) else sys_call_error
