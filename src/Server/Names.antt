-- ===== src/Server/Names.antt =====
-- The name of the file in a write request, and the name under which the server stores it
-- (`wrq_parser` of server.cpp).
use structure_of_os.Prelude.{
  ℕ, zero, suc, ◌≡◌, ◌≢◌, refl, ap, ◌∙◌, sym, some, [], ◌∷◌, ◌++◌, append-nil, Text, length, drop,
  drop-nil, replicate,
}
use structure_of_os.Server.Io.{World, done}
use structure_of_os.Server.Packet.{htons, wrq_opcode}
use structure_of_os.Server.Request.{Wrq, c_string, as_string, copy_name, wrq_parser}

-- A name has no end mark inside.
abbrev pub IsName : Text → Type 0
IsName [] = Unit
IsName (c ∷ t) = (c ≢ 0) × IsName t

pub c_string-name : (name r : Text) → IsName name → c_string (name ++ 0 ∷ r) ≡ some name
c_string-name [] r h = refl
c_string-name (zero ∷ t) r h = absurd (h.0 refl)
c_string-name (suc c ∷ t) r h = rw (c_string-name t r h.1)

as_string-append : (name r : Text) → IsName name → as_string (name ++ r) ≡ name ++ as_string r
as_string-append [] r h = refl
as_string-append (zero ∷ t) r h = absurd (h.0 refl)
as_string-append (suc c ∷ t) r h = ap (λ l. suc c ∷ l) (as_string-append t r h.1)

as_string-zeros : (j : ℕ) → as_string (replicate j 0) ≡ []
as_string-zeros zero = refl
as_string-zeros (suc j) = refl

drop-zeros : (n j : ℕ) → as_string (drop n (replicate j 0)) ≡ []
drop-zeros zero j = as_string-zeros j
drop-zeros (suc n) zero = refl
drop-zeros (suc n) (suc j) = drop-zeros n j

-- What is left of an old name, from a place on.
as_string-drop :
    (n : ℕ) (old : Text) (j : ℕ)
    → IsName old
    → as_string (drop n (old ++ replicate j 0)) ≡ drop n old
as_string-drop n [] j h = drop-zeros n j ∙ sym (drop-nil ℕ n)
as_string-drop zero (c ∷ old) j h =
    as_string-append (c ∷ old) (replicate j 0) h ∙ rw (as_string-zeros j, append-nil)
as_string-drop (suc n) (c ∷ old) j h = as_string-drop n old j h.1

-- The name that the buffer holds after a request for `name`.
pub name_stored :
    (name old : Text) (j : ℕ) (q : Wrq)
    → IsName name
    → IsName old
    → q.file_name ≡ old ++ replicate j 0
    → as_string (copy_name name q.file_name) ≡ name ++ drop (length name) old
name_stored name old j q n o e =
    rw e (as_string-append name _ n ∙ ap (λ r. name ++ r) (as_string-drop (length name) old j o))

pub name_kept :
    (name old : Text) (j : ℕ) (q : Wrq)
    → IsName name
    → IsName old
    → q.file_name ≡ old ++ replicate j 0
    → drop (length name) old ≡ []
    → as_string (copy_name name q.file_name) ≡ name
name_kept name old j q n o e covered =
    name_stored name old j q n o e ∙ ap (λ r. name ++ r) covered ∙ append-nil name

-- A write request for `name`: what follows its end mark is the mode, which the server ignores.
abbrev pub request : Text → Text → Text
request name mode = htons wrq_opcode ++ (name ++ 0 ∷ mode)

-- The name that the server opens is the name asked for, followed by what the name that the
-- buffer held before the request has beyond its length.
pub wrq_parser-name :
    (name mode old : Text) (j : ℕ) (q : Wrq) (w : World)
    → IsName name
    → IsName old
    → q.file_name ≡ old ++ replicate j 0
    → (q' : Wrq) × (wrq_parser q (request name mode) w ≡ done q' w)
      × (q'.opcode ≡ wrq_opcode)
      × (as_string q'.file_name ≡ name ++ drop (length name) old)
unfolding wrq_parser
wrq_parser-name name mode old j q w n o e = (
  record { opcode = wrq_opcode; file_name = copy_name name q.file_name },
  rw (c_string-name name mode n),
  refl,
  name_stored name old j q n o e,
)
