-- ===== src/Server/Whole.antt =====
-- From a write request to the stored file: the loop of `main` (ttftps.cpp) over a whole upload.
use structure_of_os.Prelude.{
  ℕ, zero, suc, ◌≤◌, ◌≡◌, refl, ap, ◌∙◌, sym, none, some, List, [], ◌∷◌, ◌++◌, append_assoc, Text,
  arith, length, drop, take_all, replicate, text_eq, text_eq_refl, Bool-cases, inl, inr,
}
use structure_of_os.Server.Io.{
  Address, Datagram, World, Outcome, done, exited, overrun, content, put_file, add_to_file, ◌>>=◌,
}
use structure_of_os.Server.Packet.{htons, wrq_opcode}
use structure_of_os.Server.Transfer.{
  Event, datagram, Transfer, Session, Next, again, returned, start, zeros, received, round, receive,
  receive-again, receive-returned,
}
use structure_of_os.Server.Request.{
  Wrq, Server, Mode, listening, receiving, copy_name, handle, serve,
}
use structure_of_os.Server.Bytes.{content-add_to_file}
use structure_of_os.Server.Upload.{calm, ack, Delivers, receive-Delivers}
use structure_of_os.Server.Names.{IsName, request, c_string-name, name_kept}

-- `main` between the request and the end of a transfer is the loop of the transfer.
abbrev during : Server → Session → Transfer → Server
during v s t = record v { mode = receiving s t }

abbrev free : Server → Server
free v = record v { mode = listening }

serve-receive :
    (v : Server) (s : Session) (later es : List Event) (t : Transfer) (w : World)
    (files : List (Text × Text)) (sent : List Datagram)
    → receive s t es w ≡ done (returned, later) (calm files sent)
    → serve (during v s t) es w ≡ serve (free v) later (calm files sent)
unfolding serve handle receive
serve-receive v s later [] t w files sent h = cc h
serve-receive v s later (e ∷ es) t w files sent h =
    go (round s t e w) refl (λ t' w'. serve-receive v s later es t' w' files sent)
  where
    go :
        (o : Outcome Next)
        → round s t e w ≡ o
        → ((t' : Transfer) (w' : World)
            → receive s t' es w' ≡ done (returned, later) (calm files sent)
            → serve (during v s t') es w' ≡ serve (free v) later (calm files sent))
        → serve (during v s t) (e ∷ es) w ≡ serve (free v) later (calm files sent)
    go (done (again t') w') q ih = rw (q, ◌>>=◌) (ih t' w' (sym (receive-again s t e es w q) ∙ h))
    go (done returned w') q ih = rw (q, ◌>>=◌) (cc (sym (receive-returned s t e es w q) ∙ h))
    go (exited w') q ih = cc (rw (q, ◌>>=◌) at h)
    go (overrun w') q ih = cc (rw (q, ◌>>=◌) at h)

-- The request in the cleared buffer.
padded :
    (name mode : Text)
    → length (request name mode) ≤ 516
    → received (request name mode) zeros
      ≡ request name (mode ++ drop (length (request name mode)) zeros)
padded name mode fits =
    rw (take_all 514 (name ++ 0 ∷ mode) (omega arith))
      (ap (λ l. htons wrq_opcode ++ l) (append_assoc name (0 ∷ mode) _))

abbrev pub session : Server → Text → Address → Session
session v name client = record {
  file_name = name;
  client = client;
  max_num_of_resends = v.max_num_of_resends;
}

abbrev pub asked : Wrq → Text → Wrq
asked q name = record { opcode = wrq_opcode; file_name = copy_name name q.file_name }

-- A request for a new name opens the file and is acknowledged.
handle-request :
    (v : Server) (name mode old : Text) (j : ℕ) (client : Address) (files : List (Text × Text))
    (sent : List Datagram)
    → IsName name
    → IsName old
    → v.wrq.file_name ≡ old ++ replicate j 0
    → drop (length name) old ≡ []
    → length (request name mode) ≤ 516
    → content name files ≡ none
    → handle v listening (datagram client (request name mode)) (calm files sent)
      ≡ done
          (during (record v { wrq = asked v.wrq name }) (session v name client) start)
          (calm (put_file name [] files) (sent ++ ack (session v name client) 0 ∷ []))
unfolding handle
handle-request v name mode old j client files sent n o e covered fits new =
    simp
      (padded name mode fits, c_string-name name _ n, name_kept name old j v.wrq n o e covered, new)

content-put_file :
    (name : Text) (files : List (Text × Text)) → content name (put_file name [] files) ≡ some []
content-put_file name [] = rw (text_eq_refl name)
content-put_file name ((n, c) ∷ files) = elim (Bool-cases (text_eq n name)) [
  | inl same ↦ rw (same, same)
  | inr other ↦ rw (other, other) (content-put_file name files)
]

pub drop-eq-nil : (n : ℕ) (t : Text) → length t ≤ n → drop n t ≡ []
drop-eq-nil zero [] h = refl
drop-eq-nil zero (c ∷ t) h = absurd (omega arith)
drop-eq-nil (suc n) [] h = refl
drop-eq-nil (suc n) (c ∷ t) h = drop-eq-nil n t (omega arith)

serve-step :
    (v : Server) (m : Mode) (e : Event) (es : List Event) (w : World) {v' : Server} {w' : World}
    → v.mode ≡ m
    → handle v m e w ≡ done v' w'
    → serve v (e ∷ es) w ≡ serve v' es w'
unfolding serve
serve-step v m e es w p h = ap (λ k. (handle v k e >>= λ u. serve u es) w) p ∙ rw (h, ◌>>=◌)

-- The server and the files after an upload.
abbrev pub uploaded : Server → Text → Server
uploaded v name = record v { wrq = asked v.wrq name; mode = listening }

abbrev pub put_upload : Text → Text → List (Text × Text) → List (Text × Text)
put_upload name text files = add_to_file name text (put_file name [] files)

pub serve-upload :
    (v : Server) (name mode old : Text) (j : ℕ) (client : Address) (files : List (Text × Text))
    (sent : List Datagram) (later : List Event) {es : List Event} {text : Text}
    {out : List Datagram}
    → v.mode ≡ listening
    → IsName name
    → IsName old
    → v.wrq.file_name ≡ old ++ replicate j 0
    → length old ≤ length name
    → length (request name mode) ≤ 516
    → content name files ≡ none
    → Delivers (session v name client) later 0 es text out
    → serve v (datagram client (request name mode) ∷ es) (calm files sent)
      ≡ serve
          (uploaded v name)
          later
          (calm (put_upload name text files) (sent ++ ack (session v name client) 0 ∷ out))
serve-upload v name mode old j client files sent later {es} idle n o e shorter fits new d =
    serve-step v listening _ es _ idle (
      handle-request v name mode old j client files sent n o e
        (drop-eq-nil (length name) old shorter) fits new)
    ∙ serve-receive (record v { wrq = asked v.wrq name }) (session v name client) later es start _ _
        _ (receive-Delivers (session v name client) later start _ _ refl refl d)
    ∙ rw append_assoc

-- Where the server listens, the system calls succeed and no `select` runs out of time, a client
-- that asks for a new file name, in a request of at most 516 bytes, and then sends the blocks of
-- a file once each and in order, up to 65535 of them and the last one shorter than 512 bytes,
-- has exactly these bytes stored under that name and every block acknowledged, whatever other
-- senders send meanwhile, and the server listens again. The name may not be shorter than the one
-- that the buffer of names still holds.
pub upload_stored :
    (v : Server) (name mode old : Text) (j : ℕ) (client : Address) (files : List (Text × Text))
    (sent : List Datagram) (later : List Event) {es : List Event} {text : Text}
    {out : List Datagram}
    → v.mode ≡ listening
    → IsName name
    → IsName old
    → v.wrq.file_name ≡ old ++ replicate j 0
    → length old ≤ length name
    → length (request name mode) ≤ 516
    → content name files ≡ none
    → Delivers (session v name client) later 0 es text out
    → (v' : Server) × (files' : List (Text × Text)) × (v'.mode ≡ listening)
      × (content name files' ≡ some text)
      × (serve v (datagram client (request name mode) ∷ es) (calm files sent)
          ≡ serve v' later (calm files' (sent ++ ack (session v name client) 0 ∷ out)))
upload_stored v name mode old j client files sent later {text} idle n o e shorter fits new d = (
  uploaded v name,
  put_upload name text files,
  refl,
  content-add_to_file name [] text _ (content-put_file name files),
  serve-upload v name mode old j client files sent later idle n o e shorter fits new d,
)
