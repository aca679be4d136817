-- ===== src/Server/Request.antt =====
-- `wrq_parser` (server.cpp) and the loop of `main` (ttftps.cpp), an event at a time.
use structure_of_os.Prelude.{
  ℕ, zero, ◌%◌, ◌^◌, ℤ, pos, negsuc, Bool, true, false, not, ◌||◌, Option, none, some, List, [],
  ◌∷◌, ◌++◌, Text, length, drop, ltb, ◌==◌, atoi, if◌then◌else◌, eqb_ℤ, ◌-◌,
}
use structure_of_os.Server.Io.{
  Address, Io, overrun, pure, ◌>>=◌, ◌>>◌, gets, modify, succeeds, sys_call_error, content,
  put_file, delete_file,
}
use structure_of_os.Server.Packet.{wrq_opcode, ntohs, send_ack, unknown_user, file_already_exists}
use structure_of_os.Server.Transfer.{
  Event, silence, datagram, select_fails, recvfrom_fails, Transfer, Session, Next, again, returned,
  start, zeros, received, round,
}

-- `struct WRQ`: `file_name` has 515 bytes.
pub record Wrq : Type 0 where
  pub opcode : ℕ
  pub file_name : Text

-- The bytes of a C string before its end; `none` if the buffer has no end mark.
abbrev pub c_string : Text → Option Text
c_string [] = none
c_string (zero ∷ t) = some []
c_string (c ∷ t) = elim (c_string t) [ none ↦ none | some w ↦ some (c ∷ w) ]

-- The text that a buffer holds, as far as it goes.
abbrev pub as_string : Text → Text
as_string [] = []
as_string (zero ∷ t) = []
as_string (c ∷ t) = c ∷ as_string t

-- `strncpy(to, from, strlen(from))`: the bytes behind the copy stay, and no end mark is written.
abbrev pub copy_name : Text → Text → Text
copy_name name old = name ++ drop (length name) old

abbrev pub parsed : Wrq → ℕ → Option Text → Io Wrq
parsed old op none = overrun
parsed old op (some name) = pure (record { opcode = op; file_name = copy_name name old.file_name })

-- `wrq_parser`
unfoldable pub wrq_parser : Wrq → Text → Io Wrq
wrq_parser old wrq_buff = parsed old (ntohs wrq_buff) (c_string (drop 2 wrq_buff))

pub data Mode : Type 0 where
  listening : Mode
  receiving : Session → Transfer → Mode

-- The variables of `main` that outlive a request, and where it stands.
pub record Server : Type 0 where
  pub wrq : Wrq
  pub max_num_of_resends : ℤ
  pub mode : Mode

abbrev pub with_mode : Server → Mode → Io Server
with_mode v m = pure (record v { mode = m })

-- `fclose` after a transfer.
abbrev pub finish : Server → Session → Io Server
finish v s = do
  ok ← succeeds
  if ok then with_mode v listening else delete_file s.file_name >> sys_call_error

abbrev pub after_round : Server → Session → Next → Io Server
after_round v s (again t) = with_mode v (receiving s t)
after_round v s returned = finish v s

abbrev pub open_session : Server → Address → Io Server
open_session v client =
    let name = as_string v.wrq.file_name in
    let s : Session = record {
      file_name = name;
      client = client;
      max_num_of_resends = v.max_num_of_resends;
    } in
    do
      ok ← succeeds
      if ok then modify (λ w. record w { files = put_file name [] w.files }) else sys_call_error
      send_ack 0 client
      with_mode v (receiving s start)

abbrev pub is_there : Option Text → Bool
is_there none = false
is_there (some c) = true

-- A request is read, its packet in `v.wrq`.
abbrev pub answer : Server → Address → Io Server
answer v client = if not (v.wrq.opcode == wrq_opcode) then unknown_user client >> pure v else do
  there ← gets λ w. is_there (content (as_string v.wrq.file_name) w.files)
  if there then file_already_exists client >> pure v else open_session v client

-- One event: a request where the server listens, and a round of the transfer where it receives.
unfoldable pub handle : Server → Mode → Event → Io Server
unfolding wrq_parser send_ack
handle v listening (datagram sender payload) =
    wrq_parser v.wrq (received payload zeros) >>= λ q. answer (record v { wrq = q }) sender
handle v listening recvfrom_fails = sys_call_error
handle v listening silence = pure v
handle v listening select_fails = pure v
handle v (receiving s t) e = round s t e >>= after_round v s

unfoldable pub serve : Server → List Event → Io Server
serve v [] = pure v
serve v (e ∷ es) = handle v v.mode e >>= λ v'. serve v' es

-- `u_short` of an `int`, and `short_int` of a `u_short`
abbrev pub to_u_short : ℤ → ℕ
to_u_short (pos n) = n % 2 ^ 16
to_u_short (negsuc n) = 2 ^ 16 - 1 - n % 2 ^ 16

abbrev pub to_short : ℕ → ℤ
to_short n = if ltb n (2 ^ 15) then pos n else negsuc (2 ^ 16 - n - 1)

abbrev pub is_zero : ℤ → Bool
is_zero z = eqb_ℤ z (pos 0)

-- `main` up to its loop; its three arguments are the port, the time to wait and the resends.
-- Nothing where it prints an error and exits.
unfoldable pub configure : Text → Text → Text → Option (ℕ × ℕ × ℤ)
configure port timeout resends =
    if is_zero (atoi port) || (is_zero (atoi timeout) || is_zero (atoi resends))
    then none
    else some
        (to_u_short (atoi port), to_u_short (atoi timeout), to_short (to_u_short (atoi resends)))
