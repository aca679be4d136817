-- ===== src/Server/Transfer.antt =====
-- `recieving_data_mode`: one file, block by block, over a list of what each `select` meets.
use structure_of_os.Prelude.{
  ◌≡◌, ℕ, ◌+◌, ◌-◌, ◌%◌, ◌^◌, ℤ, pos, Bool, true, false, List, [], ◌∷◌, ◌++◌, Text, ⊤, length, take,
  drop, replicate, ltb, leb, ltb_ℤ, not, ◌==◌, if◌then◌else◌,
}
use structure_of_os.Server.Io.{
  Address, same_address, World, done, overrun, Io, pure, ◌>>=◌, ◌>>◌, modify, succeeds,
  sys_call_error, add_to_file, delete_file,
}
use structure_of_os.Server.Packet.{
  data_size, packet_size, data_opcode, ntohs, send_ack, abandoning, unknown_user, bad_block_number,
  unexpected_packet,
}

-- What happens at the socket while `select` waits: nothing, a datagram, or a failure of `select`
-- or of the `recvfrom` that follows it.
pub data Event : Type 0 where
  silence : Event
  datagram : (sender : Address) (payload : Text) → Event
  select_fails : Event
  recvfrom_fails : Event

-- The variables of the loop. `watched` is whether `readfds` holds the socket.
pub record Transfer : Type 0 where
  pub watched : Bool
  pub block_number : ℕ
  pub missed_packets : ℕ
  pub buff : Text
  pub message_size : ℕ
  pub curr_client : Address

-- What does not change during a transfer.
pub record Session : Type 0 where
  pub file_name : Text
  pub client : Address
  pub max_num_of_resends : ℤ

pub data Next : Type 0 where
  again : Transfer → Next
  returned : Next

abbrev pub zeros : Text
zeros = replicate 516 0

-- The variables before the first round, the buffer cleared.
abbrev pub start : Transfer
start = record {
  watched = true;
  block_number = 0;
  missed_packets = 0;
  buff = zeros;
  message_size = 0;
  curr_client = record { ip = 0; port = 0 };
}

-- `recvfrom` into the buffer: a longer datagram is cut, and what it does not reach stays.
abbrev pub received : Text → Text → Text
received payload buff = take packet_size payload ++ drop (length (take packet_size payload)) buff

-- `message_size - (PACKET_SIZE-DATA_SIZE)`, of type `size_t`
abbrev pub data_length : ℕ → ℕ
data_length message_size = (message_size + 2 ^ 64 - 4) % 2 ^ 64

module _ (s : Session) where
  abbrev pub give_up : (Address → Io ⊤) → Io Next
  give_up complain = do complain s.client; delete_file s.file_name; pure returned

  abbrev pub fail : {A : Type 0} → Io A
  fail = delete_file s.file_name >> sys_call_error

  -- No datagram in time.
  unfoldable pub time_out : Transfer → Io Next
  time_out t =
      let missed = t.missed_packets + 1 in
      let rest = record t { watched = false; missed_packets = missed } in
      if ltb_ℤ s.max_num_of_resends (pos missed)
      then give_up abandoning
      else send_ack t.block_number s.client >> pure (again rest)

  -- The data of an expected block go into the file.
  unfoldable pub write_block : Transfer → Io Next
  write_block t =
      let count = data_length t.message_size in
      let block = (t.block_number + 1) % 2 ^ 16 in
      let rest = record t { missed_packets = 0; block_number = block; buff = zeros } in
      if ltb data_size count then overrun else do
        ok ← succeeds
        if ok
            then modify (λ w. record w {
              files = add_to_file s.file_name (take count (drop 4 t.buff)) w.files;
            })
            else fail
        send_ack block s.client
        pure (if leb packet_size t.message_size then again rest else returned)

  -- A datagram of the client is in the buffer: lines 108 to 137.
  unfoldable pub take_packet : Transfer → Io Next
  take_packet t =
      if not (ntohs (drop 2 t.buff) == t.block_number + 1)
      then give_up bad_block_number
      else if not (ntohs t.buff == data_opcode)
      then give_up unexpected_packet
      else write_block t

  -- `recvfrom` is done: only the client of the session is listened to.
  abbrev pub sort_out : Transfer → Io Next
  sort_out t =
      if same_address s.client t.curr_client
      then take_packet t
      else unknown_user t.curr_client >> pure (again t)

  -- One `select`, and what follows it. A socket that is not in `readfds` is not seen. The test
  -- `message_size < 0` never holds of a `size_t`: -1 is the largest one.
  unfoldable pub round : Transfer → Event → Io Next
  round t silence = time_out t
  round t (datagram sender payload) =
      if t.watched
      then sort_out (record t {
        buff = received payload t.buff;
        message_size = length (take packet_size payload);
        curr_client = sender;
      })
      else time_out t
  round t select_fails = fail
  round t recvfrom_fails =
      if t.watched then sort_out (record t { message_size = 2 ^ 64 - 1 }) else time_out t

  -- The rounds, until the transfer ends or no event is left.
  unfoldable pub receive : Transfer → List Event → Io (Next × List Event)
  receive t [] = pure (again t, [])
  receive t (e ∷ es) =
      round t e >>= λ n. elim n [ again t' ↦ receive t' es | returned ↦ pure (returned, es) ]

  -- The loop after a round, by what the round says.
  pub receive-again :
      (t : Transfer) (e : Event) (es : List Event) {t' : Transfer} (w : World) {w' : World}
      → round t e w ≡ done (again t') w'
      → receive t (e ∷ es) w ≡ receive t' es w'
  unfolding receive
  receive-again t e es w h = rw (h, ◌>>=◌)

  pub receive-returned :
      (t : Transfer) (e : Event) (es : List Event) (w : World) {w' : World}
      → round t e w ≡ done returned w'
      → receive t (e ∷ es) w ≡ done (returned, es) w'
  unfolding receive
  receive-returned t e es w h = rw (h, ◌>>=◌)
