-- ===== src/Server/Upload.antt =====
-- A file that arrives block by block at `recieving_data_mode`, with datagrams of others between.
use structure_of_os.Prelude.{
  ℕ, suc, ◌+◌, ◌*◌, ◌/◌, ◌%◌, ◌≤◌, ◌<◌, ◌≡◌, refl, ap, ◌∙◌, true, false, List, [], ◌∷◌, ◌++◌,
  append_assoc, Text, bytes, arith, length, take, take_all, take-append, text_eq, ltb, leb, ◌==◌,
  if◌then◌else◌, Bool-cases, inl, inr,
}
use structure_of_os.Server.Io.{Address, same_address, Datagram, World, done, add_to_file}
use structure_of_os.Server.Packet.{
  htons, ntohs, ack_packet, error_packet, packet_size, data_opcode, send_ack, send_error,
}
use structure_of_os.Server.Transfer.{
  Event, datagram, Transfer, Session, again, returned, received, zeros, round, receive,
  receive-again, receive-returned, take_packet, write_block, data_length,
}

-- The system calls all succeed.
abbrev pub calm : List (Text × Text) → List Datagram → World
calm files sent = record { files = files; sent = sent; answers = [] }

-- A DATA packet, as a client builds it.
abbrev pub data_packet : ℕ → Text → Text
data_packet n chunk = htons data_opcode ++ (htons n ++ chunk)

pub ntohs-htons : (n : ℕ) (t : Text) → n < 65536 → ntohs (htons n ++ t) ≡ n
ntohs-htons n t h = omega arith

abbrev pub ack : Session → ℕ → Datagram
ack s n = record { to = s.client; payload = ack_packet n }

abbrev pub complaint : Address → Datagram
complaint a = record { to = a; payload = error_packet 7 (bytes "Unknown user") }

pub same_address_refl : (a : Address) → same_address a a ≡ true
same_address_refl a = ground arith

==_self : (n : ℕ) → (n == n) ≡ true
==_self n = ground arith

-- The header of a packet with this number reads back.
header : (n : ℕ) → n < 65536 → n / 256 % 256 * 256 + n % 256 ≡ n
header n h = omega arith

no_wrap : (n : ℕ) → n < 65536 → n % 65536 ≡ n
no_wrap n h = omega arith

data_length-fits : (n : ℕ) → n ≤ 512 → data_length (suc (suc (suc (suc n)))) ≡ n
data_length-fits n h = omega arith

in_bounds : (n : ℕ) → n ≤ 512 → ltb 512 n ≡ false
in_bounds n h = ground arith

is_full : (n : ℕ) → leb 516 (suc (suc (suc (suc n)))) ≡ leb 512 n
is_full n = ground arith

is_short : (n : ℕ) → n < 512 → leb 512 n ≡ false
is_short n h = ground arith

is_exact : (n : ℕ) → n ≡ 512 → leb 512 n ≡ true
is_exact n h = ground arith

module _ (s : Session) (t : Transfer) (files : List (Text × Text)) (sent : List Datagram)
    (watched : t.watched ≡ true) where
  -- A datagram of another sender is answered by an error, and nothing else changes but the buffer.
  round-stranger :
      (a : Address) (payload : Text)
      → same_address s.client a ≡ false
      → round s t (datagram a payload) (calm files sent)
        ≡ done
            (again (record t {
              buff = received payload t.buff;
              message_size = length (take packet_size payload);
              curr_client = a;
            }))
            (calm files (sent ++ complaint a ∷ []))
  unfolding round send_error
  round-stranger a payload other = rw (watched, other)

  abbrev after : Text → Transfer
  after chunk = record t {
    missed_packets = 0;
    block_number = t.block_number + 1;
    buff = zeros;
    message_size = suc (suc (suc (suc (length chunk))));
    curr_client = s.client;
  }

  round-block :
      (chunk : Text)
      → t.block_number + 1 < 65536
      → length chunk ≤ 512
      → round s t (datagram s.client (data_packet (t.block_number + 1) chunk)) (calm files sent)
        ≡ done
            (if leb 512 (length chunk) then again (after chunk) else returned)
            (calm (add_to_file s.file_name chunk files) (sent ++ ack s (t.block_number + 1) ∷ []))
  unfolding round take_packet write_block send_ack
  round-block chunk small fits = simp (
    watched,
    same_address_refl,
    take_all 512 chunk fits,
    header (t.block_number + 1) small,
    ==_self,
    data_length-fits (length chunk) fits,
    in_bounds (length chunk) fits,
    take-append,
    is_full,
    no_wrap (t.block_number + 1) small,
  )

  round-last :
      (k : ℕ) (at : t.block_number ≡ k) (chunk : Text)
      → k + 1 < 65536
      → length chunk < 512
      → round s t (datagram s.client (data_packet (k + 1) chunk)) (calm files sent)
        ≡ done returned (calm (add_to_file s.file_name chunk files) (sent ++ ack s (k + 1) ∷ []))
  round-last k at chunk small short =
      rw (← at) (round-block chunk (omega arith) (omega arith) ∙ rw (is_short (length chunk) short))

  round-full :
      (k : ℕ) (at : t.block_number ≡ k) (chunk : Text)
      → k + 1 < 65536
      → length chunk ≡ 512
      → round s t (datagram s.client (data_packet (k + 1) chunk)) (calm files sent)
        ≡ done
            (again (after chunk))
            (calm (add_to_file s.file_name chunk files) (sent ++ ack s (k + 1) ∷ []))
  round-full k at chunk small exact =
      rw (← at) (round-block chunk (omega arith) (omega arith) ∙ rw (is_exact (length chunk) exact))

-- A client sends the blocks after `k` in order, with full blocks before a last shorter one, while
-- others send what they like. `text` is what the client sends, and `out` the answers to it all.
-- What comes behind the last block is `later`.
pub data Delivers (s : Session) (later : List Event)
    : ℕ → List Event → Text → List Datagram → Type 0 where
  last :
      (k : ℕ) (chunk : Text)
      → k + 1 < 65536
      → length chunk < 512
      → Delivers s later k
          (datagram s.client (data_packet (k + 1) chunk) ∷ later)
          chunk
          (ack s (k + 1) ∷ [])
  full :
      (k : ℕ) (chunk : Text) {es : List Event} {text : Text} {out : List Datagram}
      → k + 1 < 65536
      → length chunk ≡ 512
      → Delivers s later (k + 1) es text out
      → Delivers s later k
          (datagram s.client (data_packet (k + 1) chunk) ∷ es)
          (chunk ++ text)
          (ack s (k + 1) ∷ out)
  stranger :
      {k : ℕ} (a : Address) (payload : Text) {es : List Event} {text : Text} {out : List Datagram}
      → same_address s.client a ≡ false
      → Delivers s later k es text out
      → Delivers s later k (datagram a payload ∷ es) text (complaint a ∷ out)

add_to_file-add_to_file :
    (name a b : Text) (files : List (Text × Text))
    → add_to_file name b (add_to_file name a files) ≡ add_to_file name (a ++ b) files
add_to_file-add_to_file name a b [] = refl
add_to_file-add_to_file name a b ((n, c) ∷ files) = elim (Bool-cases (text_eq n name)) [
  | inl same ↦ rw (same, same) (rw append_assoc)
  | inr other ↦ rw (other, other) (rw (add_to_file-add_to_file name a b files))
]

-- The whole file arrives: the bytes that the client sent are added to the file, each block is
-- acknowledged and each stranger refused in turn, and the transfer returns.
pub receive-Delivers :
    (s : Session) (later : List Event) (t : Transfer) (files : List (Text × Text))
    (sent : List Datagram) {k : ℕ} {es : List Event} {text : Text} {out : List Datagram}
    → t.watched ≡ true
    → t.block_number ≡ k
    → Delivers s later k es text out
    → receive s t es (calm files sent)
      ≡ done (returned, later) (calm (add_to_file s.file_name text files) (sent ++ out))
unfolding receive
receive-Delivers s later t files sent watched at (last k chunk small short) =
    receive-returned s t _ later _ (round-last s t files sent watched k at chunk small short)
receive-Delivers s later t files sent watched at (full k chunk {es} {text} {out} small exact rest) =
    receive-again s t _ es _ (round-full s t files sent watched k at chunk small exact)
    ∙ receive-Delivers s later (after s t files sent watched chunk)
        (add_to_file s.file_name chunk files) (sent ++ ack s (k + 1) ∷ []) watched
        (ap (λ (n : ℕ). n + 1) at) rest
    ∙ rw (add_to_file-add_to_file, append_assoc)
receive-Delivers s later t files sent watched at (stranger a payload {es} {text} {out} other rest) =
    receive-again s t _ es _ (round-stranger s t files sent watched a payload other)
    ∙ receive-Delivers s later _ files (sent ++ complaint a ∷ []) watched at rest
    ∙ rw append_assoc
