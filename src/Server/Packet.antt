-- ===== src/Server/Packet.antt =====
-- The packets of server.h, as the bytes on the wire, and their senders in server.cpp.
use structure_of_os.Prelude.{
  ℕ, ◌+◌, ◌-◌, ◌*◌, ◌/◌, ◌%◌, [], ◌∷◌, ◌++◌, Text, ⊤, bytes, length, replicate,
}
use structure_of_os.Server.Io.{Address, Io, send_or_exit}

abbrev pub data_size : ℕ
data_size = 512

abbrev pub packet_size : ℕ
packet_size = 516

abbrev pub error_opcode : ℕ
error_opcode = 1

abbrev pub wrq_opcode : ℕ
wrq_opcode = 2

abbrev pub data_opcode : ℕ
data_opcode = 3

abbrev pub ack_opcode : ℕ
ack_opcode = 4

-- `htons` of a `u_short`, as two bytes in memory; `ntohs` reads them back.
abbrev pub htons : ℕ → Text
htons n = (n / 256 % 256) ∷ (n % 256) ∷ []

abbrev pub ntohs : Text → ℕ
ntohs (hi ∷ lo ∷ t) = hi * 256 + lo
ntohs _ = 0

-- `struct ACK`
unfoldable pub ack_packet : ℕ → Text
ack_packet block = htons ack_opcode ++ htons block

-- `struct ERROR`, zeros behind the message up to its size
unfoldable pub error_packet : ℕ → Text → Text
error_packet code message =
    htons error_opcode ++ (htons code ++ (message ++ replicate (data_size - length message) 0))

-- `send_ack`
unfoldable pub send_ack : ℕ → Address → Io ⊤
send_ack block client = send_or_exit (record { to = client; payload = ack_packet block })

-- `send_error`
unfoldable pub send_error : ℕ → Text → Address → Io ⊤
send_error code message client =
    send_or_exit (record { to = client; payload = error_packet code message })

-- The errors that the server sends.
abbrev pub abandoning : Address → Io ⊤
abandoning = send_error 0 (bytes "Abandoning file transmission")

abbrev pub unknown_user : Address → Io ⊤
unknown_user = send_error 7 (bytes "Unknown user")

abbrev pub bad_block_number : Address → Io ⊤
bad_block_number = send_error 0 (bytes "Bad block number")

abbrev pub unexpected_packet : Address → Io ⊤
unexpected_packet = send_error 4 (bytes "Unexpected packet")

abbrev pub file_already_exists : Address → Io ⊤
file_already_exists = send_error 6 (bytes "File already exists")
