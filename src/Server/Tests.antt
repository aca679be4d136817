-- ===== src/Server/Tests.antt =====
-- Small runs of the server, and the theorems at concrete transfers.
use structure_of_os.Prelude.{
  ℕ, zero, suc, pos, ◌≡◌, refl, some, List, [], ◌∷◌, ◌++◌, Text, bytes, arith, replicate, inl,
}
use structure_of_os.Server.Io.{Address, done, content}
use structure_of_os.Server.Packet.{send_ack}
use structure_of_os.Server.Transfer.{
  Event, silence, datagram, Transfer, Session, again, returned, start, zeros, round, receive,
  take_packet, write_block,
}
use structure_of_os.Server.Request.{Wrq, Server, listening, wrq_parser, as_string, serve}
use structure_of_os.Server.Upload.{
  calm, data_packet, ack, complaint, Delivers, last, stranger, receive-Delivers,
}
use structure_of_os.Server.Bytes.{AllBytes, received-AllBytes, zeros-AllBytes}
use structure_of_os.Server.Abandon.{abandoned, silence-abandons, refusal, block_65536-refused}
use structure_of_os.Server.Names.{request, wrq_parser-name}
use structure_of_os.Server.Whole.{upload_stored}
use structure_of_os.Server.Progress.{AllEvents, IsSound}
use structure_of_os.Server.Contents.{Grows, receive-Grows}
use structure_of_os.Server.Ends.{total_weight, HasEnded, receive-ends}

abbrev client : Address
client = record { ip = 1; port = 9 }

abbrev other : Address
other = record { ip = 1; port = 8 }

abbrev session : Session
session = record { file_name = bytes "f"; client = client; max_num_of_resends = pos 2 }

-- A file of one block, with a stranger's datagram before it.
abbrev arrivals : List Event
arrivals = datagram other (bytes "hi") ∷ datagram client (data_packet 1 (bytes "abc")) ∷ []

abbrev arrivals-Delivers :
    Delivers session [] 0 arrivals (bytes "abc") (complaint other ∷ ack session 1 ∷ [])
arrivals-Delivers =
    stranger other (bytes "hi") refl (last 0 (bytes "abc") (omega arith) (omega arith))

receive-Delivers_example :
    receive session start arrivals (calm ((bytes "f", []) ∷ []) [])
    ≡ done
        (returned, [])
        (calm ((bytes "f", bytes "abc") ∷ []) (complaint other ∷ ack session 1 ∷ []))
receive-Delivers_example =
    receive-Delivers session [] start ((bytes "f", []) ∷ []) [] refl refl arrivals-Delivers

-- Silence, then two packets that are not heard.
silence-abandons_example :
    receive session start
      (silence ∷ datagram client (data_packet 1 (bytes "abc")) ∷ silence ∷ [])
      (calm ((bytes "f", []) ∷ []) [])
    ≡ done (returned, []) (calm [] (ack session 0 ∷ ack session 0 ∷ abandoned session ∷ []))
silence-abandons_example =
    silence-abandons session 2 [] 2 start ((bytes "f", []) ∷ []) []
      (datagram client (data_packet 1 (bytes "abc")) ∷ silence ∷ []) refl refl refl (omega arith)

abbrev at_the_end : Transfer
at_the_end = record start { block_number = 65535 }

block_65536-refused_example :
    round session at_the_end
      (datagram client (data_packet 0 (bytes "abc")))
      (calm ((bytes "f", []) ∷ []) [])
    ≡ done returned (calm [] (refusal session 0 (bytes "Bad block number") ∷ []))
block_65536-refused_example =
    block_65536-refused session at_the_end ((bytes "f", []) ∷ []) [] refl
      (data_packet 0 (bytes "abc")) refl
      (received-AllBytes (data_packet 0 (bytes "abc")) zeros (omega arith) (zeros-AllBytes 516))

abbrev server : Server
server = record {
  wrq = record { opcode = 0; file_name = replicate 515 0 };
  max_num_of_resends = pos 2;
  mode = listening;
}

upload_stored_example :
    (v' : Server) × (files' : List (Text × Text)) × (v'.mode ≡ listening)
    × (content (bytes "f") files' ≡ some (bytes "abc"))
    × (serve server (datagram client (request (bytes "f") (bytes "octet")) ∷ arrivals) (calm [] [])
        ≡ serve v' [] (calm files' (ack session 0 ∷ complaint other ∷ ack session 1 ∷ [])))
upload_stored_example =
    upload_stored server (bytes "f") (bytes "octet") [] 515 client [] [] [] refl (omega arith) tt
      refl (omega arith) (omega arith) refl arrivals-Delivers

-- After a request for "long.txt" the name "a" is stored as "aong.txt".
wrq_parser-name_example :
    (q' : Wrq) × (wrq_parser
        (record { opcode = 2; file_name = bytes "long.txt" ++ replicate 507 0 })
        (request (bytes "a") (bytes "octet"))
        (calm [] [])
      ≡ done q' (calm [] []))
    × (q'.opcode ≡ 2)
    × (as_string q'.file_name ≡ bytes "aong.txt")
wrq_parser-name_example =
    wrq_parser-name (bytes "a") (bytes "octet") (bytes "long.txt") 507 _ _ (omega arith)
      (omega arith) refl

start-IsSound : IsSound session start (calm ((bytes "f", []) ∷ []) [])
start-IsSound = record {
  octets = zeros-AllBytes 516;
  buffer = refl;
  file = refl;
  few = omega arith;
  missed = inl refl;
}

-- One full block.
abbrev block : Text
block = replicate 512 0

abbrev first_packet : Text
first_packet = data_packet 1 block

abbrev after_block : Transfer
after_block = record start { block_number = 1; message_size = 516; curr_client = client }

first_packet-AllBytes : AllBytes first_packet
first_packet-AllBytes =
    (omega arith, (omega arith, (omega arith, (omega arith, zeros-AllBytes 512))))

first_round :
    receive session start (datagram client first_packet ∷ []) (calm ((bytes "f", []) ∷ []) [])
    ≡ done (again after_block, []) (calm ((bytes "f", block) ∷ []) (ack session 1 ∷ []))
unfolding receive round take_packet write_block send_ack
first_round = refl

receive-Grows_example :
    IsSound session after_block (calm ((bytes "f", block) ∷ []) (ack session 1 ∷ []))
    × Grows session 0 (datagram client first_packet ∷ []) 1 (some []) (some block)
receive-Grows_example =
    receive-Grows session (datagram client first_packet ∷ []) start (calm ((bytes "f", []) ∷ []) [])
      start-IsSound (first_packet-AllBytes, tt) first_round

-- One packet, and then nothing for a long time.
silences-AllEvents : (n : ℕ) → AllEvents (replicate n silence)
silences-AllEvents zero = tt
silences-AllEvents (suc n) = (tt, silences-AllEvents n)

silences-weight : (n : ℕ) → total_weight session (replicate n silence) ≡ n
silences-weight zero = refl
silences-weight (suc n) = omega (arith, silences-weight n)

receive-ends_example : HasEnded session (
    receive session start
      (datagram client first_packet ∷ replicate 65540 silence)
      (calm ((bytes "f", []) ∷ []) []))
receive-ends_example =
    receive-ends session (datagram client first_packet ∷ replicate 65540 silence)
      (calm ((bytes "f", []) ∷ []) []) (first_packet-AllBytes, silences-AllEvents 65540)
      (omega (arith, silences-weight 65540))
