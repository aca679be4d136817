-- ===== src/Server/Uploads/Tests.antt =====
-- Two uploads to a server that has just been started.
use structure_of_os.Prelude.{some, atoi, pos, ◌≡◌, refl, List, [], ◌∷◌, Text, bytes, arith}
use structure_of_os.Server.Io.{Address, Datagram, done}
use structure_of_os.Server.Transfer.{Event, datagram, Session}
use structure_of_os.Server.Request.{Server, listening, configure}
use structure_of_os.Server.Upload.{calm, data_packet, ack, complaint, last, stranger}
use structure_of_os.Server.Names.{request}
use structure_of_os.Server.Main.{in_loop, main}
use structure_of_os.Server.Uploads.{Uploads, no_more, upload, disk_of, store_all, main-Stored}

abbrev client : Address
client = record { ip = 1; port = 9 }

abbrev other : Address
other = record { ip = 1; port = 8 }

abbrev of : Text → Address → Session
of name a = record { file_name = name; client = a; max_num_of_resends = pos 2 }

abbrev second_events : List Event
second_events =
    datagram other (request (bytes "gg") (bytes "octet"))
    ∷ datagram other (data_packet 1 (bytes "x"))
    ∷ []

abbrev events : List Event
events =
    datagram client (request (bytes "f") (bytes "octet"))
    ∷ datagram other (bytes "hi")
    ∷ datagram client (data_packet 1 (bytes "abc"))
    ∷ second_events

abbrev texts : List (Text × Text)
texts = (bytes "f", bytes "abc") ∷ (bytes "gg", bytes "x") ∷ []

abbrev answers : List Datagram
answers =
    ack (of (bytes "f") client) 0
    ∷ complaint other
    ∷ ack (of (bytes "f") client) 1
    ∷ ack (of (bytes "gg") other) 0
    ∷ ack (of (bytes "gg") other) 1
    ∷ []

abbrev two_uploads : Uploads (pos 2) [] events texts answers
two_uploads =
    upload (bytes "f") (bytes "octet") (bytes "abc") client (omega arith) (omega arith)
      (omega arith)
      (stranger other (bytes "hi") refl (last 0 (bytes "abc") (omega arith) (omega arith)))
      (upload (bytes "gg") (bytes "octet") (bytes "x") other (ground arith) (omega arith)
        (omega arith) (last 0 (bytes "x") (omega arith) (omega arith)) no_more)

numbers : configure (bytes "69") (bytes "3") (bytes "2") ≡ some (69, 3, pos 2)
unfolding configure atoi
numbers = refl

main-Stored_example :
    (v : Server) × (files' : List (Text × Text)) × (main
        (bytes "69" ∷ bytes "3" ∷ bytes "2" ∷ [])
        events
        (calm ((bytes "h", []) ∷ []) [])
      ≡ done (in_loop v) (calm files' answers))
    × (v.mode ≡ listening)
    × (disk_of files' ≡ store_all texts (disk_of ((bytes "h", []) ∷ [])))
main-Stored_example =
    main-Stored (bytes "69") (bytes "3") (bytes "2") 69 3 (pos 2) ((bytes "h", []) ∷ []) numbers
      two_uploads (refl, (refl, tt))
