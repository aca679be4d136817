-- ===== src/Server/Abandon.antt =====
-- How a transfer ends early: after a time-out, by a packet out of turn, or for its length.
use structure_of_os.Prelude.{
  ℕ, zero, suc, ◌+◌, ◌≤◌, ◌≡◌, ◌≢◌, refl, ◌∙◌, pos, true, false, List, [], ◌∷◌, ◌++◌, append_assoc,
  Text, bytes, arith, length, take, drop, replicate, ltb_ℤ, ◌==◌,
}
use structure_of_os.Server.Io.{Datagram, Outcome, done, remove_file, delete_file}
use structure_of_os.Server.Packet.{ntohs, error_packet, packet_size, send_ack, send_error}
use structure_of_os.Server.Transfer.{
  Event, silence, datagram, select_fails, recvfrom_fails, Transfer, Session, Next, again, returned,
  received, round, receive, receive-again, receive-returned, time_out, take_packet,
}
use structure_of_os.Server.Bytes.{AllBytes, ntohs-lt, drop-AllBytes}
use structure_of_os.Server.Upload.{calm, ack, same_address_refl}

-- An event at which `select` does not fail.
abbrev pub Calm : Event → Type 0
Calm select_fails = ⊥
Calm _ = Unit

abbrev pub AllCalm : List Event → Type 0
AllCalm [] = Unit
AllCalm (e ∷ es) = Calm e × AllCalm es

abbrev pub abandoned : Session → Datagram
abandoned s = record {
  to = s.client;
  payload = error_packet 0 (bytes "Abandoning file transmission");
}

past : (m : ℕ) → ltb_ℤ (pos m) (pos (m + 1)) ≡ true
past m = ground arith

within : (m n : ℕ) → n + 1 ≤ m → ltb_ℤ (pos m) (pos (n + 1)) ≡ false
within m n h = ground arith

module _ (s : Session) (t : Transfer) (files : List (Text × Text)) (sent : List Datagram) where
  -- A socket that is not watched is not heard: whatever comes, the time runs out.
  round-deaf :
      (e : Event)
      → t.watched ≡ false
      → Calm e
      → round s t e (calm files sent) ≡ time_out s t (calm files sent)
  unfolding round
  round-deaf silence deaf c = refl
  round-deaf (datagram a p) deaf c = rw deaf
  round-deaf select_fails deaf c = absurd c
  round-deaf recvfrom_fails deaf c = rw deaf

  time_out-last :
      (m : ℕ)
      → s.max_num_of_resends ≡ pos m
      → t.missed_packets ≡ m
      → time_out s t (calm files sent)
        ≡ done returned (calm (remove_file s.file_name files) (sent ++ abandoned s ∷ []))
  unfolding time_out delete_file send_error
  time_out-last m max at = rw (max, at, past m)

  abbrev pub missed_one : Transfer
  missed_one = record t { watched = false; missed_packets = t.missed_packets + 1 }

  time_out-more :
      (m : ℕ)
      → s.max_num_of_resends ≡ pos m
      → t.missed_packets + 1 ≤ m
      → time_out s t (calm files sent)
        ≡ done (again missed_one) (calm files (sent ++ ack s t.block_number ∷ []))
  unfolding time_out send_ack
  time_out-more m max below = rw (max, within m t.missed_packets below)

-- After a time-out the server hears nothing more. It acknowledges the last block `n` times again,
-- once for each packet that it may still miss, and abandons the transfer.
receive-deaf :
    (s : Session) (m : ℕ) (later : List Event) (n : ℕ) (t : Transfer) (files : List (Text × Text))
    (sent : List Datagram) (es : List Event)
    → s.max_num_of_resends ≡ pos m
    → t.watched ≡ false
    → t.missed_packets + n ≡ m
    → length es ≡ n + 1
    → AllCalm es
    → receive s t (es ++ later) (calm files sent)
      ≡ done
          (returned, later)
          (calm
            (remove_file s.file_name files)
            (sent ++ (replicate n (ack s t.block_number) ++ abandoned s ∷ [])))
receive-deaf s m later n t files sent [] max deaf left long c = absurd (omega arith)
receive-deaf s m later zero t files sent (e ∷ []) max deaf left long c =
    receive-returned s t e later _
      (round-deaf s t files sent e deaf c.0 ∙ time_out-last s t files sent m max (omega arith))
receive-deaf s m later zero t files sent (e ∷ e' ∷ es) max deaf left long c = absurd (omega arith)
receive-deaf s m later (suc n) t files sent (e ∷ es) max deaf left long c =
    receive-again s t e (es ++ later) _
      (round-deaf s t files sent e deaf c.0 ∙ time_out-more s t files sent m max (omega arith))
    ∙ receive-deaf s m later n (missed_one s t files sent) files (sent ++ ack s t.block_number ∷ [])
        es max refl (omega arith) (omega arith) c.1
    ∙ rw append_assoc

unwatched :
    (s : Session) (t : Transfer) (files : List (Text × Text)) (sent : List Datagram)
    (es : List Event)
    → receive s t (silence ∷ es) (calm files sent)
      ≡ receive s (record t { watched = false }) (silence ∷ es) (calm files sent)
unfolding receive round time_out
unwatched s t files sent es = refl

-- Where the system calls succeed, once a select has timed out the transfer is lost: whatever is
-- sent in the next rounds, the server takes no packet, repeats its last acknowledgement until the
-- bound of resends is reached, then deletes the file and tells the client.
pub silence-abandons :
    (s : Session) (m : ℕ) (later : List Event) (n : ℕ) (t : Transfer) (files : List (Text × Text))
    (sent : List Datagram) (es : List Event)
    → s.max_num_of_resends ≡ pos m
    → t.missed_packets + n ≡ m
    → length es ≡ n
    → AllCalm es
    → receive s t (silence ∷ (es ++ later)) (calm files sent)
      ≡ done
          (returned, later)
          (calm
            (remove_file s.file_name files)
            (sent ++ (replicate n (ack s t.block_number) ++ abandoned s ∷ [])))
silence-abandons s m later n t files sent es max left long c =
    unwatched s t files sent (es ++ later)
    ∙ receive-deaf s m later n (record t { watched = false }) files sent (silence ∷ es) max refl
        left (omega arith) (tt, c)

abbrev pub refusal : Session → ℕ → Text → Datagram
refusal s code message = record { to = s.client; payload = error_packet code message }

-- The variables when a datagram of the client is read.
abbrev pub holding : Session → Transfer → Text → Transfer
holding s t payload = record t {
  buff = received payload t.buff;
  message_size = length (take packet_size payload);
  curr_client = s.client;
}

==_ne : {a b : ℕ} → a ≢ b → (a == b) ≡ false
==_ne h = ground arith

module _ (s : Session) (t : Transfer) (files : List (Text × Text)) (sent : List Datagram)
    (watched : t.watched ≡ true) (payload : Text) where
  abbrev buff : Text
  buff = received payload t.buff

  abbrev number : ℕ
  number = ntohs (drop 2 buff)

  round-client :
      round s t (datagram s.client payload) (calm files sent)
      ≡ take_packet s (holding s t payload) (calm files sent)
  unfolding round
  round-client = rw (watched, same_address_refl)

  -- What the file and the client are left with.
  abbrev ends_with : ℕ → Text → Outcome Next
  ends_with code message =
      done returned (calm (remove_file s.file_name files) (sent ++ refusal s code message ∷ []))

  wrong_number :
      (number == t.block_number + 1) ≡ false
      → round s t (datagram s.client payload) (calm files sent)
        ≡ ends_with 0 (bytes "Bad block number")
  unfolding take_packet delete_file send_error
  wrong_number wrong = round-client ∙ rw wrong

  -- After block 65535, where the socket is still watched, the system calls succeed and payloads
  -- are bytes, no datagram of the client is accepted: each one ends the transfer, deletes the
  -- file and is answered with a bad block number.
  pub block_65536-refused :
      t.block_number ≡ 65535
      → AllBytes buff
      → round s t (datagram s.client payload) (calm files sent)
        ≡ done returned (
            calm
              (remove_file s.file_name files)
              (sent ++ refusal s 0 (bytes "Bad block number") ∷ []))
  block_65536-refused at small =
      wrong_number
        (==_ne (λ e. absurd (omega (arith, ntohs-lt (drop 2 buff) (drop-AllBytes 2 buff small)))))
