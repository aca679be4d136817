-- ===== src/Server/Contents.antt =====
-- What the file holds all through a transfer (`recieving_data_mode` of server.cpp), whatever arrives
-- and whichever system calls fail.
use structure_of_os.Prelude.{
  ℕ, ◌+◌, ◌≤◌, ◌<◌, ◌≡◌, ◌⊎◌, inl, inr, refl, ◌∙◌, sym, ap, true, Option, some, List, [], ◌∷◌, ◌++◌,
  append_assoc, append-nil, Text, arith, length, take, drop, length-take_le, ◌==◌, ==_iff,
  Bool-cases,
}
use structure_of_os.Server.Io.{
  Address, same_address, World, Outcome, done, exited, overrun, add_to_file, delete_file, ◌>>=◌,
}
use structure_of_os.Server.Packet.{
  ntohs, packet_size, data_opcode, send_ack, send_error, bad_block_number, unexpected_packet,
}
use structure_of_os.Server.Bytes.{content-add_to_file}
use structure_of_os.Server.Blocks.{
  IsBlock, data_of, Brings, nothing, other, block, length-take_le_length, buffer_of,
}
use structure_of_os.Server.Transfer.{
  Event, silence, datagram, select_fails, recvfrom_fails, Transfer, Session, Next, again, returned,
  received, round, receive, time_out, take_packet, write_block, data_length, sort_out,
  receive-again, receive-returned,
}
use structure_of_os.Server.Progress.{
  full_count, stored, IsSound, IsEvent, AllEvents, hears, hears-IsSound, next_in_range,
  round-IsSound, give_up-ends, fail-ends, taken, passed,
}

module _ (s : Session) where
  -- A full packet in the buffer goes into the file.
  abbrev Takes : Transfer → World → Transfer → World → Type 0
  Takes t w t' w' =
      (ntohs t.buff ≡ data_opcode)
      × (ntohs (drop 2 t.buff) ≡ t.block_number + 1)
      × (516 ≤ t.message_size)
      × (data_length t.message_size ≤ 512)
      × (t'.block_number ≡ t.block_number + 1)
      × (w'.files
          ≡ add_to_file s.file_name (take (data_length t.message_size) (drop 4 t.buff)) w.files)

  abbrev Stays : Transfer → World → Transfer → World → Type 0
  Stays t w t' w' = (t'.block_number ≡ t.block_number) × (w'.files ≡ w.files)

  time_out-Stays :
      (t : Transfer) (w : World) {t' : Transfer} {w' : World}
      → time_out s t w ≡ done (again t') w'
      → Stays t w t' w'
  unfolding time_out send_ack send_error delete_file
  time_out-Stays t w h = ground arith

  write_block-writes :
      (t : Transfer) (w : World) {t' : Transfer} {w' : World}
      → t.block_number + 1 < 65536
      → write_block s t w ≡ done (again t') w'
      → (516 ≤ t.message_size)
        × (data_length t.message_size ≤ 512)
        × (t'.block_number ≡ t.block_number + 1)
        × (w'.files
            ≡ add_to_file s.file_name (take (data_length t.message_size) (drop 4 t.buff)) w.files)
  unfolding write_block send_ack delete_file
  write_block-writes t w b h = ground arith

  take_packet-Takes :
      (t : Transfer) (w : World) {t' : Transfer} {w' : World}
      → IsSound s t w
      → take_packet s t w ≡ done (again t') w'
      → Takes t w t' w'
  unfolding take_packet
  take_packet-Takes t w sound h = elim (Bool-cases (ntohs (drop 2 t.buff) == t.block_number + 1)) [
    | inr wrong ↦ absurd (give_up-ends s w bad_block_number (rw wrong at h))
    | inl right ↦ elim (Bool-cases (ntohs t.buff == data_opcode)) [
      | inr odd ↦ absurd (give_up-ends s w unexpected_packet (rw (right, odd) at h))
      | inl same ↦
          let (long, fits, next, files) =
            write_block-writes t w (next_in_range t sound.octets right) (rw (right, same) at h) in
          (
            (==_iff (ntohs t.buff) data_opcode).0 same,
            (==_iff (ntohs (drop 2 t.buff)) (t.block_number + 1)).0 right,
            long,
            fits,
            next,
            files,
          )
    ]
  ]

  sort_out-Takes :
      (t : Transfer) (w : World) {t' : Transfer} {w' : World}
      → IsSound s t w
      → sort_out s t w ≡ done (again t') w'
      → Stays t w t' w' ⊎ ((same_address s.client t.curr_client ≡ true) × Takes t w t' w')
  unfolding send_error
  sort_out-Takes t w sound h = elim (Bool-cases (same_address s.client t.curr_client)) [
    | inl ours ↦ inr (ours, take_packet-Takes t w sound (rw ours at h))
    | inr stranger ↦ inl (ground arith)
  ]

  -- Between two points of a transfer the file grows by what the events bring.
  abbrev pub Grows : ℕ → List Event → ℕ → Option Text → Option Text → Type 0
  Grows k es n before after =
      (text : Text) × Brings s k es n text
      × ((c : Text) → before ≡ some c → after ≡ some (c ++ text))

  Stays-Grows :
      (t t' : Transfer) (w w' : World) (e : Event) {es : List Event} {n : ℕ} {after : Option Text}
      → Stays t w t' w'
      → Grows t'.block_number es n (stored s w') after
      → Grows t.block_number (e ∷ es) n (stored s w) after
  Stays-Grows t t' w w' e (same, files) (text, brings, grows) =
      (text, other e (rw (← same) brings), rw (← files) grows)

  Takes-Grows :
      (t t' : Transfer) (w w' : World) (sender : Address) (p : Text) {es : List Event} {n : ℕ}
      {after : Option Text}
      → same_address s.client sender ≡ true
      → IsBlock (t.block_number + 1) p
      → t'.block_number ≡ t.block_number + 1
      → w'.files ≡ add_to_file s.file_name (data_of p) w.files
      → Grows t'.block_number es n (stored s w') after
      → Grows t.block_number (datagram sender p ∷ es) n (stored s w) after
  Takes-Grows t t' w w' sender p ours is_block next files (text, brings, grows) = (
    data_of p ++ text,
    block sender p ours is_block (rw (← next) brings),
    λ c before.
        grows (c ++ data_of p)
          (rw files (content-add_to_file s.file_name c (data_of p) w.files before))
        ∙ ap some (append_assoc c (data_of p) text),
  )

  -- What the socket hands over, where it is a full packet of the client.
  heard-Grows :
      (t t' : Transfer) (w w' : World) (sender : Address) (p : Text) {es : List Event} {n : ℕ}
      {after : Option Text}
      → length t.buff ≡ 516
      → (same_address s.client sender ≡ true) × Takes (hears t sender p) w t' w'
      → Grows t'.block_number es n (stored s w') after
      → Grows t.block_number (datagram sender p ∷ es) n (stored s w) after
  heard-Grows t t' w w' sender p size (ours, (opcode, number, long, fits, next, files)) grows =
      let full : 516 ≤ length p = omega (arith, length-take_le_length 516 p, long) in
      let (same_opcode, same_number, same_data) = buffer_of p t.buff full in
      Takes-Grows t t' w w' sender p ours
        (record {
          opcode = sym same_opcode ∙ opcode;
          number = sym same_number ∙ number;
          full = full;
        })
        next
        (files
          ∙ ap (λ d. add_to_file s.file_name d w.files)
              (ap (λ n. take n (drop 4 (received p t.buff)))
                  (full_count (length (take packet_size p))
                    (omega (arith, length-take_le {0} 516 p)) long fits)
                ∙ same_data))
        grows

  round-Grows :
      (t t' : Transfer) (w w' : World) (e : Event) {es : List Event} {n : ℕ} {after : Option Text}
      → IsSound s t w
      → IsEvent e
      → round s t e w ≡ done (again t') w'
      → Grows t'.block_number es n (stored s w') after
      → Grows t.block_number (e ∷ es) n (stored s w) after
  unfolding round
  round-Grows t t' w w' silence sound ok h = Stays-Grows t t' w w' silence (time_out-Stays t w h)
  round-Grows t t' w w' (datagram a p) sound ok h = elim (Bool-cases t.watched) [
    | inl heard ↦
        elim (sort_out-Takes (hears t a p) w (hears-IsSound s t w a p ok sound)
          (sym (taken _ _ w heard) ∙ h)) [
            | inl stays ↦ Stays-Grows t t' w w' (datagram a p) stays
            | inr takes ↦ heard-Grows t t' w w' a p sound.buffer takes
          ]
    | inr deaf ↦
        Stays-Grows t t' w w' (datagram a p) (time_out-Stays t w (sym (passed _ _ w deaf) ∙ h))
  ]
  round-Grows t t' w w' select_fails sound ok h = absurd (fail-ends s w h)
  round-Grows t t' w w' recvfrom_fails sound ok h = elim (Bool-cases t.watched) [
    | inl heard ↦
        elim (sort_out-Takes (record t { message_size = 18446744073709551615 }) w
          (record {
            octets = sound.octets;
            buffer = sound.buffer;
            file = sound.file;
            few = sound.few;
            missed = sound.missed;
          })
          (sym (taken _ _ w heard) ∙ h)) [
            | inl stays ↦ Stays-Grows t t' w w' recvfrom_fails stays
            | inr (ours, (opcode, number, long, fits, next, files)) ↦ absurd (omega (arith, fits))
          ]
    | inr deaf ↦
        Stays-Grows t t' w w' recvfrom_fails (time_out-Stays t w (sym (passed _ _ w deaf) ∙ h))
  ]

-- From a sound transfer, over any events whose payloads are bytes, and with any system calls
-- failing: while the transfer goes on it is sound, that is, the file has 512 bytes for each
-- block that was acknowledged, the block number fits in 16 bits, and the missed packets are none
-- or within the bound of the session; and the file holds what it held before, followed by the
-- data of the blocks acknowledged since, in order, each of which the client sent under its
-- number in a full data packet.
pub receive-Grows :
    (s : Session) (es : List Event) (t : Transfer) (w : World) {t' : Transfer} {w' : World}
    {later : List Event}
    → IsSound s t w
    → AllEvents es
    → receive s t es w ≡ done (again t', later) w'
    → IsSound s t' w' × Grows s t.block_number es t'.block_number (stored s w) (stored s w')
unfolding receive
receive-Grows s [] t w {t'} {w'} sound ok h =
    let same : t ≡ t' = cc h in
    let world : w ≡ w' = cc h in
    rw (← same, ← world) (sound, ([], nothing, λ c e. e ∙ ap some (sym (append-nil c))))
receive-Grows s (e ∷ es) t w {t'} {w'} {later} sound ok h =
    go (round s t e w) refl (λ u v. receive-Grows s es u v)
  where
    go :
        (o : Outcome Next)
        → round s t e w ≡ o
        → ((u : Transfer) (v : World)
            → IsSound s u v
            → AllEvents es
            → receive s u es v ≡ done (again t', later) w'
            → IsSound s t' w'
              × Grows s u.block_number es t'.block_number (stored s v) (stored s w'))
        → IsSound s t' w'
          × Grows s t.block_number (e ∷ es) t'.block_number (stored s w) (stored s w')
    go (done (again u) v) q ih =
        let (good, grows) =
          ih u v (round-IsSound s t w e sound ok.0 q) ok.1 (sym (receive-again s t e es w q) ∙ h) in
        (good, round-Grows s t u w v e sound ok.0 q grows)
    go (done returned v) q ih = cc (sym (receive-returned s t e es w q) ∙ h)
    go (exited v) q ih = cc (rw (q, ◌>>=◌) at h)
    go (overrun v) q ih = cc (rw (q, ◌>>=◌) at h)
