-- ===== src/Server/Ends.antt =====
-- How long a transfer of HW5 (server.cpp) can go on.
use structure_of_os.Prelude.{
  ℕ, ◌+◌, ◌-◌, ◌≤◌, ◌<◌, ◌≡◌, refl, ◌∙◌, sym, pos_part, true, false, List, [], ◌∷◌, ⊤, arith,
  length, take, drop, ◌==◌, Bool-cases, inl, inr, if◌then◌else◌,
}
use structure_of_os.Server.Io.{
  same_address, World, Outcome, done, exited, overrun, delete_file, ◌>>=◌,
}
use structure_of_os.Server.Packet.{
  ntohs, packet_size, data_opcode, send_ack, send_error, bad_block_number, unexpected_packet,
}
use structure_of_os.Server.Bytes.{AllBytes, received-AllBytes}
use structure_of_os.Server.Transfer.{
  Event, silence, datagram, select_fails, recvfrom_fails, Transfer, Session, Next, again, returned,
  received, round, receive, start, time_out, take_packet, write_block, sort_out, receive-again,
  receive-returned,
}
use structure_of_os.Server.Progress.{
  IsEvent, AllEvents, next_in_range, give_up-ends, fail-ends, taken, passed,
}

-- No packet is missed while the socket is watched.
abbrev Undisturbed : Transfer → Type 0
Undisturbed t = t.watched ≡ true → t.missed_packets ≡ 0

record Fits (t : Transfer) : Type 0 where
  octets : AllBytes t.buff
  few : t.block_number < 65536
  undisturbed : Undisturbed t

-- The events that bring a transfer nearer to its end: nothing in time, a failed `select`, and what
-- the client of the session sends.
abbrev pub weight : Session → Event → ℕ
weight s silence = 1
weight s (datagram sender payload) = if same_address s.client sender then 1 else 0
weight s select_fails = 1
weight s recvfrom_fails = 0

abbrev pub total_weight : Session → List Event → ℕ
total_weight s [] = 0
total_weight s (e ∷ es) = weight s e + total_weight s es

module _ (s : Session) where
  -- The blocks and the resends that may still come.
  abbrev room : Transfer → ℕ
  room t = 65535 - t.block_number + (pos_part s.max_num_of_resends - t.missed_packets)

  -- The transfer goes on, with so much less room.
  record Nearer (n : ℕ) (t t' : Transfer) : Type 0 where
    fits : Fits t'
    less : room t' + n ≤ room t

  module _ (t : Transfer) (w : World) (fits : Fits t) {t' : Transfer} {w' : World} where
    time_out-Nearer : time_out s t w ≡ done (again t') w' → Nearer 1 t t'
    unfolding time_out send_ack send_error delete_file
    time_out-Nearer h =
        let watch : t'.watched ≡ false = ground arith in
        record {
          fits = record {
            octets = ground (arith, fits.octets);
            few = ground (arith, fits.few);
            undisturbed = λ e. cc;
          };
          less = ground arith;
        }

    write_block-Nearer :
        t.watched ≡ true
        → t.block_number + 1 < 65536
        → write_block s t w ≡ done (again t') w'
        → Nearer 1 t t'
    unfolding write_block send_ack delete_file
    write_block-Nearer heard low h = record {
      fits = record { octets = ground arith; few = ground arith; undisturbed = λ e. ground arith };
      less = ground (arith, fits.undisturbed heard);
    }

    take_packet-Nearer : t.watched ≡ true → take_packet s t w ≡ done (again t') w' → Nearer 1 t t'
    unfolding take_packet
    take_packet-Nearer heard h = elim (Bool-cases (ntohs (drop 2 t.buff) == t.block_number + 1)) [
      | inr wrong ↦ absurd (give_up-ends s w bad_block_number (rw wrong at h))
      | inl right ↦ elim (Bool-cases (ntohs t.buff == data_opcode)) [
        | inr other ↦ absurd (give_up-ends s w unexpected_packet (rw (right, other) at h))
        | inl same ↦
            write_block-Nearer heard (next_in_range t fits.octets right) (rw (right, same) at h)
      ]
    ]

    sort_out-Nearer :
        t.watched ≡ true
        → sort_out s t w ≡ done (again t') w'
        → Nearer (if same_address s.client t.curr_client then 1 else 0) t t'
    unfolding send_error
    sort_out-Nearer heard h = elim (Bool-cases (same_address s.client t.curr_client)) [
      | inl ours ↦ rw ours (take_packet-Nearer heard (rw ours at h))
      | inr other ↦ rw other (record {
        fits = record {
          octets = ground (arith, fits.octets);
          few = ground (arith, fits.few);
          undisturbed = λ e. ground (arith, fits.undisturbed heard);
        };
        less = ground arith;
      })
    ]

  Nearer-le : (m n : ℕ) (t t' : Transfer) → m ≤ n → Nearer n t t' → Nearer m t t'
  Nearer-le m n t t' h near = record { fits = near.fits; less = omega (arith, near.less) }

  round-Nearer :
      (t : Transfer) (w : World) (e : Event) {t' : Transfer} {w' : World}
      → Fits t
      → IsEvent e
      → round s t e w ≡ done (again t') w'
      → Nearer (weight s e) t t'
  unfolding round
  round-Nearer t w silence fits ok h = time_out-Nearer t w fits h
  round-Nearer t w (datagram a p) {t'} fits ok h = elim (Bool-cases t.watched) [
    | inl heard ↦
        let near =
          sort_out-Nearer
            (record t {
              buff = received p t.buff;
              message_size = length (take packet_size p);
              curr_client = a;
            })
            w
            (record {
              octets = received-AllBytes p t.buff ok fits.octets;
              few = fits.few;
              undisturbed = fits.undisturbed;
            })
            heard (sym (taken _ _ w heard) ∙ h) in
        record { fits = near.fits; less = near.less }
    | inr deaf ↦
        Nearer-le (weight s (datagram a p)) 1 t t' (ground arith)
          (time_out-Nearer t w fits (sym (passed _ _ w deaf) ∙ h))
  ]
  round-Nearer t w select_fails fits ok h = absurd (fail-ends s w h)
  round-Nearer t w recvfrom_fails {t'} fits ok h = elim (Bool-cases t.watched) [
    | inl heard ↦
        let near =
          sort_out-Nearer (record t { message_size = 18446744073709551615 }) w
            (record { octets = fits.octets; few = fits.few; undisturbed = fits.undisturbed }) heard
            (sym (taken _ _ w heard) ∙ h) in
        record { fits = near.fits; less = omega (arith, near.less) }
    | inr deaf ↦
        Nearer-le 0 1 t t' (omega arith) (time_out-Nearer t w fits (sym (passed _ _ w deaf) ∙ h))
  ]

  -- The transfer has ended: the function returned, the process exited, or it read too far.
  abbrev pub HasEnded : Outcome (Next × List Event) → Type 0
  HasEnded (done (again t, es) w) = ⊥
  HasEnded (done (returned, es) w) = ⊤
  HasEnded (exited w) = ⊤
  HasEnded (overrun w) = ⊤

  receive-ends_from :
      (t : Transfer) (es : List Event) (w : World)
      → Fits t
      → AllEvents es
      → room t < total_weight s es
      → HasEnded (receive s t es w)
  unfolding receive
  receive-ends_from t [] w fits ok h = absurd (omega arith)
  receive-ends_from t (e ∷ es) w fits ok h =
      go (round s t e w) refl (λ u v. receive-ends_from u es v)
    where
      go :
          (o : Outcome Next)
          → round s t e w ≡ o
          → ((u : Transfer) (v : World)
              → Fits u
              → AllEvents es
              → room u < total_weight s es
              → HasEnded (receive s u es v))
          → HasEnded (receive s t (e ∷ es) w)
      go (done (again u) v) q ih =
          let near = round-Nearer t w e fits ok.0 q in
          rw (receive-again s t e es w q) (ih u v near.fits ok.1 (omega (arith, near.less)))
      go (done returned v) q ih = rw (receive-returned s t e es w q) tt
      go (exited v) q ih = rw (receive, q, ◌>>=◌) tt
      go (overrun v) q ih = rw (receive, q, ◌>>=◌) tt

  -- A transfer ends: whatever arrives and whichever system calls fail, of the events that are a
  -- time-out, a failed `select` or a datagram of the client it takes at most one for each block
  -- number and one for each resend, and then one more. What arrives are bytes.
  pub receive-ends :
      (es : List Event) (w : World)
      → AllEvents es
      → 65535 + pos_part s.max_num_of_resends < total_weight s es
      → HasEnded (receive s start es w)
  receive-ends es w ok h = receive-ends_from start es w start-Fits ok (omega arith)
    where
      start-Fits : Fits start
      start-Fits = record { octets = ground arith; few = omega arith; undisturbed = λ e. refl }
