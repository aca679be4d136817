-- ===== src/Server/Progress.antt =====
-- What holds all through a transfer, whatever arrives and whichever system calls fail.
use structure_of_os.Prelude.{
  ℕ, ◌+◌, ◌*◌, ◌≤◌, ◌<◌, ◌≡◌, ◌⊎◌, inl, inr, refl, ◌∙◌, sym, pos, ◌≤ℤ◌, Bool, true, false, Option,
  none, some, List, [], ◌∷◌, ⊤, Text, arith, length, length-append, length-take, length-take_le,
  length-drop, take, drop, ◌==◌, ==_iff, Bool-cases, if◌then◌else◌,
}
use structure_of_os.Server.Io.{
  Address, same_address, World, Io, done, content, add_to_file, delete_file,
}
use structure_of_os.Server.Packet.{
  ntohs, packet_size, data_opcode, send_ack, send_error, bad_block_number, unexpected_packet,
}
use structure_of_os.Server.Bytes.{
  AllBytes, ntohs-lt, drop-AllBytes, received-AllBytes, length-received, content-add_to_file,
}
use structure_of_os.Server.Transfer.{
  Event, silence, datagram, select_fails, recvfrom_fails, Transfer, Session, Next, again, received,
  round, time_out, take_packet, write_block, data_length, sort_out, give_up, fail,
}

-- The bytes of the file as far as it is stored.
abbrev pub stored : Session → World → Option Text
stored s w = content s.file_name w.files

abbrev pub FileHas : ℕ → Option Text → Type 0
FileHas n none = ⊥
FileHas n (some c) = length c ≡ n

-- The file has 512 bytes for each block that was acknowledged; no packet more is missed than the
-- session allows.
pub record IsSound (s : Session) (t : Transfer) (w : World) : Type 0 where
  pub octets : AllBytes t.buff
  pub buffer : length t.buff ≡ 516
  pub file : FileHas (512 * t.block_number) (stored s w)
  pub few : t.block_number < 65536
  pub missed : (t.missed_packets ≡ 0) ⊎ (pos t.missed_packets ≤ℤ s.max_num_of_resends)

module _ (s : Session) (t : Transfer) (w : World) (sound : IsSound s t w) where
  time_out-IsSound :
      {t' : Transfer} {w' : World} → time_out s t w ≡ done (again t') w' → IsSound s t' w'
  unfolding time_out send_ack send_error delete_file
  time_out-IsSound h = ground arith

-- The next number is in range, since two bytes hold it.
pub next_in_range :
    (t : Transfer)
    → AllBytes t.buff
    → (ntohs (drop 2 t.buff) == t.block_number + 1) ≡ true
    → t.block_number + 1 < 65536
next_in_range t octets right = omega (
  arith,
  (==_iff (ntohs (drop 2 t.buff)) (t.block_number + 1)).0 right,
  ntohs-lt (drop 2 t.buff) (drop-AllBytes 2 t.buff octets),
)

module _ (s : Session) (w : World) where
  pub give_up-ends :
      (act : Address → Io ⊤) {t' : Transfer} {w' : World} → give_up s act w ≡ done (again t') w' → ⊥
  unfolding delete_file
  give_up-ends act h = ground arith

  pub fail-ends : {t' : Transfer} {w' : World} → fail s {A = Next} w ≡ done (again t') w' → ⊥
  unfolding delete_file
  fail-ends h = ground arith

-- A block of a full packet has 512 bytes.
pub full_count :
    (n : ℕ) → n < 18446744073709551616 → 516 ≤ n → data_length n ≤ 512 → data_length n ≡ 512
full_count n h k l = omega arith

module _ (s : Session) (t : Transfer) (w : World) (sound : IsSound s t w) where
  file_grows :
      (d : Text) (c : Option Text)
      → stored s w ≡ c
      → length d ≡ 512
      → FileHas
          (512 * (t.block_number + 1))
          (content s.file_name (add_to_file s.file_name d w.files))
  file_grows d none e l = absurd (rw e at sound.file)
  file_grows d (some c) e l =
      let size : length c ≡ 512 * t.block_number = rw e at sound.file in
      rw (content-add_to_file s.file_name c d w.files e) (omega (arith, length-append {0} c d))

  block_length :
      t.message_size < 18446744073709551616
      → 516 ≤ t.message_size
      → data_length t.message_size ≤ 512
      → length (take (data_length t.message_size) (drop 4 t.buff)) ≡ 512
  block_length a b c =
      rw (full_count t.message_size a b c)
        (length-take 512 (drop 4 t.buff) (omega (arith, sound.buffer, length-drop {0} 4 t.buff)))

  write_block-IsSound :
      {t' : Transfer} {w' : World}
      → t.message_size < 18446744073709551616
      → t.block_number + 1 < 65536
      → write_block s t w ≡ done (again t') w'
      → IsSound s t' w'
  unfolding write_block send_ack delete_file
  write_block-IsSound a b h = ground (
    arith,
    file_grows (take (data_length t.message_size) (drop 4 t.buff)) (stored s w) refl,
    block_length a,
  )

  take_packet-IsSound :
      {t' : Transfer} {w' : World}
      → t.message_size < 18446744073709551616
      → take_packet s t w ≡ done (again t') w'
      → IsSound s t' w'
  unfolding take_packet
  take_packet-IsSound a h = elim (Bool-cases (ntohs (drop 2 t.buff) == t.block_number + 1)) [
    | inr wrong ↦ absurd (give_up-ends s w bad_block_number (rw wrong at h))
    | inl right ↦ elim (Bool-cases (ntohs t.buff == data_opcode)) [
      | inr other ↦ absurd (give_up-ends s w unexpected_packet (rw (right, other) at h))
      | inl same ↦
          write_block-IsSound a (next_in_range t sound.octets right) (rw (right, same) at h)
    ]
  ]

  sort_out-IsSound :
      {t' : Transfer} {w' : World}
      → t.message_size < 18446744073709551616
      → sort_out s t w ≡ done (again t') w'
      → IsSound s t' w'
  unfolding send_error
  sort_out-IsSound a h = elim (Bool-cases (same_address s.client t.curr_client)) [
    | inl ours ↦ take_packet-IsSound a (rw ours at h)
    | inr other ↦ ground arith
  ]

-- What the network hands over are bytes.
abbrev pub IsEvent : Event → Type 0
IsEvent (datagram a p) = AllBytes p
IsEvent _ = Unit

abbrev pub AllEvents : List Event → Type 0
AllEvents [] = Unit
AllEvents (e ∷ es) = IsEvent e × AllEvents es

pub taken :
    {A : Type 0} {b : Bool} (m n : Io A) (w : World) → b ≡ true → (if b then m else n) w ≡ m w
taken m n w e = rw e

pub passed :
    {A : Type 0} {b : Bool} (m n : Io A) (w : World) → b ≡ false → (if b then m else n) w ≡ n w
passed m n w e = rw e

-- A datagram is in the buffer.
abbrev pub hears : Transfer → Address → Text → Transfer
hears t a p = record t {
  buff = received p t.buff;
  message_size = length (take packet_size p);
  curr_client = a;
}

pub hears-IsSound :
    (s : Session) (t : Transfer) (w : World) (a : Address) (p : Text)
    → AllBytes p
    → IsSound s t w
    → IsSound s (hears t a p) w
hears-IsSound s t w a p ok sound = record {
  octets = received-AllBytes p t.buff ok sound.octets;
  buffer = length-received p t.buff sound.buffer;
  file = sound.file;
  few = sound.few;
  missed = sound.missed;
}

-- A round that does not end the transfer keeps it sound.
pub round-IsSound :
    (s : Session) (t : Transfer) (w : World) (e : Event) {t' : Transfer} {w' : World}
    → IsSound s t w
    → IsEvent e
    → round s t e w ≡ done (again t') w'
    → IsSound s t' w'
unfolding round
round-IsSound s t w silence sound ok h = time_out-IsSound s t w sound h
round-IsSound s t w (datagram a p) sound ok h = elim (Bool-cases t.watched) [
  | inl heard ↦
      sort_out-IsSound s (hears t a p) w (hears-IsSound s t w a p ok sound)
        (omega (arith, length-take_le {0} 516 p)) (sym (taken _ _ w heard) ∙ h)
  | inr deaf ↦ time_out-IsSound s t w sound (sym (passed _ _ w deaf) ∙ h)
]
round-IsSound s t w select_fails sound ok h = absurd (fail-ends s w h)
round-IsSound s t w recvfrom_fails sound ok h = elim (Bool-cases t.watched) [
  | inl heard ↦
      sort_out-IsSound s (record t { message_size = 18446744073709551615 }) w
        (record {
          octets = sound.octets;
          buffer = sound.buffer;
          file = sound.file;
          few = sound.few;
          missed = sound.missed;
        })
        (omega arith) (sym (taken _ _ w heard) ∙ h)
  | inr deaf ↦ time_out-IsSound s t w sound (sym (passed _ _ w deaf) ∙ h)
]
