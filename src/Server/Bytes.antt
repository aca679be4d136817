-- ===== src/Server/Bytes.antt =====
-- Buffers of bytes, and files that grow.
use structure_of_os.Prelude.{
  ℕ, zero, suc, ◌<◌, ◌≡◌, some, List, [], ◌∷◌, ◌++◌, Text, arith, length, length-append,
  length-take_le, length-drop, take, drop, replicate, text_eq, Bool-cases, inl, inr,
}
use structure_of_os.Server.Io.{content, add_to_file}
use structure_of_os.Server.Packet.{ntohs, packet_size}
use structure_of_os.Server.Transfer.{received}

-- Every byte fits in eight bits.
abbrev pub AllBytes : Text → Type 0
AllBytes [] = Unit
AllBytes (c ∷ t) = (c < 256) × AllBytes t

pub ntohs-lt : (t : Text) → AllBytes t → ntohs t < 65536
ntohs-lt [] h = omega arith
ntohs-lt (a ∷ []) h = omega arith
ntohs-lt (a ∷ b ∷ t) h = omega arith

pub drop-AllBytes : (n : ℕ) (t : Text) → AllBytes t → AllBytes (drop n t)
drop-AllBytes zero t h = h
drop-AllBytes (suc n) [] h = tt
drop-AllBytes (suc n) (c ∷ t) h = drop-AllBytes n t h.1

take-AllBytes : (n : ℕ) (t : Text) → AllBytes t → AllBytes (take n t)
take-AllBytes zero t h = tt
take-AllBytes (suc n) [] h = tt
take-AllBytes (suc n) (c ∷ t) h = (h.0, take-AllBytes n t h.1)

append-AllBytes : (s t : Text) → AllBytes s → AllBytes t → AllBytes (s ++ t)
append-AllBytes [] t g h = h
append-AllBytes (c ∷ s) t g h = (g.0, append-AllBytes s t g.1 h)

pub zeros-AllBytes : (n : ℕ) → AllBytes (replicate n 0)
zeros-AllBytes zero = tt
zeros-AllBytes (suc n) = (omega arith, zeros-AllBytes n)

-- `recvfrom` keeps the size of the buffer, and bytes.
pub received-AllBytes : (p b : Text) → AllBytes p → AllBytes b → AllBytes (received p b)
received-AllBytes p b g h =
    append-AllBytes (take packet_size p) _ (take-AllBytes packet_size p g)
      (drop-AllBytes (length (take packet_size p)) b h)

pub length-received : (p b : Text) → length b ≡ 516 → length (received p b) ≡ 516
length-received p b h = omega (
  arith,
  length-append {0} (take 516 p) (drop (length (take 516 p)) b),
  length-drop {0} (length (take 516 p)) b,
  length-take_le {0} 516 p,
)

pub content-add_to_file :
    (name c d : Text) (files : List (Text × Text))
    → content name files ≡ some c
    → content name (add_to_file name d files) ≡ some (c ++ d)
content-add_to_file name c d [] h = cc
content-add_to_file name c d ((n, b) ∷ files) h = elim (Bool-cases (text_eq n name)) [
  | inl same ↦ rw (same, same) (cc (rw same at h))
  | inr other ↦ rw (other, other) (content-add_to_file name c d files (rw other at h))
]
