-- ===== src/Server/Blocks.antt =====
-- The data packets of a client, among all that arrives at `recieving_data_mode` (server.cpp), and in its
-- buffer.
use structure_of_os.Prelude.{
  ℕ, zero, suc, ◌+◌, ◌≤◌, ◌≡◌, refl, ap, true, List, [], ◌∷◌, ◌++◌, Text, arith, length, take, drop,
}
use structure_of_os.Server.Io.{Address, same_address}
use structure_of_os.Server.Packet.{ntohs, data_opcode}
use structure_of_os.Server.Transfer.{Event, datagram, Session, received}

-- The packet is a data packet with this number, and full: of what it has, 516 bytes are read.
pub record IsBlock (n : ℕ) (packet : Text) : Type 0 where
  pub opcode : ntohs packet ≡ data_opcode
  pub number : ntohs (drop 2 packet) ≡ n
  pub full : 516 ≤ length packet

-- The data behind the four bytes of the header.
abbrev pub data_of : Text → Text
data_of packet = take 512 (drop 4 packet)

-- Among the events are, in order, data packets of the client with the numbers behind `k` up to `n`, all
-- full, whose data come to the text.
pub data Brings (s : Session) : ℕ → List Event → ℕ → Text → Type 0 where
  nothing : {k : ℕ} → Brings s k [] k []
  other :
      {k n : ℕ} {es : List Event} {text : Text} (e : Event)
      → Brings s k es n text
      → Brings s k (e ∷ es) n text
  block :
      {k n : ℕ} {es : List Event} {text : Text} (sender : Address) (packet : Text)
      → same_address s.client sender ≡ true
      → IsBlock (k + 1) packet
      → Brings s (k + 1) es n text
      → Brings s k (datagram sender packet ∷ es) n (data_of packet ++ text)

take_again : (n : ℕ) (q r : Text) → n ≤ length q → take n (take n q ++ r) ≡ take n q
take_again zero q r h = refl
take_again (suc n) [] r h = absurd (omega arith)
take_again (suc n) (c ∷ q) r h = ap (λ l. c ∷ l) (take_again n q r (omega arith))

pub length-take_le_length : (n : ℕ) (p : Text) → length (take n p) ≤ length p
length-take_le_length zero p = omega arith
length-take_le_length (suc n) [] = omega arith
length-take_le_length (suc n) (c ∷ p) = omega (arith, length-take_le_length n p)

-- What the buffer holds of a full packet.
pub buffer_of :
    (p buff : Text)
    → 516 ≤ length p
    → (ntohs (received p buff) ≡ ntohs p)
      × (ntohs (drop 2 (received p buff)) ≡ ntohs (drop 2 p))
      × (take 512 (drop 4 (received p buff)) ≡ data_of p)
buffer_of [] buff h = absurd (omega arith)
buffer_of (a ∷ []) buff h = absurd (omega arith)
buffer_of (a ∷ b ∷ []) buff h = absurd (omega arith)
buffer_of (a ∷ b ∷ c ∷ []) buff h = absurd (omega arith)
buffer_of (a ∷ b ∷ c ∷ d ∷ q) buff h = (refl, refl, take_again 512 q _ (omega arith))
