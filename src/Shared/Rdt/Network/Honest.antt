-- ===== src/Shared/Rdt/Network/Honest.antt =====
-- What the datagrams of the two sides say, and the rule for actions that send only such datagrams.
use computer_network_socket.Base.{
  ℕ, ◌≤◌, ◌<◌, ◌≡◌, ◌≢◌, refl, Bool, true, Option, none, some, List, [], ◌∷◌, ◌++◌, bit_and,
}
use computer_network_socket.Shared.Constants.{flag_syn, flag_ack, flag_fin, flag_data}
use computer_network_socket.Shared.Address.{Address}
use computer_network_socket.Shared.Packet.{Packet, unpack_packet}
use computer_network_socket.Shared.Rdt.Action.{
  Effect, send, progress, Result, ok, raised, Action, ◌>>=◌, send_packet,
}
use computer_network_socket.Shared.Rdt.Sender.{chunk, total_packets}

-- A datagram for the receiver is genuine: its DATA is the chunk of its number, which is below `next`;
-- its FIN has the number of packets; a SYN has the number 0.
pub record IsGenuinePacket (raw : List ℕ) (next : ℕ) (p : Packet) : Type 0 where
  pub data_lt : p.flags ≡ flag_data → p.seq < next
  pub data_eq : p.flags ≡ flag_data → p.payload ≡ chunk raw p.seq
  pub fin_eq : p.flags ≡ flag_fin → p.seq ≡ total_packets raw
  pub syn_eq : p.flags ≡ flag_syn → p.seq ≡ 0

abbrev pub IsGenuine : List ℕ → ℕ → List ℕ → Type 0
IsGenuine raw next bs = (p : Packet) → unpack_packet bs ≡ some p → IsGenuinePacket raw next p

-- A datagram for the sender is honest: no ACK is above `n`, and a FIN comes only once `fin` is set.
pub record IsHonestPacket (n : ℕ) (fin : Bool) (p : Packet) : Type 0 where
  pub ack_le : bit_and p.flags flag_ack ≢ 0 → p.ack ≤ n
  pub fin_set : p.flags ≡ flag_fin → fin ≡ true

abbrev pub IsHonest : ℕ → Bool → List ℕ → Type 0
IsHonest n fin bs = (p : Packet) → unpack_packet bs ≡ some p → IsHonestPacket n fin p

-- Every datagram of the effects satisfies `P`.
abbrev pub Sends : (List ℕ → Type 0) → List Effect → Type 0
Sends P [] = Unit {0}
Sends P (send bs to ∷ es) = P bs × Sends P es
Sends P (progress current total ∷ es) = Sends P es

-- The action sends only what satisfies `P`, and its result, if there is one, satisfies `Q`.
abbrev pub Holds : {A : Type 0} → (A → Type 0) → Result A → Type 0
Holds Q (ok a) = Q a
Holds Q (raised x) = Unit {0}

pub record Keeps {A : Type 0} (P : List ℕ → Type 0) (Q : A → Type 0) (m : Action A) : Type 0 where
  pub sends : Sends P m.0
  pub result : Holds Q m.1

module _ (P : List ℕ → Type 0) where
  pub Sends-append : (es fs : List Effect) → Sends P es → Sends P fs → Sends P (es ++ fs)
  Sends-append [] fs he hf = hf
  Sends-append (send bs to ∷ es) fs he hf = (he.0, Sends-append es fs he.1 hf)
  Sends-append (progress current total ∷ es) fs he hf = Sends-append es fs he hf

  pub Keeps-bind :
      {A B : Type 0} (Q : A → Type 0) (R : B → Type 0) (m : Action A) (f : A → Action B)
      → Keeps P Q m
      → ((a : A) → Q a → Keeps P R (f a))
      → Keeps P R (m >>= f)
  Keeps-bind Q R (es, ok a) f k h =
      let next = h a k.result in
      record { sends = Sends-append es (f a).0 k.sends next.sends; result = next.result }
  Keeps-bind Q R (es, raised x) f k h = record { sends = k.sends; result = tt }

  pub Keeps-send :
      (pkt : Option (List ℕ)) (to : Address)
      → ((bs : List ℕ) → pkt ≡ some bs → P bs)
      → Keeps P (λ u. Unit {0}) (send_packet pkt to)
  Keeps-send none to h = record { sends = tt; result = tt }
  Keeps-send (some bs) to h = record { sends = (h bs refl, tt); result = tt }
