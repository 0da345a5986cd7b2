-- ===== src/Shared/Rdt/Network.antt =====
-- One transfer over a network that loses, repeats, delays and reorders datagrams, corrupts them so
-- that the checksum fails, and lets in datagrams of other addresses.
pub mod Honest
pub mod FromReceiver
pub mod ReceiverTurn
pub mod FromSender
pub mod SenderTurn
pub mod Safety
use computer_network_socket.Base.{
  ℕ, ◌≡◌, ◌≢◌, ◌⊎◌, Bool, true, false, List, [], ◌∷◌, ◌++◌, if◌then◌else◌,
}
use computer_network_socket.Shared.Address.{Address, same_address}
use computer_network_socket.Shared.Checksum.{verify_checksum}
use computer_network_socket.Shared.Rdt.Action.{Effect, send, progress, Arrival, timed_out, datagram}
use computer_network_socket.Shared.Rdt.Sender.{
  SendConfig, SendInput, Sender, sending, send_start, sender_turn,
}
use computer_network_socket.Shared.Rdt.Receiver.{
  RecvConfig, RecvInput, Receiver, receiving, recv_start, receiver_turn,
}

-- The two calls, and every datagram that either has sent to the other.
pub record World : Type 0 where
  pub sender : Sender
  pub receiver : Receiver
  pub to_receiver : List (List ℕ)
  pub to_sender : List (List ℕ)

-- The datagrams that go to an address.
abbrev pub sent_to : Address → List Effect → List (List ℕ)
sent_to a [] = []
sent_to a (send bs to ∷ es) = if same_address to a then bs ∷ sent_to a es else sent_to a es
sent_to a (progress current total ∷ es) = sent_to a es

abbrev pub InPool : List ℕ → List (List ℕ) → Type 0
InPool bs [] = ⊥
InPool bs (x ∷ pool) = (bs ≡ x) ⊎ InPool bs pool

-- What may arrive: nothing, a datagram of another address, one that was damaged, or one of the pool.
abbrev pub Delivers : List (List ℕ) → Address → Arrival → Type 0
Delivers pool peer timed_out = Unit {0}
Delivers pool peer (datagram bs from) =
    (from ≢ peer) ⊎ (verify_checksum bs ≡ false) ⊎ InPool bs pool

module _ (scfg : SendConfig) (rcfg : RecvConfig) (sender_addr : Address) where
  unfoldable pub sender_step : World → SendInput → World
  sender_step w inp =
      let (es, s) = sender_turn scfg w.sender inp in
      record w { sender = s; to_receiver = sent_to scfg.dest_addr es ++ w.to_receiver }

  unfoldable pub receiver_step : World → RecvInput → World
  receiver_step w inp =
      let (es, r) = receiver_turn rcfg w.receiver inp in
      record w { receiver = r; to_sender = sent_to sender_addr es ++ w.to_sender }

  -- The worlds that a transfer can reach, in any order of turns.
  pub data Reach (w₀ : World) : World → Type 0 where
    here : Reach w₀ w₀
    sender_moves :
        {w : World} (inp : SendInput)
        → Reach w₀ w
        → Delivers w.to_sender scfg.expected_peer inp.arrival
        → Reach w₀ (sender_step w inp)
    receiver_moves :
        {w : World} (inp : RecvInput)
        → Reach w₀ w
        → Delivers w.to_receiver sender_addr inp.arrival
        → Reach w₀ (receiver_step w inp)

-- Both calls are about to enter their loops; `old` datagrams of the handshake may still be under way.
abbrev pub start_world : List (List ℕ) → List (List ℕ) → World
start_world old_to_receiver old_to_sender = record {
  sender = sending send_start;
  receiver = receiving recv_start;
  to_receiver = old_to_receiver;
  to_sender = old_to_sender;
}
