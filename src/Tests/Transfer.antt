-- ===== src/Tests/Transfer.antt =====
-- A whole transfer of three bytes, and the transfer's theorems at it.
use computer_network_socket.Base.{
  ℕ, ◌*◌, ◌≤◌, ◌+◌, ◌≡◌, ◌≢◌, refl, inl, inr, true, false, some, none, List, [], ◌∷◌, take, drop,
}
use computer_network_socket.Shared.Constants.{max_payload, window_size}
use computer_network_socket.Shared.Address.{Address}
use computer_network_socket.Shared.Checksum.{compute_checksum, verify_checksum}
use computer_network_socket.Shared.Packet.{pack_packet, unpack_packet, pack_header, unpack_header}
use computer_network_socket.Shared.Rdt.Action.{Arrival, timed_out, datagram}
use computer_network_socket.Shared.Rdt.Sender
use computer_network_socket.Shared.Rdt.Sender.{
  SendConfig, SendState, SendInput, sending, make_data_packet, total_packets, sender_turn,
}
use computer_network_socket.Shared.Rdt.Receiver
use computer_network_socket.Shared.Rdt.Receiver.{
  RecvConfig, RecvState, RecvInput, LingerState, receiving, lingering, receiver_turn,
}
use computer_network_socket.Shared.Rdt.Network.{
  World, sender_step, receiver_step, start_world, Reach, here, sender_moves, receiver_moves,
}
use computer_network_socket.Shared.Rdt.Network.Safety.{
  receiver_returns_sent, receiver_holds_prefix, sender_returns_delivered, sender_window,
}

abbrev pub hi : List ℕ
hi = 104 ∷ 105 ∷ 33 ∷ []

abbrev pub client : Address
client = record { host = 1; port = 5000 }

abbrev server : Address
server = record { host = 2; port = 6000 }

abbrev pub scfg : SendConfig
scfg = record {
  raw_data = hi;
  dest_addr = server;
  expected_peer = server;
  reports = true;
  respond_to_syn = false;
}

abbrev pub rcfg : RecvConfig
rcfg = record { expected_peer = some client; total_bytes = none; respond_to_syn = true }

abbrev send_input : Arrival → SendInput
send_input a = record {
  cancelled = false;
  cancelled_filling = λ i. false;
  arrival = a;
  cancelled_later = false;
  cancelled_resending = λ i. false;
  fill_time = 0;
  arrival_time = 0;
  check_time = 0;
  resend_time = 0;
}

abbrev recv_input : Arrival → ℕ → RecvInput
recv_input a t = record {
  cancelled = false;
  arrival = a;
  cancelled_later = false;
  now = t;
  now_later = t;
}

abbrev data_0 : List ℕ
data_0 = 0 ∷ 0 ∷ 0 ∷ 0 ∷ 0 ∷ 0 ∷ 0 ∷ 0 ∷ 142 ∷ 115 ∷ 0 ∷ 3 ∷ 8 ∷ hi

abbrev ack_1 : List ℕ
ack_1 = 0 ∷ 0 ∷ 0 ∷ 0 ∷ 0 ∷ 0 ∷ 0 ∷ 1 ∷ 253 ∷ 254 ∷ 0 ∷ 0 ∷ 2 ∷ []

abbrev fin_1 : List ℕ
fin_1 = 0 ∷ 0 ∷ 0 ∷ 1 ∷ 0 ∷ 0 ∷ 0 ∷ 0 ∷ 251 ∷ 254 ∷ 0 ∷ 0 ∷ 4 ∷ []

abbrev fin_ack_1 : List ℕ
fin_ack_1 = 0 ∷ 0 ∷ 0 ∷ 0 ∷ 0 ∷ 0 ∷ 0 ∷ 1 ∷ 251 ∷ 254 ∷ 0 ∷ 0 ∷ 4 ∷ []

abbrev sends : Arrival → World → World
sends a w = sender_step scfg rcfg client w (send_input a)

abbrev receives : Arrival → ℕ → World → World
receives a t w = receiver_step scfg rcfg client w (recv_input a t)

abbrev w₁ : World
w₁ = sends timed_out (start_world [] [])

abbrev w₂ : World
w₂ = receives (datagram data_0 client) 0 w₁

abbrev w₃ : World
w₃ = sends (datagram ack_1 server) w₂

abbrev w₄ : World
w₄ = sends timed_out w₃

abbrev w₅ : World
w₅ = receives (datagram fin_1 client) 0 w₄

abbrev w₆ : World
w₆ = sends (datagram fin_ack_1 server) w₅

abbrev pub w₇ : World
w₇ = receives timed_out 600 w₆

abbrev Reached : World → Type 0
Reached w = Reach scfg rcfg client (start_world [] []) w

-- What a run computes with.
runs : Unit {0}
unfolding sender_step receiver_step sender_turn receiver_turn make_data_packet total_packets take
    drop pack_packet pack_header unpack_packet unpack_header compute_checksum verify_checksum
runs = tt

reach₁ : Reached w₁
reach₁ = sender_moves (send_input timed_out) here tt

reach₂ : Reached w₂
unfolding runs
reach₂ = receiver_moves (recv_input (datagram data_0 client) 0) reach₁ (inr (inr (inl refl)))

reach₃ : Reached w₃
unfolding runs
reach₃ = sender_moves (send_input (datagram ack_1 server)) reach₂ (inr (inr (inl refl)))

reach₄ : Reached w₄
reach₄ = sender_moves (send_input timed_out) reach₃ tt

reach₅ : Reached w₅
unfolding runs
reach₅ = receiver_moves (recv_input (datagram fin_1 client) 0) reach₄ (inr (inr (inl refl)))

reach₆ : Reached w₆
unfolding runs
reach₆ = sender_moves (send_input (datagram fin_ack_1 server)) reach₅ (inr (inr (inl refl)))

pub reach₇ : Reached w₇
reach₇ = receiver_moves (recv_input timed_out 600) reach₆ tt

-- The states after one packet on each side, and at the end.
abbrev sent_one : SendState
sent_one = record {
  base = 0;
  next_seq_num = 1;
  dup_ack_count = 0;
  data_retry_count = 0;
  timer_start = 0;
}

abbrev got_one : RecvState
got_one = record {
  received_data = hi;
  expected_seq = 1;
  received_bytes = 3;
  receive_timeout_count = 0;
}

w₂_sender : w₂.sender ≡ sending sent_one
unfolding runs
w₂_sender = refl

w₂_receiver : w₂.receiver ≡ receiving got_one
unfolding runs
w₂_receiver = refl

w₆_sender : w₆.sender ≡ Sender.returned
unfolding runs
w₆_sender = refl

pub w₇_receiver : w₇.receiver ≡ Receiver.returned hi
unfolding runs
w₇_receiver = refl

receiver_returns_sent_example : hi ≡ scfg.raw_data
receiver_returns_sent_example =
    receiver_returns_sent scfg rcfg client [] [] w₇ refl tt tt reach₇ hi w₇_receiver

receiver_holds_prefix_example : (hi ≡ take (1 * max_payload) hi) × (1 ≤ total_packets hi)
receiver_holds_prefix_example =
    receiver_holds_prefix scfg rcfg client [] [] w₂ refl tt tt reach₂ got_one w₂_receiver

sender_returns_delivered_example :
    ((st : RecvState) → w₆.receiver ≢ receiving st)
    × ((st : LingerState) → w₆.receiver ≡ lingering st → st.content ≡ hi)
sender_returns_delivered_example =
    sender_returns_delivered scfg rcfg client [] [] w₆ refl tt tt reach₆ w₆_sender

sender_window_example : (0 ≤ 1) × (1 ≤ 1) × (1 ≤ 0 + window_size) × (1 ≤ total_packets hi)
sender_window_example =
    sender_window scfg rcfg client [] [] w₂ refl tt tt reach₂ sent_one got_one w₂_sender w₂_receiver
