-- ===== src/Shared/Rdt/Receiver.antt =====
-- `reliable_recv` and `_linger_after_fin`. One input is one turn of the loop.
use computer_network_socket.Base.{
  ℕ, ◌+◌, min, Bool, true, false, not, ◌&&◌, ◌||◌, Option, none, some, List, [], ◌∷◌, ◌++◌, length,
  ltb, leb, ◌==◌, if◌then◌else◌, bit_or,
}
use computer_network_socket.Shared.Constants.{
  header_size, data_max_retries, fin_linger_timeout_ms, flag_syn, flag_ack, flag_fin, flag_data,
}
use computer_network_socket.Shared.Address.{Address, same_address}
use computer_network_socket.Shared.Checksum.{verify_checksum}
use computer_network_socket.Shared.Packet.{Packet, pack_packet, unpack_packet}
use computer_network_socket.Shared.Rdt.Action.{
  Effect, Exception, data_timeout, ok, raised, Action, ◌>>◌, pure, raise, raise_if_cancelled,
  send_packet, report, Arrival, timed_out, datagram,
}

-- The arguments of the call. `total_bytes` is given where a progress callback is given too.
pub record RecvConfig : Type 0 where
  pub expected_peer : Option Address
  pub total_bytes : Option ℕ
  pub respond_to_syn : Bool

-- The local variables of the loop.
pub record RecvState : Type 0 where
  pub received_data : List ℕ
  pub expected_seq : ℕ
  pub received_bytes : ℕ
  pub receive_timeout_count : ℕ

abbrev pub recv_start : RecvState
recv_start = record {
  received_data = [];
  expected_seq = 0;
  received_bytes = 0;
  receive_timeout_count = 0;
}

-- The variables of `_linger_after_fin`, with the data that the caller holds.
pub record LingerState : Type 0 where
  pub content : List ℕ
  pub sender_addr : Address
  pub final_seq : ℕ
  pub ack_fin : List ℕ
  pub linger_deadline : ℕ

pub data Receiver : Type 0 where
  receiving : RecvState → Receiver
  lingering : LingerState → Receiver
  returned : List ℕ → Receiver
  failed : Exception → Receiver

-- What one turn sees: the cancel event at the head of the loop and after the wait, the wait's end,
-- and the clock at the head of the loop and after the last datagram sent.
pub record RecvInput : Type 0 where
  pub cancelled : Bool
  pub arrival : Arrival
  pub cancelled_later : Bool
  pub now : ℕ
  pub now_later : ℕ

abbrev pub is_empty : List ℕ → Bool
is_empty [] = true
is_empty (x ∷ xs) = false

abbrev pub from_expected_peer : Option Address → Address → Bool
from_expected_peer none from = true
from_expected_peer (some peer) from = same_address from peer

-- `_is_valid_fin_packet`
unfoldable pub is_valid_fin_packet : Packet → ℕ → Bool
is_valid_fin_packet p seq =
    p.flags == flag_fin && (p.seq == seq && (p.length == 0 && is_empty p.payload))

abbrev pub report_received : Option ℕ → ℕ → Action (Unit {0})
report_received none received = pure tt
report_received (some total) received = report (min received total) total

-- `pack_packet(seq=0, ack=…, flags=…)`
abbrev pub control_packet : ℕ → ℕ → Option (List ℕ)
control_packet ack flags = pack_packet 0 ack flags []

unfoldable pub recv_data : RecvConfig → RecvState → Packet → Address → Action Receiver
recv_data cfg st p from =
    if p.seq == st.expected_seq
    then (let st' : RecvState = record {
      received_data = st.received_data ++ p.payload;
      expected_seq = st.expected_seq + 1;
      received_bytes = st.received_bytes + length p.payload;
      receive_timeout_count = 0;
    } in
        report_received cfg.total_bytes st'.received_bytes
        >> send_packet (control_packet st'.expected_seq flag_ack) from
        >> pure (receiving st'))
    else (send_packet (control_packet st.expected_seq flag_ack) from
        >> pure (receiving (record st { receive_timeout_count = 0 })))

unfoldable pub recv_fin : RecvState → Packet → Address → ℕ → Action Receiver
recv_fin st p from now =
    if not (p.length == 0 && is_empty p.payload)
    then pure (receiving st)
    else if not (p.seq == st.expected_seq)
    then (send_packet (control_packet st.expected_seq flag_ack) from >> pure (receiving st))
    else elim (control_packet p.seq flag_fin) [
      | none ↦ send_packet none from >> pure (receiving st)
      | some fin ↦
          send_packet (some fin) from
          >> pure (
              lingering (record {
                content = st.received_data;
                sender_addr = from;
                final_seq = st.expected_seq;
                ack_fin = fin;
                linger_deadline = now + fin_linger_timeout_ms;
              }))
    ]

unfoldable pub recv_packet : RecvConfig → RecvState → Packet → Address → ℕ → Action Receiver
unfolding recv_data recv_fin
recv_packet cfg st p from now =
    if cfg.respond_to_syn && p.flags == flag_syn
    then (send_packet (control_packet p.seq (bit_or flag_syn flag_ack)) from
        >> pure (receiving (record st { receive_timeout_count = 0 })))
    else if p.flags == flag_fin
    then recv_fin st p from now
    else if p.flags == flag_data
    then recv_data cfg st p from
    else pure (receiving st)

unfoldable pub recv_datagram : RecvConfig → RecvState → List ℕ → Address → ℕ → Action Receiver
unfolding recv_packet
recv_datagram cfg st bs from now =
    if not (from_expected_peer cfg.expected_peer from)
    then pure (receiving st)
    else if not (verify_checksum bs)
    then pure (receiving st)
    else elim (unpack_packet bs) [
      | none ↦ pure (receiving st)
      | some p ↦ recv_packet cfg st p from now
    ]

unfoldable pub recv_timeout : RecvState → Bool → Action Receiver
recv_timeout st cancelled = do
  raise_if_cancelled cancelled
  if leb data_max_retries (st.receive_timeout_count + 1)
      then raise data_timeout
      else pure (receiving (record st { receive_timeout_count = st.receive_timeout_count + 1 }))

unfoldable pub recv_turn : RecvConfig → RecvState → RecvInput → Action Receiver
unfolding recv_datagram recv_timeout
recv_turn cfg st inp = do
  raise_if_cancelled inp.cancelled
  elim inp.arrival [
    | timed_out ↦ recv_timeout st inp.cancelled_later
    | datagram bs from ↦ recv_datagram cfg st bs from inp.now_later
  ]

-- A duplicate FIN is acknowledged again, and the wait starts anew.
unfoldable pub linger_datagram : LingerState → List ℕ → Address → ℕ → Action Receiver
unfolding is_valid_fin_packet
linger_datagram st bs from now =
    if not (same_address from st.sender_addr)
    then pure (lingering st)
    else if ltb (length bs) header_size || not (verify_checksum bs)
    then pure (lingering st)
    else elim (unpack_packet bs) [
      | none ↦ pure (lingering st)
      | some p ↦
          if is_valid_fin_packet p st.final_seq
          then (send_packet (some st.ack_fin) st.sender_addr
              >> pure (lingering (record st { linger_deadline = now + fin_linger_timeout_ms })))
          else pure (lingering st)
    ]

-- What follows the loop: one more look at the cancel event, the last report, and the data.
unfoldable pub recv_end : RecvConfig → List ℕ → Bool → Action Receiver
recv_end cfg content cancelled = do
  raise_if_cancelled cancelled
  elim cfg.total_bytes [ none ↦ pure tt | some total ↦ report total total ]
  pure (returned content)

unfoldable pub linger_turn : RecvConfig → LingerState → RecvInput → Action Receiver
unfolding linger_datagram recv_end
linger_turn cfg st inp = do
  raise_if_cancelled inp.cancelled
  if leb st.linger_deadline inp.now
      then recv_end cfg st.content inp.cancelled_later
      else (elim inp.arrival [
        | timed_out ↦ pure (lingering st)
        | datagram bs from ↦ linger_datagram st bs from inp.now_later
      ])

-- What precedes the loop.
unfoldable pub recv_begin : RecvConfig → Bool → Action Receiver
recv_begin cfg cancelled = do
  raise_if_cancelled cancelled
  elim cfg.total_bytes [ none ↦ pure tt | some total ↦ report 0 total ]
  pure (receiving recv_start)

-- A raised exception ends the call.
abbrev pub settle : Action Receiver → List Effect × Receiver
settle (es, r) = (es, elim r [ ok next ↦ next | raised x ↦ failed x ])

unfoldable pub receiver_turn : RecvConfig → Receiver → RecvInput → List Effect × Receiver
unfolding recv_turn linger_turn
receiver_turn cfg (receiving st) inp = settle (recv_turn cfg st inp)
receiver_turn cfg (lingering st) inp = settle (linger_turn cfg st inp)
receiver_turn cfg (returned content) inp = ([], returned content)
receiver_turn cfg (failed x) inp = ([], failed x)
