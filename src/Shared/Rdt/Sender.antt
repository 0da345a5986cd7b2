-- ===== src/Shared/Rdt/Sender.antt =====
-- `reliable_send`: Go-Back-N with a window of eight packets, fast retransmit, and the FIN handshake.
use computer_network_socket.Base.{
  ℕ, zero, suc, ◌+◌, ◌-◌, ◌*◌, ◌/◌, min, max, Bool, true, false, not, ◌&&◌, ◌||◌, Option, none,
  some, List, [], ◌∷◌, length, take, drop, ltb, leb, ◌==◌, if◌then◌else◌, bit_and, bit_or,
}
use computer_network_socket.Shared.Constants.{
  max_payload, header_size, timeout_ms, window_size, dup_ack_threshold, data_max_retries,
  fin_max_retries, flag_syn, flag_ack, flag_fin, flag_data,
}
use computer_network_socket.Shared.Address.{Address, same_address}
use computer_network_socket.Shared.Checksum.{verify_checksum}
use computer_network_socket.Shared.Packet.{Packet, pack_packet, unpack_packet}
use computer_network_socket.Shared.Rdt.Action.{
  Effect, Exception, data_timeout, teardown_timeout, struct_error, ok, raised, Action, ◌>>=◌, ◌>>◌,
  pure, raise, raise_if_cancelled, send_packet, report, Arrival, timed_out, datagram,
}

-- The arguments of the call: the bytes, `dest_addr`, its normalized form, and the options.
pub record SendConfig : Type 0 where
  pub raw_data : List ℕ
  pub dest_addr : Address
  pub expected_peer : Address
  pub reports : Bool
  pub respond_to_syn : Bool

pub record SendState : Type 0 where
  pub base : ℕ
  pub next_seq_num : ℕ
  pub dup_ack_count : ℕ
  pub data_retry_count : ℕ
  pub timer_start : ℕ

abbrev pub send_start : SendState
send_start = record {
  base = 0;
  next_seq_num = 0;
  dup_ack_count = 0;
  data_retry_count = 0;
  timer_start = 0;
}

-- The FIN loop: how many FINs were sent, and until when the last one is waited for.
pub record FinState : Type 0 where
  pub attempts : ℕ
  pub attempt_deadline : ℕ

pub data Sender : Type 0 where
  sending : SendState → Sender
  closing : FinState → Sender
  returned : Sender
  failed : Exception → Sender

-- What one turn sees: the cancel event at the head of the loop, before the packet of each number in
-- the first and in the second sending loop, and after the wait; the wait's end; and the clock when
-- the window is filled, when the arrival is handled, at the timer's test and after sending again.
pub record SendInput : Type 0 where
  pub cancelled : Bool
  pub cancelled_filling : ℕ → Bool
  pub arrival : Arrival
  pub cancelled_later : Bool
  pub cancelled_resending : ℕ → Bool
  pub fill_time : ℕ
  pub arrival_time : ℕ
  pub check_time : ℕ
  pub resend_time : ℕ

abbrev pub is_empty : List ℕ → Bool
is_empty [] = true
is_empty (x ∷ xs) = false

unfoldable pub total_packets : List ℕ → ℕ
total_packets raw = max 1 ((length raw + max_payload - 1) / max_payload)

-- `raw_data[start:start + MAX_PAYLOAD]`
unfoldable pub chunk : List ℕ → ℕ → List ℕ
chunk raw sequence_number = take max_payload (drop (sequence_number * max_payload) raw)

unfoldable pub make_data_packet : List ℕ → ℕ → Option (List ℕ)
unfolding chunk
make_data_packet raw sequence_number =
    pack_packet sequence_number 0 flag_data (chunk raw sequence_number)

-- The first inner loop. The fuel is the number of packets that the window has room for.
unfoldable pub fill_window : ℕ → SendConfig → SendInput → SendState → Action SendState
fill_window zero cfg inp st = pure st
fill_window (suc room) cfg inp st =
    let st' : SendState = record st {
      next_seq_num = st.next_seq_num + 1;
      timer_start = if st.base == st.next_seq_num then inp.fill_time else st.timer_start;
    } in
    let rest : Action SendState = fill_window room cfg inp st' in
    if ltb st.next_seq_num (total_packets cfg.raw_data)
    then (raise_if_cancelled (inp.cancelled_filling st.next_seq_num)
        >> send_packet (make_data_packet cfg.raw_data st.next_seq_num) cfg.dest_addr
        >> rest)
    else pure st

-- `for i in range(base, next_seq_num)`, with the number of packets left as the first argument.
unfoldable pub resend_window : ℕ → SendConfig → SendInput → ℕ → Action (Unit {0})
resend_window zero cfg inp i = pure tt
resend_window (suc left) cfg inp i =
    raise_if_cancelled (inp.cancelled_resending i)
    >> send_packet (make_data_packet cfg.raw_data i) cfg.dest_addr
    >> resend_window left cfg inp (i + 1)

-- The timer's test at the end of a turn.
unfoldable pub check_timer : SendConfig → SendInput → SendState → Action SendState
check_timer cfg inp st =
    if ltb st.base st.next_seq_num && ltb timeout_ms (inp.check_time - st.timer_start)
    then (if leb data_max_retries st.data_retry_count
        then raise data_timeout
        else (resend_window (st.next_seq_num - st.base) cfg inp st.base
            >> pure (record st {
              data_retry_count = st.data_retry_count + 1;
              timer_start = inp.resend_time;
            })))
    else pure st

abbrev pub report_sent : SendConfig → ℕ → Action (Unit {0})
report_sent cfg current = if cfg.reports then report current (length cfg.raw_data) else pure tt

unfoldable pub on_ack : SendConfig → SendInput → SendState → ℕ → Action SendState
on_ack cfg inp st ack_num =
    if ltb st.base ack_num
    then (report_sent cfg (min (ack_num * max_payload) (length cfg.raw_data))
        >> pure (record st {
          base = ack_num;
          dup_ack_count = 0;
          data_retry_count = 0;
          timer_start = if ltb ack_num st.next_seq_num then inp.arrival_time else st.timer_start;
        }))
    else if ack_num == st.base
    then (if st.dup_ack_count + 1 == dup_ack_threshold
        then (if leb data_max_retries st.data_retry_count
            then raise data_timeout
            else (send_packet (make_data_packet cfg.raw_data st.base) cfg.dest_addr
                >> pure (record st {
                  dup_ack_count = 0;
                  data_retry_count = st.data_retry_count + 1;
                  timer_start = inp.arrival_time;
                })))
        else pure (record st { dup_ack_count = st.dup_ack_count + 1 }))
    else pure st

unfoldable pub is_syn_probe : Packet → Bool
is_syn_probe p = p.flags == flag_syn && (p.length == 0 && is_empty p.payload)

-- A SYN probe is answered and ends the turn (`continue`); the timer is not tested then.
unfoldable pub send_packet_arrived : SendConfig → SendInput → SendState → Packet → Action SendState
unfolding on_ack check_timer is_syn_probe
send_packet_arrived cfg inp st p =
    if cfg.respond_to_syn && is_syn_probe p
    then (send_packet (pack_packet 0 p.seq (bit_or flag_syn flag_ack) []) cfg.dest_addr
        >> pure (record st { data_retry_count = 0; timer_start = inp.arrival_time }))
    else if not (bit_and p.flags flag_ack == 0)
    then (on_ack cfg inp st p.ack >>= check_timer cfg inp)
    else check_timer cfg inp st

unfoldable pub send_arrived : SendConfig → SendInput → SendState → Arrival → Action SendState
unfolding send_packet_arrived check_timer
send_arrived cfg inp st timed_out = raise_if_cancelled inp.cancelled_later >> check_timer cfg inp st
send_arrived cfg inp st (datagram bs from) =
    if same_address from cfg.expected_peer && verify_checksum bs
    then (elim (unpack_packet bs) [ none ↦ pure st | some p ↦ send_packet_arrived cfg inp st p ])
    else check_timer cfg inp st

-- One turn of `while base < total_packets`.
unfoldable pub send_turn : SendConfig → SendInput → SendState → Action SendState
unfolding fill_window send_arrived
send_turn cfg inp st = do
  raise_if_cancelled inp.cancelled
  st' ← fill_window (st.base + window_size - st.next_seq_num) cfg inp st
  send_arrived cfg inp st' inp.arrival

-- The head of `for _ in range(FIN_MAX_RETRIES)`: the next FIN, or the teardown has failed.
unfoldable pub fin_attempt : SendConfig → ℕ → Bool → ℕ → Action Sender
fin_attempt cfg attempts cancelled now =
    if leb fin_max_retries attempts
    then raise teardown_timeout
    else (raise_if_cancelled cancelled
        >> send_packet (pack_packet (total_packets cfg.raw_data) 0 flag_fin []) cfg.dest_addr
        >> pure (closing (record { attempts = attempts + 1; attempt_deadline = now + timeout_ms })))

-- What follows the data loop: the last report and the first FIN.
unfoldable pub fin_begin : SendConfig → SendInput → Action Sender
unfolding fin_attempt
fin_begin cfg inp = do
  report_sent cfg (length cfg.raw_data)
  elim (pack_packet (total_packets cfg.raw_data) 0 flag_fin []) [
    | none ↦ raise struct_error
    | some fin ↦ fin_attempt cfg 0 inp.cancelled inp.fill_time
  ]

unfoldable pub is_fin_ack : Packet → ℕ → Bool
is_fin_ack p total =
    p.flags == flag_fin && (p.ack == total && (p.seq == 0 && (is_empty p.payload && p.length == 0)))

unfoldable pub fin_datagram : SendConfig → FinState → List ℕ → Address → Sender
unfolding is_fin_ack
fin_datagram cfg st bs from =
    if not (same_address from cfg.expected_peer)
    then closing st
    else if ltb (length bs) header_size || not (verify_checksum bs)
    then closing st
    else elim (unpack_packet bs) [
      | none ↦ closing st
      | some p ↦ if is_fin_ack p (total_packets cfg.raw_data) then returned else closing st
    ]

-- One turn of the inner loop that waits for the FIN's answer; `break` goes on to the next FIN.
unfoldable pub fin_turn : SendConfig → SendInput → FinState → Action Sender
unfolding fin_attempt fin_datagram
fin_turn cfg inp st = do
  raise_if_cancelled inp.cancelled
  if leb st.attempt_deadline inp.check_time
      then fin_attempt cfg st.attempts inp.cancelled_later inp.resend_time
      else (elim inp.arrival [
        | timed_out ↦
            raise_if_cancelled inp.cancelled_later
            >> fin_attempt cfg st.attempts (inp.cancelled_resending 0) inp.resend_time
        | datagram bs from ↦ pure (fin_datagram cfg st bs from)
      ])

-- A raised exception ends the call.
abbrev pub settle : Action Sender → List Effect × Sender
settle (es, r) = (es, elim r [ ok next ↦ next | raised x ↦ failed x ])

unfoldable pub sender_turn : SendConfig → Sender → SendInput → List Effect × Sender
unfolding send_turn fin_begin fin_turn
sender_turn cfg (sending st) inp =
    if ltb st.base (total_packets cfg.raw_data)
    then settle (send_turn cfg inp st >>= λ st'. pure (sending st'))
    else settle (fin_begin cfg inp)
sender_turn cfg (closing st) inp = settle (fin_turn cfg inp st)
sender_turn cfg returned inp = ([], returned)
sender_turn cfg (failed x) inp = ([], failed x)

-- What precedes the data loop.
unfoldable pub send_begin : SendConfig → Bool → Action Sender
send_begin cfg cancelled = do
  raise_if_cancelled cancelled
  report_sent cfg 0
  pure (sending send_start)
