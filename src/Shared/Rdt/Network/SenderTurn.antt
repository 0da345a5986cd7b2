-- ===== src/Shared/Rdt/Network/SenderTurn.antt =====
-- A whole turn of the sender, in each of its states.
use native.Mathlib.Decide.{dec_lt}
use computer_network_socket.Base.{
  ℕ, ◌+◌, ◌-◌, ◌≤◌, ◌<◌, ◌≡◌, inl, inr, refl, Bool, true, not, ◌&&◌, ◌||◌, List, [], length, ltb,
  leb, arith, Bool-cases, Option-cases, All, append-nil,
}
use computer_network_socket.Shared.Constants.{flag_fin, fin_max_retries, window_size, header_size}
use computer_network_socket.Shared.Address.{Address, same_address}
use computer_network_socket.Shared.Packet.{pack_packet, unpack_packet}
use computer_network_socket.Shared.Checksum.{verify_checksum}
use computer_network_socket.Shared.Rdt.Action.{
  Effect, ok, raised, Action, ◌>>=◌, ◌>>◌, pure, teardown_timeout, struct_error, raise_if_cancelled,
  Arrival, timed_out, datagram,
}
use computer_network_socket.Shared.Rdt.Sender.{
  SendConfig, SendState, SendInput, FinState, Sender, sending, closing, returned, failed,
  total_packets, send_arrived, send_turn, fin_attempt, fin_begin, is_fin_ack, fin_datagram,
  fin_turn, sender_turn, settle, fill_window,
}
use computer_network_socket.Shared.Rdt.Network.{Delivers}
use computer_network_socket.Shared.Rdt.Network.Honest.{
  IsGenuine, IsHonest, Sends, Keeps, Keeps-bind, Keeps-send,
}
use computer_network_socket.Shared.Rdt.Network.ReceiverTurn.{Delivers-All}
use computer_network_socket.Shared.Rdt.Network.FromSender.{
  SendOk, Fills, fill_window-Fills, check_timer-Keeps, send_packet_arrived-Keeps, pure-Keeps,
  raise-Keeps, guard-Keeps, then-Keeps, report_sent-Keeps, control-IsGenuine,
}

-- The sender's state beside `next` packets sent and `n` received; `fin` says that a FIN was accepted.
abbrev pub SenderOk : List ℕ → ℕ → ℕ → Bool → Sender → Type 0
SenderOk raw next n fin (sending st) = SendOk next n st
SenderOk raw next n fin (closing st) = n ≡ total_packets raw
SenderOk raw next n fin returned = (n ≡ total_packets raw) × (fin ≡ true)
SenderOk raw next n fin (failed x) = Unit {0}

module _ (cfg : SendConfig) (inp : SendInput) (n : ℕ) (fin : Bool) (pool : List (List ℕ))
    (honest : All (IsHonest n fin) pool)
    (delivered : Delivers pool cfg.expected_peer inp.arrival) where
  send_datagram-Keeps :
      (next : ℕ) (st : SendState) (bs : List ℕ) (from : Address)
      → Delivers pool cfg.expected_peer (datagram bs from)
      → SendOk next n st
      → st.base < next
      → Keeps
          (IsGenuine cfg.raw_data next)
          (SendOk next n)
          (send_arrived cfg inp st (datagram bs from))
  unfolding send_arrived
  send_datagram-Keeps next st bs from d stands lt =
      elim (Bool-cases (same_address from cfg.expected_peer && verify_checksum bs)) [
        | inr no_packet ↦ rw no_packet (check_timer-Keeps cfg inp next n st stands)
        | inl good ↦ elim (Option-cases (unpack_packet bs)) [
          | inl broken ↦ rw (good, broken) (pure-Keeps _ _ st stands)
          | inr (p, u) ↦
              rw (good, u)
                (send_packet_arrived-Keeps cfg inp next n st p fin stands lt (
                  Delivers-All (IsHonest n fin) pool cfg.expected_peer from bs honest d
                    (ground arith) (ground arith) p u))
        ]
      ]

  send_arrived-Keeps :
      (next : ℕ) (st : SendState) (a : Arrival)
      → Delivers pool cfg.expected_peer a
      → SendOk next n st
      → st.base < next
      → Keeps (IsGenuine cfg.raw_data next) (SendOk next n) (send_arrived cfg inp st a)
  unfolding send_arrived
  send_arrived-Keeps next st timed_out d stands lt =
      guard-Keeps _ (SendOk next n) inp.cancelled_later _
        (check_timer-Keeps cfg inp next n st stands)
  send_arrived-Keeps next st (datagram bs from) d stands lt =
      send_datagram-Keeps next st bs from d stands lt

  -- What the data loop's turn has led to.
  pub record Sent (st : SendState) (m : Action SendState) : Type 0 where
    pub next' : ℕ
    pub next_le : st.next_seq_num ≤ next'
    pub next_bound : next' ≤ total_packets cfg.raw_data
    pub keeps : Keeps (IsGenuine cfg.raw_data next') (SendOk next' n) m

  Fills-ahead :
      (next : ℕ) (st : SendState) (m : Action SendState)
      → n ≤ next
      → next ≤ total_packets cfg.raw_data
      → st.base < total_packets cfg.raw_data
      → SendOk next n st
      → (f : Fills (st.base + window_size - st.next_seq_num) cfg.raw_data n st m)
      → st.base < f.next'
  Fills-ahead next st m le bound lt stands f = elim (dec_lt st.base next) [
    | yes ahead ↦ omega (arith, f.next_le, stands.next_eq)
    | no level ↦ omega (
      arith,
      f.grows (omega (arith, stands.next_eq, stands.base_le))
          (omega (arith, stands.next_eq, stands.base_le)),
      stands.next_eq,
      stands.base_le,
    )
  ]

  sends_with :
      (next : ℕ) (st : SendState)
      → (f : Fills
          (st.base + window_size - st.next_seq_num)
          cfg.raw_data
          n
          st
          (fill_window (st.base + window_size - st.next_seq_num) cfg inp st))
      → st.base < f.next'
      → Sent st (send_turn cfg inp st)
  unfolding send_turn
  sends_with next st f ahead = record {
    next' = f.next';
    next_le = f.next_le;
    next_bound = f.next_bound;
    keeps = guard-Keeps _ (SendOk f.next' n) inp.cancelled _ (
        Keeps-bind _ _ (SendOk f.next' n) _ _ f.keeps (λ st' filled.
          send_arrived-Keeps f.next' st' inp.arrival delivered filled.stands
            (omega (arith, filled.base_eq))));
  }

  send_turn-Sent :
      (next : ℕ) (st : SendState)
      → n ≤ next
      → next ≤ total_packets cfg.raw_data
      → st.base < total_packets cfg.raw_data
      → SendOk next n st
      → Sent st (send_turn cfg inp st)
  send_turn-Sent next st le bound lt stands =
      let f =
        fill_window-Fills (st.base + window_size - st.next_seq_num) cfg inp st n stands.base_le
          (omega (arith, stands.next_eq, stands.window)) (omega (arith, stands.next_eq)) in
      sends_with next st f (Fills-ahead next st _ le bound lt stands f)

  -- The FIN loop sends FINs alone, and returns only on the receiver's FIN.
  abbrev Closing : Action Sender → Type 0
  Closing =
      Keeps (IsGenuine cfg.raw_data (total_packets cfg.raw_data))
        (SenderOk cfg.raw_data (total_packets cfg.raw_data) n fin)

  fin_attempt-Keeps :
      (attempts : ℕ) (cancelled : Bool) (now : ℕ)
      → n ≡ total_packets cfg.raw_data
      → Closing (fin_attempt cfg attempts cancelled now)
  unfolding fin_attempt
  fin_attempt-Keeps attempts cancelled now all = elim (Bool-cases (leb fin_max_retries attempts)) [
    | inl out ↦ rw out (raise-Keeps _ _ teardown_timeout)
    | inr again ↦ rw again (
        then-Keeps _ _ _ _
          (guard-Keeps _ (λ u. Unit {0}) cancelled _
            (Keeps-send _ (pack_packet (total_packets cfg.raw_data) 0 flag_fin []) cfg.dest_addr (
              control-IsGenuine cfg.raw_data _ (total_packets cfg.raw_data) 0 flag_fin (omega arith)
                (omega arith) (λ _. refl))))
          (pure-Keeps _ _ (closing _) all))
  ]

  fin_begin-Keeps : n ≡ total_packets cfg.raw_data → Closing (fin_begin cfg inp)
  unfolding fin_begin
  fin_begin-Keeps all =
      then-Keeps _ _ _ _ (report_sent-Keeps _ cfg (length cfg.raw_data))
        (elim (Option-cases (pack_packet (total_packets cfg.raw_data) 0 flag_fin [])) [
          | inl big ↦ rw big (raise-Keeps _ _ struct_error)
          | inr (bs, packed) ↦ rw packed (fin_attempt-Keeps 0 inp.cancelled inp.fill_time all)
        ])

  fin_datagram-SenderOk :
      (next : ℕ) (st : FinState) (bs : List ℕ) (from : Address)
      → Delivers pool cfg.expected_peer (datagram bs from)
      → n ≡ total_packets cfg.raw_data
      → SenderOk cfg.raw_data next n fin (fin_datagram cfg st bs from)
  unfolding fin_datagram
  fin_datagram-SenderOk next st bs from d all =
      elim (Bool-cases (same_address from cfg.expected_peer)) [
        | inr other ↦ rw other all
        | inl same ↦ elim (Bool-cases (ltb (length bs) header_size || not (verify_checksum bs))) [
          | inl bad ↦ rw (same, bad) all
          | inr good ↦ elim (Option-cases (unpack_packet bs)) [
            | inl broken ↦ rw (same, good, broken) all
            | inr (p, u) ↦ elim (Bool-cases (is_fin_ack p (total_packets cfg.raw_data))) [
              | inr nf ↦ rw (same, good, u, nf) all
              | inl f ↦
                  rw (same, good, u, f)
                    (
                      all,
                      (Delivers-All (IsHonest n fin) pool cfg.expected_peer from bs honest d same
                            (ground arith) p u).fin_set
                          (unfold is_fin_ack in ground arith),
                    )
            ]
          ]
        ]
      ]

  fin_turn-Keeps : (st : FinState) → n ≡ total_packets cfg.raw_data → Closing (fin_turn cfg inp st)
  unfolding fin_turn
  fin_turn-Keeps st all =
      guard-Keeps _ _ inp.cancelled _ (elim (Bool-cases (leb st.attempt_deadline inp.check_time)) [
        | inl over ↦ rw over (fin_attempt-Keeps st.attempts inp.cancelled_later inp.resend_time all)
        | inr more ↦ rw more (by_arrival inp.arrival delivered)
      ])
    where
      by_arrival :
          (a : Arrival)
          → Delivers pool cfg.expected_peer a
          → Closing (elim a [
            | timed_out ↦
                raise_if_cancelled inp.cancelled_later
                >> fin_attempt cfg st.attempts (inp.cancelled_resending 0) inp.resend_time
            | datagram bs from ↦ pure (fin_datagram cfg st bs from)
          ])
      by_arrival timed_out d =
          guard-Keeps _ _ inp.cancelled_later _
            (fin_attempt-Keeps st.attempts (inp.cancelled_resending 0) inp.resend_time all)
      by_arrival (datagram bs from) d = pure-Keeps _ _ _ (fin_datagram-SenderOk _ st bs from d all)

-- What a turn of the sender has led to, by the state that it ends in.
pub record SenderMoved (raw : List ℕ) (next n : ℕ) (fin : Bool) (es : List Effect) (s : Sender)
    : Type 0 where
  pub next' : ℕ
  pub next_le : next ≤ next'
  pub next_bound : next' ≤ total_packets raw
  pub sends : Sends (IsGenuine raw next') es
  pub state : SenderOk raw next' n fin s

settle_data :
    (cfg : SendConfig) (inp : SendInput) (next n : ℕ) (fin : Bool) (pool : List (List ℕ))
    (honest : All (IsHonest n fin) pool) (delivered : Delivers pool cfg.expected_peer inp.arrival)
    (st : SendState) (m : Action SendState)
    → st.next_seq_num ≡ next
    → Sent cfg inp n fin pool honest delivered st m
    → SenderMoved cfg.raw_data next n fin
        (settle (m >>= λ st'. pure (sending st'))).0
        (settle (m >>= λ st'. pure (sending st'))).1
settle_data cfg inp next n fin pool honest d st (es, ok st') e h = record {
  next' = h.next';
  next_le = omega (arith, h.next_le);
  next_bound = h.next_bound;
  sends = rw append-nil h.keeps.sends;
  state = h.keeps.result;
}
settle_data cfg inp next n fin pool honest d st (es, raised x) e h = record {
  next' = h.next';
  next_le = omega (arith, h.next_le);
  next_bound = h.next_bound;
  sends = h.keeps.sends;
  state = tt;
}

settle_closing :
    (raw : List ℕ) (next n : ℕ) (fin : Bool) (m : Action Sender)
    → next ≤ total_packets raw
    → Keeps (IsGenuine raw (total_packets raw)) (SenderOk raw (total_packets raw) n fin) m
    → SenderMoved raw next n fin (settle m).0 (settle m).1
settle_closing raw next n fin (es, ok s) le k = record {
  next' = total_packets raw;
  next_le = le;
  next_bound = omega arith;
  sends = k.sends;
  state = k.result;
}
settle_closing raw next n fin (es, raised x) le k = record {
  next' = total_packets raw;
  next_le = le;
  next_bound = omega arith;
  sends = k.sends;
  state = tt;
}

pub sender_turn-SenderMoved :
    (cfg : SendConfig) (next n : ℕ) (fin : Bool) (pool : List (List ℕ)) (s : Sender)
    (inp : SendInput)
    → n ≤ next
    → next ≤ total_packets cfg.raw_data
    → All (IsHonest n fin) pool
    → Delivers pool cfg.expected_peer inp.arrival
    → SenderOk cfg.raw_data next n fin s
    → SenderMoved cfg.raw_data next n fin (sender_turn cfg s inp).0 (sender_turn cfg s inp).1
unfolding sender_turn
sender_turn-SenderMoved cfg next n fin pool (sending st) inp le bound h d stands =
    elim (Bool-cases (ltb st.base (total_packets cfg.raw_data))) [
      | inl more ↦ rw more (
          settle_data cfg inp next n fin pool h d st _ stands.next_eq
            (send_turn-Sent cfg inp n fin pool h d next st le bound (ground arith) stands))
      | inr over ↦ rw over (
          settle_closing cfg.raw_data next n fin _ bound
            (fin_begin-Keeps cfg inp n fin pool h d (ground (arith, stands.base_le))))
    ]
sender_turn-SenderMoved cfg next n fin pool (closing st) inp le bound h d stands =
    settle_closing cfg.raw_data next n fin _ bound (fin_turn-Keeps cfg inp n fin pool h d st stands)
sender_turn-SenderMoved cfg next n fin pool returned inp le bound h d stands = record {
  next' = next;
  next_le = omega arith;
  next_bound = bound;
  sends = tt;
  state = stands;
}
sender_turn-SenderMoved cfg next n fin pool (failed x) inp le bound h d stands = record {
  next' = next;
  next_le = omega arith;
  next_bound = bound;
  sends = tt;
  state = tt;
}
