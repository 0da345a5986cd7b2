-- ===== src/Shared/Rdt/Network/ReceiverTurn.antt =====
-- A whole turn of the receiver, in each of its states.
use computer_network_socket.Base.{
  ℕ, ◌+◌, ◌≤◌, ◌≡◌, ◌∙◌, inl, inr, refl, Bool, true, false, not, ◌||◌, Option, none, some, List, [],
  ◌∷◌, length, ltb, leb, arith, Bool-cases, Option-cases, All,
}
use computer_network_socket.Shared.Constants.{data_max_retries, header_size}
use computer_network_socket.Shared.Address.{Address, same_address, ne→same_address}
use computer_network_socket.Shared.Packet.{unpack_packet}
use computer_network_socket.Shared.Checksum.{verify_checksum}
use computer_network_socket.Shared.Rdt.Action.{
  Effect, Exception, ok, raised, Action, ◌>>=◌, ◌>>◌, pure, raise, data_timeout, send_packet,
  report, raise_if_cancelled, Arrival, timed_out, datagram,
}
use computer_network_socket.Shared.Rdt.Receiver.{
  RecvConfig, RecvState, RecvInput, LingerState, Receiver, receiving, lingering, returned, failed,
  recv_datagram, recv_timeout, recv_turn, recv_end, linger_datagram, linger_turn, receiver_turn,
  is_valid_fin_packet, settle,
}
use computer_network_socket.Shared.Rdt.Network.{Delivers, InPool}
use computer_network_socket.Shared.Rdt.Network.Honest.{IsGenuine, IsHonest, Sends}
use computer_network_socket.Shared.Rdt.Network.FromReceiver.{
  RecvOk, Advances, stays, waits, recv_packet-Advances,
}

InPool-All :
    (P : List ℕ → Type 0) (bs : List ℕ) (pool : List (List ℕ)) → All P pool → InPool bs pool → P bs
InPool-All P bs [] h m = absurd m
InPool-All P bs (x ∷ pool) h (inl e) = rw e h.0
InPool-All P bs (x ∷ pool) h (inr m) = InPool-All P bs pool h.1 m

-- A delivered datagram of the peer that passes the checksum is one of the pool.
pub Delivers-All :
    (P : List ℕ → Type 0) (pool : List (List ℕ)) (peer from : Address) (bs : List ℕ)
    → All P pool
    → Delivers pool peer (datagram bs from)
    → same_address from peer ≡ true
    → verify_checksum bs ≡ true
    → P bs
Delivers-All P pool peer from bs h (inl other) s v = absurd (cc (ne→same_address from peer other))
Delivers-All P pool peer from bs h (inr (inl damaged)) s v = absurd (cc)
Delivers-All P pool peer from bs h (inr (inr m)) s v = InPool-All P bs pool h m

module _ (raw : List ℕ) (next n : ℕ) (fin : Bool) (bound : n ≤ next) (cfg : RecvConfig)
    (sender_addr : Address) (peer : cfg.expected_peer ≡ some sender_addr) (pool : List (List ℕ))
    (genuine : All (IsGenuine raw next) pool) where
  recv_datagram-Advances :
      (st : RecvState) (bs : List ℕ) (from : Address) (now : ℕ)
      → RecvOk raw n fin (receiving st)
      → Delivers pool sender_addr (datagram bs from)
      → Advances raw next n fin (recv_datagram cfg st bs from now)
  unfolding recv_datagram
  recv_datagram-Advances st bs from now inv d = elim (Bool-cases (same_address from sender_addr)) [
    | inr other ↦ rw (peer, other) (waits raw next n fin bound _ inv)
    | inl same ↦ elim (Bool-cases (verify_checksum bs)) [
      | inr bad ↦ rw (peer, same, bad) (waits raw next n fin bound _ inv)
      | inl good ↦ elim (Option-cases (unpack_packet bs)) [
        | inl broken ↦ rw (peer, same, good, broken) (waits raw next n fin bound _ inv)
        | inr (p, u) ↦
            rw (peer, same, good, u)
              (recv_packet-Advances raw next n fin bound cfg st p from now inv (
                Delivers-All (IsGenuine raw next) pool sender_addr from bs genuine d same good p u))
      ]
    ]
  ]

  raises : (x : Exception) → Advances raw next n fin (raise x)
  raises x = stays raw next n fin bound _ (record { sends = tt; result = tt })

  guarded :
      (cancelled : Bool) (m : Action Receiver)
      → Advances raw next n fin m
      → Advances raw next n fin (raise_if_cancelled cancelled >>= λ _. m)
  guarded true m h = raises _
  guarded false m h = h

  recv_timeout-Advances :
      (st : RecvState) (cancelled : Bool)
      → RecvOk raw n fin (receiving st)
      → Advances raw next n fin (recv_timeout st cancelled)
  unfolding recv_timeout
  recv_timeout-Advances st cancelled inv =
      guarded cancelled _ (elim (Bool-cases (leb data_max_retries (st.receive_timeout_count + 1))) [
        | inl out ↦ rw out (raises data_timeout)
        | inr again ↦ rw again (waits raw next n fin bound _ inv)
      ])

  recv_turn-Advances :
      (st : RecvState) (inp : RecvInput)
      → RecvOk raw n fin (receiving st)
      → Delivers pool sender_addr inp.arrival
      → Advances raw next n fin (recv_turn cfg st inp)
  unfolding recv_turn
  recv_turn-Advances st inp inv d = guarded inp.cancelled _ (by_arrival inp.arrival d)
    where
      by_arrival :
          (a : Arrival)
          → Delivers pool sender_addr a
          → Advances raw next n fin (elim a [
            | timed_out ↦ recv_timeout st inp.cancelled_later
            | datagram bs from ↦ recv_datagram cfg st bs from inp.now_later
          ])
      by_arrival timed_out d = recv_timeout-Advances st inp.cancelled_later inv
      by_arrival (datagram bs from) d = recv_datagram-Advances st bs from inp.now_later inv d

  answers_again :
      (st st' : LingerState)
      → RecvOk raw n fin (lingering st)
      → st'.content ≡ st.content
      → st'.ack_fin ≡ st.ack_fin
      → Advances raw next n fin
          (send_packet (some st.ack_fin) st.sender_addr >> pure (lingering st'))
  answers_again st st' inv same_content same_fin = stays raw next n fin bound _ (record {
    sends = (inv.3, tt);
    result = (same_content ∙ inv.0, inv.1, inv.2, rw same_fin inv.3);
  })

  linger_datagram-Advances :
      (st : LingerState) (bs : List ℕ) (from : Address) (now : ℕ)
      → RecvOk raw n fin (lingering st)
      → Advances raw next n fin (linger_datagram st bs from now)
  unfolding linger_datagram
  linger_datagram-Advances st bs from now inv =
      elim (Bool-cases (same_address from st.sender_addr)) [
        | inr other ↦ rw other (waits raw next n fin bound _ inv)
        | inl same ↦ elim (Bool-cases (ltb (length bs) header_size || not (verify_checksum bs))) [
          | inl bad ↦ rw (same, bad) (waits raw next n fin bound _ inv)
          | inr good ↦ elim (Option-cases (unpack_packet bs)) [
            | inl broken ↦ rw (same, good, broken) (waits raw next n fin bound _ inv)
            | inr (p, u) ↦ elim (Bool-cases (is_valid_fin_packet p st.final_seq)) [
              | inl f ↦ rw (same, good, u, f) (answers_again st _ inv refl refl)
              | inr nf ↦ rw (same, good, u, nf) (waits raw next n fin bound _ inv)
            ]
          ]
        ]
      ]

  reports :
      (total : Option ℕ) (r : Receiver)
      → RecvOk raw n fin r
      → Advances raw next n fin ((elim total [ none ↦ pure tt | some t ↦ report t t ]) >> pure r)
  reports none r inv = waits raw next n fin bound r inv
  reports (some t) r inv = stays raw next n fin bound _ (record { sends = tt; result = inv })

  linger_turn-Advances :
      (st : LingerState) (inp : RecvInput)
      → RecvOk raw n fin (lingering st)
      → Advances raw next n fin (linger_turn cfg st inp)
  unfolding linger_turn recv_end
  linger_turn-Advances st inp inv =
      guarded inp.cancelled _ (elim (Bool-cases (leb st.linger_deadline inp.now)) [
        | inl over ↦ rw over (
            guarded inp.cancelled_later _
              (reports cfg.total_bytes (returned st.content) (inv.0, inv.1, inv.2)))
        | inr more ↦ rw more (by_arrival inp.arrival)
      ])
    where
      by_arrival :
          (a : Arrival)
          → Advances raw next n fin (elim a [
            | timed_out ↦ pure (lingering st)
            | datagram bs from ↦ linger_datagram st bs from inp.now_later
          ])
      by_arrival timed_out = waits raw next n fin bound _ inv
      by_arrival (datagram bs from) = linger_datagram-Advances st bs from inp.now_later inv

-- What a turn of the receiver has led to, by the state that it ends in.
pub record Received (raw : List ℕ) (next n : ℕ) (fin : Bool) (es : List Effect) (r : Receiver)
    : Type 0 where
  pub n' : ℕ
  pub fin' : Bool
  pub n_le : n ≤ n'
  pub n_bound : n' ≤ next
  pub fin_kept : fin ≡ true → fin' ≡ true
  pub sends : Sends (IsHonest n' fin') es
  pub state : RecvOk raw n' fin' r

settle-Received :
    (raw : List ℕ) (next n : ℕ) (fin : Bool) (m : Action Receiver)
    → Advances raw next n fin m
    → Received raw next n fin (settle m).0 (settle m).1
settle-Received raw next n fin (es, ok r) a = record {
  n' = a.n';
  fin' = a.fin';
  n_le = a.n_le;
  n_bound = a.n_bound;
  fin_kept = a.fin_kept;
  sends = a.keeps.sends;
  state = a.keeps.result;
}
settle-Received raw next n fin (es, raised x) a = record {
  n' = a.n';
  fin' = a.fin';
  n_le = a.n_le;
  n_bound = a.n_bound;
  fin_kept = a.fin_kept;
  sends = a.keeps.sends;
  state = tt;
}

pub receiver_turn-Received :
    (raw : List ℕ) (next n : ℕ) (fin : Bool) (cfg : RecvConfig) (sender_addr : Address)
    (pool : List (List ℕ)) (r : Receiver) (inp : RecvInput)
    → n ≤ next
    → cfg.expected_peer ≡ some sender_addr
    → All (IsGenuine raw next) pool
    → Delivers pool sender_addr inp.arrival
    → RecvOk raw n fin r
    → Received raw next n fin (receiver_turn cfg r inp).0 (receiver_turn cfg r inp).1
unfolding receiver_turn
receiver_turn-Received raw next n fin cfg a pool (receiving st) inp le peer g d inv =
    settle-Received raw next n fin _
      (recv_turn-Advances raw next n fin le cfg a peer pool g st inp inv d)
receiver_turn-Received raw next n fin cfg a pool (lingering st) inp le peer g d inv =
    settle-Received raw next n fin _
      (linger_turn-Advances raw next n fin le cfg a peer pool g st inp inv)
receiver_turn-Received raw next n fin cfg a pool (returned out) inp le peer g d inv = record {
  n' = n;
  fin' = fin;
  n_le = omega arith;
  n_bound = le;
  fin_kept = λ h. h;
  sends = tt;
  state = inv;
}
receiver_turn-Received raw next n fin cfg a pool (failed x) inp le peer g d inv = record {
  n' = n;
  fin' = fin;
  n_le = omega arith;
  n_bound = le;
  fin_kept = λ h. h;
  sends = tt;
  state = tt;
}
