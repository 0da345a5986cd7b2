-- ===== src/Shared/Rdt/Network/Safety.antt =====
-- The transfer's safety: over any network the receiver returns the sender's bytes or none, and the
-- sender returns only once the receiver has them all.
use mathlib.Core.Path.{subst}
use computer_network_socket.Base.{
  ℕ, ◌+◌, ◌*◌, ◌≤◌, ◌≡◌, ◌≢◌, refl, Bool, true, false, some, List, [], ◌∷◌, arith, All, All-append,
  take, Bool-cases, inl, inr,
}
use computer_network_socket.Shared.Constants.{max_payload, window_size}
use computer_network_socket.Shared.Address.{Address, same_address}
use computer_network_socket.Shared.Rdt.Action.{Effect, send, progress}
use computer_network_socket.Shared.Rdt.Sender.{
  SendConfig, SendInput, SendState, Sender, sending, total_packets, sender_turn,
}
use computer_network_socket.Shared.Rdt.Receiver.{
  RecvConfig, RecvInput, RecvState, LingerState, Receiver, receiving, lingering, receiver_turn,
}
use computer_network_socket.Shared.Rdt.Network.{
  World, sent_to, Delivers, sender_step, receiver_step, Reach, here, sender_moves, receiver_moves,
  start_world,
}
use computer_network_socket.Shared.Rdt.Network.Honest.{IsGenuine, IsHonest, Sends}
use computer_network_socket.Shared.Rdt.Network.FromReceiver.{RecvOk}
use computer_network_socket.Shared.Rdt.Network.ReceiverTurn.{receiver_turn-Received}
use computer_network_socket.Shared.Rdt.Network.SenderTurn.{SenderOk, sender_turn-SenderMoved}

Sends-All :
    (P : List ℕ → Type 0) (a : Address) (es : List Effect) → Sends P es → All P (sent_to a es)
Sends-All P a [] h = tt
Sends-All P a (send bs to ∷ es) h = elim (Bool-cases (same_address to a)) [
  | inl hit ↦ rw hit (h.0, Sends-All P a es h.1)
  | inr missed ↦ rw missed (Sends-All P a es h.1)
]
Sends-All P a (progress current total ∷ es) h = Sends-All P a es h

All-mono :
    (P Q : List ℕ → Type 0) (pool : List (List ℕ))
    → ((bs : List ℕ) → P bs → Q bs)
    → All P pool
    → All Q pool
All-mono P Q [] f h = tt
All-mono P Q (x ∷ pool) f h = (f x h.0, All-mono P Q pool f h.1)

IsGenuine_mono :
    (raw : List ℕ) (next next' : ℕ)
    → next ≤ next'
    → (bs : List ℕ) → IsGenuine raw next bs
    → IsGenuine raw next' bs
IsGenuine_mono raw next next' le bs g p u =
    let h = g p u in
    record {
      data_lt = λ d. omega (arith, h.data_lt d);
      data_eq = h.data_eq;
      fin_eq = h.fin_eq;
      syn_eq = h.syn_eq;
    }

IsHonest_mono :
    (n n' : ℕ) (fin fin' : Bool)
    → n ≤ n'
    → (fin ≡ true → fin' ≡ true)
    → (bs : List ℕ) → IsHonest n fin bs
    → IsHonest n' fin' bs
IsHonest_mono n n' fin fin' le keep bs g p u =
    let h = g p u in
    record { ack_le = λ d. omega (arith, h.ack_le d); fin_set = λ f. keep (h.fin_set f) }

SenderOk-mono :
    (raw : List ℕ) (next n n' : ℕ) (fin fin' : Bool) (s : Sender)
    → n ≤ n'
    → n' ≤ total_packets raw
    → (fin ≡ true → fin' ≡ true)
    → SenderOk raw next n fin s
    → SenderOk raw next n' fin' s
SenderOk-mono raw next n n' fin fin' (sending st) le b keep h = record {
  next_eq = h.next_eq;
  base_le = omega (arith, h.base_le);
  window = h.window;
}
SenderOk-mono raw next n n' fin fin' (Sender.closing st) le b keep h = omega arith
SenderOk-mono raw next n n' fin fin' Sender.returned le b keep h = (omega arith, keep h.1)
SenderOk-mono raw next n n' fin fin' (Sender.failed x) le b keep h = tt

-- The invariant of the transfer.
record Inv (raw : List ℕ) (w : World) : Type 0 where
  next : ℕ
  n : ℕ
  fin : Bool
  n_le : n ≤ next
  next_le : next ≤ total_packets raw
  sender_ok : SenderOk raw next n fin w.sender
  receiver_ok : RecvOk raw n fin w.receiver
  genuine : All (IsGenuine raw next) w.to_receiver
  honest : All (IsHonest n fin) w.to_sender

module _ (scfg : SendConfig) (rcfg : RecvConfig) (sender_addr : Address)
    (peer : rcfg.expected_peer ≡ some sender_addr) where
  sender_step-Inv :
      (w : World) (inp : SendInput)
      → Delivers w.to_sender scfg.expected_peer inp.arrival
      → Inv scfg.raw_data w
      → Inv scfg.raw_data (sender_step scfg rcfg sender_addr w inp)
  unfolding sender_step
  sender_step-Inv w inp d i =
      let m =
        sender_turn-SenderMoved scfg i.next i.n i.fin w.to_sender w.sender inp i.n_le i.next_le
          i.honest d i.sender_ok in
      record {
        next = m.next';
        n = i.n;
        fin = i.fin;
        n_le = omega (arith, i.n_le, m.next_le);
        next_le = m.next_bound;
        sender_ok = m.state;
        receiver_ok = i.receiver_ok;
        genuine =
            All-append (IsGenuine scfg.raw_data m.next') _ w.to_receiver
              (Sends-All (IsGenuine scfg.raw_data m.next') scfg.dest_addr
                (sender_turn scfg w.sender inp).0 m.sends)
              (All-mono (IsGenuine scfg.raw_data i.next) (IsGenuine scfg.raw_data m.next')
                w.to_receiver (IsGenuine_mono scfg.raw_data i.next m.next' m.next_le) i.genuine);
        honest = i.honest;
      }

  receiver_step-Inv :
      (w : World) (inp : RecvInput)
      → Delivers w.to_receiver sender_addr inp.arrival
      → Inv scfg.raw_data w
      → Inv scfg.raw_data (receiver_step scfg rcfg sender_addr w inp)
  unfolding receiver_step
  receiver_step-Inv w inp d i =
      let m =
        receiver_turn-Received scfg.raw_data i.next i.n i.fin rcfg sender_addr w.to_receiver
          w.receiver inp i.n_le peer i.genuine d i.receiver_ok in
      record {
        next = i.next;
        n = m.n';
        fin = m.fin';
        n_le = m.n_bound;
        next_le = i.next_le;
        sender_ok =
            SenderOk-mono scfg.raw_data i.next i.n m.n' i.fin m.fin' w.sender m.n_le
              (omega (arith, m.n_bound, i.next_le)) m.fin_kept i.sender_ok;
        receiver_ok = m.state;
        genuine = i.genuine;
        honest =
            All-append (IsHonest m.n' m.fin') _ w.to_sender
              (Sends-All (IsHonest m.n' m.fin') sender_addr (receiver_turn rcfg w.receiver inp).0
                m.sends)
              (All-mono (IsHonest i.n i.fin) (IsHonest m.n' m.fin') w.to_sender
                (IsHonest_mono i.n m.n' i.fin m.fin' m.n_le m.fin_kept) i.honest);
      }

  Reach-Inv :
      {w₀ w : World} → Inv scfg.raw_data w₀ → Reach scfg rcfg sender_addr w₀ w → Inv scfg.raw_data w
  Reach-Inv i here = i
  Reach-Inv i (sender_moves {w} inp r d) = sender_step-Inv w inp d (Reach-Inv i r)
  Reach-Inv i (receiver_moves {w} inp r d) = receiver_step-Inv w inp d (Reach-Inv i r)

  start-Inv :
      (old_to_receiver old_to_sender : List (List ℕ))
      → All (IsGenuine scfg.raw_data 0) old_to_receiver
      → All (IsHonest 0 false) old_to_sender
      → Inv scfg.raw_data (start_world old_to_receiver old_to_sender)
  unfolding take
  start-Inv old_r old_s g h = record {
    next = 0;
    n = 0;
    fin = false;
    n_le = omega arith;
    next_le = omega arith;
    sender_ok = record { next_eq = refl; base_le = omega arith; window = omega arith };
    receiver_ok = (refl, refl, refl);
    genuine = g;
    honest = h;
  }

-- What the invariant says of each state.
receiver-RecvOk :
    (raw : List ℕ) (w : World) (r : Receiver) (i : Inv raw w)
    → w.receiver ≡ r
    → RecvOk raw i.n i.fin r
receiver-RecvOk raw w r i e = subst (RecvOk raw i.n i.fin) e i.receiver_ok

sender-SenderOk :
    (raw : List ℕ) (w : World) (s : Sender) (i : Inv raw w)
    → w.sender ≡ s
    → SenderOk raw i.next i.n i.fin s
sender-SenderOk raw w s i e = subst (SenderOk raw i.next i.n i.fin) e i.sender_ok

holds_prefix :
    (raw : List ℕ) (next n : ℕ) (fin : Bool) (st : RecvState)
    → n ≤ next
    → next ≤ total_packets raw
    → RecvOk raw n fin (receiving st)
    → (st.received_data ≡ take (st.expected_seq * max_payload) raw)
      × (st.expected_seq ≤ total_packets raw)
holds_prefix raw next n fin st le bound k = (rw (k.0) (k.1), omega arith)

delivered :
    (raw : List ℕ) (w : World)
    → Inv raw w
    → w.sender ≡ Sender.returned
    → ((st : RecvState) → w.receiver ≢ receiving st)
      × ((st : LingerState) → w.receiver ≡ lingering st → st.content ≡ raw)
delivered raw w i e =
    let done = sender-SenderOk raw w Sender.returned i e in
    (
      λ st er. not_both i.fin done.1 (receiver-RecvOk raw w (receiving st) i er).2,
      λ st er. (receiver-RecvOk raw w (lingering st) i er).0,
    )
  where
    not_both : (b : Bool) → b ≡ true → b ≡ false → ⊥
    not_both b t f = cc

window_of :
    (raw : List ℕ) (w : World) (st : SendState) (rt : RecvState) (i : Inv raw w)
    → SenderOk raw i.next i.n i.fin (sending st)
    → RecvOk raw i.n i.fin (receiving rt)
    → (st.base ≤ rt.expected_seq)
      × (rt.expected_seq ≤ st.next_seq_num)
      × (st.next_seq_num ≤ st.base + window_size)
      × (st.next_seq_num ≤ total_packets raw)
window_of raw w st rt i so ro = (
  omega (arith, so.base_le, ro.0),
  omega (arith, so.next_eq, ro.0, i.n_le),
  omega (arith, so.next_eq, so.window),
  omega (arith, so.next_eq, i.next_le),
)

-- A transfer that has begun with old datagrams of the handshake alone, and has come to `w`.
module _ (scfg : SendConfig) (rcfg : RecvConfig) (sender_addr : Address)
    (old_r old_s : List (List ℕ)) (w : World) (peer : rcfg.expected_peer ≡ some sender_addr)
    (genuine : All (IsGenuine scfg.raw_data 0) old_r) (honest : All (IsHonest 0 false) old_s)
    (reached : Reach scfg rcfg sender_addr (start_world old_r old_s) w) where
  transfer-Inv : Inv scfg.raw_data w
  transfer-Inv =
      Reach-Inv scfg rcfg sender_addr peer
        (start-Inv scfg rcfg sender_addr peer old_r old_s genuine honest) reached

  -- Where the receiver expects the sender's address, and what is under way at the start is at most old
  -- handshake (to the receiver no DATA, a FIN only with the number of packets, a SYN only with 0; to the
  -- sender no FIN and no ACK above 0): over any network that loses, repeats, delays, reorders and detectably
  -- damages datagrams, the bytes that the receiver returns are those the sender was given.
  pub receiver_returns_sent :
      (out : List ℕ) → w.receiver ≡ Receiver.returned out → out ≡ scfg.raw_data
  receiver_returns_sent out e =
      (receiver-RecvOk scfg.raw_data w (Receiver.returned out) transfer-Inv e).0

  -- Under the same conditions, while it receives, the receiver holds exactly the sender's bytes below the
  -- packet that it expects next, which is at most the number of packets.
  pub receiver_holds_prefix :
      (st : RecvState)
      → w.receiver ≡ receiving st
      → (st.received_data ≡ take (st.expected_seq * max_payload) scfg.raw_data)
        × (st.expected_seq ≤ total_packets scfg.raw_data)
  receiver_holds_prefix st e =
      holds_prefix scfg.raw_data _ _ _ st transfer-Inv.n_le transfer-Inv.next_le
        (receiver-RecvOk scfg.raw_data w (receiving st) transfer-Inv e)

  -- Under the same conditions, once the sender has returned, the receiver is out of its data loop, and if
  -- it lingers after the FIN it holds all the sender's bytes.
  pub sender_returns_delivered :
      w.sender ≡ Sender.returned
      → ((st : RecvState) → w.receiver ≢ receiving st)
        × ((st : LingerState) → w.receiver ≡ lingering st → st.content ≡ scfg.raw_data)
  sender_returns_delivered e = delivered scfg.raw_data w transfer-Inv e

  -- Under the same conditions, while both transfer data, the sender's base is not past what the receiver
  -- expects, what the receiver expects is not past what was sent, and the packets that were sent are of the
  -- transfer and at most a window past the base.
  pub sender_window :
      (st : SendState) (rt : RecvState)
      → w.sender ≡ sending st
      → w.receiver ≡ receiving rt
      → (st.base ≤ rt.expected_seq)
        × (rt.expected_seq ≤ st.next_seq_num)
        × (st.next_seq_num ≤ st.base + window_size)
        × (st.next_seq_num ≤ total_packets scfg.raw_data)
  sender_window st rt es er =
      window_of scfg.raw_data w st rt transfer-Inv
        (sender-SenderOk scfg.raw_data w (sending st) transfer-Inv es)
        (receiver-RecvOk scfg.raw_data w (receiving rt) transfer-Inv er)
