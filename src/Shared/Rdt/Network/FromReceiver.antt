-- ===== src/Shared/Rdt/Network/FromReceiver.antt =====
-- A turn of the receiver on honest input: its data stays a prefix of the sender's, and its answers
-- are honest.
use computer_network_socket.Base.{
  ℕ, ◌+◌, ◌*◌, ◌≤◌, ◌≡◌, ◌≢◌, ◌∙◌, ap, inl, inr, refl, Bool, true, false, ◌&&◌, Option, none, some,
  List, [], ◌∷◌, ◌++◌, take, take_all, take-add, bit_or, arith, Bool-cases, Option-cases, ◌==◌,
  ==→eq,
}
use computer_network_socket.Shared.Constants.{
  flag_syn, flag_ack, flag_fin, flag_data, fin_linger_timeout_ms, max_payload,
}
use computer_network_socket.Shared.Address.{Address}
use computer_network_socket.Shared.Packet.{Packet}
use computer_network_socket.Shared.Packet.RoundTrip.{packed-ReadsAs}
use computer_network_socket.Shared.Rdt.Action.{send, ok, Action, ◌>>◌, pure, send_packet}
use computer_network_socket.Shared.Rdt.Sender.{chunk, total_packets}
use computer_network_socket.Shared.Rdt.Receiver
use computer_network_socket.Shared.Rdt.Receiver.{
  RecvConfig, RecvState, RecvInput, LingerState, Receiver, receiving, lingering, returned, failed,
  control_packet, recv_data, recv_fin, recv_packet, recv_datagram, recv_timeout, recv_turn,
  report_received,
}
use computer_network_socket.Shared.Rdt.Network.Honest.{
  IsGenuinePacket, IsHonest, Keeps, Keeps-bind, Keeps-send,
}

-- Cutting after the last packet leaves everything.
pub take_total : (raw : List ℕ) → take (total_packets raw * max_payload) raw ≡ raw
unfolding total_packets
take_total raw = take_all _ raw (omega arith)

-- The received prefix and the next chunk make the next prefix.
pub take-chunk :
    (raw : List ℕ) (n : ℕ)
    → take (n * max_payload) raw ++ chunk raw n ≡ take ((n + 1) * max_payload) raw
unfolding chunk
take-chunk raw n =
    take-add (n * max_payload) max_payload raw ∙ ap (λ (k : ℕ). take k raw) (omega arith)

-- The receiver holds exactly the first `n` chunks; once the FIN is accepted it holds all the data.
abbrev pub RecvOk : List ℕ → ℕ → Bool → Receiver → Type 0
RecvOk raw n fin (receiving st) =
    (st.expected_seq ≡ n) × (st.received_data ≡ take (n * max_payload) raw) × (fin ≡ false)
RecvOk raw n fin (lingering st) =
    (st.content ≡ raw) × (n ≡ total_packets raw) × (fin ≡ true) × IsHonest n fin st.ack_fin
RecvOk raw n fin (returned out) = (out ≡ raw) × (n ≡ total_packets raw) × (fin ≡ true)
RecvOk raw n fin (failed x) = Unit {0}

-- What a part of a turn that began at `n` and `fin` has led to.
pub record Advances (raw : List ℕ) (next n : ℕ) (fin : Bool) (m : Action Receiver) : Type 0 where
  pub n' : ℕ
  pub fin' : Bool
  pub n_le : n ≤ n'
  pub n_bound : n' ≤ next
  pub fin_kept : fin ≡ true → fin' ≡ true
  pub keeps : Keeps (IsHonest n' fin') (RecvOk raw n' fin') m

control-IsHonest :
    (a flags n : ℕ) (fin : Bool)
    → a ≤ n
    → (flags ≡ flag_fin → fin ≡ true)
    → (bs : List ℕ) → control_packet a flags ≡ some bs
    → IsHonest n fin bs
control-IsHonest a flags n fin le hf bs e p u =
    let r = packed-ReadsAs 0 a flags [] p e u in
    record { ack_le = λ _. omega (arith, r.ack_eq); fin_set = λ f. hf (cc (r.flags_eq)) }

control-answers :
    (raw : List ℕ) (n : ℕ) (fin : Bool) (a flags : ℕ) (to : Address) (r : Receiver)
    → a ≤ n
    → (flags ≡ flag_fin → fin ≡ true)
    → RecvOk raw n fin r
    → Keeps (IsHonest n fin) (RecvOk raw n fin) (send_packet (control_packet a flags) to >> pure r)
control-answers raw n fin a flags to r le hf inv =
    Keeps-bind (IsHonest n fin) (λ u. Unit {0}) (RecvOk raw n fin) _ _
      (Keeps-send (IsHonest n fin) (control_packet a flags) to
        (control-IsHonest a flags n fin le hf))
      (λ _ _. record { sends = tt; result = inv })

report-Keeps :
    (P : List ℕ → Type 0) (total : Option ℕ) (received : ℕ)
    → Keeps P (λ u. Unit {0}) (report_received total received)
report-Keeps P none received = record { sends = tt; result = tt }
report-Keeps P (some total) received = record { sends = tt; result = tt }

module _ (raw : List ℕ) (next n : ℕ) (fin : Bool) (bound : n ≤ next) where
  pub stays :
      (m : Action Receiver)
      → Keeps (IsHonest n fin) (RecvOk raw n fin) m
      → Advances raw next n fin m
  stays m k = record {
    n' = n;
    fin' = fin;
    n_le = omega arith;
    n_bound = bound;
    fin_kept = λ h. h;
    keeps = k;
  }

  -- An answer that tells an expected number, or 0, after which the state is still right.
  answers :
      (a flags : ℕ) (to : Address) (r : Receiver)
      → a ≤ n
      → flags ≢ flag_fin
      → RecvOk raw n fin r
      → Advances raw next n fin (send_packet (control_packet a flags) to >> pure r)
  answers a flags to r le nf inv =
      stays _ (control-answers raw n fin a flags to r le (λ e. absurd (nf e)) inv)

  pub waits : (r : Receiver) → RecvOk raw n fin r → Advances raw next n fin (pure r)
  waits r inv = stays _ (record { sends = tt; result = inv })

  next_chunk :
      (st : RecvState) (body : List ℕ)
      → RecvOk raw n fin (receiving st)
      → body ≡ chunk raw n
      → st.received_data ++ body ≡ take ((n + 1) * max_payload) raw
  next_chunk st body inv e = rw (inv.1, e) (take-chunk raw n)

  recv_data-Advances :
      (cfg : RecvConfig) (st : RecvState) (p : Packet) (from : Address)
      → RecvOk raw n fin (receiving st)
      → IsGenuinePacket raw next p
      → p.flags ≡ flag_data
      → Advances raw next n fin (recv_data cfg st p from)
  unfolding recv_data
  recv_data-Advances cfg st p from inv g d = elim (Bool-cases (p.seq == st.expected_seq)) [
    | inl e ↦
        let at : p.seq ≡ n = omega (arith, ==→eq p.seq st.expected_seq e) in
        rw e (record {
          n' = n + 1;
          fin' = fin;
          n_le = omega arith;
          n_bound = omega (arith, g.data_lt d);
          fin_kept = λ h. h;
          keeps =
              Keeps-bind (IsHonest (n + 1) fin) (λ u. Unit {0}) (RecvOk raw (n + 1) fin) _ _
                (Keeps-bind _ (λ u. Unit {0}) (λ u. Unit {0}) _ _ (report-Keeps _ cfg.total_bytes _)
                  (λ _ _. Keeps-send _ (control_packet (st.expected_seq + 1) flag_ack) from (
                    control-IsHonest (st.expected_seq + 1) flag_ack (n + 1) fin (omega arith)
                      (λ f. absurd (omega arith)))))
                (λ _ _. record {
                  sends = tt;
                  result = (
                    omega arith,
                    next_chunk st p.payload inv (g.data_eq d ∙ ap (chunk raw) at),
                    inv.2,
                  );
                });
        })
    | inr e ↦ rw e (answers st.expected_seq flag_ack from _ (omega arith) (omega arith) inv)
  ]

  accepted :
      (st : RecvState) (p : Packet) (from : Address) (now : ℕ) (bs : List ℕ)
      → RecvOk raw n fin (receiving st)
      → p.seq ≡ total_packets raw
      → (p.seq == st.expected_seq) ≡ true
      → control_packet p.seq flag_fin ≡ some bs
      → Advances raw next n fin (
        send bs from ∷ [],
        ok (
            lingering (record {
              content = st.received_data;
              sender_addr = from;
              final_seq = st.expected_seq;
              ack_fin = bs;
              linger_deadline = now + fin_linger_timeout_ms;
            })),
      )
  accepted st p from now bs inv last e packed =
      let at : p.seq ≡ st.expected_seq = ==→eq p.seq st.expected_seq e in
      let all : n ≡ total_packets raw = omega arith in
      let honest = control-IsHonest p.seq flag_fin n true (omega arith) (λ _. refl) bs packed in
      record {
        n' = n;
        fin' = true;
        n_le = omega arith;
        n_bound = bound;
        fin_kept = λ _. refl;
        keeps = record {
          sends = (honest, tt);
          result = (
            inv.1 ∙ ap (λ (k : ℕ). take (k * max_payload) raw) all ∙ take_total raw,
            all,
            refl,
            honest,
          );
        };
      }

  recv_fin-Advances :
      (st : RecvState) (p : Packet) (from : Address) (now : ℕ)
      → RecvOk raw n fin (receiving st)
      → IsGenuinePacket raw next p
      → p.flags ≡ flag_fin
      → Advances raw next n fin (recv_fin st p from now)
  unfolding recv_fin
  recv_fin-Advances st p from now inv g d =
      elim (Bool-cases (p.length == 0 && Receiver.is_empty p.payload)) [
        | inr bad ↦ rw bad (waits _ inv)
        | inl good ↦ elim (Bool-cases (p.seq == st.expected_seq)) [
          | inr early ↦
              rw (good, early)
                (answers st.expected_seq flag_ack from _ (omega arith) (omega arith) inv)
          | inl e ↦ elim (Option-cases (control_packet p.seq flag_fin)) [
            | inl big ↦ rw (good, e, big) (stays _ (record { sends = tt; result = tt }))
            | inr (bs, packed) ↦
                rw (good, e, packed) (accepted st p from now bs inv (g.fin_eq d) e packed)
          ]
        ]
      ]

  pub recv_packet-Advances :
      (cfg : RecvConfig) (st : RecvState) (p : Packet) (from : Address) (now : ℕ)
      → RecvOk raw n fin (receiving st)
      → IsGenuinePacket raw next p
      → Advances raw next n fin (recv_packet cfg st p from now)
  unfolding recv_packet
  recv_packet-Advances cfg st p from now inv g =
      elim (Bool-cases (cfg.respond_to_syn && p.flags == flag_syn)) [
        | inl syn ↦ rw syn (
            answers p.seq (bit_or flag_syn flag_ack) from _ (omega (arith, g.syn_eq (ground arith)))
              (omega arith) inv)
        | inr plain ↦ elim (Bool-cases (p.flags == flag_fin)) [
          | inl f ↦ rw (plain, f) (recv_fin-Advances st p from now inv g (==→eq p.flags flag_fin f))
          | inr nf ↦ elim (Bool-cases (p.flags == flag_data)) [
            | inl d ↦
                rw (plain, nf, d)
                  (recv_data-Advances cfg st p from inv g (==→eq p.flags flag_data d))
            | inr nd ↦ rw (plain, nf, nd) (waits _ inv)
          ]
        ]
      ]
