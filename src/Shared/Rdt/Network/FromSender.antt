-- ===== src/Shared/Rdt/Network/FromSender.antt =====
-- A turn of the sender on honest input: it sends genuine datagrams alone, its window stays within
-- eight packets, and it does not move past what the receiver holds.
use computer_network_socket.Base.{
  ℕ, zero, suc, ◌+◌, ◌-◌, ◌≤◌, ◌<◌, ◌≡◌, ◌≢◌, ◌∙◌, ap, inl, inr, refl, sym, Bool, true, false, ◌&&◌,
  some, List, [], bit_or, bit_and, arith, Bool-cases, ◌==◌, ltb, leb,
}
use computer_network_socket.Shared.Constants.{
  flag_syn, flag_ack, flag_fin, flag_data, data_max_retries, window_size, timeout_ms,
  dup_ack_threshold,
}
use computer_network_socket.Shared.Packet.{Packet, pack_packet}
use computer_network_socket.Shared.Packet.RoundTrip.{packed-ReadsAs}
use computer_network_socket.Shared.Rdt.Action.{
  Action, ◌>>=◌, ◌>>◌, pure, raise, data_timeout, send_packet, raise_if_cancelled, Exception,
}
use computer_network_socket.Shared.Rdt.Sender.{
  SendConfig, SendState, SendInput, chunk, total_packets, make_data_packet, fill_window,
  resend_window, check_timer, on_ack, send_packet_arrived, is_syn_probe, report_sent,
}
use computer_network_socket.Shared.Rdt.Network.Honest.{
  IsGenuine, IsHonestPacket, Keeps, Keeps-bind, Keeps-send,
}

pub make_data_packet-IsGenuine :
    (raw : List ℕ) (next i : ℕ)
    → i < next
    → (bs : List ℕ) → make_data_packet raw i ≡ some bs
    → IsGenuine raw next bs
unfolding make_data_packet
make_data_packet-IsGenuine raw next i lt bs e p u =
    let r = packed-ReadsAs i 0 flag_data (chunk raw i) p e u in
    record {
      data_lt = λ _. omega (arith, r.seq_eq);
      data_eq = λ _. r.payload_eq ∙ ap (chunk raw) (sym (r.seq_eq));
      fin_eq = λ f. absurd (omega (arith, r.flags_eq));
      syn_eq = λ f. absurd (omega (arith, r.flags_eq));
    }

-- Packets without data: a FIN with the number of packets, and answers to a SYN.
pub control-IsGenuine :
    (raw : List ℕ) (next s a flags : ℕ)
    → flags ≢ flag_data
    → flags ≢ flag_syn
    → (flags ≡ flag_fin → s ≡ total_packets raw)
    → (bs : List ℕ) → pack_packet s a flags [] ≡ some bs
    → IsGenuine raw next bs
control-IsGenuine raw next s a flags nd ns f bs e p u =
    let r = packed-ReadsAs s a flags [] p e u in
    record {
      data_lt = λ d. absurd (nd (sym (r.flags_eq) ∙ d));
      data_eq = λ d. absurd (nd (sym (r.flags_eq) ∙ d));
      fin_eq = λ h. r.seq_eq ∙ f (sym (r.flags_eq) ∙ h);
      syn_eq = λ h. absurd (ns (sym (r.flags_eq) ∙ h));
    }

module _ (P : List ℕ → Type 0) where
  pub pure-Keeps : {A : Type 0} (Q : A → Type 0) (a : A) → Q a → Keeps P Q (pure a)
  pure-Keeps Q a h = record { sends = tt; result = h }

  pub raise-Keeps : {A : Type 0} (Q : A → Type 0) (x : Exception) → Keeps P Q (raise x)
  raise-Keeps Q x = record { sends = tt; result = tt }

  pub guard-Keeps :
      {A : Type 0} (Q : A → Type 0) (cancelled : Bool) (m : Action A)
      → Keeps P Q m
      → Keeps P Q (raise_if_cancelled cancelled >>= λ _. m)
  guard-Keeps Q true m h = record { sends = tt; result = tt }
  guard-Keeps Q false m h = h

  pub then-Keeps :
      {A : Type 0} (Q : A → Type 0) (m : Action (Unit {0})) (k : Action A)
      → Keeps P (λ u. Unit {0}) m
      → Keeps P Q k
      → Keeps P Q (m >>= λ _. k)
  then-Keeps Q m k hm hk = Keeps-bind P (λ u. Unit {0}) Q m (λ _. k) hm (λ _ _. hk)

  pub report_sent-Keeps :
      (cfg : SendConfig) (current : ℕ) → Keeps P (λ u. Unit {0}) (report_sent cfg current)
  report_sent-Keeps cfg current = elim (Bool-cases cfg.reports) [
    | inl e ↦ rw e (record { sends = tt; result = tt })
    | inr e ↦ rw e (record { sends = tt; result = tt })
  ]

-- Where the sender stands: `next` packets are sent, and at most `n` are acknowledged.
pub record SendOk (next n : ℕ) (st : SendState) : Type 0 where
  pub next_eq : st.next_seq_num ≡ next
  pub base_le : st.base ≤ n
  pub window : next ≤ st.base + window_size

pub record Filled (next n base : ℕ) (st : SendState) : Type 0 where
  pub stands : SendOk next n st
  pub base_eq : st.base ≡ base

-- What filling the window has led to, also when it was aborted.
pub record Fills (room : ℕ) (raw : List ℕ) (n : ℕ) (st : SendState) (m : Action SendState)
    : Type 0 where
  pub next' : ℕ
  pub grows : 0 < room → st.next_seq_num < total_packets raw → st.next_seq_num < next'
  pub next_le : st.next_seq_num ≤ next'
  pub next_bound : next' ≤ total_packets raw
  pub keeps : Keeps (IsGenuine raw next') (Filled next' n st.base) m

-- One packet sent in front of the rest of the window.
Fills-one :
    (room : ℕ) (cfg : SendConfig) (n : ℕ) (st st' : SendState) (cancelled : Bool)
    (rest : Action SendState)
    → st'.next_seq_num ≡ st.next_seq_num + 1
    → st'.base ≡ st.base
    → Fills room cfg.raw_data n st' rest
    → Fills (suc room) cfg.raw_data n st (
        raise_if_cancelled cancelled
        >> send_packet (make_data_packet cfg.raw_data st.next_seq_num) cfg.dest_addr
        >> rest)
Fills-one room cfg n st st' cancelled rest e b f = record {
  next' = f.next';
  grows = λ _ _. omega (arith, f.next_le);
  next_le = omega (arith, f.next_le);
  next_bound = f.next_bound;
  keeps =
      then-Keeps (IsGenuine cfg.raw_data f.next') (Filled f.next' n st.base) _ rest
        (guard-Keeps _ (λ u. Unit {0}) cancelled _
          (Keeps-send _ (make_data_packet cfg.raw_data st.next_seq_num) cfg.dest_addr (
            make_data_packet-IsGenuine cfg.raw_data f.next' st.next_seq_num
              (omega (arith, f.next_le)))))
        (rw b at f.keeps);
}

pub fill_window-Fills :
    (room : ℕ) (cfg : SendConfig) (inp : SendInput) (st : SendState) (n : ℕ)
    → st.base ≤ n
    → st.next_seq_num + room ≤ st.base + window_size
    → st.next_seq_num ≤ total_packets cfg.raw_data
    → Fills room cfg.raw_data n st (fill_window room cfg inp st)
unfolding fill_window
fill_window-Fills zero cfg inp st n hb hr ht = record {
  next' = st.next_seq_num;
  grows = λ h _. absurd (omega arith);
  next_le = omega arith;
  next_bound = ht;
  keeps = pure-Keeps _ _ st (record {
    stands = record { next_eq = refl; base_le = hb; window = omega arith };
    base_eq = refl;
  });
}
fill_window-Fills (suc room) cfg inp st n hb hr ht =
    elim (Bool-cases (ltb st.next_seq_num (total_packets cfg.raw_data))) [
      | inr full ↦ rw full (record {
        next' = st.next_seq_num;
        grows = λ _ h. absurd (ground arith);
        next_le = omega arith;
        next_bound = ht;
        keeps = pure-Keeps _ _ st (record {
          stands = record { next_eq = refl; base_le = hb; window = omega arith };
          base_eq = refl;
        });
      })
      | inl more ↦ rw more (
          Fills-one room cfg n st _ (inp.cancelled_filling st.next_seq_num) _ refl refl
            (fill_window-Fills room cfg inp _ n hb (omega arith) (ground arith)))
    ]

-- The rest of a turn, once the window is filled up to `next`.
module _ (cfg : SendConfig) (inp : SendInput) (next n : ℕ) where
  abbrev Turn : Action SendState → Type 0
  Turn = Keeps (IsGenuine cfg.raw_data next) (SendOk next n)

  resend_window-Keeps :
      (left i : ℕ)
      → i + left ≤ next
      → Keeps (IsGenuine cfg.raw_data next) (λ u. Unit {0}) (resend_window left cfg inp i)
  unfolding resend_window
  resend_window-Keeps zero i le = record { sends = tt; result = tt }
  resend_window-Keeps (suc left) i le =
      then-Keeps _ (λ u. Unit {0}) _ _
        (guard-Keeps _ (λ u. Unit {0}) (inp.cancelled_resending i) _
          (Keeps-send _ (make_data_packet cfg.raw_data i) cfg.dest_addr
            (make_data_packet-IsGenuine cfg.raw_data next i (omega arith))))
        (resend_window-Keeps left (i + 1) (omega arith))

  resends :
      (st st' : SendState)
      → SendOk next n st
      → st.base < st.next_seq_num
      → SendOk next n st'
      → Turn (resend_window (st.next_seq_num - st.base) cfg inp st.base >> pure st')
  resends st st' ok lt ok' =
      then-Keeps _ (SendOk next n) _ _
        (resend_window-Keeps (st.next_seq_num - st.base) st.base (omega (arith, ok.next_eq)))
        (pure-Keeps _ _ st' ok')

  pub check_timer-Keeps : (st : SendState) → SendOk next n st → Turn (check_timer cfg inp st)
  unfolding check_timer
  check_timer-Keeps st ok =
      elim (Bool-cases
        (ltb st.base st.next_seq_num && ltb timeout_ms (inp.check_time - st.timer_start))) [
          | inr early ↦ rw early (pure-Keeps _ _ st ok)
          | inl due ↦ elim (Bool-cases (leb data_max_retries st.data_retry_count)) [
            | inl out ↦ rw (due, out) (raise-Keeps _ (SendOk next n) data_timeout)
            | inr again ↦
                rw (due, again)
                  (resends st _ ok (ground arith)
                    (record { next_eq = ok.next_eq; base_le = ok.base_le; window = ok.window }))
          ]
        ]

  pub on_ack-Keeps :
      (st : SendState) (ack_num : ℕ)
      → SendOk next n st
      → st.base < next
      → ack_num ≤ n
      → Turn (on_ack cfg inp st ack_num)
  unfolding on_ack
  on_ack-Keeps st ack_num ok lt le = elim (Bool-cases (ltb st.base ack_num)) [
    | inl up ↦ rw up (
        then-Keeps _ (SendOk next n) _ _ (report_sent-Keeps _ cfg _)
          (pure-Keeps _ _ _ (record { next_eq = ok.next_eq; base_le = le; window = ground arith })))
    | inr stale ↦ elim (Bool-cases (ack_num == st.base)) [
      | inr old ↦ rw (stale, old) (pure-Keeps _ _ st ok)
      | inl dup ↦ elim (Bool-cases (st.dup_ack_count + 1 == dup_ack_threshold)) [
        | inr few ↦
            rw (stale, dup, few)
              (pure-Keeps _ _ _
                (record { next_eq = ok.next_eq; base_le = ok.base_le; window = ok.window }))
        | inl third ↦ elim (Bool-cases (leb data_max_retries st.data_retry_count)) [
          | inl out ↦ rw (stale, dup, third, out) (raise-Keeps _ (SendOk next n) data_timeout)
          | inr again ↦
              rw (stale, dup, third, again)
                (then-Keeps _ (SendOk next n) _ _
                  (Keeps-send _ (make_data_packet cfg.raw_data st.base) cfg.dest_addr
                    (make_data_packet-IsGenuine cfg.raw_data next st.base lt))
                  (pure-Keeps _ _ _
                    (record { next_eq = ok.next_eq; base_le = ok.base_le; window = ok.window })))
        ]
      ]
    ]
  ]

  pub send_packet_arrived-Keeps :
      (st : SendState) (p : Packet) (fin : Bool)
      → SendOk next n st
      → st.base < next
      → IsHonestPacket n fin p
      → Turn (send_packet_arrived cfg inp st p)
  unfolding send_packet_arrived
  send_packet_arrived-Keeps st p fin ok lt h =
      elim (Bool-cases (cfg.respond_to_syn && is_syn_probe p)) [
        | inl syn ↦ rw syn (
            then-Keeps _ (SendOk next n) _ _
              (Keeps-send _ (pack_packet 0 p.seq (bit_or flag_syn flag_ack) []) cfg.dest_addr (
                control-IsGenuine cfg.raw_data next 0 p.seq (bit_or flag_syn flag_ack) (omega arith)
                  (omega arith) (λ e. absurd (omega arith))))
              (pure-Keeps _ _ _
                (record { next_eq = ok.next_eq; base_le = ok.base_le; window = ok.window })))
        | inr plain ↦ elim (Bool-cases (bit_and p.flags flag_ack == 0)) [
          | inl none_set ↦ rw (plain, none_set) (check_timer-Keeps st ok)
          | inr set ↦
              rw (plain, set)
                (Keeps-bind _ (SendOk next n) (SendOk next n) _ _
                  (on_ack-Keeps st p.ack ok lt (h.ack_le (ground arith)))
                  (λ st' ok'. check_timer-Keeps st' ok'))
        ]
      ]
