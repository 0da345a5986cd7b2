-- ===== src/Server/DataChannel/Attempts.antt =====
-- The handshakes of a data channel: whom they reach, and how many datagrams they send.
use computer_network_socket.Base.{
  ℕ, zero, suc, ◌≤◌, ◌≡◌, Bool, ◌&&◌, Option, none, some, List, [], ◌∷◌, ◌++◌, length, bit_or, ◌==◌,
  if◌then◌else◌, ==→eq, and_left, arith, length-append,
}
use computer_network_socket.Base.Cases.{if-lem, if-split}
use computer_network_socket.Shared.Address.{Address, same_address, same_address→eq}
use computer_network_socket.Shared.Constants.{flag_syn, flag_ack}
use computer_network_socket.Shared.Packet.{pack_packet}
use computer_network_socket.Shared.Rdt.Action.{Effect, send, Arrival, timed_out, datagram}
use computer_network_socket.Server.DataChannel.{
  Turn, Handshake, found, interrupted, times_out, fails, waiting, is_control, send_control,
  await_syn, open_active_receive_peer,
}

-- The handshake ends, if with a peer, then with this one.
abbrev pub Reaches : Address → Handshake → Type 0
Reaches expected (found peer) = peer ≡ expected
Reaches expected interrupted = Unit {0}
Reaches expected times_out = Unit {0}
Reaches expected fails = Unit {0}
Reaches expected waiting = Unit {0}

-- It has sent so many datagrams at most.
abbrev pub HandshakeBound : ℕ → Address → List Effect × Handshake → Type 0
HandshakeBound n expected (sent, result) = (length sent ≤ n) × Reaches expected result

pub send_control-length : (flags : ℕ) (to : Address) → length (send_control flags to) ≤ 1
unfolding send_control
send_control-length flags to = for_packet (pack_packet 0 0 flags [])
  where
    for_packet :
        (o : Option (List ℕ))
        → length (elim o as (λ o'. List Effect) [ none ↦ [] | some bs ↦ send bs to ∷ [] ]) ≤ 1
    for_packet none = omega arith
    for_packet (some bs) = omega arith

pub open_active_receive_peer-HandshakeBound :
    (retries : ℕ) (address : Address) (turns : List Turn)
    → HandshakeBound retries address (open_active_receive_peer retries address turns)
unfolding open_active_receive_peer
open_active_receive_peer-HandshakeBound zero address turns = (omega arith, tt)
open_active_receive_peer-HandshakeBound (suc retries) address [] = (omega arith, tt)
open_active_receive_peer-HandshakeBound (suc retries) address (t ∷ ts) =
    let rest = open_active_receive_peer-HandshakeBound retries address ts in
    if-lem {A = List Effect × Handshake} (HandshakeBound (suc retries) address) t.is_cancelled
      (omega arith, tt)
      (if-lem {A = List Effect × Handshake} (HandshakeBound (suc retries) address) t.recv_fails
        (omega (arith, send_control-length flag_syn address), tt) (for_arrival rest t.arrival))
  where
    again :
        HandshakeBound retries address (open_active_receive_peer retries address ts)
        → HandshakeBound (suc retries) address (
          send_control flag_syn address ++ (open_active_receive_peer retries address ts).0,
          (open_active_receive_peer retries address ts).1,
        )
    again rest =
        let r = open_active_receive_peer retries address ts in
        (
          omega (
            arith,
            length-append (send_control flag_syn address) r.0,
            send_control-length flag_syn address,
            rest.0,
          ),
          rest.1,
        )

    for_arrival :
        HandshakeBound retries address (open_active_receive_peer retries address ts)
        → (a : Arrival)
        → HandshakeBound (suc retries) address (elim a as (λ a'. List Effect × Handshake) [
          | timed_out ↦ (
            send_control flag_syn address ++ (open_active_receive_peer retries address ts).0,
            (open_active_receive_peer retries address ts).1,
          )
          | datagram bs sender ↦
              if same_address sender address && is_control (bit_or flag_syn flag_ack) bs
              then (send_control flag_syn address, found sender)
              else (
                send_control flag_syn address ++ (open_active_receive_peer retries address ts).0,
                (open_active_receive_peer retries address ts).1,
              )
        ])
    for_arrival rest timed_out = again rest
    for_arrival rest (datagram bs sender) =
        if-split {A = List Effect × Handshake} (HandshakeBound (suc retries) address)
          (same_address sender address && is_control (bit_or flag_syn flag_ack) bs)
          (λ valid. (
            omega (arith, send_control-length flag_syn address),
            same_address→eq sender address (and_left _ _ valid),
          ))
          (λ other. again rest)

-- A peer, if there is one, is at this host.
abbrev pub AtHost : ℕ → Handshake → Type 0
AtHost host (found peer) = peer.host ≡ host
AtHost host interrupted = Unit {0}
AtHost host times_out = Unit {0}
AtHost host fails = Unit {0}
AtHost host waiting = Unit {0}

pub await_syn-length :
    (stops : Bool) (host : ℕ) (turns : List Turn) → length (await_syn stops host turns).0 ≤ 5
unfolding await_syn
await_syn-length stops host [] = omega arith
await_syn-length stops host (t ∷ ts) =
    let rest = await_syn-length stops host ts in
    if-lem {A = List Effect × Handshake} (λ r. length r.0 ≤ 5) t.is_cancelled (omega arith)
      (if-lem {A = List Effect × Handshake} (λ r. length r.0 ≤ 5) t.is_expired (omega arith)
        (if-lem {A = List Effect × Handshake} (λ r. length r.0 ≤ 5) t.recv_fails (omega arith)
          (for_arrival rest t.arrival)))
  where
    for_arrival :
        length (await_syn stops host ts).0 ≤ 5
        → (a : Arrival)
        → length
            (elim a as (λ a'. List Effect × Handshake) [
              | timed_out ↦ if stops then ([], times_out) else await_syn stops host ts
              | datagram bs sender ↦
                  if sender.host == host && is_control flag_syn bs
                  then (send_control (bit_or flag_syn flag_ack) sender, found sender)
                  else await_syn stops host ts
            ]).0
          ≤ 5
    for_arrival rest timed_out =
        if-lem {A = List Effect × Handshake} (λ r. length r.0 ≤ 5) stops (omega arith) rest
    for_arrival rest (datagram bs sender) =
        if-lem {A = List Effect × Handshake} (λ r. length r.0 ≤ 5)
          (sender.host == host && is_control flag_syn bs)
          (omega (arith, send_control-length (bit_or flag_syn flag_ack) sender)) rest

pub await_syn-AtHost :
    (stops : Bool) (host : ℕ) (turns : List Turn) → AtHost host (await_syn stops host turns).1
unfolding await_syn
await_syn-AtHost stops host [] = tt
await_syn-AtHost stops host (t ∷ ts) =
    let rest = await_syn-AtHost stops host ts in
    if-lem {A = List Effect × Handshake} (λ r. AtHost host r.1) t.is_cancelled tt
      (if-lem {A = List Effect × Handshake} (λ r. AtHost host r.1) t.is_expired tt
        (if-lem {A = List Effect × Handshake} (λ r. AtHost host r.1) t.recv_fails tt
          (for_arrival rest t.arrival)))
  where
    for_arrival :
        AtHost host (await_syn stops host ts).1
        → (a : Arrival)
        → AtHost host
            (elim a as (λ a'. List Effect × Handshake) [
              | timed_out ↦ if stops then ([], times_out) else await_syn stops host ts
              | datagram bs sender ↦
                  if sender.host == host && is_control flag_syn bs
                  then (send_control (bit_or flag_syn flag_ack) sender, found sender)
                  else await_syn stops host ts
            ]).1
    for_arrival rest timed_out =
        if-lem {A = List Effect × Handshake} (λ r. AtHost host r.1) stops tt rest
    for_arrival rest (datagram bs sender) =
        if-split {A = List Effect × Handshake} (λ r. AtHost host r.1)
          (sender.host == host && is_control flag_syn bs)
          (λ valid. ==→eq sender.host host (and_left _ _ valid)) (λ other. rest)
