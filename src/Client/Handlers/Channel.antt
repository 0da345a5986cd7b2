-- ===== src/Client/Handlers/Channel.antt =====
-- The handshakes of client/control/handlers/transfer_handler.py: `_open_passive_peer`, `_wait_for_active_upload_peer`
-- and `_resolve_upload_peer`. Names of hosts are resolved already.
use computer_network_socket.Base.{
  ℕ, zero, suc, ◌≤◌, Bool, false, ◌&&◌, Option, none, some, List, [], ◌∷◌, ◌++◌, length, bit_or,
  if◌then◌else◌, arith, length-append, and_left,
}
use computer_network_socket.Base.Cases.{if-lem, if-split}
use computer_network_socket.Shared.Address.{Address, same_address, same_address→eq}
use computer_network_socket.Shared.Constants.{flag_syn, flag_ack}
use computer_network_socket.Shared.Rdt.Action.{Effect, Arrival, timed_out, datagram}
use computer_network_socket.Server.Session.{active, passive}
use computer_network_socket.Server.DataChannel.{
  Turn, Handshake, found, interrupted, times_out, fails, waiting, is_control, send_control,
  await_syn,
}
use computer_network_socket.Server.DataChannel.Attempts.{
  Reaches, HandshakeBound, send_control-length,
}
use computer_network_socket.Client.Context.{ClientContext}

-- The wait for the answer to one SYN; `times_out` is the end of its second.
unfoldable pub await_answer : Address → List Turn → Handshake
unfolding is_control
await_answer expected [] = waiting
await_answer expected (t ∷ ts) =
    let later = await_answer expected ts in
    if t.is_cancelled
    then interrupted
    else if t.is_expired
    then times_out
    else if t.recv_fails
    then fails
    else elim t.arrival [
      | timed_out ↦ later
      | datagram bs sender ↦
          if same_address sender expected && is_control (bit_or flag_syn flag_ack) bs
          then found sender
          else later
    ]

-- PASSIVE_HANDSHAKE_RETRIES
abbrev pub passive_handshake_retries : ℕ
passive_handshake_retries = 5

-- What follows an attempt: the next one after a timeout.
abbrev pub or_retry : Handshake → List Effect × Handshake → List Effect × Handshake
or_retry (found peer) retry = ([], found peer)
or_retry interrupted retry = ([], interrupted)
or_retry times_out retry = retry
or_retry fails retry = ([], fails)
or_retry waiting retry = ([], waiting)

abbrev pub after_sending : List Effect → List Effect × Handshake → List Effect × Handshake
after_sending es (es', r) = (es ++ es', r)

-- `_open_passive_peer`, with the attempts left: whether each is cancelled at its start, and its turns.
unfoldable pub open_passive_peer : ℕ → Address → List (Bool × List Turn) → List Effect × Handshake
unfolding await_answer send_control
open_passive_peer zero expected attempts = ([], times_out)
open_passive_peer (suc retries) expected [] = ([], waiting)
open_passive_peer (suc retries) expected ((cancelled, turns) ∷ attempts) =
    let retry = open_passive_peer retries expected attempts in
    if cancelled
    then ([], interrupted)
    else after_sending (send_control flag_syn expected)
        (or_retry (await_answer expected turns) retry)

unfoldable pub wait_for_active_upload_peer : ClientContext → List Turn → List Effect × Handshake
unfolding await_syn
wait_for_active_upload_peer k turns = await_syn false k.server_host turns

-- `_resolve_upload_peer`; `none` is the RuntimeError of a passive peer that is not configured.
unfoldable pub resolve_upload_peer :
    Option Address
    → ClientContext
    → List Turn
    → List (Bool × List Turn)
    → Option (List Effect × Handshake)
unfolding wait_for_active_upload_peer open_passive_peer
resolve_upload_peer configured_peer k turns attempts = elim k.data_connection_mode [
  | some active ↦ some (wait_for_active_upload_peer k turns)
  | some passive ↦ to_configured configured_peer
  | none ↦ to_configured configured_peer
]
  where
    to_configured : Option Address → Option (List Effect × Handshake)
    to_configured none = none
    to_configured (some peer) = some (open_passive_peer passive_handshake_retries peer attempts)

await_answer-Reaches :
    (expected : Address) (turns : List Turn) → Reaches expected (await_answer expected turns)
unfolding await_answer
await_answer-Reaches expected [] = tt
await_answer-Reaches expected (t ∷ ts) =
    let rest = await_answer-Reaches expected ts in
    if-lem (Reaches expected) t.is_cancelled tt (
      if-lem (Reaches expected) t.is_expired tt
        (if-lem (Reaches expected) t.recv_fails tt (for_arrival rest t.arrival)))
  where
    for_arrival :
        Reaches expected (await_answer expected ts)
        → (a : Arrival)
        → Reaches expected (elim a as (λ a'. Handshake) [
          | timed_out ↦ await_answer expected ts
          | datagram bs sender ↦
              if same_address sender expected && is_control (bit_or flag_syn flag_ack) bs
              then found sender
              else await_answer expected ts
        ])
    for_arrival rest timed_out = rest
    for_arrival rest (datagram bs sender) =
        if-split (Reaches expected)
          (same_address sender expected && is_control (bit_or flag_syn flag_ack) bs)
          (λ valid. same_address→eq sender expected (and_left _ _ valid)) (λ other. rest)

retry-HandshakeBound :
    (n : ℕ) (expected : Address) (h : Handshake) (sent : List Effect)
    (retry : List Effect × Handshake)
    → length sent ≤ 1
    → Reaches expected h
    → HandshakeBound n expected retry
    → HandshakeBound (suc n) expected (after_sending sent (or_retry h retry))
retry-HandshakeBound n expected (found peer) sent retry one r b =
    (omega (arith, length-append sent []), r)
retry-HandshakeBound n expected interrupted sent retry one r b =
    (omega (arith, length-append sent []), tt)
retry-HandshakeBound n expected times_out sent retry one r b =
    (omega (arith, length-append sent retry.0, b.0), b.1)
retry-HandshakeBound n expected fails sent retry one r b =
    (omega (arith, length-append sent []), tt)
retry-HandshakeBound n expected waiting sent retry one r b =
    (omega (arith, length-append sent []), tt)

-- The handshake in passive mode sends five datagrams at most, and its peer is the address that PASV has given.
pub open_passive_peer-HandshakeBound :
    (retries : ℕ) (expected : Address) (attempts : List (Bool × List Turn))
    → HandshakeBound retries expected (open_passive_peer retries expected attempts)
unfolding open_passive_peer
open_passive_peer-HandshakeBound zero expected attempts = (omega arith, tt)
open_passive_peer-HandshakeBound (suc retries) expected [] = (omega arith, tt)
open_passive_peer-HandshakeBound (suc retries) expected ((cancelled, turns) ∷ attempts) =
    if-lem {A = List Effect × Handshake} (HandshakeBound (suc retries) expected) cancelled
      (omega arith, tt)
      (retry-HandshakeBound retries expected (await_answer expected turns)
        (send_control flag_syn expected) (open_passive_peer retries expected attempts)
        (send_control-length flag_syn expected) (await_answer-Reaches expected turns)
        (open_passive_peer-HandshakeBound retries expected attempts))
