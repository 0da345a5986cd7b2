-- ===== src/Server/DataChannel.antt =====
-- server/control/data_channel.py: the UDP channel of a transfer, from the handshake to its release. The validation
-- before it is in Server.Handlers.Transfer.
pub mod Attempts
pub mod Peer
use computer_network_socket.Base.{
  ℕ, zero, suc, Bool, true, false, not, ◌&&◌, ◌||◌, Option, none, some, List, [], ◌∷◌, ◌++◌, length,
  ltb, ◌==◌, bit_or, if◌then◌else◌,
}
use computer_network_socket.Base.Text.{Text, is_empty}
use computer_network_socket.Shared.Address.{Address, same_address}
use computer_network_socket.Shared.Constants.{header_size, flag_syn, flag_ack}
use computer_network_socket.Shared.Checksum.{verify_checksum}
use computer_network_socket.Shared.Packet.{Packet, unpack_packet, pack_packet}
use computer_network_socket.Shared.Rdt.Action.{Effect, send, Arrival, timed_out, datagram}
use computer_network_socket.Server.Session.{
  ClientSession, DataMode, active, passive, register_data_socket, unregister_data_socket,
}
use computer_network_socket.Server.Handlers.Transfer.{validate_data_connection}

unfoldable pub unpack_valid_packet : List ℕ → Option Packet
unfolding verify_checksum unpack_packet
unpack_valid_packet bs =
    if ltb (length bs) header_size || not (verify_checksum bs) then none else unpack_packet bs

-- Whether the bytes are a packet with these flags and no payload.
unfoldable pub is_control : ℕ → List ℕ → Bool
unfolding unpack_valid_packet
is_control flags bs = elim (unpack_valid_packet bs) [
  | none ↦ false
  | some p ↦ p.flags == flags && (p.length == 0 && is_empty p.payload)
]

-- One turn of a handshake: whether it is cancelled at its start, whether its time is over, whether
-- `recvfrom` raises an OSError, as on a socket that an abort has closed, and what it does otherwise.
pub record Turn : Type 0 where
  pub is_cancelled : Bool
  pub is_expired : Bool
  pub recv_fails : Bool
  pub arrival : Arrival

-- How a handshake ends: with a peer, InterruptedError, TimeoutError, OSError, or not yet.
pub data Handshake : Type 0 where
  found : Address → Handshake
  interrupted times_out fails waiting : Handshake

-- `sendto(pack_packet(seq=0, ack=0, flags=flags), address)`
unfoldable pub send_control : ℕ → Address → List Effect
unfolding pack_packet
send_control flags to = elim (pack_packet 0 0 flags []) [ none ↦ [] | some bs ↦ send bs to ∷ [] ]

-- The wait for a SYN from a host: `_discover_passive_peer`, and the client's `_wait_for_active_upload_peer`, whose
-- `recvfrom` waits for a short time only and does not end it.
unfoldable pub await_syn : Bool → ℕ → List Turn → List Effect × Handshake
unfolding is_control send_control
await_syn stops host [] = ([], waiting)
await_syn stops host (t ∷ ts) =
    let later = await_syn stops host ts in
    if t.is_cancelled
    then ([], interrupted)
    else if t.is_expired
    then ([], times_out)
    else if t.recv_fails
    then ([], fails)
    else elim t.arrival [
      | timed_out ↦ if stops then ([], times_out) else later
      | datagram bs sender ↦
          if sender.host == host && is_control flag_syn bs
          then (send_control (bit_or flag_syn flag_ack) sender, found sender)
          else later
    ]

-- ACTIVE_HANDSHAKE_RETRIES
abbrev pub active_handshake_retries : ℕ
active_handshake_retries = 5

-- `_open_active_receive_peer`, with the attempts left.
unfoldable pub open_active_receive_peer : ℕ → Address → List Turn → List Effect × Handshake
unfolding is_control send_control
open_active_receive_peer zero client_address turns = ([], times_out)
open_active_receive_peer (suc retries) client_address [] = ([], waiting)
open_active_receive_peer (suc retries) client_address (t ∷ ts) =
    let (sent, result) = open_active_receive_peer retries client_address ts in
    let syn = send_control flag_syn client_address in
    if t.is_cancelled
    then ([], interrupted)
    else if t.recv_fails
    then (syn, fails)
    else elim t.arrival [
      | timed_out ↦ (syn ++ sent, result)
      | datagram bs sender ↦
          if same_address sender client_address && is_control (bit_or flag_syn flag_ack) bs
          then (syn, found sender)
          else (syn ++ sent, result)
    ]

-- How the use of a channel ends: DataTransferError, InterruptedError of a session that closes, a handshake with no
-- peer, or with the peer of the transfer.
pub data ChannelEnd : Type 0 where
  not_configured : Text → ChannelEnd
  closing : ChannelEnd
  no_peer : Handshake → ChannelEnd
  used : Address → ChannelEnd

pub record Channel : Type 0 where
  pub session : ClientSession
  pub sent : List Effect
  pub closed : List ℕ
  pub end : ChannelEnd

abbrev pub end_of : Handshake → ChannelEnd
end_of (found peer) = used peer
end_of interrupted = no_peer interrupted
end_of times_out = no_peer times_out
end_of fails = no_peer fails
end_of waiting = no_peer waiting

-- The peer of passive mode is remembered.
abbrev pub remember : Handshake → ClientSession → ClientSession
remember (found peer) s = record s { passive_client_address = some peer }
remember interrupted s = s
remember times_out s = s
remember fails s = s
remember waiting s = s

abbrev pub with_peer : ClientSession → List Effect × Handshake → Channel
with_peer s (sent, result) = record { session = s; sent = sent; closed = []; end = end_of result }

-- `_active_peer` and `_open_active_receive_peer`
unfoldable pub active_peer : Bool → List Turn → ClientSession → Address → Channel
unfolding open_active_receive_peer
active_peer receives turns s address = with_peer s (
    if receives
    then open_active_receive_peer active_handshake_retries address turns
    else ([], found address))

-- `_passive_peer`
unfoldable pub passive_peer : List Turn → ClientSession → Channel
unfolding await_syn
passive_peer turns s = elim s.passive_client_address [
  | some peer ↦ with_peer s ([], found peer)
  | none ↦
      let (sent, result) = await_syn true s.client_address.host turns in
      with_peer (remember result s) (sent, result)
]

-- The `finally` of both context managers.
unfoldable pub release : ℕ → List ℕ → Channel → Channel
unfolding unregister_data_socket
release socket owned ch = record ch {
  session = unregister_data_socket socket ch.session;
  closed = ch.closed ++ owned;
}

-- A channel on a socket, of which `owned` is closed at the end.
unfoldable pub on_socket : ℕ → List ℕ → (ClientSession → Channel) → ClientSession → Channel
unfolding register_data_socket release
on_socket socket owned peer s = elim (register_data_socket socket s) [
  | none ↦ record { session = s; sent = []; closed = owned; end = closing }
  | some s' ↦ release socket owned (peer s')
]

abbrev pub unconfigured : ClientSession → Text → Channel
unconfigured s m = record { session = s; sent = []; closed = []; end = not_configured m }

abbrev pub message_of : Option Text → Text
message_of none = []
message_of (some m) = m

-- What `validate_data_connection` raises where the mode or its address is missing.
abbrev pub invalid : ClientSession → Channel
invalid s = unconfigured s (message_of (validate_data_connection s))

abbrev pub active_channel : Bool → ℕ → List Turn → ClientSession → Option Address → Channel
active_channel receives new_socket turns s none = invalid s
active_channel receives new_socket turns s (some address) =
    on_socket new_socket (new_socket ∷ []) (λ t. active_peer receives turns t address) s

abbrev pub passive_channel : List Turn → ClientSession → Option ℕ → Channel
passive_channel turns s none = invalid s
passive_channel turns s (some socket) = on_socket socket [] (passive_peer turns) s

abbrev pub channel_in : Option DataMode → Bool → ℕ → List Turn → ClientSession → Channel
channel_in none receives new_socket turns s = invalid s
channel_in (some active) receives new_socket turns s =
    active_channel receives new_socket turns s s.active_udp_address
channel_in (some passive) receives new_socket turns s = passive_channel turns s s.passive_udp_socket

-- `open_send_channel` and `open_receive_channel`; `new_socket` is the one that active mode opens.
unfoldable pub open_channel : Bool → ℕ → List Turn → ClientSession → Channel
unfolding validate_data_connection active_peer passive_peer on_socket
open_channel receives new_socket turns s =
    channel_in s.data_connection_mode receives new_socket turns s
