-- ===== src/Server/DataChannel/Peer.antt =====
-- Who the peer of a data channel is, and what is left of the channel.
use computer_network_socket.Base.{
  ℕ, ◌≤◌, ◌≡◌, refl, sym, ap, ◌∙◌, Bool, true, false, Option, none, some, List, [], ◌∷◌, length,
  eq→==, arith,
}
use mathlib.Core.Path.{subst}
use computer_network_socket.Base.Cases.{if-lem, if-split, option-split}
use computer_network_socket.Shared.Address.{Address}
use computer_network_socket.Shared.Rdt.Action.{Effect}
use computer_network_socket.Server.Session.{
  ClientSession, DataMode, active, passive, register_data_socket, unregister_data_socket,
  same_socket,
}
use computer_network_socket.Server.DataChannel.{
  Turn, Handshake, found, interrupted, times_out, fails, waiting, open_active_receive_peer,
  active_handshake_retries, Channel, ChannelEnd, used, no_peer, closing, not_configured,
  active_peer, passive_peer, release, on_socket, open_channel, end_of, with_peer, remember, invalid,
  active_channel, passive_channel, channel_in,
}
use computer_network_socket.Server.DataChannel.Attempts.{
  Reaches, open_active_receive_peer-HandshakeBound, AtHost, await_syn-length, await_syn-AtHost,
}

abbrev pub UsedAt : ℕ → ChannelEnd → Type 0
UsedAt host (used peer) = peer.host ≡ host
UsedAt host (no_peer h) = Unit {0}
UsedAt host closing = Unit {0}
UsedAt host (not_configured m) = Unit {0}

abbrev pub AddressAt : ℕ → Option Address → Type 0
AddressAt host none = Unit {0}
AddressAt host (some address) = address.host ≡ host

-- The peer is at the host, no socket is registered any more, and the handshake has sent five datagrams at most.
pub record Managed (host : ℕ) (ch : Channel) : Type 0 where
  pub used_at : UsedAt host ch.end
  pub unregistered : ch.session.current_data_socket ≡ none
  pub sent_at_most : length ch.sent ≤ 5
  pub remembered : AddressAt host ch.session.passive_client_address

-- The same while the socket is registered.
record Registered (host socket : ℕ) (ch : Channel) : Type 0 where
  used_at : UsedAt host ch.end
  registered : ch.session.current_data_socket ≡ some socket
  sent_at_most : length ch.sent ≤ 5
  remembered : AddressAt host ch.session.passive_client_address

unregister_own :
    (s : ClientSession) (socket : ℕ)
    → s.current_data_socket ≡ some socket
    → (unregister_data_socket socket s).current_data_socket ≡ none
unfolding unregister_data_socket
unregister_own s socket e =
    if-split {A = ClientSession} (λ t. t.current_data_socket ≡ none)
      (same_socket s.current_data_socket socket) (λ same. refl)
      (λ other.
        absurd
          (differs (sym other ∙ (ap (λ o. same_socket o socket) e ∙ eq→== socket socket refl))))
  where
    differs : (false ≡ true) → ⊥
    differs e' = ground (arith, e')

release-Managed :
    (host socket : ℕ) (owned : List ℕ) (ch : Channel)
    → Registered host socket ch
    → Managed host (release socket owned ch)
unfolding release unregister_data_socket
release-Managed host socket owned ch h = record {
  used_at = h.used_at;
  unregistered = unregister_own ch.session socket h.registered;
  sent_at_most = h.sent_at_most;
  remembered =
      if-lem {A = ClientSession} (λ t. AddressAt host t.passive_client_address)
        (same_socket ch.session.current_data_socket socket) h.remembered h.remembered;
}

on_socket-Managed :
    (host socket : ℕ) (owned : List ℕ) (peer : ClientSession → Channel) (s : ClientSession)
    → s.current_data_socket ≡ none
    → AddressAt host s.passive_client_address
    → Registered host socket (peer (record s { current_data_socket = some socket }))
    → Managed host (on_socket socket owned peer s)
unfolding on_socket register_data_socket
on_socket-Managed host socket owned peer s free known h =
    if-lem {A = Option ClientSession}
      (λ o. Managed host (elim o as (λ o'. Channel) [
        | none ↦ record { session = s; sent = []; closed = owned; end = closing }
        | some s' ↦ release socket owned (peer s')
      ]))
      s.cleanup_started
      (record { used_at = tt; unregistered = free; sent_at_most = omega arith; remembered = known })
      (release-Managed host socket owned (peer (record s { current_data_socket = some socket })) h)

-- A handshake that reaches an address, as a channel.
end_of-UsedAt :
    (address : Address) (h : Handshake) → Reaches address h → UsedAt address.host (end_of h)
end_of-UsedAt address (found peer) e = ap (λ a. a.host) e
end_of-UsedAt address interrupted e = tt
end_of-UsedAt address times_out e = tt
end_of-UsedAt address fails e = tt
end_of-UsedAt address waiting e = tt

active_peer-Registered :
    (host socket : ℕ) (receives : Bool) (turns : List Turn) (s : ClientSession) (address : Address)
    → address.host ≡ host
    → s.current_data_socket ≡ some socket
    → AddressAt host s.passive_client_address
    → Registered host socket (active_peer receives turns s address)
unfolding active_peer
active_peer-Registered host socket receives turns s address at registered known =
    let b = open_active_receive_peer-HandshakeBound active_handshake_retries address turns in
    if-lem {A = List Effect × Handshake} (λ r. Registered host socket (with_peer s r)) receives
      (record {
        used_at =
            subst (λ h. UsedAt h (end_of (open_active_receive_peer 5 address turns).1)) at
              (end_of-UsedAt address _ b.1);
        registered = registered;
        sent_at_most = b.0;
        remembered = known;
      })
      (record {
        used_at = at;
        registered = registered;
        sent_at_most = omega arith;
        remembered = known;
      })

discovered-Registered :
    (host socket : ℕ) (s : ClientSession) (sent : List Effect) (h : Handshake)
    → AtHost host h
    → length sent ≤ 5
    → s.current_data_socket ≡ some socket
    → s.passive_client_address ≡ none
    → Registered host socket (with_peer (remember h s) (sent, h))
discovered-Registered host socket s sent (found peer) at few registered none_known = record {
  used_at = at;
  registered = registered;
  sent_at_most = few;
  remembered = at;
}
discovered-Registered host socket s sent interrupted at few registered none_known = record {
  used_at = tt;
  registered = registered;
  sent_at_most = few;
  remembered = subst (AddressAt host) (sym none_known) tt;
}
discovered-Registered host socket s sent times_out at few registered none_known = record {
  used_at = tt;
  registered = registered;
  sent_at_most = few;
  remembered = subst (AddressAt host) (sym none_known) tt;
}
discovered-Registered host socket s sent fails at few registered none_known = record {
  used_at = tt;
  registered = registered;
  sent_at_most = few;
  remembered = subst (AddressAt host) (sym none_known) tt;
}
discovered-Registered host socket s sent waiting at few registered none_known = record {
  used_at = tt;
  registered = registered;
  sent_at_most = few;
  remembered = subst (AddressAt host) (sym none_known) tt;
}

passive_peer-Registered :
    (socket : ℕ) (turns : List Turn) (s : ClientSession)
    → s.current_data_socket ≡ some socket
    → AddressAt s.client_address.host s.passive_client_address
    → Registered s.client_address.host socket (passive_peer turns s)
unfolding passive_peer
passive_peer-Registered socket turns s registered known =
    option-split (Registered s.client_address.host socket) s.passive_client_address
      (λ unknown.
        discovered-Registered s.client_address.host socket s _ _
          (await_syn-AtHost true s.client_address.host turns)
          (await_syn-length true s.client_address.host turns) registered unknown)
      (λ peer e. record {
        used_at = subst (AddressAt s.client_address.host) e known;
        registered = registered;
        sent_at_most = omega arith;
        remembered = known;
      })

-- Where the addresses that PORT and an earlier transfer have left are at the client's host, and no socket is
-- registered, a data channel is only ever used with a peer at the client's host, its handshake sends five datagrams
-- at most, and afterwards no socket is registered, however the handshake ends.
pub open_channel-Managed :
    (receives : Bool) (new_socket : ℕ) (turns : List Turn) (s : ClientSession)
    → s.current_data_socket ≡ none
    → AddressAt s.client_address.host s.active_udp_address
    → AddressAt s.client_address.host s.passive_client_address
    → Managed s.client_address.host (open_channel receives new_socket turns s)
unfolding open_channel
open_channel-Managed receives new_socket turns s free at known = for_mode s.data_connection_mode
  where
    invalid-Managed : Managed s.client_address.host (invalid s)
    invalid-Managed = record {
      used_at = tt;
      unregistered = free;
      sent_at_most = omega arith;
      remembered = known;
    }

    active-Managed :
        (o : Option Address)
        → AddressAt s.client_address.host o
        → Managed s.client_address.host (active_channel receives new_socket turns s o)
    active-Managed none h = invalid-Managed
    active-Managed (some address) h =
        on_socket-Managed s.client_address.host new_socket (new_socket ∷ [])
          (λ t. active_peer receives turns t address) s free known
          (active_peer-Registered s.client_address.host new_socket receives turns _ address h refl
            known)

    passive-Managed : (o : Option ℕ) → Managed s.client_address.host (passive_channel turns s o)
    passive-Managed none = invalid-Managed
    passive-Managed (some socket) =
        on_socket-Managed s.client_address.host socket [] (passive_peer turns) s free known (
          passive_peer-Registered socket turns (record s { current_data_socket = some socket }) refl
            known)

    for_mode :
        (m : Option DataMode)
        → Managed s.client_address.host (channel_in m receives new_socket turns s)
    for_mode none = invalid-Managed
    for_mode (some active) = active-Managed s.active_udp_address at
    for_mode (some passive) = passive-Managed s.passive_udp_socket
