-- ===== src/Client/Dispatch/InStep/Transfers.antt =====
-- The commands that start a transfer keep the client in step.
use computer_network_socket.Base.{ℕ, refl, Bool, true, not, Option, none, some, inl, inr}
use computer_network_socket.Base.Text.{Text, is_empty}
use computer_network_socket.Base.Cases.{if-lem, option-lem}
use computer_network_socket.Shared.Address.{Address}
use computer_network_socket.Server.Session.{DataMode, active, passive}
use computer_network_socket.Client.Context.{ClientContext, start_transfer, transfer_in_progress}
use computer_network_socket.Client.Control.{
  Client, Result, returned, raised, ◌>>=◌, send_command, read_reply_line, open_data_socket, Task,
  LocalPath, Verification,
}
use computer_network_socket.Client.Handlers.Simple
use computer_network_socket.Client.Handlers.Transfer
use computer_network_socket.Client.Handlers.Transfer.{Host}
use computer_network_socket.Client.Dispatch.InStep

module _ (finals : ℕ) where
  begin_worker-Busy :
      (task : Task) (c : Client)
      → InStep.IdleClient finals 0 c
      → InStep.After (InStep.InStep finals) (Transfer.begin_worker task c)
  unfolding Transfer.begin_worker start_transfer
  begin_worker-Busy task c h =
      if-lem {A = Option ClientContext}
        (λ o. InStep.After (InStep.InStep finals) (elim o as (λ o'. Result Bool) [
          | none ↦ raised c
          | some context' ↦ returned true (record c { context = context'; worker = some task })
        ]))
        (transfer_in_progress c.context) tt (inr (record { balance = h.balance; in_phase = refl }))

  read_preliminary_reply-Idle :
      (c : Client)
      → InStep.IdleClient finals 1 c
      → InStep.After (InStep.IdleClient finals 0) (Transfer.read_preliminary_reply c)
  unfolding Transfer.read_preliminary_reply
  read_preliminary_reply-Idle c h =
      InStep.bind-After (InStep.IdleClient finals 0) (InStep.IdleClient finals 0)
        (read_reply_line c) _ (InStep.read_reply_line-Idle finals c h) (λ response c' h'. h')

  module _ (host : Host) where
    with_data_socket-Idle :
        (peer : Option Address) (c : Client)
        → InStep.IdleClient finals 0 c
        → InStep.After (InStep.IdleClient finals 0) (Transfer.with_data_socket host peer c)
    unfolding Transfer.with_data_socket
    with_data_socket-Idle peer c h =
        let opened = open_data_socket (host.open_udp 0) c in
        option-lem (InStep.After (InStep.IdleClient finals 0)) opened.0 tt
          (λ s. InStep.open_data_socket-Idle finals (host.open_udp 0) c h)

    require_channel-Idle :
        (c : Client)
        → InStep.IdleClient finals 0 c
        → InStep.After (InStep.IdleClient finals 0) (Transfer.require_channel host c)
    unfolding Transfer.require_channel
    require_channel-Idle c h = for_mode c.context.data_connection_mode
      where
        for_mode :
            (m : Option DataMode)
            → InStep.After {A = Option (ℕ × Option Address)}
                (InStep.IdleClient finals 0)
                (elim m as (λ m'. Result (Option (ℕ × Option Address))) [
                  | none ↦ returned none c
                  | some active ↦ Transfer.with_data_socket host none c
                  | some passive ↦
                      elim c.context.data_peer_address
                        as (λ p. Result (Option (ℕ × Option Address))) [
                          | none ↦ returned none c
                          | some peer ↦ Transfer.with_data_socket host (some peer) c
                        ]
                ])
        for_mode none = h
        for_mode (some active) = with_data_socket-Idle none c h
        for_mode (some passive) =
            option-lem (InStep.After (InStep.IdleClient finals 0)) c.context.data_peer_address h
              (λ peer. with_data_socket-Idle (some peer) c h)

    request_transfer-InStep :
        (t : Text) (task : Text → Task) (c : Client)
        → InStep.IdleClient finals 0 c
        → InStep.After (InStep.InStep finals) (Transfer.request_transfer host t task c)
    unfolding Transfer.request_transfer
    request_transfer-InStep t task c h =
        InStep.bind-After (InStep.IdleClient finals 1) (InStep.InStep finals)
          (send_command host.send_works t c) _
          (InStep.send_command-Idle finals host.send_works t c h)
          (λ u c₁ h₁.
            InStep.bind-After (InStep.IdleClient finals 0) (InStep.InStep finals)
              (Transfer.read_preliminary_reply c₁) _ (read_preliminary_reply-Idle c₁ h₁)
              (λ (ready, message) c₂ h₂.
                if-lem (InStep.After (InStep.InStep finals)) ready
                  (begin_worker-Busy (task message) c₂ h₂) (inl h₂)))

    -- What the handlers do behind `require_channel`.
    behind_channel :
        (f : ℕ → Option Address → Client → Result Bool)
        → ((s : ℕ) (peer : Option Address) (c : Client)
            → InStep.IdleClient finals 0 c
            → InStep.After (InStep.InStep finals) (f s peer c))
        → (c : Client) → InStep.IdleClient finals 0 c
        → InStep.After (InStep.InStep finals) (
            Transfer.require_channel host c >>= λ channel c'. elim channel [
              | none ↦ returned true c'
              | some (s, peer) ↦ f s peer c'
            ])
    behind_channel f k c h =
        InStep.bind-After (InStep.IdleClient finals 0) (InStep.InStep finals)
          (Transfer.require_channel host c) _ (require_channel-Idle c h)
          (λ channel c' h'.
            option-lem (InStep.After (InStep.InStep finals)) channel (inl h')
              (λ (s, peer). k s peer c' h'))

    pub handle_list-InStep :
        (args : Option Text) (c : Client)
        → InStep.IdleClient finals 0 c
        → InStep.After (InStep.InStep finals) (Transfer.handle_list host args c)
    unfolding Transfer.handle_list
    handle_list-InStep args c h =
        behind_channel _ (λ s peer c' h'. request_transfer-InStep _ _ c' h') c h

    pub handle_retr-InStep :
        (args : Option Text) (c : Client)
        → InStep.IdleClient finals 0 c
        → InStep.After (InStep.InStep finals) (Transfer.handle_retr host args c)
    unfolding Transfer.handle_retr
    handle_retr-InStep args c h =
        if-lem (InStep.After (InStep.InStep finals)) (is_empty (Simple.argument args)) (inl h)
          (behind_channel _ (λ s peer c' h'. request_transfer-InStep _ _ c' h') c h)

    pub upload-InStep :
        (command : Text → Text) (verify : LocalPath → Text → Text → Verification)
        (args : Option Text) (c : Client)
        → InStep.IdleClient finals 0 c
        → InStep.After (InStep.InStep finals) (Transfer.upload host command verify args c)
    unfolding Transfer.upload
    upload-InStep command verify args c h =
        let path = Transfer.resolve_local_upload_path host (Simple.argument args) in
        if-lem (InStep.After (InStep.InStep finals)) (is_empty (Simple.argument args)) (inl h) (
          behind_channel _
            (λ s peer c' h'.
              if-lem (InStep.After (InStep.InStep finals)) (not (host.is_file path)) (inl h') (
                option-lem (InStep.After (InStep.InStep finals))
                  (Transfer.upload_data host path c'.context) (inl h')
                  (λ data'. request_transfer-InStep _ _ c' h')))
            c h)
