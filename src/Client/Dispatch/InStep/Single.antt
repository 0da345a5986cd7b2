-- ===== src/Client/Dispatch/InStep/Single.antt =====
-- The commands of one reply keep the client in step.
use computer_network_socket.Base.{
  ℕ, Bool, false, not, Option, none, [], ◌∷◌, ◌++◌, take, leb, ◌&&◌, if◌then◌else◌,
}
use computer_network_socket.Base.Text.{Text, text, is_empty, upper}
use computer_network_socket.Base.Cases.{if-lem, option-lem}
use computer_network_socket.Server.System.{BindAttempt}
use computer_network_socket.Client.Connection.{opens_block}
use computer_network_socket.Client.Context.{reset_data_connection}
use computer_network_socket.Client.Control.{
  Client, send_command, read_reply_line, read_block, send_and_print, with_context,
  drop_data_connection, open_data_socket, after_block,
}
use computer_network_socket.Client.Handlers.Simple
use computer_network_socket.Client.Handlers.Patterns.{search_udp_port}
use computer_network_socket.Client.Handlers.Setup
use computer_network_socket.Client.Dispatch.InStep.{
  After, bind-After, IdleClient, send_command-Idle, read_reply_line-Idle, send_and_print-Idle,
  drop_data_connection-Idle, open_data_socket-Idle,
}

module _ (finals : ℕ) where
  module _ (works : ℕ → Bool) where
    pub send_line-Idle :
        (t : Text) (c : Client)
        → IdleClient finals 0 c
        → After (IdleClient finals 0) (Simple.send_line works t c)
    unfolding Simple.send_line
    send_line-Idle t c h =
        bind-After (IdleClient finals 0) (IdleClient finals 0) (send_and_print works t c) _
          (send_and_print-Idle finals works t c h) (λ r c' h'. h')

    pub send_with_argument-Idle :
        (t : Text) (args : Option Text) (c : Client)
        → IdleClient finals 0 c
        → After (IdleClient finals 0) (Simple.send_with_argument works t args c)
    unfolding Simple.send_with_argument
    send_with_argument-Idle t args c h =
        if-lem (After (IdleClient finals 0)) (is_empty (Simple.argument args)) h
          (send_line-Idle (t ++ Simple.argument args) c h)

    pub send_optional_argument-Idle :
        (t : Text) (args : Option Text) (c : Client)
        → IdleClient finals 0 c
        → After (IdleClient finals 0) (Simple.send_optional_argument works t args c)
    unfolding Simple.send_optional_argument
    send_optional_argument-Idle t args c h =
        if-lem (After (IdleClient finals 0)) (is_empty (Simple.argument args))
          (send_line-Idle t c h) (send_line-Idle (t ++ (32 ∷ Simple.argument args)) c h)

    pub handle_user-Idle :
        (args : Option Text) (c : Client)
        → IdleClient finals 0 c
        → After (IdleClient finals 0) (Simple.handle_user works args c)
    unfolding Simple.handle_user drop_data_connection reset_data_connection
    handle_user-Idle args c h =
        if-lem (After (IdleClient finals 0)) (is_empty (Simple.argument args)) h (
          bind-After (IdleClient finals 0) (IdleClient finals 0)
            (send_and_print works (text "USER " ++ Simple.argument args) (
              drop_data_connection
                (with_context (λ k. record k { username = none; authenticated = false }) c)))
            _
            (send_and_print-Idle finals works (text "USER " ++ Simple.argument args)
              (drop_data_connection
                (with_context (λ k. record k { username = none; authenticated = false }) c))
              h)
            (λ r c' h'. h'))

    pub handle_pass-Idle :
        (args : Option Text) (c : Client)
        → IdleClient finals 0 c
        → After (IdleClient finals 0) (Simple.handle_pass works args c)
    unfolding Simple.handle_pass
    handle_pass-Idle args c h =
        if-lem (After (IdleClient finals 0)) (is_empty (Simple.argument args)) h (
          bind-After (IdleClient finals 0) (IdleClient finals 0)
            (send_and_print works (text "PASS " ++ Simple.argument args) c) _
            (send_and_print-Idle finals works (text "PASS " ++ Simple.argument args) c h)
            (λ r c' h'. h'))

    pub handle_quit-Idle :
        (c : Client)
        → IdleClient finals 0 c
        → After (IdleClient finals 0) (Simple.handle_quit works c)
    unfolding Simple.handle_quit drop_data_connection reset_data_connection
    handle_quit-Idle c h =
        bind-After (IdleClient finals 0) (IdleClient finals 0)
          (send_and_print works (text "QUIT") (
            with_context (λ k. record k { username = none; authenticated = false })
              (drop_data_connection c)))
          _
          (send_and_print-Idle finals works (text "QUIT")
            (with_context (λ k. record k { username = none; authenticated = false })
              (drop_data_connection c))
            h)
          (λ r c' h'. h')

    pub read_block-Idle :
        (t : Text) (c : Client)
        → IdleClient finals 0 c
        → After (IdleClient finals 0) (read_block t c)
    unfolding read_block
    read_block-Idle t c h =
        if-lem (After (IdleClient finals 0)) (opens_block t)
          (option-lem (After (IdleClient finals 0))
            (after_block (take 3 t ++ (32 ∷ [])) t c.replies) tt (λ rest. h))
          h

    pub handle_help-Idle :
        (args : Option Text) (c : Client)
        → IdleClient finals 0 c
        → After (IdleClient finals 0) (Simple.handle_help works args c)
    unfolding Simple.handle_help
    handle_help-Idle args c h =
        let command =
          if is_empty (Simple.argument args)
          then text "HELP"
          else text "HELP " ++ Simple.argument args in
        bind-After (IdleClient finals 1) (IdleClient finals 0) (send_command works command c) _
          (send_command-Idle finals works command c h)
          (λ u c₁ h₁.
            bind-After (IdleClient finals 0) (IdleClient finals 0) (read_reply_line c₁) _
              (read_reply_line-Idle finals c₁ h₁)
              (λ first c₂ h₂.
                bind-After (IdleClient finals 0) (IdleClient finals 0) (read_block first c₂) _
                  (read_block-Idle first c₂ h₂) (λ v c₃ h₃. h₃)))

    pub handle_type-Idle :
        (args : Option Text) (c : Client)
        → IdleClient finals 0 c
        → After (IdleClient finals 0) (Setup.handle_type works args c)
    unfolding Setup.handle_type
    handle_type-Idle args c h =
        let value = upper (Simple.argument args) in
        option-lem (After (IdleClient finals 0)) (Setup.type_of value) h (λ t.
          bind-After (IdleClient finals 0) (IdleClient finals 0)
            (send_and_print works (text "TYPE " ++ value) c) _
            (send_and_print-Idle finals works (text "TYPE " ++ value) c h)
            (λ (code, m) c' h'. if-lem (IdleClient finals 0) (Simple.is_code 200 code) h' h'))

    pub handle_mode-Idle :
        (args : Option Text) (c : Client)
        → IdleClient finals 0 c
        → After (IdleClient finals 0) (Setup.handle_mode works args c)
    unfolding Setup.handle_mode
    handle_mode-Idle args c h =
        let value = upper (Simple.argument args) in
        option-lem (After (IdleClient finals 0)) (Setup.mode_of value) h (λ t.
          bind-After (IdleClient finals 0) (IdleClient finals 0)
            (send_and_print works (text "MODE " ++ value) c) _
            (send_and_print-Idle finals works (text "MODE " ++ value) c h)
            (λ (code, m) c' h'. if-lem (IdleClient finals 0) (Simple.is_code 200 code) h' h'))

    module _ (open_udp : ℕ → BindAttempt) (decimal : ℕ → Text) where
      pub handle_port-Idle :
          (args : Option Text) (c : Client)
          → IdleClient finals 0 c
          → After (IdleClient finals 0) (Setup.handle_port works open_udp decimal args c)
      unfolding Setup.handle_port Setup.finish_port
      handle_port-Idle args c h =
          option-lem (After (IdleClient finals 0)) (Setup.local_port_of (Simple.argument args)) h
            (λ local_port.
              let opened = open_data_socket (open_udp local_port) (drop_data_connection c) in
              let h' =
                open_data_socket-Idle finals (open_udp local_port) (drop_data_connection c)
                  (drop_data_connection-Idle finals c h) in
              option-lem (After (IdleClient finals 0)) opened.0 h' (λ (socket, actual_port).
                bind-After (IdleClient finals 0) (IdleClient finals 0)
                  (send_and_print works (text "PORT " ++ decimal actual_port) opened.1) _
                  (send_and_print-Idle finals works (text "PORT " ++ decimal actual_port) opened.1
                    h')
                  (λ (code, m) c' h''.
                    if-lem (IdleClient finals 0) (Setup.is_refusal code)
                      (drop_data_connection-Idle finals c' h'') h'')))

      pub connect_passive-Idle :
          (port : ℕ) (c : Client)
          → IdleClient finals 0 c
          → IdleClient finals 0 (Setup.connect_passive works open_udp decimal port c)
      unfolding Setup.connect_passive
      connect_passive-Idle port c h =
          let opened = open_data_socket (open_udp 0) c in
          let h' = open_data_socket-Idle finals (open_udp 0) c h in
          option-lem (IdleClient finals 0) opened.0 h' (λ socket. h')

      pub handle_pasv-Idle :
          (args : Option Text) (c : Client)
          → IdleClient finals 0 c
          → After (IdleClient finals 0) (Setup.handle_pasv works open_udp decimal args c)
      unfolding Setup.handle_pasv Setup.enter_passive
      handle_pasv-Idle args c h =
          if-lem (After (IdleClient finals 0)) (not (is_empty (Simple.argument args))) h (
            bind-After (IdleClient finals 0) (IdleClient finals 0)
              (send_and_print works (text "PASV") (drop_data_connection c)) _
              (send_and_print-Idle finals works (text "PASV") (drop_data_connection c)
                (drop_data_connection-Idle finals c h))
              (λ (code, response) c' h'.
                if-lem (IdleClient finals 0) (not (Simple.is_code 227 code)) h' (
                  option-lem (IdleClient finals 0) (search_udp_port response) h' (λ port.
                    if-lem (IdleClient finals 0) (leb 1 port && leb port 65535)
                      (connect_passive-Idle port c' h') h'))))
