-- ===== src/Client/Dispatch/InStep/Command.antt =====
-- Commands keep the client in step, those that start a transfer and ABOR included.
use computer_network_socket.Base.{
  ℕ, ◌+◌, ◌≡◌, sym, Bool, true, false, not, Option, none, some, [], ◌∷◌, ◌++◌, length, inl, inr,
  Bool-cases, if◌then◌else◌, arith, length-append,
}
use mathlib.Core.Path.{subst}
use computer_network_socket.Base.Text.{Text, text, upper}
use computer_network_socket.Base.Cases.{if-lem, if-split}
use computer_network_socket.Server.Dispatch.{
  Command, user, pass, quit, noop, help, pwd, cwd, cdup, mkd, rmd, list, nlst, stat, size, mdtm,
  type, mode, port, pasv, retr, stor, stou, appe, abor, dele, rnfr, rnto, hash, parse_command,
}
use computer_network_socket.Client.Context.{
  data_phase, request_transfer_abort, transfer_in_progress,
}
use computer_network_socket.Client.Control.{
  Client, Result, returned, ◌>>=◌, send_command, send_and_print, hashes, not_verified,
}
use computer_network_socket.Client.Handlers.Simple
use computer_network_socket.Client.Handlers.Transfer
use computer_network_socket.Client.Handlers.Transfer.{Host}
use computer_network_socket.Client.Dispatch.{
  route, handle_idle, handle_command, before_login, is_abor,
}
use computer_network_socket.Client.Dispatch.InStep
use computer_network_socket.Client.Dispatch.InStep.Single
use computer_network_socket.Client.Dispatch.InStep.Transfers

module _ (finals : ℕ) where
  module _ (host : Host) where
    handle_abor_idle :
        (c : Client)
        → c.context.transfer_phase ≡ none
        → Transfer.handle_abor host c
          ≡ (send_and_print host.send_works (text "ABOR") c >>= λ reply c'. returned true c')
    unfolding Transfer.handle_abor request_transfer_abort
    handle_abor_idle c e = rw e

    handle_abor-Idle :
        (c : Client)
        → InStep.IdleClient finals 0 c
        → InStep.After (InStep.InStep finals) (Transfer.handle_abor host c)
    handle_abor-Idle c h =
        subst (InStep.After (InStep.InStep finals)) (sym (handle_abor_idle c h.no_phase)) (
          InStep.bind-After (InStep.IdleClient finals 0) (InStep.InStep finals)
            (send_and_print host.send_works (text "ABOR") c) _
            (InStep.send_and_print-Idle finals host.send_works (text "ABOR") c h)
            (λ reply c' h'. inl h'))

    handle_abor_pending :
        (c : Client)
        → c.context.transfer_phase ≡ some data_phase
        → c.context.abort_requested ≡ true
        → Transfer.handle_abor host c ≡ returned true c
    unfolding Transfer.handle_abor request_transfer_abort
    handle_abor_pending c e a = rw (e, a)

    abbrev aborted : Client → Client
    aborted c = record c {
      context = record c.context { abort_requested = true; transfer_cancel_event = true };
    }

    handle_abor_requested :
        (c : Client)
        → c.context.transfer_phase ≡ some data_phase
        → c.context.abort_requested ≡ false
        → Transfer.handle_abor host c
          ≡ (send_command host.send_works (text "ABOR") (aborted c) >>= λ u c'. returned true c')
    unfolding Transfer.handle_abor request_transfer_abort
    handle_abor_requested c e a = rw (e, a)

    send_abor-Busy :
        (c : Client)
        → InStep.BusyClient finals c
        → c.context.abort_requested ≡ false
        → InStep.After
            (InStep.BusyClient finals)
            (send_command host.send_works (text "ABOR") (aborted c))
    unfolding send_command
    send_abor-Busy c h e =
        if-lem (InStep.After (InStep.BusyClient finals)) (host.send_works (length c.sent))
          (record {
            balance = omega (
              arith,
              length-append c.sent (text "ABOR" ∷ []),
              subst (λ b. length c.sent + finals ≡ c.reads + (if b then 1 else 0)) e h.balance,
            );
            in_phase = h.in_phase;
          })
          tt

    handle_abor-Busy :
        (c : Client)
        → InStep.BusyClient finals c
        → InStep.After (InStep.InStep finals) (Transfer.handle_abor host c)
    handle_abor-Busy c h = elim (Bool-cases c.context.abort_requested) [
      | inl e ↦
          subst (InStep.After (InStep.InStep finals)) (sym (handle_abor_pending c h.in_phase e))
            (inr h)
      | inr e ↦
          subst (InStep.After (InStep.InStep finals)) (sym (handle_abor_requested c h.in_phase e)) (
            InStep.bind-After (InStep.BusyClient finals) (InStep.InStep finals)
              (send_command host.send_works (text "ABOR") (aborted c)) _ (send_abor-Busy c h e)
              (λ u c' h'. inr h'))
    ]

    simple :
        (r : Result Bool)
        → InStep.After (InStep.IdleClient finals 0) r
        → InStep.After (InStep.InStep finals) r
    simple r h = InStep.idle finals r h

    route-InStep :
        (command : Command) (args : Option Text) (c : Client)
        → InStep.IdleClient finals 0 c
        → InStep.After (InStep.InStep finals) (route host command args c)
    unfolding route Simple.handle_noop Simple.handle_pwd Simple.handle_cdup Simple.handle_cwd
        Simple.handle_mkd Simple.handle_rmd Simple.handle_size Simple.handle_mdtm Simple.handle_dele
        Simple.handle_rnfr Simple.handle_rnto Simple.handle_hash Simple.handle_nlst
        Simple.handle_stat Transfer.handle_stor Transfer.handle_stou Transfer.handle_appe
    route-InStep user args c h = simple _ (Single.handle_user-Idle finals host.send_works args c h)
    route-InStep pass args c h = simple _ (Single.handle_pass-Idle finals host.send_works args c h)
    route-InStep help args c h = simple _ (Single.handle_help-Idle finals host.send_works args c h)
    route-InStep noop args c h = simple _ (Single.send_line-Idle finals host.send_works _ c h)
    route-InStep quit args c h = simple _ (Single.handle_quit-Idle finals host.send_works c h)
    route-InStep pwd args c h = simple _ (Single.send_line-Idle finals host.send_works _ c h)
    route-InStep cwd args c h =
        simple _ (Single.send_with_argument-Idle finals host.send_works (text "CWD ") args c h)
    route-InStep cdup args c h = simple _ (Single.send_line-Idle finals host.send_works _ c h)
    route-InStep mkd args c h =
        simple _ (Single.send_with_argument-Idle finals host.send_works (text "MKD ") args c h)
    route-InStep rmd args c h =
        simple _ (Single.send_with_argument-Idle finals host.send_works (text "RMD ") args c h)
    route-InStep list args c h = Transfers.handle_list-InStep finals host args c h
    route-InStep nlst args c h =
        simple _ (Single.send_optional_argument-Idle finals host.send_works _ args c h)
    route-InStep stat args c h =
        simple _ (Single.send_optional_argument-Idle finals host.send_works _ args c h)
    route-InStep size args c h =
        simple _ (Single.send_with_argument-Idle finals host.send_works (text "SIZE ") args c h)
    route-InStep mdtm args c h =
        simple _ (Single.send_with_argument-Idle finals host.send_works (text "MDTM ") args c h)
    route-InStep type args c h = simple _ (Single.handle_type-Idle finals host.send_works args c h)
    route-InStep mode args c h = simple _ (Single.handle_mode-Idle finals host.send_works args c h)
    route-InStep port args c h =
        simple _
          (Single.handle_port-Idle finals host.send_works host.open_udp host.decimal args c h)
    route-InStep pasv args c h =
        simple _
          (Single.handle_pasv-Idle finals host.send_works host.open_udp host.decimal args c h)
    route-InStep retr args c h = Transfers.handle_retr-InStep finals host args c h
    route-InStep stor args c h =
        Transfers.upload-InStep finals host (λ filename. text "STOR " ++ filename)
          (λ path filename message. hashes path filename) args c h
    route-InStep stou args c h =
        Transfers.upload-InStep finals host (λ filename. text "STOU") (Transfer.verify_unique host)
          args c h
    route-InStep appe args c h =
        Transfers.upload-InStep finals host (λ filename. text "APPE " ++ filename)
          (λ path filename message. not_verified) args c h
    route-InStep abor args c h = handle_abor-Idle c h
    route-InStep dele args c h =
        simple _ (Single.send_with_argument-Idle finals host.send_works (text "DELE ") args c h)
    route-InStep rnfr args c h =
        simple _ (Single.send_with_argument-Idle finals host.send_works (text "RNFR ") args c h)
    route-InStep rnto args c h =
        simple _ (Single.send_with_argument-Idle finals host.send_works (text "RNTO ") args c h)
    route-InStep hash args c h =
        simple _ (Single.send_with_argument-Idle finals host.send_works (text "HASH ") args c h)

    handle_idle-InStep :
        (command : Option Command) (args : Option Text) (c : Client)
        → InStep.IdleClient finals 0 c
        → InStep.After (InStep.InStep finals) (handle_idle host command args c)
    unfolding handle_idle
    handle_idle-InStep none args c h = inl h
    handle_idle-InStep (some command) args c h =
        if-lem (InStep.After (InStep.InStep finals)) (before_login command)
          (route-InStep command args c h)
          (if-lem (InStep.After (InStep.InStep finals)) (not c.context.authenticated) (inl h)
            (route-InStep command args c h))

    -- Whatever the user enters, a client that has read a reply for each command it sent, one more for each transfer
    -- that ended so, and none yet for an ABOR in a transfer that runs, has done so after the handler too, where no
    -- exception ends the loop.
    pub handle_command-InStep :
        (word : Text) (args : Option Text) (c : Client)
        → InStep.InStep finals c
        → InStep.After (InStep.InStep finals) (handle_command host word args c)
    unfolding handle_command
    handle_command-InStep word args c (inl h) =
        if-split (InStep.After (InStep.InStep finals)) (transfer_in_progress c.context)
          (λ running. absurd (ground (arith, h.no_phase)))
          (λ e. handle_idle-InStep (parse_command (upper word)) args c h)
    handle_command-InStep word args c (inr h) =
        if-split (InStep.After (InStep.InStep finals)) (transfer_in_progress c.context)
          (λ running.
            if-lem (InStep.After (InStep.InStep finals)) (is_abor (parse_command (upper word)))
              (handle_abor-Busy c h) (inr h))
          (λ e. absurd (ground (arith, h.in_phase)))
