-- ===== src/Server/Dispatch/Root/SessionHandlers.antt =====
-- Login, QUIT, HELP, the transfer setup and ABOR touch no path.
use computer_network_socket.Base.{
  List, All, All-append, inl, ◌≡◌, refl, sym, Bool, true, not, ◌||◌, Option, none, some, [], ◌∷◌,
  ◌++◌, ℕ, leb, ltb,
}
use mathlib.Core.Path.{subst}
use computer_network_socket.Base.Cases.{if-lem, option-lem}
use computer_network_socket.Base.Text.{Text, is_empty, strip, upper}
use computer_network_socket.Server.Session.{
  ClientSession, socket_list, request_abort, reset_data_connection, reset_rename_state,
  prepare_control_close, logout, close_current_data_socket,
}
use computer_network_socket.Server.System.{System}
use computer_network_socket.Server.Files.{Found}
use computer_network_socket.Server.Reply.{CommandReply}
use computer_network_socket.Server.Outcome.{Outcome, ServerEffect, answer, answer_doing}
use computer_network_socket.Server.Handlers.Cases.{integer-lem, bind-lem}
use computer_network_socket.Server.Handlers.Auth.{
  user_exists, authenticate, handle_user, handle_pass, handle_quit, check_password,
}
use computer_network_socket.Server.Handlers.Help.{
  handle_help, help_command, help_all, find_help, help_commands,
}
use computer_network_socket.Server.Handlers.Setup.{
  parse_type, parse_mode, handle_type, handle_mode, select_active, handle_port, handle_pasv,
}
use computer_network_socket.Server.Handlers.Transfer.{handle_abor}
use computer_network_socket.Server.Outcome.{opens_socket, closes, closings}
use computer_network_socket.Server.Dispatch.Confined.{
  IsCurrent, Enters, EffectUnder, PathUnder, FoundUnder, Confined, closings-Under,
}

module _ (sys : System) (s : ClientSession)
    (h : PathUnder (sys.resolve s.server_root) s.pending_rename_path) where
  abbrev Safe : Outcome → Type 0
  Safe o = Confined (sys.resolve s.server_root) s.server_root (IsCurrent sys s) (Enters sys s) o

  abbrev Fine : Found → Type 0
  Fine f = FoundUnder (sys.resolve s.server_root) f

  kept : (r : CommandReply) → Safe (answer s r)
  kept r = record { effects = tt; pending = h; root_kept = refl; directory = inl refl }

  doing :
      (e : ServerEffect) (r : CommandReply)
      → EffectUnder (sys.resolve s.server_root) (IsCurrent sys s) e
      → Safe (answer_doing s e r)
  doing e r under = record {
    effects = (under, tt);
    pending = h;
    root_kept = refl;
    directory = inl refl;
  }

  pub handle_user-Confined : (args : Option Text) → Safe (handle_user sys s args)
  unfolding handle_user reset_data_connection reset_rename_state
  handle_user-Confined none = kept _
  handle_user-Confined (some args) =
      let closed =
        closings-Under (sys.resolve s.server_root) (IsCurrent sys s)
          (socket_list s.passive_udp_socket) in
      if-lem Safe (is_empty (strip args)) (kept _) (
        if-lem Safe (not (user_exists sys.users (strip args)))
          (record { effects = closed; pending = tt; root_kept = refl; directory = inl refl })
          (record { effects = closed; pending = tt; root_kept = refl; directory = inl refl }))

  pub check_password-Confined : (u : Text) (args : Option Text) → Safe (check_password sys s u args)
  unfolding check_password
  check_password-Confined u none = kept _
  check_password-Confined u (some p) = if-lem Safe (is_empty p) (kept _) (
      if-lem Safe (not (authenticate sys.users u p))
        (record { effects = tt; pending = h; root_kept = refl; directory = inl refl })
        (record { effects = tt; pending = h; root_kept = refl; directory = inl refl }))

  pub handle_pass-Confined : (args : Option Text) → Safe (handle_pass sys s args)
  unfolding handle_pass
  handle_pass-Confined args =
      option-lem Safe s.username (kept _) (λ u. check_password-Confined u args)

  pub abort_keeps :
      (b : Bool) (t : ClientSession)
      → ((request_abort b t).0.pending_rename_path ≡ t.pending_rename_path)
        × ((request_abort b t).0.server_root ≡ t.server_root)
  unfolding request_abort
  abort_keeps b t =
      if-lem {A = ClientSession × Bool}
        (λ r. (r.0.pending_rename_path ≡ t.pending_rename_path) × (r.0.server_root ≡ t.server_root))
        t.transfer_in_progress (refl, refl) (refl, refl)

  abort_stays :
      (b : Bool) (t : ClientSession) → (request_abort b t).0.current_directory ≡ t.current_directory
  unfolding request_abort
  abort_stays b t =
      if-lem {A = ClientSession × Bool} (λ r. r.0.current_directory ≡ t.current_directory)
        t.transfer_in_progress refl refl

  pub handle_quit-Confined : Safe (handle_quit s)
  unfolding handle_quit prepare_control_close logout close_current_data_socket reset_data_connection
      reset_rename_state
  handle_quit-Confined = record {
    effects = closings-Under (sys.resolve s.server_root) (IsCurrent sys s) _;
    pending = tt;
    root_kept = (abort_keeps true (record s { suppress_transfer_reply = true })).1;
    directory = inl (abort_stays true (record s { suppress_transfer_reply = true }));
  }

  pub handle_help-Confined : (args : Option Text) → Safe (handle_help s args)
  unfolding handle_help help_command help_all
  handle_help-Confined none = record {
    effects = tt;
    pending = h;
    root_kept = refl;
    directory = inl refl;
  }
  handle_help-Confined (some args) =
      if-lem Safe (is_empty (strip args))
        (record { effects = tt; pending = h; root_kept = refl; directory = inl refl })
        (option-lem Safe (find_help help_commands (upper (strip args))) (kept _)
          (λ info. record { effects = tt; pending = h; root_kept = refl; directory = inl refl }))

  pub set :
      (s' : ClientSession) (r : CommandReply)
      → s'.pending_rename_path ≡ s.pending_rename_path
      → s'.server_root ≡ s.server_root
      → s'.current_directory ≡ s.current_directory
      → Safe (answer s' r)
  set s' r same root stays = record {
    effects = tt;
    pending = subst (PathUnder (sys.resolve s.server_root)) (sym same) h;
    root_kept = root;
    directory = inl stays;
  }

  pub handle_type-Confined : (args : Option Text) → Safe (handle_type s args)
  unfolding handle_type
  handle_type-Confined none = kept _
  handle_type-Confined (some args) = if-lem Safe (is_empty args) (kept _) (
      option-lem Safe (parse_type args) (kept _)
        (λ t. set (record s { transfer_type = t }) _ refl refl refl))

  pub handle_mode-Confined : (args : Option Text) → Safe (handle_mode s args)
  unfolding handle_mode
  handle_mode-Confined none = kept _
  handle_mode-Confined (some args) = if-lem Safe (is_empty args) (kept _) (
      option-lem Safe (parse_mode args) (kept _)
        (λ m. set (record s { transfer_mode = m }) _ refl refl refl))

  pub select_active-Confined : (n : ℕ) → Safe (select_active sys s n)
  unfolding select_active reset_data_connection
  select_active-Confined n = if-lem Safe (leb n 0 || ltb 65535 n) (kept _) (record {
    effects =
        closings-Under (sys.resolve s.server_root) (IsCurrent sys s)
          (socket_list s.passive_udp_socket);
    pending = h;
    root_kept = refl;
    directory = inl refl;
  })

  pub handle_port-Confined : (args : Option Text) → Safe (handle_port sys s args)
  unfolding handle_port
  handle_port-Confined none = kept _
  handle_port-Confined (some args) = if-lem Safe (is_empty args) (kept _) (
      option-lem Safe (sys.int args) (kept _)
        (λ i. integer-lem Safe i (λ n. select_active-Confined n) (λ n. kept _)))

  pub handle_pasv-Confined : Safe (handle_pasv sys s)
  unfolding handle_pasv reset_data_connection
  handle_pasv-Confined =
      let root = sys.resolve s.server_root in
      let closed = closings-Under root (IsCurrent sys s) (socket_list s.passive_udp_socket) in
      bind-lem Safe sys.open_udp
        (record { effects = closed; pending = h; root_kept = refl; directory = inl refl })
        (λ k. record {
          effects = opened (opens_socket k ∷ closes k ∷ []) (tt, (tt, tt));
          pending = h;
          root_kept = refl;
          directory = inl refl;
        })
        (λ k n. record {
          effects = opened (opens_socket k ∷ []) (tt, tt);
          pending = h;
          root_kept = refl;
          directory = inl refl;
        })
    where
      opened :
          (es : List ServerEffect)
          → All (EffectUnder (sys.resolve s.server_root) (IsCurrent sys s)) es
          → All
              (EffectUnder (sys.resolve s.server_root) (IsCurrent sys s))
              (closings (socket_list s.passive_udp_socket) ++ es)
      opened es =
          All-append (EffectUnder (sys.resolve s.server_root) (IsCurrent sys s))
            (closings (socket_list s.passive_udp_socket)) es
            (closings-Under (sys.resolve s.server_root) (IsCurrent sys s)
              (socket_list s.passive_udp_socket))

  pub handle_abor-Confined : Safe (handle_abor s)
  unfolding handle_abor close_current_data_socket reset_data_connection
  handle_abor-Confined =
      let (same, root) = abort_keeps true s in
      let pending = subst (PathUnder (sys.resolve s.server_root)) (sym same) h in
      if-lem Safe (request_abort true s).1
        (record {
          effects = closings-Under (sys.resolve s.server_root) (IsCurrent sys s) _;
          pending = pending;
          root_kept = root;
          directory = inl (abort_stays true s);
        })
        (record {
          effects = tt;
          pending = pending;
          root_kept = root;
          directory = inl (abort_stays true s);
        })
