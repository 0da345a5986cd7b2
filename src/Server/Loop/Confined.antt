-- ===== src/Server/Loop/Confined.antt =====
-- Over a whole connection, the server touches no path outside its root.
use computer_network_socket.Base.{
  inl, inr, ℕ, suc, ◌≡◌, refl, sym, ap, ◌∙◌, Bool, true, Option, none, some, List, [], ◌∷◌, ◌++◌,
  All, All-append, length, ltb,
}
use mathlib.Core.Path.{subst}
use computer_network_socket.Base.Text.{Text, upper, is_empty}
use computer_network_socket.Base.Cases.{if-lem, option-lem}
use computer_network_socket.Shared.Address.{Address}
use computer_network_socket.Shared.Constants.{max_command_length}
use computer_network_socket.Control.Lines.{partition_crlf, strip_line_ends, split_space}
use computer_network_socket.Control.Drain.{drain-Invariant}
use computer_network_socket.Server.Session.{
  FilePath, ClientSession, new_session, record_activity, register_data_socket,
  unregister_data_socket, same_socket, finish_transfer, cleanup,
}
use computer_network_socket.Server.System.{System}
use computer_network_socket.Server.Reply.{
  FtpReplyCode, Reply, format_code, format_reply, closes_control, service_unavailable, syntax_error,
}
use computer_network_socket.Server.Outcome.{Outcome, ServerEffect, closings}
use computer_network_socket.Server.Files.{relative_to, below, get_absolute_current_directory}
use computer_network_socket.Server.Dispatch.{handle_command}
use computer_network_socket.Server.Dispatch.Confined.{
  IsCurrent, Enters, Confined, EffectUnder, PathUnder, closings-Under,
}
use computer_network_socket.Server.Dispatch.Root.{handle_command-Confined}
use computer_network_socket.Server.Worker.{
  WorkerStep, registers, unregisters, counts, finds_peer, ends, replies_at_end, worker_step,
  finish_worker, session_or,
}
use computer_network_socket.Server.Loop.Chunks.{over}
use computer_network_socket.Server.Loop.Entered.{Entered, IsEntered, map-Under, map-All}
use computer_network_socket.Server.Loop.{
  Surroundings, Serving, Receipt, received, times_out, recv_fails, some_follow, crashed, send_bytes,
  fail, send_last, send_replies, worker_turn, worker_turns, suspended, resume_command,
  answer_command, run_command, run_line, process_line, receive, serve, greeted, finally,
  handle_client,
}

-- The effects of a connection, if there was one, are below the root, or list an entered directory.
abbrev pub TouchesOnly : Surroundings → FilePath → Option Serving → Type 0
TouchesOnly w root none = Unit {0}
TouchesOnly w root (some c) = All (EffectUnder root (IsEntered w root)) c.effects

module _ (w : Surroundings) (root server_root : FilePath) where
  -- What a connection keeps true of its session and of what it has done.
  pub record Safe (s : ClientSession) (effects : List ServerEffect) : Type 0 where
    pub effects_under : All (EffectUnder root (IsEntered w root)) effects
    pub pending : PathUnder root s.pending_rename_path
    pub root_kept : s.server_root ≡ server_root
    pub directory : Entered w root s.current_directory

  abbrev Kept : Outcome → Type 0
  Kept o = Confined root server_root (IsEntered w root) (Entered w root) o

  abbrev pub SafeServing : Serving → Type 0
  SafeServing c = Safe c.session c.effects

  send_bytes-Safe : (bs : List ℕ) (c : Serving) → SafeServing c → SafeServing (send_bytes w bs c).0
  unfolding send_bytes
  send_bytes-Safe bs c h =
      if-lem {A = Serving × Bool} (λ r. SafeServing r.0) (w.send_works c.sends) h h

  fail-Safe : (c : Serving) → SafeServing c → SafeServing (fail w c)
  unfolding fail
  fail-Safe c h = send_bytes-Safe (w.utf8.encode (format_code service_unavailable none)) c h

  send_last-Safe :
      (code : FtpReplyCode) (c : Serving) → SafeServing c → SafeServing (send_last w code c)
  unfolding send_last
  send_last-Safe code c h =
      let tried = send_bytes w (w.utf8.encode (format_code code none)) c in
      let h' = send_bytes-Safe (w.utf8.encode (format_code code none)) c h in
      if-lem SafeServing tried.1 h' (fail-Safe tried.0 h')

  send_replies-Safe :
      (rs : List Reply) (c : Serving) → SafeServing c → SafeServing (send_replies w rs c)
  unfolding send_replies
  send_replies-Safe [] c h = h
  send_replies-Safe (r ∷ rs) c h =
      let tried = send_bytes w (w.utf8.encode (format_reply r)) c in
      let h' = send_bytes-Safe (w.utf8.encode (format_reply r)) c h in
      if-lem SafeServing tried.1
        (if-lem SafeServing (closes_control r) h' (send_replies-Safe rs tried.0 h')) h'

  -- Changes elsewhere in the session do not matter.
  Safe-elsewhere :
      (s t : ClientSession) (es : List ServerEffect)
      → t.pending_rename_path ≡ s.pending_rename_path
      → t.server_root ≡ s.server_root
      → t.current_directory ≡ s.current_directory
      → Safe s es
      → Safe t es
  Safe-elsewhere s t es same_pending same_root stays h = record {
    effects_under = h.effects_under;
    pending = subst (PathUnder root) (sym same_pending) h.pending;
    root_kept = same_root ∙ h.root_kept;
    directory = subst (Entered w root) (sym stays) h.directory;
  }

  worker_step-Safe :
      (step : WorkerStep) (s : ClientSession) (es : List ServerEffect)
      → Safe s es
      → Safe (worker_step step s) es
  unfolding worker_step register_data_socket unregister_data_socket finish_worker finish_transfer
  worker_step-Safe (registers k) s es h =
      if-lem (λ o. Safe (session_or s o) es) s.cleanup_started h
        (Safe-elsewhere s _ es refl refl refl h)
  worker_step-Safe (unregisters k) s es h =
      if-lem (λ t. Safe t es) (same_socket s.current_data_socket k)
        (Safe-elsewhere s _ es refl refl refl h) h
  worker_step-Safe (counts n) s es h = Safe-elsewhere s _ es refl refl refl h
  worker_step-Safe (finds_peer a) s es h = Safe-elsewhere s _ es refl refl refl h
  worker_step-Safe (ends reply) s es h = Safe-elsewhere s _ es refl refl refl h

  worker_turn-Safe :
      (step : WorkerStep) (c : Serving) → SafeServing c → SafeServing (worker_turn w step c)
  unfolding worker_turn
  worker_turn-Safe (registers k) c h = worker_step-Safe (registers k) c.session c.effects h
  worker_turn-Safe (unregisters k) c h = worker_step-Safe (unregisters k) c.session c.effects h
  worker_turn-Safe (counts n) c h = worker_step-Safe (counts n) c.session c.effects h
  worker_turn-Safe (finds_peer a) c h = worker_step-Safe (finds_peer a) c.session c.effects h
  worker_turn-Safe (ends reply) c h =
      let moved = worker_step-Safe (ends reply) c.session c.effects h in
      if-lem SafeServing (replies_at_end true c.session)
        (send_bytes-Safe (w.utf8.encode reply)
          (record c { session = worker_step (ends reply) c.session }) moved)
        moved

  worker_turns-Safe :
      (steps : List WorkerStep) (c : Serving) → SafeServing c → SafeServing (worker_turns w steps c)
  unfolding worker_turns
  worker_turns-Safe [] c h = h
  worker_turns-Safe (step ∷ steps) c h =
      worker_turns-Safe steps (worker_turn w step c) (worker_turn-Safe step c h)

  Safe-outcome :
      (o : Outcome) (es : List ServerEffect)
      → All (EffectUnder root (IsEntered w root)) es
      → Kept o
      → Safe o.session (es ++ o.effects)
  Safe-outcome o es before k = record {
    effects_under = All-append (EffectUnder root (IsEntered w root)) es o.effects before k.effects;
    pending = k.pending;
    root_kept = k.root_kept;
    directory = k.directory;
  }

  suspended-Confined :
      (sys : System) (s : ClientSession) (o : Outcome) (es : List ServerEffect)
      → Safe s es
      → Kept o
      → Kept (suspended sys s o)
  unfolding suspended record_activity
  suspended-Confined sys s o es h k =
      if-lem Kept (some_follow o.effects)
        (record {
          effects = tt;
          pending = h.pending;
          root_kept = h.root_kept;
          directory = h.directory;
        })
        k

  answer_command-Safe :
      (sys : System) (s : ClientSession) (o : Outcome) (c : Serving)
      → Safe s c.effects
      → Kept o
      → SafeServing (answer_command w sys s o c)
  unfolding answer_command resume_command
  answer_command-Safe sys s o c h k =
      let whole = Safe-outcome o c.effects h.effects_under k in
      let first = suspended sys s o in
      let replied =
        send_replies-Safe o.replies
          (record c { session = first.session; effects = c.effects ++ first.effects })
          (Safe-outcome first c.effects h.effects_under
            (suspended-Confined sys s o c.effects h k)) in
      let c' =
        send_replies w o.replies
          (record c { session = first.session; effects = c.effects ++ first.effects }) in
      if-lem SafeServing c'.ended replied (
        if-lem SafeServing (crashed o.effects)
          (fail-Safe (record c' { session = o.session; effects = c.effects ++ o.effects }) whole)
          whole)

  -- What is the current directory of a session is one that was entered.
  current-IsEntered :
      (n : ℕ) (s : ClientSession) (es : List ServerEffect)
      → Safe s es
      → (w.system n).resolve s.server_root ≡ root
      → (path : FilePath) → IsCurrent (w.system n) s path
      → IsEntered w root path
  unfolding get_absolute_current_directory
  current-IsEntered n s es h at_root path e = (
    n,
    s.current_directory,
    h.directory,
    e ∙ ap (λ r. (w.system n).resolve (below r s.current_directory)) at_root,
  )

  command-Entered :
      (n : ℕ) (s : ClientSession) (es : List ServerEffect)
      → Safe s es
      → (w.system n).resolve s.server_root ≡ root
      → (directory : FilePath) → Enters (w.system n) s directory
      → Entered w root directory
  command-Entered n s es h at_root directory (inl e) = subst (Entered w root) (sym e) h.directory
  command-Entered n s es h at_root directory (inr (path, e)) =
      inr (
        n,
        (path, subst (λ r. relative_to ((w.system n).resolve path) r ≡ some directory) at_root e),
      )

  command-Confined :
      (n : ℕ) (s : ClientSession) (es : List ServerEffect) (command : Text) (args : Option Text)
      → Safe s es
      → (w.system n).resolve server_root ≡ root
      → Kept (handle_command (w.system n) s command args)
  command-Confined n s es command args h same_root =
      let sys = w.system n in
      let at_root = ap sys.resolve h.root_kept ∙ same_root in
      let o = handle_command sys s command args in
      let k =
        handle_command-Confined sys s command args
          (subst (λ r. PathUnder r s.pending_rename_path) (sym at_root) h.pending) in
      record {
        effects =
            map-All (EffectUnder root (IsCurrent sys s)) (EffectUnder root (IsEntered w root))
              (map-Under root (IsCurrent sys s) (IsEntered w root)
                (current-IsEntered n s es h at_root))
              o.effects
              (subst (λ r. All (EffectUnder r (IsCurrent sys s)) o.effects) at_root k.effects);
        pending = subst (λ r. PathUnder r o.session.pending_rename_path) at_root k.pending;
        root_kept = k.root_kept ∙ h.root_kept;
        directory = command-Entered n s es h at_root o.session.current_directory k.directory;
      }

  module _ (same_root : (n : ℕ) → (w.system n).resolve server_root ≡ root) where
    run_command-Safe :
        (command : Text) (args : Option Text) (c : Serving)
        → SafeServing c
        → SafeServing (run_command w command args c)
    unfolding run_command
    run_command-Safe command args c h =
        let sys = w.system c.commands in
        let c' = worker_turns w (w.worker c.commands) c in
        let h' = worker_turns-Safe (w.worker c.commands) c h in
        answer_command-Safe sys c'.session (handle_command sys c'.session command args)
          (record c' { commands = suc c.commands }) h'
          (command-Confined c.commands c'.session c'.effects command args h' (same_root c.commands))

    run_line-Safe : (line : Text) (c : Serving) → SafeServing c → SafeServing (run_line w line c)
    unfolding run_line
    run_line-Safe line c h =
        let (command, args) = split_space line in
        if-lem SafeServing (is_empty line) h (run_command-Safe (upper command) args c h)

    process_line-Safe :
        (c : Serving) (raw : List ℕ) → SafeServing c → SafeServing (process_line w c raw)
    unfolding process_line
    process_line-Safe c raw h =
        if-lem SafeServing (ltb max_command_length (length raw)) (send_last-Safe syntax_error c h)
          (run_line-Safe (strip_line_ends (w.utf8.decode_ignore raw)) c h)

    receive-Safe :
        (r : Receipt) (c : Serving) (buffer : List ℕ)
        → SafeServing c
        → SafeServing (receive w r (c, buffer)).0
    unfolding receive
    receive-Safe (received []) c buffer h = h
    receive-Safe (received (x ∷ xs)) c buffer h =
        let bs = buffer ++ (x ∷ xs) in
        let kept =
          drain-Invariant over (process_line w) SafeServing process_line-Safe (length bs) c bs h in
        option-lem {B = Serving × List ℕ} (λ r. SafeServing r.0) (partition_crlf bs)
          (if-lem {A = Serving × List ℕ} (λ r. SafeServing r.0) (ltb max_command_length (length bs))
            (send_last-Safe syntax_error c h) kept)
          (λ line. kept)
    receive-Safe times_out c buffer h = send_last-Safe service_unavailable c h
    receive-Safe recv_fails c buffer h = fail-Safe c h

    serve-Safe :
        (rs : List Receipt) (c : Serving) (buffer : List ℕ)
        → SafeServing c
        → SafeServing (serve w rs (c, buffer)).0
    unfolding serve
    serve-Safe [] c buffer h = h
    serve-Safe (r ∷ rs) c buffer h =
        let (c', left) = receive w r (c, buffer) in
        if-lem {A = Serving × List ℕ} (λ r. SafeServing r.0) c.ended h
          (serve-Safe rs c' left (receive-Safe r c buffer h))

    cleanup_effects-Under :
        (es : List ServerEffect) (ks : List ℕ)
        → All (EffectUnder root (IsEntered w root)) es
        → All (EffectUnder root (IsEntered w root)) (es ++ closings ks)
    cleanup_effects-Under es ks h =
        All-append (EffectUnder root (IsEntered w root)) es (closings ks) h
          (closings-Under root (IsEntered w root) ks)

    finally-Under :
        (c : Serving)
        → SafeServing c
        → All (EffectUnder root (IsEntered w root)) (finally w c).effects
    unfolding finally
    finally-Under c h =
        if-lem {A = Serving} (λ r. All (EffectUnder root (IsEntered w root)) r.effects) c.ended
          (cleanup_effects-Under c.effects (cleanup w.worker_alive c.session).1 h.effects_under)
          h.effects_under

    -- Whatever a client sends over a connection, in whichever chunks, and whatever the workers of its transfers do
    -- meanwhile, every path that the server touches for it is below the root, for as long as the root resolves to
    -- the same path. One path is not so checked: LIST without an argument lists the session's current directory,
    -- that is the root followed by the directory that it is in, resolved anew; and that directory is none, or the
    -- names behind the root in a path that the system has resolved at one of the commands.
    pub handle_client-Under :
        (addr : Address) (now : ℕ) (receipts : List Receipt)
        → TouchesOnly w root (handle_client w addr server_root now receipts)
    unfolding handle_client greeted new_session
    handle_client-Under addr now receipts =
        if-lem (TouchesOnly w root) (w.send_works 0)
          (finally-Under (serve w receipts (greeted w addr server_root now, [])).0 (
            serve-Safe receipts (greeted w addr server_root now) [] (record {
              effects_under = tt;
              pending = tt;
              root_kept = refl;
              directory = inl refl;
            })))
          tt
