-- ===== src/Server/Session/Cleanup.antt =====
-- What `cleanup` of server/control/session.py leaves of a session.
use computer_network_socket.Base.{
  ◌≡◌, refl, Bool, true, false, ◌&&◌, none, List, [], ◌++◌, ℕ, arith,
}
use computer_network_socket.Base.Cases.{if-lem, if-split}
use computer_network_socket.Server.Session.{
  ClientSession, Closing, socket_list, request_abort, close_current_data_socket,
  prepare_control_close, reset_data_connection, reset_rename_state, finish_transfer, runs_on,
  send_transfer_reply, cleanup,
}

-- The session's sockets are closed and forgotten, the client is logged out, no reply of a worker is sent any
-- more, and to clean up again does nothing.
pub record Released (s : ClientSession) (r : Closing) : Type 0 where
  pub closed : r.1 ≡ socket_list s.current_data_socket ++ socket_list s.passive_udp_socket
  pub data_free : r.0.current_data_socket ≡ none
  pub passive_free : r.0.passive_udp_socket ≡ none
  pub logged_out : r.0.authenticated ≡ false
  pub silent : (conn_works : Bool) → send_transfer_reply conn_works r.0 ≡ false
  pub once : (alive : Bool) → cleanup alive r.0 ≡ (r.0, [])

and_false : (a b : Bool) → (a && (false && b)) ≡ false
and_false true b = refl
and_false false b = refl

abort_sockets :
    (b : Bool) (t : ClientSession)
    → (socket_list (request_abort b t).0.current_data_socket
        ++ socket_list (request_abort b t).0.passive_udp_socket)
      ≡ (socket_list t.current_data_socket ++ socket_list t.passive_udp_socket)
unfolding request_abort
abort_sockets b t =
    if-lem {A = ClientSession × Bool}
      (λ r.
        (socket_list r.0.current_data_socket ++ socket_list r.0.passive_udp_socket)
        ≡ (socket_list t.current_data_socket ++ socket_list t.passive_udp_socket))
      t.transfer_in_progress refl refl

pub abort_started :
    (b : Bool) (t : ClientSession) → (request_abort b t).0.cleanup_started ≡ t.cleanup_started
unfolding request_abort
abort_started b t =
    if-lem {A = ClientSession × Bool} (λ r. r.0.cleanup_started ≡ t.cleanup_started)
      t.transfer_in_progress refl refl

cleanup_again :
    (alive : Bool) (t : ClientSession) → t.cleanup_started ≡ true → cleanup alive t ≡ (t, [])
unfolding cleanup
cleanup_again alive t begun =
    if-split (λ r. r ≡ (t, [])) t.cleanup_started (λ e. refl) (λ e. absurd (ground arith))

silent_when_closed :
    (conn_works : Bool) (t : ClientSession)
    → t.control_conn ≡ false
    → send_transfer_reply conn_works t ≡ false
unfolding send_transfer_reply
silent_when_closed conn_works t e = ground arith

Released-from :
    (s t : ClientSession) (ks : List ℕ)
    → ks ≡ socket_list s.current_data_socket ++ socket_list s.passive_udp_socket
    → t.current_data_socket ≡ none
    → t.passive_udp_socket ≡ none
    → t.authenticated ≡ false
    → t.control_conn ≡ false
    → t.cleanup_started ≡ true
    → Released s (t, ks)
Released-from s t ks closed no_data passive out conn started = record {
  closed = closed;
  data_free = no_data;
  passive_free = passive;
  logged_out = out;
  silent = λ conn_works. silent_when_closed conn_works t conn;
  once = λ alive. cleanup_again alive t started;
}

-- A clean-up that has not begun before releases what the session holds, whether or not its worker still runs.
pub cleanup-Released :
    (alive : Bool) (s : ClientSession) → s.cleanup_started ≡ false → Released s (cleanup alive s)
unfolding cleanup prepare_control_close close_current_data_socket reset_data_connection
    reset_rename_state finish_transfer send_transfer_reply
cleanup-Released alive s fresh =
    let started : ClientSession = record s {
      cleanup_started = true;
      suppress_transfer_reply = true;
    } in
    let aborted = (request_abort true started).0 in
    let closed₁ = socket_list aborted.current_data_socket in
    let closed₂ = socket_list aborted.passive_udp_socket in
    if-split (Released s) s.cleanup_started (λ begun. absurd (ground arith))
      (λ first.
        if-lem (λ t. Released s (t, closed₁ ++ closed₂)) (runs_on s.transfer_thread alive)
          (Released-from s _ _ (abort_sockets true started) refl refl refl refl
            (abort_started true started))
          (if-lem (λ t. Released s (record t { transfer_thread = none }, closed₁ ++ closed₂))
            aborted.transfer_in_progress
            (Released-from s _ _ (abort_sockets true started) refl refl refl refl
              (abort_started true started))
            (Released-from s _ _ (abort_sockets true started) refl refl refl refl
              (abort_started true started))))
