-- ===== src/Server/Loop/Ending.antt =====
-- The loop ends when the connection does, and its session is cleaned up.
use computer_network_socket.Base.{
  ℕ, ◌≡◌, refl, Bool, true, Option, none, some, List, [], ◌∷◌, ◌++◌, arith,
}
use computer_network_socket.Base.Cases.{if-lem, if-split}
use computer_network_socket.Shared.Address.{Address}
use computer_network_socket.Server.Session.{
  FilePath, ClientSession, request_abort, close_current_data_socket, prepare_control_close,
  reset_data_connection, reset_rename_state, finish_transfer, runs_on, cleanup,
  register_data_socket, Closing,
}
use computer_network_socket.Server.Session.Cleanup.{abort_started}
use computer_network_socket.Server.Reply.{FtpReplyCode, format_code, service_unavailable}
use computer_network_socket.Server.Loop.{
  Surroundings, Serving, Receipt, received, times_out, recv_fails, send_bytes, fail, send_last,
  receive, serve, greeted, finally, handle_client,
}

-- The connection is over: closed by the client, silent for too long, or broken.
abbrev pub IsEnd : Receipt → Type 0
IsEnd (received []) = Unit {0}
IsEnd (received (x ∷ xs)) = ⊥
IsEnd times_out = Unit {0}
IsEnd recv_fails = Unit {0}

-- The connection has ended, and no worker can get a data socket for its session any more.
pub record Over (c : Serving) : Type 0 where
  pub ended : c.ended ≡ true
  pub no_socket : (socket : ℕ) → register_data_socket socket c.session ≡ none

abbrev pub IsOver : Option Serving → Type 0
IsOver none = ⊥
IsOver (some c) = Over c

cleanup_starts : (alive : Bool) (s : ClientSession) → (cleanup alive s).0.cleanup_started ≡ true
unfolding cleanup prepare_control_close request_abort close_current_data_socket
    reset_data_connection reset_rename_state finish_transfer
cleanup_starts alive s =
    let started : ClientSession = record s {
      cleanup_started = true;
      suppress_transfer_reply = true;
    } in
    let aborted = (request_abort true started).0 in
    if-split {A = Closing} (λ r. r.0.cleanup_started ≡ true) s.cleanup_started (λ begun. begun)
      (λ first.
        if-lem {A = ClientSession} (λ t. t.cleanup_started ≡ true) (runs_on s.transfer_thread alive)
          (abort_started true started)
          (if-lem {A = ClientSession}
            (λ t. (record t { transfer_thread = none }).cleanup_started ≡ true)
            aborted.transfer_in_progress (abort_started true started) (abort_started true started)))

module _ (w : Surroundings) where
  fail_ended : (c : Serving) → (fail w c).ended ≡ true
  unfolding fail
  fail_ended c = refl

  send_last_ended : (code : FtpReplyCode) (c : Serving) → (send_last w code c).ended ≡ true
  unfolding send_last fail
  send_last_ended code c =
      if-lem {A = Serving} (λ r. r.ended ≡ true)
        (send_bytes w (w.utf8.encode (format_code code none)) c).1 refl refl

  receive_ended :
      (r : Receipt) (c : Serving) (buffer : List ℕ)
      → IsEnd r
      → (receive w r (c, buffer)).0.ended ≡ true
  unfolding receive
  receive_ended (received []) c buffer h = refl
  receive_ended (received (x ∷ xs)) c buffer h = absurd h
  receive_ended times_out c buffer h = send_last_ended service_unavailable c
  receive_ended recv_fails c buffer h = fail_ended c

  serve_over :
      (rs : List Receipt) (c : Serving) (buffer : List ℕ)
      → c.ended ≡ true
      → (serve w rs (c, buffer)).0.ended ≡ true
  unfolding serve
  serve_over [] c buffer e = e
  serve_over (r ∷ rs) c buffer e =
      if-split {A = Serving × List ℕ} (λ t. t.0.ended ≡ true) c.ended (λ is_ended. is_ended)
        (λ goes_on. absurd (ground arith))

  serve_ends :
      (before after : List Receipt) (r : Receipt) (c : Serving) (buffer : List ℕ)
      → IsEnd r
      → (serve w (before ++ r ∷ after) (c, buffer)).0.ended ≡ true
  unfolding serve
  serve_ends [] after r c buffer h =
      let (c', left) = receive w r (c, buffer) in
      if-split {A = Serving × List ℕ} (λ t. t.0.ended ≡ true) c.ended (λ e. e)
        (λ e. serve_over after c' left (receive_ended r c buffer h))
  serve_ends (b ∷ before) after r c buffer h =
      let (c', left) = receive w b (c, buffer) in
      if-split {A = Serving × List ℕ} (λ t. t.0.ended ≡ true) c.ended (λ e. e)
        (λ e. serve_ends before after r c' left h)

  finally-Over : (c : Serving) → c.ended ≡ true → Over (finally w c)
  unfolding finally register_data_socket
  finally-Over c e =
      if-split {A = Serving} Over c.ended
        (λ is_ended. record {
          ended = is_ended;
          no_socket = λ socket. rw (cleanup_starts w.worker_alive c.session);
        })
        (λ goes_on. absurd (ground arith))

  -- A connection whose greeting was sent is over once the client closes it, is silent for too long or breaks off,
  -- whatever it has sent before: the loop has ended, and a worker that still runs can no longer register a socket
  -- for the session.
  pub handle_client-IsOver :
      (addr : Address) (server_root : FilePath) (now : ℕ) (before after : List Receipt)
      (r : Receipt)
      → w.send_works 0 ≡ true
      → IsEnd r
      → IsOver (handle_client w addr server_root now (before ++ r ∷ after))
  unfolding handle_client
  handle_client-IsOver addr server_root now before after r greets h =
      if-split IsOver (w.send_works 0)
        (λ sent.
          finally-Over (serve w (before ++ r ∷ after) (greeted w addr server_root now, [])).0
            (serve_ends before after r (greeted w addr server_root now) [] h))
        (λ lost. absurd (ground arith))
