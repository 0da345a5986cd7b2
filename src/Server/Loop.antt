-- ===== src/Server/Loop.antt =====
-- `handle_client` of server/main_server.py: the loop that reads the control connection, takes commands out of the
-- bytes and answers them, and what is left when it ends. The worker of a transfer does its steps between commands.
pub mod Chunks
pub mod Commands
pub mod Confined
pub mod Ending
pub mod Entered
use computer_network_socket.Base.{
  ℕ, zero, suc, ◌+◌, Bool, true, false, not, ◌&&◌, ◌||◌, Option, none, some, List, [], ◌∷◌, ◌++◌,
  length, ltb, if◌then◌else◌,
}
use computer_network_socket.Base.Text.{Text, upper, is_empty}
use computer_network_socket.Shared.Address.{Address}
use computer_network_socket.Shared.Constants.{max_command_length}
use computer_network_socket.Control.Lines.{Utf8, partition_crlf, strip_line_ends, split_space}
use computer_network_socket.Control.Drain.{drain}
use computer_network_socket.Server.Session.{
  FilePath, ClientSession, new_session, record_activity, cleanup,
}
use computer_network_socket.Server.System.{System}
use computer_network_socket.Server.Reply.{
  FtpReplyCode, service_ready, service_unavailable, syntax_error, Reply, format_code, format_reply,
  closes_control,
}
use computer_network_socket.Server.Outcome.{
  Outcome, ServerEffect, closes, opens_socket, unlinks, renames, makes_directory, removes_directory,
  changes_mode, starts, crashes, closings,
}
use computer_network_socket.Server.Worker.{WorkerStep, ends, replies_at_end, worker_step}
use computer_network_socket.Server.Dispatch.{handle_command}

-- What happens on the outside, by the number of the command or of the `sendall`: the system at each command,
-- what the worker did before it, and whether the client still takes what is sent.
pub record Surroundings : Type 0 where
  pub utf8 : Utf8
  pub system : ℕ → System
  pub worker : ℕ → List WorkerStep
  pub send_works : ℕ → Bool
  pub worker_alive : Bool

-- The session, what was sent, how often `sendall` was called, how many commands ran, and what they did.
pub record Serving : Type 0 where
  pub session : ClientSession
  pub sent : List (List ℕ)
  pub sends : ℕ
  pub commands : ℕ
  pub effects : List ServerEffect
  pub ended : Bool

abbrev pub ending : Serving → Serving
ending c = record c { ended = true }

-- What one `recv(1024)` of the server does.
pub data Receipt : Type 0 where
  received : List ℕ → Receipt
  times_out recv_fails : Receipt

-- Whether the handler's generator does this after its reply was sent.
abbrev pub follows_reply : ServerEffect → Bool
follows_reply (closes socket) = false
follows_reply (opens_socket socket) = false
follows_reply (unlinks path) = false
follows_reply (renames source target) = false
follows_reply (makes_directory path) = false
follows_reply (removes_directory path) = false
follows_reply (changes_mode path) = false
follows_reply (starts job) = true
follows_reply crashes = true

abbrev pub some_follow : List ServerEffect → Bool
some_follow [] = false
some_follow (e ∷ es) = follows_reply e || some_follow es

abbrev pub is_crash : ServerEffect → Bool
is_crash (closes socket) = false
is_crash (opens_socket socket) = false
is_crash (unlinks path) = false
is_crash (renames source target) = false
is_crash (makes_directory path) = false
is_crash (removes_directory path) = false
is_crash (changes_mode path) = false
is_crash (starts job) = false
is_crash crashes = true

abbrev pub crashed : List ServerEffect → Bool
crashed [] = false
crashed (e ∷ es) = is_crash e || crashed es

-- What a command has done before its replies are sent: a transfer begins only after its 150.
unfoldable pub suspended : System → ClientSession → Outcome → Outcome
unfolding record_activity
suspended sys s o =
    if some_follow o.effects
    then record o { session = record_activity sys.now s; effects = [] }
    else o

abbrev pub take_outcome : Outcome → Serving → List ServerEffect → Serving
take_outcome o c before = record c { session = o.session; effects = before ++ o.effects }

module _ (w : Surroundings) where
  -- `sendall`, and whether it succeeded.
  unfoldable pub send_bytes : List ℕ → Serving → Serving × Bool
  send_bytes bs c =
      let tried : Serving = record c { sends = suc c.sends } in
      if w.send_works c.sends
      then (record tried { sent = c.sent ++ (bs ∷ []) }, true)
      else (tried, false)

  -- The `except Exception` at the end: 421, if it can be sent.
  unfoldable pub fail : Serving → Serving
  unfolding send_bytes format_code
  fail c = ending (send_bytes (w.utf8.encode (format_code service_unavailable none)) c).0

  -- A reply of the loop itself, after which it stops.
  unfoldable pub send_last : FtpReplyCode → Serving → Serving
  unfolding send_bytes format_code fail
  send_last code c =
      let (c', sent) = send_bytes (w.utf8.encode (format_code code none)) c in
      if sent then ending c' else fail c'

  -- The replies of a command, up to one that closes the connection or cannot be sent.
  unfoldable pub send_replies : List Reply → Serving → Serving
  unfolding send_bytes format_reply
  send_replies [] c = c
  send_replies (r ∷ rs) c =
      let (c', sent) = send_bytes (w.utf8.encode (format_reply r)) c in
      let later = send_replies rs c' in
      if sent then if closes_control r then ending c' else later else ending c'

  -- The steps of the worker, with its final reply.
  unfoldable pub worker_turn : WorkerStep → Serving → Serving
  unfolding worker_step replies_at_end send_bytes
  worker_turn step c =
      let moved : Serving = record c { session = worker_step step c.session } in
      elim step [
        | ends reply ↦
            if replies_at_end true c.session
            then (send_bytes (w.utf8.encode reply) moved).0
            else moved
        | _ ↦ moved
      ]

  unfoldable pub worker_turns : List WorkerStep → Serving → Serving
  unfolding worker_turn
  worker_turns [] c = c
  worker_turns (step ∷ steps) c = worker_turns steps (worker_turn step c)

  -- The command's work behind its replies, and an exception that it ends in.
  unfoldable pub resume_command : List ServerEffect → Outcome → Serving → Serving
  unfolding fail
  resume_command before o c =
      if c.ended
      then c
      else if crashed o.effects
      then fail (take_outcome o c before)
      else take_outcome o c before

  unfoldable pub answer_command : System → ClientSession → Outcome → Serving → Serving
  unfolding suspended send_replies resume_command
  answer_command sys s o c =
      resume_command c.effects o
        (send_replies o.replies (take_outcome (suspended sys s o) c c.effects))

  unfoldable pub run_command : Text → Option Text → Serving → Serving
  unfolding worker_turns handle_command answer_command
  run_command command args c =
      let sys = w.system c.commands in
      let c' = worker_turns (w.worker c.commands) c in
      answer_command sys c'.session (handle_command sys c'.session command args)
        (record c' { commands = suc c.commands })

  unfoldable pub run_line : Text → Serving → Serving
  unfolding split_space upper run_command
  run_line line c =
      let (command, args) = split_space line in
      if is_empty line then c else run_command (upper command) args c

  unfoldable pub process_line : Serving → List ℕ → Serving
  unfolding send_last strip_line_ends run_line
  process_line c raw_line =
      if ltb max_command_length (length raw_line)
      then send_last syntax_error c
      else run_line (strip_line_ends (w.utf8.decode_ignore raw_line)) c

  -- One turn of `while True`, with the bytes left over.
  unfoldable pub receive : Receipt → Serving × List ℕ → Serving × List ℕ
  unfolding send_last fail drain process_line partition_crlf
  receive (received []) (c, buffer) = (ending c, buffer)
  receive (received (x ∷ xs)) (c, buffer) =
      let bs = buffer ++ (x ∷ xs) in
      let drained = drain (λ t. t.ended) process_line (length bs) c bs in
      elim (partition_crlf bs) [
        | none ↦
            if ltb max_command_length (length bs) then (send_last syntax_error c, bs) else drained
        | some line ↦ drained
      ]
  receive times_out (c, buffer) = (send_last service_unavailable c, buffer)
  receive recv_fails (c, buffer) = (fail c, buffer)

  -- The loop on the receipts so far.
  unfoldable pub serve : List Receipt → Serving × List ℕ → Serving × List ℕ
  unfolding receive
  serve [] (c, buffer) = (c, buffer)
  serve (r ∷ rs) (c, buffer) =
      let later = serve rs (receive r (c, buffer)) in if c.ended then (c, buffer) else later

  -- The state in which the loop begins, once the greeting was sent.
  unfoldable pub greeted : Address → FilePath → ℕ → Serving
  unfolding new_session format_code
  greeted addr server_root now = record {
    session = record (new_session addr server_root now) { control_conn = true };
    sent = w.utf8.encode (format_code service_ready none) ∷ [];
    sends = 1;
    commands = 0;
    effects = [];
    ended = false;
  }

  -- `finally`: the session of a loop that has ended is cleaned up.
  unfoldable pub finally : Serving → Serving
  unfolding cleanup
  finally c =
      if c.ended
      then (let (s, closed) = cleanup w.worker_alive c.session in
          record c { session = s; effects = c.effects ++ closings closed })
      else c

  -- `none` is a client that does not take the greeting; it has no session.
  unfoldable pub handle_client : Address → FilePath → ℕ → List Receipt → Option Serving
  unfolding greeted serve finally
  handle_client addr server_root now receipts =
      if w.send_works 0
      then some (finally (serve receipts (greeted addr server_root now, [])).0)
      else none
