-- ===== src/Protocol/Ending.antt =====
-- The end of a transfer on both sides: `_run` of server/control/session.py and `handle_abor` of
-- server/control/handlers/transfer_handler.py against `_read_final_transfer_reply` of
-- client/control/handlers/transfer_handler.py. The server's lock puts its two steps in one order.
use computer_network_socket.Base.{
  ℕ, suc, ◌≡◌, refl, ap, ◌∙◌, Bool, true, false, Option, none, some, List, [], ◌∷◌, ◌++◌,
  if◌then◌else◌,
}
use computer_network_socket.Base.Text.{Text, text}
use computer_network_socket.Server.Session.{
  ClientSession, finish_transfer, request_abort, close_current_data_socket, reset_data_connection,
  send_transfer_reply,
}
use computer_network_socket.Server.Reply.{
  FtpReplyCode, transfer_complete, code, code_text, standard_message, Reply, line, multiline,
}
use computer_network_socket.Server.Worker.{replies_at_end, finish_worker}
use computer_network_socket.Server.Handlers.Transfer.{handle_abor}
use computer_network_socket.Client.Connection.{parse_reply}
use computer_network_socket.Client.Connection.Reading.{parse_reply-digits3, code-lt}
use computer_network_socket.Client.Context.{mark_transfer_finalizing, finalizing}
use computer_network_socket.Client.Control.{Client, Result, returned, read_reply_line}
use computer_network_socket.Client.Handlers.Worker.{
  read_final_transfer_reply, confirms_abort, lower, contains, abort_success_message,
}

-- What the server does: its worker ends with a final reply, or an ABOR arrives.
pub data ServerStep : Type 0 where
  worker_ends : FtpReplyCode → Text → ServerStep
  abor_arrives : ServerStep

-- A reply without its CRLF, as the client reads it.
abbrev pub reply_text : FtpReplyCode → Text → Text
reply_text c m = code_text c ++ (32 ∷ m)

abbrev pub line_texts : List Reply → List Text
line_texts [] = []
line_texts (line r ∷ rs) =
    elim r.message [
      | none ↦ reply_text r.code (standard_message r.code)
      | some m ↦ reply_text r.code m
    ]
    ∷ line_texts rs
line_texts (multiline c first lines ∷ rs) = (code_text c ++ (45 ∷ first)) ∷ line_texts rs

-- The session after a step, and what is sent.
unfoldable pub server_step : ServerStep → ClientSession → ClientSession × List Text
unfolding replies_at_end finish_worker handle_abor
server_step (worker_ends c m) s =
    (finish_worker s, if replies_at_end true s then reply_text c m ∷ [] else [])
server_step abor_arrives s = let o = handle_abor s in (o.session, line_texts o.replies)

unfoldable pub server_steps : List ServerStep → ClientSession → ClientSession × List Text
unfolding server_step
server_steps [] s = (s, [])
server_steps (step ∷ steps) s =
    let (s₁, first) = server_step step s in
    let (s₂, later) = server_steps steps s₁ in (s₂, first ++ later)

-- No ABOR is sent, or one that arrives before the worker ends, or one that arrives later.
pub data AbortOrder : Type 0 where
  no_abort abort_first abort_late : AbortOrder

abbrev pub asks : AbortOrder → Bool
asks no_abort = false
asks abort_first = true
asks abort_late = true

abbrev pub steps_of : AbortOrder → FtpReplyCode → Text → List ServerStep
steps_of no_abort c m = worker_ends c m ∷ []
steps_of abort_first c m = abor_arrives ∷ worker_ends c m ∷ []
steps_of abort_late c m = worker_ends c m ∷ abor_arrives ∷ []

-- The code that the client takes for the transfer's, and whether it takes it for aborted.
abbrev pub verdict_of : AbortOrder → FtpReplyCode → Option ℕ × Bool
verdict_of no_abort c = (some (code c), false)
verdict_of abort_first c = (some (code transfer_complete), true)
verdict_of abort_late c = (some (code c), false)

-- A transfer runs whose reply is not suppressed.
pub record InTransfer (s : ClientSession) : Type 0 where
  pub in_progress : s.transfer_in_progress ≡ true
  pub not_closing : s.suppress_transfer_reply ≡ false
  pub not_aborted : s.suppress_current_transfer_reply ≡ false
  pub connected : s.control_conn ≡ true

abbrev abort_text : Text
abort_text = reply_text transfer_complete (text "Abort command successful.")

abbrev no_transfer_text : Text
no_transfer_text = reply_text FtpReplyCode.command_ok (text "No transfer in progress to abort.")

-- The lines that the server sends in each order.
abbrev output : AbortOrder → FtpReplyCode → Text → List Text
output no_abort c m = reply_text c m ∷ []
output abort_first c m = abort_text ∷ []
output abort_late c m = reply_text c m ∷ no_transfer_text ∷ []

server_steps-output :
    (order : AbortOrder) (c : FtpReplyCode) (m : Text) (s : ClientSession)
    → InTransfer s
    → (server_steps (steps_of order c m) s).1 ≡ output order c m
unfolding server_steps server_step replies_at_end finish_worker handle_abor request_abort
    close_current_data_socket reset_data_connection send_transfer_reply finish_transfer
server_steps-output no_abort c m s h = rw (h.not_aborted, h.not_closing, h.connected)
server_steps-output abort_first c m s h = rw (h.in_progress)
server_steps-output abort_late c m s h = rw (h.not_aborted, h.not_closing, h.connected)

server_steps-over :
    (order : AbortOrder) (c : FtpReplyCode) (m : Text) (s : ClientSession)
    → InTransfer s
    → (server_steps (steps_of order c m) s).0.transfer_in_progress ≡ false
unfolding server_steps server_step finish_worker handle_abor request_abort close_current_data_socket
    reset_data_connection finish_transfer
server_steps-over no_abort c m s h = refl
server_steps-over abort_first c m s h = refl
server_steps-over abort_late c m s h = refl

pub parse_reply_text :
    (c : FtpReplyCode) (m : Text) → parse_reply (reply_text c m) ≡ (some (code c), m)
parse_reply_text c m = parse_reply-digits3 (code c) m (code-lt c)

-- What the client makes of the lines of an order, with others behind them.
pub record Understood (order : AbortOrder) (c : FtpReplyCode) (more : List Text)
    (r : Result (Option ℕ × Bool)) : Type 0 where
  pub client : Client
  pub gives : r ≡ returned (verdict_of order c) client
  pub left : client.replies ≡ more

abort_confirmed : confirms_abort (text "Abort command successful.") ≡ true
unfolding confirms_abort lower contains abort_success_message text
abort_confirmed = refl

abbrev after_reading : Client → List Text → ℕ → Client
after_reading k more reads' = record k {
  context = record k.context { transfer_phase = some finalizing };
  replies = more;
  reads = reads';
}

read_output :
    (order : AbortOrder) (c : FtpReplyCode) (m : Text) (more : List Text) (k : Client)
    → k.context.abort_requested ≡ asks order
    → confirms_abort m ≡ false
    → k.replies ≡ output order c m ++ more
    → Understood order c more (read_final_transfer_reply k)
unfolding read_final_transfer_reply mark_transfer_finalizing read_reply_line
read_output no_abort c m more k a n e = record {
  client = after_reading k more (suc k.reads);
  gives = rw (e, a, parse_reply_text c m, n);
  left = refl;
}
read_output abort_first c m more k a n e = record {
  client = after_reading k more (suc k.reads);
  gives = rw (
    e,
    a,
    parse_reply_text transfer_complete (text "Abort command successful."),
    abort_confirmed,
  );
  left = refl;
}
read_output abort_late c m more k a n e = record {
  client = after_reading k more (suc (suc k.reads));
  gives = rw (e, a, parse_reply_text c m, n);
  left = refl;
}

-- In whichever order the server's worker ends and an ABOR arrives, if there is one, the client reads just the
-- replies that the server sends, learns the code of the transfer's reply where the worker ended first, and that the
-- transfer was aborted where the ABOR came first; and the server then has no transfer in progress.
pub read_final_transfer_reply-server_steps :
    (order : AbortOrder) (c : FtpReplyCode) (m : Text) (more : List Text) (s : ClientSession)
    (k : Client)
    → InTransfer s
    → k.context.abort_requested ≡ asks order
    → confirms_abort m ≡ false
    → k.replies ≡ (server_steps (steps_of order c m) s).1 ++ more
    → Understood order c more (read_final_transfer_reply k)
      × ((server_steps (steps_of order c m) s).0.transfer_in_progress ≡ false)
read_final_transfer_reply-server_steps order c m more s k h a n e = (
  read_output order c m more k a n (e ∙ ap (λ ls. ls ++ more) (server_steps-output order c m s h)),
  server_steps-over order c m s h,
)
