-- ===== src/Tests/Runs.antt =====
-- Whole runs of the two main loops.
use computer_network_socket.Base.{◌≡◌, refl, true, some, [], ◌∷◌, map}
use computer_network_socket.Base.Text.{text, upper, strip, strip_left, text_eq}
use computer_network_socket.Control.Lines.{partition_crlf, split_space, strip_line_ends}
use computer_network_socket.Control.Drain.{drain}
use computer_network_socket.Server.Session.{new_session}
use computer_network_socket.Server.Reply.{format_code, format_reply, command_ok, goodbye}
use computer_network_socket.Server.Handlers.Auth.{handle_noop, handle_quit}
use computer_network_socket.Server.Dispatch.{
  handle_command, handle_parsed, handle_supported, parse_command, route,
}
use computer_network_socket.Server.Loop.{
  Serving, received, serve, receive, process_line, run_line, run_command, answer_command,
  send_replies, send_bytes, resume_command, suspended, worker_turns,
}
use computer_network_socket.Server.Session.{ascii}
use computer_network_socket.Client.Connection.{parse_reply}
use computer_network_socket.Client.Context.{reset_data_connection}
use computer_network_socket.Client.Control.{
  Client, send_and_print, send_command, read_reply_line, drop_data_connection,
}
use computer_network_socket.Client.Handlers.Simple.{argument, handle_user, handle_pass}
use computer_network_socket.Client.Handlers.Simple
use computer_network_socket.Client.Handlers.Setup.{handle_type, type_of}
use computer_network_socket.Client.Dispatch
use computer_network_socket.Client.Main.{
  new_client, run_client, loop, turn, parse_command_line, split_word, enters,
}
use computer_network_socket.Tests.Sides.{desk}
use computer_network_socket.Tests.Control.{quiet, start, noop_quit}

abbrev ran : Serving
ran = (serve quiet (map received noop_quit) (start, [])).0

-- NOOP and QUIT are answered in turn, and QUIT ends the loop.
noop_quit_run :
    (ran.sent
      ≡ format_code command_ok (some (text "NOOP command successful."))
        ∷ format_code goodbye (some (text "Goodbye."))
        ∷ [])
    × (ran.ended ≡ true)
unfolding serve receive drain process_line run_line run_command answer_command send_replies
    send_bytes resume_command suspended worker_turns partition_crlf split_space strip_line_ends
    handle_command handle_parsed handle_supported parse_command route handle_noop handle_quit
    new_session text format_reply format_code upper strip text_eq
noop_quit_run = (refl, refl)

abbrev session_client : Client
session_client =
    new_client 1
      (text "220 Ready." ∷ text "331 Need." ∷ text "230 In." ∷ text "200 I." ∷ text "221 Bye." ∷ [])

abbrev left : Client
left =
    run_client desk
      (enters (text " user bob ")
        ∷ enters (text "pass pw")
        ∷ enters (text "type a")
        ∷ enters (text "quit")
        ∷ [])
      session_client

-- A client that logs in, sets TYPE A and quits.
login_run :
    (left.sent ≡ text "USER bob" ∷ text "PASS pw" ∷ text "TYPE A" ∷ text "QUIT" ∷ [])
    × (left.replies ≡ [])
    × (left.context.transfer_type ≡ ascii)
unfolding run_client loop turn parse_command_line split_word handle_user handle_pass
    Simple.handle_quit handle_type type_of Dispatch.handle_command Dispatch.handle_idle
    Dispatch.route send_and_print send_command read_reply_line parse_reply drop_data_connection
    reset_data_connection argument split_space text upper strip strip_left text_eq parse_command
login_run = (refl, refl, refl)
