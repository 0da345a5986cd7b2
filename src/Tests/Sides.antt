-- ===== src/Tests/Sides.antt =====
-- The client's handlers, the two sides together, and the data channel at concrete inputs.
use computer_network_socket.Base.{◌≡◌, refl, inl, true, false, none, some, [], ◌∷◌, ◌++◌, arith}
use computer_network_socket.Base.Text.{text}
use computer_network_socket.Shared.Rdt.Action.{timed_out}
use computer_network_socket.Server.Session.{ClientSession, new_session, passive}
use computer_network_socket.Server.System.{System, bound}
use computer_network_socket.Server.Reply.{transfer_complete}
use computer_network_socket.Server.Handlers.Setup
use computer_network_socket.Server.DataChannel.{Turn, open_channel}
use computer_network_socket.Server.DataChannel.Attempts.{HandshakeBound}
use computer_network_socket.Server.DataChannel.Peer.{Managed, open_channel-Managed}
use computer_network_socket.Client.Connection.{all_digits, digits_value}
use computer_network_socket.Client.Context.{new_context, data_phase}
use computer_network_socket.Client.Control.{Client, retrieves}
use computer_network_socket.Client.Main.{new_client}
use computer_network_socket.Client.Handlers.Setup.{handle_pasv}
use computer_network_socket.Client.Handlers.Transfer.{Host}
use computer_network_socket.Client.Handlers.Channel.{
  open_passive_peer, open_passive_peer-HandshakeBound,
}
use computer_network_socket.Client.Handlers.Worker.{
  read_final_transfer_reply, confirms_abort, lower, contains, abort_success_message,
}
use computer_network_socket.Client.Connection.{starts_with}
use computer_network_socket.Client.Dispatch.{handle_command}
use computer_network_socket.Client.Dispatch.InStep.{After, InStep}
use computer_network_socket.Client.Dispatch.InStep.Command.{handle_command-InStep}
use computer_network_socket.Protocol.Ending.{
  abort_late, steps_of, server_steps, InTransfer, Understood, line_texts,
  read_final_transfer_reply-server_steps,
}
use computer_network_socket.Protocol.Passive.{PassiveAgreed, handle_pasv-handle_pasv}
use computer_network_socket.Tests.Commands.{unix, small, guest, renaming}

abbrev pub sending : ClientSession
sending = record renaming { transfer_in_progress = true; control_conn = true }

sending-InTransfer : InTransfer sending
unfolding new_session
sending-InTransfer = record {
  in_progress = refl;
  not_closing = refl;
  not_aborted = refl;
  connected = refl;
}

-- A client with a transfer and an ABOR that comes too late.
abbrev late : Client
late = record (new_client 1 []) {
  context = record (new_context 1) { transfer_phase = some data_phase; abort_requested = true };
  replies = (server_steps (steps_of abort_late transfer_complete (text "Done.")) sending).1 ++ [];
}

not_confirmed : confirms_abort (text "Done.") ≡ false
unfolding confirms_abort lower contains abort_success_message text starts_with
not_confirmed = refl

read_final_transfer_reply-server_steps_example :
    Understood abort_late transfer_complete [] (read_final_transfer_reply late)
    × ((server_steps
          (steps_of abort_late transfer_complete (text "Done."))
          sending).0.transfer_in_progress
        ≡ false)
read_final_transfer_reply-server_steps_example =
    read_final_transfer_reply-server_steps abort_late transfer_complete (text "Done.") [] sending
      late sending-InTransfer refl not_confirmed refl

abbrev with_port : System
with_port = record small { decimal = λ n. text "5001"; open_udp = bound 9 5001 }

abbrev asking : Client
asking = new_client 1 (line_texts (Setup.handle_pasv with_port guest).replies ++ [])

handle_pasv-handle_pasv_example :
    PassiveAgreed 1 5001 9
      (Setup.handle_pasv with_port guest).session
      (handle_pasv (λ n. true) (λ p. bound 3 40000) (λ n. []) none asking)
unfolding text all_digits digits_value
handle_pasv-handle_pasv_example =
    handle_pasv-handle_pasv with_port guest 9 5001 (λ n. true) (λ p. bound 3 40000) (λ n. []) 3
      40000 asking [] refl
      (record { digits = refl; some_digit = refl; at_most_five = omega arith; value = refl })
      (omega arith) (omega arith) refl refl refl

abbrev pub desk : Host
desk = record {
  send_works = λ n. true;
  open_udp = λ p. bound 3 40000;
  decimal = λ n. text "40000";
  platform = unix;
  is_file = λ path. true;
  read_bytes = λ path. some (1 ∷ []);
  can_write = λ path. true;
  file_hash = λ path. some (text "aa");
}

-- A NOOP, with the reply to it under way.
handle_command-InStep_example :
    After (InStep 0) (handle_command desk (text "noop") none (new_client 1 (text "200 Ok." ∷ [])))
handle_command-InStep_example =
    handle_command-InStep 0 desk (text "noop") none (new_client 1 (text "200 Ok." ∷ []))
      (inl (record { balance = refl; no_phase = refl; no_worker = refl }))

-- A download that is complete, with its final reply and that of HASH under way.
abbrev pub downloading : Client
downloading = record (new_client 1 (text "226 Done." ∷ text "200 aa" ∷ [])) {
  context = record (new_context 1) { transfer_phase = some data_phase };
  sent = text "RETR a.txt" ∷ [];
  reads = 1;
  worker = some (retrieves (text "a.txt") 3 none);
}

abbrev silent_turn : Turn
silent_turn = record {
  is_cancelled = false;
  is_expired = false;
  recv_fails = false;
  arrival = timed_out;
}

abbrev in_passive : ClientSession
in_passive = record guest { data_connection_mode = some passive; passive_udp_socket = some 9 }

-- No client shows up.
open_channel-Managed_example : Managed 1 (open_channel true 4 (silent_turn ∷ []) in_passive)
unfolding new_session
open_channel-Managed_example = open_channel-Managed true 4 (silent_turn ∷ []) in_passive refl tt tt

open_passive_peer-HandshakeBound_example :
    HandshakeBound 5
      (record { host = 1; port = 5001 })
      (open_passive_peer 5 (record { host = 1; port = 5001 }) ((false, silent_turn ∷ []) ∷ []))
open_passive_peer-HandshakeBound_example =
    open_passive_peer-HandshakeBound 5 (record { host = 1; port = 5001 })
      ((false, silent_turn ∷ []) ∷ [])
