-- ===== src/Server/Handlers/Setup.antt =====
-- server/control/handlers/transfer_setup_handler.py: TYPE, MODE, PORT and PASV.
use computer_network_socket.Base.{
  ℕ, ◌||◌, Option, none, some, List, [], ◌∷◌, ◌++◌, if◌then◌else◌, leb, ltb,
}
use computer_network_socket.Base.Text.{Text, text, text_eq, upper, is_empty}
use computer_network_socket.Shared.Address.{Address}
use computer_network_socket.Server.Session.{
  ClientSession, TransferType, ascii, image, TransferMode, stream, block, compressed, active,
  passive, reset_data_connection,
}
use computer_network_socket.Server.System.{System, nonneg, negative, no_socket, bind_fails, bound}
use computer_network_socket.Server.Reply.{says, CommandReply, line}
use computer_network_socket.Server.Reply
use computer_network_socket.Server.Outcome.{
  Outcome, ServerEffect, opens_socket, closes, closings, answer, answer_closing,
}

-- `args.upper() in ["A", "I"]`
unfoldable pub parse_type : Text → Option TransferType
unfolding text_eq upper text
parse_type args =
    if text_eq (upper args) (text "A")
    then some ascii
    else if text_eq (upper args) (text "I")
    then some image
    else none

unfoldable pub parse_mode : Text → Option TransferMode
unfolding text_eq upper text
parse_mode args =
    if text_eq (upper args) (text "S")
    then some stream
    else if text_eq (upper args) (text "B")
    then some block
    else if text_eq (upper args) (text "C")
    then some compressed
    else none

unfoldable pub handle_type : ClientSession → Option Text → Outcome
unfolding parse_type
handle_type s none = answer s (says Reply.invalid_parameter (text "Missing type argument."))
handle_type s (some args) =
    if is_empty args
    then answer s (says Reply.invalid_parameter (text "Missing type argument."))
    else elim (parse_type args) [
      | none ↦ answer s (
          says Reply.invalid_parameter
            (text "Invalid type argument. Use 'A' for ASCII or 'I' for Binary."))
      | some t ↦
          answer (record s { transfer_type = t })
            (says Reply.command_ok (text "Transfer type set to " ++ (upper args ++ text ".")))
    ]

unfoldable pub handle_mode : ClientSession → Option Text → Outcome
unfolding parse_mode
handle_mode s none = answer s (says Reply.invalid_parameter (text "Missing mode argument."))
handle_mode s (some args) =
    if is_empty args
    then answer s (says Reply.invalid_parameter (text "Missing mode argument."))
    else elim (parse_mode args) [
      | none ↦ answer s (
          says Reply.invalid_parameter (
            text
              "Invalid mode argument. Use 'S' for Stream, 'B' for Block, or 'C' for Compressed."))
      | some m ↦
          answer (record s { transfer_mode = m })
            (says Reply.command_ok (text "Transfer mode set to " ++ (upper args ++ text ".")))
    ]

-- PORT with a number; only 1 … 65535 is a port.
unfoldable pub select_active : System → ClientSession → ℕ → Outcome
unfolding reset_data_connection
select_active sys s port =
    if leb port 0 || ltb 65535 port
    then answer s
        (says Reply.invalid_parameter (text "Invalid port number. Must be between 1 and 65535."))
    else (let (s', closed) = reset_data_connection s in
        let address : Address = record { host = s.client_address.host; port = port } in
        answer_closing
          (
            record s' { active_udp_address = some address; data_connection_mode = some active },
            closed,
          )
          (says Reply.command_ok (
            text "Data connection mode has been set to ACTIVE on port "
            ++ (sys.decimal port ++ text "."))))

unfoldable pub handle_port : System → ClientSession → Option Text → Outcome
unfolding select_active
handle_port sys s none = answer s (says Reply.invalid_parameter (text "Missing port argument."))
handle_port sys s (some args) =
    if is_empty args
    then answer s (says Reply.invalid_parameter (text "Missing port argument."))
    else elim (sys.int args) [
      | none ↦
          answer s (says Reply.invalid_parameter (text "Port argument must be a valid integer."))
      | some (negative n) ↦
          answer s (
            says Reply.invalid_parameter (text "Invalid port number. Must be between 1 and 65535."))
      | some (nonneg port) ↦ select_active sys s port
    ]

-- One reply, after sockets were closed and others opened.
abbrev pub answer_effects : ClientSession → List ServerEffect → CommandReply → Outcome
answer_effects s es r = record { session = s; effects = es; replies = line r ∷ [] }

unfoldable pub handle_pasv : System → ClientSession → Outcome
unfolding reset_data_connection
handle_pasv sys s =
    let (s', closed) = reset_data_connection s in
    elim sys.open_udp [
      | no_socket ↦
          answer_closing (s', closed)
            (says Reply.cannot_open_data_connection (text "Failed to enter passive mode."))
      | bind_fails socket ↦
          answer_effects s' (closings closed ++ (opens_socket socket ∷ closes socket ∷ []))
            (says Reply.cannot_open_data_connection (text "Failed to enter passive mode."))
      | bound socket port ↦
          answer_effects
            (record s' {
              passive_udp_socket = some socket;
              passive_client_address = none;
              data_connection_mode = some passive;
            })
            (closings closed ++ (opens_socket socket ∷ []))
            (says Reply.entering_passive_mode
              (text "Data connection mode set to PASSIVE. UDP_PORT=" ++ sys.decimal port))
    ]
