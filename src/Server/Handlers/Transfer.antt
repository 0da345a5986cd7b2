-- ===== src/Server/Handlers/Transfer.antt =====
-- server/control/handlers/transfer_handler.py up to the worker's start, with `validate_data_connection` of
-- server/control/data_channel.py and `prepare_outgoing_file_data` of server/control/data_transfer_service.py.
use computer_network_socket.Base.{
  Bool, true, false, Option, none, some, [], ◌∷◌, ◌++◌, length, if◌then◌else◌,
}
use computer_network_socket.Base.Text.{Text, text}
use computer_network_socket.Codec.{
  Converted, bytes, not_utf8, bad_blocks, bad_compression, encode_for_transfer,
}
use computer_network_socket.Server.Session.{
  FilePath, ClientSession, active, passive, start_transfer, request_abort,
  close_current_data_socket, reset_data_connection, runs_on,
}
use computer_network_socket.Server.System.{System}
use computer_network_socket.Server.Files.{
  name, Found, found, denied, require_file, resolve_session_path,
}
use computer_network_socket.Server.Reply.{says, line}
use computer_network_socket.Server.Reply
use computer_network_socket.Server.Outcome.{
  Outcome, Job, sends_file, receives_file, starts, crashes, answer, answer_closing,
}
use computer_network_socket.Server.Handlers.File.{with_argument}

-- `some` is the message of a DataTransferError.
unfoldable pub validate_data_connection : ClientSession → Option Text
validate_data_connection s = elim s.data_connection_mode [
  | none ↦
      some (text "Data connection mode is not selected. Use PORT or PASV before transferring data.")
  | some passive ↦ elim s.passive_udp_socket [
    | none ↦ some (text "Passive UDP socket is not available. Use PASV before transferring data.")
    | some socket ↦ none
  ]
  | some active ↦ elim s.active_udp_address [
    | none ↦ some (text "Active data address is not configured. Use PORT before transferring data.")
    | some address ↦ none
  ]
]

-- `run_transfer` up to the thread's start: a thread that still runs is a RuntimeError.
unfoldable pub run_transfer : System → ClientSession → Job → Reply.CommandReply → Outcome
run_transfer sys s job preliminary =
    if runs_on s.transfer_thread sys.thread_alive
    then record { session = s; effects = crashes ∷ []; replies = line preliminary ∷ [] }
    else record {
      session = record s { transfer_thread = some sys.new_thread };
      effects = starts job ∷ [];
      replies = line preliminary ∷ [];
    }

unfoldable pub start_receive_transfer :
    System → ClientSession → Text → FilePath → Bool → Text → Outcome
unfolding validate_data_connection start_transfer run_transfer
start_receive_transfer sys s command file_path appends preliminary_message =
    elim (validate_data_connection s) [
      | some m ↦ answer s (says Reply.cannot_open_data_connection m)
      | none ↦
          run_transfer sys (start_transfer command file_path (text "UPLOAD") 0 s)
            (receives_file file_path appends) (says Reply.preliminary_ok preliminary_message)
    ]

-- The messages of the DataTransferErrors; encoding raises the first only.
abbrev pub conversion_error : Converted → Text
conversion_error (bytes b) = []
conversion_error not_utf8 =
    text "File cannot be transferred using TYPE A because it is not valid UTF-8 text."
conversion_error bad_blocks = []
conversion_error bad_compression = []

abbrev pub send_converted : System → ClientSession → FilePath → Converted → Outcome
send_converted sys s path (bytes outgoing_data) =
    run_transfer sys (start_transfer (text "RETR") path (text "DOWNLOAD") (length outgoing_data) s)
      (sends_file path outgoing_data)
      (says Reply.preliminary_ok (
        text "Opening data channel for "
        ++ (name path ++ (text ". BYTES=" ++ sys.decimal (length outgoing_data)))))
send_converted sys s path not_utf8 =
    answer s (says Reply.cannot_open_data_connection (conversion_error not_utf8))
send_converted sys s path bad_blocks =
    answer s (says Reply.cannot_open_data_connection (conversion_error bad_blocks))
send_converted sys s path bad_compression =
    answer s (says Reply.cannot_open_data_connection (conversion_error bad_compression))

unfoldable pub retrieve : System → ClientSession → Found → Outcome
unfolding validate_data_connection encode_for_transfer start_transfer run_transfer
retrieve sys s (denied m) = answer s (says Reply.file_unavailable m)
retrieve sys s (found path) = elim (validate_data_connection s) [
  | some m ↦ answer s (says Reply.cannot_open_data_connection m)
  | none ↦ elim (sys.read_bytes path) [
    | none ↦ answer s (says Reply.file_unavailable (text "Failed to read the requested file."))
    | some content ↦
        send_converted sys s path
          (encode_for_transfer sys.platform s.transfer_type s.transfer_mode content)
  ]
]

abbrev pub filename_missing : ClientSession → Outcome
filename_missing s = answer s (says Reply.invalid_parameter (text "Missing filename argument."))

unfoldable pub handle_retr : System → ClientSession → Option Text → Outcome
unfolding retrieve require_file
handle_retr sys s args =
    with_argument (filename_missing s) args (λ a. retrieve sys s (require_file sys s a))

abbrev pub receive_at : System → ClientSession → Text → Bool → (FilePath → Text) → Found → Outcome
receive_at sys s command appends message (denied m) = answer s (says Reply.file_unavailable m)
receive_at sys s command appends message (found path) =
    start_receive_transfer sys s command path appends (message path)

unfoldable pub handle_stor : System → ClientSession → Option Text → Outcome
unfolding start_receive_transfer resolve_session_path
handle_stor sys s args = with_argument (filename_missing s) args (λ a.
    receive_at sys s (text "STOR") false
      (λ path. text "Ready to receive " ++ (name path ++ text ".")) (resolve_session_path sys s a))

unfoldable pub handle_stou : System → ClientSession → Outcome
unfolding start_receive_transfer resolve_session_path
handle_stou sys s =
    receive_at sys s (text "STOU") false
      (λ path. text "Ready to receive a uniquely named file. REMOTE_NAME=" ++ sys.unique_filename)
      (resolve_session_path sys s sys.unique_filename)

unfoldable pub handle_appe : System → ClientSession → Option Text → Outcome
unfolding start_receive_transfer resolve_session_path
handle_appe sys s args = with_argument (filename_missing s) args (λ a.
    receive_at sys s (text "APPE") true
      (λ path. text "Ready to append data to " ++ (name path ++ text "."))
      (resolve_session_path sys s a))

unfoldable pub handle_abor : ClientSession → Outcome
unfolding request_abort close_current_data_socket reset_data_connection
handle_abor s =
    let (s₁, aborting) = request_abort true s in
    let (s₂, closed₂) = close_current_data_socket s₁ in
    let (s₃, closed₃) = reset_data_connection s₂ in
    if aborting
    then answer_closing (s₃, closed₂ ++ closed₃)
        (says Reply.transfer_complete (text "Abort command successful."))
    else answer s₁ (says Reply.command_ok (text "No transfer in progress to abort."))
