-- ===== src/Server/Reply.antt =====
-- server/control/ftp_codes.py and command_result.py: the codes, and the replies that handlers give.
use computer_network_socket.Base.{ℕ, Bool, Option, none, some, List, [], ◌∷◌, ◌++◌, ◌+◌, ◌/◌, ◌%◌}
use computer_network_socket.Base.Text.{Text, text}
use computer_network_socket.Control.Lines.{crlf}

pub data FtpReplyCode : Type 0 where
  restart_marker service_ready_for_new_user data_connection_already_open preliminary_ok :
      FtpReplyCode
  command_ok file_status help_message service_ready goodbye data_connection_open : FtpReplyCode
  transfer_complete entering_passive_mode login_success file_action_ok path_created : FtpReplyCode
  need_password file_action_pending : FtpReplyCode
  service_unavailable cannot_open_data_connection transfer_aborted : FtpReplyCode
  file_temporarily_unavailable local_processing_error : FtpReplyCode
  syntax_error invalid_parameter command_not_implemented bad_command_sequence : FtpReplyCode
  not_logged_in file_unavailable : FtpReplyCode

-- The number of a code.
unfoldable pub code : FtpReplyCode → ℕ
code restart_marker = 110
code service_ready_for_new_user = 120
code data_connection_already_open = 125
code preliminary_ok = 150
code command_ok = 200
code file_status = 213
code help_message = 214
code service_ready = 220
code goodbye = 221
code data_connection_open = 225
code transfer_complete = 226
code entering_passive_mode = 227
code login_success = 230
code file_action_ok = 250
code path_created = 257
code need_password = 331
code file_action_pending = 350
code service_unavailable = 421
code cannot_open_data_connection = 425
code transfer_aborted = 426
code file_temporarily_unavailable = 450
code local_processing_error = 451
code syntax_error = 500
code invalid_parameter = 501
code command_not_implemented = 502
code bad_command_sequence = 503
code not_logged_in = 530
code file_unavailable = 550

-- The standard message of a code.
unfoldable pub standard_message : FtpReplyCode → Text
unfolding text
standard_message restart_marker = text "Restart marker reply."
standard_message service_ready_for_new_user = text "Service ready in nnn minutes."
standard_message data_connection_already_open =
    text "Data connection already open; transfer starting."
standard_message preliminary_ok = text "File stable; preparing to open data connection."
standard_message command_ok = text "Command okay."
standard_message file_status = text "File status."
standard_message help_message = text "Help message."
standard_message service_ready = text "Service ready for new user."
standard_message goodbye = text "Goodbye."
standard_message data_connection_open = text "Data connection open; no transfer in progress."
standard_message transfer_complete = text "Closing data connection. Transfer complete."
standard_message entering_passive_mode = text "Entering Passive Mode."
standard_message login_success = text "User logged in successfully."
standard_message file_action_ok = text "Requested file action okay, completed."
standard_message path_created = text "Pathname created."
standard_message need_password = text "User name okay, need password."
standard_message file_action_pending = text "Requested file action pending further information."
standard_message service_unavailable = text "Service unavailable."
standard_message cannot_open_data_connection = text "Cannot open data connection."
standard_message transfer_aborted = text "Connection closed; transfer aborted."
standard_message file_temporarily_unavailable = text "File unavailable temporarily."
standard_message local_processing_error =
    text "Requested action aborted: local error in processing."
standard_message syntax_error = text "Syntax error, command not recognized."
standard_message invalid_parameter = text "Syntax error in parameters or arguments."
standard_message command_not_implemented = text "Command not implemented."
standard_message bad_command_sequence = text "Bad sequence of commands."
standard_message not_logged_in = text "Not logged in."
standard_message file_unavailable = text "Requested action not taken. File unavailable."

-- One reply; `close_control` ends the control connection after it.
pub record CommandReply : Type 0 where
  pub code : FtpReplyCode
  pub message : Option Text
  pub close_control : Bool

-- What one turn of a command sends: one line, or the block of `format_multiline`.
pub data Reply : Type 0 where
  line : CommandReply → Reply
  multiline : FtpReplyCode → Text → List Text → Reply

abbrev pub says : FtpReplyCode → Text → CommandReply
says c m = record { code = c; message = some m; close_control = Bool.false }

abbrev pub says_standard : FtpReplyCode → CommandReply
says_standard c = record { code = c; message = none; close_control = Bool.false }

-- A code has three digits.
abbrev pub digits3 : ℕ → Text
digits3 n = (b'0' + n / 100) ∷ (b'0' + n / 10 % 10) ∷ (b'0' + n % 10) ∷ []

abbrev pub code_text : FtpReplyCode → Text
code_text c = digits3 (code c)

-- `FTPReplyCode.format`
unfoldable pub format_code : FtpReplyCode → Option Text → Text
unfolding code standard_message
format_code c none = code_text c ++ (32 ∷ (standard_message c ++ crlf))
format_code c (some m) = code_text c ++ (32 ∷ (m ++ crlf))

abbrev pub with_crlf : List Text → Text
with_crlf [] = []
with_crlf (l ∷ ls) = l ++ (crlf ++ with_crlf ls)

-- `FTPReplyCode.format_multiline`, whose last message is "End".
unfoldable pub format_multiline : FtpReplyCode → Text → List Text → Text
unfolding code text
format_multiline c first lines =
    code_text c
    ++ (45 ∷ (first ++ (crlf ++ (with_crlf lines ++ (code_text c ++ (32 ∷ (text "End" ++ crlf)))))))

-- What `iter_command_replies` gives for one reply.
unfoldable pub format_reply : Reply → Text
unfolding format_code format_multiline
format_reply (line r) = format_code r.code r.message
format_reply (multiline c first lines) = format_multiline c first lines

abbrev pub closes_control : Reply → Bool
closes_control (line r) = r.close_control
closes_control (multiline c first lines) = Bool.false
