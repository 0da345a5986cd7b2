-- ===== src/Server/Handlers/Help.antt =====
-- HELP of server/control/handlers/common_handler.py, with its table.
use computer_network_socket.Base.{Option, none, some, List, [], ◌∷◌, ◌++◌, if◌then◌else◌}
use computer_network_socket.Base.Text.{Text, text, text_eq, strip, upper, is_empty}
use computer_network_socket.Server.Session.{ClientSession}
use computer_network_socket.Server.Reply.{says, line, multiline}
use computer_network_socket.Server.Reply
use computer_network_socket.Server.Outcome.{Outcome, answer}

pub record HelpInfo : Type 0 where
  pub command : Text
  pub syntax : Text
  pub description : Text

abbrev pub help : Text → Text → Text → HelpInfo
help c s d = record { command = c; syntax = s; description = d }

abbrev pub help_commands : List HelpInfo
help_commands =
    help (text "USER") (text "USER <username>")
      (text "Send the client's username to initiate an authentication session.")
    ∷ help (text "PASS") (text "PASS <password>")
        (text "Send the client's password to complete authentication.")
    ∷ help (text "QUIT") (text "QUIT")
        (text "Gracefully terminate the control connection and end the session.")
    ∷ help (text "NOOP") (text "NOOP")
        (text "Perform no operation. Used as a keep-alive ping to prevent session timeout.")
    ∷ help (text "HELP") (text "HELP [command]") (
        text
          "Return help information for all supported commands or detailed usage for a specific command.")
    ∷ help (text "PWD") (text "PWD") (text "Print the server's current working directory.")
    ∷ help (text "CWD") (text "CWD <path>")
        (text "Change the server's current working directory to the specified path.")
    ∷ help (text "CDUP") (text "CDUP")
        (text "Change the server's current working directory to its parent directory.")
    ∷ help (text "MKD") (text "MKD <dirname>")
        (text "Create a new directory in the server's current working directory.")
    ∷ help (text "RMD") (text "RMD <dirname>") (text "Remove an empty directory from the server.")
    ∷ help (text "LIST") (text "LIST [path]") (
        text
          "Return a detailed listing of files and directories, including name, size, type, and permissions.")
    ∷ help (text "NLST") (text "NLST [path]")
        (text "Return a plain name-only listing of files and directories.")
    ∷ help (text "STAT") (text "STAT [path]")
        (text "Return a detailed status listing for a file or directory.")
    ∷ help (text "SIZE") (text "SIZE <filename>")
        (text "Return the exact size in bytes of the specified file.")
    ∷ help (text "MDTM") (text "MDTM <filename>")
        (text "Return the UTC modification timestamp in YYYYMMDDhhmmss format.")
    ∷ help (text "TYPE") (text "TYPE {A | I}")
        (text "Set the data transfer type. A means ASCII text, while I means Image or Binary.")
    ∷ help (text "MODE") (text "MODE {S | B | C}")
        (text "Set the transfer mode. S means Stream, B means Block, and C means Compressed.")
    ∷ help (text "PORT") (text "PORT <udp-port>") (
        text
          "Select Active Mode. The client provides its IP address and UDP port for the server data channel.")
    ∷ help (text "PASV") (text "PASV")
        (text "Select Passive Mode. The server opens a UDP data port and returns UDP_PORT=<port>.")
    ∷ help (text "RETR") (text "RETR <filename>")
        (text "Download the specified file from the server through the data channel.")
    ∷ help (text "STOR") (text "STOR <filename>") (
        text
          "Upload a file from the client and store it on the server using the specified filename.")
    ∷ help (text "STOU") (text "STOU <local-file>")
        (text "Upload a local file using a unique server-generated remote filename.")
    ∷ help (text "APPE") (text "APPE <filename>")
        (text "Append uploaded data to an existing file, or create the file if it does not exist.")
    ∷ help (text "ABOR") (text "ABOR")
        (text "Abort the current data transfer and reset the data channel.")
    ∷ help (text "DELE") (text "DELE <filename>")
        (text "Delete the specified file from the server.")
    ∷ help (text "RNFR") (text "RNFR <oldname>")
        (text "Specify the existing file to be renamed. Must be followed by RNTO.")
    ∷ help (text "RNTO") (text "RNTO <newname>")
        (text "Complete the rename operation previously started by RNFR.")
    ∷ help (text "HASH") (text "HASH <filename>")
        (text "Return the SHA-256 hash used for file integrity verification.")
    ∷ []

-- `HELP_COMMANDS.get(command)`
unfoldable pub find_help : List HelpInfo → Text → Option HelpInfo
unfolding text_eq
find_help [] command = none
find_help (info ∷ rest) command =
    if text_eq info.command command then some info else find_help rest command

abbrev pub answer_block : ClientSession → Text → List Text → Outcome
answer_block s first lines = record {
  session = s;
  effects = [];
  replies = multiline Reply.help_message first lines ∷ [];
}

unfoldable pub help_all : ClientSession → Outcome
unfolding text
help_all s = answer_block s (text "Available commands") (
    text "Authentication and common: USER, PASS, QUIT, NOOP, HELP"
    ∷ text "Directory management: PWD, CWD, CDUP, MKD, RMD"
    ∷ text "Directory listing and metadata: LIST, NLST, STAT, SIZE, MDTM"
    ∷ text "Transfer setup: TYPE, MODE, PORT, PASV"
    ∷ text "File transfer: RETR, STOR, STOU, APPE, ABOR"
    ∷ text "File management and integrity: DELE, RNFR, RNTO, HASH"
    ∷ text "Use HELP <command> for detailed syntax and description."
    ∷ [])

unfoldable pub help_command : ClientSession → Text → Outcome
unfolding find_help text
help_command s command = elim (find_help help_commands command) [
  | none ↦ answer s (
      says Reply.command_not_implemented
        (text "No help available for command " ++ (command ++ text ".")))
  | some info ↦
      answer_block s (command ++ text " command help")
        ((text "Syntax: " ++ info.syntax) ∷ (text "Description: " ++ info.description) ∷ [])
]

unfoldable pub handle_help : ClientSession → Option Text → Outcome
unfolding help_all help_command strip upper
handle_help s none = help_all s
handle_help s (some args) =
    if is_empty (strip args) then help_all s else help_command s (upper (strip args))
