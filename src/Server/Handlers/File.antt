-- ===== src/Server/Handlers/File.antt =====
-- server/control/handlers/file_handler.py: DELE, RNFR, RNTO and HASH.
use computer_network_socket.Base.{Option, none, some, ◌++◌, if◌then◌else◌}
use computer_network_socket.Base.Text.{Text, text, is_empty}
use computer_network_socket.Server.Session.{FilePath, ClientSession, reset_rename_state}
use computer_network_socket.Server.System.{System, done, fails}
use computer_network_socket.Server.Files.{
  name, Found, found, denied, require_file, resolve_session_path,
}
use computer_network_socket.Server.Reply.{says, CommandReply}
use computer_network_socket.Server.Reply
use computer_network_socket.Server.Outcome.{Outcome, answer, answer_doing, unlinks, renames}

abbrev pub file_missing : ClientSession → Outcome
file_missing s = answer s (says Reply.invalid_parameter (text "Missing file argument."))

-- `if not args`, in front of what a handler does with its argument.
abbrev pub with_argument : Outcome → Option Text → (Text → Outcome) → Outcome
with_argument missing none f = missing
with_argument missing (some args) f = if is_empty args then missing else f args

unfoldable pub delete_file : System → ClientSession → Found → Outcome
delete_file sys s (denied m) = answer s (says Reply.file_unavailable m)
delete_file sys s (found path) = elim (sys.unlink path) [
  | done ↦
      answer_doing s (unlinks path)
        (says Reply.file_action_ok (text "Deleted file " ++ (name path ++ text ".")))
  | fails e ↦ answer s (says Reply.file_unavailable (text "Failed to delete file: " ++ e))
]

unfoldable pub handle_dele : System → ClientSession → Option Text → Outcome
unfolding delete_file require_file
handle_dele sys s args =
    with_argument (file_missing s) args (λ a. delete_file sys s (require_file sys s a))

unfoldable pub remember_source : ClientSession → Found → Outcome
remember_source s (denied m) = answer s (says Reply.file_unavailable m)
remember_source s (found path) =
    answer (record s { pending_rename_path = some path })
      (says Reply.file_action_pending
        (text "Ready to rename " ++ (name path ++ text ". Please provide the new name with RNTO.")))

unfoldable pub handle_rnfr : System → ClientSession → Option Text → Outcome
unfolding remember_source require_file
handle_rnfr sys s args =
    with_argument (file_missing s) args (λ a. remember_source s (require_file sys s a))

-- Whether or not the system renames the file, the remembered source is forgotten.
unfoldable pub rename_source : System → ClientSession → FilePath → Found → Outcome
unfolding reset_rename_state
rename_source sys s source (denied m) = answer s (says Reply.file_unavailable m)
rename_source sys s source (found path) = elim (sys.rename source path) [
  | done ↦
      answer_doing (reset_rename_state s) (renames source path)
        (says Reply.file_action_ok (text "Renamed file to " ++ (name path ++ text ".")))
  | fails e ↦
      answer (reset_rename_state s)
        (says Reply.file_unavailable (text "Failed to rename file: " ++ e))
]

unfoldable pub handle_rnto : System → ClientSession → Option Text → Outcome
unfolding rename_source resolve_session_path
handle_rnto sys s args =
    with_argument (answer s (says Reply.invalid_parameter (text "Missing new name argument."))) args
      (λ a. elim s.pending_rename_path [
        | none ↦
            answer s
              (says Reply.bad_command_sequence (text "No rename source selected. Use RNFR first."))
        | some source ↦ rename_source sys s source (resolve_session_path sys s a)
      ])

unfoldable pub hash_file : System → ClientSession → Found → Outcome
hash_file sys s (denied m) = answer s (says Reply.file_unavailable m)
hash_file sys s (found path) = elim (sys.sha256 path) [
  | none ↦
      answer s (says Reply.file_unavailable (text "Failed to read file while computing SHA-256."))
  | some digest ↦
      answer s (says Reply.command_ok (text "SHA-256 " ++ (name path ++ (text " " ++ digest))))
]

unfoldable pub handle_hash : System → ClientSession → Option Text → Outcome
unfolding hash_file require_file
handle_hash sys s args =
    with_argument (file_missing s) args (λ a. hash_file sys s (require_file sys s a))
