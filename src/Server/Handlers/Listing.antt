-- ===== src/Server/Handlers/Listing.antt =====
-- server/control/handlers/navigation_handler.py: LIST, NLST, STAT, SIZE and MDTM.
use computer_network_socket.Base.{
  ℕ, not, Option, none, some, List, [], ◌∷◌, ◌++◌, length, if◌then◌else◌,
}
use computer_network_socket.Base.Text.{Text, text, is_empty}
use computer_network_socket.Server.Session.{FilePath, ClientSession, start_transfer}
use computer_network_socket.Server.System.{System}
use computer_network_socket.Server.Files.{
  Found, found, denied, below, get_absolute_current_directory, resolve_session_path, require_file,
  require_directory,
}
use computer_network_socket.Server.Reply.{says, FtpReplyCode}
use computer_network_socket.Server.Reply
use computer_network_socket.Server.Outcome.{Outcome, sends_listing, answer}
use computer_network_socket.Server.Handlers.File.{with_argument}
use computer_network_socket.Server.Handlers.Transfer.{
  validate_data_connection, run_transfer, filename_missing,
}

-- `separator.join(parts)`
unfoldable pub join_texts : Text → List Text → Text
join_texts separator [] = []
join_texts separator (t ∷ []) = t
join_texts separator (t ∷ u ∷ rest) = t ++ (separator ++ join_texts separator (u ∷ rest))

-- The lines of the entries of a directory; `none` is an OSError.
unfoldable pub format_entries : System → FilePath → List Text → Option (List Text)
format_entries sys directory [] = some []
format_entries sys directory (entry ∷ rest) =
    elim (sys.format_list_entry (below directory (entry ∷ []))) [
      | none ↦ none
      | some formatted ↦ elim (format_entries sys directory rest) [
        | none ↦ none
        | some others ↦ some (formatted ∷ others)
      ]
    ]

-- What LIST and STAT say of a path.
pub data Listing : Type 0 where
  missing neither os_failed : Listing
  lines : List Text → Listing

abbrev pub listed : Option (List Text) → Listing
listed none = os_failed
listed (some entries) = lines entries

unfoldable pub list_path : System → FilePath → Listing
unfolding format_entries
list_path sys path =
    if not (sys.exists path)
    then missing
    else if sys.is_file path
    then elim (sys.format_list_entry path) [ none ↦ os_failed | some entry ↦ lines (entry ∷ []) ]
    else if sys.is_dir path
    then elim (sys.sorted_iterdir path) [
      | none ↦ os_failed
      | some names ↦ listed (format_entries sys path names)
    ]
    else neither

-- `… if args else session.get_absolute_current_directory()`
abbrev pub target_or_current : System → ClientSession → Option Text → (Text → Found) → Found
target_or_current sys s none f = found (get_absolute_current_directory sys s)
target_or_current sys s (some args) f =
    if is_empty args then found (get_absolute_current_directory sys s) else f args

abbrev pub path_missing : ClientSession → Outcome
path_missing s =
    answer s (says Reply.file_unavailable (text "Path does not exist or access denied."))

abbrev pub neither_kind : ClientSession → Outcome
neither_kind s =
    answer s (says Reply.file_unavailable (text "Target is neither a file nor a directory."))

unfoldable pub send_listing : System → ClientSession → FilePath → List ℕ → Outcome
unfolding validate_data_connection start_transfer run_transfer
send_listing sys s target_path listing_data = elim (validate_data_connection s) [
  | some m ↦ answer s (says Reply.cannot_open_data_connection m)
  | none ↦
      run_transfer sys
        (start_transfer (text "LIST") target_path (text "SEND") (length listing_data) s)
        (sends_listing target_path listing_data)
        (says Reply.preliminary_ok (
          text "Opening data connection for directory listing. BYTES="
          ++ sys.decimal (length listing_data)))
]

unfoldable pub list_target : System → ClientSession → Found → Outcome
unfolding list_path send_listing join_texts
list_target sys s (denied m) = answer s (says Reply.file_unavailable m)
list_target sys s (found path) = elim (list_path sys path) [
  | missing ↦ path_missing s
  | neither ↦ neither_kind s
  | os_failed ↦ answer s (says Reply.file_unavailable (text "Failed to list directory."))
  | lines entries ↦ send_listing sys s path (sys.utf8_encode (join_texts (13 ∷ 10 ∷ []) entries))
]

unfoldable pub handle_list : System → ClientSession → Option Text → Outcome
unfolding list_target resolve_session_path get_absolute_current_directory
handle_list sys s args =
    list_target sys s (target_or_current sys s args (λ a. resolve_session_path sys s a))

unfoldable pub list_names : System → ClientSession → Found → Outcome
unfolding join_texts
list_names sys s (denied m) = answer s (says Reply.file_unavailable m)
list_names sys s (found path) = elim (sys.iterdir path) [
  | none ↦ answer s (says Reply.file_unavailable (text "Failed to list directory."))
  | some names ↦ answer s (says Reply.command_ok (join_texts (text " | ") names))
]

unfoldable pub handle_nlst : System → ClientSession → Option Text → Outcome
unfolding list_names require_directory get_absolute_current_directory
handle_nlst sys s args =
    list_names sys s (target_or_current sys s args (λ a. require_directory sys s a))

unfoldable pub show_status : System → ClientSession → Found → Outcome
unfolding list_path join_texts
show_status sys s (denied m) = answer s (says Reply.file_unavailable m)
show_status sys s (found path) = elim (list_path sys path) [
  | missing ↦ path_missing s
  | neither ↦ neither_kind s
  | os_failed ↦ answer s (says Reply.file_unavailable (text "Failed to get path status."))
  | lines entries ↦ answer s (says Reply.command_ok (join_texts (text " | ") entries))
]

unfoldable pub handle_stat : System → ClientSession → Option Text → Outcome
unfolding show_status resolve_session_path get_absolute_current_directory
handle_stat sys s args =
    show_status sys s (target_or_current sys s args (λ a. resolve_session_path sys s a))

abbrev pub tell : ClientSession → FtpReplyCode → Text → Option Text → Outcome
tell s c failure none = answer s (says Reply.file_unavailable failure)
tell s c failure (some t) = answer s (says c t)

unfoldable pub show_size : System → ClientSession → Found → Outcome
show_size sys s (denied m) = answer s (says Reply.file_unavailable m)
show_size sys s (found path) =
    tell s Reply.file_status (text "Failed to get size of file.") (sys.size_text path)

unfoldable pub handle_size : System → ClientSession → Option Text → Outcome
unfolding show_size require_file
handle_size sys s args =
    with_argument (filename_missing s) args (λ a. show_size sys s (require_file sys s a))

unfoldable pub show_modified : System → ClientSession → Found → Outcome
show_modified sys s (denied m) = answer s (says Reply.file_unavailable m)
show_modified sys s (found path) =
    tell s Reply.file_status (text "Failed to get modification time of file.")
      (sys.modified_text path)

unfoldable pub handle_mdtm : System → ClientSession → Option Text → Outcome
unfolding show_modified require_file
handle_mdtm sys s args =
    with_argument (filename_missing s) args (λ a. show_modified sys s (require_file sys s a))
