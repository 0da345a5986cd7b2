-- ===== src/Server/Handlers/Navigation.antt =====
-- server/control/handlers/navigation_handler.py: PWD, CWD, CDUP, MKD and RMD.
use computer_network_socket.Base.{not, ◌||◌, Option, none, some, List, [], ◌∷◌, ◌++◌, if◌then◌else◌}
use computer_network_socket.Base.Text.{Text, text}
use computer_network_socket.Server.Session.{FilePath, ClientSession}
use computer_network_socket.Server.System.{
  System, made, exists_already, mkdir_fails, RmdirAttempt, removed, not_found, not_empty,
  access_denied, os_error, other_error,
}
use computer_network_socket.Server.Files.{
  relative_to, parent, name, Found, found, denied, get_absolute_current_directory,
  resolve_session_path, require_directory,
}
use computer_network_socket.Server.Reply.{says}
use computer_network_socket.Server.Reply
use computer_network_socket.Server.Outcome.{
  Outcome, ServerEffect, answer, answer_doing, makes_directory, removes_directory, changes_mode,
  crashes,
}
use computer_network_socket.Server.Handlers.File.{with_argument}

-- `path.as_posix()` of a relative path.
abbrev pub as_posix : FilePath → Text
as_posix [] = text "."
as_posix (p ∷ []) = p
as_posix (p ∷ q ∷ path) = p ++ (text "/" ++ as_posix (q ∷ path))

abbrev pub display : FilePath → Text
display [] = text "/"
display (p ∷ path) = text "/" ++ as_posix (p ∷ path)

unfoldable pub get_display_current_directory : ClientSession → Text
get_display_current_directory s = display s.current_directory

abbrev pub quoted : Text → Text
quoted t = text "\"" ++ (t ++ text "\"")

unfoldable pub handle_pwd : ClientSession → Outcome
unfolding get_display_current_directory
handle_pwd s = answer s (says Reply.path_created (quoted (get_display_current_directory s)))

abbrev pub change_to : ClientSession → FilePath → Outcome
change_to s directory =
    let s' : ClientSession = record s { current_directory = directory } in
    answer s'
      (says Reply.file_action_ok (text "Changed working directory to " ++ display directory))

-- `require_directory` has found the path below the root; a ValueError here would not be caught.
unfoldable pub enter_directory : System → ClientSession → Found → Outcome
enter_directory sys s (denied m) = answer s (says Reply.file_unavailable m)
enter_directory sys s (found path) = elim (relative_to path (sys.resolve s.server_root)) [
  | none ↦ record { session = s; effects = crashes ∷ []; replies = [] }
  | some directory ↦ change_to s directory
]

abbrev pub directory_missing : ClientSession → Text → Outcome
directory_missing s m = answer s (says Reply.invalid_parameter m)

unfoldable pub handle_cwd : System → ClientSession → Option Text → Outcome
unfolding enter_directory require_directory
handle_cwd sys s args =
    with_argument (directory_missing s (text "Missing directory argument.")) args
      (λ a. enter_directory sys s (require_directory sys s a))

unfoldable pub handle_cdup : System → ClientSession → Outcome
unfolding get_absolute_current_directory
handle_cdup sys s =
    let parent_directory = sys.resolve (parent (get_absolute_current_directory sys s)) in
    elim (relative_to parent_directory (sys.resolve s.server_root)) [
      | none ↦
          answer s
            (says Reply.file_unavailable (text "Cannot move to parent directory. Already at root."))
      | some relative_parent ↦
          if not (sys.exists parent_directory) || not (sys.is_dir parent_directory)
          then answer s (
              says Reply.file_unavailable
                (text "Parent directory does not exist or access denied."))
          else change_to s relative_parent
    ]

unfoldable pub make_directory : System → ClientSession → Found → Outcome
make_directory sys s (denied m) = answer s (says Reply.file_unavailable m)
make_directory sys s (found path) = elim (sys.mkdir path) [
  | made ↦ answer_doing s (makes_directory path) (says Reply.path_created (quoted (name path)))
  | exists_already ↦ answer s (says Reply.file_unavailable (text "Directory already exists."))
  | mkdir_fails ↦ answer s (says Reply.file_unavailable (text "Failed to create directory."))
]

unfoldable pub handle_mkd : System → ClientSession → Option Text → Outcome
unfolding make_directory resolve_session_path
handle_mkd sys s args =
    with_argument (directory_missing s (text "Missing directory name argument.")) args
      (λ a. make_directory sys s (resolve_session_path sys s a))

-- The second attempt of `_remove_empty_directory`, on Windows: with the directory made writable.
unfoldable pub remove_writable : System → FilePath → List ServerEffect × RmdirAttempt
remove_writable sys path = elim (sys.rmdir_writable path) [
  | removed ↦ (changes_mode path ∷ removes_directory path ∷ [], removed)
  | e ↦ (changes_mode path ∷ (if sys.exists path then changes_mode path ∷ [] else []), e)
]

unfoldable pub remove_empty_directory : System → FilePath → List ServerEffect × RmdirAttempt
unfolding remove_writable
remove_empty_directory sys path = elim (sys.rmdir path) [
  | removed ↦ (removes_directory path ∷ [], removed)
  | access_denied ↦ if sys.on_windows then remove_writable sys path else ([], access_denied)
  | e ↦ ([], e)
]

abbrev pub rmdir_reply : FilePath → RmdirAttempt → Reply.CommandReply
rmdir_reply path removed = says Reply.file_action_ok (text "Removed directory " ++ name path)
rmdir_reply path not_found = says Reply.file_unavailable (text "Directory does not exist.")
rmdir_reply path not_empty = says Reply.file_unavailable (text "Directory is not empty.")
rmdir_reply path access_denied =
    says Reply.file_unavailable (text "Access denied while removing directory.")
rmdir_reply path os_error = says Reply.file_unavailable (text "Directory could not be removed.")
rmdir_reply path other_error = says Reply.file_unavailable (text "Failed to remove directory.")

unfoldable pub remove_directory : System → ClientSession → Found → Outcome
unfolding remove_empty_directory
remove_directory sys s (denied m) = answer s (says Reply.file_unavailable m)
remove_directory sys s (found path) =
    let (es, attempt) = remove_empty_directory sys path in
    record { session = s; effects = es; replies = Reply.line (rmdir_reply path attempt) ∷ [] }

unfoldable pub handle_rmd : System → ClientSession → Option Text → Outcome
unfolding remove_directory require_directory
handle_rmd sys s args =
    with_argument (directory_missing s (text "Missing directory name argument.")) args
      (λ a. remove_directory sys s (require_directory sys s a))
