-- ===== src/Server/Files.antt =====
-- server/control/filesystem_service.py, and the paths of session.py: where a client's path leads.
use computer_network_socket.Base.{not, ◌||◌, Option, none, some, [], ◌∷◌, ◌++◌, if◌then◌else◌}
use computer_network_socket.Base.Text.{Text, text, text_eq}
use computer_network_socket.Server.Session.{FilePath, ClientSession}
use computer_network_socket.Server.System.{System}

-- `path.relative_to(root)`; `none` is its ValueError.
unfoldable pub relative_to : FilePath → FilePath → Option FilePath
relative_to path [] = some path
relative_to [] (r ∷ root) = none
relative_to (p ∷ path) (r ∷ root) = if text_eq p r then relative_to path root else none

-- `path.parent`
unfoldable pub parent : FilePath → FilePath
parent [] = []
parent (p ∷ []) = []
parent (p ∷ q ∷ path) = p ∷ parent (q ∷ path)

-- `path.name`
unfoldable pub name : FilePath → Text
name [] = []
name (p ∷ []) = p
name (p ∷ q ∷ path) = name (q ∷ path)

-- A path, or the message of a SessionPathError.
pub data Found : Type 0 where
  found : FilePath → Found
  denied : Text → Found

-- `a / b`, for a relative path `b`.
abbrev pub below : FilePath → FilePath → FilePath
below a b = a ++ b

unfoldable pub get_absolute_current_directory : System → ClientSession → FilePath
get_absolute_current_directory sys s =
    sys.resolve (below (sys.resolve s.server_root) s.current_directory)

unfoldable pub resolve_session_path : System → ClientSession → Text → Found
unfolding get_absolute_current_directory
resolve_session_path sys s user_path =
    let candidate = sys.resolve (sys.join (get_absolute_current_directory sys s) user_path) in
    elim (relative_to candidate (sys.resolve s.server_root)) [
      | none ↦ denied (text "Access denied.")
      | some rest ↦ found candidate
    ]

unfoldable pub require_file : System → ClientSession → Text → Found
require_file sys s user_path = elim (resolve_session_path sys s user_path) [
  | denied m ↦ denied m
  | found path ↦
      if not (sys.exists path) || not (sys.is_file path)
      then denied (text "File does not exist or access denied.")
      else found path
]

unfoldable pub require_directory : System → ClientSession → Text → Found
require_directory sys s user_path = elim (resolve_session_path sys s user_path) [
  | denied m ↦ denied m
  | found path ↦
      if not (sys.exists path) || not (sys.is_dir path)
      then denied (text "Directory does not exist or access denied.")
      else found path
]
