-- ===== src/Tests/Commands.antt =====
-- Commands of one client on a small file system: the root /srv with the file a.txt.
use computer_network_socket.Base.{◌≡◌, refl, true, false, none, some, [], ◌∷◌, ◌++◌}
use computer_network_socket.Base.Text.{text, text_eq, strip, upper}
use computer_network_socket.Codec.{Platform}
use computer_network_socket.Server.Session.{FilePath, ClientSession, new_session}
use computer_network_socket.Server.Session.{
  cleanup, prepare_control_close, request_abort, close_current_data_socket, reset_data_connection,
}
use computer_network_socket.Server.Session.Cleanup.{Released, cleanup-Released}
use computer_network_socket.Server.System.{System, done, made, removed, no_socket}
use computer_network_socket.Server.Files.{
  relative_to, resolve_session_path, get_absolute_current_directory,
}
use computer_network_socket.Server.Outcome.{renames}
use computer_network_socket.Server.Handlers.Auth.{handle_pass, check_password, authenticate}
use computer_network_socket.Server.Handlers.File.{handle_rnto, rename_source}
use computer_network_socket.Server.Dispatch.{
  handle_command, handle_parsed, handle_supported, parse_command, route,
}
use computer_network_socket.Server.Dispatch.Login.{GivesPassword, handle_command-GivesPassword}
use computer_network_socket.Server.Dispatch.Confined.{IsCurrent, Enters, Confined}
use computer_network_socket.Server.Dispatch.Root.{handle_command-Confined}

abbrev pub unix : Platform
unix = record {
  utf8_decode = some;
  utf8_encode = λ t. t;
  compress = λ content. content;
  decompress = some;
  linesep = 10 ∷ [];
}

abbrev pub srv : FilePath
srv = text "srv" ∷ []

-- A system whose paths have no links and no dots, and whose operations succeed.
abbrev pub small : System
small = record {
  join = λ path t. path ++ (t ∷ []);
  resolve = λ path. path;
  exists = λ path. true;
  is_file = λ path. true;
  is_dir = λ path. false;
  unlink = λ path. done;
  rename = λ source target. done;
  mkdir = λ path. made;
  rmdir = λ path. removed;
  rmdir_writable = λ path. removed;
  on_windows = false;
  read_bytes = λ path. none;
  iterdir = λ path. none;
  sorted_iterdir = λ path. none;
  format_list_entry = λ path. none;
  size_text = λ path. none;
  modified_text = λ path. none;
  sha256 = λ path. none;
  unique_filename = text "file_0.dat";
  utf8_encode = λ t. t;
  decimal = λ n. [];
  int = λ t. none;
  open_udp = no_socket;
  new_thread = 0;
  thread_alive = false;
  platform = unix;
  now = 7;
  users = (text "bob", some (text "pw")) ∷ [];
}

abbrev pub guest : ClientSession
guest = new_session (record { host = 1; port = 4000 }) srv 0

abbrev named : ClientSession
named = record guest { username = some (text "bob") }

abbrev pub renaming : ClientSession
renaming = record guest {
  username = some (text "bob");
  authenticated = true;
  pending_rename_path = some (text "srv" ∷ text "a.txt" ∷ []);
}

-- A session in the middle of a transfer.
abbrev busy : ClientSession
busy = record renaming {
  transfer_in_progress = true;
  passive_udp_socket = some 5;
  current_data_socket = some 6;
}

cleanup-Released_example : Released busy (cleanup true busy)
unfolding new_session
cleanup-Released_example = cleanup-Released true busy refl

busy_closes : (cleanup true busy).1 ≡ 6 ∷ 5 ∷ []
unfolding new_session cleanup prepare_control_close request_abort close_current_data_socket
    reset_data_connection
busy_closes = refl

pass_logs_in :
    (handle_command small named (text " pass ") (some (text "pw"))).session.authenticated ≡ true
unfolding handle_command handle_parsed handle_supported route parse_command handle_pass
    check_password authenticate new_session
pass_logs_in = refl

handle_command-GivesPassword_example :
    GivesPassword small named
      (parse_command (upper (strip (text " pass "))))
      (some (strip (text "pw")))
unfolding new_session
handle_command-GivesPassword_example =
    handle_command-GivesPassword small named (text " pass ") (some (text "pw")) refl pass_logs_in

rnto_renames :
    (handle_command small renaming (text "RNTO") (some (text "b.txt"))).effects
    ≡ renames (text "srv" ∷ text "a.txt" ∷ []) (text "srv" ∷ text "b.txt" ∷ []) ∷ []
unfolding handle_command handle_parsed handle_supported route parse_command handle_rnto
    rename_source resolve_session_path get_absolute_current_directory new_session relative_to
rnto_renames = refl

handle_command-Confined_example :
    Confined srv srv
      (IsCurrent small renaming)
      (Enters small renaming)
      (handle_command small renaming (text "RNTO") (some (text "b.txt")))
unfolding new_session relative_to text_eq text
handle_command-Confined_example =
    handle_command-Confined small renaming (text "RNTO") (some (text "b.txt"))
      (text "a.txt" ∷ [], refl)
