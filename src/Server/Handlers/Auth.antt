-- ===== src/Server/Handlers/Auth.antt =====
-- server/control/handlers/auth_handler.py, server/auth/user_db.py, and NOOP of common_handler.py.
use computer_network_socket.Base.{
  Bool, true, false, not, Option, none, some, List, [], ◌∷◌, ◌++◌, if◌then◌else◌,
}
use computer_network_socket.Base.Text.{Text, text, text_eq, strip, is_empty}
use computer_network_socket.Server.Session.{
  ClientSession, reset_rename_state, reset_data_connection, prepare_control_close, logout,
}
use computer_network_socket.Server.System.{System}
use computer_network_socket.Server.Reply.{says, says_standard, CommandReply, line}
use computer_network_socket.Server.Reply
use computer_network_socket.Server.Outcome.{Outcome, answer, answer_closing, closings}

-- `users[username]`: the `password` entry of the user, where the user exists.
unfoldable pub find_user : List (Text × Option Text) → Text → Option (Option Text)
unfolding text_eq
find_user [] username = none
find_user ((u, password) ∷ users) username =
    if text_eq u username then some password else find_user users username

unfoldable pub user_exists : List (Text × Option Text) → Text → Bool
unfolding find_user
user_exists users username = elim (find_user users username) [ none ↦ false | some p ↦ true ]

unfoldable pub authenticate : List (Text × Option Text) → Text → Text → Bool
unfolding find_user
authenticate users username password = elim (find_user users username) [
  | none ↦ false
  | some none ↦ false
  | some (some p) ↦ text_eq p password
]

unfoldable pub handle_user : System → ClientSession → Option Text → Outcome
unfolding strip reset_rename_state reset_data_connection user_exists
handle_user sys s none = answer s (says Reply.invalid_parameter (text "Missing username argument."))
handle_user sys s (some args) =
    let username = strip args in
    let (s', closed) =
      reset_data_connection
        (reset_rename_state (record s { username = none; authenticated = false })) in
    if is_empty username
    then answer s (says Reply.invalid_parameter (text "Missing username argument."))
    else if not (user_exists sys.users username)
    then answer_closing (s', closed) (says Reply.not_logged_in (text "Invalid username."))
    else answer_closing (record s' { username = some username }, closed)
        (says_standard Reply.need_password)

-- PASS once a user is named.
unfoldable pub check_password : System → ClientSession → Text → Option Text → Outcome
unfolding authenticate
check_password sys s username none =
    answer s (says Reply.invalid_parameter (text "Missing password argument."))
check_password sys s username (some password) =
    if is_empty password
    then answer s (says Reply.invalid_parameter (text "Missing password argument."))
    else if not (authenticate sys.users username password)
    then answer (record s { authenticated = false })
        (says Reply.not_logged_in (text "Authentication failed."))
    else answer (record s { authenticated = true }) (says_standard Reply.login_success)

unfoldable pub handle_pass : System → ClientSession → Option Text → Outcome
unfolding check_password
handle_pass sys s password = elim s.username [
  | none ↦ answer s (says Reply.bad_command_sequence (text "Send USER before PASS."))
  | some username ↦ check_password sys s username password
]

unfoldable pub handle_quit : ClientSession → Outcome
unfolding prepare_control_close logout
handle_quit s =
    let (s₁, closed₁) = prepare_control_close s in
    let (s₂, closed₂) = logout s₁ in
    record {
      session = s₂;
      effects = closings (closed₁ ++ closed₂);
      replies =
          line (record {
            code = Reply.goodbye;
            message = some (text "Goodbye.");
            close_control = true;
          })
          ∷ [];
    }

unfoldable pub handle_noop : ClientSession → Outcome
handle_noop s = answer s (says Reply.command_ok (text "NOOP command successful."))
