-- ===== src/Server/Dispatch/Login.antt =====
-- How a session becomes logged in.
use computer_network_socket.Base.{
  ◌≡◌, refl, Bool, true, false, not, ◌&&◌, Option, none, some, arith,
}
use computer_network_socket.Base.Cases.{if-lem, if-split, option-lem, option-split}
use computer_network_socket.Base.Text.{Text, is_empty, strip, upper}
use computer_network_socket.Server.Session.{
  ClientSession, record_activity, reset_data_connection, reset_rename_state, prepare_control_close,
  logout,
}
use computer_network_socket.Server.System.{System}
use computer_network_socket.Server.Outcome.{Outcome}
use computer_network_socket.Server.Handlers.Auth.{
  user_exists, authenticate, handle_user, handle_pass, handle_quit, handle_noop, check_password,
}
use computer_network_socket.Server.Handlers.Help.{
  handle_help, help_command, help_all, find_help, help_commands,
}
use computer_network_socket.Server.Dispatch.{
  Command, user, pass, quit, noop, help, pwd, cwd, cdup, mkd, rmd, list, nlst, stat, size, mdtm,
  type, mode, port, pasv, retr, stor, stou, appe, abor, dele, rnfr, rnto, hash,
  allowed_before_login, allowed_during_transfer, parse_command, strip_args, route, handle_supported,
  handle_parsed, handle_command,
}

-- The command is PASS with the password of the user that the session names.
pub record GivesPassword (sys : System) (s : ClientSession) (c : Option Command)
    (args : Option Text) : Type 0 where
  pub username : Text
  pub password : Text
  pub is_pass : c ≡ some pass
  pub named : s.username ≡ some username
  pub given : args ≡ some password
  pub right : authenticate sys.users username password ≡ true

-- An outcome is logged in only with cause.
abbrev Cause : Type 0 → Outcome → Type 0
Cause Q o = o.session.authenticated ≡ true → Q

check_password-Cause :
    (sys : System) (s : ClientSession) (u : Text) (args : Option Text)
    → s.authenticated ≡ false
    → s.username ≡ some u
    → Cause (GivesPassword sys s (some pass) args) (check_password sys s u args)
unfolding check_password
check_password-Cause sys s u none out named = λ e. absurd cc
check_password-Cause sys s u (some p) out named =
    let Q = Cause (GivesPassword sys s (some pass) (some p)) in
    if-lem Q (is_empty p) (λ e. absurd cc)
      (if-split Q (not (authenticate sys.users u p)) (λ wrong e. absurd cc)
        (λ right e. record {
          username = u;
          password = p;
          is_pass = refl;
          named = named;
          given = refl;
          right = not-false (authenticate sys.users u p) right;
        }))
  where
    not-false : (b : Bool) → not b ≡ false → b ≡ true
    not-false true h = refl
    not-false false h = absurd cc

handle_pass-Cause :
    (sys : System) (s : ClientSession) (args : Option Text)
    → s.authenticated ≡ false
    → Cause (GivesPassword sys s (some pass) args) (handle_pass sys s args)
unfolding handle_pass
handle_pass-Cause sys s args out =
    option-split (Cause (GivesPassword sys s (some pass) args)) s.username (λ unnamed e. absurd cc)
      (λ u named. check_password-Cause sys s u args out named)

handle_user-Cause :
    (Q : Type 0) (sys : System) (s : ClientSession) (args : Option Text)
    → s.authenticated ≡ false
    → Cause Q (handle_user sys s args)
unfolding handle_user reset_data_connection reset_rename_state
handle_user-Cause Q sys s none out = λ e. absurd cc
handle_user-Cause Q sys s (some args) out =
    if-lem (Cause Q) (is_empty (strip args)) (λ e. absurd cc)
      (if-lem (Cause Q) (not (user_exists sys.users (strip args))) (λ e. absurd cc)
        (λ e. absurd cc))

handle_help-Cause :
    (Q : Type 0) (s : ClientSession) (args : Option Text)
    → s.authenticated ≡ false
    → Cause Q (handle_help s args)
unfolding handle_help help_command help_all
handle_help-Cause Q s none out = λ e. absurd cc
handle_help-Cause Q s (some args) out =
    if-lem (Cause Q) (is_empty (strip args)) (λ e. absurd cc)
      (option-lem (Cause Q) (find_help help_commands (upper (strip args))) (λ e. absurd cc)
        (λ info e. absurd cc))

route-Cause :
    (sys : System) (s : ClientSession) (c : Command) (args : Option Text)
    → allowed_before_login c ≡ true
    → s.authenticated ≡ false
    → Cause (GivesPassword sys s (some c) args) (route sys s c args)
unfolding route handle_noop handle_quit prepare_control_close logout reset_data_connection
    reset_rename_state
route-Cause sys s user args h out = handle_user-Cause _ sys s args out
route-Cause sys s pass args h out = handle_pass-Cause sys s args out
route-Cause sys s quit args h out = λ e. absurd cc
route-Cause sys s noop args h out = λ e. absurd cc
route-Cause sys s help args h out = handle_help-Cause _ s args out
route-Cause sys s pwd args h out = absurd cc
route-Cause sys s cwd args h out = absurd cc
route-Cause sys s cdup args h out = absurd cc
route-Cause sys s mkd args h out = absurd cc
route-Cause sys s rmd args h out = absurd cc
route-Cause sys s list args h out = absurd cc
route-Cause sys s nlst args h out = absurd cc
route-Cause sys s stat args h out = absurd cc
route-Cause sys s size args h out = absurd cc
route-Cause sys s mdtm args h out = absurd cc
route-Cause sys s type args h out = absurd cc
route-Cause sys s mode args h out = absurd cc
route-Cause sys s port args h out = absurd cc
route-Cause sys s pasv args h out = absurd cc
route-Cause sys s retr args h out = absurd cc
route-Cause sys s stor args h out = absurd cc
route-Cause sys s stou args h out = absurd cc
route-Cause sys s appe args h out = absurd cc
route-Cause sys s abor args h out = absurd cc
route-Cause sys s dele args h out = absurd cc
route-Cause sys s rnfr args h out = absurd cc
route-Cause sys s rnto args h out = absurd cc
route-Cause sys s hash args h out = absurd cc

handle_parsed-Cause :
    (sys : System) (s : ClientSession) (name : Text) (c : Option Command) (args : Option Text)
    → s.authenticated ≡ false
    → Cause (GivesPassword sys s c args) (handle_parsed sys s name c args)
unfolding handle_parsed handle_supported
handle_parsed-Cause sys s name none args out = λ e. absurd cc
handle_parsed-Cause sys s name (some c) args out =
    let Q = Cause (GivesPassword sys s (some c) args) in
    if-split Q (allowed_before_login c) (λ before. route-Cause sys s c args before out)
      (λ after.
        if-split Q (not s.authenticated) (λ kept e. absurd cc) (λ into. absurd (ground arith)))

-- A session that is not logged in is logged in after a command only if that was PASS, after a USER, with an
-- argument that is this user's password.
pub handle_command-GivesPassword :
    (sys : System) (s : ClientSession) (command : Text) (args : Option Text)
    → s.authenticated ≡ false
    → (handle_command sys s command args).session.authenticated ≡ true
    → GivesPassword sys s (parse_command (upper (strip command))) (strip_args args)
unfolding handle_command record_activity
handle_command-GivesPassword sys s command args out =
    let name = upper (strip command) in
    let Q = GivesPassword sys s (parse_command name) (strip_args args) in
    if-lem (Cause Q) (s.transfer_in_progress && not (allowed_during_transfer (parse_command name)))
      (λ e. absurd cc)
      (λ e. same (
        handle_parsed-Cause sys (record_activity sys.now s) name (parse_command name)
          (strip_args args) out e))
  where
    same :
        {c : Option Command} {a : Option Text}
        → GivesPassword sys (record_activity sys.now s) c a
        → GivesPassword sys s c a
    same g = record {
      username = g.username;
      password = g.password;
      is_pass = g.is_pass;
      named = g.named;
      given = g.given;
      right = g.right;
    }
