-- ===== src/Server/Dispatch.antt =====
-- server/control/command_handler.py: which handler runs, and when none does.
pub mod Gate
pub mod Login
pub mod Confined
pub mod Root
use computer_network_socket.Base.{
  Bool, true, false, not, ◌&&◌, Option, none, some, List, [], ◌∷◌, ◌++◌, if◌then◌else◌,
}
use computer_network_socket.Base.Text.{Text, text, text_eq, strip, upper}
use computer_network_socket.Server.Session.{ClientSession, record_activity}
use computer_network_socket.Server.System.{System}
use computer_network_socket.Server.Reply.{says}
use computer_network_socket.Server.Reply
use computer_network_socket.Server.Outcome.{Outcome, answer}
use computer_network_socket.Server.Handlers.Auth.{
  handle_user, handle_pass, handle_quit, handle_noop,
}
use computer_network_socket.Server.Handlers.Help.{handle_help}
use computer_network_socket.Server.Handlers.Navigation.{
  handle_pwd, handle_cwd, handle_cdup, handle_mkd, handle_rmd,
}
use computer_network_socket.Server.Handlers.Listing.{
  handle_list, handle_nlst, handle_stat, handle_size, handle_mdtm,
}
use computer_network_socket.Server.Handlers.Setup.{
  handle_type, handle_mode, handle_port, handle_pasv,
}
use computer_network_socket.Server.Handlers.Transfer.{
  handle_retr, handle_stor, handle_stou, handle_appe, handle_abor,
}
use computer_network_socket.Server.Handlers.File.{
  handle_dele, handle_rnfr, handle_rnto, handle_hash,
}

-- SUPPORTED_COMMANDS
pub data Command : Type 0 where
  user pass quit noop help : Command
  pwd cwd cdup mkd rmd : Command
  list nlst stat size mdtm : Command
  type mode port pasv : Command
  retr stor stou appe abor : Command
  dele rnfr rnto hash : Command

abbrev pub supported_commands : List (Text × Command)
supported_commands =
    (text "USER", user)
    ∷ (text "PASS", pass)
    ∷ (text "QUIT", quit)
    ∷ (text "NOOP", noop)
    ∷ (text "HELP", help)
    ∷ (text "PWD", pwd)
    ∷ (text "CWD", cwd)
    ∷ (text "CDUP", cdup)
    ∷ (text "MKD", mkd)
    ∷ (text "RMD", rmd)
    ∷ (text "LIST", list)
    ∷ (text "NLST", nlst)
    ∷ (text "STAT", stat)
    ∷ (text "SIZE", size)
    ∷ (text "MDTM", mdtm)
    ∷ (text "TYPE", type)
    ∷ (text "MODE", mode)
    ∷ (text "PORT", port)
    ∷ (text "PASV", pasv)
    ∷ (text "RETR", retr)
    ∷ (text "STOR", stor)
    ∷ (text "STOU", stou)
    ∷ (text "APPE", appe)
    ∷ (text "ABOR", abor)
    ∷ (text "DELE", dele)
    ∷ (text "RNFR", rnfr)
    ∷ (text "RNTO", rnto)
    ∷ (text "HASH", hash)
    ∷ []

unfoldable pub find_command : List (Text × Command) → Text → Option Command
unfolding text_eq
find_command [] t = none
find_command ((known, c) ∷ rest) t = if text_eq known t then some c else find_command rest t

-- `none` is a command that is not supported.
unfoldable pub parse_command : Text → Option Command
unfolding find_command text
parse_command t = find_command supported_commands t

-- COMMANDS_ALLOWED_DURING_TRANSFER
abbrev pub allowed_during_transfer : Option Command → Bool
allowed_during_transfer none = false
allowed_during_transfer (some user) = false
allowed_during_transfer (some pass) = false
allowed_during_transfer (some quit) = true
allowed_during_transfer (some noop) = true
allowed_during_transfer (some help) = false
allowed_during_transfer (some pwd) = false
allowed_during_transfer (some cwd) = false
allowed_during_transfer (some cdup) = false
allowed_during_transfer (some mkd) = false
allowed_during_transfer (some rmd) = false
allowed_during_transfer (some list) = false
allowed_during_transfer (some nlst) = false
allowed_during_transfer (some stat) = true
allowed_during_transfer (some size) = false
allowed_during_transfer (some mdtm) = false
allowed_during_transfer (some type) = false
allowed_during_transfer (some mode) = false
allowed_during_transfer (some port) = false
allowed_during_transfer (some pasv) = false
allowed_during_transfer (some retr) = false
allowed_during_transfer (some stor) = false
allowed_during_transfer (some stou) = false
allowed_during_transfer (some appe) = false
allowed_during_transfer (some abor) = true
allowed_during_transfer (some dele) = false
allowed_during_transfer (some rnfr) = false
allowed_during_transfer (some rnto) = false
allowed_during_transfer (some hash) = false

-- The commands that run before the test of `authenticated`.
abbrev pub allowed_before_login : Command → Bool
allowed_before_login user = true
allowed_before_login pass = true
allowed_before_login quit = true
allowed_before_login noop = true
allowed_before_login help = true
allowed_before_login pwd = false
allowed_before_login cwd = false
allowed_before_login cdup = false
allowed_before_login mkd = false
allowed_before_login rmd = false
allowed_before_login list = false
allowed_before_login nlst = false
allowed_before_login stat = false
allowed_before_login size = false
allowed_before_login mdtm = false
allowed_before_login type = false
allowed_before_login mode = false
allowed_before_login port = false
allowed_before_login pasv = false
allowed_before_login retr = false
allowed_before_login stor = false
allowed_before_login stou = false
allowed_before_login appe = false
allowed_before_login abor = false
allowed_before_login dele = false
allowed_before_login rnfr = false
allowed_before_login rnto = false
allowed_before_login hash = false

unfoldable pub route : System → ClientSession → Command → Option Text → Outcome
unfolding handle_user handle_pass handle_quit handle_noop handle_help handle_pwd handle_cwd
    handle_cdup handle_mkd handle_rmd handle_list handle_nlst handle_stat handle_size handle_mdtm
    handle_type handle_mode handle_port handle_pasv handle_retr handle_stor handle_stou handle_appe
    handle_abor handle_dele handle_rnfr handle_rnto handle_hash
route sys s user args = handle_user sys s args
route sys s pass args = handle_pass sys s args
route sys s quit args = handle_quit s
route sys s noop args = handle_noop s
route sys s help args = handle_help s args
route sys s pwd args = handle_pwd s
route sys s cwd args = handle_cwd sys s args
route sys s cdup args = handle_cdup sys s
route sys s mkd args = handle_mkd sys s args
route sys s rmd args = handle_rmd sys s args
route sys s list args = handle_list sys s args
route sys s nlst args = handle_nlst sys s args
route sys s stat args = handle_stat sys s args
route sys s size args = handle_size sys s args
route sys s mdtm args = handle_mdtm sys s args
route sys s type args = handle_type s args
route sys s mode args = handle_mode s args
route sys s port args = handle_port sys s args
route sys s pasv args = handle_pasv sys s
route sys s retr args = handle_retr sys s args
route sys s stor args = handle_stor sys s args
route sys s stou args = handle_stou sys s
route sys s appe args = handle_appe sys s args
route sys s abor args = handle_abor s
route sys s dele args = handle_dele sys s args
route sys s rnfr args = handle_rnfr sys s args
route sys s rnto args = handle_rnto sys s args
route sys s hash args = handle_hash sys s args

unfoldable pub handle_supported : System → ClientSession → Command → Option Text → Outcome
unfolding route
handle_supported sys s c args =
    if allowed_before_login c
    then route sys s c args
    else if not s.authenticated
    then answer s (
        says Reply.not_logged_in
          (text "Command rejected: please log in beforehand. Use USER and PASS."))
    else route sys s c args

abbrev pub strip_args : Option Text → Option Text
strip_args none = none
strip_args (some args) = some (strip args)

unfoldable pub handle_parsed :
    System → ClientSession → Text → Option Command → Option Text → Outcome
unfolding handle_supported
handle_parsed sys s command none args = answer s (
    says Reply.command_not_implemented (
      text "Command "
      ++ (command ++ text " is not implemented. Enter HELP to see available commands.")))
handle_parsed sys s command (some c) args = handle_supported sys s c args

unfoldable pub handle_command : System → ClientSession → Text → Option Text → Outcome
unfolding handle_parsed parse_command record_activity strip upper
handle_command sys s command args =
    let name = upper (strip command) in
    if s.transfer_in_progress && not (allowed_during_transfer (parse_command name))
    then answer s
        (says Reply.bad_command_sequence (text "Command rejected: a data transfer is in progress."))
    else handle_parsed sys (record_activity sys.now s) name (parse_command name) (strip_args args)
