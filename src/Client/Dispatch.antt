-- ===== src/Client/Dispatch.antt =====
-- client/control/command_handler.py: which handler of the client runs. The result says whether the main loop goes on.
pub mod InStep
use computer_network_socket.Base.{
  ℕ, Bool, true, false, not, Option, none, some, List, [], ◌∷◌, if◌then◌else◌,
}
use computer_network_socket.Base.Text.{Text, upper}
use computer_network_socket.Server.Dispatch.{
  Command, user, pass, quit, noop, help, pwd, cwd, cdup, mkd, rmd, list, nlst, stat, size, mdtm,
  type, mode, port, pasv, retr, stor, stou, appe, abor, dele, rnfr, rnto, hash, parse_command,
}
use computer_network_socket.Client.Context.{transfer_in_progress}
use computer_network_socket.Client.Control.{Client, Result, returned}
use computer_network_socket.Client.Handlers.Simple.{
  handle_pwd, handle_cdup, handle_cwd, handle_mkd, handle_rmd, handle_size, handle_mdtm,
  handle_dele, handle_rnfr, handle_rnto, handle_hash, handle_nlst, handle_stat, handle_user,
  handle_pass, handle_quit, handle_noop, handle_help,
}
use computer_network_socket.Client.Handlers.Setup.{
  handle_type, handle_mode, handle_port, handle_pasv,
}
use computer_network_socket.Client.Handlers.Transfer.{
  Host, handle_list, handle_retr, handle_stor, handle_stou, handle_appe, handle_abor,
}

-- The commands that the client takes before it has logged in.
abbrev pub before_login : Command → Bool
before_login user = true
before_login pass = true
before_login help = true
before_login noop = true
before_login quit = true
before_login pwd = false
before_login cwd = false
before_login cdup = false
before_login mkd = false
before_login rmd = false
before_login list = false
before_login nlst = false
before_login stat = false
before_login size = false
before_login mdtm = false
before_login type = false
before_login mode = false
before_login port = false
before_login pasv = false
before_login retr = false
before_login stor = false
before_login stou = false
before_login appe = false
before_login abor = false
before_login dele = false
before_login rnfr = false
before_login rnto = false
before_login hash = false

abbrev pub is_abor : Option Command → Bool
is_abor none = false
is_abor (some c) = elim c [ abor ↦ true | _ ↦ false ]

module _ (host : Host) where
  unfoldable pub route : Command → Option Text → Client → Result Bool
  unfolding handle_user handle_pass handle_help handle_noop handle_quit handle_pwd handle_cdup
      handle_cwd handle_mkd handle_rmd handle_size handle_mdtm handle_dele handle_rnfr handle_rnto
      handle_hash handle_nlst handle_stat handle_list handle_type handle_mode handle_port
      handle_pasv handle_retr handle_stor handle_stou handle_appe handle_abor
  route user args c = handle_user host.send_works args c
  route pass args c = handle_pass host.send_works args c
  route help args c = handle_help host.send_works args c
  route noop args c = handle_noop host.send_works c
  route quit args c = handle_quit host.send_works c
  route pwd args c = handle_pwd host.send_works c
  route cwd args c = handle_cwd host.send_works args c
  route cdup args c = handle_cdup host.send_works c
  route mkd args c = handle_mkd host.send_works args c
  route rmd args c = handle_rmd host.send_works args c
  route list args c = handle_list host args c
  route nlst args c = handle_nlst host.send_works args c
  route stat args c = handle_stat host.send_works args c
  route size args c = handle_size host.send_works args c
  route mdtm args c = handle_mdtm host.send_works args c
  route type args c = handle_type host.send_works args c
  route mode args c = handle_mode host.send_works args c
  route port args c = handle_port host.send_works host.open_udp host.decimal args c
  route pasv args c = handle_pasv host.send_works host.open_udp host.decimal args c
  route retr args c = handle_retr host args c
  route stor args c = handle_stor host args c
  route stou args c = handle_stou host args c
  route appe args c = handle_appe host args c
  route abor args c = handle_abor host c
  route dele args c = handle_dele host.send_works args c
  route rnfr args c = handle_rnfr host.send_works args c
  route rnto args c = handle_rnto host.send_works args c
  route hash args c = handle_hash host.send_works args c

  -- With no transfer in progress. The server's commands are the client's; another word is not sent.
  unfoldable pub handle_idle : Option Command → Option Text → Client → Result Bool
  unfolding route
  handle_idle none args c = returned true c
  handle_idle (some command) args c =
      if before_login command
      then route command args c
      else if not c.context.authenticated
      then returned true c
      else route command args c

  unfoldable pub handle_command : Text → Option Text → Client → Result Bool
  unfolding handle_idle handle_abor upper parse_command
  handle_command word args c =
      let command = parse_command (upper word) in
      if transfer_in_progress c.context
      then if is_abor command then handle_abor host c else returned true c
      else handle_idle command args c
