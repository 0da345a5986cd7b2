-- ===== src/Server/Dispatch/Root.antt =====
-- No command leads outside the server's root.
pub mod FileHandlers
pub mod Directories
pub mod Transfers
pub mod SessionHandlers
use computer_network_socket.Base.{
  inl, inr, ◌≡◌, refl, sym, if◌then◌else◌, Bool, true, false, not, ◌&&◌, ◌||◌, Option, none, some,
  List, [], ◌∷◌, ◌++◌, All, ℕ, leb, ltb, length,
}
use mathlib.Core.Path.{subst}
use computer_network_socket.Base.Cases.{if-lem, option-lem, option-split}
use computer_network_socket.Base.Text.{Text, text, is_empty, strip, upper}
use computer_network_socket.Codec.{
  Converted, bytes, not_utf8, bad_blocks, bad_compression, encode_for_transfer,
}
use computer_network_socket.Server.Session.{
  FilePath, ClientSession, socket_list, record_activity, runs_on, request_abort, start_transfer,
  reset_data_connection, reset_rename_state, prepare_control_close, logout,
  close_current_data_socket,
}
use computer_network_socket.Server.System.{
  System, RmdirAttempt, removed, not_found, not_empty, access_denied, os_error, other_error,
}
use computer_network_socket.Server.Files.{
  relative_to, name, parent, Found, found, denied, get_absolute_current_directory,
  resolve_session_path, require_file, require_directory,
}
use computer_network_socket.Server.Reply.{CommandReply, FtpReplyCode}
use computer_network_socket.Server.Outcome.{
  Outcome, ServerEffect, changes_mode, Job, sends_file, receives_file, sends_listing, answer,
  answer_doing,
}
use computer_network_socket.Server.Handlers.Cases.{
  with_argument-lem, listing-lem, attempt-lem, mkdir-lem, integer-lem, bind-lem, rmdir-lem,
}
use computer_network_socket.Server.Handlers.Auth.{
  user_exists, authenticate, handle_user, handle_pass, handle_quit, handle_noop, check_password,
}
use computer_network_socket.Server.Handlers.Help.{
  handle_help, help_command, help_all, find_help, help_commands,
}
use computer_network_socket.Server.Handlers.Setup.{
  parse_type, parse_mode, handle_type, handle_mode, select_active, handle_port, handle_pasv,
}
use computer_network_socket.Server.Handlers.Navigation.{
  handle_pwd, handle_cwd, handle_cdup, handle_mkd, handle_rmd, enter_directory, make_directory,
  remove_writable, remove_empty_directory, remove_directory, change_to,
}
use computer_network_socket.Server.Handlers.Listing.{
  list_path, join_texts, handle_list, handle_nlst, handle_stat, handle_size, handle_mdtm,
  target_or_current, send_listing, list_target, list_names, show_status, show_size, show_modified,
  tell,
}
use computer_network_socket.Server.Handlers.Transfer.{
  validate_data_connection, run_transfer, start_receive_transfer, send_converted, retrieve,
  receive_at, handle_retr, handle_stor, handle_stou, handle_appe, handle_abor,
}
use computer_network_socket.Server.Handlers.File.{
  delete_file, remember_source, rename_source, hash_file, handle_dele, handle_rnfr, handle_rnto,
  handle_hash,
}
use computer_network_socket.Server.Dispatch.{
  Command, user, pass, quit, noop, help, pwd, cwd, cdup, mkd, rmd, list, nlst, stat, size, mdtm,
  type, mode, port, pasv, retr, stor, stou, appe, abor, dele, rnfr, rnto, hash,
  allowed_before_login, allowed_during_transfer, parse_command, strip_args, route, handle_supported,
  handle_parsed, handle_command,
}
use computer_network_socket.Server.Dispatch.Confined.{
  IsCurrent, Enters, require_directory-Resolved, list_target-Listed, Under, JobUnder, EffectUnder,
  PathUnder, FoundUnder, Confined, closings-Under, resolve_session_path-Under, require_file-Under,
  require_directory-Under,
}
use computer_network_socket.Server.Dispatch.Root.FileHandlers.{
  delete_file-Confined, remember_source-Confined, rename_source-Confined, hash_file-Confined,
  handle_rnto-Confined,
}
use computer_network_socket.Server.Dispatch.Root.Directories.{
  make_directory-Confined, remove_writable-Under, remove_empty_directory-Under,
  remove_directory-Confined, moved, enter_directory-Confined, handle_cdup-Confined,
}
use computer_network_socket.Server.Dispatch.Root.Transfers.{
  run_transfer-Confined, start_receive_transfer-Confined, receive_at-Confined,
  send_converted-Confined, retrieve-Confined, send_listing-Confined, list_target-Confined,
  list_names-Confined, show_status-Confined, tell-Confined, show_size-Confined,
  show_modified-Confined,
}
use computer_network_socket.Server.Dispatch.Root.SessionHandlers.{
  handle_user-Confined, check_password-Confined, handle_pass-Confined, abort_keeps,
  handle_quit-Confined, handle_help-Confined, set, handle_type-Confined, handle_mode-Confined,
  select_active-Confined, handle_port-Confined, handle_pasv-Confined, handle_abor-Confined,
}

module _ (sys : System) (s : ClientSession)
    (h : PathUnder (sys.resolve s.server_root) s.pending_rename_path) where
  abbrev Safe : Outcome → Type 0
  Safe o = Confined (sys.resolve s.server_root) s.server_root (IsCurrent sys s) (Enters sys s) o

  kept : (r : CommandReply) → Safe (answer s r)
  kept r = record { effects = tt; pending = h; root_kept = refl; directory = inl refl }

  route-Confined : (c : Command) (args : Option Text) → Safe (route sys s c args)
  unfolding route handle_noop handle_pwd handle_cwd handle_mkd handle_rmd handle_list handle_nlst
      handle_stat handle_size handle_mdtm handle_retr handle_stor handle_stou handle_appe
      handle_dele handle_rnfr handle_hash
  route-Confined user args = handle_user-Confined sys s h args
  route-Confined pass args = handle_pass-Confined sys s h args
  route-Confined quit args = handle_quit-Confined sys s h
  route-Confined noop args = kept _
  route-Confined help args = handle_help-Confined sys s h args
  route-Confined pwd args = kept _
  route-Confined cwd args = with_argument-lem Safe args (kept _) (λ a.
      enter_directory-Confined sys s h (require_directory sys s a)
        (require_directory-Resolved sys s a))
  route-Confined cdup args = handle_cdup-Confined sys s h
  route-Confined mkd args = with_argument-lem Safe args (kept _) (λ a.
      make_directory-Confined sys s h (resolve_session_path sys s a)
        (resolve_session_path-Under sys s a))
  route-Confined rmd args = with_argument-lem Safe args (kept _) (λ a.
      remove_directory-Confined sys s h (require_directory sys s a)
        (require_directory-Under sys s a))
  route-Confined list args =
      list_target-Confined sys s h
        (target_or_current sys s args (λ a. resolve_session_path sys s a))
        (list_target-Listed sys s args)
  route-Confined nlst args =
      list_names-Confined sys s h (target_or_current sys s args (λ a. require_directory sys s a))
  route-Confined stat args =
      show_status-Confined sys s h
        (target_or_current sys s args (λ a. resolve_session_path sys s a))
  route-Confined size args =
      with_argument-lem Safe args (kept _) (λ a. show_size-Confined sys s h (require_file sys s a))
  route-Confined mdtm args =
      with_argument-lem Safe args (kept _)
        (λ a. show_modified-Confined sys s h (require_file sys s a))
  route-Confined type args = handle_type-Confined sys s h args
  route-Confined mode args = handle_mode-Confined sys s h args
  route-Confined port args = handle_port-Confined sys s h args
  route-Confined pasv args = handle_pasv-Confined sys s h
  route-Confined retr args =
      with_argument-lem Safe args (kept _)
        (λ a. retrieve-Confined sys s h (require_file sys s a) (require_file-Under sys s a))
  route-Confined stor args = with_argument-lem Safe args (kept _) (λ a.
      receive_at-Confined sys s h (text "STOR") false
        (λ path. text "Ready to receive " ++ (name path ++ text ".")) (resolve_session_path sys s a)
        (resolve_session_path-Under sys s a))
  route-Confined stou args =
      receive_at-Confined sys s h (text "STOU") false
        (λ path. text "Ready to receive a uniquely named file. REMOTE_NAME=" ++ sys.unique_filename)
        (resolve_session_path sys s sys.unique_filename)
        (resolve_session_path-Under sys s sys.unique_filename)
  route-Confined appe args = with_argument-lem Safe args (kept _) (λ a.
      receive_at-Confined sys s h (text "APPE") true
        (λ path. text "Ready to append data to " ++ (name path ++ text "."))
        (resolve_session_path sys s a) (resolve_session_path-Under sys s a))
  route-Confined abor args = handle_abor-Confined sys s h
  route-Confined dele args =
      with_argument-lem Safe args (kept _)
        (λ a. delete_file-Confined sys s h (require_file sys s a) (require_file-Under sys s a))
  route-Confined rnfr args =
      with_argument-lem Safe args (kept _)
        (λ a. remember_source-Confined sys s h (require_file sys s a) (require_file-Under sys s a))
  route-Confined rnto args = handle_rnto-Confined sys s h args
  route-Confined hash args =
      with_argument-lem Safe args (kept _) (λ a. hash_file-Confined sys s h (require_file sys s a))

  handle_parsed-Confined :
      (word : Text) (c : Option Command) (args : Option Text)
      → Safe (handle_parsed sys s word c args)
  unfolding handle_parsed handle_supported
  handle_parsed-Confined word none args = kept _
  handle_parsed-Confined word (some c) args =
      if-lem Safe (allowed_before_login c) (route-Confined c args)
        (if-lem Safe (not s.authenticated) (kept _) (route-Confined c args))

-- Where the path that RNFR has left, if any, is below the server's root: whatever the command, every path that
-- it removes, renames, creates, changes, lists or reads for a transfer, or writes from one, is below the root, the
-- path that it leaves for RNTO is too, and the root stays the same. One path is not so checked: LIST without an
-- argument lists the session's current directory, which the command resolves anew. The command leaves that
-- directory as it is, or changes it to the names behind the root in a path that it has resolved.
pub handle_command-Confined :
    (sys : System) (s : ClientSession) (command : Text) (args : Option Text)
    → PathUnder (sys.resolve s.server_root) s.pending_rename_path
    → Confined
        (sys.resolve s.server_root)
        s.server_root
        (IsCurrent sys s)
        (Enters sys s)
        (handle_command sys s command args)
unfolding handle_command record_activity get_absolute_current_directory
handle_command-Confined sys s command args h =
    let word = upper (strip command) in
    if-lem (Confined (sys.resolve s.server_root) s.server_root (IsCurrent sys s) (Enters sys s))
      (s.transfer_in_progress && not (allowed_during_transfer (parse_command word)))
      (kept sys s h _)
      (handle_parsed-Confined sys (record_activity sys.now s) h word (parse_command word)
        (strip_args args))
