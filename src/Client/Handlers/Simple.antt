-- ===== src/Client/Handlers/Simple.antt =====
-- auth_handler.py, common.py, file_handler.py and the commands of navigation_handler.py that send one line and read
-- one reply. Each handler's result says whether the main loop goes on.
use computer_network_socket.Base.{
  ℕ, Bool, true, false, Option, none, some, [], ◌∷◌, ◌++◌, ◌==◌, if◌then◌else◌,
}
use computer_network_socket.Base.Text.{Text, text, strip, is_empty}
use computer_network_socket.Client.Control.{
  Client, Result, returned, ◌>>=◌, send_and_print, send_command, read_reply_line, read_block,
  with_context, drop_data_connection,
}

-- `args.strip() if args else ""`
unfoldable pub argument : Option Text → Text
unfolding strip
argument none = []
argument (some args) = strip args

abbrev pub is_code : ℕ → Option ℕ → Bool
is_code n none = false
is_code n (some m) = m == n

module _ (works : ℕ → Bool) where
  -- One command, whose reply is only printed.
  unfoldable pub send_line : Text → Client → Result Bool
  unfolding send_and_print
  send_line command c = send_and_print works command c >>= λ reply c'. returned true c'

  -- The same with an argument, which may not be missing.
  unfoldable pub send_with_argument : Text → Option Text → Client → Result Bool
  unfolding send_line argument
  send_with_argument word args c =
      let value = argument args in
      if is_empty value then returned true c else send_line (word ++ value) c

  -- The same with an argument that may be missing.
  unfoldable pub send_optional_argument : Text → Option Text → Client → Result Bool
  unfolding send_line argument
  send_optional_argument word args c =
      let value = argument args in
      if is_empty value then send_line word c else send_line (word ++ (32 ∷ value)) c

  unfoldable pub handle_user : Option Text → Client → Result Bool
  unfolding argument send_and_print drop_data_connection text
  handle_user args c =
      let username = argument args in
      if is_empty username
      then returned true c
      else (send_and_print works (text "USER " ++ username) (
            drop_data_connection
              (with_context (λ k. record k { username = none; authenticated = false }) c))
          >>= λ (code, m) c'. returned true (
              with_context
                (λ k. record k { username = if is_code 331 code then some username else none }) c'))

  unfoldable pub handle_pass : Option Text → Client → Result Bool
  unfolding argument send_and_print text
  handle_pass args c =
      let password = argument args in
      if is_empty password
      then returned true c
      else (send_and_print works (text "PASS " ++ password) c >>= λ (code, m) c'.
          returned true (with_context (λ k. record k { authenticated = is_code 230 code }) c'))

  unfoldable pub handle_quit : Client → Result Bool
  unfolding send_and_print drop_data_connection text
  handle_quit c =
      send_and_print works (text "QUIT") (
        with_context (λ k. record k { username = none; authenticated = false })
          (drop_data_connection c))
      >>= λ reply c'. returned false c'

  unfoldable pub handle_noop : Client → Result Bool
  unfolding send_line text
  handle_noop c = send_line (text "NOOP") c

  unfoldable pub handle_help : Option Text → Client → Result Bool
  unfolding argument send_command read_reply_line read_block text
  handle_help args c =
      let word = argument args in
      send_command works (if is_empty word then text "HELP" else text "HELP " ++ word) c >>= λ u c₁.
      read_reply_line c₁ >>= λ first c₂. read_block first c₂ >>= λ v c₃. returned true c₃

  unfoldable pub handle_pwd : Client → Result Bool
  unfolding send_line text
  handle_pwd c = send_line (text "PWD") c

  unfoldable pub handle_cdup : Client → Result Bool
  unfolding send_line text
  handle_cdup c = send_line (text "CDUP") c

  unfoldable pub handle_cwd : Option Text → Client → Result Bool
  unfolding send_with_argument text
  handle_cwd args c = send_with_argument (text "CWD ") args c

  unfoldable pub handle_mkd : Option Text → Client → Result Bool
  unfolding send_with_argument text
  handle_mkd args c = send_with_argument (text "MKD ") args c

  unfoldable pub handle_rmd : Option Text → Client → Result Bool
  unfolding send_with_argument text
  handle_rmd args c = send_with_argument (text "RMD ") args c

  unfoldable pub handle_size : Option Text → Client → Result Bool
  unfolding send_with_argument text
  handle_size args c = send_with_argument (text "SIZE ") args c

  unfoldable pub handle_mdtm : Option Text → Client → Result Bool
  unfolding send_with_argument text
  handle_mdtm args c = send_with_argument (text "MDTM ") args c

  unfoldable pub handle_dele : Option Text → Client → Result Bool
  unfolding send_with_argument text
  handle_dele args c = send_with_argument (text "DELE ") args c

  unfoldable pub handle_rnfr : Option Text → Client → Result Bool
  unfolding send_with_argument text
  handle_rnfr args c = send_with_argument (text "RNFR ") args c

  unfoldable pub handle_rnto : Option Text → Client → Result Bool
  unfolding send_with_argument text
  handle_rnto args c = send_with_argument (text "RNTO ") args c

  unfoldable pub handle_hash : Option Text → Client → Result Bool
  unfolding send_with_argument text
  handle_hash args c = send_with_argument (text "HASH ") args c

  unfoldable pub handle_nlst : Option Text → Client → Result Bool
  unfolding send_optional_argument text
  handle_nlst args c = send_optional_argument (text "NLST") args c

  unfoldable pub handle_stat : Option Text → Client → Result Bool
  unfolding send_optional_argument text
  handle_stat args c = send_optional_argument (text "STAT") args c
