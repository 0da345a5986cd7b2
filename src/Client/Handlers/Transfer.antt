-- ===== src/Client/Handlers/Transfer.antt =====
-- client/control/handlers/transfer_handler.py up to the start of the worker, and `handle_list` of
-- navigation_handler.py. The progress display, and the size it is given, are left out.
use computer_network_socket.Base.{
  ℕ, Bool, true, not, ◌||◌, Option, none, some, List, ◌++◌, if◌then◌else◌,
}
use computer_network_socket.Base.Text.{Text, text, is_empty}
use computer_network_socket.Shared.Address.{Address}
use computer_network_socket.Codec.{
  Platform, Converted, bytes, not_utf8, bad_blocks, bad_compression, prepare_upload_data,
}
use computer_network_socket.Server.Session.{active, passive}
use computer_network_socket.Server.System.{BindAttempt}
use computer_network_socket.Client.Connection.{parse_reply}
use computer_network_socket.Client.Context.{
  ClientContext, start_transfer, request_transfer_abort, idle, is_finalizing, pending, requested,
}
use computer_network_socket.Client.Control.{
  Client, Result, returned, raised, ◌>>=◌, send_command, read_reply_line, send_and_print,
  open_data_socket, LocalPath, direct, downloads, Verification, not_verified, hashes, Task, lists,
  retrieves, uploads,
}
use computer_network_socket.Client.Handlers.Simple.{argument, is_code}
use computer_network_socket.Client.Handlers.Patterns.{search_remote_name}

-- The machine of the client: whether the `sendall` of each number succeeds, sockets, files and conversions.
pub record Host : Type 0 where
  pub send_works : ℕ → Bool
  pub open_udp : ℕ → BindAttempt
  pub decimal : ℕ → Text
  pub platform : Platform
  pub is_file : LocalPath → Bool
  pub read_bytes : LocalPath → Option (List ℕ)
  pub can_write : LocalPath → Bool
  pub file_hash : LocalPath → Option Text

-- `_read_preliminary_reply`: whether the transfer may begin, and the message.
unfoldable pub read_preliminary_reply : Client → Result (Bool × Text)
unfolding read_reply_line parse_reply
read_preliminary_reply c = read_reply_line c >>= λ response c'.
    let (code, message) = parse_reply response in
    returned (is_code 125 code || is_code 150 code, message) c'

-- `session.start_transfer(worker)`
unfoldable pub begin_worker : Task → Client → Result Bool
unfolding start_transfer
begin_worker task c = elim (start_transfer c.context) [
  | none ↦ raised c
  | some context' ↦ returned true (record c { context = context'; worker = some task })
]

-- `_resolve_local_upload_path`
abbrev pub resolve_local_upload_path : Host → Text → LocalPath
resolve_local_upload_path host filename =
    if host.is_file (direct filename) then direct filename else downloads filename

module _ (host : Host) where
  -- The data socket, which may have to be opened.
  unfoldable pub with_data_socket : Option Address → Client → Result (Option (ℕ × Option Address))
  unfolding open_data_socket
  with_data_socket peer c =
      let (socket, c') = open_data_socket (host.open_udp 0) c in
      elim socket [ none ↦ raised c' | some (number, port) ↦ returned (some (number, peer)) c' ]

  -- `_require_download_channel` and `_require_upload_channel`: the socket, and the peer of passive mode. TYPE and
  -- MODE are always set.
  unfoldable pub require_channel : Client → Result (Option (ℕ × Option Address))
  unfolding with_data_socket
  require_channel c = elim c.context.data_connection_mode [
    | none ↦ returned none c
    | some active ↦ with_data_socket none c
    | some passive ↦ elim c.context.data_peer_address [
      | none ↦ returned none c
      | some peer ↦ with_data_socket (some peer) c
    ]
  ]

  -- Sends the command of a transfer and starts its worker if the server agrees.
  unfoldable pub request_transfer : Text → (Text → Task) → Client → Result Bool
  unfolding send_command read_preliminary_reply begin_worker
  request_transfer command task c = send_command host.send_works command c >>= λ u c₁.
      read_preliminary_reply c₁ >>= λ (ready, message) c₂.
      if ready then begin_worker (task message) c₂ else returned true c₂

  -- `handle_list`; the peer of active mode is not known.
  unfoldable pub handle_list : Option Text → Client → Result Bool
  unfolding argument require_channel request_transfer text
  handle_list args c =
      let path = argument args in
      require_channel c >>= λ channel c'. elim channel [
        | none ↦ returned true c'
        | some (socket, peer) ↦
            request_transfer (if is_empty path then text "LIST" else text "LIST " ++ path)
              (λ message. lists socket peer) c'
      ]

  unfoldable pub handle_retr : Option Text → Client → Result Bool
  unfolding argument require_channel request_transfer text
  handle_retr args c =
      let filename = argument args in
      if is_empty filename
      then returned true c
      else (require_channel c >>= λ channel c'. elim channel [
        | none ↦ returned true c'
        | some (socket, peer) ↦
            request_transfer (text "RETR " ++ filename) (λ message. retrieves filename socket peer)
              c'
      ])

  -- The bytes to upload; `none` is a ClientDataProcessingError or an OSError.
  abbrev pub converted_bytes : Converted → Option (List ℕ)
  converted_bytes (bytes data') = some data'
  converted_bytes not_utf8 = none
  converted_bytes bad_blocks = none
  converted_bytes bad_compression = none

  unfoldable pub upload_data : LocalPath → ClientContext → Option (List ℕ)
  unfolding prepare_upload_data
  upload_data path k = elim (host.read_bytes path) [
    | none ↦ none
    | some content ↦
        converted_bytes (prepare_upload_data host.platform k.transfer_type k.transfer_mode content)
  ]

  -- What STOR, STOU and APPE share: the command, and what is verified once the server has answered.
  unfoldable pub upload :
      (Text → Text) → (LocalPath → Text → Text → Verification) → Option Text → Client → Result Bool
  unfolding argument require_channel upload_data request_transfer
  upload command verify args c =
      let filename = argument args in
      let path = resolve_local_upload_path host filename in
      if is_empty filename
      then returned true c
      else (require_channel c >>= λ channel c'. elim channel [
        | none ↦ returned true c'
        | some (socket, peer) ↦
            if not (host.is_file path)
            then returned true c'
            else elim (upload_data path c'.context) [
              | none ↦ returned true c'
              | some data' ↦
                  request_transfer (command filename)
                    (λ message. uploads data' (verify path filename message) socket peer) c'
            ]
      ])

  unfoldable pub handle_stor : Option Text → Client → Result Bool
  unfolding upload text
  handle_stor =
      upload (λ filename. text "STOR " ++ filename) (λ path filename message. hashes path filename)

  -- The file that the server names is verified, if it names one.
  unfoldable pub verify_unique : LocalPath → Text → Text → Verification
  unfolding search_remote_name
  verify_unique path filename message = elim (search_remote_name message) [
    | none ↦ not_verified
    | some remote ↦ hashes path remote
  ]

  unfoldable pub handle_stou : Option Text → Client → Result Bool
  unfolding upload verify_unique text
  handle_stou = upload (λ filename. text "STOU") verify_unique

  unfoldable pub handle_appe : Option Text → Client → Result Bool
  unfolding upload text
  handle_appe =
      upload (λ filename. text "APPE " ++ filename) (λ path filename message. not_verified)

  unfoldable pub handle_abor : Client → Result Bool
  unfolding request_transfer_abort send_command send_and_print text
  handle_abor c =
      let (context', status) = request_transfer_abort c.context in
      let c' : Client = record c { context = context' } in
      elim status [
        | requested ↦ send_command host.send_works (text "ABOR") c' >>= λ u c''. returned true c''
        | pending ↦ returned true c'
        | is_finalizing ↦ returned true c'
        | idle ↦ send_and_print host.send_works (text "ABOR") c' >>= λ reply c''. returned true c''
      ]
