-- ===== src/Client/Handlers/Setup.antt =====
-- client/control/handlers/transfer_setup_handler.py.
use computer_network_socket.Base.{
  ℕ, Bool, true, not, ◌&&◌, Option, none, some, [], ◌∷◌, ◌++◌, leb, if◌then◌else◌,
}
use computer_network_socket.Base.Text.{Text, text, text_eq, upper, is_empty}
use computer_network_socket.Server.Session.{
  TransferType, ascii, image, TransferMode, stream, block, compressed, active, passive,
}
use computer_network_socket.Server.System.{BindAttempt}
use computer_network_socket.Client.Connection.{isdigit, all_digits, digits_value}
use computer_network_socket.Client.Control.{
  Client, Result, returned, ◌>>=◌, send_and_print, with_context, drop_data_connection,
  open_data_socket,
}
use computer_network_socket.Client.Handlers.Simple.{argument, is_code}
use computer_network_socket.Client.Handlers.Patterns.{search_udp_port}

unfoldable pub type_of : Text → Option TransferType
unfolding text_eq
type_of value =
    if text_eq value (b'A' ∷ [])
    then some ascii
    else if text_eq value (b'I' ∷ [])
    then some image
    else none

unfoldable pub mode_of : Text → Option TransferMode
unfolding text_eq
mode_of value =
    if text_eq value (b'S' ∷ [])
    then some stream
    else if text_eq value (b'B' ∷ [])
    then some block
    else if text_eq value (b'C' ∷ [])
    then some compressed
    else none

-- The port to bind: `none` where the argument is not one, and 0 where there is none.
unfoldable pub local_port_of : Text → Option ℕ
unfolding all_digits digits_value
local_port_of [] = some 0
local_port_of (d ∷ ds) =
    if not (isdigit (d ∷ ds))
    then none
    else (let port = digits_value 0 (d ∷ ds) in
        if leb 1 port && leb port 65535 then some port else none)

-- `code is None or code >= 400`
abbrev pub is_refusal : Option ℕ → Bool
is_refusal none = true
is_refusal (some code) = leb 400 code

module _ (works : ℕ → Bool) where
  unfoldable pub handle_type : Option Text → Client → Result Bool
  unfolding argument upper type_of send_and_print text
  handle_type args c =
      let value = upper (argument args) in
      elim (type_of value) [
        | none ↦ returned true c
        | some t ↦ send_and_print works (text "TYPE " ++ value) c >>= λ (code, m) c'.
            returned true (
              if is_code 200 code
              then with_context (λ k. record k { transfer_type = t }) c'
              else c')
      ]

  unfoldable pub handle_mode : Option Text → Client → Result Bool
  unfolding argument upper mode_of send_and_print text
  handle_mode args c =
      let value = upper (argument args) in
      elim (mode_of value) [
        | none ↦ returned true c
        | some m ↦ send_and_print works (text "MODE " ++ value) c >>= λ (code, message) c'.
            returned true (
              if is_code 200 code
              then with_context (λ k. record k { transfer_mode = m }) c'
              else c')
      ]

  module _ (open_udp : ℕ → BindAttempt) (decimal : ℕ → Text) where
    -- From the server's answer to PORT on.
    unfoldable pub finish_port : Option ℕ → Client → Result Bool
    unfolding drop_data_connection
    finish_port code c = returned true (
        if is_refusal code
        then drop_data_connection c
        else with_context (λ k. record k { data_connection_mode = some active }) c)

    unfoldable pub handle_port : Option Text → Client → Result Bool
    unfolding argument local_port_of drop_data_connection open_data_socket send_and_print
        finish_port text
    handle_port args c = elim (local_port_of (argument args)) [
      | none ↦ returned true c
      | some local_port ↦
          let (bound_socket, c') =
            open_data_socket (open_udp local_port) (drop_data_connection c) in
          elim bound_socket [
            | none ↦ returned true c'
            | some (socket, actual_port) ↦
                send_and_print works (text "PORT " ++ decimal actual_port) c' >>= λ (code, m) c''.
                finish_port code c''
          ]
    ]

    -- From a port in the server's answer to PASV on.
    unfoldable pub connect_passive : ℕ → Client → Client
    unfolding open_data_socket
    connect_passive port c =
        let (bound_socket, c') = open_data_socket (open_udp 0) c in
        elim bound_socket [
          | none ↦ c'
          | some socket ↦
              with_context
                (λ k. record k {
                  data_connection_mode = some passive;
                  data_peer_address = some (record { host = k.server_host; port = port });
                })
                c'
        ]

    unfoldable pub enter_passive : Option ℕ → Text → Client → Client
    unfolding search_udp_port connect_passive
    enter_passive code response c =
        if not (is_code 227 code) then c else elim (search_udp_port response) [
          | none ↦ c
          | some port ↦ if leb 1 port && leb port 65535 then connect_passive port c else c
        ]

    unfoldable pub handle_pasv : Option Text → Client → Result Bool
    unfolding argument drop_data_connection send_and_print enter_passive text
    handle_pasv args c =
        if not (is_empty (argument args))
        then returned true c
        else (send_and_print works (text "PASV") (drop_data_connection c) >>= λ (code, response) c'.
            returned true (enter_passive code response c'))
