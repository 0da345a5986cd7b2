-- ===== src/Client/Context.antt =====
-- client/control/context.py: the state that the client keeps. The transfer's lock makes the operations on its phase
-- atomic. The types and modes are the server's.
use computer_network_socket.Base.{
  ℕ, Bool, true, false, Option, none, some, List, [], ◌∷◌, if◌then◌else◌,
}
use computer_network_socket.Base.Text.{Text}
use computer_network_socket.Shared.Address.{Address}
use computer_network_socket.Server.Session.{TransferType, TransferMode, DataMode, image, stream}
use computer_network_socket.Server.System.{BindAttempt, no_socket, bind_fails, bound}

pub data TransferPhase : Type 0 where
  data_phase finalizing : TransferPhase

-- `data_socket` is the socket's number and the port it is bound to.
pub record ClientContext : Type 0 where
  pub server_host : ℕ
  pub username : Option Text
  pub authenticated : Bool
  pub transfer_type : TransferType
  pub transfer_mode : TransferMode
  pub data_connection_mode : Option DataMode
  pub data_socket : Option (ℕ × ℕ)
  pub data_peer_address : Option Address
  pub transfer_cancel_event : Bool
  pub transfer_phase : Option TransferPhase
  pub abort_requested : Bool

abbrev pub new_context : ℕ → ClientContext
new_context host = record {
  server_host = host;
  username = none;
  authenticated = false;
  transfer_type = image;
  transfer_mode = stream;
  data_connection_mode = none;
  data_socket = none;
  data_peer_address = none;
  transfer_cancel_event = false;
  transfer_phase = none;
  abort_requested = false;
}

abbrev pub socket_of : Option (ℕ × ℕ) → List ℕ
socket_of none = []
socket_of (some (socket, port)) = socket ∷ []

-- The context, and the sockets that were closed.
unfoldable pub reset_data_connection : ClientContext → ClientContext × List ℕ
reset_data_connection c = (
  record c { data_socket = none; data_peer_address = none; data_connection_mode = none },
  socket_of c.data_socket,
)

-- The socket and its port, or `none` for an OSError, with the new context and the sockets that were closed.
unfoldable pub ensure_data_socket :
    BindAttempt → ClientContext → Option (ℕ × ℕ) × ClientContext × List ℕ
ensure_data_socket attempt c = elim c.data_socket [
  | some known ↦ (some known, c, [])
  | none ↦ elim attempt [
    | no_socket ↦ (none, c, [])
    | bind_fails socket ↦ (none, c, socket ∷ [])
    | bound socket port ↦ (some (socket, port), record c { data_socket = some (socket, port) }, [])
  ]
]

abbrev pub is_some {ℓ} : {A : Type ℓ} → Option A → Bool
is_some none = false
is_some (some a) = true

abbrev pub transfer_in_progress : ClientContext → Bool
transfer_in_progress c = is_some c.transfer_phase

-- `none` is the RuntimeError of a transfer that runs already.
unfoldable pub start_transfer : ClientContext → Option ClientContext
start_transfer c =
    if transfer_in_progress c
    then none
    else some (record c {
      transfer_cancel_event = false;
      abort_requested = false;
      transfer_phase = some data_phase;
    })

-- The `finally` of `_run`.
unfoldable pub finish_transfer : ClientContext → ClientContext × List ℕ
unfolding reset_data_connection
finish_transfer c =
    let (c', closed) = reset_data_connection c in
    (
      record c' { transfer_phase = none; abort_requested = false; transfer_cancel_event = false },
      closed,
    )

pub data AbortStatus : Type 0 where
  idle is_finalizing pending requested : AbortStatus

abbrev abort_in_phase : ClientContext → TransferPhase → ClientContext × AbortStatus
abort_in_phase c finalizing = (c, is_finalizing)
abort_in_phase c data_phase =
    if c.abort_requested
    then (c, pending)
    else (record c { abort_requested = true; transfer_cancel_event = true }, requested)

unfoldable pub request_transfer_abort : ClientContext → ClientContext × AbortStatus
request_transfer_abort c = elim c.transfer_phase [
  | none ↦ (c, idle)
  | some phase ↦ abort_in_phase c phase
]

-- The result says whether an abort was asked for.
unfoldable pub mark_transfer_finalizing : ClientContext → ClientContext × Bool
mark_transfer_finalizing c = (record c { transfer_phase = some finalizing }, c.abort_requested)
