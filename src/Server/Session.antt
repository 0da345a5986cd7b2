-- ===== src/Server/Session.antt =====
-- server/control/session.py: the state that the server keeps for one client. Each operation returns the new
-- session and the sockets that it closes. The locks make the operations atomic.
pub mod Cleanup
use computer_network_socket.Base.{
  ℕ, ◌==◌, Bool, true, false, not, ◌&&◌, Option, none, some, List, [], ◌∷◌, ◌++◌, if◌then◌else◌,
}
use computer_network_socket.Base.Text.{Text, upper}
use computer_network_socket.Shared.Address.{Address}

-- An absolute path, or one below the server's root: the names on the way down.
abbrev pub FilePath : Type 0
FilePath = List Text

-- TYPE: ASCII or image. MODE: stream, block or compressed.
pub data TransferType : Type 0 where
  ascii image : TransferType

pub data TransferMode : Type 0 where
  stream block compressed : TransferMode

pub data DataMode : Type 0 where
  active passive : DataMode

-- Sockets are numbered by the system; `control_conn` says whether the control connection is kept.
pub record ClientSession : Type 0 where
  pub client_address : Address
  pub server_root : FilePath
  pub username : Option Text
  pub authenticated : Bool
  pub current_directory : FilePath
  pub transfer_type : TransferType
  pub transfer_mode : TransferMode
  pub data_connection_mode : Option DataMode
  pub current_transfer_command : Option Text
  pub control_conn : Bool
  pub active_udp_address : Option Address
  pub passive_udp_socket : Option ℕ
  pub passive_client_address : Option Address
  pub current_data_socket : Option ℕ
  pub pending_rename_path : Option FilePath
  pub transfer_in_progress : Bool
  pub current_transfer_file : Option FilePath
  pub current_transfer_direction : Option Text
  pub expected_transfer_size : ℕ
  pub transferred_bytes : ℕ
  pub last_activity_at : ℕ
  pub transfer_thread : Option ℕ
  pub cancel_event : Bool
  pub suppress_transfer_reply : Bool
  pub suppress_current_transfer_reply : Bool
  pub cleanup_started : Bool

-- A fresh session.
unfoldable pub new_session : Address → FilePath → ℕ → ClientSession
new_session client root now = record {
  client_address = client;
  server_root = root;
  username = none;
  authenticated = false;
  current_directory = [];
  transfer_type = image;
  transfer_mode = stream;
  data_connection_mode = none;
  current_transfer_command = none;
  control_conn = false;
  active_udp_address = none;
  passive_udp_socket = none;
  passive_client_address = none;
  current_data_socket = none;
  pending_rename_path = none;
  transfer_in_progress = false;
  current_transfer_file = none;
  current_transfer_direction = none;
  expected_transfer_size = 0;
  transferred_bytes = 0;
  last_activity_at = now;
  transfer_thread = none;
  cancel_event = false;
  suppress_transfer_reply = false;
  suppress_current_transfer_reply = false;
  cleanup_started = false;
}

abbrev pub socket_list : Option ℕ → List ℕ
socket_list none = []
socket_list (some socket) = socket ∷ []

-- The session after an operation, and the sockets that the operation closes.
abbrev pub Closing : Type 0
Closing = ClientSession × List ℕ

unfoldable pub reset_data_connection : ClientSession → Closing
reset_data_connection s = (
  record s {
    data_connection_mode = none;
    active_udp_address = none;
    passive_udp_socket = none;
    passive_client_address = none;
  },
  socket_list s.passive_udp_socket,
)

unfoldable pub start_transfer : Text → FilePath → Text → ℕ → ClientSession → ClientSession
start_transfer command file direction expected_size s = record s {
  transfer_in_progress = true;
  current_transfer_command = some (upper command);
  current_transfer_file = some file;
  current_transfer_direction = some direction;
  expected_transfer_size = expected_size;
  transferred_bytes = 0;
  suppress_current_transfer_reply = false;
  cancel_event = false;
}

unfoldable pub finish_transfer : ClientSession → ClientSession
finish_transfer s = record s {
  transfer_in_progress = false;
  current_transfer_command = none;
  current_transfer_file = none;
  current_transfer_direction = none;
  expected_transfer_size = 0;
  transferred_bytes = 0;
  suppress_current_transfer_reply = false;
  cancel_event = false;
}

-- The result says whether a transfer was there to abort.
unfoldable pub request_abort : Bool → ClientSession → ClientSession × Bool
request_abort suppress_worker_reply s =
    if s.transfer_in_progress
    then (
      record s {
        suppress_current_transfer_reply =
            if suppress_worker_reply then true else s.suppress_current_transfer_reply;
        cancel_event = true;
      },
      true,
    )
    else (s, false)

-- `none` is the InterruptedError of a session that is closing.
unfoldable pub register_data_socket : ℕ → ClientSession → Option ClientSession
register_data_socket socket s =
    if s.cleanup_started then none else some (record s { current_data_socket = some socket })

abbrev pub same_socket : Option ℕ → ℕ → Bool
same_socket none socket = false
same_socket (some other) socket = other == socket

unfoldable pub unregister_data_socket : ℕ → ClientSession → ClientSession
unregister_data_socket socket s =
    if same_socket s.current_data_socket socket then record s { current_data_socket = none } else s

unfoldable pub close_current_data_socket : ClientSession → Closing
close_current_data_socket s =
    (record s { current_data_socket = none }, socket_list s.current_data_socket)

unfoldable pub prepare_control_close : ClientSession → Closing
unfolding request_abort close_current_data_socket
prepare_control_close s =
    close_current_data_socket (request_abort true (record s { suppress_transfer_reply = true })).0

-- Whether a worker's reply would be sent; `conn_works` says whether `sendall` succeeds.
unfoldable pub send_transfer_reply : Bool → ClientSession → Bool
send_transfer_reply conn_works s = not s.suppress_transfer_reply && (s.control_conn && conn_works)

unfoldable pub reset_rename_state : ClientSession → ClientSession
reset_rename_state s = record s { pending_rename_path = none }

unfoldable pub record_activity : ℕ → ClientSession → ClientSession
record_activity now s = record s { last_activity_at = now }

unfoldable pub logout : ClientSession → Closing
unfolding reset_rename_state reset_data_connection
logout s =
    reset_data_connection (reset_rename_state (record s { username = none; authenticated = false }))

-- Whether there is a worker that is still running.
abbrev pub runs_on : Option ℕ → Bool → Bool
runs_on none alive = false
runs_on (some thread) alive = alive

-- `alive` says whether the worker is still running once the wait for it is over.
unfoldable pub cleanup : Bool → ClientSession → Closing
unfolding prepare_control_close reset_data_connection reset_rename_state finish_transfer
cleanup alive s =
    if s.cleanup_started
    then (s, [])
    else (let (s₁, closed₁) = prepare_control_close (record s { cleanup_started = true }) in
        let (s₂, closed₂) = reset_data_connection s₁ in
        let s₃ = reset_rename_state (record s₂ { username = none; authenticated = false }) in
        let s₄ : ClientSession = record s₃ { control_conn = false } in
        let s₅ = if s₄.transfer_in_progress then finish_transfer s₄ else s₄ in
        (
          if runs_on s.transfer_thread alive then s₄ else record s₅ { transfer_thread = none },
          closed₁ ++ closed₂,
        ))
