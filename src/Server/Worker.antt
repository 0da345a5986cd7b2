-- ===== src/Server/Worker.antt =====
-- What the thread of a transfer does to the session it works for: `register_data_socket` and
-- `unregister_data_socket` around its data channel, the peer that `_discover_passive_peer` finds, the count of
-- transferred bytes, and the end of `_run` in `run_transfer` of server/control/session.py.
use computer_network_socket.Base.{ℕ, Bool, Option, none, some, not, ◌&&◌}
use computer_network_socket.Base.Text.{Text}
use computer_network_socket.Shared.Address.{Address}
use computer_network_socket.Server.Session.{
  ClientSession, register_data_socket, unregister_data_socket, finish_transfer, send_transfer_reply,
}

pub data WorkerStep : Type 0 where
  registers unregisters counts : ℕ → WorkerStep
  finds_peer : Address → WorkerStep
  ends : Text → WorkerStep

abbrev pub session_or : ClientSession → Option ClientSession → ClientSession
session_or s none = s
session_or s (some t) = t

-- Whether the final reply is sent, if `sendall` succeeds.
unfoldable pub replies_at_end : Bool → ClientSession → Bool
unfolding send_transfer_reply
replies_at_end conn_works s =
    not s.suppress_current_transfer_reply && send_transfer_reply conn_works s

-- The end of `_run`, under the lock of the transfer.
unfoldable pub finish_worker : ClientSession → ClientSession
unfolding finish_transfer
finish_worker s = record (finish_transfer s) { transfer_thread = none }

-- The session after a step. A registration that is refused raises InterruptedError and changes nothing.
unfoldable pub worker_step : WorkerStep → ClientSession → ClientSession
unfolding register_data_socket unregister_data_socket finish_worker
worker_step (registers socket) s = session_or s (register_data_socket socket s)
worker_step (unregisters socket) s = unregister_data_socket socket s
worker_step (counts n) s = record s { transferred_bytes = n }
worker_step (finds_peer address) s = record s { passive_client_address = some address }
worker_step (ends reply) s = finish_worker s
