-- ===== src/Client/Control.antt =====
-- What a handler of the client does with the control connection: commands it sends and reply lines it reads. The
-- replies that will come are a list; when it is used up, the connection is closed and a read raises.
use computer_network_socket.Base.{
  ℕ, suc, Bool, Option, none, some, List, [], ◌∷◌, ◌++◌, length, take, if◌then◌else◌,
}
use computer_network_socket.Base.Text.{Text}
use computer_network_socket.Shared.Address.{Address}
use computer_network_socket.Server.System.{BindAttempt}
use computer_network_socket.Client.Connection.{parse_reply, opens_block, starts_with}
use computer_network_socket.Client.Context.{
  ClientContext, reset_data_connection, ensure_data_socket,
}

-- A file named directly, or one in data/client_downloads.
pub data LocalPath : Type 0 where
  direct downloads : Text → LocalPath

-- What is verified by HASH after an upload: nothing, a local file against a file of the server, or nothing since
-- the server has not named its file.
pub data Verification : Type 0 where
  not_verified : Verification
  hashes : LocalPath → Text → Verification

-- The work of a transfer's thread, with its socket and the peer of passive mode.
pub data Task : Type 0 where
  lists : ℕ → Option Address → Task
  retrieves : Text → ℕ → Option Address → Task
  uploads : List ℕ → Verification → ℕ → Option Address → Task

-- The context, the replies to come, the commands sent, how many replies were read, the sockets closed, the files
-- written, and the work of the thread.
pub record Client : Type 0 where
  pub context : ClientContext
  pub replies : List Text
  pub sent : List Text
  pub reads : ℕ
  pub closed : List ℕ
  pub written : List (LocalPath × List ℕ)
  pub worker : Option Task

-- A value, or ConnectionError or OSError, which the main loop ends on.
pub data Result (A : Type 0) : Type 0 where
  returned : A → Client → Result A
  raised : Client → Result A

infixl 5 ◌>>=◌
abbrev pub ◌>>=◌ : {A B : Type 0} → Result A → (A → Client → Result B) → Result B
returned a c >>= f = f a c
raised c >>= f = raised c

abbrev pub client_of : {A : Type 0} → Result A → Client
client_of (returned a c) = c
client_of (raised c) = c

-- Whether the `sendall` of each number succeeds.
unfoldable pub send_command : (ℕ → Bool) → Text → Client → Result (Unit {0})
send_command works command c =
    if works (length c.sent)
    then returned tt (record c { sent = c.sent ++ (command ∷ []) })
    else raised c

unfoldable pub read_reply_line : Client → Result Text
read_reply_line c = elim c.replies [
  | [] ↦ raised c
  | reply ∷ later ↦ returned reply (record c { replies = later; reads = suc c.reads })
]

-- client/control/handlers/common.py
unfoldable pub send_and_print : (ℕ → Bool) → Text → Client → Result (Option ℕ × Text)
unfolding send_command read_reply_line parse_reply
send_and_print works command c = send_command works command c >>= λ u c₁.
    read_reply_line c₁ >>= λ response c₂. returned (parse_reply response) c₂

-- The reply lines behind a block that ends in a line with the terminator; `none` where it never comes.
unfoldable pub after_block : Text → Text → List Text → Option (List Text)
unfolding starts_with
after_block terminator last [] = if starts_with last terminator then some [] else none
after_block terminator last (next ∷ later) =
    let rest = after_block terminator next later in
    if starts_with last terminator then some (next ∷ later) else rest

-- The rest of the block that a first line opens; the block counts as one reply.
unfoldable pub read_block : Text → Client → Result (Unit {0})
unfolding opens_block after_block take
read_block first c =
    if opens_block first
    then elim (after_block (take 3 first ++ (32 ∷ [])) first c.replies) [
      | none ↦ raised (record c { replies = [] })
      | some rest ↦ returned tt (record c { replies = rest })
    ]
    else returned tt c

-- The context's operations on a client.
abbrev pub with_context : (ClientContext → ClientContext) → Client → Client
with_context f c = record c { context = f c.context }

unfoldable pub drop_data_connection : Client → Client
unfolding reset_data_connection
drop_data_connection c =
    let (context', closed') = reset_data_connection c.context in
    record c { context = context'; closed = c.closed ++ closed' }

-- `none` is an OSError.
unfoldable pub open_data_socket : BindAttempt → Client → Option (ℕ × ℕ) × Client
unfolding ensure_data_socket
open_data_socket attempt c =
    let (socket, context', closed') = ensure_data_socket attempt c.context in
    (socket, record c { context = context'; closed = c.closed ++ closed' })
