-- ===== src/Protocol/Passive.antt =====
-- PASV on both sides: the port in the reply of server/control/handlers/transfer_setup_handler.py, as
-- PASSIVE_PORT_PATTERN of client/control/handlers/transfer_setup_handler.py finds it.
use computer_network_socket.Base.{
  ℕ, suc, ◌≤◌, ◌≡◌, refl, ap, ◌∙◌, Bool, true, false, Option, none, some, List, [], ◌∷◌, ◌++◌,
  length, arith, le→leb,
}
use computer_network_socket.Base.Text.{Text, text, is_empty}
use computer_network_socket.Server.Session.{ClientSession, passive}
use computer_network_socket.Server.System.{System, BindAttempt, bound}
use computer_network_socket.Server.Reply.{entering_passive_mode, code}
use computer_network_socket.Server.Handlers.Setup
use computer_network_socket.Protocol.Ending.{line_texts, reply_text, parse_reply_text}
use computer_network_socket.Client.Context.{ensure_data_socket, reset_data_connection, socket_of}
use computer_network_socket.Client.Control.{
  Client, Result, returned, send_and_print, send_command, read_reply_line, drop_data_connection,
  open_data_socket, with_context,
}
use computer_network_socket.Client.Handlers.Simple.{argument}
use computer_network_socket.Client.Handlers.Setup.{handle_pasv, enter_passive, connect_passive}
use computer_network_socket.Client.Connection.{all_digits, digits_value}
use computer_network_socket.Client.Handlers.Patterns.{
  search_udp_port, search_field, after_name, span_digits, port_of,
}

-- How Python writes a port: one to five digits that stand for it.
pub record WritesPort (decimal : ℕ → Text) (port : ℕ) : Type 0 where
  pub digits : all_digits (decimal port) ≡ true
  pub some_digit : is_empty (decimal port) ≡ false
  pub at_most_five : length (decimal port) ≤ 5
  pub value : digits_value 0 (decimal port) ≡ port

span_digits_all : (ds : Text) → all_digits ds ≡ true → span_digits ds ≡ (ds, [])
unfolding span_digits all_digits
span_digits_all [] h = refl
span_digits_all (d ∷ ds) h = ground (arith, span_digits_all ds)

port_of_decimal :
    (decimal : ℕ → Text) (port : ℕ)
    → WritesPort decimal port
    → port_of (span_digits (decimal port)) ≡ some port
port_of_decimal decimal port h =
    ap port_of (span_digits_all (decimal port) h.digits)
    ∙ rw (h.some_digit, le→leb (length (decimal port)) 5 h.at_most_five, h.value)

first_value :
    (o later : Option ℕ) (v : ℕ)
    → o ≡ some v
    → (elim o as (λ o'. Option ℕ) [ none ↦ later | some a ↦ some a ]) ≡ some v
first_value o later v e = rw e

-- The client finds the port that the server has written into its reply.
pub search_udp_port-passive :
    (decimal : ℕ → Text) (port : ℕ)
    → WritesPort decimal port
    → search_udp_port (text "Data connection mode set to PASSIVE. UDP_PORT=" ++ decimal port)
      ≡ some port
unfolding search_udp_port search_field after_name text
search_udp_port-passive decimal port h =
    first_value (port_of (span_digits (decimal port))) _ port (port_of_decimal decimal port h)

-- The client knows the server's port, and the server keeps its socket for it.
pub record PassiveAgreed (host port socket : ℕ) (s : ClientSession) (r : Result Bool) : Type 0 where
  pub client : Client
  pub goes_on : r ≡ returned true client
  pub mode : client.context.data_connection_mode ≡ some passive
  pub peer : client.context.data_peer_address ≡ some (record { host = host; port = port })
  pub server_mode : s.data_connection_mode ≡ some passive
  pub server_socket : s.passive_udp_socket ≡ some socket

abbrev passive_message : (ℕ → Text) → ℕ → Text
passive_message decimal port = text "Data connection mode set to PASSIVE. UDP_PORT=" ++ decimal port

passive_session : ClientSession → ℕ → ClientSession
passive_session s socket = record s {
  passive_udp_socket = some socket;
  active_udp_address = none;
  passive_client_address = none;
  data_connection_mode = some passive;
}

abbrev passive_client : Client → ℕ → ℕ → ℕ → List Text → Client
passive_client c port own own_port more = record c {
  context = record c.context {
    data_socket = some (own, own_port);
    data_connection_mode = some passive;
    data_peer_address = some (record { host = c.context.server_host; port = port });
  };
  replies = more;
  sent = c.sent ++ (text "PASV" ∷ []);
  reads = suc c.reads;
  closed = (c.closed ++ socket_of c.context.data_socket) ++ [];
}

-- The client once it has read the answer.
abbrev asked : Client → List Text → Client
asked c more = record (drop_data_connection c) {
  replies = more;
  sent = (drop_data_connection c).sent ++ (text "PASV" ∷ []);
  reads = suc (drop_data_connection c).reads;
}

server_passive :
    (sys : System) (s : ClientSession) (socket port : ℕ)
    → sys.open_udp ≡ bound socket port
    → ((Setup.handle_pasv sys s).session ≡ passive_session s socket)
      × (line_texts (Setup.handle_pasv sys s).replies
          ≡ reply_text entering_passive_mode (passive_message sys.decimal port) ∷ [])
unfolding Setup.handle_pasv passive_session
server_passive sys s socket port e = (rw (e, Setup.handle_pasv), rw (e, Setup.handle_pasv))

code_passive : code entering_passive_mode ≡ 227
unfolding code
code_passive = refl

client_passive :
    (written : ℕ → Text) (port : ℕ) (works : ℕ → Bool) (open_udp : ℕ → BindAttempt)
    (decimal : ℕ → Text) (own own_port : ℕ) (c : Client) (more : List Text)
    → WritesPort written port
    → 1 ≤ port
    → port ≤ 65535
    → works (length c.sent) ≡ true
    → open_udp 0 ≡ bound own own_port
    → c.replies ≡ reply_text entering_passive_mode (passive_message written port) ∷ more
    → handle_pasv works open_udp decimal none c
      ≡ returned true (passive_client c port own own_port more)
unfolding handle_pasv argument send_and_print send_command read_reply_line drop_data_connection
    reset_data_connection enter_passive connect_passive open_data_socket ensure_data_socket
client_passive written port works open_udp decimal own own_port c more w lo hi sends opens replied =
    rw
      (
        sends,
        replied,
        parse_reply_text entering_passive_mode (passive_message written port),
        code_passive,
        search_udp_port-passive written port w,
        le→leb 1 port lo,
        le→leb port 65535 hi,
        opens,
      )
      (ap
        (λ a. returned true (
          with_context
            (λ k. record k {
              data_connection_mode = some passive;
              data_peer_address = some (record { host = k.server_host; port = port });
            })
            (open_data_socket a (asked c more)).1))
        opens)

-- A PASV for which the server gets a socket leaves both sides in passive mode, the client with the server's host
-- and the port of that socket, where its command can be sent and it gets a socket of its own.
pub handle_pasv-handle_pasv :
    (sys : System) (s : ClientSession) (socket port : ℕ) (works : ℕ → Bool)
    (open_udp : ℕ → BindAttempt) (decimal : ℕ → Text) (own own_port : ℕ) (c : Client)
    (more : List Text)
    → sys.open_udp ≡ bound socket port
    → WritesPort sys.decimal port
    → 1 ≤ port
    → port ≤ 65535
    → works (length c.sent) ≡ true
    → open_udp 0 ≡ bound own own_port
    → c.replies ≡ line_texts (Setup.handle_pasv sys s).replies ++ more
    → PassiveAgreed c.context.server_host port socket
        (Setup.handle_pasv sys s).session
        (handle_pasv works open_udp decimal none c)
unfolding passive_session
handle_pasv-handle_pasv sys s socket port works open_udp decimal own own_port c more e w lo hi sends
      opens replied =
    record {
      client = passive_client c port own own_port more;
      goes_on =
          client_passive sys.decimal port works open_udp decimal own own_port c more w lo hi sends
            opens (replied ∙ ap (λ ls. ls ++ more) (server_passive sys s socket port e).1);
      mode = refl;
      peer = refl;
      server_mode = ap (λ t. t.data_connection_mode) (server_passive sys s socket port e).0;
      server_socket = ap (λ t. t.passive_udp_socket) (server_passive sys s socket port e).0;
    }
