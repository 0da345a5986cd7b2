-- ===== src/Client/Main.antt =====
-- client/main_client.py: what the user enters, and the loop over it, between whose turns a worker may end.
use computer_network_socket.Base.{
  ℕ, Bool, true, false, Option, none, some, List, [], ◌∷◌, if◌then◌else◌,
}
use computer_network_socket.Base.Text.{Text, upper, strip, strip_left, is_space, is_empty}
use computer_network_socket.Client.Connection.{parse_reply}
use computer_network_socket.Client.Context.{new_context}
use computer_network_socket.Client.Control.{
  Client, returned, raised, ◌>>=◌, client_of, read_reply_line, drop_data_connection,
}
use computer_network_socket.Client.Handlers.Simple.{is_code}
use computer_network_socket.Client.Handlers.Transfer.{Host}
use computer_network_socket.Client.Handlers.Worker.{TransferEnd, run_worker}
use computer_network_socket.Client.Dispatch.{handle_command}

-- The first word, and what follows it.
unfoldable pub split_word : Text → Text × Text
unfolding is_space
split_word [] = ([], [])
split_word (c ∷ cs) =
    let (word, rest) = split_word cs in if is_space c then ([], c ∷ cs) else (c ∷ word, rest)

-- `parse_command_line`, of a line that is not blank.
unfoldable pub parse_command_line : Text → Text × Option Text
unfolding split_word upper strip strip_left
parse_command_line user_input =
    let (word, rest) = split_word (strip_left user_input) in
    (upper word, if is_empty (strip_left rest) then none else some (strip rest))

-- A line that the user enters, the end of the input, or the end of a worker in the background.
pub data Turn : Type 0 where
  enters : Text → Turn
  end_of_input : Turn
  worker_ends : TransferEnd → Turn

module _ (host : Host) where
  -- Whether the loop goes on.
  unfoldable pub turn : Turn → Client → Bool × Client
  unfolding strip parse_command_line handle_command run_worker
  turn (worker_ends outcome) c = (true, run_worker host outcome c)
  turn end_of_input c = (false, c)
  turn (enters line) c =
      let user_input = strip line in
      let (command, args) = parse_command_line user_input in
      if is_empty user_input then (true, c) else elim (handle_command host command args c) [
        | returned should_continue c' ↦ (should_continue, c')
        | raised c' ↦ (false, c')
      ]

  -- The loop, and its `finally`.
  unfoldable pub loop : List Turn → Client → Client
  unfolding turn drop_data_connection
  loop [] c = c
  loop (t ∷ ts) c =
      let (goes_on, c') = turn t c in
      let later = loop ts c' in if goes_on then later else drop_data_connection c'

  -- `run_client` on a connection: the greeting has to be 220.
  unfoldable pub run_client : List Turn → Client → Client
  unfolding read_reply_line parse_reply loop
  run_client turns c = client_of (
      read_reply_line c >>= λ greeting c'.
      let (code, message) = parse_reply greeting in
      if is_code 220 code then returned tt (loop turns c') else returned tt c')

abbrev pub new_client : ℕ → List Text → Client
new_client server_host replies = record {
  context = new_context server_host;
  replies = replies;
  sent = [];
  reads = 0;
  closed = [];
  written = [];
  worker = none;
}
