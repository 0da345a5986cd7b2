-- ===== src/Tests/Control.antt =====
-- The control connection at concrete inputs, with a codec for ASCII.
use computer_network_socket.Base.{ℕ, ◌≡◌, refl, true, false, some, List, [], ◌∷◌, ◌++◌, map, arith}
use computer_network_socket.Base.Text.{text}
use computer_network_socket.Control.Lines.{Utf8, partition_crlf, strip_line_end}
use computer_network_socket.Server.Reply.{
  command_ok, help_message, code_text, code, format_code, format_multiline,
}
use computer_network_socket.Server.Loop.{Surroundings, Serving, received, handle_client, serve}
use computer_network_socket.Server.Loop.Chunks.{concat, drained, serve-drain}
use computer_network_socket.Server.Loop.Commands.{run_commands, serve-send_command}
use computer_network_socket.Server.Loop.Ending.{IsOver, handle_client-IsOver}
use computer_network_socket.Server.Loop.Confined.{TouchesOnly, handle_client-Under}
use computer_network_socket.Client.Connection
use computer_network_socket.Client.Connection.{
  Chunk, read_raw_line, read_reply_line, read_multiline_response, parse_reply, send_command,
  starts_with,
}
use computer_network_socket.Client.Connection.Reading.{
  ReadsLine, ReadsText, Utf8Laws, read_raw_line_lem, read_reply-format,
}
use computer_network_socket.Client.Connection.Blocks.{
  ReadsLines, first_line, end_line_of, read_multiline_response-format,
}
use computer_network_socket.Tests.Commands.{small, srv, guest}

abbrev pub ascii_codec : Utf8
ascii_codec = record { encode = λ t. t; decode_replace = λ bs. bs; decode_ignore = λ bs. bs }

ascii_laws : Utf8Laws ascii_codec
ascii_laws = record {
  decode-encode = λ t. refl;
  decode_ignore-encode = λ t. refl;
  encode-append = λ t v. refl;
  encode_ascii = λ c h. refl;
  encode_line = λ t h. h;
}

-- A line that comes in two chunks, with the start of another behind it.
read_raw_line_lem_example : ReadsLine (text "ok") (text "2") (
    read_raw_line
      (Connection.received (text "k" ++ (13 ∷ [])) ∷ Connection.received (10 ∷ text "2") ∷ [])
      (text "o"))
unfolding text partition_crlf
read_raw_line_lem_example =
    read_raw_line_lem
      (Connection.received (text "k" ++ (13 ∷ [])) ∷ Connection.received (10 ∷ text "2") ∷ [])
      (text "o") (text "ok") (text "2") (tt, (tt, tt)) refl

read_reply-format_example :
    ReadsText (code_text command_ok ++ (32 ∷ text "ok")) (text "2") (
      read_reply_line ascii_codec
        (text "200 ")
        (Connection.received (text "ok" ++ (13 ∷ 10 ∷ text "2")) ∷ []))
    × (parse_reply (code_text command_ok ++ (32 ∷ text "ok")) ≡ (some (code command_ok), text "ok"))
unfolding text partition_crlf format_code code
read_reply-format_example =
    read_reply-format ascii_codec command_ok (text "ok")
      (Connection.received (text "ok" ++ (13 ∷ 10 ∷ text "2")) ∷ []) (text "200 ") (text "2")
      ascii_laws refl (tt, tt) refl

read_multiline_response-format_example :
    ReadsLines
      (first_line help_message (text "Help") ∷ (text " NOOP" ∷ [])
        ++ (end_line_of help_message ∷ []))
      []
      (read_multiline_response ascii_codec 2 [] (
        Connection.received (format_multiline help_message (text "Help") (text " NOOP" ∷ [])) ∷ []))
unfolding text partition_crlf format_multiline code starts_with
read_multiline_response-format_example =
    read_multiline_response-format ascii_codec help_message (text "Help") (text " NOOP" ∷ []) 2
      (Connection.received (format_multiline help_message (text "Help") (text " NOOP" ∷ [])) ∷ [])
      [] [] ascii_laws refl ((refl, refl), tt) (omega arith) (tt, tt) refl

abbrev pub quiet : Surroundings
quiet = record {
  utf8 = ascii_codec;
  system = λ n. small;
  worker = λ n. [];
  send_works = λ n. true;
  worker_alive = false;
}

abbrev pub start : Serving
start = record { session = guest; sent = []; sends = 1; commands = 0; effects = []; ended = false }

abbrev pub noop_quit : List (List ℕ)
noop_quit = text "NO" ∷ (text "OP" ++ (13 ∷ [])) ∷ (10 ∷ text "QUIT" ++ (13 ∷ 10 ∷ [])) ∷ []

-- NOOP and QUIT in three chunks, the first cut inside the word, the second between CR and LF.
serve-send_command_example :
    (serve quiet (map received noop_quit) (start, [])).0
    ≡ run_commands quiet (text "NOOP" ∷ text "QUIT" ∷ []) start
unfolding text partition_crlf strip_line_end send_command
serve-send_command_example =
    serve-send_command quiet ascii_laws (text "NOOP" ∷ text "QUIT" ∷ []) noop_quit start
      (refl, (refl, tt)) (tt, (tt, (tt, tt))) refl (omega arith) refl

serve-drain_example :
    serve quiet (map received noop_quit) (start, [])
    ≡ drained quiet 20 start ([] ++ concat noop_quit)
unfolding text partition_crlf
serve-drain_example =
    serve-drain quiet noop_quit 20 start [] (tt, (tt, (tt, tt))) refl refl (omega arith)
      (omega arith)

-- A client that logs in and deletes a file.
handle_client-Under_example : TouchesOnly quiet srv (
    handle_client quiet
      (record { host = 1; port = 4000 })
      srv
      0
      (received (text "USER bob" ++ (13 ∷ 10 ∷ text "PASS pw"))
        ∷ received (13 ∷ 10 ∷ text "DELE a.txt" ++ (13 ∷ 10 ∷ []))
        ∷ []))
handle_client-Under_example =
    handle_client-Under quiet srv srv (λ n. refl) (record { host = 1; port = 4000 }) 0
      (received (text "USER bob" ++ (13 ∷ 10 ∷ text "PASS pw"))
        ∷ received (13 ∷ 10 ∷ text "DELE a.txt" ++ (13 ∷ 10 ∷ []))
        ∷ [])

-- The client closes the connection after a NOOP.
handle_client-IsOver_example : IsOver (
    handle_client quiet
      (record { host = 1; port = 4000 })
      srv
      0
      ((received (text "NOOP" ++ (13 ∷ 10 ∷ [])) ∷ []) ++ received [] ∷ []))
handle_client-IsOver_example =
    handle_client-IsOver quiet (record { host = 1; port = 4000 }) srv 0
      (received (text "NOOP" ++ (13 ∷ 10 ∷ [])) ∷ []) [] (received []) refl tt
