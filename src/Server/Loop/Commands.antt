-- ===== src/Server/Loop/Commands.antt =====
-- The commands that a client sends are the ones that the server runs.
use computer_network_socket.Base.{
  ℕ, zero, suc, ◌≤◌, ◌≡◌, refl, sym, ap, ◌∙◌, true, false, none, List, [], ◌∷◌, ◌++◌, map, length,
  ltb, inl, inr, Bool-cases, All, if◌then◌else◌, arith, length-append, append_assoc,
}
use computer_network_socket.Base.Text.{Text}
use computer_network_socket.Base.Cases.{if-split}
use computer_network_socket.Shared.Constants.{max_command_length}
use computer_network_socket.Control.Lines.{
  partition_crlf, partition_crlf-line, strip_line_end, strip_line_ends, crlf,
}
use computer_network_socket.Control.Drain.{drain_step, drain_nil, drain_over}
use computer_network_socket.Client.Connection.{send_command}
use computer_network_socket.Client.Connection.Reading.{Utf8Laws, encode-line}
use computer_network_socket.Server.Loop.{
  Surroundings, Serving, received, run_line, process_line, serve,
}
use computer_network_socket.Server.Loop.Chunks.{concat, IsChunk, over, drained, serve-drain}

-- A command that holds no CRLF once the line ends behind it are gone.
abbrev pub IsOneLine : Text → Type 0
IsOneLine t = partition_crlf (strip_line_end t) ≡ none

partition_crlf_nil : partition_crlf [] ≡ none
unfolding partition_crlf
partition_crlf_nil = refl

module _ (w : Surroundings) where
  -- The commands one after the other, up to one that ends the connection.
  unfoldable pub run_commands : List Text → Serving → Serving
  unfolding run_line strip_line_ends strip_line_end
  run_commands [] c = c
  run_commands (t ∷ ts) c =
      let later = run_commands ts (run_line w (strip_line_ends (strip_line_end t)) c) in
      if c.ended then c else later

  process_line_encode :
      Utf8Laws w.utf8
      → (t : Text) (c : Serving) → length (w.utf8.encode t) ≤ 4096
      → process_line w c (w.utf8.encode t) ≡ run_line w (strip_line_ends t) c
  unfolding process_line
  process_line_encode laws t c h =
      if-split (λ r. r ≡ run_line w (strip_line_ends t) c)
        (ltb max_command_length (length (w.utf8.encode t))) (λ long. absurd (ground arith))
        (λ fits. ap (λ l. run_line w (strip_line_ends l) c) (laws.decode_ignore-encode t))

  run_commands_more :
      (t : Text) (ts : List Text) (c : Serving)
      → c.ended ≡ false
      → run_commands (t ∷ ts) c
        ≡ run_commands ts (run_line w (strip_line_ends (strip_line_end t)) c)
  unfolding run_commands
  run_commands_more t ts c e = rw e

  run_commands_ended : (ts : List Text) (c : Serving) → c.ended ≡ true → run_commands ts c ≡ c
  unfolding run_commands
  run_commands_ended [] c e = refl
  run_commands_ended (t ∷ ts) c e = rw e

  send_command-append :
      Utf8Laws w.utf8
      → (t : Text) (rest : List ℕ)
      → send_command w.utf8 t ++ rest ≡ w.utf8.encode (strip_line_end t) ++ 13 ∷ 10 ∷ rest
  unfolding send_command
  send_command-append laws t rest =
      let line = strip_line_end t in
      ap (λ bs. bs ++ rest) (encode-line w.utf8 laws line)
      ∙ append_assoc (w.utf8.encode line) crlf rest

  drain_line :
      Utf8Laws w.utf8
      → (t : Text) (rest : List ℕ) (n : ℕ) (c : Serving) → IsOneLine t
      → c.ended ≡ false
      → length (send_command w.utf8 t ++ rest) ≤ 4096
      → drained w (suc n) c (send_command w.utf8 t ++ rest)
        ≡ drained w n (run_line w (strip_line_ends (strip_line_end t)) c) rest
  drain_line laws t rest n c one_line e short =
      let line = w.utf8.encode (strip_line_end t) in
      let split = send_command-append laws t rest in
      ap (drained w (suc n) c) split
      ∙ (drain_step over (process_line w) n c (line ++ 13 ∷ 10 ∷ rest) line rest e
            (partition_crlf-line line rest (laws.encode_line (strip_line_end t) one_line))
          ∙ ap (λ c'. drained w n c' rest)
              (process_line_encode laws (strip_line_end t) c
                (omega (arith, ap length split, length-append line (13 ∷ 10 ∷ rest)))))

  sent_shorter :
      Utf8Laws w.utf8
      → (t : Text) (rest : List ℕ) → suc (length rest) ≤ length (send_command w.utf8 t ++ rest)
  sent_shorter laws t rest =
      let line = w.utf8.encode (strip_line_end t) in
      omega
        (arith, ap length (send_command-append laws t rest), length-append line (13 ∷ 10 ∷ rest))

  -- The bytes of the commands are cut into their lines.
  drain-commands :
      Utf8Laws w.utf8
      → (ts : List Text) (n : ℕ) (c : Serving) → All IsOneLine ts
      → length (concat (map (send_command w.utf8) ts)) ≤ 4096
      → length (concat (map (send_command w.utf8) ts)) ≤ n
      → (drained w n c (concat (map (send_command w.utf8) ts))).0 ≡ run_commands ts c
  unfolding run_commands
  drain-commands laws [] n c h short enough = ap (λ r. r.0) (drain_nil over (process_line w) n c)
  drain-commands laws (t ∷ ts) zero c h short enough =
      absurd (omega (arith, sent_shorter laws t (concat (map (send_command w.utf8) ts))))
  drain-commands laws (t ∷ ts) (suc n) c h short enough =
      let rest = concat (map (send_command w.utf8) ts) in
      let fewer = sent_shorter laws t rest in
      elim (Bool-cases c.ended) [
        | inl e ↦
            ap (λ r. r.0)
              (drain_over over (process_line w) (suc n) c (send_command w.utf8 t ++ rest) e enough)
            ∙ sym (run_commands_ended (t ∷ ts) c e)
        | inr e ↦
            ap (λ r. r.0) (drain_line laws t rest n c h.0 e short)
            ∙ (drain-commands laws ts n (run_line w (strip_line_ends (strip_line_end t)) c) h.1
                  (omega arith) (omega arith)
                ∙ sym (run_commands_more t ts c e))
      ]

  -- Where a client sends commands that each are one line and that are 4096 bytes together, the server runs these
  -- commands in turn, up to one that ends the connection, in whichever chunks the bytes arrive.
  pub serve-send_command :
      Utf8Laws w.utf8
      → (ts : List Text) (chunks : List (List ℕ)) (c : Serving) → All IsOneLine ts
      → All IsChunk chunks
      → concat chunks ≡ concat (map (send_command w.utf8) ts)
      → length (concat chunks) ≤ 4096
      → c.ended ≡ false
      → (serve w (map received chunks) (c, [])).0 ≡ run_commands ts c
  serve-send_command laws ts chunks c h k same short e =
      let n = length (concat chunks) in
      ap (λ r. r.0) (serve-drain w chunks n c [] k e partition_crlf_nil short (omega arith))
      ∙ (ap (λ bs. (drained w n c bs).0) same
          ∙ drain-commands laws ts n c h (omega (arith, ap length same))
              (omega (arith, ap length same)))
