-- ===== src/Server/Loop/Chunks.antt =====
-- However TCP cuts the bytes, the server runs the same commands.
use computer_network_socket.Base.{
  ℕ, zero, suc, ◌≤◌, ◌≡◌, refl, sym, ap, ◌∙◌, Bool, true, false, none, List, [], ◌∷◌, ◌++◌, map,
  length, ltb, inl, inr, Bool-cases, All, arith, length-append, append_assoc, append-nil,
}
use computer_network_socket.Base.Cases.{option-lem, if-split}
use computer_network_socket.Shared.Constants.{max_command_length}
use computer_network_socket.Control.Lines.{partition_crlf}
use computer_network_socket.Control.Drain.{
  drain, drain_stop, drain-append, drain-length, drain-partition_crlf, resume, resume_running,
  resume_ended,
}
use computer_network_socket.Server.Loop.{
  Surroundings, Serving, Receipt, received, process_line, receive, serve,
}

abbrev pub concat : List (List ℕ) → List ℕ
concat [] = []
concat (bs ∷ chunks) = bs ++ concat chunks

-- A chunk of the stream has a byte at least.
abbrev pub IsChunk : List ℕ → Type 0
IsChunk [] = ⊥
IsChunk (x ∷ xs) = Unit {0}

abbrev pub over : Serving → Bool
over c = c.ended

module _ (w : Surroundings) where
  -- The lines of the bytes, one after the other.
  abbrev pub drained : ℕ → Serving → List ℕ → Serving × List ℕ
  drained n c bs = drain over (process_line w) n c bs

  receive_short :
      (x : ℕ) (xs : List ℕ) (c : Serving) (buffer : List ℕ)
      → length (buffer ++ (x ∷ xs)) ≤ 4096
      → receive w (received (x ∷ xs)) (c, buffer)
        ≡ drained (length (buffer ++ (x ∷ xs))) c (buffer ++ (x ∷ xs))
  unfolding receive
  receive_short x xs c buffer h =
      let bs = buffer ++ (x ∷ xs) in
      option-lem (λ r. r ≡ drained (length bs) c bs) (partition_crlf bs)
        (if-split (λ r. r ≡ drained (length bs) c bs) (ltb max_command_length (length bs))
          (λ long. absurd (ground arith)) (λ fits. refl))
        (λ line. refl)

  serve_ended :
      (rs : List Receipt) (c : Serving) (buffer : List ℕ)
      → c.ended ≡ true
      → serve w rs (c, buffer) ≡ (c, buffer)
  unfolding serve
  serve_ended [] c buffer e = refl
  serve_ended (r ∷ rs) c buffer e = rw e

  serve_more :
      (r : Receipt) (rs : List Receipt) (c : Serving) (buffer : List ℕ)
      → c.ended ≡ false
      → serve w (r ∷ rs) (c, buffer) ≡ serve w rs (receive w r (c, buffer))
  unfolding serve
  serve_more r rs c buffer e = rw e

  drain_buffer :
      (n : ℕ) (c : Serving) (buffer : List ℕ)
      → c.ended ≡ false
      → partition_crlf buffer ≡ none
      → drained n c buffer ≡ (c, buffer)
  unfolding drain
  drain_buffer zero c buffer e no_line = refl
  drain_buffer (suc n) c buffer e no_line = drain_stop over (process_line w) n c buffer e no_line

  -- A connection that has not ended and holds no whole line runs the lines of all the bytes that come, up to 4096
  -- of them, in whichever chunks they come.
  pub serve-drain :
      (chunks : List (List ℕ)) (n : ℕ) (c : Serving) (buffer : List ℕ)
      → All IsChunk chunks
      → c.ended ≡ false
      → partition_crlf buffer ≡ none
      → length (buffer ++ concat chunks) ≤ 4096
      → length (buffer ++ concat chunks) ≤ n
      → serve w (map received chunks) (c, buffer) ≡ drained n c (buffer ++ concat chunks)
  unfolding serve
  serve-drain [] n c buffer h e no_line short enough =
      sym (ap (drained n c) (append-nil buffer) ∙ drain_buffer n c buffer e no_line)
  serve-drain ([] ∷ chunks) n c buffer h e no_line short enough = absurd h.0
  serve-drain ((x ∷ xs) ∷ chunks) n c buffer h e no_line short enough =
      let bs = buffer ++ (x ∷ xs) in
      let (c', left) = drained (length bs) c bs in
      let whole = ap length (append_assoc buffer (x ∷ xs) (concat chunks)) in
      let fewer = drain-length over (process_line w) (length bs) c bs in
      let served : serve w (map received chunks) (c', left)
          ≡ resume over (process_line w) n (c', left) (concat chunks) =
        elim (Bool-cases c'.ended) [
          | inl e' ↦
              serve_ended (map received chunks) c' left e'
              ∙ sym (resume_ended over (process_line w) n c' left (concat chunks) e')
          | inr e' ↦
              serve-drain chunks n c' left h.1 e'
                (drain-partition_crlf over (process_line w) (length bs) c bs (omega arith))
                (omega (
                  arith,
                  whole,
                  length-append left (concat chunks),
                  length-append bs (concat chunks),
                ))
                (omega (
                  arith,
                  whole,
                  length-append left (concat chunks),
                  length-append bs (concat chunks),
                ))
              ∙ sym (resume_running over (process_line w) n c' left (concat chunks) e')
        ] in
      serve_more (received (x ∷ xs)) (map received chunks) c buffer e
      ∙ (ap (serve w (map received chunks))
            (receive_short x xs c buffer (omega (arith, whole, length-append bs (concat chunks))))
          ∙ (served
              ∙ (sym (
                    drain-append over (process_line w) n (length bs) n c bs (concat chunks)
                      (omega (arith, whole)) (omega arith) (omega (arith, whole)) e)
                  ∙ ap (drained n c) (append_assoc buffer (x ∷ xs) (concat chunks)))))
