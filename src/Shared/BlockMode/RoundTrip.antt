-- ===== src/Shared/BlockMode/RoundTrip.antt =====
-- `encode_blocks` writes the format, so that `decode_blocks` gives the bytes back.
use computer_network_socket.Base.{
  ℕ, zero, suc, ◌+◌, ◌-◌, ◌*◌, ◌/◌, ◌%◌, ◌≤◌, ◌≡◌, refl, sym, ap, ◌∙◌, arith, List, [], ◌∷◌, ◌++◌,
  append_assoc, length, length-append, length-drop, length-take, take, drop, take-append-drop,
  if◌then◌else◌, All, All-append, All-split, take_all, take_exact, drop_exact,
}
use mathlib.Core.Path.{subst}
use computer_network_socket.Shared.Constants.{IsByte}
use computer_network_socket.Shared.BlockMode.{
  ok, is_empty, encode_loop, encode_blocks, decode_blocks, block_max_payload, block_header,
  block_descriptor_eof,
}
use computer_network_socket.Shared.BlockMode.Format.{Framed, last, block, decode_blocks_iff}

-- The number of blocks for `n` bytes.
abbrev pub block_count : ℕ → ℕ
block_count n = (n - 1) / block_max_payload + 1

-- What the loop appends for the bytes `rest`.
record Writes (rest framed out : List ℕ) : Type 0 where
  es : List ℕ
  out_eq : out ≡ framed ++ es
  format : Framed es rest
  size : length es ≡ length rest + 3 * block_count (length rest)
  bytes : All IsByte rest → All IsByte es

encode_loop_step :
    (fuel x : ℕ) (xs framed rest chunk : List ℕ)
    → drop block_max_payload (x ∷ xs) ≡ rest
    → take block_max_payload (x ∷ xs) ≡ chunk
    → encode_loop (suc fuel) (x ∷ xs) framed
      ≡ encode_loop fuel rest (
          framed
          ++ block_header (if is_empty rest then block_descriptor_eof else 0) (length chunk) chunk)
unfolding encode_loop
encode_loop_step fuel x xs framed rest chunk e f = cc

Writes-last :
    (fuel x : ℕ) (xs framed : List ℕ)
    → drop block_max_payload (x ∷ xs) ≡ []
    → Writes (x ∷ xs) framed (encode_loop (suc fuel) (x ∷ xs) framed)
unfolding encode_loop
Writes-last fuel x xs framed e =
    let small : length (x ∷ xs) ≤ block_max_payload =
      omega (arith, ap length e, length-drop block_max_payload (x ∷ xs)) in
    rw (encode_loop_step fuel x xs framed [] (x ∷ xs) e (take_all _ _ small)) (record {
      es = block_header block_descriptor_eof (length (x ∷ xs)) (x ∷ xs);
      out_eq = refl;
      format =
          last block_descriptor_eof (length (x ∷ xs) / 256) (length (x ∷ xs) % 256) (x ∷ xs) refl
            (omega arith) (omega arith);
      size = omega arith;
      bytes = λ h. (omega arith, (omega arith, (omega arith, h)));
    })

Writes-block :
    (fuel x y : ℕ) (xs ys framed chunk : List ℕ)
    → x ∷ xs ≡ chunk ++ (y ∷ ys)
    → length chunk ≡ block_max_payload
    → Writes
        (y ∷ ys)
        (framed ++ block_header 0 block_max_payload chunk)
        (encode_loop fuel (y ∷ ys) (framed ++ block_header 0 block_max_payload chunk))
    → Writes (x ∷ xs) framed (encode_loop (suc fuel) (x ∷ xs) framed)
unfolding encode_loop
Writes-block fuel x y xs ys framed chunk e n w =
    let rest_eq : drop block_max_payload (x ∷ xs) ≡ y ∷ ys = rw e (drop_exact _ chunk (y ∷ ys) n) in
    let chunk_eq : take block_max_payload (x ∷ xs) ≡ chunk = rw e (take_exact _ chunk (y ∷ ys) n) in
    rw (encode_loop_step fuel x xs framed (y ∷ ys) chunk rest_eq chunk_eq) (
      rw n (record {
        es = block_header 0 block_max_payload (chunk ++ w.es);
        out_eq = w.out_eq ∙ append_assoc framed (block_header 0 block_max_payload chunk) w.es;
        format = rw e (block 0 255 255 chunk refl refl n w.format);
        size = omega (arith, length-append chunk w.es, length-append chunk (y ∷ ys), ap length e);
        bytes = λ h.
            let (hc, hr) = All-split IsByte chunk (y ∷ ys) (subst (All IsByte) e h) in
            (
              omega arith,
              (omega arith, (omega arith, All-append IsByte chunk w.es hc (w.bytes hr))),
            );
      }))

encode_loop-Writes :
    (fuel x : ℕ) (xs framed : List ℕ)
    → length (x ∷ xs) ≤ fuel
    → Writes (x ∷ xs) framed (encode_loop fuel (x ∷ xs) framed)
encode_loop-Writes zero x xs framed le = absurd (omega arith)
encode_loop-Writes (suc fuel) x xs framed le =
    split (drop block_max_payload (x ∷ xs)) refl (λ y ys short.
      encode_loop-Writes fuel y ys
        (framed ++ block_header 0 block_max_payload (take block_max_payload (x ∷ xs))) short)
  where
    split :
        (rest : List ℕ)
        → drop block_max_payload (x ∷ xs) ≡ rest
        → ((y : ℕ) (ys : List ℕ)
            → length (y ∷ ys) ≤ fuel
            → Writes
                (y ∷ ys)
                (framed ++ block_header 0 block_max_payload (take block_max_payload (x ∷ xs)))
                (encode_loop fuel
                  (y ∷ ys)
                  (framed ++ block_header 0 block_max_payload (take block_max_payload (x ∷ xs)))))
        → Writes (x ∷ xs) framed (encode_loop (suc fuel) (x ∷ xs) framed)
    split [] e ih = Writes-last fuel x xs framed e
    split (y ∷ ys) e ih =
        let dropped = length-drop block_max_payload (x ∷ xs) in
        Writes-block fuel x y xs ys framed (take block_max_payload (x ∷ xs))
          (sym (rw e at (take-append-drop block_max_payload (x ∷ xs))))
          (omega (arith, ap length e, dropped, length-take block_max_payload (x ∷ xs)))
          (ih y ys (omega (arith, ap length e, dropped)))

encode_blocks-Writes : (content : List ℕ) → Writes content [] (encode_blocks content)
unfolding encode_blocks
encode_blocks-Writes [] = record {
  es = block_header block_descriptor_eof 0 [];
  out_eq = refl;
  format = last block_descriptor_eof 0 0 [] refl (omega arith) refl;
  size = omega arith;
  bytes = λ h. (omega arith, (omega arith, (omega arith, h)));
}
encode_blocks-Writes (x ∷ xs) = encode_loop-Writes (length (x ∷ xs)) x xs [] (omega arith)

-- Decoding gives back the bytes that were framed, whatever they are.
pub decode-encode_blocks : (content : List ℕ) → decode_blocks (encode_blocks content) ≡ ok content
decode-encode_blocks content =
    let w = encode_blocks-Writes content in
    rw w.out_eq ((decode_blocks_iff w.es content).1 w.format)

-- Framing adds three bytes for each started run of 65535 bytes, and for no bytes at all.
pub length-encode_blocks :
    (content : List ℕ)
    → length (encode_blocks content) ≡ length content + 3 * block_count (length content)
length-encode_blocks content = let w = encode_blocks-Writes content in rw w.out_eq w.size

-- Framed bytes are bytes: each count fits its 16 bits.
pub encode_blocks-IsByte :
    (content : List ℕ) → All IsByte content → All IsByte (encode_blocks content)
encode_blocks-IsByte content h = let w = encode_blocks-Writes content in rw w.out_eq (w.bytes h)
