-- ===== src/Client/Connection/Blocks.antt =====
-- The multi-line replies of HELP are read back by the client, however TCP cuts them.
use computer_network_socket.Base.{
  ℕ, zero, suc, ◌<◌, ◌≡◌, refl, sym, ap, ◌∙◌, true, false, none, List, [], ◌∷◌, ◌++◌, length, take,
  All, arith, append_assoc,
}
use computer_network_socket.Base.Text.{Text, text}
use computer_network_socket.Control.Lines.{Utf8, crlf, partition_crlf}
use computer_network_socket.Server.Reply.{
  FtpReplyCode, code, code_text, digits3, with_crlf, format_multiline,
}
use computer_network_socket.Client.Connection.{
  Chunk, Read, got, read_reply_line, starts_with, opens_block, read_block, read_multiline_response,
}
use computer_network_socket.Client.Connection.Reading.{
  IsData, all_bytes, Utf8Laws, read_reply_line_lem, partition_digits, code-lt,
}

-- How the read of several lines ends.
pub record ReadsLines (ls : List Text) (remaining : List ℕ) (r : Read (List Text)) : Type 0 where
  pub buffer : List ℕ
  pub chunks : List Chunk
  pub reads : r ≡ got ls buffer chunks
  pub rest : buffer ++ all_bytes chunks ≡ remaining

-- A line that can stand inside a block: no CRLF, and not the block's end.
abbrev pub IsInner : Text → Text → Type 0
IsInner terminator l = (partition_crlf l ≡ none) × (starts_with l terminator ≡ false)

read_block_stop :
    (u : Utf8) (fuel : ℕ) (terminator last : Text) (buffer : List ℕ) (chunks : List Chunk)
    → starts_with last terminator ≡ true
    → read_block u fuel terminator last buffer chunks ≡ got [] buffer chunks
unfolding read_block
read_block_stop u zero terminator last buffer chunks e = rw e
read_block_stop u (suc fuel) terminator last buffer chunks e = rw e

read_block_next :
    (u : Utf8) (fuel : ℕ) (terminator last next : Text) (buffer buffer' buffer'' : List ℕ)
    (chunks chunks' chunks'' : List Chunk) (ls : List Text)
    → starts_with last terminator ≡ false
    → read_reply_line u buffer chunks ≡ got next buffer' chunks'
    → read_block u fuel terminator next buffer' chunks' ≡ got ls buffer'' chunks''
    → read_block u (suc fuel) terminator last buffer chunks ≡ got (next ∷ ls) buffer'' chunks''
unfolding read_block
read_block_next u fuel terminator last next buffer buffer' buffer'' chunks chunks' chunks'' ls more
      line later =
    rw (more, line, later)

module _ (u : Utf8) (w : Utf8Laws u) (terminator end : Text)
    (ends : starts_with end terminator ≡ true) (end_line : partition_crlf end ≡ none) where
  read_block_lem :
      (ls : List Text) (fuel : ℕ) (last : Text) (buffer rest : List ℕ) (chunks : List Chunk)
      → length ls < fuel
      → All (IsInner terminator) ls
      → starts_with last terminator ≡ false
      → All IsData chunks
      → buffer ++ all_bytes chunks ≡ u.encode (with_crlf ls ++ (end ++ crlf)) ++ rest
      → ReadsLines (ls ++ (end ∷ [])) rest (read_block u fuel terminator last buffer chunks)
  read_block_lem ls zero last buffer rest chunks enough inner more h e = absurd (omega arith)
  read_block_lem [] (suc fuel) last buffer rest chunks enough inner more h e =
      let r = read_reply_line_lem u end chunks buffer rest w end_line h e in
      record {
        buffer = r.buffer;
        chunks = r.chunks;
        reads =
            read_block_next u fuel terminator last end buffer r.buffer r.buffer chunks r.chunks
              r.chunks [] more r.reads
              (read_block_stop u fuel terminator end r.buffer r.chunks ends);
        rest = r.rest;
      }
  read_block_lem (l ∷ ls) (suc fuel) last buffer rest chunks enough inner more h e =
      let later = u.encode (with_crlf ls ++ (end ++ crlf)) ++ rest in
      let r = read_reply_line_lem u l chunks buffer later w inner.0.0 h (e ∙ regroup) in
      let b =
        read_block_lem ls fuel l r.buffer rest r.chunks (omega arith) inner.1 inner.0.1 r.still_data
          r.rest in
      record {
        buffer = b.buffer;
        chunks = b.chunks;
        reads =
            read_block_next u fuel terminator last l buffer r.buffer b.buffer chunks r.chunks
              b.chunks (ls ++ (end ∷ [])) more r.reads b.reads;
        rest = b.rest;
      }
    where
      regroup :
          u.encode (with_crlf (l ∷ ls) ++ (end ++ crlf)) ++ rest
          ≡ u.encode (l ++ crlf) ++ (u.encode (with_crlf ls ++ (end ++ crlf)) ++ rest)
      regroup =
          ap (λ t. u.encode t ++ rest)
            (append_assoc l (crlf ++ with_crlf ls) (end ++ crlf)
              ∙ sym (append_assoc l crlf (with_crlf ls ++ (end ++ crlf))))
          ∙ (ap (λ bs. bs ++ rest) (w.encode-append (l ++ crlf) (with_crlf ls ++ (end ++ crlf)))
              ∙ append_assoc (u.encode (l ++ crlf)) (u.encode (with_crlf ls ++ (end ++ crlf))) rest)

abbrev pub terminator_of : FtpReplyCode → Text
terminator_of c = code_text c ++ (32 ∷ [])

abbrev pub first_line : FtpReplyCode → Text → Text
first_line c first = code_text c ++ (45 ∷ first)

abbrev pub end_line_of : FtpReplyCode → Text
end_line_of c = code_text c ++ (32 ∷ text "End")

opens : (n : ℕ) (t : Text) → n < 1000 → opens_block (digits3 n ++ (45 ∷ t)) ≡ true
unfolding opens_block
opens n t h = ground arith

ends_block :
    (n : ℕ) (t : Text) → starts_with (digits3 n ++ (32 ∷ t)) (digits3 n ++ (32 ∷ [])) ≡ true
unfolding starts_with
ends_block n t = ground arith

goes_on : (n : ℕ) (t : Text) → starts_with (digits3 n ++ (45 ∷ t)) (digits3 n ++ (32 ∷ [])) ≡ false
unfolding starts_with
goes_on n t = ground arith

text_end : partition_crlf (text "End") ≡ none
unfolding partition_crlf text
text_end = refl

read_multiline_step :
    (u : Utf8) (fuel : ℕ) (first : Text) (buffer buffer' buffer'' : List ℕ)
    (chunks chunks' chunks'' : List Chunk) (ls : List Text)
    → opens_block first ≡ true
    → read_reply_line u buffer chunks ≡ got first buffer' chunks'
    → read_block u fuel (take 3 first ++ (32 ∷ [])) first buffer' chunks' ≡ got ls buffer'' chunks''
    → read_multiline_response u fuel buffer chunks ≡ got (first ∷ ls) buffer'' chunks''
unfolding read_multiline_response
read_multiline_step u fuel first buffer buffer' buffer'' chunks chunks' chunks'' ls block line
      later =
    rw (line, block, later)

-- A block of lines that hold no CRLF and do not look like its end is read as its first line, its lines and its
-- end, given fuel for its lines, and the bytes behind it are kept.
pub read_multiline_response-format :
    (u : Utf8) (c : FtpReplyCode) (first : Text) (ls : List Text) (fuel : ℕ) (chunks : List Chunk)
    (buffer rest : List ℕ)
    → Utf8Laws u
    → partition_crlf first ≡ none
    → All (IsInner (terminator_of c)) ls
    → length ls < fuel
    → All IsData chunks
    → buffer ++ all_bytes chunks ≡ u.encode (format_multiline c first ls) ++ rest
    → ReadsLines
        (first_line c first ∷ (ls ++ (end_line_of c ∷ [])))
        rest
        (read_multiline_response u fuel buffer chunks)
unfolding take format_multiline
read_multiline_response-format u c first ls fuel chunks buffer rest w no_crlf inner enough h e =
    let n = code c in
    let later = u.encode (with_crlf ls ++ (end_line_of c ++ crlf)) ++ rest in
    let r =
      read_reply_line_lem u (first_line c first) chunks buffer later w
        (partition_digits n 45 first (omega arith) (omega arith) no_crlf) h (e ∙ regroup) in
    let b =
      read_block_lem u w (terminator_of c) (end_line_of c) (ends_block n (text "End"))
        (partition_digits n 32 (text "End") (omega arith) (omega arith) text_end) ls fuel
        (first_line c first) r.buffer rest r.chunks enough inner (goes_on n first) r.still_data
        r.rest in
    record {
      buffer = b.buffer;
      chunks = b.chunks;
      reads =
          read_multiline_step u fuel (first_line c first) buffer r.buffer b.buffer chunks r.chunks
            b.chunks (ls ++ (end_line_of c ∷ [])) (opens n first (code-lt c)) r.reads b.reads;
      rest = b.rest;
    }
  where
    regroup :
        u.encode (format_multiline c first ls) ++ rest
        ≡ u.encode (first_line c first ++ crlf)
          ++ (u.encode (with_crlf ls ++ (end_line_of c ++ crlf)) ++ rest)
    regroup =
        ap (λ t. u.encode (code_text c ++ (45 ∷ t)) ++ rest)
          (sym (append_assoc first crlf (with_crlf ls ++ (end_line_of c ++ crlf))))
        ∙ (ap (λ bs. bs ++ rest)
              (w.encode-append (first_line c first ++ crlf)
                (with_crlf ls ++ (end_line_of c ++ crlf)))
            ∙ append_assoc (u.encode (first_line c first ++ crlf))
                (u.encode (with_crlf ls ++ (end_line_of c ++ crlf))) rest)
