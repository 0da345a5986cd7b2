-- ===== src/Client/Connection/Reading.antt =====
-- Replies that the server formats are read back by the client, however TCP cuts them.
use computer_network_socket.Base.{
  ℕ, ◌<◌, ◌≡◌, ◌≢◌, sym, ap, ◌∙◌, none, some, List, [], ◌∷◌, ◌++◌, inl, inr, Option-cases, All,
  arith, append_assoc, append-nil,
}
use computer_network_socket.Base.Text.{Text}
use computer_network_socket.Control.Lines.{
  Utf8, crlf, partition_crlf, partition_crlf-append, partition_crlf-line,
}
use computer_network_socket.Server.Reply.{FtpReplyCode, code, code_text, digits3, format_code}
use computer_network_socket.Client.Connection.{
  Chunk, received, recv_fails, Read, got, read_raw_line, read_reply_line, parse_reply,
}

-- Three digits, a space and a message are read as the number and the message.
pub parse_reply-digits3 :
    (n : ℕ) (m : Text) → n < 1000 → parse_reply (digits3 n ++ (32 ∷ m)) ≡ (some n, m)
unfolding parse_reply
parse_reply-digits3 n m h = ground arith

-- The connection gives data: no chunk is empty or an error.
abbrev pub IsData : Chunk → Type 0
IsData (received (x ∷ xs)) = Unit {0}
IsData (received []) = ⊥
IsData recv_fails = ⊥

abbrev pub chunk_bytes : Chunk → List ℕ
chunk_bytes (received bs) = bs
chunk_bytes recv_fails = []

abbrev pub all_bytes : List Chunk → List ℕ
all_bytes [] = []
all_bytes (c ∷ chunks) = chunk_bytes c ++ all_bytes chunks

-- How a read ends on bytes that hold a line.
pub record ReadsLine (l remaining : List ℕ) (r : Read (List ℕ)) : Type 0 where
  pub buffer : List ℕ
  pub chunks : List Chunk
  pub reads : r ≡ got l buffer chunks
  pub rest : buffer ++ all_bytes chunks ≡ remaining
  pub still_data : All IsData chunks

read_raw_line_found :
    (chunks : List Chunk) (buffer l r : List ℕ)
    → partition_crlf buffer ≡ some (l, r)
    → read_raw_line chunks buffer ≡ got l r chunks
unfolding read_raw_line
read_raw_line_found [] buffer l r found = rw (found, read_raw_line)
read_raw_line_found (received (x ∷ xs) ∷ chunks) buffer l r found = rw (found, read_raw_line)
read_raw_line_found (received [] ∷ chunks) buffer l r found = rw (found, read_raw_line)
read_raw_line_found (recv_fails ∷ chunks) buffer l r found = rw (found, read_raw_line)

read_raw_line_more :
    (x : ℕ) (xs : List ℕ) (chunks : List Chunk) (buffer : List ℕ)
    → partition_crlf buffer ≡ none
    → read_raw_line (received (x ∷ xs) ∷ chunks) buffer ≡ read_raw_line chunks (buffer ++ (x ∷ xs))
unfolding read_raw_line
read_raw_line_more x xs chunks buffer no_line = rw (no_line, read_raw_line)

-- The line is the first one of the buffer and all that will come, and what follows it is kept.
pub read_raw_line_lem :
    (chunks : List Chunk) (buffer l remaining : List ℕ)
    → All IsData chunks
    → partition_crlf (buffer ++ all_bytes chunks) ≡ some (l, remaining)
    → ReadsLine l remaining (read_raw_line chunks buffer)
read_raw_line_lem [] buffer l remaining h e = record {
  buffer = remaining;
  chunks = [];
  reads =
      read_raw_line_found [] buffer l remaining (ap partition_crlf (sym (append-nil buffer)) ∙ e);
  rest = append-nil remaining;
  still_data = tt;
}
read_raw_line_lem (received (x ∷ xs) ∷ chunks) buffer l remaining h e =
    elim (Option-cases (partition_crlf buffer)) [
      | inl no_line ↦
          let r =
            read_raw_line_lem chunks (buffer ++ (x ∷ xs)) l remaining h.1
              (ap partition_crlf (append_assoc buffer (x ∷ xs) (all_bytes chunks)) ∙ e) in
          record {
            buffer = r.buffer;
            chunks = r.chunks;
            reads = read_raw_line_more x xs chunks buffer no_line ∙ r.reads;
            rest = r.rest;
            still_data = r.still_data;
          }
      | inr ((l', r'), found) ↦
          let whole =
            partition_crlf-append buffer (all_bytes (received (x ∷ xs) ∷ chunks)) l' r' found in
          let same : (l' ≡ l) × (r' ++ all_bytes (received (x ∷ xs) ∷ chunks) ≡ remaining) =
            (cc, cc) in
          record {
            buffer = r';
            chunks = received (x ∷ xs) ∷ chunks;
            reads =
                read_raw_line_found (received (x ∷ xs) ∷ chunks) buffer l' r' found
                ∙ ap (λ t. got t r' (received (x ∷ xs) ∷ chunks)) same.0;
            rest = same.1;
            still_data = h;
          }
    ]
read_raw_line_lem (received [] ∷ chunks) buffer l remaining h e = absurd h.0
read_raw_line_lem (recv_fails ∷ chunks) buffer l remaining h e = absurd h.0

-- How the read of a line of text ends.
pub record ReadsText (t : Text) (remaining : List ℕ) (r : Read Text) : Type 0 where
  pub buffer : List ℕ
  pub chunks : List Chunk
  pub reads : r ≡ got t buffer chunks
  pub rest : buffer ++ all_bytes chunks ≡ remaining
  pub still_data : All IsData chunks

-- What UTF-8 is relied on for: it is read back, it encodes part by part and ASCII as itself, and it puts a CRLF
-- nowhere else.
pub record Utf8Laws (u : Utf8) : Type 0 where
  pub decode-encode : (t : Text) → u.decode_replace (u.encode t) ≡ t
  pub decode_ignore-encode : (t : Text) → u.decode_ignore (u.encode t) ≡ t
  pub encode-append : (t v : Text) → u.encode (t ++ v) ≡ u.encode t ++ u.encode v
  pub encode_ascii : (c : ℕ) → c < 128 → u.encode (c ∷ []) ≡ c ∷ []
  pub encode_line : (t : Text) → partition_crlf t ≡ none → partition_crlf (u.encode t) ≡ none

encode-crlf : (u : Utf8) → Utf8Laws u → u.encode crlf ≡ crlf
encode-crlf u w =
    w.encode-append (13 ∷ []) (10 ∷ [])
    ∙ rw (w.encode_ascii 13 (omega arith), w.encode_ascii 10 (omega arith))

pub encode-line : (u : Utf8) → Utf8Laws u → (t : Text) → u.encode (t ++ crlf) ≡ u.encode t ++ crlf
encode-line u w t = w.encode-append t crlf ∙ rw (encode-crlf u w)

-- A line and CRLF, sent as UTF-8, are read as that line.
pub read_reply_line_lem :
    (u : Utf8) (t : Text) (chunks : List Chunk) (buffer rest : List ℕ)
    → Utf8Laws u
    → partition_crlf t ≡ none
    → All IsData chunks
    → buffer ++ all_bytes chunks ≡ u.encode (t ++ crlf) ++ rest
    → ReadsText t rest (read_reply_line u buffer chunks)
unfolding read_reply_line
read_reply_line_lem u t chunks buffer rest w no_crlf h e =
    let r = read_raw_line_lem chunks buffer (u.encode t) rest h (
      ap partition_crlf
        (e ∙ (ap (λ bs. bs ++ rest) (encode-line u w t) ∙ append_assoc (u.encode t) crlf rest))
      ∙ partition_crlf-line (u.encode t) rest (w.encode_line t no_crlf)) in
    record {
      buffer = r.buffer;
      chunks = r.chunks;
      reads = rw (r.reads, w.decode-encode t);
      rest = r.rest;
      still_data = r.still_data;
    }

pub partition_digits :
    (n : ℕ) (c : ℕ) (m : Text)
    → c ≢ 10
    → c ≢ 13
    → partition_crlf m ≡ none
    → partition_crlf (digits3 n ++ (c ∷ m)) ≡ none
unfolding partition_crlf
partition_digits n c [] h k e = ground arith
partition_digits n c (x ∷ m) h k e = ground arith

pub code-lt : (c : FtpReplyCode) → code c < 1000
unfolding code
code-lt c = ground arith

-- Whatever reply code and message without CRLF the server sends, and however TCP cuts the bytes, the client
-- reads the line of that reply, keeps the bytes behind it, and finds in it the code's number and the message.
pub read_reply-format :
    (u : Utf8) (c : FtpReplyCode) (m : Text) (chunks : List Chunk) (buffer rest : List ℕ)
    → Utf8Laws u
    → partition_crlf m ≡ none
    → All IsData chunks
    → buffer ++ all_bytes chunks ≡ u.encode (format_code c (some m)) ++ rest
    → ReadsText (code_text c ++ (32 ∷ m)) rest (read_reply_line u buffer chunks)
      × (parse_reply (code_text c ++ (32 ∷ m)) ≡ (some (code c), m))
unfolding format_code
read_reply-format u c m chunks buffer rest w no_crlf h e = (
  read_reply_line_lem u (code_text c ++ (32 ∷ m)) chunks buffer rest w
      (partition_digits (code c) 32 m (omega arith) (omega arith) no_crlf) h e,
  parse_reply-digits3 (code c) m (code-lt c),
)
