-- ===== src/Client/Connection.antt =====
-- client/control/client_control.py: ControlConnection and `parse_reply`. The socket is the list of what `recv`
-- will give. `isdigit` is that of ASCII digits.
pub mod Reading
pub mod Blocks
use computer_network_socket.Base.{
  ℕ, zero, suc, ◌+◌, ◌-◌, ◌*◌, Bool, true, false, not, ◌&&◌, ◌||◌, Option, none, some, List, [],
  ◌∷◌, ◌++◌, length, take, drop, ltb, leb, ◌==◌, if◌then◌else◌,
}
use computer_network_socket.Base.Text.{Text, text_eq}
use computer_network_socket.Control.Lines.{Utf8, crlf, partition_crlf, strip_line_end, split_space}

-- What one `recv` does: it gives bytes, none at the connection's end, or it raises OSError.
pub data Chunk : Type 0 where
  received : List ℕ → Chunk
  recv_fails : Chunk

-- The end of a read: a value with the new buffer and socket, ConnectionError, OSError, or still waiting.
pub data Read (A : Type 0) : Type 0 where
  got : A → List ℕ → List Chunk → Read A
  connection_error os_error waiting : Read A

-- The loop of `read_reply_line`, up to the decoding.
unfoldable pub read_raw_line : List Chunk → List ℕ → Read (List ℕ)
unfolding partition_crlf
read_raw_line [] buffer = elim (partition_crlf buffer) [
  | none ↦ waiting
  | some (l, remaining) ↦ got l remaining []
]
read_raw_line (recv_fails ∷ chunks) buffer = elim (partition_crlf buffer) [
  | none ↦ os_error
  | some (l, remaining) ↦ got l remaining (recv_fails ∷ chunks)
]
read_raw_line (received [] ∷ chunks) buffer = elim (partition_crlf buffer) [
  | none ↦ connection_error
  | some (l, remaining) ↦ got l remaining (received [] ∷ chunks)
]
read_raw_line (received (x ∷ xs) ∷ chunks) buffer =
    let later = read_raw_line chunks (buffer ++ (x ∷ xs)) in
    elim (partition_crlf buffer) [
      | none ↦ later
      | some (l, remaining) ↦ got l remaining (received (x ∷ xs) ∷ chunks)
    ]

infixl 5 ◌>>=◌
abbrev pub ◌>>=◌ : {A B : Type 0} → Read A → (A → List ℕ → List Chunk → Read B) → Read B
got a buffer chunks >>= f = f a buffer chunks
connection_error >>= f = connection_error
os_error >>= f = os_error
waiting >>= f = waiting

unfoldable pub read_reply_line : Utf8 → List ℕ → List Chunk → Read Text
unfolding read_raw_line
read_reply_line u buffer chunks = read_raw_line chunks buffer >>= λ raw buffer' chunks'.
    got (u.decode_replace raw) buffer' chunks'

-- The bytes that `send_command` sends.
unfoldable pub send_command : Utf8 → Text → List ℕ
unfolding strip_line_end
send_command u command = u.encode (strip_line_end command ++ crlf)

abbrev pub is_digit : ℕ → Bool
is_digit c = leb b'0' c && leb c b'9'

unfoldable pub all_digits : Text → Bool
all_digits [] = true
all_digits (c ∷ cs) = is_digit c && all_digits cs

-- `str.isdigit()`
abbrev pub isdigit : Text → Bool
isdigit [] = false
isdigit (c ∷ cs) = all_digits (c ∷ cs)

-- `startswith`
unfoldable pub starts_with : Text → Text → Bool
starts_with t [] = true
starts_with [] (p ∷ ps) = false
starts_with (c ∷ cs) (p ∷ ps) = c == p && starts_with cs ps

-- Whether a first line opens a block: three digits and "-".
unfoldable pub opens_block : Text → Bool
unfolding all_digits take
opens_block (a ∷ b ∷ c ∷ d ∷ rest) = all_digits (a ∷ b ∷ c ∷ []) && d == 45
opens_block t = false

-- `while not lines[-1].startswith(terminator)`, with the last line read. The fuel is the number of lines read
-- at most.
unfoldable pub read_block : Utf8 → ℕ → Text → Text → List ℕ → List Chunk → Read (List Text)
unfolding starts_with read_reply_line
read_block u zero terminator last buffer chunks =
    if starts_with last terminator then got [] buffer chunks else waiting
read_block u (suc fuel) terminator last buffer chunks =
    let more : Read (List Text) = read_reply_line u buffer chunks >>= λ next buffer' chunks'.
    read_block u fuel terminator next buffer' chunks' >>= λ lines buffer'' chunks''.
    got (next ∷ lines) buffer'' chunks'' in
    if starts_with last terminator then got [] buffer chunks else more

-- The lines that `send_command_and_receive_multiline_response` reads after sending its command.
unfoldable pub read_multiline_response : Utf8 → ℕ → List ℕ → List Chunk → Read (List Text)
unfolding opens_block read_block read_reply_line take
read_multiline_response u fuel buffer chunks =
    read_reply_line u buffer chunks >>= λ first buffer' chunks'.
    if opens_block first
    then (read_block u fuel (take 3 first ++ (32 ∷ [])) first buffer' chunks'
        >>= λ lines buffer'' chunks''. got (first ∷ lines) buffer'' chunks'')
    else got (first ∷ []) buffer' chunks'

-- `int` of digits.
unfoldable pub digits_value : ℕ → Text → ℕ
digits_value n [] = n
digits_value n (c ∷ cs) = digits_value (n * 10 + (c - b'0')) cs

abbrev pub or_empty : Option Text → Text
or_empty none = []
or_empty (some t) = t

unfoldable pub parse_reply : Text → Option ℕ × Text
unfolding split_space all_digits digits_value
parse_reply response =
    let (head, tail) = split_space response in
    if isdigit head then (some (digits_value 0 head), or_empty tail) else (none, response)
