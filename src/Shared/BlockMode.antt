-- ===== src/Shared/BlockMode.antt =====
-- shared/block_mode.py: MODE B framing. A block is a descriptor byte, a 16-bit count and the data.
-- An offset into the bytes is modelled by the bytes that stand from there on.
pub mod Format
pub mod RoundTrip
use computer_network_socket.Base.{
  ℕ, zero, suc, ◌+◌, ◌*◌, ◌/◌, ◌%◌, Bool, List, [], ◌∷◌, ◌++◌, length, take, drop, ltb, ◌==◌,
  if◌then◌else◌, bit_and, not,
}

abbrev pub block_descriptor_eof : ℕ
block_descriptor_eof = 0x40

abbrev pub block_max_payload : ℕ
block_max_payload = 0xFFFF

-- `& ~(EOR | EOF)` on a byte.
abbrev pub unsupported_bits : ℕ
unsupported_bits = 0x3F

-- The messages of `BlockModeError`.
pub data BlockModeError : Type 0 where
  inside_header unsupported_descriptor inside_block after_eof no_eof : BlockModeError

-- `stuck` is no outcome of the source: the loop ran out of the model's fuel.
pub data Decoded : Type 0 where
  ok : List ℕ → Decoded
  err : BlockModeError → Decoded
  stuck : Decoded

abbrev pub is_empty : List ℕ → Bool
is_empty [] = Bool.true
is_empty (x ∷ xs) = Bool.false

-- `BLOCK_HEADER.pack(descriptor, count)`, with the count below 65536, in front of `rest`.
abbrev pub block_header : ℕ → ℕ → List ℕ → List ℕ
block_header descriptor count rest = descriptor ∷ count / 256 ∷ count % 256 ∷ rest

-- The `while offset < len(data)` loop; `rest` is `data[offset:]`. Each round takes a byte at least.
unfoldable pub encode_loop : ℕ → List ℕ → List ℕ → List ℕ
encode_loop fuel [] framed = framed
encode_loop zero (x ∷ xs) framed = framed
encode_loop (suc fuel) (x ∷ xs) framed =
    let chunk = take block_max_payload (x ∷ xs) in
    let rest = drop block_max_payload (x ∷ xs) in
    let descriptor = if is_empty rest then block_descriptor_eof else 0 in
    encode_loop fuel rest (framed ++ block_header descriptor (length chunk) chunk)

unfoldable pub encode_blocks : List ℕ → List ℕ
unfolding encode_loop take drop
encode_blocks content =
    if is_empty content
    then block_header block_descriptor_eof 0 []
    else encode_loop (length content) content []

-- The `while offset < len(framed_data)` loop; `rest` is `framed_data[offset:]`.
unfoldable pub decode_loop : ℕ → List ℕ → List ℕ → Decoded
decode_loop fuel [] decoded = err no_eof
decode_loop fuel (d ∷ []) decoded = err inside_header
decode_loop fuel (d ∷ h ∷ []) decoded = err inside_header
decode_loop zero (d ∷ h ∷ l ∷ rest) decoded = stuck
decode_loop (suc fuel) (d ∷ h ∷ l ∷ rest) decoded =
    let count = h * 256 + l in
    let decoded' = decoded ++ take count rest in
    let more = decode_loop fuel (drop count rest) decoded' in
    if not (bit_and d unsupported_bits == 0)
    then err unsupported_descriptor
    else if ltb (length rest) count
    then err inside_block
    else if not (bit_and d block_descriptor_eof == 0)
    then (if is_empty (drop count rest) then ok decoded' else err after_eof)
    else more

unfoldable pub decode_blocks : List ℕ → Decoded
unfolding decode_loop take drop
decode_blocks framed_data = decode_loop (length framed_data) framed_data []
