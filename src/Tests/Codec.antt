-- ===== src/Tests/Codec.antt =====
-- Runs of the checksum, the packets and MODE B.
use computer_network_socket.Base.{
  ℕ, ◌+◌, ◌*◌, ◌%◌, ◌<◌, ◌≡◌, ◌≢◌, ◌-◌, length, ◌↔◌, refl, true, false, some, List, [], ◌∷◌, ◌++◌,
  All, arith, take, drop,
}
use computer_network_socket.Shared.Constants.{IsByte}
use computer_network_socket.Shared.Checksum.{compute_checksum, verify_checksum}
use computer_network_socket.Shared.Checksum.Norm.{
  norm, word_sum, compute_checksum-norm, verify_checksum_iff,
}
use computer_network_socket.Shared.Checksum.Detect.{verify_checksum-replace}
use computer_network_socket.Shared.Packet.{
  Packet, pack_packet, unpack_packet, pack_header, unpack_header,
}
use computer_network_socket.Shared.Packet.RoundTrip.{
  ReadsAs, verify-pack_packet, unpack-pack_packet, pack-unpack_packet,
}
use computer_network_socket.Shared.BlockMode
use computer_network_socket.Shared.BlockMode.{
  ok, stuck, encode_blocks, decode_blocks, after_eof, no_eof, inside_block,
}
use computer_network_socket.Shared.BlockMode.Format.{
  Framed, decode_blocks-ne-stuck, decode_blocks_iff, decode_blocks_extended,
  decode_blocks_truncated,
}
use computer_network_socket.Shared.BlockMode.RoundTrip.{
  decode-encode_blocks, length-encode_blocks, encode_blocks-IsByte,
}

-- pack_packet(seq=7, ack=0, flags=FLAG_DATA, data=b'hi!')
abbrev hi : List ℕ
hi = 104 ∷ 105 ∷ 33 ∷ []

abbrev hi_packet : List ℕ
hi_packet = 0 ∷ 0 ∷ 0 ∷ 7 ∷ 0 ∷ 0 ∷ 0 ∷ 0 ∷ 142 ∷ 108 ∷ 0 ∷ 3 ∷ 8 ∷ hi

pack_hi : pack_packet 7 0 8 hi ≡ some hi_packet
unfolding pack_packet pack_header compute_checksum
pack_hi = refl

hi_checks : verify_checksum hi_packet ≡ true
unfolding verify_checksum
hi_checks = refl

verify_checksum-replace_example :
    verify_checksum (0 ∷ 0 ∷ 0 ∷ 6 ∷ 0 ∷ 0 ∷ 0 ∷ 0 ∷ 142 ∷ 108 ∷ 0 ∷ 3 ∷ 8 ∷ hi) ≡ false
verify_checksum-replace_example =
    verify_checksum-replace (0 ∷ 0 ∷ 0 ∷ []) (0 ∷ 0 ∷ 0 ∷ 0 ∷ 142 ∷ 108 ∷ 0 ∷ 3 ∷ 8 ∷ hi) 7 6
      (omega arith) (omega arith) (omega arith) hi_checks

verify_checksum_iff_example :
    (verify_checksum hi_packet ≡ true)
    ↔ ((0 < word_sum hi_packet) × (word_sum hi_packet % 65535 ≡ 0))
verify_checksum_iff_example = verify_checksum_iff hi_packet

verify-pack_packet_example : verify_checksum hi_packet ≡ true
verify-pack_packet_example = verify-pack_packet 7 0 8 hi pack_hi

unpack-pack_packet_example : (p : Packet) × (unpack_packet hi_packet ≡ some p) × ReadsAs 7 0 8 hi p
unpack-pack_packet_example = unpack-pack_packet 7 0 8 hi pack_hi

abbrev hi_read : Packet
hi_read = record {
  seq = 7;
  ack = 0;
  checksum = 36460;
  length = 3;
  flags = 8;
  payload = hi;
  raw_header = 0 ∷ 0 ∷ 0 ∷ 7 ∷ 0 ∷ 0 ∷ 0 ∷ 0 ∷ 142 ∷ 108 ∷ 0 ∷ 3 ∷ 8 ∷ [];
}

unpack_hi : unpack_packet hi_packet ≡ some hi_read
unfolding unpack_packet unpack_header take drop
unpack_hi = refl

pack-unpack_packet_example : pack_packet 7 0 8 hi ≡ some hi_packet
pack-unpack_packet_example =
    pack-unpack_packet hi_packet hi_read (omega arith) hi_checks unpack_hi (omega arith)

-- encode_blocks(b'hi!')
hi_framed : encode_blocks hi ≡ 0x40 ∷ 0 ∷ 3 ∷ hi
unfolding encode_blocks
hi_framed = refl

hi_unframed : decode_blocks (0x40 ∷ 0 ∷ 3 ∷ hi) ≡ ok hi
unfolding decode_blocks
hi_unframed = refl

two_blocks : decode_blocks (0 ∷ 0 ∷ 1 ∷ 104 ∷ 0x40 ∷ 0 ∷ 2 ∷ 105 ∷ 33 ∷ []) ≡ ok hi
unfolding decode_blocks
two_blocks = refl

decode-encode_blocks_example : decode_blocks (encode_blocks hi) ≡ ok hi
decode-encode_blocks_example = decode-encode_blocks hi

decode_blocks_iff_example :
    (decode_blocks (0x40 ∷ 0 ∷ 3 ∷ hi) ≡ ok hi) ↔ Framed (0x40 ∷ 0 ∷ 3 ∷ hi) hi
decode_blocks_iff_example = decode_blocks_iff (0x40 ∷ 0 ∷ 3 ∷ hi) hi

decode_blocks_extended_example :
    decode_blocks ((0x40 ∷ 0 ∷ 3 ∷ hi) ++ (0 ∷ [])) ≡ BlockMode.err after_eof
decode_blocks_extended_example = decode_blocks_extended (0x40 ∷ 0 ∷ 3 ∷ hi) hi [] 0 hi_unframed

decode_blocks_truncated_example :
    (e : BlockMode.BlockModeError) × (decode_blocks (0x40 ∷ 0 ∷ 3 ∷ []) ≡ BlockMode.err e)
decode_blocks_truncated_example =
    decode_blocks_truncated (0x40 ∷ 0 ∷ 3 ∷ []) (105 ∷ 33 ∷ []) hi 104 hi_unframed

length-encode_blocks_example : length (encode_blocks hi) ≡ 3 + 3 * 1
length-encode_blocks_example = length-encode_blocks hi

decode_blocks-ne-stuck_example : decode_blocks (0 ∷ 0 ∷ 1 ∷ 104 ∷ []) ≢ stuck
decode_blocks-ne-stuck_example = decode_blocks-ne-stuck (0 ∷ 0 ∷ 1 ∷ 104 ∷ [])

compute_checksum-norm_example : compute_checksum hi ≡ 65535 - norm (word_sum hi)
compute_checksum-norm_example = compute_checksum-norm hi

encode_blocks-IsByte_example : All IsByte (encode_blocks hi)
encode_blocks-IsByte_example = encode_blocks-IsByte hi (omega arith)
