-- ===== src/Shared/Packet/RoundTrip.antt =====
-- What `pack_packet` writes, `verify_checksum` accepts and `unpack_packet` reads back.
use computer_network_socket.Base.{
  ℕ, zero, suc, ◌+◌, ◌-◌, ◌%◌, ◌^◌, ◌<◌, ◌≡◌, ◌∙◌, refl, true, some, List, [], ◌∷◌, arith, length,
  take, drop, All,
}
use computer_network_socket.Shared.Constants.{IsByte}
use computer_network_socket.Shared.Checksum.{compute_checksum, verify_checksum}
use computer_network_socket.Shared.Checksum.Norm.{
  word_sum, norm, compute_checksum-norm, verify_checksum_iff,
}
use computer_network_socket.Shared.Packet.{
  Packet, u16, u32, pack_header, pack_packet, unpack_header, unpack_packet,
}

-- The numbers that the header's fields hold.
pub record Fits (seq ack flags : ℕ) (body : List ℕ) : Type 0 where
  pub seq_fits : seq < 2 ^ 32
  pub ack_fits : ack < 2 ^ 32
  pub flags_fit : flags < 256
  pub length_fits : length body < 65536

-- The header bytes.
abbrev pub header : ℕ → ℕ → ℕ → ℕ → ℕ → List ℕ → List ℕ
header seq ack checksum len flags body = u32 seq (u32 ack (u16 checksum (u16 len (flags ∷ body))))

pub chksum_of : ℕ → ℕ → ℕ → List ℕ → ℕ
chksum_of seq ack flags body = compute_checksum (header seq ack 0 (length body) flags body)

compute_checksum-lt : (bs : List ℕ) → compute_checksum bs < 65536
compute_checksum-lt bs = rw compute_checksum-norm (omega arith)

pack_header_lem :
    (seq ack checksum flags : ℕ) (body : List ℕ)
    → Fits seq ack flags body
    → checksum < 65536
    → pack_header seq ack checksum (length body) flags
      ≡ some (header seq ack checksum (length body) flags [])
unfolding pack_header
pack_header_lem seq ack checksum flags body f h = ground arith

-- On numbers that fit, the packet is the header followed by the payload.
pub pack_packet_lem :
    (seq ack flags : ℕ) (body : List ℕ)
    → Fits seq ack flags body
    → pack_packet seq ack flags body
      ≡ some (header seq ack (chksum_of seq ack flags body) (length body) flags body)
unfolding pack_packet chksum_of
pack_packet_lem seq ack flags body f = rw (pack_header_lem seq ack 0 flags body f (omega arith)) (
    rw (
      pack_header_lem seq ack (compute_checksum (header seq ack 0 (length body) flags body)) flags
        body f (compute_checksum-lt _)))

word_sum-header :
    (seq ack c len flags : ℕ) (body : List ℕ)
    → word_sum (header seq ack c len flags body) ≡ word_sum (header seq ack 0 len flags body) + c
word_sum-header seq ack c len flags [] = omega arith
word_sum-header seq ack c len flags (b ∷ body) = omega arith

complement_lem : (s : ℕ) → (0 < s + (65535 - norm s)) × ((s + (65535 - norm s)) % 65535 ≡ 0)
complement_lem zero = (omega arith, refl)
complement_lem (suc n) = (omega arith, omega arith)

verify-header :
    (seq ack flags : ℕ) (body : List ℕ)
    → verify_checksum (header seq ack (chksum_of seq ack flags body) (length body) flags body)
      ≡ true
unfolding chksum_of
verify-header seq ack flags body =
    let h = header seq ack 0 (length body) flags body in
    (verify_checksum_iff _).1 (
      rw
        (
          word_sum-header seq ack (compute_checksum h) (length body) flags body,
          compute_checksum-norm h,
        )
        (complement_lem (word_sum h)))

abbrev read_packet : ℕ → ℕ → ℕ → ℕ → List ℕ → Packet
read_packet seq ack c flags body = record {
  seq = seq;
  ack = ack;
  checksum = c;
  length = length body;
  flags = flags;
  payload = body;
  raw_header = header seq ack c (length body) flags [];
}

unpack-header :
    (seq ack c flags : ℕ) (body : List ℕ)
    → Fits seq ack flags body
    → unpack_packet (header seq ack c (length body) flags body)
      ≡ some (read_packet seq ack c flags body)
unfolding unpack_packet unpack_header take drop
unpack-header seq ack c flags body f = ground arith

some-Fits :
    (seq ack flags : ℕ) (body : List ℕ) {bs : List ℕ}
    → pack_packet seq ack flags body ≡ some bs
    → Fits seq ack flags body
unfolding pack_packet pack_header
some-Fits seq ack flags body e = ground arith

pack_packet-eq_header :
    (seq ack flags : ℕ) (body : List ℕ) {bs : List ℕ}
    → pack_packet seq ack flags body ≡ some bs
    → bs ≡ header seq ack (chksum_of seq ack flags body) (length body) flags body
pack_packet-eq_header seq ack flags body e =
    cc (pack_packet_lem seq ack flags body (some-Fits seq ack flags body e))

-- Where packing succeeds, the packet passes the receiver's checksum test.
pub verify-pack_packet :
    (seq ack flags : ℕ) (body : List ℕ) {bs : List ℕ}
    → pack_packet seq ack flags body ≡ some bs
    → verify_checksum bs ≡ true
verify-pack_packet seq ack flags body e =
    rw (pack_packet-eq_header seq ack flags body e) (verify-header seq ack flags body)

-- What a packed packet is read back as.
pub record ReadsAs (seq ack flags : ℕ) (body : List ℕ) (p : Packet) : Type 0 where
  pub seq_eq : p.seq ≡ seq
  pub ack_eq : p.ack ≡ ack
  pub flags_eq : p.flags ≡ flags
  pub length_eq : p.length ≡ length body
  pub payload_eq : p.payload ≡ body

-- Where packing succeeds, `unpack_packet` reads the packet back, with the fields that were packed.
pub unpack-pack_packet :
    (seq ack flags : ℕ) (body : List ℕ) {bs : List ℕ}
    → pack_packet seq ack flags body ≡ some bs
    → (p : Packet) × (unpack_packet bs ≡ some p) × ReadsAs seq ack flags body p
unpack-pack_packet seq ack flags body {bs} e =
    let f = some-Fits seq ack flags body e in
    let c = chksum_of seq ack flags body in
    let h = unpack-header seq ack c flags body f in
    (
      read_packet seq ack c flags body,
      rw (pack_packet-eq_header seq ack flags body e) h,
      record { seq_eq = refl; ack_eq = refl; flags_eq = refl; length_eq = refl; payload_eq = refl },
    )

pub packed-ReadsAs :
    (seq ack flags : ℕ) (body : List ℕ) {bs : List ℕ} (p : Packet)
    → pack_packet seq ack flags body ≡ some bs
    → unpack_packet bs ≡ some p
    → ReadsAs seq ack flags body p
packed-ReadsAs seq ack flags body p e u =
    let (q, uq, r) = unpack-pack_packet seq ack flags body e in
    let same : q ≡ p = cc in rw same at r

-- Inversion: bytes that unpack are a header and its payload.
unpack_packet_inv :
    (bs : List ℕ) (p : Packet)
    → All IsByte bs
    → unpack_packet bs ≡ some p
    → (bs ≡ header p.seq p.ack p.checksum p.length p.flags p.payload)
      × (p.length ≡ length p.payload)
      × (p.seq < 2 ^ 32)
      × (p.ack < 2 ^ 32)
      × (p.flags < 256)
      × (p.length < 65536)
      × (p.checksum < 65536)
unfolding unpack_packet unpack_header take drop
unpack_packet_inv (s3 ∷ s2 ∷ s1 ∷ s0 ∷ a3 ∷ a2 ∷ a1 ∷ a0 ∷ c1 ∷ c0 ∷ l1 ∷ l0 ∷ f ∷ body) p h e =
    ground arith
unpack_packet_inv _ p h e = ground arith

complement_unique : (s c : ℕ) → c < 65535 → 0 < s + c → (s + c) % 65535 ≡ 0 → 65535 - norm s ≡ c
complement_unique zero c hc hp hm = absurd (omega arith)
complement_unique (suc n) c hc hp hm = omega arith

repack_chksum :
    (seq ack c flags : ℕ) (body : List ℕ)
    → c < 65535
    → verify_checksum (header seq ack c (length body) flags body) ≡ true
    → chksum_of seq ack flags body ≡ c
unfolding chksum_of
repack_chksum seq ack c flags body hc ok =
    let h = header seq ack 0 (length body) flags body in
    let sums = (verify_checksum_iff _).0 ok in
    compute_checksum-norm h
    ∙ complement_unique (word_sum h) c hc
        (omega (arith, sums, word_sum-header seq ack c (length body) flags body))
        (omega (arith, sums, word_sum-header seq ack c (length body) flags body))

-- Bytes that verify and unpack are what packing the fields read from them writes, when the checksum
-- field is below 65535, the second form of zero.
pub pack-unpack_packet :
    (bs : List ℕ) (p : Packet)
    → All IsByte bs
    → verify_checksum bs ≡ true
    → unpack_packet bs ≡ some p
    → p.checksum < 65535
    → pack_packet p.seq p.ack p.flags p.payload ≡ some bs
pack-unpack_packet bs p hb ok e hc =
    let (shape, len, hs, ha, hf, hl, hk) = unpack_packet_inv bs p hb e in
    let whole : bs ≡ header p.seq p.ack p.checksum (length p.payload) p.flags p.payload =
      rw (← len) shape in
    let fits : Fits p.seq p.ack p.flags p.payload = record {
      seq_fits = hs;
      ack_fits = ha;
      flags_fit = hf;
      length_fits = omega arith;
    } in
    pack_packet_lem p.seq p.ack p.flags p.payload fits
    ∙ rw (repack_chksum p.seq p.ack p.checksum p.flags p.payload hc (rw whole at ok), whole)
