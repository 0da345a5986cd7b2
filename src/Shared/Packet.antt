-- ===== src/Shared/Packet.antt =====
-- shared/packet_struct.py: the RDT packet. `none` stands for the exception: `struct.error` where a
-- number does not fit its field, `ValueError` where bytes are no packet.
pub mod RoundTrip
use computer_network_socket.Base.{
  ℕ, ◌+◌, ◌*◌, ◌/◌, ◌%◌, ◌^◌, Bool, ◌&&◌, Option, none, some, List, [], ◌∷◌, ◌++◌, length, take,
  drop, ltb, ◌==◌, if◌then◌else◌,
}
use computer_network_socket.Shared.Constants.{header_size}
use computer_network_socket.Shared.Checksum.{compute_checksum}

-- The dictionary that `unpack_packet` returns.
pub record Packet : Type 0 where
  pub seq : ℕ
  pub ack : ℕ
  pub checksum : ℕ
  pub length : ℕ
  pub flags : ℕ
  pub payload : List ℕ
  pub raw_header : List ℕ

-- The `Option` of a fallible call, with the rest of the caller.
infixl 5 ◌>>=◌
abbrev pub ◌>>=◌ {ℓ κ} : {A : Type ℓ} {B : Type κ} → Option A → (A → Option B) → Option B
none >>= f = none
some a >>= f = f a

abbrev u16 : ℕ → List ℕ → List ℕ
u16 n rest = n / 256 ∷ n % 256 ∷ rest

abbrev u32 : ℕ → List ℕ → List ℕ
u32 n rest = n / 2 ^ 24 ∷ n / 2 ^ 16 % 256 ∷ n / 256 % 256 ∷ n % 256 ∷ rest

-- The ranges that `struct.pack('!IIHHB', …)` accepts.
abbrev pub fits : ℕ → ℕ → ℕ → ℕ → ℕ → Bool
fits seq ack checksum len flags =
    ltb seq (2 ^ 32)
    && (ltb ack (2 ^ 32) && (ltb checksum 65536 && (ltb len 65536 && ltb flags 256)))

unfoldable pub pack_header : ℕ → ℕ → ℕ → ℕ → ℕ → Option (List ℕ)
pack_header seq ack checksum len flags =
    if fits seq ack checksum len flags
    then some (u32 seq (u32 ack (u16 checksum (u16 len (flags ∷ [])))))
    else none

unfoldable pub pack_packet : ℕ → ℕ → ℕ → List ℕ → Option (List ℕ)
pack_packet seq ack flags payload = do
  dummy_header ← pack_header seq ack 0 (length payload) flags
  let chksum = compute_checksum (dummy_header ++ payload)
  real_header ← pack_header seq ack chksum (length payload) flags
  some (real_header ++ payload)

-- `struct.unpack('!IIHHB', header)`, which takes 13 bytes and no other number of them.
unfoldable pub unpack_header : List ℕ → List ℕ → Option Packet
unpack_header (s3 ∷ s2 ∷ s1 ∷ s0 ∷ a3 ∷ a2 ∷ a1 ∷ a0 ∷ c1 ∷ c0 ∷ l1 ∷ l0 ∷ f ∷ []) body =
    some (record {
      seq = s3 * 2 ^ 24 + s2 * 2 ^ 16 + s1 * 256 + s0;
      ack = a3 * 2 ^ 24 + a2 * 2 ^ 16 + a1 * 256 + a0;
      checksum = c1 * 256 + c0;
      length = l1 * 256 + l0;
      flags = f;
      payload = body;
      raw_header = s3 ∷ s2 ∷ s1 ∷ s0 ∷ a3 ∷ a2 ∷ a1 ∷ a0 ∷ c1 ∷ c0 ∷ l1 ∷ l0 ∷ f ∷ [];
    })
unpack_header _ body = none

unfoldable pub unpack_packet : List ℕ → Option Packet
unpack_packet packet_bytes =
    if ltb (length packet_bytes) header_size
    then none
    else (unpack_header (take header_size packet_bytes) (drop header_size packet_bytes) >>= λ p.
        if p.length == length p.payload then some p else none)
