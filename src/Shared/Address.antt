-- ===== src/Shared/Address.antt =====
-- The pairs `(host, port)`. Host names are only compared and resolved, so they are numbers.
use computer_network_socket.Base.{
  ℕ, ◌≡◌, ◌≢◌, Bool, true, false, ◌&&◌, Option, none, some, ◌==◌, arith,
}

pub record Address : Type 0 where
  pub host : ℕ
  pub port : ℕ

abbrev pub same_address : Address → Address → Bool
same_address a b = a.host == b.host && a.port == b.port

pub same_address→eq : (a b : Address) → same_address a b ≡ true → a ≡ b
same_address→eq a b h = ground arith

pub ne→same_address : (a b : Address) → a ≢ b → same_address a b ≡ false
ne→same_address a b h = ground arith

pub same_address_refl : (a : Address) → same_address a a ≡ true
same_address_refl a = ground arith

-- `_normalize_peer_address`; `gethostbyname` is the system's, and `none` is its `OSError`.
pub normalize_peer_address : (ℕ → Option ℕ) → Address → Address
normalize_peer_address gethostbyname address = elim (gethostbyname address.host) [
  | none ↦ address
  | some host' ↦ record address { host = host' }
]
