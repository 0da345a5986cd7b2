-- ===== src/Shared/Rdt/Action.antt =====
-- What a turn does: it sends datagrams and reports progress, and it may raise an exception.
use computer_network_socket.Base.{ℕ, Bool, true, false, Option, none, some, List, [], ◌∷◌, ◌++◌}
use computer_network_socket.Shared.Address.{Address}

pub data Effect : Type 0 where
  send : List ℕ → Address → Effect
  progress : ℕ → ℕ → Effect

-- InterruptedError, RDTDataTimeout, RDTTeardownTimeout, struct.error.
pub data Exception : Type 0 where
  interrupted data_timeout teardown_timeout struct_error : Exception

pub data Result (A : Type 0) : Type 0 where
  ok : A → Result A
  raised : Exception → Result A

-- The effects so far stay when the call raises.
abbrev pub Action : Type 0 → Type 0
Action A = List Effect × Result A

abbrev pub after : {A : Type 0} → List Effect → Action A → Action A
after es (es', r) = (es ++ es', r)

infixl 5 ◌>>=◌ ◌>>◌
abbrev pub ◌>>=◌ : {A B : Type 0} → Action A → (A → Action B) → Action B
◌>>=◌ (es, r) f = elim r [ ok a ↦ after es (f a) | raised x ↦ (es, raised x) ]

abbrev pub ◌>>◌ : {A B : Type 0} → Action A → Action B → Action B
m >> k = m >>= λ _. k

abbrev pub pure : {A : Type 0} → A → Action A
pure a = ([], ok a)

abbrev pub raise : {A : Type 0} → Exception → Action A
raise x = ([], raised x)

-- `_raise_if_cancelled`, given what `cancel_event.is_set()` says at that moment.
abbrev pub raise_if_cancelled : Bool → Action (Unit {0})
raise_if_cancelled cancelled = elim cancelled [ true ↦ raise interrupted | false ↦ pure tt ]

-- `udp_socket.sendto(pack_packet(…), address)`
abbrev pub send_packet : Option (List ℕ) → Address → Action (Unit {0})
send_packet none to = raise struct_error
send_packet (some bs) to = (send bs to ∷ [], ok tt)

abbrev pub report : ℕ → ℕ → Action (Unit {0})
report current total = (progress current total ∷ [], ok tt)

-- What `recvfrom` does: the wait ends, or a datagram arrives from an address.
pub data Arrival : Type 0 where
  timed_out : Arrival
  datagram : List ℕ → Address → Arrival
