-- ===== src/Client/Handlers/Patterns.antt =====
-- The regular expressions PASSIVE_PORT_PATTERN of client/control/handlers/transfer_setup_handler.py and
-- REMOTE_NAME_PATTERN of transfer_handler.py, on ASCII text: a field name at a word boundary, in any case, and its value.
use computer_network_socket.Base.{
  ℕ, ◌-◌, Bool, false, not, ◌&&◌, ◌||◌, Option, none, some, [], ◌∷◌, length, leb, ◌==◌,
  if◌then◌else◌,
}
use computer_network_socket.Base.Text.{Text, text, is_space, is_empty}
use computer_network_socket.Client.Connection.{is_digit, digits_value}

abbrev pub is_word : ℕ → Bool
is_word c = is_digit c || leb b'A' c && leb c b'Z' || leb b'a' c && leb c b'z' || c == b'_'

abbrev pub upper_char : ℕ → ℕ
upper_char c = if leb b'a' c && leb c b'z' then c - 32 else c

-- What follows the name, if the text begins with it. The name is in upper case.
unfoldable pub after_name : Text → Text → Option Text
after_name [] t = some t
after_name (n ∷ ns) [] = none
after_name (n ∷ ns) (c ∷ cs) =
    let rest = after_name ns cs in if upper_char c == n then rest else none

-- The digits at the front, and what follows them.
unfoldable pub span_digits : Text → Text × Text
span_digits [] = ([], [])
span_digits (c ∷ cs) =
    let (ds, rest) = span_digits cs in if is_digit c then (c ∷ ds, rest) else ([], c ∷ cs)

unfoldable pub take_nonspace : Text → Text
unfolding is_space
take_nonspace [] = []
take_nonspace (c ∷ cs) = let rest = take_nonspace cs in if is_space c then [] else c ∷ rest

abbrev pub starts_word : Text → Bool
starts_word [] = false
starts_word (c ∷ cs) = is_word c

abbrev pub port_of : Text × Text → Option ℕ
port_of (ds, rest) =
    if not (is_empty ds) && (leb (length ds) 5 && not (starts_word rest))
    then some (digits_value 0 ds)
    else none

abbrev pub nonempty : Text → Option Text
nonempty [] = none
nonempty (c ∷ cs) = some (c ∷ cs)

module _ {A : Type 0} (name : Text) (value : Text → Option A) where
  -- The value at the front of the text, if the field stands there.
  abbrev pub field_here : Text → Option A
  field_here t = elim (after_name name t) [ none ↦ none | some rest ↦ value rest ]

  -- `re.search`: the first place where the field stands, not inside a word.
  unfoldable pub search_field : Bool → Text → Option A
  unfolding after_name
  search_field in_word [] = none
  search_field in_word (c ∷ cs) =
      let later = search_field (is_word c) cs in
      elim (if in_word then none else field_here (c ∷ cs)) [ none ↦ later | some v ↦ some v ]

unfoldable pub search_udp_port : Text → Option ℕ
unfolding search_field span_digits digits_value text
search_udp_port response =
    search_field (text "UDP_PORT=") (λ t. port_of (span_digits t)) false response

unfoldable pub search_remote_name : Text → Option Text
unfolding search_field take_nonspace text
search_remote_name message =
    search_field (text "REMOTE_NAME=") (λ t. nonempty (take_nonspace t)) false message
