-- ===== src/Tests/Conversion.antt =====
-- Runs of TYPE and MODE between a client that writes CRLF and a server that writes LF.
use computer_network_socket.Base.{
  ℕ, ◌≡◌, refl, Option, none, some, List, [], ◌∷◌, ◌==◌, if◌then◌else◌,
}
use computer_network_socket.Server.Session.{ascii, image, compressed}
use computer_network_socket.Codec.{
  Platform, bytes, crlf, lf, replace_crlf, replace_cr, replace_lf, normalize_newlines,
}
use computer_network_socket.Codec.RoundTrip.{upload, download, image_round_trip, text_round_trip}

-- A compression that only marks its data.
abbrev marked : List ℕ → Option (List ℕ)
marked [] = none
marked (mark ∷ content) = if mark == 120 then some content else none

abbrev windows : Platform
windows = record {
  utf8_decode = some;
  utf8_encode = λ t. t;
  compress = λ content. 120 ∷ content;
  decompress = marked;
  linesep = crlf;
}

abbrev unix : Platform
unix = record {
  utf8_decode = some;
  utf8_encode = λ t. t;
  compress = λ content. 120 ∷ content;
  decompress = marked;
  linesep = lf ∷ [];
}

-- "a\r\nb\rc" on the client's disk.
abbrev notes : List ℕ
notes = 97 ∷ 13 ∷ 10 ∷ 98 ∷ 13 ∷ 99 ∷ []

notes_normalized : normalize_newlines notes ≡ 97 ∷ 10 ∷ 98 ∷ 10 ∷ 99 ∷ []
unfolding normalize_newlines replace_crlf replace_cr
notes_normalized = refl

image_round_trip_example :
    (upload windows unix image compressed notes ≡ bytes notes)
    × (download windows unix image compressed notes ≡ bytes notes)
image_round_trip_example = image_round_trip windows unix compressed notes (λ b. refl) (λ b. refl)

text_round_trip_example :
    (upload windows unix ascii compressed notes ≡ bytes (97 ∷ 10 ∷ 98 ∷ 10 ∷ 99 ∷ []))
    × (download windows unix ascii compressed notes ≡ bytes (97 ∷ 13 ∷ 10 ∷ 98 ∷ 13 ∷ 10 ∷ 99 ∷ []))
unfolding replace_lf normalize_newlines replace_crlf replace_cr
text_round_trip_example =
    text_round_trip windows unix compressed notes notes (λ b. refl) (λ b. refl) (λ t. refl)
      (λ t. refl) refl refl
