-- ===== src/Codec/RoundTrip.antt =====
-- What an upload or a download makes of a file, from the bytes read on one side to those written on the other.
use computer_network_socket.Base.{
  ℕ, ◌≡◌, refl, ◌∙◌, inl, inr, some, List, [], ◌∷◌, Bool, true, false, ◌==◌, if◌then◌else◌, arith,
  Bool-cases, ==→eq,
}
use computer_network_socket.Base.Text.{Text}
use computer_network_socket.Shared.BlockMode.RoundTrip.{decode-encode_blocks}
use computer_network_socket.Server.Session.{
  TransferType, ascii, image, TransferMode, stream, block, compressed,
}
use computer_network_socket.Codec.{
  Platform, Converted, bytes, not_utf8, bad_blocks, bad_compression, cr, lf, crlf, replace_crlf,
  replace_cr, normalize_newlines, replace_lf, convert_text, apply_mode, to_wire,
  encode_for_transfer, remove_mode, from_content, decode_from_transfer, apply_outgoing_type,
  prepare_upload_data, process_download_data,
}

-- What one side's zlib compresses, the other's decompresses.
abbrev pub Decompresses : Platform → Platform → Type 0
Decompresses from to = (b : List ℕ) → to.decompress (from.compress b) ≡ some b

-- The UTF-8 of one side is read back by the other.
abbrev pub DecodesText : Platform → Platform → Type 0
DecodesText from to = (t : Text) → to.utf8_decode (from.utf8_encode t) ≡ some t

-- The bytes of one conversion go through the next one; an error ends the transfer.
unfoldable pub on_bytes : Converted → (List ℕ → Converted) → Converted
on_bytes (bytes b) f = f b
on_bytes not_utf8 f = not_utf8
on_bytes bad_blocks f = bad_blocks
on_bytes bad_compression f = bad_compression

-- A file's bytes from the client's disk to the server's, and from the server's disk to the client's.
unfoldable pub upload : Platform → Platform → TransferType → TransferMode → List ℕ → Converted
unfolding on_bytes
upload client server type mode content =
    on_bytes (prepare_upload_data client type mode content) (decode_from_transfer server type mode)

unfoldable pub download : Platform → Platform → TransferType → TransferMode → List ℕ → Converted
unfolding on_bytes
download client server type mode content =
    on_bytes (encode_for_transfer server type mode content) (process_download_data client type mode)

remove-apply_mode :
    (from to : Platform) (mode : TransferMode) (content : List ℕ)
    → Decompresses from to
    → remove_mode to mode (apply_mode from mode content) ≡ bytes content
unfolding remove_mode apply_mode
remove-apply_mode from to stream content z = refl
remove-apply_mode from to block content z = rw (decode-encode_blocks content, remove_mode)
remove-apply_mode from to compressed content z = rw (z content, remove_mode)

unfoldable pub no_cr : Text → Bool
no_cr [] = true
no_cr (c ∷ rest) = if c == cr then false else no_cr rest

replace_crlf_other :
    (c : ℕ) (t : Text) → (c == cr) ≡ false → replace_crlf (c ∷ t) ≡ c ∷ replace_crlf t
unfolding replace_crlf
replace_crlf_other c [] h = refl
replace_crlf_other c (d ∷ t) h = rw h

normalize-pair : (t : Text) → normalize_newlines (cr ∷ lf ∷ t) ≡ lf ∷ normalize_newlines t
unfolding normalize_newlines replace_crlf replace_cr
normalize-pair t = refl

normalize-other :
    (c : ℕ) (t : Text) → (c == cr) ≡ false → normalize_newlines (c ∷ t) ≡ c ∷ normalize_newlines t
unfolding normalize_newlines
normalize-other c t h = rw (replace_crlf_other c t h) (unfold replace_cr in rw h)

no_cr-head : (c : ℕ) (t : Text) → no_cr (c ∷ t) ≡ true → ((c == cr) ≡ false) × (no_cr t ≡ true)
unfolding no_cr
no_cr-head c t h = ground arith

replace_lf-lf : (t : Text) → replace_lf crlf (lf ∷ t) ≡ cr ∷ lf ∷ replace_lf crlf t
unfolding replace_lf
replace_lf-lf t = refl

replace_lf-other :
    (c : ℕ) (t : Text) → (c == lf) ≡ false → replace_lf crlf (c ∷ t) ≡ c ∷ replace_lf crlf t
unfolding replace_lf
replace_lf-other c t h = rw h

normalize-nil : normalize_newlines (replace_lf crlf []) ≡ []
unfolding normalize_newlines replace_crlf replace_cr replace_lf
normalize-nil = refl

-- Text without CR survives the way to CRLF and back.
pub normalize-crlf : (t : Text) → no_cr t ≡ true → normalize_newlines (replace_lf crlf t) ≡ t
normalize-crlf [] h = normalize-nil
normalize-crlf (c ∷ t) h =
    let (other, rest) = no_cr-head c t h in
    elim (Bool-cases (c == lf)) [
      | inl is_lf ↦ rw (
        ==→eq c lf is_lf,
        replace_lf-lf t,
        normalize-pair (replace_lf crlf t),
        normalize-crlf t rest,
      )
      | inr not_lf ↦ rw (
        replace_lf-other c t not_lf,
        normalize-other c (replace_lf crlf t) other,
        normalize-crlf t rest,
      )
    ]

no_cr-replace_cr : (u : Text) → no_cr (replace_cr u) ≡ true
unfolding replace_cr no_cr
no_cr-replace_cr [] = refl
no_cr-replace_cr (c ∷ u) = ground (arith, no_cr-replace_cr u)

normalize_again :
    (t : Text) → normalize_newlines (replace_lf crlf (normalize_newlines t)) ≡ normalize_newlines t
normalize_again t =
    normalize-crlf (normalize_newlines t)
      (unfold normalize_newlines in no_cr-replace_cr (replace_crlf t))

-- A file's text as the side writes it: its lines end in the separator there.
abbrev pub text_file : Platform → Text → List ℕ
text_file to t = to.utf8_encode (replace_lf to.linesep (normalize_newlines t))

convert_text-some :
    (pf : Platform) (separator : Text) (content : List ℕ) (t : Text)
    → pf.utf8_decode content ≡ some t
    → convert_text pf separator content
      ≡ bytes (pf.utf8_encode (replace_lf separator (normalize_newlines t)))
unfolding convert_text
convert_text-some pf separator content t h = rw (h, convert_text)

convert_text-again :
    (from to : Platform) (t : Text)
    → DecodesText from to
    → convert_text to to.linesep (from.utf8_encode (replace_lf crlf (normalize_newlines t)))
      ≡ bytes (text_file to t)
convert_text-again from to t d =
    convert_text-some to to.linesep (from.utf8_encode (replace_lf crlf (normalize_newlines t)))
      (replace_lf crlf (normalize_newlines t)) (d (replace_lf crlf (normalize_newlines t)))
    ∙ rw (normalize_again t)

-- With a zlib that undoes itself, a TYPE I file arrives byte for byte in every MODE, uploaded or downloaded.
pub image_round_trip :
    (client server : Platform) (mode : TransferMode) (content : List ℕ)
    → Decompresses client server
    → Decompresses server client
    → (upload client server image mode content ≡ bytes content)
      × (download client server image mode content ≡ bytes content)
unfolding upload download on_bytes prepare_upload_data decode_from_transfer encode_for_transfer
    process_download_data apply_outgoing_type to_wire from_content
image_round_trip client server mode content up down = (
  rw (remove-apply_mode client server mode content up),
  rw (remove-apply_mode server client mode content down),
)

-- With zlib and UTF-8 that undo themselves, a TYPE A file whose bytes are the text t arrives in every MODE,
-- uploaded or downloaded, as the text t with each line end written the way of the side that stores it.
pub text_round_trip :
    (client server : Platform) (mode : TransferMode) (content : List ℕ) (t : Text)
    → Decompresses client server
    → Decompresses server client
    → DecodesText client server
    → DecodesText server client
    → client.utf8_decode content ≡ some t
    → server.utf8_decode content ≡ some t
    → (upload client server ascii mode content ≡ bytes (text_file server t))
      × (download client server ascii mode content ≡ bytes (text_file client t))
unfolding upload download on_bytes prepare_upload_data decode_from_transfer encode_for_transfer
    process_download_data apply_outgoing_type to_wire from_content
text_round_trip client server mode content t up down text_up text_down at_client at_server = (
  rw (
    convert_text-some client crlf content t at_client,
    remove-apply_mode client server mode
        (client.utf8_encode (replace_lf crlf (normalize_newlines t))) up,
    convert_text-again client server t text_up,
  ),
  rw (
    convert_text-some server crlf content t at_server,
    remove-apply_mode server client mode
        (server.utf8_encode (replace_lf crlf (normalize_newlines t))) down,
    convert_text-again server client t text_down,
  ),
)
