-- ===== src/Codec.antt =====
-- TYPE and MODE conversions: server/control/transfer_codec.py and client/control/data_transfer_service.py.
-- UTF-8, zlib and the line separator are the platform's and are parameters.
pub mod RoundTrip
use computer_network_socket.Base.{
  ℕ, ◌≡◌, Option, none, some, List, [], ◌∷◌, ◌++◌, Bool, true, false, ◌==◌, if◌then◌else◌,
}
use computer_network_socket.Base.Text.{Text}
use computer_network_socket.Shared.BlockMode.{Decoded, ok, err, stuck, encode_blocks, decode_blocks}
use computer_network_socket.Server.Session.{
  TransferType, ascii, image, TransferMode, stream, block, compressed,
}

pub record Platform : Type 0 where
  pub utf8_decode : List ℕ → Option Text
  pub utf8_encode : Text → List ℕ
  pub compress : List ℕ → List ℕ
  pub decompress : List ℕ → Option (List ℕ)
  pub linesep : Text

-- What DataTransferError and ClientDataProcessingError report, and bytes where there is no error.
pub data Converted : Type 0 where
  bytes : List ℕ → Converted
  not_utf8 bad_blocks bad_compression : Converted

abbrev pub cr : ℕ
cr = 13

abbrev pub lf : ℕ
lf = 10

-- `text.replace("\r\n", "\n")`
unfoldable pub replace_crlf : Text → Text
replace_crlf [] = []
replace_crlf (c ∷ []) = c ∷ []
replace_crlf (c ∷ d ∷ rest) =
    let whole = replace_crlf rest in
    let shifted = replace_crlf (d ∷ rest) in
    if c == cr then (if d == lf then lf ∷ whole else c ∷ shifted) else c ∷ shifted

-- `.replace("\r", "\n")`
unfoldable pub replace_cr : Text → Text
replace_cr [] = []
replace_cr (c ∷ rest) = (if c == cr then lf else c) ∷ replace_cr rest

unfoldable pub normalize_newlines : Text → Text
unfolding replace_crlf replace_cr
normalize_newlines t = replace_cr (replace_crlf t)

-- `.replace("\n", separator)`
unfoldable pub replace_lf : Text → Text → Text
replace_lf separator [] = []
replace_lf separator (c ∷ rest) =
    if c == lf then separator ++ replace_lf separator rest else c ∷ replace_lf separator rest

abbrev pub crlf : Text
crlf = cr ∷ lf ∷ []

-- TYPE A in one direction: lines end in the separator.
unfoldable pub convert_text : Platform → Text → List ℕ → Converted
unfolding normalize_newlines replace_lf
convert_text pf separator content = elim (pf.utf8_decode content) [
  | none ↦ not_utf8
  | some t ↦ bytes (pf.utf8_encode (replace_lf separator (normalize_newlines t)))
]

-- MODE in the direction of the wire.
unfoldable pub apply_mode : Platform → TransferMode → List ℕ → List ℕ
unfolding encode_blocks
apply_mode pf stream content = content
apply_mode pf block content = encode_blocks content
apply_mode pf compressed content = pf.compress content

unfoldable pub to_wire : Platform → TransferMode → Converted → Converted
unfolding apply_mode
to_wire pf mode (bytes content) = bytes (apply_mode pf mode content)
to_wire pf mode not_utf8 = not_utf8
to_wire pf mode bad_blocks = bad_blocks
to_wire pf mode bad_compression = bad_compression

-- The server's `encode_for_transfer`.
unfoldable pub encode_for_transfer : Platform → TransferType → TransferMode → List ℕ → Converted
unfolding convert_text to_wire
encode_for_transfer pf ascii mode content = to_wire pf mode (convert_text pf crlf content)
encode_for_transfer pf image mode content = to_wire pf mode (bytes content)

-- MODE in the direction from the wire.
unfoldable pub remove_mode : Platform → TransferMode → List ℕ → Converted
unfolding decode_blocks
remove_mode pf stream wire = bytes wire
remove_mode pf block wire = elim (decode_blocks wire) [
  | ok content ↦ bytes content
  | err e ↦ bad_blocks
  | stuck ↦ bad_blocks
]
remove_mode pf compressed wire = elim (pf.decompress wire) [
  | none ↦ bad_compression
  | some content ↦ bytes content
]

unfoldable pub from_content : Platform → TransferType → Converted → Converted
unfolding convert_text
from_content pf ascii (bytes content) = convert_text pf pf.linesep content
from_content pf image (bytes content) = bytes content
from_content pf type not_utf8 = not_utf8
from_content pf type bad_blocks = bad_blocks
from_content pf type bad_compression = bad_compression

-- The server's `decode_from_transfer`.
unfoldable pub decode_from_transfer : Platform → TransferType → TransferMode → List ℕ → Converted
unfolding remove_mode from_content
decode_from_transfer pf type mode wire = from_content pf type (remove_mode pf mode wire)

-- The client's `_apply_outgoing_type`, `_apply_outgoing_mode` and, on the file's bytes, `prepare_upload_data`.
unfoldable pub apply_outgoing_type : Platform → TransferType → List ℕ → Converted
unfolding convert_text
apply_outgoing_type pf image content = bytes content
apply_outgoing_type pf ascii content = convert_text pf crlf content

unfoldable pub prepare_upload_data : Platform → TransferType → TransferMode → List ℕ → Converted
unfolding apply_outgoing_type to_wire
prepare_upload_data pf type mode content = to_wire pf mode (apply_outgoing_type pf type content)

-- The client's `process_download_data`.
unfoldable pub process_download_data : Platform → TransferType → TransferMode → List ℕ → Converted
unfolding remove_mode from_content
process_download_data pf type mode wire = from_content pf type (remove_mode pf mode wire)
