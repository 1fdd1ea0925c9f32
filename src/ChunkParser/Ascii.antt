-- ===== src/ChunkParser/Ascii.antt =====
-- ChunkParser.ts: `decodeASCII` and `encodeASCII`, which also the websocket transport uses.
pub mod RoundTrip
use grpc_web.Prelude.{ℕ, ◌%◌, Bool, true, false, ◌&&◌, ◌||◌, List, [], ◌∷◌, map}
use grpc_web.Prelude.{leb, ◌==◌, if◌then◌else◌, Text, Bytes, text, Result, ok, thrown, map_ok}

unfoldable pub is_allowed_control_chars : ℕ → Bool
is_allowed_control_chars char = char == 0x9 || char == 0xa || char == 0xd

unfoldable pub is_valid_header_ascii : ℕ → Bool
unfolding is_allowed_control_chars
is_valid_header_ascii val = is_allowed_control_chars val || (leb 0x20 val && leb val 0x7e)

-- The loop of `decodeASCII`: it throws at the first byte that is not valid.
unfoldable pub all_valid : Bytes → Bool
all_valid [] = true
all_valid (b ∷ bs) = is_valid_header_ascii b && all_valid bs

-- String.fromCharCode keeps 16 bits of each number.
unfoldable pub from_char_code : Bytes → Text
from_char_code = map (λ b. b % 65536)

unfoldable pub decode_ascii : Bytes → Result Text
decode_ascii input =
    if all_valid input
    then ok (from_char_code input)
    else thrown (text "Metadata is not valid (printable) ASCII")

-- The loop of `encodeASCII`. An element of a Uint8Array keeps 8 bits of what is written.
unfoldable pub encode_ascii : Text → Result Bytes
encode_ascii [] = ok []
encode_ascii (char_code ∷ input) =
    if is_valid_header_ascii char_code
    then map_ok (λ encoded. (char_code % 256) ∷ encoded) (encode_ascii input)
    else thrown (text "Metadata contains invalid ASCII")
