-- ===== src/Framing.antt =====
-- The length-prefixed frames that are written: client/grpc-web/src/util.ts (`frameRequest`), and
-- client/grpc-web-fake-transport/src/index.ts (`frameResponse`, `frameTrailers`).
-- A message is the bytes that its `serializeBinary` returns.
pub mod Wire
use grpc_web.Prelude.{ℕ, zero, suc, ◌+◌, ◌/◌, ◌%◌, ◌^◌, List, [], ◌∷◌, ◌++◌}
use grpc_web.Prelude.{length, take, drop, replicate, Bytes, Text, text}

-- new ArrayBuffer(n) is filled with zeros.
abbrev pub array_buffer : ℕ → Bytes
array_buffer n = replicate n 0

-- TypedArray.set: the bytes overwrite those of the buffer from the offset on.
unfoldable pub set_bytes : Bytes → ℕ → Bytes → Bytes
set_bytes buffer offset bytes = take offset buffer ++ bytes ++ drop (offset + length bytes) buffer

-- The four bytes that DataView.setUint32(0, n, false) stores, the most significant first.
unfoldable pub uint32_bytes : ℕ → Bytes
uint32_bytes n = n / 2 ^ 24 % 256 ∷ n / 2 ^ 16 % 256 ∷ n / 2 ^ 8 % 256 ∷ n % 256 ∷ []

unfoldable pub frame_request : Bytes → Bytes
frame_request bytes =
    let frame = array_buffer (length bytes + 5) in
    let sized = set_bytes frame 1 (uint32_bytes (length bytes)) in set_bytes sized 5 bytes

unfoldable pub frame_response : Bytes → Bytes
frame_response bytes =
    let frame = array_buffer (length bytes + 5) in
    let sized = set_bytes frame 1 (uint32_bytes (length bytes)) in set_bytes sized 5 bytes

-- `values.join(", ")`.
unfoldable pub join_values : List Text → Text
join_values [] = []
join_values (v ∷ []) = v
join_values (v ∷ w ∷ vs) = v ++ text ", " ++ join_values (w ∷ vs)

-- The loop `trailers.forEach(...)` that builds the header block, also that of the websocket
-- transport: a line `key: values` for each key, ended by CR LF.
unfoldable pub header_block : List (Text × List Text) → Text
header_block [] = []
header_block ((key, values) ∷ entries) =
    key ++ text ": " ++ join_values values ++ (13 ∷ 10 ∷ []) ++ header_block entries

-- `to_buffer` is Node's `new Buffer(string)`; the flag byte is written after the length.
unfoldable pub frame_trailers : (Text → Bytes) → List (Text × List Text) → Bytes
frame_trailers to_buffer entries =
    let bytes = to_buffer (header_block entries) in
    let frame = array_buffer (length bytes + 5) in
    let sized = set_bytes frame 1 (uint32_bytes (length bytes)) in
    let flagged = set_bytes sized 0 (128 ∷ []) in set_bytes flagged 5 bytes
