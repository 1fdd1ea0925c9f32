-- ===== src/ChunkParser.antt =====
-- client/grpc-web/src/ChunkParser.ts: the incremental parser of length-prefixed frames.
-- A Uint8Array is a list of bytes. `Metadata` and its constructor from a string belong to the
-- package browser-headers: they are parameters, and the constructor may throw.
pub mod Ascii
pub mod Slice
pub mod View
pub mod Decode
pub mod Append
pub mod Drained
pub mod Split
pub mod Frames
pub mod RoundTrip
pub mod Balance
pub mod Later
use grpc_web.Prelude.{ℕ, zero, suc, ◌+◌, ◌-◌, ◌*◌, ◌^◌, ◌≤◌, ◌<◌, ◌≡◌, refl, arith}
use grpc_web.Prelude.{Bool, true, false, ◌&&◌, Option, none, some, List, [], ◌∷◌, ◌++◌}
use grpc_web.Prelude.{
  leb, ◌==◌, if◌then◌else◌, length, get_or, Text, Bytes, Result, ok, thrown, ◌>>=◌,
}
use grpc_web.ChunkParser.Ascii.{decode_ascii}
use grpc_web.ChunkParser.Slice.{slice_uint8_array}
use Prim.Native.Nat.{bit_and}
use mathlib.Core.WellFounded.{Acc, WellFounded}

abbrev pub header_size : ℕ
header_size = 5

-- The flag is the most significant bit of the header's first byte.
unfoldable pub is_trailer_header : Bytes → Bool
is_trailer_header header = bit_and (get_or header 0 0) 0x80 == 0x80

-- DataView.getUint32(1, false): four bytes, the most significant first.
unfoldable pub read_length_from_header : Bytes → ℕ
read_length_from_header header =
    get_or header 1 0 * 2 ^ 24
    + get_or header 2 0 * 2 ^ 16
    + get_or header 3 0 * 2 ^ 8
    + get_or header 4 0

-- `byteLength - position >= byteCount` over the integers, with the subtraction moved across.
unfoldable pub has_enough_bytes : Bytes → ℕ → ℕ → Bool
has_enough_bytes buffer position byte_count = leb (position + byte_count) (length buffer)

-- A chunk, by its chunkType; each has the one optional field that its type fills.
pub data Chunk (Md : Type 0) : Type 0 where
  message : Bytes → Chunk Md
  trailers : Md → Chunk Md

-- The fields of the class: `buffer` is null before the first call.
pub record Parser : Type 0 where
  pub buffer : Option Bytes
  pub position : ℕ

unfoldable pub new_parser : Parser
new_parser = record { buffer = none; position = 0 }

-- How one turn of `while (true)` ends: it returns what there is for want of bytes; throws; returns
-- behind a trailer; or goes on. The last three have moved the position.
pub data Turn (Md : Type 0) : Type 0 where
  wait : Turn Md
  fail : Text → ℕ → Turn Md
  last : Md → ℕ → Turn Md
  more : Bytes → ℕ → Turn Md

-- The end of a turn, behind the frame: a trailer's text is decoded, which may throw.
unfoldable pub trailer_turn : {Md : Type 0} → Result Md → ℕ → Turn Md
trailer_turn (ok md) position = last md position
trailer_turn (thrown e) position = fail e position

-- The fields that `parse` sets before its loop: the new bytes alone, or behind what is left over.
unfoldable pub joined : Bool → Option Bytes → ℕ → Bytes → Bytes
joined has_slice none position bytes = bytes
joined has_slice (some buffer) position bytes =
    if position == length buffer
    then bytes
    else slice_uint8_array has_slice buffer position none ++ bytes

-- A turn that goes on leaves fewer bytes behind the position.
abbrev pub Closer : Bytes → ℕ → ℕ → Type 0
Closer buffer q p = length buffer - q < length buffer - p

Closer-below : (buffer : Bytes) (k p : ℕ) → length buffer - p < k → Acc (Closer buffer) p
Closer-below buffer zero p h = elim h [ ]
Closer-below buffer (suc k) p h = Acc.intro p (λ q closer. Closer-below buffer k q (omega arith))

unfoldable pub Closer-wf : (buffer : Bytes) (p : ℕ) → Acc (Closer buffer) p
unfolding Closer-below
Closer-wf buffer p = Closer-below buffer (suc (length buffer - p)) p (omega arith)

unfoldable pub parse_trailer_data : {Md : Type 0} → (Text → Result Md) → Bytes → Result Md
parse_trailer_data from_text msg_data = decode_ascii msg_data >>= from_text

module _ {Md : Type 0} (has_slice : Bool) (from_text : Text → Result Md) where
  -- The turn behind its two tests: the whole frame is there.
  unfoldable pub frame_turn : Bytes → ℕ → Bytes → ℕ → Turn Md
  frame_turn buffer position header msg_length =
      let from = position + header_size in
      let message_data = slice_uint8_array has_slice buffer from (some (from + msg_length)) in
      if is_trailer_header header
      then trailer_turn (parse_trailer_data from_text message_data) (from + msg_length)
      else more message_data (from + msg_length)

  unfoldable pub header_turn : Bytes → ℕ → Bytes → Turn Md
  unfolding frame_turn
  header_turn buffer position header =
      let msg_length = read_length_from_header header in
      if has_enough_bytes buffer position (header_size + msg_length)
      then frame_turn buffer position header msg_length
      else wait

  unfoldable pub turn : Bytes → ℕ → Turn Md
  unfolding header_turn
  turn buffer position =
      if has_enough_bytes buffer position header_size
      then header_turn buffer position
          (slice_uint8_array has_slice buffer position (some (position + header_size)))
      else wait

  -- A turn goes on only with five bytes at least behind it.
  pub turn-more :
      (buffer : Bytes) (position : ℕ) {m : Bytes} {q : ℕ}
      → turn buffer position ≡ more m q
      → Closer buffer q position
  unfolding turn has_enough_bytes trailer_turn
  turn-more buffer position e = ground arith

  -- What the loop does with a turn; `go_on` is its next turn.
  unfoldable pub loop_step :
      (buffer : Bytes) (position : ℕ) (chunk_data : List (Chunk Md))
      → ((q : ℕ) → Closer buffer q position → List (Chunk Md) → Parser × Result (List (Chunk Md)))
      → (t : Turn Md) → turn buffer position ≡ t
      → Parser × Result (List (Chunk Md))
  loop_step buffer position chunk_data go_on wait e =
      (record { buffer = some buffer; position = position }, ok chunk_data)
  loop_step buffer position chunk_data go_on (fail msg q) e =
      (record { buffer = some buffer; position = q }, thrown msg)
  loop_step buffer position chunk_data go_on (last md q) e =
      (record { buffer = some buffer; position = q }, ok (chunk_data ++ trailers md ∷ []))
  loop_step buffer position chunk_data go_on (more m q) e =
      go_on q (turn-more buffer position e) (chunk_data ++ message m ∷ [])

  -- The `while (true)` of `parse`.
  unfoldable pub loop :
      (buffer : Bytes) (position : ℕ)
      → Acc (Closer buffer) position
      → List (Chunk Md)
      → Parser × Result (List (Chunk Md))
  loop buffer position (Acc.intro _ closer) chunk_data =
      loop_step buffer position chunk_data (λ q h cs. loop buffer q (closer q h) cs)
        (turn buffer position) refl

  unfoldable pub parse : Parser → Bytes → Bool → Parser × Result (List (Chunk Md))
  parse p bytes flush =
      if length bytes == 0 && flush
      then (p, ok [])
      else (let buffer = joined has_slice p.buffer p.position bytes in
          loop buffer 0 (Closer-wf buffer 0) [])
