-- ===== src/Framing/Wire.antt =====
-- The frames in plain form: a flag byte, the length in four bytes, the payload.
use grpc_web.Prelude.{ℕ, suc, ◌+◌, ◌*◌, ◌/◌, ◌%◌, ◌^◌, ◌<◌, ◌≡◌, arith, ap, ◌∙◌}
use grpc_web.Prelude.{refl, take, All, IsByte, List, [], ◌∷◌, ◌++◌, append-nil}
use grpc_web.Prelude.{length, drop, Bytes, Text, drop-all, length-replicate}
use grpc_web.Framing.{
  array_buffer, set_bytes, uint32_bytes, frame_request, frame_response, header_block,
  frame_trailers,
}

abbrev pub frame : ℕ → Bytes → Bytes
frame flag payload =
    let n = length payload in
    flag ∷ n / 2 ^ 24 % 256 ∷ n / 2 ^ 16 % 256 ∷ n / 2 ^ 8 % 256 ∷ n % 256 ∷ payload

-- The number that bytes stand for behind others, the most significant first.
abbrev pub big_endian : ℕ → Bytes → ℕ
big_endian known [] = known
big_endian known (b ∷ bytes) = big_endian (known * 256 + b) bytes

zeros : (n : ℕ) → array_buffer (n + 5) ≡ 0 ∷ 0 ∷ 0 ∷ 0 ∷ 0 ∷ array_buffer n
zeros n = ap array_buffer {y = suc (suc (suc (suc (suc n))))} (omega arith)

-- Nothing of the zeros is left behind the payload.
overwritten :
    (a b c d e : ℕ) (bytes : Bytes)
    → bytes ++ drop (5 + length bytes) (a ∷ b ∷ c ∷ d ∷ e ∷ array_buffer (length bytes)) ≡ bytes
overwritten a b c d e bytes =
    ap (λ k. bytes ++ drop k (a ∷ b ∷ c ∷ d ∷ e ∷ array_buffer (length bytes)))
      {y = suc (suc (suc (suc (suc (length bytes)))))} (omega arith)
    ∙ ap (λ t. bytes ++ t)
        (drop-all (length bytes) (array_buffer (length bytes))
          (omega (arith, length-replicate {A = ℕ} (length bytes) 0)))
    ∙ append-nil bytes

-- What `frameRequest` writes into a buffer of zeros.
frame_request-frame : (bytes : Bytes) → frame_request bytes ≡ frame 0 bytes
unfolding frame_request set_bytes uint32_bytes
frame_request-frame bytes = rw (zeros (length bytes)) (rw (overwritten _ _ _ _ _ bytes))

pub frame_response-frame : (bytes : Bytes) → frame_response bytes ≡ frame 0 bytes
unfolding frame_response frame_request
frame_response-frame bytes = frame_request-frame bytes

-- What `frameTrailers` writes into a buffer of zeros is the flag byte 128, the length in four bytes,
-- and then what `new Buffer` makes of the lines of the trailers, a line for each key.
pub frame_trailers-frame :
    (to_buffer : Text → Bytes) (entries : List (Text × List Text))
    → frame_trailers to_buffer entries ≡ frame 128 (to_buffer (header_block entries))
unfolding frame_trailers set_bytes uint32_bytes
frame_trailers-frame to_buffer entries =
    let bytes = to_buffer (header_block entries) in
    rw (zeros (length bytes)) (rw (overwritten _ _ _ _ _ bytes))

-- The length is read back from its four bytes if it fits them.
pub uint32_lem :
    (n : ℕ)
    → n < 2 ^ 32
    → n / 2 ^ 24 % 256 * 2 ^ 24 + n / 2 ^ 16 % 256 * 2 ^ 16 + n / 2 ^ 8 % 256 * 2 ^ 8 + n % 256 ≡ n
uint32_lem n h = omega arith

length_bytes :
    (n : ℕ)
    → n < 2 ^ 32
    → big_endian 0 (n / 2 ^ 24 % 256 ∷ n / 2 ^ 16 % 256 ∷ n / 2 ^ 8 % 256 ∷ n % 256 ∷ []) ≡ n
length_bytes n h = omega arith

-- What `frameRequest` makes of a message of less than 2 ^ 32 bytes has a flag byte, which is 0; then
-- four bytes that are the message's length as a number with the most significant byte first; and then
-- the bytes of the message, with nothing behind them.
pub frame_request_lem :
    (bytes : Bytes)
    → length bytes < 2 ^ 32
    → (take 1 (frame_request bytes) ≡ 0 ∷ [])
      × All IsByte (take 4 (drop 1 (frame_request bytes)))
      × (big_endian 0 (take 4 (drop 1 (frame_request bytes))) ≡ length bytes)
      × (drop 5 (frame_request bytes) ≡ bytes)
frame_request_lem bytes h = rw (frame_request-frame bytes) (
  refl,
  (omega arith, (omega arith, (omega arith, (omega arith, tt)))),
  length_bytes (length bytes) h,
  refl,
)
