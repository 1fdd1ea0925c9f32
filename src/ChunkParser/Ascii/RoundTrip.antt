-- ===== src/ChunkParser/Ascii/RoundTrip.antt =====
-- ChunkParser.ts: `encodeASCII` and `decodeASCII` are inverse, and take the same characters.
use grpc_web.Prelude.{ℕ, ◌%◌, ◌<◌, ◌≡◌, ◌⊎◌, inl, inr, refl, arith, ap, ◌∙◌, sym}
use grpc_web.Prelude.{true, [], ◌∷◌}
use grpc_web.Prelude.{Text, Bytes, Result, ok, thrown, Bool-cases}
use grpc_web.ChunkParser.Ascii.{
  is_valid_header_ascii, all_valid, from_char_code, decode_ascii, encode_ascii,
}

valid-lt : (c : ℕ) → is_valid_header_ascii c ≡ true → c < 128
unfolding is_valid_header_ascii
valid-lt c h = ground arith

same_unit : (c : ℕ) → c < 128 → c % 256 ≡ c
same_unit c h = omega arith

same_unit_16 : (c : ℕ) → c < 128 → c % 65536 ≡ c
same_unit_16 c h = omega arith

-- A string whose characters are all valid is stored unit by unit.
encode_ascii_of_valid : (s : Text) → all_valid s ≡ true → encode_ascii s ≡ ok s
unfolding encode_ascii all_valid
encode_ascii_of_valid [] h = refl
encode_ascii_of_valid (c ∷ s) h = ground (arith, encode_ascii_of_valid s, valid-lt c, same_unit c)

Result-cases : (r : Result Bytes) → ((bs : Bytes) × (r ≡ ok bs)) ⊎ ((msg : Text) × (r ≡ thrown msg))
Result-cases (ok bs) = inl (bs, refl)
Result-cases (thrown msg) = inr (msg, refl)

ok_injective : {a b : Text} → ok a ≡ ok b → a ≡ b
ok_injective e = cc

valid_of_encode_ascii : (s : Text) {bs : Bytes} → encode_ascii s ≡ ok bs → all_valid s ≡ true
unfolding encode_ascii all_valid
valid_of_encode_ascii [] e = refl
valid_of_encode_ascii (c ∷ s) e = elim (Bool-cases (is_valid_header_ascii c)) [
  | inl v ↦ rw v (elim (Result-cases (encode_ascii s)) [
    | inl (bs, r) ↦ valid_of_encode_ascii s r
    | inr (msg, r) ↦ cc (rw (v, r) at e)
  ])
  | inr v ↦ cc (rw v at e)
]

from_char_code_of_valid : (bs : Bytes) → all_valid bs ≡ true → from_char_code bs ≡ bs
unfolding from_char_code all_valid
from_char_code_of_valid [] h = refl
from_char_code_of_valid (b ∷ bs) h =
    ground (arith, from_char_code_of_valid bs, valid-lt b, same_unit_16 b)

-- Text that `encodeASCII` takes comes back from `decodeASCII`.
pub decode_ascii-encode_ascii :
    (s : Text) (bs : Bytes) → encode_ascii s ≡ ok bs → decode_ascii bs ≡ ok s
unfolding decode_ascii
decode_ascii-encode_ascii s bs e =
    let v = valid_of_encode_ascii s e in
    let same : s ≡ bs = ok_injective (sym (encode_ascii_of_valid s v) ∙ e) in
    rw (← same, v, from_char_code_of_valid s v)

-- Bytes that `decodeASCII` takes come back from `encodeASCII`.
pub encode_ascii-decode_ascii :
    (bs : Bytes) (s : Text) → decode_ascii bs ≡ ok s → encode_ascii s ≡ ok bs
unfolding decode_ascii
encode_ascii-decode_ascii bs s e = elim (Bool-cases (all_valid bs)) [
  | inl v ↦
      let same : bs ≡ s = ok_injective (sym (ap ok (from_char_code_of_valid bs v)) ∙ (rw v at e)) in
      rw (← same) (encode_ascii_of_valid bs v)
  | inr v ↦ cc (rw v at e)
]
