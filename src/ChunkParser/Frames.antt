-- ===== src/ChunkParser/Frames.antt =====
-- ChunkParser.ts read against the frames that are written: what goes in comes out, in order.
use grpc_web.Prelude.{ℕ, zero, suc, ◌+◌, ◌^◌, ◌≤◌, ◌<◌, ◌≡◌, refl, arith, ap, ◌∙◌, sym}
use grpc_web.Prelude.{Bool, true, false, List, [], ◌∷◌, ◌++◌, map, append_assoc}
use grpc_web.Prelude.{
  leb, ◌==◌, if◌then◌else◌, length, drop, concat, All, Bytes, IsByte, Text, Result, ok, thrown,
}
use grpc_web.Prelude.{
  le→leb, lt→leb_false, length-append, length-drop, take-length_append, drop-length_append,
}
use grpc_web.ChunkParser.{
  message, trailers, Turn, fail, last, more, trailer_turn, read_length_from_header,
  is_trailer_header, parse_trailer_data,
}
use grpc_web.ChunkParser.View.{seen, seen_frame, seen-Within}
use grpc_web.ChunkParser.Decode.{
  decoded, prepend, prepend-nil, prepend-prepend, decode_turn, decode, decode_fuel, decode_all,
}
use grpc_web.Framing.{uint32_bytes}
use grpc_web.Framing.Wire.{frame, uint32_lem}
use Prim.Native.Nat.{bit_and}

-- A payload whose length fits the four bytes.
abbrev pub FitsFrame : Bytes → Type 0
FitsFrame payload = length payload < 2 ^ 32

abbrev same_bool : Bool → Bool → Bool
same_bool true b = b
same_bool false true = false
same_bool false false = true

same_bool_eq : (a b : Bool) → same_bool a b ≡ true → a ≡ b
same_bool_eq a b h = ground arith

-- On every number under the count the test of the flag says whether it is 128 at least.
flags_agree : (count : ℕ) → Bool
flags_agree zero = true
flags_agree (suc flag) =
    let same = same_bool (bit_and flag 0x80 == 0x80) (leb 128 flag) in
    let below = flags_agree flag in if same then below else false

flags_agree_at :
    (flag count : ℕ)
    → flag < count
    → flags_agree count ≡ true
    → same_bool (bit_and flag 0x80 == 0x80) (leb 128 flag) ≡ true
unfolding flags_agree
flags_agree_at flag zero small agree = elim small [ ]
flags_agree_at flag (suc last_flag) small agree = ground (arith, flags_agree_at flag last_flag)

all_flags_agree : flags_agree 256 ≡ true
unfolding flags_agree
all_flags_agree = refl

-- A byte is the flag of a trailer exactly if it is 128 at least.
is_trailer-leb :
    (flag : ℕ) (bs : Bytes) → IsByte flag → is_trailer_header (flag ∷ bs) ≡ leb 128 flag
unfolding is_trailer_header
is_trailer-leb flag bs h = same_bool_eq _ _ (flags_agree_at flag 256 h all_flags_agree)

read_length-frame :
    (flag : ℕ) (payload rest : Bytes)
    → FitsFrame payload
    → read_length_from_header (frame flag payload ++ rest) ≡ length payload
unfolding read_length_from_header uint32_bytes
read_length-frame flag payload rest h = uint32_lem (length payload) h

module _ {Md : Type 0} (from_text : Text → Result Md) where
  abbrev found : ℕ → Bytes → Turn Md
  found flag payload =
      if leb 128 flag
      then trailer_turn (parse_trailer_data from_text payload) (5 + length payload)
      else more payload (5 + length payload)

  seen_five :
      (flag a b c d : ℕ) (payload rest : Bytes)
      → IsByte flag
      → read_length_from_header (flag ∷ a ∷ b ∷ c ∷ d ∷ payload ++ rest) ≡ length payload
      → seen from_text (flag ∷ a ∷ b ∷ c ∷ d ∷ payload ++ rest) ≡ found flag payload
  unfolding seen seen_frame
  seen_five flag a b c d payload rest h e = rw (
    e,
    le→leb 5 (length (flag ∷ a ∷ b ∷ c ∷ d ∷ payload ++ rest)) (omega arith),
    le→leb (5 + length payload) (length (flag ∷ a ∷ b ∷ c ∷ d ∷ payload ++ rest))
        (omega (arith, length-append payload rest)),
    is_trailer-leb flag (a ∷ b ∷ c ∷ d ∷ payload ++ rest) h,
    take-length_append payload rest,
  )

  -- The parser finds a whole frame at the front of the bytes, of either kind.
  seen-frame :
      (flag : ℕ) (payload rest : Bytes)
      → IsByte flag
      → FitsFrame payload
      → seen from_text (frame flag payload ++ rest) ≡ found flag payload
  unfolding uint32_bytes
  seen-frame flag payload rest h k =
      seen_five flag _ _ _ _ payload rest h (read_length-frame flag payload rest k)

  drop-frame :
      (flag : ℕ) (payload rest : Bytes)
      → drop (5 + length payload) (frame flag payload ++ rest) ≡ rest
  unfolding uint32_bytes
  drop-frame flag payload rest =
      ap (λ k. drop k (frame flag payload ++ rest))
        {y = suc (suc (suc (suc (suc (length payload)))))} (omega arith)
      ∙ drop-length_append payload rest

  decode_all-more :
      (bs : Bytes) {m : Bytes} {k : ℕ}
      → seen from_text bs ≡ more m k
      → decode_all from_text bs ≡ prepend (message m ∷ []) (decode_all from_text (drop k bs))
  unfolding decode_all decode_turn decode
  decode_all-more bs {m} {k} e =
      let w = rw e at (seen-Within from_text bs) in
      rw e (
        ap (prepend (message m ∷ [])) (
          decode_fuel from_text (length bs) (suc (length (drop k bs))) (drop k bs)
            (omega (arith, length-drop k bs, w)) (omega arith)))

  decode_all-last :
      (bs : Bytes) {md : Md} {k : ℕ}
      → seen from_text bs ≡ last md k
      → decode_all from_text bs ≡ decoded (drop k bs) (ok (trailers md ∷ []))
  unfolding decode_all decode_turn decode
  decode_all-last bs e = rw e

  decode_all-fail :
      (bs : Bytes) {msg : Text} {k : ℕ}
      → seen from_text bs ≡ fail msg k
      → decode_all from_text bs ≡ decoded (drop k bs) (thrown msg)
  unfolding decode_all decode_turn decode
  decode_all-fail bs e = rw e

  decode_all-frame :
      (flag : ℕ) (payload rest : Bytes)
      → flag < 128
      → FitsFrame payload
      → decode_all from_text (frame flag payload ++ rest)
        ≡ prepend (message payload ∷ []) (decode_all from_text rest)
  decode_all-frame flag payload rest h k =
      decode_all-more (frame flag payload ++ rest)
        (seen-frame flag payload rest (omega arith) k ∙ rw (lt→leb_false 128 flag h))
      ∙ ap (λ t. prepend (message payload ∷ []) (decode_all from_text t))
          (drop-frame flag payload rest)

  pub decode_all-trailer :
      (flag : ℕ) (payload rest : Bytes) (md : Md)
      → IsByte flag
      → 128 ≤ flag
      → FitsFrame payload
      → parse_trailer_data from_text payload ≡ ok md
      → decode_all from_text (frame flag payload ++ rest) ≡ decoded rest (ok (trailers md ∷ []))
  unfolding trailer_turn
  decode_all-trailer flag payload rest md h l k e =
      decode_all-last (frame flag payload ++ rest)
        (seen-frame flag payload rest h k ∙ rw (le→leb 128 flag l, e))
      ∙ ap (λ t. decoded t (ok (trailers md ∷ []))) (drop-frame flag payload rest)

  pub decode_all-bad_trailer :
      (flag : ℕ) (payload rest : Bytes) (msg : Text)
      → IsByte flag
      → 128 ≤ flag
      → FitsFrame payload
      → parse_trailer_data from_text payload ≡ thrown msg
      → decode_all from_text (frame flag payload ++ rest) ≡ decoded rest (thrown msg)
  unfolding trailer_turn
  decode_all-bad_trailer flag payload rest msg h l k e =
      decode_all-fail (frame flag payload ++ rest)
        (seen-frame flag payload rest h k ∙ rw (le→leb 128 flag l, e))
      ∙ ap (λ t. decoded t (thrown msg)) (drop-frame flag payload rest)

  -- Frames of messages, one behind the other.
  pub decode_all-frames :
      (payloads : List Bytes) (rest : Bytes)
      → All FitsFrame payloads
      → decode_all from_text (concat (map (frame 0) payloads) ++ rest)
        ≡ prepend (map message payloads) (decode_all from_text rest)
  decode_all-frames [] rest h = sym (prepend-nil _)
  decode_all-frames (payload ∷ payloads) rest h =
      ap (decode_all from_text)
        (append_assoc (frame 0 payload) (concat (map (frame 0) payloads)) rest)
      ∙ decode_all-frame 0 payload _ (omega arith) h.0
      ∙ ap (prepend (message payload ∷ [])) (decode_all-frames payloads rest h.1)
      ∙ prepend-prepend (message payload ∷ []) (map message payloads) _
