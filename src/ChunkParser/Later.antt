-- ===== src/ChunkParser/Later.antt =====
-- ChunkParser.ts: a parser that has read a frame of trailers, and goes on with a response behind it.
use grpc_web.Prelude.{◌≡◌, refl, arith, ◌∙◌}
use grpc_web.Prelude.{Bool, false, List, [], ◌∷◌, ◌++◌, map}
use grpc_web.Prelude.{concat, All, Bytes, Text, Result, ok}
use grpc_web.ChunkParser.{message, trailers, Parser, new_parser, parse, parse_trailer_data}
use grpc_web.ChunkParser.View.{seen}
use grpc_web.ChunkParser.Decode.{IsValid, pending, decoded, decode_all, parse-decode}
use grpc_web.ChunkParser.Split.{feed, feed-decode}
use grpc_web.ChunkParser.Drained.{IsDrained}
use grpc_web.ChunkParser.Frames.{FitsFrame, decode_all-trailer}
use grpc_web.ChunkParser.RoundTrip.{
  trailer_tail, parse-response, new_parser-IsValid, new_parser-pending,
}
use grpc_web.Framing.{frame_response, frame_trailers, header_block}

module _ {Md : Type 0} (has_slice : Bool) (from_text : Text → Result Md) where
  -- A parser that reads the bytes behind it as they are.
  pub record IsEmpty (p : Parser) : Type 0 where
    pub valid : IsValid p
    none_pending : pending p ≡ []

  -- One call on a frame of trailers.
  pub parse-frame_trailers :
      (to_buffer : Text → Bytes) (entries : List (Text × List Text)) (md : Md)
      → FitsFrame (to_buffer (header_block entries))
      → parse_trailer_data from_text (to_buffer (header_block entries)) ≡ ok md
      → let out = parse has_slice from_text new_parser (frame_trailers to_buffer entries) false in
        (out.1 ≡ ok (trailers md ∷ [])) × IsEmpty out.0
  parse-frame_trailers to_buffer entries md k e =
      let a =
        parse-decode has_slice from_text new_parser (frame_trailers to_buffer entries)
          new_parser-IsValid in
      let d : decode_all from_text (pending new_parser ++ frame_trailers to_buffer entries)
          ≡ decoded [] (ok (trailers md ∷ [])) =
        rw (new_parser-pending, trailer_tail to_buffer entries [])
          (decode_all-trailer from_text 128 (to_buffer (header_block entries)) [] md (omega arith)
            (omega arith) k e) in
      let a' = rw d at a in (a'.result, record { valid = a'.valid; none_pending = a'.rest })

  nothing-IsDrained : IsDrained from_text []
  unfolding seen
  nothing-IsDrained = refl

  -- A whole response behind it, in pieces.
  pub feed-later_response :
      (p : Parser) (payloads pieces : List Bytes) (to_buffer : Text → Bytes)
      (entries : List (Text × List Text)) (md : Md)
      → IsEmpty p
      → All FitsFrame payloads
      → FitsFrame (to_buffer (header_block entries))
      → parse_trailer_data from_text (to_buffer (header_block entries)) ≡ ok md
      → concat pieces ≡ concat (map frame_response payloads) ++ frame_trailers to_buffer entries
      → (feed has_slice from_text p pieces).1 ≡ ok (map message payloads ++ trailers md ∷ [])
  feed-later_response p payloads pieces to_buffer entries md c h k e s =
      let tail =
        decode_all-trailer from_text 128 (to_buffer (header_block entries)) [] md (omega arith)
          (omega arith) k e in
      let d =
        parse-response has_slice from_text payloads _ (concat pieces) [] (ok (trailers md ∷ [])) h
          (s ∙ trailer_tail to_buffer entries _) tail in
      (feed-decode has_slice from_text p pieces c.valid (rw c.none_pending nothing-IsDrained)
        (rw c.none_pending (rw new_parser-pending at d)) (λ t. refl)).0
