-- ===== src/ChunkParser/RoundTrip.antt =====
-- ChunkParser.ts fed with a response in pieces: the messages and trailers that were framed.
use grpc_web.Prelude.{◌≡◌, refl, arith, ap, ◌∙◌, sym}
use grpc_web.Prelude.{Bool, false, List, [], ◌∷◌, ◌++◌, map, append-nil}
use grpc_web.Prelude.{concat, All, Bytes, Text, Result, ok, thrown}
use grpc_web.ChunkParser.{Chunk, message, trailers, new_parser, parse_trailer_data}
use grpc_web.ChunkParser.View.{seen}
use grpc_web.ChunkParser.Decode.{IsValid, pending, decoded, prepend, decode_all}
use grpc_web.ChunkParser.Split.{feed, feed-decode}
use grpc_web.ChunkParser.Append.{has_trailers}
use grpc_web.ChunkParser.Drained.{IsDrained, decode_all_of_IsDrained}
use grpc_web.ChunkParser.Frames.{
  FitsFrame, decode_all-frames, decode_all-trailer, decode_all-bad_trailer,
}
use grpc_web.Framing.{frame_response, frame_trailers, header_block}
use grpc_web.Framing.Wire.{frame, frame_response-frame, frame_trailers-frame}

frames_map :
    (payloads : List Bytes) → concat (map frame_response payloads) ≡ concat (map (frame 0) payloads)
frames_map [] = refl
frames_map (p ∷ ps) = rw (frame_response-frame p, frames_map ps)

pub new_parser-IsValid : IsValid new_parser
unfolding new_parser
new_parser-IsValid = tt

pub new_parser-pending : pending new_parser ≡ []
unfolding new_parser
new_parser-pending = refl

-- The trailer frame at the end of a stream, with nothing behind it.
pub trailer_tail :
    (to_buffer : Text → Bytes) (entries : List (Text × List Text)) (front : Bytes)
    → front ++ frame_trailers to_buffer entries
      ≡ front ++ (frame 128 (to_buffer (header_block entries)) ++ [])
trailer_tail to_buffer entries front =
    ap (λ t. front ++ t) (frame_trailers-frame to_buffer entries ∙ sym (append-nil _))

module _ {Md : Type 0} (has_slice : Bool) (from_text : Text → Result Md) where
  new_parser-IsDrained : IsDrained from_text (pending new_parser)
  unfolding new_parser seen
  new_parser-IsDrained = refl

  -- One call on a whole response.
  pub parse-response :
      (payloads : List Bytes) (tail stream : Bytes) (rest : Bytes) (cs : Result (List (Chunk Md)))
      → All FitsFrame payloads
      → stream ≡ concat (map frame_response payloads) ++ tail
      → decode_all from_text tail ≡ decoded rest cs
      → decode_all from_text (pending new_parser ++ stream)
        ≡ prepend (map message payloads) (decoded rest cs)
  unfolding new_parser
  parse-response payloads tail stream rest cs h s e =
      rw (s, frames_map payloads)
        (decode_all-frames from_text payloads tail h ∙ ap (prepend (map message payloads)) e)

  no_trailers : (payloads : List Bytes) → has_trailers {Md = Md} (map message payloads) ≡ false
  no_trailers [] = refl
  no_trailers (p ∷ ps) = no_trailers ps

  -- A response of any number of messages, with its trailers behind them, cut into pieces in any way:
  -- a new parser gives out each message once, in order, then the trailers, and holds nothing back.
  -- The payloads and the trailer block fit the four length bytes, and the block is decoded and
  -- taken by `new Metadata`.
  pub feed-response :
      (payloads pieces : List Bytes) (to_buffer : Text → Bytes) (entries : List (Text × List Text))
      (md : Md)
      → All FitsFrame payloads
      → FitsFrame (to_buffer (header_block entries))
      → parse_trailer_data from_text (to_buffer (header_block entries)) ≡ ok md
      → concat pieces ≡ concat (map frame_response payloads) ++ frame_trailers to_buffer entries
      → ((feed has_slice from_text new_parser pieces).1
          ≡ ok (map message payloads ++ trailers md ∷ []))
        × (pending (feed has_slice from_text new_parser pieces).0 ≡ [])
  feed-response payloads pieces to_buffer entries md h k e s =
      let tail =
        decode_all-trailer from_text 128 (to_buffer (header_block entries)) [] md (omega arith)
          (omega arith) k e in
      let d =
        parse-response payloads _ _ [] (ok (trailers md ∷ [])) h
          (s ∙ trailer_tail to_buffer entries _) tail in
      let f =
        feed-decode has_slice from_text new_parser pieces new_parser-IsValid new_parser-IsDrained d
          (λ t. refl) in
      (f.0, f.1 refl)

  -- A response of messages and trailers that fit the four length bytes, cut into pieces in any
  -- way, whose trailer block is not ASCII or is refused by `new Metadata`: the calls on a new
  -- parser end with that exception.
  pub feed-bad_trailers :
      (payloads pieces : List Bytes) (to_buffer : Text → Bytes) (entries : List (Text × List Text))
      (msg : Text)
      → All FitsFrame payloads
      → FitsFrame (to_buffer (header_block entries))
      → parse_trailer_data from_text (to_buffer (header_block entries)) ≡ thrown msg
      → concat pieces ≡ concat (map frame_response payloads) ++ frame_trailers to_buffer entries
      → (feed has_slice from_text new_parser pieces).1 ≡ thrown msg
  feed-bad_trailers payloads pieces to_buffer entries msg h k e s =
      let tail =
        decode_all-bad_trailer from_text 128 (to_buffer (header_block entries)) [] msg (omega arith)
          (omega arith) k e in
      let d =
        parse-response payloads _ _ [] (thrown msg) h (s ∙ trailer_tail to_buffer entries _) tail in
      (feed-decode has_slice from_text new_parser pieces new_parser-IsValid new_parser-IsDrained d
        tt).0

  -- Before the trailers: of a stream of messages whose payloads fit the four length bytes, and a
  -- part behind them that holds no whole frame, cut into pieces in any way, a new parser gives out
  -- each message once, in order, and holds back exactly the part.
  pub feed-partial :
      (payloads pieces : List Bytes) (part : Bytes)
      → All FitsFrame payloads
      → IsDrained from_text part
      → concat pieces ≡ concat (map frame_response payloads) ++ part
      → ((feed has_slice from_text new_parser pieces).1 ≡ ok (map message payloads))
        × (pending (feed has_slice from_text new_parser pieces).0 ≡ part)
  feed-partial payloads pieces part h q s =
      let d =
        parse-response payloads part _ part (ok []) h s
          (decode_all_of_IsDrained from_text part q) in
      let f =
        feed-decode has_slice from_text new_parser pieces new_parser-IsValid new_parser-IsDrained d
          (rw (append-nil, no_trailers payloads) (λ t. cc)) in
      (f.0 ∙ ap ok (append-nil _), f.1 refl)
