-- ===== src/Client/HeaderFrame.antt =====
-- client.ts with a transport that gives no headers, as the websocket transport does: the first frame of
-- trailers stands for them.
use grpc_web.Prelude.{
  ℕ, ◌≡◌, refl, ap, ◌∙◌, sym, false, Option, none, some, List, [], ◌∷◌, ◌++◌, true,
}
use grpc_web.Prelude.{map, append_assoc, Text, Bytes, ok, All, concat, if-false}
use grpc_web.ChunkParser.{Chunk, new_parser, parse, parse_trailer_data}
use grpc_web.ChunkParser.Frames.{FitsFrame}
use grpc_web.ChunkParser.Split.{feed}
use grpc_web.ChunkParser.Later.{parse-frame_trailers, feed-later_response}
use grpc_web.Framing.{frame_response, frame_trailers, header_block}
use grpc_web.Client.Types.{Environment, State, headers}
use grpc_web.Client.Callbacks.{for_each, raw_on_headers}
use grpc_web.Client.Responses.{
  get_status_from_headers, on_transport_chunk, on_parsed, on_chunks, on_trailers_after,
}
use grpc_web.Client.Session.{transport_chunk, transport_end, step, run}
use grpc_web.Client.Silence.{callbacks_called}
use grpc_web.Client.Passive.{IsPassive, told, After, shown, final_trailers, for_each-After}
use grpc_web.Client.Delivery.{chunk_inputs}
use grpc_web.Client.Outcome.{Deserializes, told_all, final_event, response_chunks}
use grpc_web.Client.Ended.{ending}
use grpc_web.Client.Endings.{pieces_ending}
use grpc_web.Js.Number.{Number}
use mathlib.Core.Path.{subst}

module _ (E : Environment) (passive : IsPassive E) where
  open E use {Metadata, Arg, Request, Response, copy, get, has_slice, from_text}

  -- The call of a transport that brings a frame of trailers to a client without headers.
  on_header_frame :
      (bytes : Bytes) (md : Metadata) (c : State E)
      → c.completed ≡ false
      → c.closed ≡ false
      → c.response_headers ≡ none
      → (parse has_slice from_text c.parser bytes false).1 ≡ ok (Chunk.trailers md ∷ [])
      → After E
          (record c {
            response_headers = some (copy md);
            parser = (parse has_slice from_text c.parser bytes false).0;
          })
          (on_transport_chunk E bytes c).0
          (told c.on_headers_callbacks (headers (copy md)))
          c.response_trailers
  unfolding on_transport_chunk on_parsed on_chunks on_trailers_after raw_on_headers
  on_header_frame bytes md c h k r e =
      let d : State E = record c { parser = (parse has_slice from_text c.parser bytes false).0 } in
      let d' : State E = record d { response_headers = some (copy md) } in
      let all_told = told c.on_headers_callbacks (headers (copy md)) in
      let path : (on_transport_chunk E bytes c).0
          ≡ for_each E c.on_headers_callbacks (headers (copy md)) d' =
        ap (λ o. o.0) (if-false (c, none) _ k ∙ ap (λ o. on_parsed E o d) e)
        ∙ ap (λ o. on_trailers_after E o md d) r
        ∙ if-false d' _ h in
      subst (λ t. After E d' t all_told c.response_trailers) (sym path)
        (for_each-After E passive c.on_headers_callbacks (headers (copy md)) d')

  -- The messages and the end of a response, for a client with the callbacks of before.
  told_response :
      (md trailers : Metadata) (grpc_status : Number) (cs : List (Chunk Metadata))
      (rs : List Response) (on_messages on_ends callbacks ends : List ℕ) (known : Option Metadata)
      → shown E on_messages cs ≡ told_all E passive on_messages rs
      → on_messages ≡ callbacks
      → on_ends ≡ ends
      → known ≡ some trailers
      → get_status_from_headers E trailers ≡ some grpc_status
      → shown E on_messages cs ++ told on_ends (ending E passive known md)
        ≡ told_all E passive callbacks rs ++ told ends (final_event E passive grpc_status trailers)
  told_response md trailers grpc_status cs rs on_messages on_ends callbacks ends known shows e f k
        s =
      rw (shows, e, f, k, s) refl

  -- A client that is neither closed nor complete, that has no headers and whose parser is new, gets a
  -- frame with a header block in one call of the transport; then a body of messages and trailers with
  -- a grpc-status, cut into pieces in any way; then the end. Its callbacks return and do not call it;
  -- `deserializeBinary` takes each message; the payloads and both blocks fit their length bytes, and
  -- both blocks are taken by `new Metadata`. Then the user is told the headers of the first block;
  -- each message once, in order; and last the grpc-status, its decoded message and the trailers;
  -- nothing else; and the request is complete.
  pub run-header_frame :
      (c : State E) (header_md trailer_md : Metadata) (grpc_status : Number)
      (payloads pieces : List Bytes) (rs : List Response) (to_buffer : Text → Bytes)
      (header_entries entries : List (Text × List Text))
      → c.completed ≡ false
      → c.closed ≡ false
      → c.response_headers ≡ none
      → c.parser ≡ new_parser
      → FitsFrame (to_buffer (header_block header_entries))
      → parse_trailer_data from_text (to_buffer (header_block header_entries)) ≡ ok header_md
      → Deserializes E passive payloads rs
      → All FitsFrame payloads
      → FitsFrame (to_buffer (header_block entries))
      → parse_trailer_data from_text (to_buffer (header_block entries)) ≡ ok trailer_md
      → get_status_from_headers E (copy trailer_md) ≡ some grpc_status
      → concat pieces ≡ concat (map frame_response payloads) ++ frame_trailers to_buffer entries
      → let c' =
          run E
            (transport_chunk (frame_trailers to_buffer header_entries)
                ∷ chunk_inputs E passive pieces
              ++ transport_end ∷ [])
            c in
        (callbacks_called c'.log
          ≡ callbacks_called c.log
            ++ (told c.on_headers_callbacks (headers (copy header_md))
                ++ (told_all E passive c.on_message_callbacks rs
                    ++ told c.on_end_callbacks
                        (final_event E passive grpc_status (copy trailer_md)))))
        × (c'.completed ≡ true)
  unfolding run step
  run-header_frame c header_md trailer_md grpc_status payloads pieces rs to_buffer header_entries
        entries h k r p fit_header b_header d fits fit b s w =
      let bytes = frame_trailers to_buffer header_entries in
      let (first, empty) =
        parse-frame_trailers has_slice from_text to_buffer header_entries header_md fit_header
          b_header in
      let a =
        on_header_frame bytes header_md c h k r
          (ap (λ q. (parse has_slice from_text q bytes false).1) p ∙ first) in
      let c1 = (on_transport_chunk E bytes c).0 in
      let cs = map Chunk.message payloads ++ Chunk.trailers trailer_md ∷ [] in
      let (shows, ends, reads) =
        response_chunks E passive c1.on_message_callbacks payloads rs trailer_md
          c1.response_trailers d in
      let q = (parse has_slice from_text new_parser bytes false).0 in
      let parsed =
        feed-later_response has_slice from_text q payloads pieces to_buffer entries trailer_md empty
          fits fit b w in
      let (later, complete) =
        pieces_ending E passive c1 (copy header_md) pieces cs (a.completed ∙ h) (a.closed ∙ k)
          a.response_headers
          (ap (λ t. (feed has_slice from_text t pieces).1)
              (a.parser ∙ ap (λ t. (parse has_slice from_text t bytes false).0) p)
            ∙ parsed)
          reads in
      (
        later
            ∙ ap
                (λ t.
                  t
                  ++ (shown E c1.on_message_callbacks cs
                      ++ told c1.on_end_callbacks (
                          ending E passive (final_trailers copy c1.response_trailers cs)
                            (copy header_md))))
                a.history
            ∙ append_assoc (callbacks_called c.log)
                (told c.on_headers_callbacks (headers (copy header_md))) _
            ∙ ap
                (λ t.
                  callbacks_called c.log
                  ++ (told c.on_headers_callbacks (headers (copy header_md)) ++ t))
                (told_response (copy header_md) (copy trailer_md) grpc_status cs rs _ _ _ _ _ shows
                  a.message_callbacks a.end_callbacks ends s),
        complete,
      )
