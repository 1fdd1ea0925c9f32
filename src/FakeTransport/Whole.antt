-- ===== src/FakeTransport/Whole.antt =====
-- fake-transport/src/index.ts with client.ts: what a user is told of a fake response.
use grpc_web.Prelude.{◌≡◌, refl, ap, ◌∙◌, sym, false, Option, some, List, [], ◌∷◌, ◌++◌}
use grpc_web.Prelude.{map, Text, text, Bytes, ok, All, concat, append_assoc, append-nil, true}
use grpc_web.ChunkParser.{new_parser, parse_trailer_data}
use grpc_web.ChunkParser.Frames.{FitsFrame}
use grpc_web.Framing.{frame_response, frame_trailers, header_block}
use grpc_web.Client.Types.{Environment, State, headers}
use grpc_web.Client.Responses.{get_status_from_headers, headers_code}
use grpc_web.Client.Session.{transport_chunk, transport_end, run}
use grpc_web.Client.Silence.{callbacks_called}
use grpc_web.Client.Passive.{IsPassive, told}
use grpc_web.Client.Delivery.{chunk_inputs}
use grpc_web.Client.Outcome.{Deserializes, told_all, final_event, run-response}
use grpc_web.Js.Number.{Number, is_number}
use grpc_web.FakeTransport.{FakeTransportBuilder, new_builder, or_new_metadata, send_all}

concat-append : (xss yss : List Bytes) → concat (xss ++ yss) ≡ concat xss ++ concat yss
concat-append [] yss = refl
concat-append (xs ∷ xss) yss =
    ap (λ t. xs ++ t) (concat-append xss yss) ∙ sym (append_assoc xs (concat xss) (concat yss))

module _ (E : Environment) (passive : IsPassive E) (entries : E.Metadata → List (Text × List Text))
    (to_buffer : Text → Bytes) where
  open E use {Metadata, Response}

  -- The pieces of the body that a fake response without errors consists of.
  abbrev pub body_pieces : List Bytes → Metadata → List Bytes
  body_pieces messages md =
      map frame_response messages ++ frame_trailers to_buffer (entries md) ∷ []

  abbrev pub sent_trailers : Option Metadata → Metadata
  sent_trailers trailers =
      E.set (or_new_metadata E entries to_buffer trailers) (text "grpc-status") (text "0")

  pub as_inputs :
      (messages : List Bytes) (md : Metadata)
      → map (λ m. transport_chunk (frame_response m)) messages
          ++ transport_chunk (frame_trailers to_buffer (entries md)) ∷ transport_end ∷ []
        ≡ chunk_inputs E passive (body_pieces messages md) ++ transport_end ∷ []
  as_inputs [] md = refl
  as_inputs (m ∷ messages) md =
      ap (λ l. transport_chunk (frame_response m) ∷ l) (as_inputs messages md)

  pub concat-body_pieces :
      (messages : List Bytes) (md : Metadata)
      → concat (body_pieces messages md)
        ≡ concat (map frame_response messages) ++ frame_trailers to_buffer (entries md)
  concat-body_pieces messages md =
      concat-append (map frame_response messages) (frame_trailers to_buffer (entries md) ∷ [])
      ∙ ap (λ t. concat (map frame_response messages) ++ t) (append-nil _)

  -- A fake transport that is built with these headers, messages and trailers and with no error, and
  -- all of whose triggers are sent to a client that is neither closed nor complete and whose parser
  -- is new. The code of the headers is OK, the callbacks return and do not call the client,
  -- `deserializeBinary` takes each message, the frames' lengths fit, and `new Metadata` takes the
  -- trailer block and finds a grpc-status in it. Then the user is told the headers, each message
  -- once, in order, and the end with that status and the trailers; and the request is complete.
  pub send_all-told :
      (c : State E) (md : Option Metadata) (messages : List Bytes) (trailers : Option Metadata)
      (rs : List Response) (trailer_md : Metadata) (grpc_status : Number)
      → c.completed ≡ false
      → c.closed ≡ false
      → c.parser ≡ new_parser
      → is_number
          (headers_code (get_status_from_headers E (or_new_metadata E entries to_buffer md)) 200)
          0
        ≡ true
      → Deserializes E passive messages rs
      → All FitsFrame messages
      → FitsFrame (to_buffer (header_block (entries (sent_trailers trailers))))
      → parse_trailer_data E.from_text (to_buffer (header_block (entries (sent_trailers trailers))))
        ≡ ok trailer_md
      → get_status_from_headers E (E.copy trailer_md) ≡ some grpc_status
      → let mock : FakeTransportBuilder Metadata = record new_builder {
        headers = md;
        messages = messages;
        trailers = trailers;
      } in
        let c' = run E (send_all E entries to_buffer mock) c in
        (callbacks_called c'.log
          ≡ callbacks_called c.log
            ++ (told c.on_headers_callbacks (headers (or_new_metadata E entries to_buffer md))
                ++ (told_all E passive c.on_message_callbacks rs
                    ++ told c.on_end_callbacks
                        (final_event E passive grpc_status (E.copy trailer_md)))))
        × (c'.completed ≡ true)
  unfolding send_all new_builder
  send_all-told c md messages trailers rs trailer_md grpc_status h k p e d fits fits' b s =
      rw (as_inputs messages (sent_trailers trailers)) (
        run-response E passive c (or_new_metadata E entries to_buffer md) trailer_md 200 grpc_status
          messages (body_pieces messages (sent_trailers trailers)) rs to_buffer
          (entries (sent_trailers trailers)) h k p refl e d fits fits' b s
          (concat-body_pieces messages (sent_trailers trailers)))
