-- ===== src/Websocket/Exchange.antt =====
-- websocket.ts with client.ts: what a user is told of a response over a websocket.
use grpc_web.Prelude.{◌≡◌, refl, ap, ◌∙◌, sym, Bool, true, false, none, some, List, [], ◌∷◌, ◌++◌}
use grpc_web.Prelude.{append_assoc, append-nil, map, Text, Bytes, Result, ok, thrown, All, concat}
use grpc_web.ChunkParser.{new_parser, parse_trailer_data}
use grpc_web.ChunkParser.Frames.{FitsFrame}
use grpc_web.Framing.{frame_response, frame_trailers, header_block}
use grpc_web.Client.Types.{Environment, State, headers}
use grpc_web.Client.Responses.{get_status_from_headers}
use grpc_web.Client.Session.{Input, transport_chunk, transport_end, run}
use grpc_web.Client.Silence.{callbacks_called}
use grpc_web.Client.Passive.{IsPassive, told}
use grpc_web.Client.Outcome.{Deserializes, told_all, final_event}
use grpc_web.Client.HeaderFrame.{run-header_frame}
use grpc_web.Js.Number.{Number}
use grpc_web.Websocket.{
  Signal, message, finish_send, Action, new_socket, socket_send, socket_close, on_chunk, on_end,
  Transport, is_waiting, send_message, finish_sending, start, send_to_websocket, headers_to_bytes,
  send_all, send_opening, onopen, onclose, onmessage,
}
use grpc_web.Websocket.Order.{issue}

-- While a request is on its way the client sends or finishes sending, the socket opens, or it brings a
-- message.
pub data Turn : Type 0 where
  sends : Signal → Turn
  opens : Turn
  receives : Bytes → Turn

abbrev pub take_turn : Turn → Transport → Transport
take_turn (sends s) t = issue s t
take_turn opens t = (onopen t).0
take_turn (receives bytes) t = onmessage bytes t

abbrev pub take_turns : List Turn → Transport → Transport
take_turns [] t = t
take_turns (turn ∷ turns) t = take_turns turns (take_turn turn t)

abbrev pub received_of : List Turn → List Bytes
received_of [] = []
received_of (sends s ∷ turns) = received_of turns
received_of (opens ∷ turns) = received_of turns
received_of (receives bytes ∷ turns) = bytes ∷ received_of turns

-- The calls of the client in a log, the oldest first.
abbrev pub inputs_of : {Md Arg Req : Type 0} → List Action → List (Input Md Arg Req)
inputs_of [] = []
inputs_of (on_chunk bytes ∷ log) = inputs_of log ++ transport_chunk bytes ∷ []
inputs_of (on_end ∷ log) = inputs_of log ++ transport_end ∷ []
inputs_of (new_socket address ∷ log) = inputs_of log
inputs_of (socket_send bytes ∷ log) = inputs_of log
inputs_of (socket_close ∷ log) = inputs_of log

module _ {Md Arg Req : Type 0} where
  abbrev reported : Transport → List (Input Md Arg Req)
  reported t = inputs_of t.log

  reported-issue :
      (waiting : Bool) (s : Signal) (t : Transport)
      → is_waiting t.ws ≡ waiting
      → reported (issue s t) ≡ reported t
  unfolding send_message finish_sending send_to_websocket
  reported-issue true (message bytes) t e = rw e refl
  reported-issue false (message bytes) t e = rw e refl
  reported-issue true finish_send t e = rw e refl
  reported-issue false finish_send t e = rw e refl

  reported-send_all :
      (queue : List Signal) (t : Transport) → reported (send_all queue t) ≡ reported t
  unfolding send_all send_to_websocket
  reported-send_all [] t = refl
  reported-send_all (s ∷ queue) t = reported-send_all queue (send_to_websocket s t)

  reported-send_opening :
      (encoded : Result Bytes) (t : Transport) → reported (send_opening encoded t).0 ≡ reported t
  unfolding send_opening
  reported-send_opening (thrown e) t = refl
  reported-send_opening (ok bytes) t = reported-send_all t.send_queue _

  reported-take_turns :
      (turns : List Turn) (t : Transport)
      → reported (take_turns turns t) ≡ reported t ++ map transport_chunk (received_of turns)
  unfolding onopen onmessage
  reported-take_turns [] t = sym (append-nil _)
  reported-take_turns (sends s ∷ turns) t =
      reported-take_turns turns (issue s t)
      ∙ ap (λ r. r ++ map transport_chunk (received_of turns))
          (reported-issue (is_waiting t.ws) s t refl)
  reported-take_turns (opens ∷ turns) t =
      reported-take_turns turns (onopen t).0
      ∙ ap (λ r. r ++ map transport_chunk (received_of turns))
          (reported-send_opening (headers_to_bytes t.metadata) _)
  reported-take_turns (receives bytes ∷ turns) t =
      reported-take_turns turns (onmessage bytes t) ∙ append_assoc (reported t) _ _

-- A transport that has done nothing yet is started; then the client sends, the socket opens
-- and messages come in, in any order; then it closes. The first message is a frame with a header
-- block, and the others are a body of messages and trailers with a grpc-status, cut in any way.
-- What is reported runs on a client that is neither closed nor complete, has no headers and whose
-- parser is new; its callbacks return and do not call it; `deserializeBinary` takes each message; the
-- payloads and both blocks fit their length bytes, and both blocks are taken by `new Metadata`. Then
-- the user is told the headers of the first block; each message once, in order; and last the
-- grpc-status, its decoded message and the trailers; nothing else; and the request is complete.
pub take_turns-told :
    (E : Environment) (passive : IsPassive E) (t : Transport) (metadata : List (Text × List Text))
    (turns : List Turn) (c : State E) (header_md trailer_md : E.Metadata) (grpc_status : Number)
    (payloads pieces : List Bytes) (rs : List E.Response) (to_buffer : Text → Bytes)
    (header_entries entries : List (Text × List Text))
    → t.log ≡ []
    → received_of turns ≡ frame_trailers to_buffer header_entries ∷ pieces
    → c.completed ≡ false
    → c.closed ≡ false
    → c.response_headers ≡ none
    → c.parser ≡ new_parser
    → FitsFrame (to_buffer (header_block header_entries))
    → parse_trailer_data E.from_text (to_buffer (header_block header_entries)) ≡ ok header_md
    → Deserializes E passive payloads rs
    → All FitsFrame payloads
    → FitsFrame (to_buffer (header_block entries))
    → parse_trailer_data E.from_text (to_buffer (header_block entries)) ≡ ok trailer_md
    → get_status_from_headers E (E.copy trailer_md) ≡ some grpc_status
    → concat pieces ≡ concat (map frame_response payloads) ++ frame_trailers to_buffer entries
    → let c' = run E (inputs_of (onclose (take_turns turns (start metadata t))).log) c in
      (callbacks_called c'.log
        ≡ callbacks_called c.log
          ++ (told c.on_headers_callbacks (headers (E.copy header_md))
              ++ (told_all E passive c.on_message_callbacks rs
                  ++ told c.on_end_callbacks
                      (final_event E passive grpc_status (E.copy trailer_md)))))
      × (c'.completed ≡ true)
unfolding onclose start
take_turns-told E passive t metadata turns c header_md trailer_md grpc_status payloads pieces rs
      to_buffer header_entries entries fresh received h k r p fit_header b_header d fits fit b s w =
    let started = start metadata t in
    let inputs : List (Input E.Metadata E.Arg E.Request) =
      map transport_chunk (frame_trailers to_buffer header_entries ∷ pieces) in
    let path : inputs_of (take_turns turns started).log ≡ inputs =
      reported-take_turns turns started
      ∙ ap (λ l. inputs_of l ++ map transport_chunk (received_of turns)) fresh
      ∙ ap (map transport_chunk) received in
    rw path (
      run-header_frame E passive c header_md trailer_md grpc_status payloads pieces rs to_buffer
        header_entries entries h k r p fit_header b_header d fits fit b s w)
