-- ===== src/Xhr/Exchange.antt =====
-- xhr.ts with client.ts: what a user is told of a response over a request for text.
use grpc_web.Prelude.{ℕ, ◌≡◌, refl, ap, ◌∙◌, sym, true, false, none, some, List, [], ◌∷◌, ◌++◌}
use grpc_web.Prelude.{
  ◌==◌, append_assoc, append-nil, map, Text, Bytes, ok, All, IsByte, concat, length,
}
use grpc_web.ChunkParser.{new_parser, parse_trailer_data}
use grpc_web.ChunkParser.Frames.{FitsFrame}
use grpc_web.Framing.{frame_response, frame_trailers, header_block}
use grpc_web.Client.Types.{Environment, State, headers}
use grpc_web.Client.Responses.{get_status_from_headers, headers_code}
use grpc_web.Client.Session.{Input, transport_headers, transport_chunk, transport_end, run}
use grpc_web.Client.Silence.{callbacks_called}
use grpc_web.Client.Passive.{IsPassive, told}
use grpc_web.Client.Outcome.{Deserializes, told_all, final_event, run-response}
use grpc_web.Js.Number.{Number, is_number}
use grpc_web.Xhr.{
  Action, open_post, set_response_type, override_mime_type, set_request_header,
  set_with_credentials, send, abort, on_headers, on_chunk, on_end, XhrKind, text_xhr, moz_xhr, Xhr,
  index_or_start, on_progress_event, on_load_event, on_state_change, send_message,
  set_request_headers, start,
}
use grpc_web.Xhr.Chunks.{report, KeepsBytes, chunk_of}

-- The calls of the client in a log, the oldest first.
abbrev pub inputs_of : {Md Arg Req : Type 0} → List (Action Md) → List (Input Md Arg Req)
inputs_of [] = []
inputs_of (on_headers md status ∷ log) = inputs_of log ++ transport_headers md status ∷ []
inputs_of (on_chunk bytes ∷ log) = inputs_of log ++ transport_chunk bytes ∷ []
inputs_of (on_end ∷ log) = inputs_of log ++ transport_end ∷ []
inputs_of (open_post url ∷ log) = inputs_of log
inputs_of (set_response_type t ∷ log) = inputs_of log
inputs_of (override_mime_type t ∷ log) = inputs_of log
inputs_of (set_request_header key value ∷ log) = inputs_of log
inputs_of (set_with_credentials b ∷ log) = inputs_of log
inputs_of (send bytes ∷ log) = inputs_of log
inputs_of (abort ∷ log) = inputs_of log

-- A request with one message; headers; a progress event for each piece of the text; and the load.
abbrev pub exchange :
    {Md : Type 0}
    → (ℕ → ℕ)
    → List (Text × List Text)
    → Bytes
    → Md
    → ℕ
    → List Bytes
    → Xhr Md
    → Xhr Md
exchange to_code metadata msg_bytes md status pieces x = on_load_event (
    report [] (map (map to_code) pieces)
      (on_state_change 2 md status (send_message msg_bytes (start metadata x))))

module _ {Md Arg Req : Type 0} where
  abbrev reported : Xhr Md → List (Input Md Arg Req)
  reported x = inputs_of x.log

  -- The headers of the request are no calls, and leave the index alone.
  set_request_headers-reported :
      (entries : List (Text × List Text)) (x : Xhr Md)
      → (reported (set_request_headers entries x) ≡ reported x)
        × ((set_request_headers entries x).index ≡ x.index)
  unfolding set_request_headers
  set_request_headers-reported [] x = (refl, refl)
  set_request_headers-reported ((key, values) ∷ entries) x = set_request_headers-reported entries _

  start-reported :
      (kind : XhrKind) (entries : List (Text × List Text)) (x : Xhr Md)
      → x.kind ≡ kind
      → (reported (start entries x) ≡ reported x) × ((start entries x).index ≡ x.index)
  unfolding start
  start-reported text_xhr entries x e = rw e (set_request_headers-reported entries _)
  start-reported moz_xhr entries x e = rw e (set_request_headers-reported entries _)

  report-reported :
      (to_code : ℕ → ℕ) (keeps : KeepsBytes to_code) (so_far : Text) (pieces : List Bytes)
      (x : Xhr Md)
      → index_or_start x.index ≡ length so_far
      → All (All IsByte) pieces
      → reported (report so_far (map (map to_code) pieces) x)
        ≡ reported x ++ map transport_chunk pieces
  unfolding on_progress_event
  report-reported to_code keeps so_far [] x e h = sym (append-nil _)
  report-reported to_code keeps so_far (piece ∷ pieces) x e (h, hs) =
      report-reported to_code keeps (so_far ++ map to_code piece) pieces
        (on_progress_event (so_far ++ map to_code piece) x) refl hs
      ∙ ap (λ b. (reported x ++ transport_chunk b ∷ []) ++ map transport_chunk pieces)
          (chunk_of to_code keeps so_far piece x e h)
      ∙ append_assoc (reported x) (transport_chunk piece ∷ []) _

  reported-exchange :
      (to_code : ℕ → ℕ) (keeps : KeepsBytes to_code) (metadata : List (Text × List Text))
      (msg_bytes : Bytes) (md : Md) (status : ℕ) (pieces : List Bytes) (x : Xhr Md)
      → x.log ≡ []
      → x.index ≡ none
      → All (All IsByte) pieces
      → reported (exchange to_code metadata msg_bytes md status pieces x)
        ≡ transport_headers md status ∷ map transport_chunk pieces ++ transport_end ∷ []
  unfolding on_load_event on_state_change send_message
  reported-exchange to_code keeps metadata msg_bytes md status pieces x e i h =
      let (same, index) = start-reported x.kind metadata x refl in
      ap (λ r. r ++ transport_end ∷ [])
        (report-reported to_code keeps [] pieces _ (ap index_or_start (index ∙ i)) h
          ∙ ap (λ r. (r ++ transport_headers md status ∷ []) ++ map transport_chunk pieces)
              (same ∙ ap inputs_of e))

-- An XHR for text that has done nothing is started, sends one message, receives headers with an HTTP
-- status other than 0 and the code OK, and a body of messages and trailers with a grpc-status, in
-- pieces that are cut in any way: a progress event behind each, with all the text so far, in a
-- charset that keeps the bytes; then it is loaded. With what that is reported a client runs that is
-- neither closed nor complete and whose parser is new; its callbacks return and do not call it;
-- `deserializeBinary` takes each message; the payloads and the trailer block fit their length bytes,
-- and the block is taken by `new Metadata`. Then the user is told the headers, each message once, in
-- order, and last the grpc-status, its decoded message and the trailers; nothing else; and the
-- request is complete.
pub report-told :
    (E : Environment) (passive : IsPassive E) (to_code : ℕ → ℕ) (keeps : KeepsBytes to_code)
    (metadata : List (Text × List Text)) (msg_bytes : Bytes) (x : Xhr E.Metadata) (c : State E)
    (md trailer_md : E.Metadata) (status : ℕ) (grpc_status : Number) (payloads pieces : List Bytes)
    (rs : List E.Response) (to_buffer : Text → Bytes) (entries : List (Text × List Text))
    → x.kind ≡ text_xhr
    → x.log ≡ []
    → x.index ≡ none
    → All (All IsByte) pieces
    → c.completed ≡ false
    → c.closed ≡ false
    → c.parser ≡ new_parser
    → (status == 0) ≡ false
    → is_number (headers_code (get_status_from_headers E md) status) 0 ≡ true
    → Deserializes E passive payloads rs
    → All FitsFrame payloads
    → FitsFrame (to_buffer (header_block entries))
    → parse_trailer_data E.from_text (to_buffer (header_block entries)) ≡ ok trailer_md
    → get_status_from_headers E (E.copy trailer_md) ≡ some grpc_status
    → concat pieces ≡ concat (map frame_response payloads) ++ frame_trailers to_buffer entries
    → let c' = run E (inputs_of (exchange to_code metadata msg_bytes md status pieces x).log) c in
      (callbacks_called c'.log
        ≡ callbacks_called c.log
          ++ (told c.on_headers_callbacks (headers md)
              ++ (told_all E passive c.on_message_callbacks rs
                  ++ told c.on_end_callbacks
                      (final_event E passive grpc_status (E.copy trailer_md)))))
      × (c'.completed ≡ true)
report-told E passive to_code keeps metadata msg_bytes x c md trailer_md status grpc_status payloads
      pieces rs to_buffer entries of_text fresh index bytes h k p z ok_code d fits fits' b s w =
    let inputs : List (Input E.Metadata E.Arg E.Request) =
      transport_headers md status ∷ map transport_chunk pieces ++ transport_end ∷ [] in
    let path : inputs_of (exchange to_code metadata msg_bytes md status pieces x).log ≡ inputs =
      reported-exchange to_code keeps metadata msg_bytes md status pieces x fresh index bytes in
    rw path (
      run-response E passive c md trailer_md status grpc_status payloads pieces rs to_buffer entries
        h k p z ok_code d fits fits' b s w)
