-- ===== src/NodeHttp/Whole.antt =====
-- node-http-transport/src/index.ts with client.ts: what the client is called with, and what its user is
-- told of a response.
use grpc_web.Prelude.{
  ℕ, ◌≡◌, refl, ap, ◌∙◌, sym, Bool, true, false, ◌&&◌, not, some, List, [], ◌∷◌, ◌++◌,
}
use grpc_web.Prelude.{
  if◌then◌else◌, append_assoc, append-nil, ◌==◌, map, Text, text, text_eq, Bytes, ok, All, IsByte,
  concat, length,
}
use grpc_web.ChunkParser.{new_parser, parse_trailer_data}
use grpc_web.ChunkParser.Frames.{FitsFrame}
use grpc_web.Framing.{frame_response, frame_trailers, header_block}
use grpc_web.Client.Types.{Environment, State, headers}
use grpc_web.Client.Responses.{get_status_from_headers, headers_code}
use grpc_web.Client.Session.{Input, transport_headers, transport_chunk, transport_end, run}
use grpc_web.Client.Silence.{callbacks_called}
use grpc_web.Client.Passive.{IsPassive, told}
use grpc_web.Client.Outcome.{Deserializes, told_all, final_event, run-response}
use grpc_web.Js.Number.{Number, is_number}
use grpc_web.NodeHttp.{
  HeaderValue, Property, Action, https_request, http_request, set_header, write, finish, abort,
  on_headers, on_chunk, on_end, NodeHttp, filter_headers_for_undefined, start, send_message,
  response_callback, on_data, on_response_end,
}
use grpc_web.NodeHttp.Copies.{copies_same}

-- The calls of the client in a log, the oldest first.
abbrev pub inputs_of : {Md Arg Req : Type 0} → List (Action Md) → List (Input Md Arg Req)
inputs_of [] = []
inputs_of (on_headers md status ∷ log) = inputs_of log ++ transport_headers md status ∷ []
inputs_of (on_chunk bytes ∷ log) = inputs_of log ++ transport_chunk bytes ∷ []
inputs_of (on_end ∷ log) = inputs_of log ++ transport_end ∷ []
inputs_of (https_request options ∷ log) = inputs_of log
inputs_of (http_request options ∷ log) = inputs_of log
inputs_of (set_header name value ∷ log) = inputs_of log
inputs_of (write bytes ∷ log) = inputs_of log
inputs_of (finish ∷ log) = inputs_of log
inputs_of (abort ∷ log) = inputs_of log

-- A "data" event for each chunk.
abbrev pub on_data_all : {Md : Type 0} → List Bytes → NodeHttp Md → NodeHttp Md
on_data_all [] x = x
on_data_all (chunk ∷ chunks) x = on_data_all chunks (on_data chunk x)

-- A request with one message, and a response to it.
abbrev pub exchange :
    {Md : Type 0}
    → (List (Text × HeaderValue) → Md)
    → List (Text × List Text)
    → Bytes
    → List Property
    → ℕ
    → List Bytes
    → NodeHttp Md
    → NodeHttp Md
exchange new_metadata metadata msg_bytes received status chunks x =
    let requested = send_message msg_bytes (start metadata x) in
    on_response_end (on_data_all chunks (response_callback new_metadata received status requested))

module _ {Md Arg Req : Type 0} where
  abbrev reported : NodeHttp Md → List (Input Md Arg Req)
  reported x = inputs_of x.log

  reported-on_data_all :
      (chunks : List Bytes) (x : NodeHttp Md)
      → All (All IsByte) chunks
      → reported (on_data_all chunks x) ≡ reported x ++ map transport_chunk chunks
  unfolding on_data
  reported-on_data_all [] x h = sym (append-nil _)
  reported-on_data_all (chunk ∷ chunks) x (b, h) =
      reported-on_data_all chunks (on_data chunk x) h
      ∙ ap (λ bytes. (reported x ++ transport_chunk bytes ∷ []) ++ map transport_chunk chunks)
          (copies_same chunk b).1
      ∙ append_assoc (reported x) (transport_chunk chunk ∷ []) (map transport_chunk chunks)

  if_reported :
      (b : Bool) (x y : NodeHttp Md)
      → reported x ≡ reported y
      → reported (if b then x else y) ≡ reported y
  if_reported true x y e = e
  if_reported false x y e = refl

  reported-requested :
      (metadata : List (Text × List Text)) (msg_bytes : Bytes) (x : NodeHttp Md)
      → reported (send_message msg_bytes (start metadata x)) ≡ reported x
  unfolding send_message start
  reported-requested metadata msg_bytes x =
      let y = start metadata x in
      let sized : NodeHttp Md = record y {
        log = set_header (text "Content-Length") (length msg_bytes) ∷ y.log;
      } in
      if_reported (not y.request_stream && not y.response_stream) sized y refl
      ∙ if_reported (text_eq x.url.protocol (text "https:")) _ _ refl

  reported-exchange :
      (new_metadata : List (Text × HeaderValue) → Md) (metadata : List (Text × List Text))
      (msg_bytes : Bytes) (received : List Property) (status : ℕ) (chunks : List Bytes)
      (x : NodeHttp Md)
      → All (All IsByte) chunks
      → x.log ≡ []
      → reported (exchange new_metadata metadata msg_bytes received status chunks x)
        ≡ transport_headers (new_metadata (filter_headers_for_undefined received)) status
            ∷ map transport_chunk chunks
          ++ transport_end ∷ []
  unfolding response_callback on_response_end
  reported-exchange new_metadata metadata msg_bytes received status chunks x h e =
      let requested = send_message msg_bytes (start metadata x) in
      let md = new_metadata (filter_headers_for_undefined received) in
      let responded : NodeHttp Md = record requested {
        log = on_headers md status ∷ requested.log;
      } in
      ap (λ l. l ++ transport_end ∷ [])
        (reported-on_data_all chunks responded h
          ∙ ap (λ l. (l ++ transport_headers md status ∷ []) ++ map transport_chunk chunks)
              (reported-requested metadata msg_bytes x ∙ ap inputs_of e))

-- A request of one message over Node's http, whose response has headers with an HTTP status other
-- than 0 and the code OK and a body of messages and trailers with a grpc-status, that arrives in
-- "data" events of bytes, cut in any way, and then "end". With what that is reported a client runs
-- that is neither closed nor complete and whose parser is new; its callbacks return and do not call
-- it; `deserializeBinary` takes each message, the payloads and the trailer block fit their length
-- bytes, and the block is taken by `new Metadata`. Then the user is told the headers that are
-- defined, each message once, in order, and last the grpc-status, its decoded message and the
-- trailers; nothing else; and the request is complete.
pub exchange-told :
    (E : Environment) (passive : IsPassive E)
    (new_metadata : List (Text × HeaderValue) → E.Metadata) (metadata : List (Text × List Text))
    (msg_bytes : Bytes) (received : List Property) (x : NodeHttp E.Metadata) (c : State E)
    (trailer_md : E.Metadata) (status : ℕ) (grpc_status : Number) (payloads chunks : List Bytes)
    (rs : List E.Response) (to_buffer : Text → Bytes) (entries : List (Text × List Text))
    → x.log ≡ []
    → All (All IsByte) chunks
    → c.completed ≡ false
    → c.closed ≡ false
    → c.parser ≡ new_parser
    → (status == 0) ≡ false
    → is_number
        (headers_code
          (get_status_from_headers E (new_metadata (filter_headers_for_undefined received)))
          status)
        0
      ≡ true
    → Deserializes E passive payloads rs
    → All FitsFrame payloads
    → FitsFrame (to_buffer (header_block entries))
    → parse_trailer_data E.from_text (to_buffer (header_block entries)) ≡ ok trailer_md
    → get_status_from_headers E (E.copy trailer_md) ≡ some grpc_status
    → concat chunks ≡ concat (map frame_response payloads) ++ frame_trailers to_buffer entries
    → let md = new_metadata (filter_headers_for_undefined received) in
      let c' =
        run E
          (inputs_of (exchange new_metadata metadata msg_bytes received status chunks x).log)
          c in
      (callbacks_called c'.log
        ≡ callbacks_called c.log
          ++ (told c.on_headers_callbacks (headers md)
              ++ (told_all E passive c.on_message_callbacks rs
                  ++ told c.on_end_callbacks
                      (final_event E passive grpc_status (E.copy trailer_md)))))
      × (c'.completed ≡ true)
exchange-told E passive new_metadata metadata msg_bytes received x c trailer_md status grpc_status
      payloads chunks rs to_buffer entries e bytes h k p z ok_code d fits fits' b s w =
    rw (reported-exchange new_metadata metadata msg_bytes received status chunks x bytes e) (
      run-response E passive c (new_metadata (filter_headers_for_undefined received)) trailer_md
        status grpc_status payloads chunks rs to_buffer entries h k p z ok_code d fits fits' b s w)
