-- ===== src/ReactNative/Exchange.antt =====
-- react-native-transport/src/index.ts with client.ts: what a user is told of a response.
use grpc_web.Prelude.{ℕ, ◌≤◌, ◌≡◌, ◌∙◌, Bool, true, false, some, List, [], ◌∷◌, ◌++◌}
use grpc_web.Prelude.{◌==◌, map, append-nil, Text, Bytes, ok, All, concat}
use grpc_web.ChunkParser.{new_parser, parse_trailer_data}
use grpc_web.ChunkParser.Frames.{FitsFrame}
use grpc_web.Framing.{frame_response, frame_trailers, header_block}
use grpc_web.Client.Types.{Environment, State, headers}
use grpc_web.Client.Responses.{get_status_from_headers, headers_code}
use grpc_web.Client.Session.{Input, transport_headers, transport_chunk, transport_end, run}
use grpc_web.Client.Silence.{callbacks_called}
use grpc_web.Client.Passive.{IsPassive, told}
use grpc_web.Client.Outcome.{Deserializes, told_all, final_event, run-response}
use grpc_web.Js.Number.{Number, is_number}
use grpc_web.ReactNative.Detach.{Queue, Behaviour, new_queue}
use grpc_web.ReactNative.Detach.Order.{waiting, Life}
use grpc_web.ReactNative.Detach.Quiet.{IsQuiet}
use grpc_web.ReactNative.Detach.Drain.{total, EndsChains, fire_times}
use grpc_web.ReactNative.Transport.{
  ClientCall, Callback, tell_headers, tell_chunk, tell_end, react_native_transport, start,
}
use grpc_web.ReactNative.Whole.{
  Turn, calls_of, own, calls_for, AreOthers, take_turns, called-calls_of,
}

-- A detached call, with what the request's headers and status read. The client's handler of a chunk
-- takes no flush.
abbrev pub input_of : {Md Arg Req : Type 0} → Md → ℕ → ClientCall → Input Md Arg Req
input_of md status tell_headers = transport_headers md status
input_of md status (tell_chunk bytes flush) = transport_chunk bytes
input_of md status tell_end = transport_end

-- A transport is made and started, on a page whose queue has had any life before; then its request
-- receives the headers and, later, is loaded, with other events that lead to no calls, timers, and
-- callbacks that other requests detach between them in any way; and then as many more timers go off
-- as what waits weighs. Callbacks may throw, and detach finitely long chains of others, by a weight,
-- but none of this request. The response has an HTTP status other than 0 and the code OK and a body
-- of messages and trailers with a grpc-status. The calls of this request are those of a client that
-- is neither closed nor complete and whose parser is new; its callbacks return and do not call it;
-- `deserializeBinary` takes each message, the payloads and the trailer block fit their length bytes,
-- and the block is taken by `new Metadata`. Then the user is told the headers, each message once, in
-- order, and last the grpc-status, its decoded message and the trailers; nothing else; and the
-- request is complete.
pub called-told :
    (E : Environment) (passive : IsPassive E)
    (behave : List Callback → Callback → Behaviour Callback) (request : ℕ)
    (quiet : IsQuiet (own request) behave) (weight : Callback → ℕ) (ends : EndsChains behave weight)
    {q : Queue Callback} (turns : List Turn) (n : ℕ) (request_headers : List (Text × List Text))
    (url : Text) (with_credentials : Bool) (c : State E) (md trailer_md : E.Metadata) (status : ℕ)
    (grpc_status : Number) (payloads : List Bytes) (rs : List E.Response) (to_buffer : Text → Bytes)
    (entries : List (Text × List Text))
    → Life behave new_queue q
    → calls_for request q.detached ≡ []
    → AreOthers request turns
    → total weight (
        waiting
          (take_turns behave turns (record {
            xhr = start request_headers (react_native_transport request url with_credentials);
            queue = q;
          })).queue.awaiting_execution)
      ≤ n
    → calls_of turns
      ≡ tell_headers
        ∷ tell_chunk (concat (map frame_response payloads) ++ frame_trailers to_buffer entries) true
        ∷ tell_end
        ∷ []
    → c.completed ≡ false
    → c.closed ≡ false
    → c.parser ≡ new_parser
    → (status == 0) ≡ false
    → is_number (headers_code (get_status_from_headers E md) status) 0 ≡ true
    → Deserializes E passive payloads rs
    → All FitsFrame payloads
    → FitsFrame (to_buffer (header_block entries))
    → parse_trailer_data E.from_text (to_buffer (header_block entries)) ≡ ok trailer_md
    → get_status_from_headers E (E.copy trailer_md) ≡ some grpc_status
    → let p = take_turns behave turns (record {
      xhr = start request_headers (react_native_transport request url with_credentials);
      queue = q;
    }) in
      let calls = calls_for request (fire_times behave n p.queue).called in
      let c' = run E (map (input_of md status) calls) c in
      (callbacks_called c'.log
        ≡ callbacks_called c.log
          ++ (told c.on_headers_callbacks (headers md)
              ++ (told_all E passive c.on_message_callbacks rs
                  ++ told c.on_end_callbacks
                      (final_event E passive grpc_status (E.copy trailer_md)))))
      × (c'.completed ≡ true)
called-told E passive behave request quiet weight ends turns n request_headers url with_credentials
      c md trailer_md status grpc_status payloads rs to_buffer entries life none_own others enough
      calls h k p z ok_code d fits fits' b s =
    let resp = concat (map frame_response payloads) ++ frame_trailers to_buffer entries in
    let path =
      called-calls_of behave request quiet weight ends turns n request_headers url with_credentials
        life none_own others enough
      ∙ calls in
    rw path (
      run-response E passive c md trailer_md status grpc_status payloads (resp ∷ []) rs to_buffer
        entries h k p z ok_code d fits fits' b s (append-nil resp))
