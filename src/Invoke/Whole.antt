-- ===== src/Invoke/Whole.antt =====
-- invoke.ts: what goes out, and what the callbacks are told of a whole response.
use grpc_web.Prelude.{ℕ, ◌≡◌, refl, ap, ◌∙◌, true, false, Option, none, some, List, [], ◌∷◌, ◌++◌}
use grpc_web.Prelude.{map, ◌==◌, Text, Bytes, ok, All, concat, map_ok, Result-cases, inl, inr}
use grpc_web.ChunkParser.{new_parser, parse_trailer_data}
use grpc_web.ChunkParser.Frames.{FitsFrame}
use grpc_web.Framing.{frame_request, frame_response, frame_trailers, header_block}
use grpc_web.Client.Types.{
  Environment, State, headers, new_client, transport_start, transport_send, transport_finish_send,
}
use grpc_web.Client.Requests.{
  request_headers, start, start_with, send, finish_send, on_headers, on_message, on_end,
}
use grpc_web.Client.Responses.{get_status_from_headers, headers_code}
use grpc_web.Client.Session.{transport_headers, transport_end, run}
use grpc_web.Client.Silence.{callbacks_called}
use grpc_web.Client.Passive.{IsPassive, told}
use grpc_web.Client.Delivery.{chunk_inputs}
use grpc_web.Client.Outcome.{Deserializes, told_all, final_event, run-response}
use grpc_web.Js.Number.{Number, is_number}
use grpc_web.Invoke.{InvokeOptions, register_given, register_callbacks, make_request, invoke}

abbrev pub given : Option ℕ → List ℕ
given none = []
given (some callback) = callback ∷ []

module _ (E : Environment) where
  open E use {Metadata, Arg, Request, Response, User, request_stream, serialize_binary}

  -- The client when `invoke` returns.
  abbrev pub invoked : InvokeOptions Arg Request → User → Metadata → State E
  invoked props user request_md = record {
    started = true;
    sent_first_message = true;
    completed = false;
    closed = false;
    finished_sending = true;
    on_headers_callbacks = given props.on_headers;
    on_message_callbacks = given props.on_message;
    on_end_callbacks = given props.on_end;
    parser = new_parser;
    response_headers = none;
    response_trailers = none;
    user = user;
    log =
        transport_finish_send
        ∷ transport_send (frame_request (serialize_binary props.request))
        ∷ transport_start (request_headers E request_md)
        ∷ [];
  }

  -- Only the callbacks that are given are registered, each once.
  given_headers :
      (callback : Option ℕ) (user : User)
      → register_given (on_headers E) callback (new_client E user)
        ≡ record (new_client E user) { on_headers_callbacks = given callback }
  unfolding on_headers new_client
  given_headers none user = refl
  given_headers (some k) user = refl

  given_messages :
      (callback : Option ℕ) (hs : List ℕ) (user : User)
      → let c = record (new_client E user) { on_headers_callbacks = hs } in
        register_given (on_message E) callback c
        ≡ record c { on_message_callbacks = given callback }
  unfolding on_message new_client
  given_messages none hs user = refl
  given_messages (some k) hs user = refl

  given_ends :
      (callback : Option ℕ) (hs ms : List ℕ) (user : User)
      → let c = record (new_client E user) {
        on_headers_callbacks = hs;
        on_message_callbacks = ms;
      } in
        register_given (on_end E) callback c ≡ record c { on_end_callbacks = given callback }
  unfolding on_end new_client
  given_ends none hs ms user = refl
  given_ends (some k) hs ms user = refl

  registered :
      (props : InvokeOptions Arg Request) (user : User)
      → register_callbacks E props (new_client E user) ≡ record (new_client E user) {
        on_headers_callbacks = given props.on_headers;
        on_message_callbacks = given props.on_message;
        on_end_callbacks = given props.on_end;
      }
  unfolding register_callbacks
  registered props user =
      ap
        (λ c.
          register_given (on_end E) props.on_end (register_given (on_message E) props.on_message c))
        (given_headers props.on_headers user)
      ∙ ap (register_given (on_end E) props.on_end)
          (given_messages props.on_message (given props.on_headers) user)
      ∙ given_ends props.on_end (given props.on_headers) (given props.on_message) user

  pub invoke-returns :
      (props : InvokeOptions Arg Request) (user : User)
      → request_stream ≡ false
      → invoke E props user ≡ map_ok (invoked props user) (E.from_arg props.metadata)
  unfolding invoke register_callbacks make_request start start_with send finish_send on_headers
      on_message on_end new_client
  invoke-returns props user h =
      rw (registered props user) (elim (Result-cases (E.from_arg props.metadata)) [
        | inl (request_md, e) ↦ rw (h, e) refl
        | inr (msg, e) ↦ rw (h, e) refl
      ])

  -- An `invoke` of a method that does not stream requests, with metadata that `new Metadata` takes and
  -- callbacks that return and do not call the client, that gets success headers, then a body of
  -- messages and trailers with a status, cut into pieces in any way, then the end; with
  -- `deserializeBinary` taking each message, the payloads and the trailer block fitting their length
  -- bytes, and the block being taken by `new Metadata`. Then `invoke` returns a client, and what the
  -- given callbacks are told of the response is: the headers, each message once, in order, and last
  -- the status, its decoded message and the trailers.
  pub invoke-response :
      (passive : IsPassive E) (props : InvokeOptions Arg Request) (user : User)
      (md trailer_md : Metadata) (status : ℕ) (grpc_status : Number) (payloads pieces : List Bytes)
      (rs : List Response) (to_buffer : Text → Bytes) (entries : List (Text × List Text))
      (request_md : Metadata)
      → E.from_arg props.metadata ≡ ok request_md
      → request_stream ≡ false
      → (status == 0) ≡ false
      → is_number (headers_code (get_status_from_headers E md) status) 0 ≡ true
      → Deserializes E passive payloads rs
      → All FitsFrame payloads
      → FitsFrame (to_buffer (header_block entries))
      → parse_trailer_data E.from_text (to_buffer (header_block entries)) ≡ ok trailer_md
      → get_status_from_headers E (E.copy trailer_md) ≡ some grpc_status
      → concat pieces ≡ concat (map frame_response payloads) ++ frame_trailers to_buffer entries
      → (c : State E) × (invoke E props user ≡ ok c)
        × (callbacks_called
              (run E
                (transport_headers md status ∷ chunk_inputs E passive pieces ++ transport_end ∷ [])
                c).log
            ≡ told (given props.on_headers) (headers md)
              ++ (told_all E passive (given props.on_message) rs
                  ++ told
                      (given props.on_end)
                      (final_event E passive grpc_status (E.copy trailer_md))))
  invoke-response passive props user md trailer_md status grpc_status payloads pieces rs to_buffer
        entries request_md taken h z e d fits fits' b s w =
      (
        invoked props user request_md,
        invoke-returns props user h ∙ ap (map_ok (invoked props user)) taken,
        (run-response E passive (invoked props user request_md) md trailer_md status grpc_status
            payloads pieces rs to_buffer entries refl refl refl z e d fits fits' b s w).0,
      )
