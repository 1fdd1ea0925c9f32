-- ===== src/Unary/Output.antt =====
-- unary.ts: the output that the user's callback gets of a whole response.
use grpc_web.Prelude.{ℕ, ◌≡◌, refl, ap, ◌∙◌, true, false, Option, none, some, List, [], ◌∷◌, ◌++◌}
use grpc_web.Prelude.{map, ◌==◌, Text, Bytes, ok, All, concat, map_ok}
use grpc_web.ChunkParser.{parse_trailer_data}
use grpc_web.ChunkParser.Frames.{FitsFrame}
use grpc_web.Framing.{frame_response, frame_trailers, header_block}
use grpc_web.Client.Types.{Environment, State, Script, return, headers, message, end}
use grpc_web.Client.Responses.{get_status_from_headers, headers_code, decode_grpc_status, first}
use grpc_web.Client.Session.{transport_headers, transport_end, run}
use grpc_web.Client.Passive.{IsPassive, told}
use grpc_web.Client.Delivery.{chunk_inputs}
use grpc_web.Client.Outcome.{Deserializes, told_all, final_event, run-response}
use grpc_web.Client.Replay.{replay, replay-append, run-replay}
use grpc_web.Js.Number.{Number, is_number}
use grpc_web.Client.Callbacks.{or_new}
use grpc_web.Invoke.{InvokeOptions, register_callbacks, invoke}
use grpc_web.Invoke.Whole.{invoked, invoke-returns}
use grpc_web.Unary.{UnaryOutput, Variables, beside, unary_environment, unary}
use grpc_web.Prelude.{text}

abbrev pub last_or : {A : Type 0} → Option A → List A → Option A
last_or known [] = known
last_or known (x ∷ xs) = last_or (some x) xs

module _ (E : Environment)
    (on_end : UnaryOutput E.Metadata E.Response → E.User → Script E.Arg E.Request E.User)
    (returns : (o : UnaryOutput E.Metadata E.Response) (u : E.User)
      → (v : E.User) × (on_end o u ≡ return v)) where
  open E use {Metadata, Arg, Request, Response, User, request_stream}

  abbrev E' : Environment
  E' = unary_environment E on_end

  abbrev pub unary-IsPassive : IsPassive (unary_environment E on_end)
  unary-IsPassive callback (headers md) v = (record v { response_headers = some md }, refl)
  unary-IsPassive callback (message res) v = (record v { response_message = some res }, refl)
  unary-IsPassive callback (end status msg md) v =
      let o : UnaryOutput Metadata Response = record {
        status = status;
        status_message = msg;
        headers = or_new E v.response_headers;
        message = v.response_message;
        trailers = md;
      } in
      (record v { user = (returns o v.user).0 }, ap (λ s. beside s v) (returns o v.user).1)

  -- The output of a response whose messages are these.
  abbrev pub output : Metadata → Metadata → Number → List Response → UnaryOutput Metadata Response
  output md trailer_md grpc_status rs = record {
    status = grpc_status;
    status_message = decode_grpc_status (first (E.get trailer_md (text "grpc-message")));
    headers = md;
    message = last_or none rs;
    trailers = trailer_md;
  }

  abbrev props_of : Option Arg → Request → InvokeOptions Arg Request
  props_of metadata request = record {
    request = request;
    metadata = metadata;
    on_headers = some 0;
    on_message = some 1;
    on_end = some 2;
  }

  abbrev fresh : User → Variables Metadata Response User
  fresh user = record { response_headers = none; response_message = none; user = user }

  -- With no streams it is `invoke` with the three callbacks.
  unary-invoke :
      (metadata : Option Arg) (request : Request) (user : User)
      → request_stream ≡ false
      → unary E on_end false metadata request user
        ≡ invoke E' (props_of metadata request) (fresh user)
  unfolding unary invoke register_callbacks
  unary-invoke metadata request user h = rw h refl

  replay_messages :
      (rs : List Response) (v : Variables Metadata Response User)
      → replay E' unary-IsPassive (told_all E' unary-IsPassive (1 ∷ []) rs) v
        ≡ record v { response_message = last_or v.response_message rs }
  replay_messages [] v = refl
  replay_messages (r ∷ rs) v = replay_messages rs (record v { response_message = some r })

  -- What is told of a whole response leaves the user's callback called once, at the end.
  replay_response :
      (md trailer_md : Metadata) (grpc_status : Number) (rs : List Response) (user : User)
      → (replay E' unary-IsPassive
          (told (0 ∷ []) (headers md)
            ++ (told_all E' unary-IsPassive (1 ∷ []) rs
                ++ told (2 ∷ []) (final_event E' unary-IsPassive grpc_status trailer_md)))
          (fresh user)).user
        ≡ (returns (output md trailer_md grpc_status rs) user).0
  replay_response md trailer_md grpc_status rs user =
      let v = record (fresh user) { response_headers = some md } in
      let ends = told (2 ∷ []) (final_event E' unary-IsPassive grpc_status trailer_md) in
      ap (λ w. w.user)
        (replay-append E' unary-IsPassive (told_all E' unary-IsPassive (1 ∷ []) rs) ends v
          ∙ ap (replay E' unary-IsPassive ends) (replay_messages rs v))

  -- A unary call of a method without streams, with metadata that `new Metadata` takes, whose user's
  -- callback returns at once, without a call of the client, that gets success headers, then a body
  -- of any number of messages and trailers with a status, cut into pieces in any way, then the end;
  -- with `deserializeBinary` taking each message, the payloads and the trailer block fitting their
  -- length bytes, and the block being taken by `new Metadata`. Then `unary` returns, and behind the
  -- end the user's state is what one call of the callback makes of it, with the status and its
  -- decoded message, the headers, the last message or null if there was none, and the trailers.
  pub unary-response :
      (metadata : Option Arg) (request : Request) (user : User) (md trailer_md : Metadata)
      (status : ℕ) (grpc_status : Number) (payloads pieces : List Bytes) (rs : List Response)
      (to_buffer : Text → Bytes) (entries : List (Text × List Text)) (request_md : Metadata)
      → E.from_arg metadata ≡ ok request_md
      → request_stream ≡ false
      → (status == 0) ≡ false
      → is_number (headers_code (get_status_from_headers (unary_environment E on_end) md) status) 0
        ≡ true
      → Deserializes (unary_environment E on_end) unary-IsPassive payloads rs
      → All FitsFrame payloads
      → FitsFrame (to_buffer (header_block entries))
      → parse_trailer_data E.from_text (to_buffer (header_block entries)) ≡ ok trailer_md
      → get_status_from_headers (unary_environment E on_end) (E.copy trailer_md) ≡ some grpc_status
      → concat pieces ≡ concat (map frame_response payloads) ++ frame_trailers to_buffer entries
      → (c : State (unary_environment E on_end)) × (unary E on_end false metadata request user
          ≡ ok c)
        × ((run
              (unary_environment E on_end)
              (transport_headers md status
                  ∷ chunk_inputs (unary_environment E on_end) unary-IsPassive pieces
                ++ transport_end ∷ [])
              c).user.user
            ≡ (returns (output md (E.copy trailer_md) grpc_status rs) user).0)
  unary-response metadata request user md trailer_md status grpc_status payloads pieces rs to_buffer
        entries request_md taken h z e d fits fits' b s w =
      let props = props_of metadata request in
      let c = invoked E' props (fresh user) request_md in
      let inputs =
        transport_headers md status ∷ chunk_inputs E' unary-IsPassive pieces
        ++ transport_end ∷ [] in
      let (calls, _) =
        run-response E' unary-IsPassive c md trailer_md status grpc_status payloads pieces rs
          to_buffer entries refl refl refl z e d fits fits' b s w in
      (
        c,
        unary-invoke metadata request user h
            ∙ invoke-returns E' props (fresh user) h
            ∙ ap (map_ok (invoked E' props (fresh user))) taken,
        ap (λ v. v.user)
              (run-replay E' unary-IsPassive inputs c (fresh user) refl
                ∙ ap (λ l. replay E' unary-IsPassive l (fresh user)) calls)
            ∙ replay_response md (E.copy trailer_md) grpc_status rs user,
      )
