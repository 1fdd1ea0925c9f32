-- ===== src/Client/Responses.antt =====
-- client.ts: what the transport calls, `onTransportHeaders`, `onTransportChunk`, `onTransportEnd`.
use grpc_web.Prelude.{
  ℕ, false, ◌&&◌, Option, none, some, List, [], ◌∷◌, ◌++◌, ◌==◌, if◌then◌else◌, Text, text, Bytes,
  Result, ok, thrown,
}
use grpc_web.ChunkParser.{Chunk, parse}
use grpc_web.Client.Types.{Environment, State}
use grpc_web.Client.Callbacks.{raw_on_end, raw_on_headers, raw_on_error, raw_on_message}
use grpc_web.Code.{Code, to_number, http_status_to_code}
use grpc_web.Js.Number.{Number, int, is_truthy, is_at_least_zero, is_number, parse_int}
use grpc_web.Js.Uri.{decode_uri_component}

-- `decodeGRPCStatus`: undefined and "" give "", and a URIError gives the text as it is.
unfoldable pub decode_grpc_status : Option Text → Text
decode_grpc_status none = []
decode_grpc_status (some []) = []
decode_grpc_status (some (c ∷ s)) = elim (decode_uri_component (c ∷ s)) [
  | some t ↦ t
  | none ↦ c ∷ s
]

-- `xs[0]`.
abbrev pub first : List Text → Option Text
first [] = none
first (x ∷ xs) = some x

abbrev pub number_of : Code → Number
number_of code = int (to_number code)

-- `gRPCStatus && gRPCStatus >= 0 ? gRPCStatus : httpStatusToCode(status)`
unfoldable pub headers_code : Option Number → ℕ → Number
headers_code none status = number_of (http_status_to_code status)
headers_code (some grpc_status) status =
    if is_truthy grpc_status && is_at_least_zero grpc_status
    then grpc_status
    else number_of (http_status_to_code status)

module _ (E : Environment) where
  open E use {Metadata, Response, from_text, copy, get, deserialize_binary, has_slice}

  -- `getStatusFromHeaders`; `none` is null, and `parseInt` may give NaN.
  unfoldable pub get_status_from_headers : Metadata → Option Number
  get_status_from_headers md = elim (get md (text "grpc-status")) [
    | [] ↦ none
    | s ∷ _ ↦ some (parse_int s)
  ]

  unfoldable pub on_transport_headers : Metadata → ℕ → State E → State E
  on_transport_headers md status c =
      if c.closed
      then c
      else if status == 0
      then c
      else (let code = headers_code (get_status_from_headers md) status in
          let c' = raw_on_headers E md (record c { response_headers = some md }) in
          if is_number code (to_number Code.ok)
          then c'
          else raw_on_error E code (decode_grpc_status (first (get md (text "grpc-message"))))
              (some md) c')

  -- The branch for trailers in the loop of `onTransportChunk`, by `this.responseHeaders`: the first
  -- block of a response whose transport gave no headers stands for them.
  unfoldable pub on_trailers_after : Option Metadata → Metadata → State E → State E
  on_trailers_after none md c =
      raw_on_headers E (copy md) (record c { response_headers = some (copy md) })
  on_trailers_after (some _) md c = record c { response_trailers = some (copy md) }

  -- The branch for messages; `go_on` is the rest of the loop, which an exception leaves.
  unfoldable pub on_deserialized :
      Result Response → State E → (State E → State E × Option Text) → State E × Option Text
  on_deserialized (ok res) c go_on = go_on (raw_on_message E res c)
  on_deserialized (thrown e) c go_on = (c, some e)

  -- The loop `data.forEach(...)`.
  unfoldable pub on_chunks : List (Chunk Metadata) → State E → State E × Option Text
  on_chunks [] c = (c, none)
  on_chunks (Chunk.message bytes ∷ chunks) c =
      on_deserialized (deserialize_binary bytes) c (λ c'. on_chunks chunks c')
  on_chunks (Chunk.trailers md ∷ chunks) c =
      on_chunks chunks (on_trailers_after c.response_headers md c)

  -- What follows the call of the parser, which has changed its own state.
  unfoldable pub on_parsed : Result (List (Chunk Metadata)) → State E → State E × Option Text
  on_parsed (ok chunks) c = on_chunks chunks c
  on_parsed (thrown e) c =
      (raw_on_error E (number_of Code.internal) (text "parsing error: " ++ e) none c, none)

  unfoldable pub on_transport_chunk : Bytes → State E → State E × Option Text
  on_transport_chunk chunk_bytes c =
      if c.closed
      then (c, none)
      else (let (parser, r) = parse has_slice from_text c.parser chunk_bytes false in
          on_parsed r (record c { parser = parser }))

  -- The end of a response without trailers: its headers may hold the status.
  unfoldable pub end_headers_only : Option Number → Metadata → State E → State E
  end_headers_only none md c =
      raw_on_end E (number_of Code.unknown)
        (text "Response closed without grpc-status (Headers only)") md c
  end_headers_only (some grpc_status) md c =
      raw_on_end E grpc_status (decode_grpc_status (first (get md (text "grpc-message")))) md c

  unfoldable pub end_trailers : Option Number → Metadata → State E → State E
  end_trailers none md c =
      raw_on_error E (number_of Code.internal)
        (text "Response closed without grpc-status (Trailers provided)") none c
  end_trailers (some grpc_status) md c =
      raw_on_end E grpc_status (decode_grpc_status (first (get md (text "grpc-message")))) md c

  -- The body of `onTransportEnd` by the trailers and the headers that were received.
  unfoldable pub end_with : Option Metadata → Option Metadata → State E → State E
  end_with none none c =
      raw_on_error E (number_of Code.unknown) (text "Response closed without headers") none c
  end_with none (some md) c = end_headers_only (get_status_from_headers md) md c
  end_with (some md) _ c = end_trailers (get_status_from_headers md) md c

  unfoldable pub on_transport_end : State E → State E
  on_transport_end c = if c.closed then c else end_with c.response_trailers c.response_headers c
