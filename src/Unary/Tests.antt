-- ===== src/Unary/Tests.antt =====
-- `invoke` and `unary` on a small response.
use grpc_web.Prelude.{
  ◌≡◌, refl, arith, ◌+◌, length, ℕ, false, some, none, [], ◌∷◌, ◌++◌, Option, Bytes, ok,
}
use grpc_web.ChunkParser.{parse_trailer_data}
use grpc_web.ChunkParser.Ascii.{
  is_allowed_control_chars, is_valid_header_ascii, all_valid, from_char_code, decode_ascii,
}
use grpc_web.Framing.{
  set_bytes, uint32_bytes, frame_response, frame_trailers, header_block, join_values,
}
use grpc_web.Js.Number.{int, parse_int}
use grpc_web.Code.{http_status_to_code}
use grpc_web.Client.Types.{State, Script, return, headers}
use grpc_web.Client.Responses.{get_status_from_headers, headers_code}
use grpc_web.Client.Session.{transport_headers, transport_end, run}
use grpc_web.Client.Silence.{callbacks_called}
use grpc_web.Client.Passive.{told}
use grpc_web.Client.Delivery.{chunk_inputs}
use grpc_web.Client.Outcome.{told_all, final_event}
use grpc_web.Client.Tests.{Entries, calm, calm_IsPassive, status_md, pieces}
use grpc_web.Invoke.{InvokeOptions, invoke}
use grpc_web.Invoke.Whole.{given, invoke-response}
use grpc_web.Unary.{UnaryOutput, unary_environment, unary}
use grpc_web.Unary.Output.{unary-IsPassive, unary-response}

-- No callback for the messages.
abbrev options : InvokeOptions Entries Bytes
options = record {
  request = 5 ∷ [];
  metadata = none;
  on_headers = some 0;
  on_message = none;
  on_end = some 2;
}

invoke-response_example :
    (c : State calm) × (invoke calm options 0 ≡ ok c)
    × (callbacks_called
          (run calm
            (transport_headers [] 200 ∷ chunk_inputs calm calm_IsPassive pieces
              ++ transport_end ∷ [])
            c).log
        ≡ told (given options.on_headers) (headers [])
          ++ (told_all calm calm_IsPassive (given options.on_message) ((7 ∷ 8 ∷ []) ∷ [])
              ++ told (given options.on_end) (final_event calm calm_IsPassive (int 0) status_md)))
unfolding get_status_from_headers headers_code http_status_to_code parse_trailer_data decode_ascii
    all_valid is_valid_header_ascii is_allowed_control_chars from_char_code parse_int frame_response
    frame_trailers set_bytes uint32_bytes header_block join_values
invoke-response_example =
    invoke-response calm calm_IsPassive options 0 [] status_md 200 (int 0) ((7 ∷ 8 ∷ []) ∷ [])
      pieces ((7 ∷ 8 ∷ []) ∷ []) (λ t. t) status_md [] refl refl refl refl (refl, tt)
      (omega arith, tt) (omega arith) refl refl refl

abbrev bytes_of : Option Bytes → ℕ
bytes_of none = 0
bytes_of (some bytes) = length bytes

-- A callback that adds up the bytes of the messages it gets.
abbrev message_bytes : UnaryOutput Entries Bytes → ℕ → Script Entries Bytes ℕ
message_bytes o u = return (bytes_of o.message + u)

abbrev message_bytes_returns :
    (o : UnaryOutput Entries Bytes) (u : ℕ) → (v : ℕ) × (message_bytes o u ≡ return v)
message_bytes_returns o u = (bytes_of o.message + u, refl)

unary-response_example :
    let E' = unary_environment calm message_bytes in
    let p = unary-IsPassive calm message_bytes message_bytes_returns in
    (c : State E') × (unary calm message_bytes false none (5 ∷ []) 0 ≡ ok c)
    × ((run E'
          (transport_headers [] 200 ∷ chunk_inputs E' p pieces ++ transport_end ∷ [])
          c).user.user
        ≡ 2)
unfolding get_status_from_headers headers_code http_status_to_code parse_trailer_data decode_ascii
    all_valid is_valid_header_ascii is_allowed_control_chars from_char_code parse_int frame_response
    frame_trailers set_bytes uint32_bytes header_block join_values
unary-response_example =
    unary-response calm message_bytes message_bytes_returns none (5 ∷ []) 0 [] status_md 200 (int 0)
      ((7 ∷ 8 ∷ []) ∷ []) pieces ((7 ∷ 8 ∷ []) ∷ []) (λ t. t) status_md [] refl refl refl refl
      (refl, tt) (omega arith, tt) (omega arith) refl refl refl
