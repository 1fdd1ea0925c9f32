-- ===== src/Xhr/Tests.antt =====
-- A response over a request for text on small inputs.
use grpc_web.Prelude.{
  ℕ, ◌+◌, ◌≡◌, refl, arith, true, false, none, [], ◌∷◌, ◌++◌, ltb, if◌then◌else◌, text,
}
use grpc_web.ChunkParser.{parse_trailer_data}
use grpc_web.ChunkParser.Ascii.{
  is_allowed_control_chars, is_valid_header_ascii, all_valid, from_char_code, decode_ascii,
}
use grpc_web.Framing.{
  set_bytes, uint32_bytes, frame_response, frame_trailers, header_block, join_values,
}
use grpc_web.Js.Number.{int, parse_int}
use grpc_web.Code.{http_status_to_code}
use grpc_web.Client.Types.{headers}
use grpc_web.Client.Responses.{get_status_from_headers, headers_code}
use grpc_web.Client.Session.{run}
use grpc_web.Client.Silence.{callbacks_called}
use grpc_web.Client.Passive.{told}
use grpc_web.Client.Outcome.{told_all, final_event}
use grpc_web.Client.Tests.{
  Entries, calm, calm_IsPassive, listening, pieces, pieces-IsByte, status_md,
}
use grpc_web.Xhr.{Xhr, text_xhr}
use grpc_web.Xhr.Chunks.{KeepsBytes}
use grpc_web.Xhr.Exchange.{inputs_of, exchange, report-told}

-- The charset x-user-defined: bytes of 128 and more go to the private use area.
abbrev user_defined : ℕ → ℕ
user_defined b = if ltb b 128 then b else b + 0xF700

user_defined_keeps : KeepsBytes user_defined
user_defined_keeps b h = (ground arith, ground arith)

abbrev new_xhr : Xhr Entries
new_xhr = record {
  kind = text_xhr;
  url = text "http://h";
  with_credentials = false;
  index = none;
  log = [];
}

report-told_example :
    let c' =
      run calm
        (inputs_of (exchange user_defined status_md (9 ∷ []) [] 200 pieces new_xhr).log)
        listening in
    (callbacks_called c'.log
      ≡ callbacks_called listening.log
        ++ (told (0 ∷ []) (headers [])
            ++ (told_all calm calm_IsPassive (0 ∷ 1 ∷ []) ((7 ∷ 8 ∷ []) ∷ [])
                ++ told (2 ∷ []) (final_event calm calm_IsPassive (int 0) status_md))))
    × (c'.completed ≡ true)
unfolding get_status_from_headers headers_code http_status_to_code parse_trailer_data decode_ascii
    all_valid is_valid_header_ascii is_allowed_control_chars from_char_code parse_int frame_response
    frame_trailers set_bytes uint32_bytes header_block join_values
report-told_example =
    report-told calm calm_IsPassive user_defined user_defined_keeps status_md (9 ∷ []) new_xhr
      listening [] status_md 200 (int 0) ((7 ∷ 8 ∷ []) ∷ []) pieces ((7 ∷ 8 ∷ []) ∷ []) (λ t. t)
      status_md refl refl refl pieces-IsByte refl refl refl refl refl (refl, tt) (omega arith, tt)
      (omega arith) refl refl refl
