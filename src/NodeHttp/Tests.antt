-- ===== src/NodeHttp/Tests.antt =====
-- A request over Node's http on small inputs.
use grpc_web.Prelude.{◌≡◌, refl, arith, true, false, none, some, List, [], ◌∷◌, ◌++◌, Text, text}
use grpc_web.ChunkParser.{parse_trailer_data}
use grpc_web.ChunkParser.Ascii.{
  is_allowed_control_chars, is_valid_header_ascii, all_valid, from_char_code, decode_ascii,
}
use grpc_web.Framing.{
  set_bytes, uint32_bytes, frame_response, frame_trailers, header_block, join_values,
}
use grpc_web.Js.Number.{int, parse_int}
use grpc_web.Code.{http_status_to_code}
use grpc_web.Client.Types.{headers}
use grpc_web.Client.Responses.{get_status_from_headers, headers_code}
use grpc_web.Client.Session.{run}
use grpc_web.Client.Silence.{callbacks_called}
use grpc_web.Client.Passive.{told}
use grpc_web.Client.Outcome.{told_all, final_event}
use grpc_web.Client.Tests.{
  Entries, calm, calm_IsPassive, listening, pieces, pieces-IsByte, status_md,
}
use grpc_web.NodeHttp.{
  HeaderValue, single, several, Property, NodeHttp, keep_defined, filter_loop,
  filter_headers_for_undefined,
}
use grpc_web.NodeHttp.Headers.{property_of, last_defined, filter_headers_for_undefined-property}
use grpc_web.NodeHttp.Whole.{inputs_of, exchange, exchange-told}

-- One header that is defined, one that is not, and an inherited one.
abbrev received : List Property
received =
    (record { key = text "a"; is_own = true; value = some (single (text "1")) })
    ∷ (record { key = text "b"; is_own = true; value = none })
    ∷ (record { key = text "a"; is_own = false; value = some (several []) })
    ∷ []

filter_headers_for_undefined-property_example :
    property_of (text "a") (filter_headers_for_undefined received)
    ≡ last_defined (text "a") received none
filter_headers_for_undefined-property_example =
    filter_headers_for_undefined-property (text "a") received

-- The values of headers that are one string.
abbrev from_object : List (Text × HeaderValue) → Entries
from_object [] = []
from_object ((key, single value) ∷ object) = (key, value ∷ []) ∷ from_object object
from_object ((key, several values) ∷ object) = (key, values) ∷ from_object object

abbrev made : NodeHttp Entries
made = record {
  request_stream = false;
  response_stream = false;
  url = record {
    hostname = text "host";
    port = some (text "8080");
    path = text "/S/M";
    protocol = text "https:";
  };
  with_https_options = λ options. options;
  log = [];
}

exchange-told_example :
    let md = from_object (filter_headers_for_undefined received) in
    let c' =
      run calm
        (inputs_of (exchange from_object status_md (9 ∷ []) received 200 pieces made).log)
        listening in
    (callbacks_called c'.log
      ≡ callbacks_called listening.log
        ++ (told (0 ∷ []) (headers md)
            ++ (told_all calm calm_IsPassive (0 ∷ 1 ∷ []) ((7 ∷ 8 ∷ []) ∷ [])
                ++ told (2 ∷ []) (final_event calm calm_IsPassive (int 0) status_md))))
    × (c'.completed ≡ true)
unfolding get_status_from_headers headers_code http_status_to_code parse_trailer_data decode_ascii
    all_valid is_valid_header_ascii is_allowed_control_chars from_char_code parse_int frame_response
    frame_trailers set_bytes uint32_bytes header_block join_values keep_defined filter_loop
    filter_headers_for_undefined
exchange-told_example =
    exchange-told calm calm_IsPassive from_object status_md (9 ∷ []) received made listening
      status_md 200 (int 0) ((7 ∷ 8 ∷ []) ∷ []) pieces ((7 ∷ 8 ∷ []) ∷ []) (λ t. t) status_md refl
      pieces-IsByte refl refl refl refl refl (refl, tt) (omega arith, tt) (omega arith) refl refl
      refl
