-- ===== src/Websocket/Tests.antt =====
-- A response over a websocket on small inputs.
use grpc_web.Prelude.{◌≡◌, refl, arith, true, none, List, [], ◌∷◌, ◌++◌, text}
use grpc_web.ChunkParser.{parse_trailer_data}
use grpc_web.ChunkParser.Ascii.{
  is_allowed_control_chars, is_valid_header_ascii, all_valid, from_char_code, decode_ascii,
}
use grpc_web.Framing.{
  set_bytes, uint32_bytes, frame_response, frame_trailers, header_block, join_values,
}
use grpc_web.Js.Number.{int, parse_int}
use grpc_web.Client.Types.{headers}
use grpc_web.Client.Responses.{get_status_from_headers}
use grpc_web.Client.Session.{run}
use grpc_web.Client.Silence.{callbacks_called}
use grpc_web.Client.Passive.{told}
use grpc_web.Client.Outcome.{told_all, final_event}
use grpc_web.Client.Tests.{calm, calm_IsPassive, listening, pieces, status_line, status_md}
use grpc_web.Websocket.{message, finish_send, Transport, start, onclose}
use grpc_web.Websocket.Exchange.{
  Turn, sends, opens, receives, take_turns, inputs_of, take_turns-told,
}

abbrev made : Transport
made = record { address = text "wss://host"; send_queue = []; ws = none; metadata = []; log = [] }

abbrev turns : List Turn
turns =
    sends (message (1 ∷ []))
    ∷ opens
    ∷ receives (frame_trailers (λ t. t) status_md)
    ∷ receives (0 ∷ 0 ∷ 0 ∷ [])
    ∷ sends finish_send
    ∷ receives (0 ∷ 2 ∷ 7 ∷ 8 ∷ 128 ∷ [])
    ∷ receives (0 ∷ 0 ∷ 0 ∷ 16 ∷ status_line)
    ∷ []

take_turns-told_example :
    let c' = run calm (inputs_of (onclose (take_turns turns (start [] made))).log) listening in
    (callbacks_called c'.log
      ≡ callbacks_called listening.log
        ++ (told (0 ∷ []) (headers status_md)
            ++ (told_all calm calm_IsPassive (0 ∷ 1 ∷ []) ((7 ∷ 8 ∷ []) ∷ [])
                ++ told (2 ∷ []) (final_event calm calm_IsPassive (int 0) status_md))))
    × (c'.completed ≡ true)
unfolding get_status_from_headers parse_trailer_data decode_ascii all_valid is_valid_header_ascii
    is_allowed_control_chars from_char_code parse_int frame_response frame_trailers set_bytes
    uint32_bytes header_block join_values
take_turns-told_example =
    take_turns-told calm calm_IsPassive made [] turns listening status_md status_md (int 0)
      ((7 ∷ 8 ∷ []) ∷ []) pieces ((7 ∷ 8 ∷ []) ∷ []) (λ t. t) status_md status_md refl refl refl
      refl refl refl (omega arith) refl (refl, tt) (omega arith, tt) (omega arith) refl refl refl
