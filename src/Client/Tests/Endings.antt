-- ===== src/Client/Tests/Endings.antt =====
-- The ends of a request on small inputs.
use grpc_web.Prelude.{◌⊎◌, ◌≡◌, refl, arith, true, none, List, [], ◌∷◌, ◌++◌, Bytes}
use grpc_web.ChunkParser.{
  Chunk, new_parser, parse, parse_trailer_data, loop, loop_step, Closer-wf, turn, header_turn,
  frame_turn, trailer_turn, joined, is_trailer_header, read_length_from_header, has_enough_bytes,
}
use grpc_web.ChunkParser.Ascii.{
  is_allowed_control_chars, is_valid_header_ascii, all_valid, from_char_code, decode_ascii,
}
use grpc_web.ChunkParser.Slice.{slice, slice_uint8_array}
use grpc_web.Framing.{
  set_bytes, uint32_bytes, frame_response, frame_trailers, header_block, join_values,
}
use grpc_web.Js.Number.{int, parse_int}
use grpc_web.Code.{http_status_to_code}
use grpc_web.Client.Types.{Event, Command, new_client, headers, end}
use grpc_web.Client.Requests.{obey, start, start_with, on_end}
use grpc_web.Client.Responses.{get_status_from_headers, headers_code, decode_grpc_status, first}
use grpc_web.Client.Session.{
  Input, command, transport_headers, transport_chunk, transport_end, step, run,
}
use grpc_web.Client.Silence.{callbacks_called}
use grpc_web.Client.EndCalls.{ends_told}
use grpc_web.Client.Passive.{told, shown}
use grpc_web.Client.Delivery.{chunk_inputs}
use grpc_web.Client.Outcome.{told_all, final_event}
use grpc_web.Client.Ended.{ending}
use grpc_web.Client.Endings.{run-ending, run-failed_headers}
use grpc_web.Client.Liveness.{transport_end-told}
use grpc_web.Client.HeaderFrame.{run-header_frame}
use grpc_web.Client.Tests.{
  Entries, calm, calm_IsPassive, busy, inputs, listening, status_md, pieces,
}

-- A message and no trailers, cut within the header.
abbrev pieces_without : List Bytes
pieces_without = (0 ∷ 0 ∷ 0 ∷ []) ∷ (0 ∷ 2 ∷ 7 ∷ 8 ∷ []) ∷ []

run-ending_example :
    let c' =
      run calm
        (transport_headers [] 200 ∷ chunk_inputs calm calm_IsPassive pieces_without
          ++ transport_end ∷ [])
        listening in
    (callbacks_called c'.log
      ≡ callbacks_called listening.log
        ++ (told (0 ∷ []) (headers [])
            ++ (shown calm (0 ∷ 1 ∷ []) (Chunk.message (7 ∷ 8 ∷ []) ∷ [])
                ++ told (2 ∷ []) (ending calm calm_IsPassive none []))))
    × (c'.completed ≡ true)
unfolding get_status_from_headers headers_code http_status_to_code new_parser parse loop loop_step
    joined turn header_turn frame_turn trailer_turn has_enough_bytes slice_uint8_array slice
    is_trailer_header read_length_from_header Closer-wf
run-ending_example =
    run-ending calm calm_IsPassive listening [] 200 pieces_without (Chunk.message (7 ∷ 8 ∷ []) ∷ [])
      refl refl refl refl refl ((7 ∷ 8 ∷ [], refl), tt)

run-failed_headers_example :
    let c' = run calm (transport_headers [] 503 ∷ inputs) listening in
    (callbacks_called c'.log
      ≡ callbacks_called listening.log
        ++ (told (0 ∷ []) (headers [])
            ++ told (2 ∷ []) (end (headers_code none 503) (decode_grpc_status (first [])) [])))
    × (c'.completed ≡ true)
unfolding get_status_from_headers headers_code http_status_to_code
run-failed_headers_example =
    run-failed_headers calm calm_IsPassive listening [] 503 inputs refl refl refl refl

abbrev begun : List (Input Entries Entries Bytes)
begun = command (Command.on_end 0) ∷ command (Command.on_end 1) ∷ command (Command.start none) ∷ []

transport_end-told_example :
    let c = run busy begun (new_client busy 0) in
    let c' = (step busy transport_end c).0 in
    (c'.completed ≡ true)
    × ((c'.closed ≡ true)
        ⊎ ((event : Event Entries Bytes) × (ends_told c'.log ≡ told c.on_end_callbacks event)))
unfolding run step obey start start_with new_client on_end
transport_end-told_example = transport_end-told busy begun 0 refl refl

run-header_frame_example :
    let c' =
      run calm
        (transport_chunk (frame_trailers (λ t. t) status_md)
            ∷ chunk_inputs calm calm_IsPassive pieces
          ++ transport_end ∷ [])
        listening in
    (callbacks_called c'.log
      ≡ callbacks_called listening.log
        ++ (told (0 ∷ []) (headers status_md)
            ++ (told_all calm calm_IsPassive (0 ∷ 1 ∷ []) ((7 ∷ 8 ∷ []) ∷ [])
                ++ told (2 ∷ []) (final_event calm calm_IsPassive (int 0) status_md))))
    × (c'.completed ≡ true)
unfolding get_status_from_headers headers_code http_status_to_code parse_trailer_data decode_ascii
    all_valid is_valid_header_ascii is_allowed_control_chars from_char_code parse_int frame_response
    frame_trailers set_bytes uint32_bytes header_block join_values
run-header_frame_example =
    run-header_frame calm calm_IsPassive listening status_md status_md (int 0) ((7 ∷ 8 ∷ []) ∷ [])
      pieces ((7 ∷ 8 ∷ []) ∷ []) (λ t. t) status_md status_md refl refl refl refl (omega arith) refl
      (refl, tt) (omega arith, tt) (omega arith) refl refl refl
