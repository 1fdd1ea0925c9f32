-- ===== src/Tests.antt =====
-- The parser, the frames, the codes and the websocket on small inputs.
use grpc_web.Prelude.{◌≡◌, refl, arith, true, false, none, some, List, [], ◌∷◌, ◌++◌, map}
use grpc_web.Prelude.{concat, Text, text, Bytes, Result, ok, thrown}
use grpc_web.Prelude.{◌+◌, ◌≤◌, length}
use grpc_web.ChunkParser.{
  message, trailers, new_parser, parse, parse_trailer_data, loop, loop_step, Closer-wf, turn,
  header_turn, frame_turn, trailer_turn, joined, is_trailer_header, read_length_from_header,
  has_enough_bytes,
}
use grpc_web.ChunkParser.Ascii.{
  is_allowed_control_chars, is_valid_header_ascii, all_valid, from_char_code, decode_ascii,
  encode_ascii,
}
use grpc_web.ChunkParser.Ascii.RoundTrip.{decode_ascii-encode_ascii, encode_ascii-decode_ascii}
use grpc_web.ChunkParser.Slice.{slice, slice_uint8_array}
use grpc_web.ChunkParser.View.{seen}
use grpc_web.ChunkParser.Decode.{pending, decode_all, Agrees, parse-decode}
use grpc_web.ChunkParser.Split.{feed, feed-concat, feed-concat_thrown}
use grpc_web.ChunkParser.Append.{has_trailers}
use grpc_web.ChunkParser.Balance.{costs, parse-balance}
use grpc_web.ChunkParser.RoundTrip.{feed-response, feed-bad_trailers, feed-partial}
use grpc_web.Framing.{
  set_bytes, uint32_bytes, frame_request, frame_response, frame_trailers, header_block, join_values,
}
use grpc_web.Framing.Wire.{big_endian, frame_request_lem}
use grpc_web.Prelude.{take, drop, replicate, All, IsByte}
use grpc_web.Websocket.{
  Signal, finish_send, Transport, socket_bytes, headers_to_bytes, start, onopen,
}
use grpc_web.Websocket.Order.{issue_all, socket_sent, run_order, run_order_thrown}

-- A Metadata class that keeps the text.
abbrev keep_text : Text → Result Text
keep_text t = ok t

abbrev to_bytes : Text → Bytes
to_bytes t = t

abbrev status_entries : List (Text × List Text)
status_entries = (97 ∷ [], (48 ∷ []) ∷ []) ∷ []

-- A key that is not ASCII.
abbrev bad_entries : List (Text × List Text)
bad_entries = (200 ∷ [], (48 ∷ []) ∷ []) ∷ []

abbrev one_payload : List Bytes
one_payload = (7 ∷ 8 ∷ []) ∷ []

abbrev status_block : Text
status_block = 97 ∷ 58 ∷ 32 ∷ 48 ∷ 13 ∷ 10 ∷ []

-- A frame of two bytes and the trailers, cut within both headers.
abbrev response_pieces : List Bytes
response_pieces =
    (0 ∷ 0 ∷ 0 ∷ []) ∷ (0 ∷ 2 ∷ 7 ∷ 8 ∷ 128 ∷ []) ∷ (0 ∷ 0 ∷ 0 ∷ 6 ∷ status_block) ∷ []

abbrev bad_pieces : List Bytes
bad_pieces =
    (0 ∷ 0 ∷ 0 ∷ [])
    ∷ (0 ∷ 2 ∷ 7 ∷ 8 ∷ 128 ∷ [])
    ∷ (0 ∷ 0 ∷ 0 ∷ 6 ∷ 200 ∷ 58 ∷ 32 ∷ 48 ∷ 13 ∷ 10 ∷ [])
    ∷ []

abbrev partial_pieces : List Bytes
partial_pieces = (0 ∷ 0 ∷ 0 ∷ []) ∷ (0 ∷ 2 ∷ 7 ∷ 8 ∷ 0 ∷ 0 ∷ []) ∷ []

feed-response_example :
    ((feed false keep_text new_parser response_pieces).1
      ≡ ok (map message one_payload ++ trailers status_block ∷ []))
    × (pending (feed false keep_text new_parser response_pieces).0 ≡ [])
unfolding parse_trailer_data decode_ascii all_valid is_valid_header_ascii is_allowed_control_chars
    from_char_code frame_response frame_trailers set_bytes uint32_bytes header_block join_values
feed-response_example =
    feed-response false keep_text one_payload response_pieces to_bytes status_entries status_block
      (omega arith, tt) (omega arith) refl refl

feed-bad_trailers_example :
    (feed true keep_text new_parser bad_pieces).1
    ≡ thrown (text "Metadata is not valid (printable) ASCII")
unfolding parse_trailer_data decode_ascii all_valid is_valid_header_ascii is_allowed_control_chars
    from_char_code frame_response frame_trailers set_bytes uint32_bytes header_block join_values
feed-bad_trailers_example =
    feed-bad_trailers true keep_text one_payload bad_pieces to_bytes bad_entries
      (text "Metadata is not valid (printable) ASCII") (omega arith, tt) (omega arith) refl refl

feed-partial_example :
    ((feed true keep_text new_parser partial_pieces).1 ≡ ok (map message one_payload))
    × (pending (feed true keep_text new_parser partial_pieces).0 ≡ 0 ∷ 0 ∷ [])
unfolding seen frame_response set_bytes uint32_bytes turn header_turn has_enough_bytes
feed-partial_example =
    feed-partial true keep_text one_payload partial_pieces (0 ∷ 0 ∷ []) (omega arith, tt) refl refl

parse-decode_example :
    Agrees
      (parse true keep_text new_parser (concat response_pieces) false)
      (decode_all keep_text (pending new_parser ++ concat response_pieces))
unfolding new_parser
parse-decode_example = parse-decode true keep_text new_parser (concat response_pieces) tt

feed-concat_example :
    ((feed true keep_text new_parser partial_pieces).1 ≡ ok (map message one_payload))
    × (pending (feed true keep_text new_parser partial_pieces).0
        ≡ pending (parse true keep_text new_parser (concat partial_pieces) false).0)
unfolding new_parser seen parse loop loop_step joined turn header_turn frame_turn trailer_turn
    has_enough_bytes slice_uint8_array slice is_trailer_header read_length_from_header Closer-wf
feed-concat_example =
    feed-concat true keep_text new_parser partial_pieces (map message one_payload) tt refl refl
      (λ e. cc)

feed-concat_thrown_example :
    (feed true keep_text new_parser bad_pieces).1
    ≡ thrown (text "Metadata is not valid (printable) ASCII")
unfolding new_parser seen parse loop loop_step joined turn header_turn frame_turn trailer_turn
    has_enough_bytes slice_uint8_array slice is_trailer_header read_length_from_header Closer-wf
    parse_trailer_data decode_ascii all_valid is_valid_header_ascii is_allowed_control_chars
    from_char_code
feed-concat_thrown_example =
    feed-concat_thrown true keep_text new_parser bad_pieces
      (text "Metadata is not valid (printable) ASCII") tt refl refl

decode_ascii-encode_ascii_example : decode_ascii status_block ≡ ok status_block
unfolding encode_ascii is_valid_header_ascii is_allowed_control_chars
decode_ascii-encode_ascii_example = decode_ascii-encode_ascii status_block status_block refl

encode_ascii-decode_ascii_example : encode_ascii status_block ≡ ok status_block
unfolding decode_ascii all_valid is_valid_header_ascii is_allowed_control_chars from_char_code
encode_ascii-decode_ascii_example = encode_ascii-decode_ascii status_block status_block refl

-- A message of more than 255 bytes.
abbrev long_message : Bytes
long_message = replicate 258 7

frame_request_lem_example :
    (take 1 (frame_request long_message) ≡ 0 ∷ [])
    × All IsByte (take 4 (drop 1 (frame_request long_message)))
    × (big_endian 0 (take 4 (drop 1 (frame_request long_message))) ≡ 258)
    × (drop 5 (frame_request long_message) ≡ long_message)
frame_request_lem_example = frame_request_lem long_message (omega arith)

abbrev fresh_transport : Transport
fresh_transport = record {
  address = text "ws://h";
  send_queue = [];
  ws = none;
  metadata = [];
  log = [];
}

abbrev one_message : List Signal
one_message = Signal.message (7 ∷ []) ∷ []

run_order_example :
    let opened =
      onopen (issue_all one_message (start status_entries (issue_all [] fresh_transport))) in
    (opened.1 ≡ none)
    × (socket_sent (issue_all (finish_send ∷ []) opened.0).log
        ≡ [] ++ status_block ∷ map socket_bytes ((([] ++ []) ++ one_message) ++ finish_send ∷ []))
unfolding headers_to_bytes header_block join_values encode_ascii is_valid_header_ascii
    is_allowed_control_chars
run_order_example =
    run_order [] one_message (finish_send ∷ []) status_entries fresh_transport status_block refl
      refl

run_order_thrown_example :
    let opened =
      onopen (issue_all one_message (start bad_entries (issue_all [] fresh_transport))) in
    (opened.1 ≡ some (text "Metadata contains invalid ASCII"))
    × (socket_sent (issue_all (finish_send ∷ []) opened.0).log
        ≡ [] ++ map socket_bytes (finish_send ∷ []))
unfolding headers_to_bytes header_block join_values encode_ascii is_valid_header_ascii
    is_allowed_control_chars
run_order_thrown_example =
    run_order_thrown [] one_message (finish_send ∷ []) bad_entries fresh_transport _ refl refl

parse-balance_example :
    let kept = length (pending (parse true keep_text new_parser (concat partial_pieces) false).0) in
    (costs {Md = Text} (message (7 ∷ 8 ∷ []) ∷ []) + kept
      ≤ length (pending new_parser) + length (concat partial_pieces))
    × (has_trailers {Md = Text} (message (7 ∷ 8 ∷ []) ∷ []) ≡ false
        → costs {Md = Text} (message (7 ∷ 8 ∷ []) ∷ []) + kept
          ≡ length (pending new_parser) + length (concat partial_pieces))
unfolding new_parser seen parse loop loop_step joined turn header_turn frame_turn trailer_turn
    has_enough_bytes slice_uint8_array slice is_trailer_header read_length_from_header Closer-wf
parse-balance_example =
    parse-balance keep_text true new_parser (concat partial_pieces) (message (7 ∷ 8 ∷ []) ∷ []) tt
      refl
