-- ===== src/FakeTransport/Tests.antt =====
-- Fake responses of one message, and errors.
use grpc_web.Prelude.{
  ℕ, ◌≡◌, refl, arith, Bool, true, false, none, some, [], ◌∷◌, ◌++◌, Text, text, drop, ◌==◌,
  if◌then◌else◌, Result, ok,
}
use grpc_web.ChunkParser.{parse_trailer_data}
use grpc_web.ChunkParser.Ascii.{
  is_allowed_control_chars, is_valid_header_ascii, all_valid, from_char_code, decode_ascii,
}
use grpc_web.Framing.{header_block, join_values}
use grpc_web.Js.Number.{int, parse_int}
use grpc_web.Code.{http_status_to_code}
use grpc_web.Client.Types.{Environment, State, headers, end, new_client}
use grpc_web.Client.Responses.{get_status_from_headers, headers_code, decode_grpc_status, first}
use grpc_web.Client.Session.{run}
use grpc_web.Client.Silence.{callbacks_called}
use grpc_web.Client.Passive.{told}
use grpc_web.Client.Outcome.{told_all, final_event}
use grpc_web.Client.Tests.{Entries, calm, calm_IsPassive, listening, status_md}
use grpc_web.FakeTransport.{
  FakeTransportBuilder, new_builder, with_message_listener, with_finish_send_listener, with_headers,
  with_messages, with_trailers, send_all, error_metadata,
}
use grpc_web.FakeTransport.Session.{reported}
use grpc_web.FakeTransport.Exchange.{used, finish_send-told}
use grpc_web.FakeTransport.Errors.{send_all-messages_error, send_all-trailers_error}

-- The metadata's forEach, in the order in which the keys were set.
abbrev in_order : Entries → Entries
in_order [] = []
in_order (entry ∷ md) = in_order md ++ entry ∷ []

-- Two listeners.
abbrev listened : FakeTransportBuilder Entries
listened = with_message_listener 4 (with_finish_send_listener 5 new_builder)

finish_send-told_example :
    let built = with_trailers [] (with_messages ((7 ∷ 8 ∷ []) ∷ []) (with_headers [] listened)) in
    let c' =
      run calm
        (reported calm in_order
          (λ t. t)
          (used calm in_order (λ t. t) built [] ((1 ∷ []) ∷ (2 ∷ []) ∷ [])))
        listening in
    (callbacks_called c'.log
      ≡ callbacks_called listening.log
        ++ (told listening.on_headers_callbacks (headers [])
            ++ (told_all calm calm_IsPassive listening.on_message_callbacks ((7 ∷ 8 ∷ []) ∷ [])
                ++ told listening.on_end_callbacks
                    (final_event calm calm_IsPassive (int 0) status_md))))
    × (c'.completed ≡ true)
unfolding get_status_from_headers headers_code http_status_to_code parse_trailer_data decode_ascii
    all_valid is_valid_header_ascii is_allowed_control_chars from_char_code parse_int header_block
    join_values with_message_listener with_finish_send_listener new_builder
finish_send-told_example =
    finish_send-told calm in_order (λ t. t) calm_IsPassive listened listening [] []
      ((1 ∷ []) ∷ (2 ∷ []) ∷ []) ((7 ∷ 8 ∷ []) ∷ []) [] ((7 ∷ 8 ∷ []) ∷ []) status_md (int 0) refl
      refl refl refl refl refl refl refl (refl, tt) (omega arith, tt) (omega arith) refl refl

-- `Code.NotFound`, and a message.
abbrev not_found : Text × Text
not_found = (text "5", text "no")

abbrev not_found_md : Entries
not_found_md = error_metadata calm in_order (λ t. t) not_found

send_all-messages_error_example :
    let mock : FakeTransportBuilder Entries = record new_builder {
      headers = some [];
      pre_messages_error = some not_found;
      messages = (7 ∷ []) ∷ [];
      pre_trailers_error = none;
      trailers = none;
    } in
    let c' = run calm (send_all calm in_order (λ t. t) mock) listening in
    (callbacks_called c'.log
      ≡ callbacks_called listening.log
        ++ (told listening.on_headers_callbacks (headers [])
            ++ (told listening.on_headers_callbacks (headers not_found_md)
                ++ told listening.on_end_callbacks (
                    end
                      (headers_code (some (int 5)) 200)
                      (decode_grpc_status (first (text "no" ∷ [])))
                      not_found_md))))
    × (c'.completed ≡ true)
unfolding get_status_from_headers headers_code http_status_to_code parse_int
send_all-messages_error_example =
    send_all-messages_error calm calm_IsPassive in_order (λ t. t) listening [] not_found
      ((7 ∷ []) ∷ []) none none refl refl refl refl

-- Where the reader of header lines is: in a key or not, the key and the value so far, and the lines
-- before.
abbrev Reading : Type 0
Reading = Bool × Text × Text × Entries

abbrev read_code : Reading → ℕ → Reading
read_code (true, key, value, lines) code =
    if code == 58 then (false, key, [], lines) else (true, key ++ code ∷ [], [], lines)
read_code (false, key, value, lines) code =
    if code == 10
    then (true, [], [], lines ++ (key, drop 1 value ∷ []) ∷ [])
    else if code == 13
    then (false, key, value, lines)
    else (false, key, value ++ code ∷ [], lines)

abbrev read_codes : Reading → Text → Reading
read_codes reading [] = reading
read_codes reading (code ∷ codes) = read_codes (read_code reading code) codes

-- Lines `key: value`, each with a carriage return and a line feed behind it.
abbrev from_lines : Text → Result Entries
from_lines t = let (_, _, _, lines) = read_codes (true, [], [], []) t in ok lines

abbrev reads_lines : Environment
reads_lines = record calm { from_text = from_lines }

abbrev both : Entries
both = (text "grpc-status", (text "5") ∷ []) ∷ (text "grpc-message", (text "no") ∷ []) ∷ []

abbrev waiting : State reads_lines
waiting = new_client reads_lines 0

abbrev heard : State reads_lines
heard = record waiting {
  on_headers_callbacks = 0 ∷ [];
  on_message_callbacks = 1 ∷ [];
  on_end_callbacks = 2 ∷ 3 ∷ [];
}

send_all-trailers_error_example :
    let mock : FakeTransportBuilder Entries = record new_builder {
      headers = some [];
      messages = (7 ∷ 8 ∷ []) ∷ [];
      pre_trailers_error = some not_found;
      trailers = none;
    } in
    let c' = run reads_lines (send_all reads_lines in_order (λ t. t) mock) heard in
    (callbacks_called c'.log
      ≡ callbacks_called heard.log
        ++ (told heard.on_headers_callbacks (headers [])
            ++ (told_all reads_lines
                  (λ k event u. (u, refl))
                  heard.on_message_callbacks
                  ((7 ∷ 8 ∷ []) ∷ [])
                ++ told heard.on_end_callbacks
                    (end (parse_int (text "5")) (decode_grpc_status (some (text "no"))) both))))
    × (c'.completed ≡ true)
unfolding get_status_from_headers headers_code http_status_to_code parse_trailer_data decode_ascii
    all_valid is_valid_header_ascii is_allowed_control_chars from_char_code header_block join_values
    new_client
send_all-trailers_error_example =
    send_all-trailers_error reads_lines (λ k event u. (u, refl)) in_order (λ t. t) heard []
      not_found ((7 ∷ 8 ∷ []) ∷ []) none ((7 ∷ 8 ∷ []) ∷ []) both refl refl refl refl (refl, tt)
      (omega arith, tt) (omega arith) refl refl refl
