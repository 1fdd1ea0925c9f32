-- ===== src/Fetch/Tests.antt =====
-- Runs of the fetch transport.
use grpc_web.Prelude.{◌+◌, ◌≤◌, ◌≡◌, arith, true, false, none, [], ◌∷◌, ◌++◌, text, Text, refl}
use grpc_web.ChunkParser.{parse_trailer_data}
use grpc_web.ChunkParser.Ascii.{
  is_allowed_control_chars, is_valid_header_ascii, all_valid, from_char_code, decode_ascii,
}
use grpc_web.Framing.{
  set_bytes, uint32_bytes, frame_response, frame_trailers, header_block, join_values,
}
use grpc_web.Js.Number.{int, parse_int}
use grpc_web.Code.{http_status_to_code}
use grpc_web.Client.Types.{headers}
use grpc_web.Client.Responses.{get_status_from_headers, headers_code}
use grpc_web.Client.Session
use grpc_web.Client.Silence.{callbacks_called}
use grpc_web.Client.Passive.{told}
use grpc_web.Client.Outcome.{told_all, final_event}
use grpc_web.Client.Tests.{calm, calm_IsPassive, listening, pieces, status_md}
use grpc_web.Fetch.Exchange.{inputs_of, exchange, exchange_lem}
use grpc_web.Fetch.{
  Fetch, Outcome, value, new_fetch, cancel, start, send, on_read, on_response, pump, call_client,
}
use grpc_web.Fetch.Run.{started, sent, responded, was_read, read_failed, step, Run, here, next}
use grpc_web.Fetch.Cancel.{errors_told, chunks_told, cancel-run, run-errors_told}

abbrev quiet : Outcome
quiet = record { cancels = false; throws = none }

-- A read is under way.
abbrev reading : Fetch Text
reading = record {
  cancelled = false;
  has_reader = true;
  has_controller = true;
  metadata = none;
  fetches = 0;
  reads = 1;
  log = [];
}

-- The read under way gives a chunk behind the cancellation.
abbrev late_chunk : Fetch Text
late_chunk = step (was_read (value (7 ∷ [])) quiet) (cancel reading)

late_run : Run (cancel reading) late_chunk
unfolding cancel
late_run = next (was_read (value (7 ∷ [])) quiet) (omega arith) here

cancel-run_example :
    (errors_told late_chunk.log ≡ errors_told reading.log)
    × (chunks_told late_chunk.log ≤ chunks_told reading.log + reading.reads)
cancel-run_example = cancel-run reading late_run

-- The bound is reached.
late_chunk_told : chunks_told late_chunk.log ≡ 1
unfolding step cancel on_read call_client pump
late_chunk_told = refl

-- The body fails behind its first chunk.
abbrev failed : Fetch Text
failed = step (read_failed (text "network")) (
    step (was_read (value (7 ∷ [])) quiet) (
      step (responded (text "") 200 true quiet)
        (step (sent (5 ∷ [])) (step (started (text "")) (new_fetch false)))))

failed_run : Run (new_fetch false) failed
unfolding step new_fetch start send on_response on_read call_client pump
failed_run = next (started (text "")) tt (
    next (sent (5 ∷ [])) tt (
      next (responded (text "") 200 true quiet) (omega arith) (
        next (was_read (value (7 ∷ [])) quiet) (omega arith)
          (next (read_failed (text "network")) (omega arith) here))))

run-errors_told_example :
    (errors_told failed.log ≤ 1) × (failed.cancelled ≡ false → errors_told failed.log ≡ 0)
run-errors_told_example = run-errors_told false failed_run

exchange_lem_example :
    let y = exchange status_md (9 ∷ []) [] 200 pieces (new_fetch true) in
    let c' = Session.run calm (inputs_of y.log) listening in
    Run (new_fetch true) y
    × ((callbacks_called c'.log
          ≡ callbacks_called listening.log
            ++ (told (0 ∷ []) (headers [])
                ++ (told_all calm calm_IsPassive (0 ∷ 1 ∷ []) ((7 ∷ 8 ∷ []) ∷ [])
                    ++ told (2 ∷ []) (final_event calm calm_IsPassive (int 0) status_md))))
        × (c'.completed ≡ true))
unfolding new_fetch get_status_from_headers headers_code http_status_to_code parse_trailer_data
    decode_ascii all_valid is_valid_header_ascii is_allowed_control_chars from_char_code parse_int
    frame_response frame_trailers set_bytes uint32_bytes header_block join_values
exchange_lem_example =
    exchange_lem calm calm_IsPassive status_md (9 ∷ []) (new_fetch true) listening [] status_md 200
      (int 0) ((7 ∷ 8 ∷ []) ∷ []) pieces ((7 ∷ 8 ∷ []) ∷ []) (λ t. t) status_md refl refl refl refl
      refl refl refl (refl, tt) (omega arith, tt) (omega arith) refl refl refl
