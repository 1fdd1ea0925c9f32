-- ===== src/ReactNative/Tests.antt =====
-- The React Native transport on small inputs.
use grpc_web.Prelude.{
  ℕ, zero, suc, ◌+◌, ◌<◌, ◌≡◌, refl, arith, true, none, some, List, [], ◌∷◌, ◌++◌, text, Bytes, map,
  concat,
}
use grpc_web.ReactNative.Detach.{
  Queue, Behaviour, new_queue, enqueue, detach, detach_all, unshift_all, put_back, run_set,
  run_waiting, run_callbacks, fire,
}
use grpc_web.ReactNative.Detach.Order.{waiting, timer_of, Life, here, detaches, fires, Life-order}
use grpc_web.ReactNative.Detach.Drain.{total, EndsChains, fire_times, fire_times-drained}
use grpc_web.ChunkParser.{parse_trailer_data}
use grpc_web.ChunkParser.Ascii.{
  is_allowed_control_chars, is_valid_header_ascii, all_valid, from_char_code, decode_ascii,
}
use grpc_web.Framing.{frame_response, frame_trailers, header_block, join_values}
use grpc_web.Js.Number.{int, parse_int}
use grpc_web.Code.{http_status_to_code}
use grpc_web.Client.Types.{headers}
use grpc_web.Client.Responses.{get_status_from_headers, headers_code}
use grpc_web.Client.Session.{run}
use grpc_web.Client.Silence.{callbacks_called}
use grpc_web.Client.Passive.{told}
use grpc_web.Client.Outcome.{told_all, final_event}
use grpc_web.Client.Tests.{calm, calm_IsPassive, listening, status_md}
use grpc_web.ReactNative.Exchange.{input_of, called-told}
use grpc_web.ReactNative.Transport.{
  ClientCall, Callback, handle, on_state_change, on_progress_event, on_load_event, on_error,
  configure_xhr, set_request_headers, tell_headers, tell_chunk, tell_end, react_native_transport,
  start, state_changed, progressed, loaded, failed,
}
use grpc_web.ReactNative.Whole.{
  Turn, event, other, timer, calls_of, own, calls_for, take_turn, take_turns, called-calls_of,
}
use grpc_web.ReactNative.Detach.Quiet.{IsQuiet}

-- Callback 1 detaches callback 0, the others throw.
abbrev behave : List ℕ → ℕ → Behaviour ℕ
behave called zero = record { detaches = []; throws = none }
behave called (suc zero) = record { detaches = 0 ∷ []; throws = none }
behave called (suc (suc cb)) = record { detaches = []; throws = some (text "callback") }

abbrev once : Queue ℕ
once = detach 3 (detach 1 (detach 2 new_queue))

life : Life behave new_queue (fire behave once).0
unfolding detach enqueue new_queue
life = detaches 2 (detaches 1 (detaches 3 (fires (omega arith) here)))

Life-order_example :
    let q = (fire behave once).0 in
    (q.detached ≡ q.called ++ waiting q.awaiting_execution)
    × (q.timers ≡ timer_of q.awaiting_execution)
Life-order_example = Life-order behave life

-- A callback that detaches another one weighs more than it.
ends : EndsChains behave (λ cb. cb + 1)
ends called zero = omega arith
ends called (suc zero) = omega arith
ends called (suc (suc cb)) = omega arith

fire_times-drained_example :
    let q = fire_times behave 9 (fire behave once).0 in
    (waiting q.awaiting_execution ≡ []) × (q.called ≡ q.detached)
unfolding detach enqueue new_queue fire run_callbacks run_waiting run_set put_back unshift_all
    detach_all
fire_times-drained_example = fire_times-drained behave (λ cb. cb + 1) ends 9 life (omega arith)

-- Calls for headers throw, of any request; an end detaches a chunk of request 2.
abbrev throwing_call : ClientCall → Behaviour Callback
throwing_call tell_headers = record { detaches = []; throws = some (text "headers") }
throwing_call (tell_chunk bytes flush) = record { detaches = []; throws = none }
throwing_call tell_end = record {
  detaches = (record { request = 2; call = tell_chunk [] true }) ∷ [];
  throws = none;
}

abbrev throwing : List Callback → Callback → Behaviour Callback
throwing called cb = throwing_call cb.call

throwing_call_quiet : (call : ClientCall) → calls_for 5 (throwing_call call).detaches ≡ []
throwing_call_quiet tell_headers = refl
throwing_call_quiet (tell_chunk bytes flush) = refl
throwing_call_quiet tell_end = refl

throwing-IsQuiet : IsQuiet (own 5) throwing
throwing-IsQuiet called cb = throwing_call_quiet cb.call

abbrev call_weight : ClientCall → ℕ
call_weight tell_headers = 1
call_weight (tell_chunk bytes flush) = 1
call_weight tell_end = 2

abbrev weight : Callback → ℕ
weight cb = call_weight cb.call

throwing_call_ends :
    (call : ClientCall) → total weight (throwing_call call).detaches < call_weight call
throwing_call_ends tell_headers = omega arith
throwing_call_ends (tell_chunk bytes flush) = omega arith
throwing_call_ends tell_end = omega arith

throwing-EndsChains : EndsChains throwing weight
throwing-EndsChains called cb = throwing_call_ends cb.call

-- A callback of another request waits when the transport is made.
abbrev of_two : Callback
of_two = record { request = 2; call = tell_headers }

abbrev busy_queue : Queue Callback
busy_queue = detach of_two new_queue

busy-Life : Life throwing new_queue busy_queue
busy-Life = detaches of_two here

abbrev turns : List Turn
turns =
    event (state_changed 1)
    ∷ event (state_changed 2)
    ∷ other of_two
    ∷ event (progressed [])
    ∷ timer
    ∷ event (loaded (7 ∷ []))
    ∷ event failed
    ∷ []

called-calls_of_example :
    let p = take_turns throwing turns (record {
      xhr = start [] (react_native_transport 5 (text "https://host") true);
      queue = busy_queue;
    }) in
    calls_for 5 (fire_times throwing 9 p.queue).called ≡ calls_of turns
unfolding detach enqueue new_queue fire run_callbacks run_waiting run_set put_back unshift_all
    detach_all take_turns take_turn handle on_state_change on_progress_event on_load_event on_error
    start configure_xhr set_request_headers react_native_transport
called-calls_of_example =
    called-calls_of throwing 5 throwing-IsQuiet weight throwing-EndsChains turns 9 []
      (text "https://host") true busy-Life refl (refl, tt) (omega arith)

-- A response of one message and the status 0.
abbrev resp : Bytes
resp = concat (map frame_response ((7 ∷ 8 ∷ []) ∷ [])) ++ frame_trailers (λ t. t) status_md

abbrev loading : List Turn
loading =
    event (state_changed 2)
    ∷ other of_two
    ∷ timer
    ∷ event (progressed [])
    ∷ event (loaded resp)
    ∷ []

called-told_example :
    let p = take_turns throwing loading (record {
      xhr = start [] (react_native_transport 5 (text "https://host") true);
      queue = busy_queue;
    }) in
    let calls = calls_for 5 (fire_times throwing 9 p.queue).called in
    let c' = run calm (map (input_of [] 200) calls) listening in
    (callbacks_called c'.log
      ≡ callbacks_called listening.log
        ++ (told (0 ∷ []) (headers [])
            ++ (told_all calm calm_IsPassive (0 ∷ 1 ∷ []) ((7 ∷ 8 ∷ []) ∷ [])
                ++ told (2 ∷ []) (final_event calm calm_IsPassive (int 0) status_md))))
    × (c'.completed ≡ true)
unfolding get_status_from_headers headers_code http_status_to_code parse_trailer_data decode_ascii
    all_valid is_valid_header_ascii is_allowed_control_chars from_char_code parse_int header_block
    join_values detach enqueue new_queue fire run_callbacks run_waiting run_set put_back unshift_all
    detach_all take_turns take_turn handle on_state_change on_progress_event on_load_event on_error
    start configure_xhr set_request_headers react_native_transport
called-told_example =
    called-told calm calm_IsPassive throwing 5 throwing-IsQuiet weight throwing-EndsChains loading 9
      [] (text "https://host") true listening [] status_md 200 (int 0) ((7 ∷ 8 ∷ []) ∷ [])
      ((7 ∷ 8 ∷ []) ∷ []) (λ t. t) status_md busy-Life refl (refl, tt) (omega arith) refl refl refl
      refl refl refl (refl, tt) (omega arith, tt) (omega arith) refl refl
