-- ===== src/ReactNative/Whole.antt =====
-- react-native-transport/src/index.ts: the calls of the client that a request leads to, however the
-- timers and the callbacks of other requests fall between its events.
use grpc_web.Prelude.{
  ℕ, ◌≤◌, ◌≡◌, refl, arith, ap, ◌∙◌, sym, Bool, true, false, List, [], ◌∷◌, ◌++◌,
}
use grpc_web.Prelude.{if◌then◌else◌, ◌==◌, append_assoc, append-nil, Text}
use mathlib.Core.Path.{subst}
use grpc_web.ReactNative.Detach.{Queue, Behaviour, new_queue, detach}
use grpc_web.ReactNative.Detach.Order.{waiting, Running, detach-Running, Life, Life-order}
use grpc_web.ReactNative.Detach.Drain.{
  total, EndsChains, fire_if, fire_times, fire_if-Running, fire_times-Running,
}
use grpc_web.ReactNative.Detach.Quiet.{kept, IsQuiet, kept-detach, kept-fire_if, kept-fire_times}
use grpc_web.ReactNative.Transport.{
  ClientCall, tell_headers, tell_chunk, tell_end, array_buffer_xhr, NativeXhr, Callback, Page,
  react_native_transport, detach_call, on_state_change, on_progress_event, on_load_event, on_error,
  configure_xhr, set_request_headers, start, Event, state_changed, progressed, loaded, failed,
  handle,
}

-- What happens: an event of the request; a handler of another request that detaches a callback; or a
-- timer.
pub data Turn : Type 0 where
  event : Event → Turn
  other : Callback → Turn
  timer : Turn

-- The calls that an event leads to, in a transport that gets bytes.
abbrev pub calls_of_event : Event → List ClientCall
calls_of_event (state_changed ready_state) = if ready_state == 2 then tell_headers ∷ [] else []
calls_of_event (progressed response) = []
calls_of_event (loaded resp) = tell_chunk resp true ∷ tell_end ∷ []
calls_of_event failed = tell_end ∷ []

abbrev pub calls_of : List Turn → List ClientCall
calls_of [] = []
calls_of (event e ∷ turns) = calls_of_event e ++ calls_of turns
calls_of (other cb ∷ turns) = calls_of turns
calls_of (timer ∷ turns) = calls_of turns

-- The calls that are a request's own.
abbrev pub own : ℕ → Callback → List ClientCall
own request cb = if cb.request == request then cb.call ∷ [] else []

abbrev pub calls_for : ℕ → List Callback → List ClientCall
calls_for request = kept (own request)

-- What others detach is not the request's.
abbrev pub AreOthers : ℕ → List Turn → Type 0
AreOthers request [] = Unit
AreOthers request (event e ∷ turns) = AreOthers request turns
AreOthers request (other cb ∷ turns) = ((cb.request == request) ≡ false) × AreOthers request turns
AreOthers request (timer ∷ turns) = AreOthers request turns

same_request : (request : ℕ) → (request == request) ≡ true
same_request request = ground arith

module _ (behave : List Callback → Callback → Behaviour Callback) where
  unfoldable pub take_turn : Turn → Page → Page
  take_turn (event e) p = handle e p
  take_turn (other cb) p = record p { queue = detach cb p.queue }
  take_turn timer p = record p { queue = fire_if behave p.queue.timers p.queue }

  unfoldable pub take_turns : List Turn → Page → Page
  take_turns [] p = p
  take_turns (t ∷ turns) p = take_turns turns (take_turn t p)

  module _ (request : ℕ) (quiet : IsQuiet (own request) behave) (weight : Callback → ℕ)
      (ends : EndsChains behave weight) where
    -- A transport that gets bytes, with these calls of the client detached so far.
    record HasDetached (calls : List ClientCall) (p : Page) : Type 0 where
      class : p.xhr.class ≡ array_buffer_xhr
      identity : p.xhr.request ≡ request
      all : calls_for request p.queue.detached ≡ calls
      running : Running [] p.queue

    detach-HasDetached :
        (call : ClientCall) (calls : List ClientCall) (p : Page)
        → HasDetached calls p
        → HasDetached (calls ++ call ∷ []) (detach_call call p)
    detach-HasDetached call calls p h =
        let cb : Callback = record { request = p.xhr.request; call = call } in
        record {
          class = h.class;
          identity = h.identity;
          all =
              kept-detach (own request) cb p.queue
              ∙ ap (λ t. t ++ own request cb) h.all
              ∙ ap (λ b. calls ++ (if b then call ∷ [] else []))
                  (ap (λ r. r == request) h.identity ∙ same_request request);
          running = detach-Running cb [] p.queue h.running;
        }

    other-HasDetached :
        (cb : Callback) (calls : List ClientCall) (p : Page)
        → (cb.request == request) ≡ false
        → HasDetached calls p
        → HasDetached calls (record p { queue = detach cb p.queue })
    other-HasDetached cb calls p o h = record {
      class = h.class;
      identity = h.identity;
      all =
          kept-detach (own request) cb p.queue
          ∙ ap (λ t. t ++ own request cb) h.all
          ∙ ap (λ b. calls ++ (if b then cb.call ∷ [] else [])) o
          ∙ append-nil calls;
      running = detach-Running cb [] p.queue h.running;
    }

    HasDetached-eq :
        {calls calls' : List ClientCall} {p : Page}
        → calls ≡ calls'
        → HasDetached calls p
        → HasDetached calls' p
    HasDetached-eq e h = record {
      class = h.class;
      identity = h.identity;
      all = h.all ∙ e;
      running = h.running;
    }

    state-HasDetached :
        (is_received : Bool) (calls : List ClientCall) (p : Page)
        → HasDetached calls p
        → HasDetached
            (calls ++ (if is_received then tell_headers ∷ [] else []))
            (if is_received then detach_call tell_headers p else p)
    state-HasDetached true calls p h = detach-HasDetached tell_headers calls p h
    state-HasDetached false calls p h = HasDetached-eq (sym (append-nil calls)) h

    handle-HasDetached :
        (e : Event) (calls : List ClientCall) (p : Page)
        → HasDetached calls p
        → HasDetached (calls ++ calls_of_event e) (handle e p)
    unfolding handle on_state_change on_progress_event on_load_event on_error
    handle-HasDetached (state_changed ready_state) calls p h =
        state-HasDetached (ready_state == 2) calls p h
    handle-HasDetached (progressed response) calls p h =
        subst (λ class. HasDetached (calls ++ []) (on_progress_event class response p))
          (sym h.class) (HasDetached-eq (sym (append-nil calls)) h)
    handle-HasDetached (loaded resp) calls p h =
        let chunk = detach-HasDetached (tell_chunk resp true) calls p h in
        let both = detach-HasDetached tell_end _ _ chunk in
        subst
          (λ class.
            HasDetached (calls ++ tell_chunk resp true ∷ tell_end ∷ [])
              (on_load_event class resp p))
          (sym h.class)
          (HasDetached-eq (append_assoc calls (tell_chunk resp true ∷ []) (tell_end ∷ [])) both)
    handle-HasDetached failed calls p h = detach-HasDetached tell_end calls p h

    take_turns-HasDetached :
        (turns : List Turn) (calls : List ClientCall) (p : Page)
        → AreOthers request turns
        → HasDetached calls p
        → HasDetached (calls ++ calls_of turns) (take_turns turns p)
    unfolding take_turns take_turn
    take_turns-HasDetached [] calls p o h = HasDetached-eq (sym (append-nil calls)) h
    take_turns-HasDetached (event e ∷ turns) calls p o h =
        HasDetached-eq (append_assoc calls (calls_of_event e) (calls_of turns)) (
          take_turns-HasDetached turns (calls ++ calls_of_event e) (handle e p) o
            (handle-HasDetached e calls p h))
    take_turns-HasDetached (other cb ∷ turns) calls p (away, o) h =
        take_turns-HasDetached turns calls (record p { queue = detach cb p.queue }) o
          (other-HasDetached cb calls p away h)
    take_turns-HasDetached (timer ∷ turns) calls p o h =
        take_turns-HasDetached turns calls
          (record p { queue = fire_if behave p.queue.timers p.queue }) o
          (record {
            class = h.class;
            identity = h.identity;
            all = kept-fire_if (own request) behave quiet p.queue.timers p.queue ∙ h.all;
            running = (fire_if-Running behave weight ends p.queue.timers p.queue refl h.running).0;
          })

    set_request_headers-fields :
        (entries : List (Text × List Text)) (x : NativeXhr)
        → ((set_request_headers entries x).class ≡ x.class)
          × ((set_request_headers entries x).request ≡ x.request)
    unfolding set_request_headers
    set_request_headers-fields [] x = (refl, refl)
    set_request_headers-fields ((key, values) ∷ entries) x = set_request_headers-fields entries _

    start-fields :
        (entries : List (Text × List Text)) (url : Text) (with_credentials : Bool)
        → let x = start entries (react_native_transport request url with_credentials) in
          (x.class ≡ array_buffer_xhr) × (x.request ≡ request)
    unfolding start configure_xhr react_native_transport
    start-fields entries url with_credentials = set_request_headers-fields entries _

    -- A transport is made and started, on a page whose queue has had any life before, with callbacks of
    -- other requests that wait or were called, and throw. Then events of its request come, and
    -- between them, in any way, timers go off and other requests detach callbacks. Callbacks may
    -- throw, and detach finitely long chains of others, by a weight, but none of this request. Then
    -- once as many more timers have gone off as what waits weighs, the calls of this request's client
    -- have been made exactly for these events, in their order: for the headers when they are
    -- received, and at the load for the whole body and then for the end; an error is an end; progress
    -- is no call.
    pub called-calls_of :
        {q : Queue Callback} (turns : List Turn) (n : ℕ) (entries : List (Text × List Text))
        (url : Text) (with_credentials : Bool)
        → Life behave new_queue q
        → calls_for request q.detached ≡ []
        → AreOthers request turns
        → total weight (
            waiting
              (take_turns turns (record {
                xhr = start entries (react_native_transport request url with_credentials);
                queue = q;
              })).queue.awaiting_execution)
          ≤ n
        → let p = take_turns turns (record {
          xhr = start entries (react_native_transport request url with_credentials);
          queue = q;
        }) in
          calls_for request (fire_times behave n p.queue).called ≡ calls_of turns
    called-calls_of {q} turns n entries url with_credentials life none_own others enough =
        let p0 : Page = record {
          xhr = start entries (react_native_transport request url with_credentials);
          queue = q;
        } in
        let p = take_turns turns p0 in
        let (class, identity) = start-fields entries url with_credentials in
        let (order, timers) = Life-order behave life in
        let d = take_turns-HasDetached turns [] p0 others (record {
          class = class;
          identity = identity;
          all = none_own;
          running = record { order = order; timer = timers };
        }) in
        let (r, none_left) = fire_times-Running behave weight ends n p.queue d.running enough in
        ap (calls_for request) (
          sym (append-nil _)
          ∙ ap (λ l. (fire_times behave n p.queue).called ++ l) (sym none_left)
          ∙ sym r.order)
        ∙ kept-fire_times (own request) behave quiet n p.queue
        ∙ d.all
