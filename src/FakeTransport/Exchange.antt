-- ===== src/FakeTransport/Exchange.antt =====
-- fake-transport/src/index.ts with client.ts: the whole life of a fake transport, and what a user is told.
use grpc_web.Prelude.{
  ℕ, ◌≡◌, refl, ◌∙◌, sym, Bool, true, false, Option, none, some, List, [], ◌∷◌, ◌++◌,
}
use grpc_web.Prelude.{if◌then◌else◌, if-true, append-nil, Text, text, Bytes, ok, All}
use mathlib.Core.Path.{ap₂}
use grpc_web.ChunkParser.{new_parser, parse_trailer_data}
use grpc_web.ChunkParser.Frames.{FitsFrame}
use grpc_web.Framing.{header_block}
use grpc_web.Client.Types.{Environment, State, headers}
use grpc_web.Client.Responses.{get_status_from_headers, headers_code}
use grpc_web.Client.Session.{run}
use grpc_web.Client.Silence.{callbacks_called}
use grpc_web.Client.Passive.{IsPassive, told}
use grpc_web.Client.Outcome.{Deserializes, told_all, final_event}
use grpc_web.Js.Number.{Number, is_number}
use grpc_web.FakeTransport.{
  FakeTransportBuilder, Calls, headers_calls, messages_calls, trailers_calls, new_builder,
  send_headers, send_messages, send_trailers, send_all, with_headers, with_messages, with_trailers,
}
use grpc_web.FakeTransport.Session.{
  Heard, request_heard, headers_heard, message_heard, finish_send_heard, Used, build, tell,
  transport_constructor, start, send_message, finish_send, trigger_all, reported, reported_log,
  trigger_all-send_all,
}
use grpc_web.FakeTransport.Whole.{send_all-told}

module _ (E : Environment) (entries : E.Metadata → List (Text × List Text))
    (to_buffer : Text → Bytes) where
  open E use {Metadata, Response}

  -- The client makes the transport, starts it, sends messages and finishes sending.
  abbrev pub send_messages_of : List Bytes → Used E entries to_buffer → Used E entries to_buffer
  send_messages_of [] f = f
  send_messages_of (bytes ∷ requests) f =
      send_messages_of requests (send_message E entries to_buffer bytes f)

  abbrev begun : FakeTransportBuilder Metadata → Metadata → List Bytes → Used E entries to_buffer
  begun mock md requests = send_messages_of requests (
      start E entries to_buffer md
        (transport_constructor E entries to_buffer (build E entries to_buffer mock)))

  abbrev pub used : FakeTransportBuilder Metadata → Metadata → List Bytes → Used E entries to_buffer
  used mock md requests = (finish_send E entries to_buffer (begun mock md requests)).0

  -- A listener was called, or nothing was done.
  record Idle (f g : Used E entries to_buffer) : Type 0 where
    mock : g.mock ≡ f.mock
    invoked : g.invoked ≡ f.invoked
    same : reported E entries to_buffer g ≡ reported E entries to_buffer f

  tell-Idle :
      (listener : Option ℕ) (heard : ℕ → Heard Metadata (Calls E entries to_buffer))
      (f : Used E entries to_buffer)
      → ((l : ℕ)
          → reported_log E entries to_buffer (heard l ∷ f.log) ≡ reported E entries to_buffer f)
      → Idle f (tell E entries to_buffer listener heard f)
  tell-Idle none heard f quiet = record { mock = refl; invoked = refl; same = refl }
  tell-Idle (some listener) heard f quiet = record {
    mock = refl;
    invoked = refl;
    same = quiet listener;
  }

  Idle-trans : {f g h : Used E entries to_buffer} → Idle f g → Idle g h → Idle f h
  Idle-trans a b = record {
    mock = b.mock ∙ a.mock;
    invoked = b.invoked ∙ a.invoked;
    same = b.same ∙ a.same;
  }

  send_messages_of-Idle :
      (requests : List Bytes) (f : Used E entries to_buffer) → Idle f (send_messages_of requests f)
  unfolding send_message
  send_messages_of-Idle [] f = record { mock = refl; invoked = refl; same = refl }
  send_messages_of-Idle (bytes ∷ requests) f =
      Idle-trans (tell-Idle f.mock.message_listener (λ l. message_heard l bytes) f (λ l. refl))
        (send_messages_of-Idle requests _)

  constructed : FakeTransportBuilder Metadata → Used E entries to_buffer
  constructed mock = record { mock = mock; invoked = true; log = [] }

  begun-Idle :
      (mock : FakeTransportBuilder Metadata) (md : Metadata) (requests : List Bytes)
      → Idle (constructed mock) (begun mock md requests)
  unfolding start transport_constructor build constructed
  begun-Idle mock md requests =
      let made = tell-Idle mock.request_listener request_heard (constructed mock) (λ l. refl) in
      let made_mock = transport_constructor E entries to_buffer (build E entries to_buffer mock) in
      Idle-trans made (
        Idle-trans
          (tell-Idle made_mock.mock.headers_listener (λ l. headers_heard l md) made_mock
            (λ l. refl))
          (send_messages_of-Idle requests _))

  finished :
      (auto : Bool) (f g : Used E entries to_buffer)
      → Idle f g
      → f.invoked ≡ true
      → reported E entries to_buffer
          (if auto then trigger_all E entries to_buffer g else (g, none)).0
        ≡ reported E entries to_buffer f
          ++ (if auto then send_all E entries to_buffer f.mock else [])
  finished true f g idle i =
      trigger_all-send_all E entries to_buffer g (idle.invoked ∙ i)
      ∙ ap₂ (λ r mock. r ++ send_all E entries to_buffer mock) idle.same idle.mock
  finished false f g idle i = idle.same ∙ sym (append-nil _)

  -- What a fake transport reports to the client that makes it, starts it, sends any number of
  -- messages and finishes sending: all that `sendAll` does, once, whatever listeners there are; and
  -- nothing if its builder was given a manual trigger.
  used-reported :
      (mock : FakeTransportBuilder Metadata) (md : Metadata) (requests : List Bytes)
      → reported E entries to_buffer (used mock md requests)
        ≡ (if mock.auto_trigger then send_all E entries to_buffer mock else [])
  unfolding finish_send constructed
  used-reported mock md requests =
      let f = begun mock md requests in
      let idle = begun-Idle mock md requests in
      finished f.mock.auto_trigger f _
        (tell-Idle f.mock.finish_send_listener finish_send_heard f (λ l. refl)) idle.invoked
      ∙ ap₂
          (λ r (m : FakeTransportBuilder Metadata).
            r ++ (if m.auto_trigger then send_all E entries to_buffer m else []))
          idle.same idle.mock

  -- The triggers read six fields of the builder.
  send_all_with :
      (mock : FakeTransportBuilder Metadata) (md trailers : Metadata) (messages : List Bytes)
      → mock.pre_headers_error_code ≡ none
      → mock.pre_messages_error ≡ none
      → mock.pre_trailers_error ≡ none
      → send_all E entries to_buffer
          (with_trailers trailers (with_messages messages (with_headers md mock)))
        ≡ send_all E entries to_buffer (record new_builder {
          headers = some md;
          messages = messages;
          trailers = some trailers;
        })
  unfolding send_all send_headers send_messages send_trailers headers_calls messages_calls
      trailers_calls with_trailers with_messages with_headers new_builder
  send_all_with mock md trailers messages e f g = rw (e, f, g) refl

  module _ (passive : IsPassive E) where
    -- A fake transport whose builder has an automatic trigger and no errors, and is given headers,
    -- messages and trailers, is made and started by a client, which sends messages and finishes
    -- sending. With what is reported to it a client runs that is neither closed nor complete and
    -- whose parser is new. The code of the headers is OK, the callbacks return and do not call the
    -- client, `deserializeBinary` takes each message, the frames' lengths fit, and `new Metadata`
    -- takes the trailer block and finds a grpc-status in it. Then the user is told the headers, each
    -- message once, in order, and the end with that status and the trailers; and the request is
    -- complete.
    pub finish_send-told :
        (mock : FakeTransportBuilder Metadata) (c : State E) (request_md md : Metadata)
        (requests messages : List Bytes) (trailers : Metadata) (rs : List Response)
        (trailer_md : Metadata) (grpc_status : Number)
        → mock.pre_headers_error_code ≡ none
        → mock.pre_messages_error ≡ none
        → mock.pre_trailers_error ≡ none
        → mock.auto_trigger ≡ true
        → c.completed ≡ false
        → c.closed ≡ false
        → c.parser ≡ new_parser
        → is_number (headers_code (get_status_from_headers E md) 200) 0 ≡ true
        → Deserializes E passive messages rs
        → All FitsFrame messages
        → FitsFrame
            (to_buffer (header_block (entries (E.set trailers (text "grpc-status") (text "0")))))
        → parse_trailer_data E.from_text
            (to_buffer (header_block (entries (E.set trailers (text "grpc-status") (text "0")))))
          ≡ ok trailer_md
        → get_status_from_headers E (E.copy trailer_md) ≡ some grpc_status
        → let built = with_trailers trailers (with_messages messages (with_headers md mock)) in
          let c' = run E (reported E entries to_buffer (used built request_md requests)) c in
          (callbacks_called c'.log
            ≡ callbacks_called c.log
              ++ (told c.on_headers_callbacks (headers md)
                  ++ (told_all E passive c.on_message_callbacks rs
                      ++ told c.on_end_callbacks
                          (final_event E passive grpc_status (E.copy trailer_md)))))
          × (c'.completed ≡ true)
    unfolding with_trailers with_messages with_headers
    finish_send-told mock c request_md md requests messages trailers rs trailer_md grpc_status e f g
          auto h k p ok_code d fits fits' b s =
        let built = with_trailers trailers (with_messages messages (with_headers md mock)) in
        let path : reported E entries to_buffer (used built request_md requests)
            ≡ send_all E entries to_buffer (record new_builder {
              headers = some md;
              messages = messages;
              trailers = some trailers;
            }) =
          used-reported built request_md requests
          ∙ if-true _ _ auto
          ∙ send_all_with mock md trailers messages e f g in
        rw path (
          send_all-told E passive entries to_buffer c (some md) messages (some trailers) rs
            trailer_md grpc_status h k p ok_code d fits fits' b s)
