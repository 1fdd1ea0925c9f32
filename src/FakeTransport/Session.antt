-- ===== src/FakeTransport/Session.antt =====
-- fake-transport/src/index.ts: what `build` returns, in use. The listeners and the client are outside:
-- what they are called with goes into a log, newest first.
use grpc_web.Prelude.{
  ℕ, ◌≡◌, refl, ap, ◌∙◌, Bool, true, false, Option, none, some, List, [], ◌∷◌, ◌++◌,
}
use grpc_web.Prelude.{if◌then◌else◌, append_assoc, if-true, Text, text, Bytes, Result, ok, thrown}
use grpc_web.Client.Types.{Environment}
use grpc_web.FakeTransport.{
  FakeTransportBuilder, Calls, and_if, send_headers, send_messages, send_trailers, send_all,
}

pub data Heard (Md Calls : Type 0) : Type 0 where
  request_heard : ℕ → Heard Md Calls
  headers_heard : ℕ → Md → Heard Md Calls
  message_heard : ℕ → Bytes → Heard Md Calls
  finish_send_heard : ℕ → Heard Md Calls
  cancel_heard : ℕ → Heard Md Calls
  reports : Calls → Heard Md Calls

-- The builder, and whether `triggers.options` is set.
pub record Fake (Md Calls : Type 0) : Type 0 where
  pub mock : FakeTransportBuilder Md
  pub invoked : Bool
  pub log : List (Heard Md Calls)

module _ (E : Environment) (entries : E.Metadata → List (Text × List Text))
    (to_buffer : Text → Bytes) where
  open E use {Metadata, Arg, Request}

  abbrev pub Used : Type 0
  Used = Fake Metadata (Calls E entries to_buffer)

  unfoldable pub build : FakeTransportBuilder Metadata → Used
  build mock = record { mock = mock; invoked = false; log = [] }

  -- `if (listener) listener(...)`.
  abbrev pub tell : Option ℕ → (ℕ → Heard Metadata (Calls E entries to_buffer)) → Used → Used
  tell none heard f = f
  tell (some listener) heard f = record f { log = heard listener ∷ f.log }

  abbrev pub trigger : Text → Calls E entries to_buffer × Bool → Used → Used × Result Bool
  trigger name (calls, result) f =
      if f.invoked
      then (record f { log = reports calls ∷ f.log }, ok result)
      else (f, thrown (name ++ text " called before transport had been invoked"))

  unfoldable pub trigger_headers : Used → Used × Result Bool
  trigger_headers f = trigger (text "sendHeaders") (send_headers E entries to_buffer f.mock) f

  unfoldable pub trigger_messages : Used → Used × Result Bool
  trigger_messages f = trigger (text "sendMessages") (send_messages E entries to_buffer f.mock) f

  unfoldable pub trigger_trailers : Used → Used × Result Bool
  trigger_trailers f = trigger (text "sendTrailers") (send_trailers E entries to_buffer f.mock) f

  -- `if (trigger()) ...`.
  abbrev pub if_sent : Used × Result Bool → (Used → Used × Option Text) → Used × Option Text
  if_sent (f, ok true) go_on = go_on f
  if_sent (f, ok false) go_on = (f, none)
  if_sent (f, thrown e) go_on = (f, some e)

  unfoldable pub trigger_all : Used → Used × Option Text
  trigger_all f =
      if f.invoked
      then if_sent (trigger_headers f)
          (λ g. if_sent (trigger_messages g) (λ h. if_sent (trigger_trailers h) (λ k. (k, none))))
      else (f, some (text "sendAll called before transport had been invoked"))

  unfoldable pub transport_constructor : Used → Used
  transport_constructor f = tell f.mock.request_listener request_heard (record f { invoked = true })

  unfoldable pub start : Metadata → Used → Used
  start md f = tell f.mock.headers_listener (λ l. headers_heard l md) f

  unfoldable pub send_message : Bytes → Used → Used
  send_message msg_bytes f = tell f.mock.message_listener (λ l. message_heard l msg_bytes) f

  unfoldable pub finish_send : Used → Used × Option Text
  finish_send f =
      let told = tell f.mock.finish_send_listener finish_send_heard f in
      if f.mock.auto_trigger then trigger_all told else (told, none)

  unfoldable pub cancel : Used → Used
  cancel f = tell f.mock.cancel_listener cancel_heard f

  -- The calls of the client in a log, the oldest first.
  abbrev pub reported_log :
      List (Heard Metadata (Calls E entries to_buffer)) → Calls E entries to_buffer
  reported_log [] = []
  reported_log (request_heard l ∷ log) = reported_log log
  reported_log (headers_heard l md ∷ log) = reported_log log
  reported_log (message_heard l msg_bytes ∷ log) = reported_log log
  reported_log (finish_send_heard l ∷ log) = reported_log log
  reported_log (cancel_heard l ∷ log) = reported_log log
  reported_log (reports calls ∷ log) = reported_log log ++ calls

  abbrev pub reported : Used → Calls E entries to_buffer
  reported f = reported_log f.log

  abbrev reporting : Calls E entries to_buffer → Used → Used
  reporting calls f = record f { log = reports calls ∷ f.log }

  abbrev go_on_if : Bool → Used → (Used → Used × Option Text) → Used × Option Text
  go_on_if true f go_on = go_on f
  go_on_if false f go_on = (f, none)

  if_sent_lem :
      (name : Text) (out : Calls E entries to_buffer × Bool) (f : Used)
      (go_on : Used → Used × Option Text)
      → f.invoked ≡ true
      → if_sent (trigger name out f) go_on ≡ go_on_if out.1 (reporting out.0 f) go_on
  if_sent_lem name (calls, true) f go_on i = ap (λ o. if_sent o go_on) (if-true _ _ i)
  if_sent_lem name (calls, false) f go_on i = ap (λ o. if_sent o go_on) (if-true _ _ i)

  go_on_if-eq :
      (b : Bool) (f : Used) (go_on go_on' : Used → Used × Option Text)
      → go_on f ≡ go_on' f
      → go_on_if b f go_on ≡ go_on_if b f go_on'
  go_on_if-eq true f go_on go_on' e = e
  go_on_if-eq false f go_on go_on' e = refl

  -- Three triggers in a row, by what they report and return.
  reported-and_if :
      (h m t : Calls E entries to_buffer × Bool) (f : Used)
      → reported
          (go_on_if h.1 (reporting h.0 f) (λ g.
            go_on_if m.1
              (reporting m.0 g)
              (λ k. go_on_if t.1 (reporting t.0 k) (λ l. (l, none))))).0
        ≡ reported f ++ and_if E entries to_buffer h (and_if E entries to_buffer m t.0)
  reported-and_if (hs, false) m t f = refl
  reported-and_if (hs, true) (ms, false) t f = append_assoc (reported f) hs ms
  reported-and_if (hs, true) (ms, true) (ts, false) f =
      append_assoc (reported f ++ hs) ms ts ∙ append_assoc (reported f) hs (ms ++ ts)
  reported-and_if (hs, true) (ms, true) (ts, true) f =
      append_assoc (reported f ++ hs) ms ts ∙ append_assoc (reported f) hs (ms ++ ts)

  -- What `sendAll` reports when the transport was invoked.
  pub trigger_all-send_all :
      (f : Used)
      → f.invoked ≡ true
      → reported (trigger_all f).0 ≡ reported f ++ send_all E entries to_buffer f.mock
  unfolding trigger_all trigger_headers trigger_messages trigger_trailers send_all
  trigger_all-send_all f i =
      let h = send_headers E entries to_buffer f.mock in
      let m = send_messages E entries to_buffer f.mock in
      let t = send_trailers E entries to_buffer f.mock in
      let f1 = reporting h.0 f in
      let f2 = reporting m.0 f1 in
      let from_trailers : Used → Used × Option Text =
        λ k. if_sent (trigger_trailers k) (λ l. (l, none)) in
      let from_messages : Used → Used × Option Text =
        λ g. if_sent (trigger_messages g) from_trailers in
      let then_trailers : Used → Used × Option Text =
        λ k. go_on_if t.1 (reporting t.0 k) (λ l. (l, none)) in
      let then_messages : Used → Used × Option Text =
        λ g. go_on_if m.1 (reporting m.0 g) then_trailers in
      let path : trigger_all f ≡ go_on_if h.1 f1 then_messages =
        if-true _ _ i
        ∙ if_sent_lem (text "sendHeaders") h f from_messages i
        ∙ go_on_if-eq h.1 f1 from_messages then_messages (
            if_sent_lem (text "sendMessages") m f1 from_trailers i
            ∙ go_on_if-eq m.1 f2 from_trailers then_trailers
                (if_sent_lem (text "sendTrailers") t f2 (λ l. (l, none)) i)) in
      ap (λ (o : Used × Option Text). reported o.0) path ∙ reported-and_if h m t f
