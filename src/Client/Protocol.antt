-- ===== src/Client/Protocol.antt =====
-- client.ts: how the client uses its transport, as an automaton that reads the log.
use grpc_web.Prelude.{
  ℕ, ◌≡◌, ◌≢◌, refl, arith, Bool, true, false, not, ◌||◌, Option, none, some, List, [], ◌∷◌,
  if◌then◌else◌, Text, is_none, Result, ok, thrown, exception_of,
}
use grpc_web.Framing.{frame_request}
use grpc_web.Client.Types.{
  Environment, State, GrpcClient, Action, Command, Event, transport_start, metadata_refused,
  transport_send, transport_finish_send, transport_cancel, called, later_throw, new_client,
}
use grpc_web.Client.Requests.{
  record_action, request_headers, start, start_with, send, finish_send, close, on_headers,
  on_message, on_end, obey,
}
use grpc_web.Client.Session.{Input, run}
use grpc_web.Client.Keeps.{Keeps, Keeps-IsKept, MayTell}
use grpc_web.Client.Parts.{run_keeps}

-- A client was not started; was, and its transport too unless `new Metadata` threw, with what was
-- sent; or its transport is cancelled.
pub data Phase : Type 0 where
  idle : Phase
  opened : (sent finished : Bool) → Phase
  cancelled : Phase

-- The calls that a transport may get, and the one call of `new Metadata` that may throw before it
-- is started. A method that does not stream gets one message at most.
abbrev pub admit :
    {Md Resp : Type 0} → (request_stream : Bool) → Action Md Resp → Phase → Option Phase
admit stream (transport_start md) idle = some (opened false false)
admit stream (metadata_refused e) idle = some (opened false false)
admit stream (transport_send bytes) (opened sent false) =
    if stream || not sent then some (opened true false) else none
admit stream transport_finish_send (opened sent false) = some (opened sent true)
admit stream transport_cancel (opened sent finished) = some cancelled
admit stream (called callback event) phase = some phase
admit stream (later_throw e) phase = some phase
admit stream _ _ = none

abbrev admit_after : {Md Resp : Type 0} → Bool → Action Md Resp → Option Phase → Option Phase
admit_after stream a none = none
admit_after stream a (some phase) = admit stream a phase

-- The phase behind the actions of a log, the newest first; `none` if one was not admitted.
abbrev pub phase_of : {Md Resp : Type 0} → Bool → List (Action Md Resp) → Option Phase
phase_of stream [] = some idle
phase_of stream (a ∷ log) = admit_after stream a (phase_of stream log)

-- The phase that the client's fields stand for.
abbrev pub phase : {Md Resp User : Type 0} → GrpcClient Md Resp User → Phase
phase c =
    if c.started
    then (if c.closed then cancelled else opened c.sent_first_message c.finished_sending)
    else idle

abbrev pub added : {A : Type 0} → Option A → List A → List A
added none log = log
added (some a) log = a ∷ log

module _ (E : Environment) where
  -- Before `start` nothing was sent, finished or closed, and the log agrees with the fields.
  pub record Wired (c : State E) : Type 0 where
    pub agrees : phase_of E.request_stream c.log ≡ some (phase c)
    pub fresh :
        c.started ≡ false
        → (c.closed ≡ false) × (c.sent_first_message ≡ false) × (c.finished_sending ≡ false)

  obey-Wired : (m : Command E.Arg E.Request) (c : State E) → Wired c → Wired (obey E m c).0
  unfolding obey start start_with send finish_send close on_headers on_message on_end
  obey-Wired (Command.start md) c w = record {
    agrees = ground (arith, w.agrees, w.fresh);
    fresh = ground arith;
  }
  obey-Wired (Command.send msg) c w = record {
    agrees = ground (arith, w.agrees);
    fresh = ground arith;
  }
  obey-Wired Command.finish_send c w = record {
    agrees = ground (arith, w.agrees);
    fresh = ground arith;
  }
  obey-Wired Command.close c w = record { agrees = ground (arith, w.agrees); fresh = ground arith }
  obey-Wired (Command.on_headers x) c w = record { agrees = w.agrees; fresh = w.fresh }
  obey-Wired (Command.on_message x) c w = record { agrees = w.agrees; fresh = w.fresh }
  obey-Wired (Command.on_end x) c w = record { agrees = w.agrees; fresh = w.fresh }

  call-Wired :
      (callback : ℕ) (event : Event E.Metadata E.Response) (c : State E)
      → MayTell event c.closed
      → Wired c
      → Wired (record_action E (called callback event) c)
  call-Wired callback event c m w = record { agrees = rw w.agrees; fresh = w.fresh }

  throw-Wired : (e : Text) (c : State E) → Wired c → Wired (record_action E (later_throw e) c)
  throw-Wired e c w = record { agrees = rw w.agrees; fresh = w.fresh }

  Wired-Keeps : Keeps E Wired
  Wired-Keeps = record {
    obeys = obey-Wired;
    calls = call-Wired;
    throws = throw-Wired;
    users = λ u c w. record { agrees = w.agrees; fresh = w.fresh };
    completes = λ c w. record { agrees = w.agrees; fresh = w.fresh };
    receives_headers = λ md c w. record { agrees = w.agrees; fresh = w.fresh };
    receives_trailers = λ md c w. record { agrees = w.agrees; fresh = w.fresh };
    parses = λ p c w. record { agrees = w.agrees; fresh = w.fresh };
  }

  new_client-Wired : (u : E.User) → Wired (new_client E u)
  unfolding new_client
  new_client-Wired u = record { agrees = refl; fresh = λ e. (refl, refl, refl) }

  -- Over the life of a new client, whatever the user, the callbacks and the transport do, in any
  -- order, the transport is used in order. First it is started, once; or `new Metadata` throws in
  -- the place of that, once, and then it is never started, though what follows may come. Then no
  -- message and no end of sending come behind an end of sending or a cancel; one message at most
  -- unless the method streams requests; one cancel at most, and nothing behind it. And the client's
  -- fields say at each time which phase this order is in.
  pub run-admitted :
      (inputs : List (Input E.Metadata E.Arg E.Request)) (u : E.User)
      → let c = run E inputs (new_client E u) in phase_of E.request_stream c.log ≡ some (phase c)
  run-admitted inputs u =
      (run_keeps E Wired (Keeps-IsKept E Wired Wired-Keeps) inputs (new_client E u)
        (new_client-Wired u)).agrees

  -- What `start` does outside, by what `new Metadata` does.
  abbrev pub started_by : Result E.Metadata → Action E.Metadata E.Response
  started_by (ok md) = transport_start (request_headers E md)
  started_by (thrown e) = metadata_refused e

  -- The transport call that a method of the client makes, or the call of `new Metadata` that throws.
  abbrev pub action_of : Command E.Arg E.Request → Option (Action E.Metadata E.Response)
  action_of (Command.start md) = some (started_by (E.from_arg md))
  action_of (Command.send msg) = some (transport_send (frame_request (E.serialize_binary msg)))
  action_of Command.finish_send = some transport_finish_send
  action_of Command.close = some transport_cancel
  action_of _ = none

  -- The exception of `new Metadata`, which only `start` calls.
  abbrev pub exception_in : Command E.Arg E.Request → Option Text
  exception_in (Command.start md) = exception_of (E.from_arg md)
  exception_in _ = none

  abbrev pub starts : Command E.Arg E.Request → Bool
  starts (Command.start md) = true
  starts _ = false

  abbrev pub refused : Option (Action E.Metadata E.Response) → Phase → Bool
  refused none p = false
  refused (some a) p = is_none (admit E.request_stream a p)

  -- On a client whose log and fields agree, with nothing sent, finished or closed before the
  -- start: a method that calls the transport throws when the order of the transport's calls does
  -- not admit that call, and then changes nothing. Otherwise no method throws, but `start` when
  -- `new Metadata` throws on its argument, and then that exception. What it does outside is its
  -- call of the transport, if it makes one, or that call of `new Metadata`, and nothing else; and
  -- `start` leaves the client started, also when it throws so.
  pub obey_iff :
      (m : Command E.Arg E.Request) (c : State E)
      → Wired c
      → (refused (action_of m) (phase c) ≡ true → ((obey E m c).0 ≡ c) × ((obey E m c).1 ≢ none))
        × (refused (action_of m) (phase c) ≡ false
            → ((obey E m c).1 ≡ exception_in m)
              × ((obey E m c).0.log ≡ added (action_of m) c.log)
              × ((obey E m c).0.started ≡ (starts m || c.started)))
  unfolding obey start start_with send finish_send close on_headers on_message on_end
  obey_iff (Command.start md) c w = (
    λ r. (ground (arith, w.fresh), ground (arith, w.fresh)),
    λ r. (ground (arith, w.fresh), ground (arith, w.fresh), ground (arith, w.fresh)),
  )
  obey_iff (Command.send msg) c w =
      (λ r. (ground arith, ground arith), λ r. (ground arith, ground arith, ground arith))
  obey_iff Command.finish_send c w =
      (λ r. (ground arith, ground arith), λ r. (ground arith, ground arith, ground arith))
  obey_iff Command.close c w =
      (λ r. (ground arith, ground arith), λ r. (ground arith, ground arith, ground arith))
  obey_iff (Command.on_headers x) c w = (λ r. cc, λ r. (refl, refl, refl))
  obey_iff (Command.on_message x) c w = (λ r. cc, λ r. (refl, refl, refl))
  obey_iff (Command.on_end x) c w = (λ r. cc, λ r. (refl, refl, refl))
