-- ===== src/Client/Silence.antt =====
-- client.ts: a client that was closed, or whose request is complete, tells its user nothing more.
use grpc_web.Prelude.{
  ℕ, ◌≡◌, refl, arith, Bool, true, false, ◌||◌, Option, none, List, [], ◌∷◌, ◌++◌,
}
use grpc_web.Prelude.{Text}
use grpc_web.Client.Types.{
  Environment, State, Action, Command, Event, transport_start, metadata_refused, transport_send,
  transport_finish_send, transport_cancel, called, later_throw,
}
use grpc_web.Client.Requests.{
  start, start_with, send, finish_send, close, on_headers, on_message, on_end, obey,
}
use grpc_web.Client.Callbacks.{raw_on_end, raw_on_headers, raw_on_error, raw_on_message}
use grpc_web.Client.Responses.{on_transport_headers, on_transport_chunk, on_transport_end}
use grpc_web.Client.Session.{
  Input, command, transport_headers, transport_chunk, transport_end, step, run,
}
use grpc_web.Js.Number.{Number}
use grpc_web.Client.Parts.{IsKept, if_true, run_keeps}

-- The calls of callbacks in a log, the oldest first.
abbrev pub callbacks_called : {Md Resp : Type 0} → List (Action Md Resp) → List (ℕ × Event Md Resp)
callbacks_called [] = []
callbacks_called (called callback event ∷ log) = callbacks_called log ++ (callback, event) ∷ []
callbacks_called (transport_start md ∷ log) = callbacks_called log
callbacks_called (metadata_refused e ∷ log) = callbacks_called log
callbacks_called (transport_send bytes ∷ log) = callbacks_called log
callbacks_called (transport_finish_send ∷ log) = callbacks_called log
callbacks_called (transport_cancel ∷ log) = callbacks_called log
callbacks_called (later_throw e ∷ log) = callbacks_called log

abbrev pub is_from_transport : {Md Arg Req : Type 0} → Input Md Arg Req → Bool
is_from_transport (command m) = false
is_from_transport _ = true

or_true : {a : Bool} (b : Bool) → a ≡ true → (a || b) ≡ true
or_true b h = rw h

module _ (E : Environment) where
  open E use {Metadata, Arg, Request, Response}

  -- On a closed client nothing that the transport reports has an effect, on the fields, on the
  -- user's state, or as a call of a callback.
  pub step_closed :
      (i : Input Metadata Arg Request) (c : State E)
      → c.closed ≡ true
      → is_from_transport i ≡ true
      → step E i c ≡ (c, none)
  unfolding step on_transport_headers on_transport_chunk on_transport_end
  step_closed (command m) c h t = cc
  step_closed (transport_headers md status) c h t = rw h
  step_closed (transport_chunk bytes) c h t = rw h
  step_closed transport_end c h t = rw h

  -- The request is complete, and these callbacks have been called.
  pub record Quiet (calls : List (ℕ × Event Metadata Response)) (c : State E) : Type 0 where
    pub complete : c.completed ≡ true
    pub same : callbacks_called c.log ≡ calls

  module _ (calls : List (ℕ × Event Metadata Response)) where
    obey-Quiet :
        (m : Command Arg Request) (c : State E) → Quiet calls c → Quiet calls (obey E m c).0
    unfolding obey start start_with send finish_send close on_headers on_message on_end
    obey-Quiet (Command.start md) c q = record {
      complete = ground (arith, q.complete);
      same = ground (arith, q.same);
    }
    obey-Quiet (Command.send msg) c q = record {
      complete = ground (arith, q.complete);
      same = ground (arith, q.same);
    }
    obey-Quiet Command.finish_send c q = record {
      complete = ground (arith, q.complete);
      same = ground (arith, q.same);
    }
    obey-Quiet Command.close c q = record {
      complete = ground (arith, q.complete);
      same = ground (arith, q.same);
    }
    obey-Quiet (Command.on_headers x) c q = record { complete = q.complete; same = q.same }
    obey-Quiet (Command.on_message x) c q = record { complete = q.complete; same = q.same }
    obey-Quiet (Command.on_end x) c q = record { complete = q.complete; same = q.same }

    raw_on_end-Quiet :
        (code : Number) (msg : Text) (md : Metadata) (c : State E)
        → Quiet calls c
        → Quiet calls (raw_on_end E code msg md c)
    unfolding raw_on_end
    raw_on_end-Quiet code msg md c q = if_true (Quiet calls) _ q.complete q

    raw_on_error-Quiet :
        (code : Number) (msg : Text) (md : Option Metadata) (c : State E)
        → Quiet calls c
        → Quiet calls (raw_on_error E code msg md c)
    unfolding raw_on_error
    raw_on_error-Quiet code msg md c q = if_true (Quiet calls) _ q.complete q

    raw_on_headers-Quiet :
        (md : Metadata) (c : State E) → Quiet calls c → Quiet calls (raw_on_headers E md c)
    unfolding raw_on_headers
    raw_on_headers-Quiet md c q = if_true (Quiet calls) _ q.complete q

    raw_on_message-Quiet :
        (res : Response) (c : State E) → Quiet calls c → Quiet calls (raw_on_message E res c)
    unfolding raw_on_message
    raw_on_message-Quiet res c q = if_true (Quiet calls) _ (or_true c.closed q.complete) q

    Quiet-IsKept : IsKept E (Quiet calls)
    Quiet-IsKept = record {
      obeys = obey-Quiet;
      receives_headers = λ md c q. record { complete = q.complete; same = q.same };
      receives_trailers = λ md c q. record { complete = q.complete; same = q.same };
      parses = λ p c q. record { complete = q.complete; same = q.same };
      ends = raw_on_end-Quiet;
      fails = raw_on_error-Quiet;
      tells_headers = raw_on_headers-Quiet;
      tells_message = raw_on_message-Quiet;
    }

  -- Once a request is complete, no callback is called any more, of any kind, whatever the user and
  -- the transport do afterwards; and it stays complete.
  pub run_completed :
      (inputs : List (Input Metadata Arg Request)) (c : State E)
      → c.completed ≡ true
      → (callbacks_called (run E inputs c).log ≡ callbacks_called c.log)
        × ((run E inputs c).completed ≡ true)
  run_completed inputs c h =
      let q =
        run_keeps E _ (Quiet-IsKept (callbacks_called c.log)) inputs c
          (record { complete = h; same = refl }) in
      (q.same, q.complete)
