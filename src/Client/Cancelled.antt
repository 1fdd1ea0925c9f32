-- ===== src/Client/Cancelled.antt =====
-- client.ts: what may be told behind a cancel.
use grpc_web.Prelude.{◌≡◌, refl, arith, Bool, true, false, List, [], ◌∷◌}
use grpc_web.Client.Types.{
  Environment, State, Action, Command, Event, headers, message, end, transport_start,
  metadata_refused, transport_send, transport_finish_send, transport_cancel, called, later_throw,
  new_client,
}
use grpc_web.Client.Requests.{
  start, start_with, send, finish_send, close, on_headers, on_message, on_end, obey,
}
use grpc_web.Client.Session.{Input, run}
use grpc_web.Client.Keeps.{Keeps, Keeps-IsKept, MayTell}
use grpc_web.Client.Parts.{run_keeps}

-- Whether a log holds a cancel.
abbrev pub has_cancel : {Md Resp : Type 0} → List (Action Md Resp) → Bool
has_cancel [] = false
has_cancel (transport_cancel ∷ log) = true
has_cancel (transport_start md ∷ log) = has_cancel log
has_cancel (metadata_refused e ∷ log) = has_cancel log
has_cancel (transport_send bytes ∷ log) = has_cancel log
has_cancel (transport_finish_send ∷ log) = has_cancel log
has_cancel (called callback event ∷ log) = has_cancel log
has_cancel (later_throw e ∷ log) = has_cancel log

-- Each call of a callback may be made, given whether a cancel is older.
abbrev pub IsSilent : {Md Resp : Type 0} → List (Action Md Resp) → Type 0
IsSilent [] = Unit
IsSilent (called callback event ∷ log) = MayTell event (has_cancel log) × IsSilent log
IsSilent (transport_start md ∷ log) = IsSilent log
IsSilent (metadata_refused e ∷ log) = IsSilent log
IsSilent (transport_send bytes ∷ log) = IsSilent log
IsSilent (transport_finish_send ∷ log) = IsSilent log
IsSilent (transport_cancel ∷ log) = IsSilent log
IsSilent (later_throw e ∷ log) = IsSilent log

MayTell-of_eq :
    {Md Resp : Type 0} (event : Event Md Resp) (a b : Bool)
    → a ≡ b
    → MayTell event a
    → MayTell event b
MayTell-of_eq (headers md) a b e m = tt
MayTell-of_eq (message res) a b e m = cc
MayTell-of_eq (end code msg md) a b e m = cc

module _ (E : Environment) where
  record Silenced (c : State E) : Type 0 where
    cancelled : c.closed ≡ has_cancel c.log
    silent : IsSilent c.log

  obey-Silenced : (m : Command E.Arg E.Request) (c : State E) → Silenced c → Silenced (obey E m c).0
  unfolding obey start start_with send finish_send close on_headers on_message on_end
  obey-Silenced (Command.start md) c w = record {
    cancelled = ground (arith, w.cancelled);
    silent = ground (arith, w.silent);
  }
  obey-Silenced (Command.send msg) c w = record {
    cancelled = ground (arith, w.cancelled);
    silent = ground (arith, w.silent);
  }
  obey-Silenced Command.finish_send c w = record {
    cancelled = ground (arith, w.cancelled);
    silent = ground (arith, w.silent);
  }
  obey-Silenced Command.close c w = record {
    cancelled = ground (arith, w.cancelled);
    silent = ground (arith, w.silent);
  }
  obey-Silenced (Command.on_headers x) c w = record { cancelled = w.cancelled; silent = w.silent }
  obey-Silenced (Command.on_message x) c w = record { cancelled = w.cancelled; silent = w.silent }
  obey-Silenced (Command.on_end x) c w = record { cancelled = w.cancelled; silent = w.silent }

  Silenced-Keeps : Keeps E Silenced
  Silenced-Keeps = record {
    obeys = obey-Silenced;
    calls = λ callback event c m w. record {
      cancelled = w.cancelled;
      silent = (MayTell-of_eq event c.closed (has_cancel c.log) w.cancelled m, w.silent);
    };
    throws = λ e c w. record { cancelled = w.cancelled; silent = w.silent };
    users = λ u c w. record { cancelled = w.cancelled; silent = w.silent };
    completes = λ c w. record { cancelled = w.cancelled; silent = w.silent };
    receives_headers = λ md c w. record { cancelled = w.cancelled; silent = w.silent };
    receives_trailers = λ md c w. record { cancelled = w.cancelled; silent = w.silent };
    parses = λ p c w. record { cancelled = w.cancelled; silent = w.silent };
  }

  new_client-Silenced : (u : E.User) → Silenced (new_client E u)
  unfolding new_client
  new_client-Silenced u = record { cancelled = refl; silent = tt }

  -- Over the life of a new client, whatever the user, the callbacks and the transport do, in any
  -- order: from the moment of a cancel no callback is told a message or the end, not even those
  -- that stand behind the one that closed the client in the same loop. Only headers may still be
  -- told.
  pub run-IsSilent :
      (inputs : List (Input E.Metadata E.Arg E.Request)) (u : E.User)
      → IsSilent (run E inputs (new_client E u)).log
  run-IsSilent inputs u =
      (run_keeps E Silenced (Keeps-IsKept E Silenced Silenced-Keeps) inputs (new_client E u)
        (new_client-Silenced u)).silent
