-- ===== src/Client/Replay.antt =====
-- client.ts for callbacks that return and do not call the client: the user's state is what the calls
-- of the callbacks made of it.
use grpc_web.Prelude.{ℕ, ◌≡◌, refl, arith, ap, ◌∙◌, sym, Option, List, [], ◌∷◌, ◌++◌, ◌||◌, Text}
use grpc_web.Client.Types.{Environment, State, Command, Event}
use grpc_web.Client.Requests.{
  start, start_with, send, finish_send, close, on_headers, on_message, on_end, obey,
}
use grpc_web.Client.Callbacks.{
  run_script, call_callback, for_each, for_each_open, raw_on_end, raw_on_headers, raw_on_error,
  raw_on_message,
}
use grpc_web.Client.Session.{Input, run}
use grpc_web.Client.Silence.{callbacks_called}
use grpc_web.Client.Parts.{IsKept, if_keeps, run_keeps}
use grpc_web.Client.Passive.{IsPassive}
use grpc_web.Js.Number.{Number}

module _ (E : Environment) (passive : IsPassive E) where
  open E use {Metadata, Arg, Request, Response, User}

  -- What a sequence of calls of callbacks makes of the user's state.
  abbrev pub replay : List (ℕ × Event Metadata Response) → User → User
  replay [] u = u
  replay ((callback, event) ∷ calls) u = replay calls (passive callback event u).0

  pub replay-append :
      (xs ys : List (ℕ × Event Metadata Response)) (u : User)
      → replay (xs ++ ys) u ≡ replay ys (replay xs u)
  replay-append [] ys u = refl
  replay-append ((callback, event) ∷ xs) ys u = replay-append xs ys (passive callback event u).0

  module _ (u0 : User) where
    -- The user's state agrees with the log.
    abbrev Replayed : State E → Type 0
    Replayed c = c.user ≡ replay (callbacks_called c.log) u0

    obey-Replayed : (m : Command Arg Request) (c : State E) → Replayed c → Replayed (obey E m c).0
    unfolding obey start start_with send finish_send close on_headers on_message on_end
    obey-Replayed (Command.start md) c h = ground (arith, h)
    obey-Replayed (Command.send msg) c h = ground (arith, h)
    obey-Replayed Command.finish_send c h = ground (arith, h)
    obey-Replayed Command.close c h = ground (arith, h)
    obey-Replayed (Command.on_headers x) c h = h
    obey-Replayed (Command.on_message x) c h = h
    obey-Replayed (Command.on_end x) c h = h

    call_callback-Replayed :
        (callback : ℕ) (event : Event Metadata Response) (c : State E)
        → Replayed c
        → Replayed (call_callback E callback event c)
    unfolding call_callback run_script
    call_callback-Replayed callback event c h = rw (passive callback event c.user).1 (
        ap (λ u. (passive callback event u).0) h
        ∙ sym (replay-append (callbacks_called c.log) ((callback, event) ∷ []) u0))

    for_each-Replayed :
        (callbacks : List ℕ) (event : Event Metadata Response) (c : State E)
        → Replayed c
        → Replayed (for_each E callbacks event c)
    unfolding for_each
    for_each-Replayed [] event c h = h
    for_each-Replayed (x ∷ xs) event c h =
        for_each-Replayed xs event (call_callback E x event c) (call_callback-Replayed x event c h)

    for_each_open-Replayed :
        (callbacks : List ℕ) (event : Event Metadata Response) (c : State E)
        → Replayed c
        → Replayed (for_each_open E callbacks event c)
    unfolding for_each_open
    for_each_open-Replayed [] event c h = h
    for_each_open-Replayed (x ∷ xs) event c h =
        for_each_open-Replayed xs event _
          (if_keeps Replayed c.closed h (call_callback-Replayed x event c h))

    raw_on_end-Replayed :
        (code : Number) (msg : Text) (md : Metadata) (c : State E)
        → Replayed c
        → Replayed (raw_on_end E code msg md c)
    unfolding raw_on_end
    raw_on_end-Replayed code msg md c h =
        if_keeps Replayed c.completed h (for_each_open-Replayed _ _ _ h)

    raw_on_error-Replayed :
        (code : Number) (msg : Text) (md : Option Metadata) (c : State E)
        → Replayed c
        → Replayed (raw_on_error E code msg md c)
    unfolding raw_on_error
    raw_on_error-Replayed code msg md c h =
        if_keeps Replayed c.completed h (for_each_open-Replayed _ _ _ h)

    raw_on_headers-Replayed :
        (md : Metadata) (c : State E) → Replayed c → Replayed (raw_on_headers E md c)
    unfolding raw_on_headers
    raw_on_headers-Replayed md c h = if_keeps Replayed c.completed h (for_each-Replayed _ _ c h)

    raw_on_message-Replayed :
        (res : Response) (c : State E) → Replayed c → Replayed (raw_on_message E res c)
    unfolding raw_on_message
    raw_on_message-Replayed res c h =
        if_keeps Replayed (c.completed || c.closed) h (for_each_open-Replayed _ _ c h)

    Replayed-IsKept : IsKept E Replayed
    Replayed-IsKept = record {
      obeys = obey-Replayed;
      receives_headers = λ md c h. h;
      receives_trailers = λ md c h. h;
      parses = λ p c h. h;
      ends = raw_on_end-Replayed;
      fails = raw_on_error-Replayed;
      tells_headers = raw_on_headers-Replayed;
      tells_message = raw_on_message-Replayed;
    }

  -- Callbacks act on the user's state by their calls alone, in the order of the log.
  pub run-replay :
      (inputs : List (Input Metadata Arg Request)) (c : State E) (u0 : User)
      → c.user ≡ replay (callbacks_called c.log) u0
      → (run E inputs c).user ≡ replay (callbacks_called (run E inputs c).log) u0
  run-replay inputs c u0 h = run_keeps E _ (Replayed-IsKept u0) inputs c h
