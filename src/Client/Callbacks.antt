-- ===== src/Client/Callbacks.antt =====
-- client.ts: how callbacks are called, `rawOnHeaders`, `rawOnMessage`, `rawOnEnd`, `rawOnError`.
-- A callback may call the client's methods. forEach visits those that are registered when it begins.
use grpc_web.Prelude.{ℕ, true, ◌||◌, Option, none, some, List, [], ◌∷◌, if◌then◌else◌, Text}
use grpc_web.Client.Types.{
  Environment, State, Event, Script, return, throw, call, called, later_throw, headers, message,
  end,
}
use grpc_web.Client.Requests.{record_action, obey}
use grpc_web.Js.Number.{Number}

module _ (E : Environment) where
  open E use {Metadata, Arg, Request, Response, User, new_metadata, react}

  -- The body of a callback: the state that it leaves, and its exception.
  unfoldable pub run_script : Script Arg Request User → State E → State E × Option Text
  run_script (return user) c = (record c { user = user }, none)
  run_script (throw user e) c = (record c { user = user }, some e)
  run_script (call command go_on) c = let (c', e) = obey E command c in run_script (go_on e) c'

  abbrev pub rethrow_later : State E × Option Text → State E
  rethrow_later (c, none) = c
  rethrow_later (c, some e) = record_action E (later_throw e) c

  -- `try { callback(...) } catch (e) { setTimeout(() => { throw e; }, 0) }`
  unfoldable pub call_callback : ℕ → Event Metadata Response → State E → State E
  call_callback callback event c =
      rethrow_later
        (run_script (react callback event c.user) (record_action E (called callback event) c))

  -- The loop of `rawOnHeaders`.
  unfoldable pub for_each : List ℕ → Event Metadata Response → State E → State E
  for_each [] event c = c
  for_each (callback ∷ callbacks) event c =
      for_each callbacks event (call_callback callback event c)

  -- The loop of the other three: `if (this.closed) return;` stands first in its body.
  unfoldable pub for_each_open : List ℕ → Event Metadata Response → State E → State E
  for_each_open [] event c = c
  for_each_open (callback ∷ callbacks) event c =
      for_each_open callbacks event (if c.closed then c else call_callback callback event c)

  unfoldable pub raw_on_end : Number → Text → Metadata → State E → State E
  raw_on_end code msg trailers c =
      if c.completed
      then c
      else for_each_open c.on_end_callbacks (end code msg trailers) (record c { completed = true })

  unfoldable pub raw_on_headers : Metadata → State E → State E
  raw_on_headers md c = if c.completed then c else for_each c.on_headers_callbacks (headers md) c

  -- The default of an argument that is left out: `trailers: Metadata = new Metadata()`.
  abbrev pub or_new : Option Metadata → Metadata
  or_new none = new_metadata
  or_new (some md) = md

  unfoldable pub raw_on_error : Number → Text → Option Metadata → State E → State E
  raw_on_error code msg trailers c =
      if c.completed
      then c
      else for_each_open c.on_end_callbacks (end code msg (or_new trailers))
          (record c { completed = true })

  unfoldable pub raw_on_message : Response → State E → State E
  raw_on_message res c =
      if c.completed || c.closed then c else for_each_open c.on_message_callbacks (message res) c
