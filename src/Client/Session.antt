-- ===== src/Client/Session.antt =====
-- A client over its life: the calls of its user and of its transport, in any order.
use grpc_web.Prelude.{ℕ, Option, none, List, [], ◌∷◌, Text, Bytes}
use grpc_web.Client.Types.{Environment, State, Command}
use grpc_web.Client.Requests.{obey}
use grpc_web.Client.Responses.{on_transport_headers, on_transport_chunk, on_transport_end}

pub data Input (Md Arg Req : Type 0) : Type 0 where
  command : Command Arg Req → Input Md Arg Req
  transport_headers : Md → ℕ → Input Md Arg Req
  transport_chunk : Bytes → Input Md Arg Req
  transport_end : Input Md Arg Req

module _ (E : Environment) where
  open E use {Metadata, Arg, Request}

  -- One call, with the exception that it throws to its caller.
  unfoldable pub step : Input Metadata Arg Request → State E → State E × Option Text
  step (command m) c = obey E m c
  step (transport_headers md status) c = (on_transport_headers E md status c, none)
  step (transport_chunk bytes) c = on_transport_chunk E bytes c
  step transport_end c = (on_transport_end E c, none)

  unfoldable pub run : List (Input Metadata Arg Request) → State E → State E
  run [] c = c
  run (i ∷ inputs) c = run inputs (step i c).0
