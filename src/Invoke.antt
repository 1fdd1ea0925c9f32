-- ===== src/Invoke.antt =====
-- client/grpc-web/src/invoke.ts: one message to a method that does not stream requests, as calls of
-- the client. Constructing the client is taken to return; starting it throws when `new Metadata` does.
pub mod Whole
use grpc_web.Prelude.{ℕ, Option, none, some, if◌then◌else◌, Text, text, Result, ok, thrown}
use grpc_web.Client.Types.{Environment, State, new_client}
use grpc_web.Client.Requests.{start, send, finish_send, close, on_headers, on_message, on_end}

-- InvokeRpcOptions, less the host and the transport. A callback that is given is a number.
pub record InvokeOptions (Arg Req : Type 0) : Type 0 where
  pub request : Req
  pub metadata : Option Arg
  pub on_headers : Option ℕ
  pub on_message : Option ℕ
  pub on_end : Option ℕ

-- `if (callback) { register(callback); }`
abbrev pub register_given : {A : Type 0} → (ℕ → A → A) → Option ℕ → A → A
register_given register none c = c
register_given register (some callback) c = register callback c

module _ (E : Environment) where
  open E use {Arg, Request, User, request_stream}

  -- What stands behind a call runs unless the call threw.
  abbrev pub and_then :
      State E × Option Text → (State E → State E × Option Text) → State E × Option Text
  and_then (c, none) go_on = go_on c
  and_then (c, some e) go_on = (c, some e)

  -- The three calls that make the request.
  unfoldable pub make_request : Option Arg → Request → State E → State E × Option Text
  make_request metadata request c =
      and_then (start E metadata c) (λ c'. and_then (send E request c') (finish_send E))

  abbrev pub returned : State E × Option Text → Result (State E)
  returned (c, none) = ok c
  returned (c, some e) = thrown e

  unfoldable pub register_callbacks : InvokeOptions Arg Request → State E → State E
  register_callbacks props c = register_given (on_end E) props.on_end (
      register_given (on_message E) props.on_message
        (register_given (on_headers E) props.on_headers c))

  -- The client that stands behind the Request that is returned.
  unfoldable pub invoke : InvokeOptions Arg Request → User → Result (State E)
  invoke props user =
      if request_stream
      then thrown
          (text ".invoke cannot be used with client-streaming methods. Use .client instead.")
      else returned
          (make_request props.metadata props.request (register_callbacks props (new_client E user)))

  -- The method `close` of the Request.
  unfoldable pub close_request : State E → State E × Option Text
  close_request c = close E c
