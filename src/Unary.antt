-- ===== src/Unary.antt =====
-- client/grpc-web/src/unary.ts: one message there and one back, as calls of the client. Constructing
-- the client is taken to return; starting it throws when `new Metadata` does.
pub mod Output
pub mod Tests
use grpc_web.Prelude.{ℕ, Bool, Option, none, some, if◌then◌else◌, Text, text, Result, thrown}
use grpc_web.Client.Types.{
  Environment, State, Event, Script, return, throw, call, headers, message, end, new_client,
}
use grpc_web.Client.Requests.{on_headers, on_message, on_end}
use grpc_web.Client.Callbacks.{or_new}
use grpc_web.Invoke.{make_request, returned}
use grpc_web.Js.Number.{Number}

pub record UnaryOutput (Md Resp : Type 0) : Type 0 where
  pub status : Number
  pub status_message : Text
  pub headers : Md
  pub message : Option Resp
  pub trailers : Md

-- The variables that the three callbacks share, and the state of the user's own callback.
pub record Variables (Md Resp User : Type 0) : Type 0 where
  pub response_headers : Option Md
  pub response_message : Option Resp
  pub user : User

-- The user's callback runs beside the variables, which it cannot reach.
abbrev pub beside :
    {Arg Req Md Resp User : Type 0}
    → Script Arg Req User
    → Variables Md Resp User
    → Script Arg Req (Variables Md Resp User)
beside (return user) v = return (record v { user = user })
beside (throw user e) v = throw (record v { user = user }) e
beside (call command go_on) v = call command (λ e. beside (go_on e) v)

module _ (E : Environment)
    (props_on_end : UnaryOutput E.Metadata E.Response
      → E.User
      → Script E.Arg E.Request E.User) where
  open E use {Metadata, Arg, Request, Response, User}

  -- The callbacks of `unary`, which registers one of each kind.
  abbrev pub unary_react :
      Event Metadata Response
      → Variables Metadata Response User
      → Script Arg Request (Variables Metadata Response User)
  unary_react (headers md) v = return (record v { response_headers = some md })
  unary_react (message res) v = return (record v { response_message = some res })
  unary_react (end status status_message trailers) v =
      beside
        (props_on_end
          (record {
            status = status;
            status_message = status_message;
            headers = or_new E v.response_headers;
            message = v.response_message;
            trailers = trailers;
          })
          v.user)
        v

  abbrev pub unary_environment : Environment
  unary_environment = record {
    Metadata = Metadata;
    Arg = Arg;
    Request = Request;
    Response = Response;
    User = Variables Metadata Response User;
    new_metadata = E.new_metadata;
    from_arg = E.from_arg;
    from_text = E.from_text;
    copy = E.copy;
    get = E.get;
    set = E.set;
    serialize_binary = E.serialize_binary;
    deserialize_binary = E.deserialize_binary;
    request_stream = E.request_stream;
    react = λ callback event v. unary_react event v;
    has_slice = E.has_slice;
  }

  -- The client that stands behind the Request that is returned.
  unfoldable pub unary : Bool → Option Arg → Request → User → Result (State unary_environment)
  unary response_stream metadata request user =
      if response_stream
      then thrown (
          text
            ".unary cannot be used with server-streaming methods. Use .invoke or .client instead.")
      else if E.request_stream
      then thrown (text ".unary cannot be used with client-streaming methods. Use .client instead.")
      else (let c =
            new_client unary_environment
              (record { response_headers = none; response_message = none; user = user }) in
          returned unary_environment (
            make_request unary_environment metadata request (
              on_end unary_environment 2
                (on_message unary_environment 1 (on_headers unary_environment 0 c)))))
