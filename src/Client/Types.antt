-- ===== src/Client/Types.antt =====
-- client.ts: the fields of GrpcClient, what it calls, and what its callers may do.
-- `Environment` holds what is not this program's: the Metadata class (package browser-headers), the
-- generated message classes and method definition (service.ts), and the user's callbacks.
use grpc_web.Prelude.{ℕ, Bool, false, Option, none, List, [], Bytes, Text, text, ◌++◌, Result}
use grpc_web.ChunkParser.{Parser, new_parser}
use grpc_web.Js.Number.{Number}

-- What a callback is called with: those of onHeaders, of onMessage and of onEnd.
pub data Event (Md Resp : Type 0) : Type 0 where
  headers : Md → Event Md Resp
  message : Resp → Event Md Resp
  end : Number → Text → Md → Event Md Resp

-- A call of a method of the client. A callback that is registered is a number.
pub data Command (Arg Req : Type 0) : Type 0 where
  start : Option Arg → Command Arg Req
  send : Req → Command Arg Req
  finish_send : Command Arg Req
  close : Command Arg Req
  on_headers : ℕ → Command Arg Req
  on_message : ℕ → Command Arg Req
  on_end : ℕ → Command Arg Req

-- The body of a callback: it returns, leaving the user's state; throws; or calls a method of the
-- client and goes on, knowing whether that threw.
pub data Script (Arg Req User : Type 0) : Type 0 where
  return : User → Script Arg Req User
  throw : User → Text → Script Arg Req User
  call : Command Arg Req → (Option Text → Script Arg Req User) → Script Arg Req User

pub record Environment : Type 1 where
  pub Metadata : Type 0
  pub Arg : Type 0
  pub Request : Type 0
  pub Response : Type 0
  pub User : Type 0
  -- new Metadata(): no entry. new Metadata(metadata ? metadata : {}) and new Metadata(string), which
  -- may throw. new Metadata(metadata). And the methods `get` and `set`.
  pub new_metadata : Metadata
  pub from_arg : Option Arg → Result Metadata
  pub from_text : Text → Result Metadata
  pub copy : Metadata → Metadata
  pub get : Metadata → Text → List Text
  pub set : Metadata → Text → Text → Metadata
  -- The method definition: `serializeBinary` of a request, `responseType.deserializeBinary`, which
  -- may throw, and whether the method streams requests.
  pub serialize_binary : Request → Bytes
  pub deserialize_binary : Bytes → Result Response
  pub request_stream : Bool
  -- What a callback does, by its number, at an event.
  pub react : ℕ → Event Metadata Response → User → Script Arg Request User
  -- Whether the platform's typed arrays have `slice`.
  pub has_slice : Bool

-- What the client does to the outside: a call of a method of the transport; a call of `new Metadata`
-- by `start` that throws; a call of a callback; and an exception of a callback that is thrown again
-- from a timer.
pub data Action (Md Resp : Type 0) : Type 0 where
  transport_start : Md → Action Md Resp
  metadata_refused : Text → Action Md Resp
  transport_send : Bytes → Action Md Resp
  transport_finish_send : Action Md Resp
  transport_cancel : Action Md Resp
  called : ℕ → Event Md Resp → Action Md Resp
  later_throw : Text → Action Md Resp

-- The fields of GrpcClient, with the user's state, and the log of what was done, newest first.
pub record GrpcClient (Md Resp User : Type 0) : Type 0 where
  pub started : Bool
  pub sent_first_message : Bool
  pub completed : Bool
  pub closed : Bool
  pub finished_sending : Bool
  pub on_headers_callbacks : List ℕ
  pub on_message_callbacks : List ℕ
  pub on_end_callbacks : List ℕ
  pub parser : Parser
  pub response_headers : Option Md
  pub response_trailers : Option Md
  pub user : User
  pub log : List (Action Md Resp)

abbrev pub State : Environment → Type 0
State E = GrpcClient E.Metadata E.Response E.User

-- The initial values of the fields.
unfoldable pub new_client : (E : Environment) → E.User → State E
new_client E user = record {
  started = false;
  sent_first_message = false;
  completed = false;
  closed = false;
  finished_sending = false;
  on_headers_callbacks = [];
  on_message_callbacks = [];
  on_end_callbacks = [];
  parser = new_parser;
  response_headers = none;
  response_trailers = none;
  user = user;
  log = [];
}

-- The URL of `createTransport`.
pub request_url : Text → Text → Text → Text
request_url host service_name method_name =
    host ++ (text "/" ++ (service_name ++ (text "/" ++ method_name)))
