-- ===== src/FakeTransport.antt =====
-- client/grpc-web-fake-transport/src/index.ts: the builder, and what the triggers of the fake transport
-- report to the client, as a list of the transport's calls, and what they return. FakeTransport/Session
-- is the transport in use, whose triggers ask for the transport to be invoked and which calls the
-- listeners of the tests.
pub mod Session
pub mod Whole
pub mod Exchange
pub mod Errors
pub mod Tests
use grpc_web.Prelude.{ℕ, Bool, true, false, Option, none, some, List, [], ◌∷◌, ◌++◌, map}
use grpc_web.Prelude.{if◌then◌else◌, Text, text, Bytes}
use grpc_web.Framing.{frame_response, frame_trailers}
use grpc_web.Client.Types.{Environment}
use grpc_web.Client.Session.{Input, transport_headers, transport_chunk, transport_end}

-- The fields of FakeTransportBuilder. A listener is a number; an error of the server is a
-- grpc-status, as `String(code)` writes it, and a message.
pub record FakeTransportBuilder (Md : Type 0) : Type 0 where
  pub request_listener : Option ℕ
  pub headers_listener : Option ℕ
  pub message_listener : Option ℕ
  pub finish_send_listener : Option ℕ
  pub cancel_listener : Option ℕ
  pub pre_headers_error_code : Option ℕ
  pub headers : Option Md
  pub pre_messages_error : Option (Text × Text)
  pub messages : List Bytes
  pub pre_trailers_error : Option (Text × Text)
  pub trailers : Option Md
  pub auto_trigger : Bool

-- A method that sets a field, and returns the builder.
abbrev Setter : Type 0 → Type 0 → Type 0
Setter Md A = A → FakeTransportBuilder Md → FakeTransportBuilder Md

-- The initial values of the fields, and the methods that set one.
module _ {Md : Type 0} where
  unfoldable pub new_builder : FakeTransportBuilder Md
  new_builder = record {
    request_listener = none;
    headers_listener = none;
    message_listener = none;
    finish_send_listener = none;
    cancel_listener = none;
    pre_headers_error_code = none;
    headers = none;
    pre_messages_error = none;
    messages = [];
    pre_trailers_error = none;
    trailers = none;
    auto_trigger = true;
  }

  unfoldable pub with_request_listener : Setter Md ℕ
  with_request_listener listener mock = record mock { request_listener = some listener }

  unfoldable pub with_headers_listener : Setter Md ℕ
  with_headers_listener listener mock = record mock { headers_listener = some listener }

  unfoldable pub with_message_listener : Setter Md ℕ
  with_message_listener listener mock = record mock { message_listener = some listener }

  unfoldable pub with_finish_send_listener : Setter Md ℕ
  with_finish_send_listener listener mock = record mock { finish_send_listener = some listener }

  unfoldable pub with_cancel_listener : Setter Md ℕ
  with_cancel_listener listener mock = record mock { cancel_listener = some listener }

  unfoldable pub with_pre_headers_error : Setter Md ℕ
  with_pre_headers_error http_status_code mock = record mock {
    pre_headers_error_code = some http_status_code;
  }

  unfoldable pub with_pre_messages_error : Setter Md (Text × Text)
  with_pre_messages_error error mock = record mock { pre_messages_error = some error }

  unfoldable pub with_pre_trailers_error : Setter Md (Text × Text)
  with_pre_trailers_error error mock = record mock { pre_trailers_error = some error }

  unfoldable pub with_headers : Setter Md Md
  with_headers md mock = record mock { headers = some md }

  unfoldable pub with_messages : Setter Md (List Bytes)
  with_messages messages mock = record mock { messages = messages }

  unfoldable pub with_trailers : Setter Md Md
  with_trailers md mock = record mock { trailers = some md }

  unfoldable pub with_manual_trigger : FakeTransportBuilder Md → FakeTransportBuilder Md
  with_manual_trigger mock = record mock { auto_trigger = false }

-- `entries` is forEach of a metadata object, `to_buffer` Node's Buffer from a string.
module _ (E : Environment) (entries : E.Metadata → List (Text × List Text))
    (to_buffer : Text → Bytes) where
  open E use {Metadata, Arg, Request, new_metadata, set}

  abbrev pub Calls : Type 0
  Calls = List (Input Metadata Arg Request)

  -- new grpc.Metadata({"grpc-status": ..., "grpc-message": ...}).
  abbrev pub error_metadata : Text × Text → Metadata
  error_metadata (status, message) =
      set (set new_metadata (text "grpc-status") status) (text "grpc-message") message

  abbrev pub or_new_metadata : Option Metadata → Metadata
  or_new_metadata none = new_metadata
  or_new_metadata (some md) = md

  unfoldable pub headers_calls : Option ℕ → Option Metadata → Calls × Bool
  headers_calls (some code) headers =
      (transport_headers new_metadata code ∷ transport_end ∷ [], false)
  headers_calls none headers = (transport_headers (or_new_metadata headers) 200 ∷ [], true)

  unfoldable pub send_headers : FakeTransportBuilder Metadata → Calls × Bool
  unfolding headers_calls
  send_headers mock = headers_calls mock.pre_headers_error_code mock.headers

  unfoldable pub messages_calls : Option (Text × Text) → List Bytes → Calls × Bool
  messages_calls (some error) messages =
      (transport_headers (error_metadata error) 200 ∷ transport_end ∷ [], false)
  messages_calls none messages = (map (λ m. transport_chunk (frame_response m)) messages, true)

  unfoldable pub send_messages : FakeTransportBuilder Metadata → Calls × Bool
  unfolding messages_calls
  send_messages mock = messages_calls mock.pre_messages_error mock.messages

  unfoldable pub trailers_calls : Option (Text × Text) → Option Metadata → Calls × Bool
  trailers_calls (some error) trailers = (
    transport_chunk (frame_trailers to_buffer (entries (error_metadata error)))
        ∷ transport_end
        ∷ [],
    false,
  )
  trailers_calls none trailers =
      let status_ok = set (or_new_metadata trailers) (text "grpc-status") (text "0") in
      (transport_chunk (frame_trailers to_buffer (entries status_ok)) ∷ transport_end ∷ [], true)

  unfoldable pub send_trailers : FakeTransportBuilder Metadata → Calls × Bool
  unfolding trailers_calls
  send_trailers mock = trailers_calls mock.pre_trailers_error mock.trailers

  -- A trigger, and the next ones if it returned true.
  abbrev pub and_if : Calls × Bool → Calls → Calls
  and_if (calls, go_on) later = if go_on then calls ++ later else calls

  unfoldable pub send_all : FakeTransportBuilder Metadata → Calls
  unfolding send_headers send_messages send_trailers
  send_all mock = and_if (send_headers mock) (and_if (send_messages mock) (send_trailers mock).0)
