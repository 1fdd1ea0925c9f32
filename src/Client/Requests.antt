-- ===== src/Client/Requests.antt =====
-- client.ts: the methods that the user calls, `start`, `send`, `finishSend`, `close` and those that
-- register callbacks. Each returns the new state, and the message of the error that it throws.
-- The calls of the transport stand last in their methods. They are taken to return.
use grpc_web.Prelude.{
  true, not, ◌&&◌, Option, none, some, [], ◌∷◌, ◌++◌, if◌then◌else◌, Text, text, ℕ, Result, ok,
  thrown,
}
use grpc_web.Client.Types.{
  Environment, State, Action, Command, transport_start, metadata_refused, transport_send,
  transport_finish_send, transport_cancel,
}
use grpc_web.Framing.{frame_request}

module _ (E : Environment) where
  open E use {Metadata, Arg, Request, Response, from_arg, set, serialize_binary, request_stream}

  abbrev pub record_action : Action Metadata Response → State E → State E
  record_action a c = record c { log = a ∷ c.log }

  -- The headers that `start` adds to the caller's.
  abbrev pub request_headers : Metadata → Metadata
  request_headers md =
      set (set md (text "content-type") (text "application/grpc-web+proto")) (text "x-grpc-web")
        (text "1")

  -- `start` behind the call of `new Metadata`, which leaves the client started when it throws.
  unfoldable pub start_with : Result Metadata → State E → State E × Option Text
  start_with (ok md) c = (record_action (transport_start (request_headers md)) c, none)
  start_with (thrown e) c = (record_action (metadata_refused e) c, some e)

  unfoldable pub start : Option Arg → State E → State E × Option Text
  start metadata c =
      if c.started
      then (c, some (text "Client already started - cannot .start()"))
      else start_with (from_arg metadata) (record c { started = true })

  unfoldable pub send : Request → State E → State E × Option Text
  send msg c =
      if not c.started
      then (c, some (text "Client not started - .start() must be called before .send()"))
      else if c.closed
      then (c, some (text "Client already closed - cannot .send()"))
      else if c.finished_sending
      then (c, some (text "Client already finished sending - cannot .send()"))
      else if not request_stream && c.sent_first_message
      then (c, some (text "Message already sent for non-client-streaming method - cannot .send()"))
      else (
        record_action (transport_send (frame_request (serialize_binary msg)))
            (record c { sent_first_message = true }),
        none,
      )

  unfoldable pub finish_send : State E → State E × Option Text
  finish_send c =
      if not c.started
      then (c, some (text "Client not started - .finishSend() must be called before .close()"))
      else if c.closed
      then (c, some (text "Client already closed - cannot .send()"))
      else if c.finished_sending
      then (c, some (text "Client already finished sending - cannot .finishSend()"))
      else (record_action transport_finish_send (record c { finished_sending = true }), none)

  unfoldable pub close : State E → State E × Option Text
  close c =
      if not c.started
      then (c, some (text "Client not started - .start() must be called before .close()"))
      else if c.closed
      then (c, some (text "Client already closed - cannot .close()"))
      else (record_action transport_cancel (record c { closed = true }), none)

  unfoldable pub on_headers : ℕ → State E → State E
  on_headers callback c = record c {
    on_headers_callbacks = c.on_headers_callbacks ++ callback ∷ [];
  }

  unfoldable pub on_message : ℕ → State E → State E
  on_message callback c = record c {
    on_message_callbacks = c.on_message_callbacks ++ callback ∷ [];
  }

  unfoldable pub on_end : ℕ → State E → State E
  on_end callback c = record c { on_end_callbacks = c.on_end_callbacks ++ callback ∷ [] }

  unfoldable pub obey : Command Arg Request → State E → State E × Option Text
  obey (Command.start metadata) c = start metadata c
  obey (Command.send msg) c = send msg c
  obey Command.finish_send c = finish_send c
  obey Command.close c = close c
  obey (Command.on_headers callback) c = (on_headers callback c, none)
  obey (Command.on_message callback) c = (on_message callback c, none)
  obey (Command.on_end callback) c = (on_end callback c, none)
