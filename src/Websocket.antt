-- ===== src/Websocket.antt =====
-- client/grpc-web/src/transports/websocket/websocket.ts: the transport over a WebSocket.
-- The socket is the browser's: its ready state and its events come from outside, what is done to it
-- goes into a log, newest first. Its `send` and `close` are taken to return.
pub mod Address
pub mod Order
pub mod Exchange
pub mod Tests
use grpc_web.Prelude.{
  ℕ, ◌+◌, ◌%◌, Bool, true, false, ◌||◌, Option, none, some, List, [], ◌∷◌, ◌++◌, map,
}
use grpc_web.Prelude.{
  length, take, drop, text_eq, if◌then◌else◌, Text, text, Bytes, Result, ok, thrown,
}
use grpc_web.ChunkParser.Ascii.{encode_ascii}
use grpc_web.Framing.{array_buffer, set_bytes, header_block}

-- What waits in `sendQueue`: the bytes of a message, or WebsocketSignal.FINISH_SEND.
pub data Signal : Type 0 where
  message : Bytes → Signal
  finish_send : Signal

pub data ReadyState : Type 0 where
  connecting open_state closing closed : ReadyState

pub data Action : Type 0 where
  new_socket : Text → Action
  socket_send : Bytes → Action
  socket_close : Action
  on_chunk : Bytes → Action
  on_end : Action

-- The variables that the closures of `websocketRequest` share; `ws` is undefined until `start`, and
-- the metadata is what `start` was given.
pub record Transport : Type 0 where
  pub address : Text
  pub send_queue : List Signal
  pub ws : Option ReadyState
  pub metadata : List (Text × List Text)
  pub log : List Action

-- `substr(0, n)` and `substr(n)` are `take` and `drop`.
unfoldable pub construct_websocket_address : Text → Result Text
construct_websocket_address url =
    if text_eq (take 8 url) (text "https://")
    then ok (text "wss://" ++ drop 8 url)
    else if text_eq (take 7 url) (text "http://")
    then ok (text "ws://" ++ drop 7 url)
    else thrown (text "Websocket transport constructed with non-https:// or http:// host.")

unfoldable pub websocket_request : Text → Result Transport
websocket_request url = elim (construct_websocket_address url) [
  | ok address ↦
      ok (record { address = address; send_queue = []; ws = none; metadata = []; log = [] })
  | thrown e ↦ thrown e
]

abbrev pub finish_send_frame : Bytes
finish_send_frame = 1 ∷ []

-- The bytes that go out for an entry of the queue: a message gets a 0 in front.
unfoldable pub socket_bytes : Signal → Bytes
socket_bytes finish_send = finish_send_frame
socket_bytes (message byte_array) =
    let c = array_buffer (length byte_array + 1) in
    let marked = set_bytes c 0 (0 ∷ []) in set_bytes marked 1 byte_array

unfoldable pub send_to_websocket : Signal → Transport → Transport
send_to_websocket to_send t = record t { log = socket_send (socket_bytes to_send) ∷ t.log }

-- `!ws || ws.readyState === ws.CONNECTING`
abbrev pub is_waiting : Option ReadyState → Bool
is_waiting none = true
is_waiting (some connecting) = true
is_waiting (some _) = false

unfoldable pub send_message : Bytes → Transport → Transport
send_message msg_bytes t =
    if is_waiting t.ws
    then record t { send_queue = t.send_queue ++ message msg_bytes ∷ [] }
    else send_to_websocket (message msg_bytes) t

unfoldable pub finish_sending : Transport → Transport
finish_sending t =
    if is_waiting t.ws
    then record t { send_queue = t.send_queue ++ finish_send ∷ [] }
    else send_to_websocket finish_send t

unfoldable pub start : List (Text × List Text) → Transport → Transport
start metadata t = record t {
  ws = some connecting;
  metadata = metadata;
  log = new_socket t.address ∷ t.log;
}

-- `close` leaves a socket closing, unless it is closed already.
abbrev pub closing_from : ReadyState → ReadyState
closing_from closed = closed
closing_from _ = closing

-- `none` is the TypeError of `ws.close()` before `start`, when `ws` is undefined.
cancel_socket : Option ReadyState → Transport → Option Transport
cancel_socket none t = none
cancel_socket (some state) t =
    some (record t { ws = some (closing_from state); log = socket_close ∷ t.log })

pub cancel : Transport → Option Transport
unfolding cancel_socket
cancel t = cancel_socket t.ws t

unfoldable pub headers_to_bytes : List (Text × List Text) → Result Bytes
headers_to_bytes entries = encode_ascii (header_block entries)

-- The loop `sendQueue.forEach(...)`.
unfoldable pub send_all : List Signal → Transport → Transport
send_all [] t = t
send_all (to_send ∷ queue) t = send_all queue (send_to_websocket to_send t)

-- What `onopen` does once the headers are encoded: an exception leaves it before anything is sent.
unfoldable pub send_opening : Result Bytes → Transport → Transport × Option Text
send_opening (thrown e) t = (t, some e)
send_opening (ok bytes) t =
    (send_all t.send_queue (record t { log = socket_send bytes ∷ t.log }), none)

-- The socket is open when it fires `onopen`.
unfoldable pub onopen : Transport → Transport × Option Text
onopen t = send_opening (headers_to_bytes t.metadata) (record t { ws = some open_state })

unfoldable pub onclose : Transport → Transport
onclose t = record t { ws = some closed; log = on_end ∷ t.log }

unfoldable pub onmessage : Bytes → Transport → Transport
onmessage received t = record t { log = on_chunk received ∷ t.log }
