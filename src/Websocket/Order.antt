-- ===== src/Websocket/Order.antt =====
-- websocket.ts: what goes over the socket, and in which order.
use grpc_web.Prelude.{
  ℕ, ◌≡◌, refl, ap, ◌∙◌, sym, true, false, none, some, List, [], ◌∷◌, ◌++◌, map, append_assoc,
  append-nil,
}
use grpc_web.Prelude.{length, Text, Bytes, ok, thrown, if-true, if-false}
use grpc_web.Websocket.{
  Signal, message, finish_send, connecting, open_state, Action, new_socket, socket_send,
  socket_close, on_chunk, on_end, Transport, socket_bytes, send_to_websocket, is_waiting,
  send_message, finish_sending, start, headers_to_bytes, send_all, send_opening, onopen,
}
use mathlib.Core.List.{map-append}
use grpc_web.Framing.{array_buffer, set_bytes}
use grpc_web.Prelude.{suc, ◌+◌, arith, take, drop, drop-all, length-replicate}

-- The calls of `sendMessage` and `finishSend`, one after the other.
abbrev pub issue : Signal → Transport → Transport
issue (message bytes) t = send_message bytes t
issue finish_send t = finish_sending t

abbrev pub issue_all : List Signal → Transport → Transport
issue_all [] t = t
issue_all (s ∷ signals) t = issue_all signals (issue s t)

-- What went over the socket, the oldest first.
abbrev pub socket_sent : List Action → List Bytes
socket_sent [] = []
socket_sent (socket_send bytes ∷ log) = socket_sent log ++ bytes ∷ []
socket_sent (new_socket address ∷ log) = socket_sent log
socket_sent (socket_close ∷ log) = socket_sent log
socket_sent (on_chunk bytes ∷ log) = socket_sent log
socket_sent (on_end ∷ log) = socket_sent log

-- A message goes out with a 0 in front of its bytes, the end of sending as a single 1.
socket_bytes_lem :
    (bytes : Bytes)
    → (socket_bytes (message bytes) ≡ 0 ∷ bytes) × (socket_bytes finish_send ≡ 1 ∷ [])
unfolding socket_bytes set_bytes
socket_bytes_lem bytes =
    let n = length bytes in
    let tail : drop (1 + n) (0 ∷ array_buffer n) ≡ [] =
      ap (λ k. drop k (0 ∷ array_buffer n)) {y = suc n} (omega arith)
      ∙ drop-all n (array_buffer n) (omega (arith, length-replicate {A = ℕ} n 0)) in
    (
      ap
            (λ z.
              take 1 (take 0 z ++ 0 ∷ [] ++ drop 1 z)
              ++ bytes
              ++ drop (1 + n) (take 0 z ++ 0 ∷ [] ++ drop 1 z))
            {y = 0 ∷ array_buffer n} (ap array_buffer {y = suc n} (omega arith))
          ∙ ap (λ z. 0 ∷ bytes ++ z) tail
          ∙ ap (λ z. 0 ∷ z) (append-nil bytes),
      refl,
    )

issue_waiting_one :
    (s : Signal) (t : Transport)
    → is_waiting t.ws ≡ true
    → issue s t ≡ record t { send_queue = t.send_queue ++ s ∷ [] }
unfolding send_message finish_sending
issue_waiting_one (message bytes) t h = if-true _ _ h
issue_waiting_one finish_send t h = if-true _ _ h

-- While there is no open socket the calls wait in the queue, and nothing is sent.
issue_waiting :
    (signals : List Signal) (t : Transport)
    → is_waiting t.ws ≡ true
    → issue_all signals t ≡ record t { send_queue = t.send_queue ++ signals }
issue_waiting [] t h = ap (λ q. record t { send_queue = q }) (sym (append-nil t.send_queue))
issue_waiting (s ∷ signals) t h =
    ap (issue_all signals) (issue_waiting_one s t h)
    ∙ issue_waiting signals (record t { send_queue = t.send_queue ++ s ∷ [] }) h
    ∙ ap (λ q. record t { send_queue = q }) (append_assoc t.send_queue (s ∷ []) signals)

issue_open_one :
    (s : Signal) (t : Transport) → is_waiting t.ws ≡ false → issue s t ≡ send_to_websocket s t
unfolding send_message finish_sending
issue_open_one (message bytes) t h = if-false _ _ h
issue_open_one finish_send t h = if-false _ _ h

-- On a socket that is not connecting the calls go out at once.
issue_open :
    (signals : List Signal) (t : Transport)
    → is_waiting t.ws ≡ false
    → socket_sent (issue_all signals t).log ≡ socket_sent t.log ++ map socket_bytes signals
unfolding send_to_websocket
issue_open [] t h = sym (append-nil _)
issue_open (s ∷ signals) t h =
    ap (λ o. socket_sent (issue_all signals o).log) (issue_open_one s t h)
    ∙ issue_open signals (record t { log = socket_send (socket_bytes s) ∷ t.log }) h
    ∙ append_assoc (socket_sent t.log) (socket_bytes s ∷ []) (map socket_bytes signals)

send_all-socket_sent :
    (queue : List Signal) (t : Transport)
    → (socket_sent (send_all queue t).log ≡ socket_sent t.log ++ map socket_bytes queue)
      × ((send_all queue t).ws ≡ t.ws)
unfolding send_all send_to_websocket
send_all-socket_sent [] t = (sym (append-nil _), refl)
send_all-socket_sent (s ∷ queue) t =
    let (e, w) =
      send_all-socket_sent queue (record t { log = socket_send (socket_bytes s) ∷ t.log }) in
    (e ∙ append_assoc (socket_sent t.log) (socket_bytes s ∷ []) (map socket_bytes queue), w)

-- The calls before the socket opens: they wait in the queue of a transport that was started.
waiting_queue :
    (pre mid : List Signal) (md : List (Text × List Text)) (t : Transport)
    → t.ws ≡ none
    → issue_all mid (start md (issue_all pre t)) ≡ record t {
      send_queue = (t.send_queue ++ pre) ++ mid;
      ws = some connecting;
      metadata = md;
      log = new_socket t.address ∷ t.log;
    }
unfolding start
waiting_queue pre mid md t h =
    ap (λ o. issue_all mid (start md o)) (issue_waiting pre t (ap is_waiting h))
    ∙ issue_waiting mid
        (record t {
          send_queue = t.send_queue ++ pre;
          ws = some connecting;
          metadata = md;
          log = new_socket t.address ∷ t.log;
        })
        refl

-- The whole of a call on a transport with no socket: `pre` is issued before `start`, `mid` before
-- the socket opens, `post` behind that. When the headers can be encoded, opening throws nothing,
-- and what the socket is sent is the headers first and then a frame for each entry of the queue
-- and each of the calls, in their order.
pub run_order :
    (pre mid post : List Signal) (md : List (Text × List Text)) (t : Transport) (header : Bytes)
    → t.ws ≡ none
    → headers_to_bytes md ≡ ok header
    → (let opened = onopen (issue_all mid (start md (issue_all pre t))) in
        (opened.1 ≡ none)
        × (socket_sent (issue_all post opened.0).log
            ≡ socket_sent t.log
              ++ header ∷ map socket_bytes (((t.send_queue ++ pre) ++ mid) ++ post)))
unfolding onopen send_opening
run_order pre mid post md t header h e =
    let queue = (t.send_queue ++ pre) ++ mid in
    let waits : Transport = record t {
      send_queue = queue;
      ws = some connecting;
      metadata = md;
      log = new_socket t.address ∷ t.log;
    } in
    let sending : Transport = record waits {
      ws = some open_state;
      log = socket_send header ∷ waits.log;
    } in
    let opening : onopen (issue_all mid (start md (issue_all pre t)))
        ≡ (send_all queue sending, none) =
      ap onopen (waiting_queue pre mid md t h)
      ∙ ap (λ r. send_opening r (record waits { ws = some open_state })) e in
    let (sent, w) = send_all-socket_sent queue sending in
    (
      ap (λ o. o.1) opening,
      ap (λ o. socket_sent (issue_all post o.0).log) opening
          ∙ issue_open post (send_all queue sending) (ap is_waiting w)
          ∙ ap (λ l. l ++ map socket_bytes post) sent
          ∙ append_assoc (socket_sent sending.log) (map socket_bytes queue) (map socket_bytes post)
          ∙ ap (λ l. socket_sent sending.log ++ l) (sym (map-append socket_bytes queue post))
          ∙ append_assoc (socket_sent t.log) (header ∷ []) (map socket_bytes (queue ++ post)),
    )

-- The same on metadata that cannot be encoded: opening throws that error, and what was issued
-- before it is never sent. The socket gets only the frames of the calls behind it, with no headers
-- in front of them.
pub run_order_thrown :
    (pre mid post : List Signal) (md : List (Text × List Text)) (t : Transport) (error : Text)
    → t.ws ≡ none
    → headers_to_bytes md ≡ thrown error
    → (let opened = onopen (issue_all mid (start md (issue_all pre t))) in
        (opened.1 ≡ some error)
        × (socket_sent (issue_all post opened.0).log ≡ socket_sent t.log ++ map socket_bytes post))
unfolding onopen send_opening
run_order_thrown pre mid post md t error h e =
    let waits : Transport = record t {
      send_queue = (t.send_queue ++ pre) ++ mid;
      ws = some connecting;
      metadata = md;
      log = new_socket t.address ∷ t.log;
    } in
    let opened : Transport = record waits { ws = some open_state } in
    let opening : onopen (issue_all mid (start md (issue_all pre t))) ≡ (opened, some error) =
      ap onopen (waiting_queue pre mid md t h) ∙ ap (λ r. send_opening r opened) e in
    (
      ap (λ o. o.1) opening,
      ap (λ o. socket_sent (issue_all post o.0).log) opening ∙ issue_open post opened refl,
    )
