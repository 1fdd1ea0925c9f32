-- ===== src/Fetch/Exchange.antt =====
-- fetch.ts with client.ts: what a user is told of a response over fetch.
use grpc_web.Prelude.{
  ℕ, ◌<◌, ◌≡◌, refl, arith, ap, ◌∙◌, sym, true, false, none, some, List, [], ◌∷◌, ◌++◌,
}
use grpc_web.Prelude.{
  ◌==◌, Bool-cases, inl, inr, append_assoc, append-nil, map, Text, Bytes, ok, All, concat,
}
use grpc_web.ChunkParser.{new_parser, parse_trailer_data}
use grpc_web.ChunkParser.Frames.{FitsFrame}
use grpc_web.Framing.{frame_response, frame_trailers, header_block}
use grpc_web.Client.Types.{Environment, State, headers}
use grpc_web.Client.Responses.{get_status_from_headers, headers_code}
use grpc_web.Client.Session.{Input, transport_headers, transport_chunk, transport_end}
use grpc_web.Client.Session
use grpc_web.Client.Silence.{callbacks_called}
use grpc_web.Client.Passive.{IsPassive, told}
use grpc_web.Client.Outcome.{Deserializes, told_all, final_event, run-response}
use grpc_web.Js.Number.{Number, is_number}
use grpc_web.Fetch.{
  Action, fetch_post, read, reader_cancel, controller_abort, on_headers, on_chunk, on_end,
  on_end_error, Fetch, Outcome, done, value, start, send, pump, call_client, on_response, on_read,
}
use grpc_web.Fetch.Run.{started, sent, responded, was_read, step, Run, here, next}

-- A callback that returns and leaves the transport alone.
abbrev pub undisturbed : Outcome
undisturbed = record { cancels = false; throws = none }

-- The calls of the client in a log, the oldest first.
abbrev pub inputs_of : {Md Arg Req : Type 0} → List (Action Md) → List (Input Md Arg Req)
inputs_of [] = []
inputs_of (on_headers md status ∷ log) = inputs_of log ++ transport_headers md status ∷ []
inputs_of (on_chunk bytes ∷ log) = inputs_of log ++ transport_chunk bytes ∷ []
inputs_of (on_end ∷ log) = inputs_of log ++ transport_end ∷ []
inputs_of (on_end_error err ∷ log) = inputs_of log ++ transport_end ∷ []
inputs_of (fetch_post md bytes ∷ log) = inputs_of log
inputs_of (read ∷ log) = inputs_of log
inputs_of (reader_cancel ∷ log) = inputs_of log
inputs_of (controller_abort ∷ log) = inputs_of log

module _ {Md : Type 0} where
  abbrev pub read_all : List Bytes → Fetch Md → Fetch Md
  read_all [] x = x
  read_all (chunk ∷ chunks) x = read_all chunks (step (was_read (value chunk) undisturbed) x)

  -- A request of one message; a response; the chunks of its body; and the end of the body.
  abbrev pub exchange : Md → Bytes → Md → ℕ → List Bytes → Fetch Md → Fetch Md
  exchange metadata msg_bytes md status chunks x = step (was_read done undisturbed) (
      read_all chunks (
        step (responded md status true undisturbed)
          (step (sent msg_bytes) (step (started metadata) x))))

  -- A read is under way.
  record Reading (x : Fetch Md) : Type 0 where
    live : x.cancelled ≡ false
    waits : 0 < x.reads

  pump-Reading : (x : Fetch Md) → x.cancelled ≡ false → Reading (pump x)
  unfolding pump
  pump-Reading x h = rw h (record { live = refl; waits = omega arith })

  step-Reading :
      (chunk : Bytes) (x : Fetch Md)
      → Reading x
      → Reading (step (was_read (value chunk) undisturbed) x)
  unfolding step on_read call_client
  step-Reading chunk x r = pump-Reading _ r.live

  read_all-Reading : (chunks : List Bytes) (x : Fetch Md) → Reading x → Reading (read_all chunks x)
  read_all-Reading [] x r = r
  read_all-Reading (chunk ∷ chunks) x r = read_all-Reading chunks _ (step-Reading chunk x r)

  read_all-Run :
      (chunks : List Bytes) (x : Fetch Md) {y : Fetch Md}
      → Reading x
      → Run (read_all chunks x) y
      → Run x y
  read_all-Run [] x r run = run
  read_all-Run (chunk ∷ chunks) x r run =
      next (was_read (value chunk) undisturbed) r.waits
        (read_all-Run chunks _ (step-Reading chunk x r) run)

  exchange-Reading :
      (metadata : Md) (msg_bytes : Bytes) (md : Md) (status : ℕ) (x : Fetch Md)
      → x.cancelled ≡ false
      → Reading (
          step
            (responded md status true undisturbed)
            (step (sent msg_bytes) (step (started metadata) x)))
  unfolding step on_response call_client start send
  exchange-Reading metadata msg_bytes md status x h = pump-Reading _ h

  exchange-Run :
      (metadata : Md) (msg_bytes : Bytes) (md : Md) (status : ℕ) (chunks : List Bytes)
      (x : Fetch Md)
      → x.cancelled ≡ false
      → Run x (exchange metadata msg_bytes md status chunks x)
  unfolding step start send
  exchange-Run metadata msg_bytes md status chunks x h =
      let r = exchange-Reading metadata msg_bytes md status x h in
      next (started metadata) tt (
        next (sent msg_bytes) tt (
          next (responded md status true undisturbed) (omega arith) (
            read_all-Run chunks _ r
              (next (was_read done undisturbed) (read_all-Reading chunks _ r).waits here))))

module _ {Md Arg Req : Type 0} where
  abbrev reported : Fetch Md → List (Input Md Arg Req)
  reported x = inputs_of x.log

  reported-pump : (x : Fetch Md) → reported (pump x) ≡ reported x
  unfolding pump
  reported-pump x = elim (Bool-cases x.cancelled) [ inl h ↦ rw h refl | inr h ↦ rw h refl ]

  reported-read_all :
      (chunks : List Bytes) (x : Fetch Md)
      → reported (read_all chunks x) ≡ reported x ++ map transport_chunk chunks
  unfolding step on_read call_client
  reported-read_all [] x = sym (append-nil _)
  reported-read_all (chunk ∷ chunks) x =
      reported-read_all chunks _
      ∙ ap (λ r. r ++ map transport_chunk chunks) (reported-pump _)
      ∙ append_assoc (reported x) _ _

  reported-exchange :
      (metadata : Md) (msg_bytes : Bytes) (md : Md) (status : ℕ) (chunks : List Bytes)
      (x : Fetch Md)
      → x.log ≡ []
      → reported (exchange metadata msg_bytes md status chunks x)
        ≡ transport_headers md status ∷ map transport_chunk chunks ++ transport_end ∷ []
  unfolding step on_read call_client on_response start send
  reported-exchange metadata msg_bytes md status chunks x e =
      ap (λ r. r ++ transport_end ∷ [])
        (reported-read_all chunks _
          ∙ ap (λ r. r ++ map transport_chunk chunks)
              (reported-pump _ ∙ ap (λ log. inputs_of log ++ transport_headers md status ∷ []) e))

-- A transport that is not cancelled and has done nothing is started, sends one message, gets a response
-- with headers, an HTTP status other than 0 and the code OK, and reads a body of messages and trailers
-- with a grpc-status in chunks that are cut in any way, up to its end. This is a run of the
-- transport: each promise that settles is one that there is. What is reported runs on a client that
-- is neither closed nor complete and whose parser is new; its callbacks return and do not call it or
-- cancel the transport; `deserializeBinary` takes each message; the payloads and the trailer block
-- fit their length bytes, and the block is taken by `new Metadata`. Then the user is told the
-- headers, each message once, in order, and last the grpc-status, its decoded message and the
-- trailers; nothing else; and the request is complete.
pub exchange_lem :
    (E : Environment) (passive : IsPassive E) (metadata : E.Metadata) (msg_bytes : Bytes)
    (x : Fetch E.Metadata) (c : State E) (md trailer_md : E.Metadata) (status : ℕ)
    (grpc_status : Number) (payloads chunks : List Bytes) (rs : List E.Response)
    (to_buffer : Text → Bytes) (entries : List (Text × List Text))
    → x.cancelled ≡ false
    → x.log ≡ []
    → c.completed ≡ false
    → c.closed ≡ false
    → c.parser ≡ new_parser
    → (status == 0) ≡ false
    → is_number (headers_code (get_status_from_headers E md) status) 0 ≡ true
    → Deserializes E passive payloads rs
    → All FitsFrame payloads
    → FitsFrame (to_buffer (header_block entries))
    → parse_trailer_data E.from_text (to_buffer (header_block entries)) ≡ ok trailer_md
    → get_status_from_headers E (E.copy trailer_md) ≡ some grpc_status
    → concat chunks ≡ concat (map frame_response payloads) ++ frame_trailers to_buffer entries
    → let y = exchange metadata msg_bytes md status chunks x in
      let c' = Session.run E (inputs_of y.log) c in
      Run x y
      × ((callbacks_called c'.log
            ≡ callbacks_called c.log
              ++ (told c.on_headers_callbacks (headers md)
                  ++ (told_all E passive c.on_message_callbacks rs
                      ++ told c.on_end_callbacks
                          (final_event E passive grpc_status (E.copy trailer_md)))))
          × (c'.completed ≡ true))
exchange_lem E passive metadata msg_bytes x c md trailer_md status grpc_status payloads chunks rs
      to_buffer entries live fresh h k p z ok_code d fits fits' b s w =
    let inputs : List (Input E.Metadata E.Arg E.Request) =
      transport_headers md status ∷ map transport_chunk chunks ++ transport_end ∷ [] in
    let path : inputs_of (exchange metadata msg_bytes md status chunks x).log ≡ inputs =
      reported-exchange metadata msg_bytes md status chunks x fresh in
    (
      exchange-Run metadata msg_bytes md status chunks x live,
      rw path (
          run-response E passive c md trailer_md status grpc_status payloads chunks rs to_buffer
            entries h k p z ok_code d fits fits' b s w),
    )
