-- ===== src/Fetch.antt =====
-- client/grpc-web/src/transports/http/fetch.ts: the transport over fetch and its body's reader.
-- Promises are the browser's: the record counts those of `fetch` and of `reader.read()` that have not
-- settled, and an event settles one. What is done to the outside is in a log, newest first.
pub mod Run
pub mod Cancel
pub mod Exchange
pub mod Tests
use grpc_web.Prelude.{ℕ, ◌+◌, ◌-◌, Bool, true, false, Option, none, some, List, [], ◌∷◌}
use grpc_web.Prelude.{if◌then◌else◌, Text, Bytes}

pub data Action (Md : Type 0) : Type 0 where
  fetch_post : Option Md → Bytes → Action Md
  read : Action Md
  reader_cancel : Action Md
  controller_abort : Action Md
  on_headers : Md → ℕ → Action Md
  on_chunk : Bytes → Action Md
  on_end : Action Md
  on_end_error : Text → Action Md

-- The fields of the class; `reader` and `controller` by whether they are there.
pub record Fetch (Md : Type 0) : Type 0 where
  pub cancelled : Bool
  pub has_reader : Bool
  pub has_controller : Bool
  pub metadata : Option Md
  pub fetches : ℕ
  pub reads : ℕ
  pub log : List (Action Md)

-- What a callback of the client does that matters here: it may cancel the transport, and it may
-- throw.
pub record Outcome : Type 0 where
  pub cancels : Bool
  pub throws : Option Text

-- How a promise of `reader.read()` is fulfilled.
pub data ReadResult : Type 0 where
  done : ReadResult
  value : Bytes → ReadResult

module _ {Md : Type 0} where
  abbrev pub record_action : Action Md → Fetch Md → Fetch Md
  record_action a x = record x { log = a ∷ x.log }

  unfoldable pub new_fetch : Bool → Fetch Md
  new_fetch has_controller = record {
    cancelled = false;
    has_reader = false;
    has_controller = has_controller;
    metadata = none;
    fetches = 0;
    reads = 0;
    log = [];
  }

  abbrev abort_controller : Fetch Md → Fetch Md
  abort_controller x = if x.has_controller then record_action controller_abort x else x

  abbrev cancel_reader : Fetch Md → Fetch Md
  cancel_reader x = if x.has_reader then record_action reader_cancel x else x

  unfoldable pub cancel : Fetch Md → Fetch Md
  cancel x =
      if x.cancelled then x else cancel_reader (abort_controller (record x { cancelled = true }))

  unfoldable pub start : Md → Fetch Md → Fetch Md
  start metadata x = record x { metadata = some metadata }

  unfoldable pub send : Bytes → Fetch Md → Fetch Md
  send msg_bytes x =
      record_action (fetch_post x.metadata msg_bytes) (record x { fetches = x.fetches + 1 })

  -- Both handlers of `.catch(err => ...)`.
  unfoldable pub catch_error : Text → Fetch Md → Fetch Md
  catch_error err x =
      if x.cancelled then x else record_action (on_end_error err) (record x { cancelled = true })

  -- The reader is kept; it is cancelled at once if the request was, or read from.
  unfoldable pub pump : Fetch Md → Fetch Md
  pump x =
      let kept : Fetch Md = record x { has_reader = true } in
      if x.cancelled
      then record_action reader_cancel kept
      else record_action read (record kept { reads = x.reads + 1 })

  -- A callback of the client, then the rest of the handler, unless the callback throws.
  abbrev pub go_on_or_catch : Option Text → (Fetch Md → Fetch Md) → Fetch Md → Fetch Md
  go_on_or_catch none go_on x = go_on x
  go_on_or_catch (some err) go_on x = catch_error err x

  unfoldable pub call_client : Action Md → Outcome → (Fetch Md → Fetch Md) → Fetch Md → Fetch Md
  call_client callback outcome go_on x =
      let called = record_action callback x in
      let after = if outcome.cancels then cancel called else called in
      go_on_or_catch outcome.throws go_on after

  -- The handler of a response: `has_body` is `res.body`.
  unfoldable pub on_response : Md → ℕ → Bool → Outcome → Fetch Md → Fetch Md
  on_response headers status has_body outcome x =
      call_client (on_headers headers status) outcome (λ y. if has_body then pump y else y) x

  unfoldable pub on_read : ReadResult → Outcome → Fetch Md → Fetch Md
  on_read done outcome x = call_client on_end outcome (λ y. y) x
  on_read (value bytes) outcome x = call_client (on_chunk bytes) outcome pump x
