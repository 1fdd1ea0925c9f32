-- ===== src/Fetch/Run.antt =====
-- fetch.ts: the events of a transport's life, in any order in which promises can settle.
use grpc_web.Prelude.{ℕ, ◌-◌, ◌<◌, Bool, Text, Bytes}
use grpc_web.Fetch.{
  Fetch, Outcome, ReadResult, start, send, cancel, on_response, catch_error, on_read,
}

pub data Event (Md : Type 0) : Type 0 where
  started : Md → Event Md
  sent : Bytes → Event Md
  cancelled : Event Md
  responded : Md → ℕ → (has_body : Bool) → Outcome → Event Md
  fetch_failed : Text → Event Md
  was_read : ReadResult → Outcome → Event Md
  read_failed : Text → Event Md

module _ {Md : Type 0} where
  -- A promise settles only if there is one.
  abbrev pub Can : Event Md → Fetch Md → Type 0
  Can (responded headers status has_body outcome) x = 0 < x.fetches
  Can (fetch_failed err) x = 0 < x.fetches
  Can (was_read result outcome) x = 0 < x.reads
  Can (read_failed err) x = 0 < x.reads
  Can _ x = Unit

  unfoldable pub step : Event Md → Fetch Md → Fetch Md
  step (started md) x = start md x
  step (sent bytes) x = send bytes x
  step cancelled x = cancel x
  step (responded headers status has_body outcome) x =
      on_response headers status has_body outcome (record x { fetches = x.fetches - 1 })
  step (fetch_failed err) x = catch_error err (record x { fetches = x.fetches - 1 })
  step (was_read result outcome) x = on_read result outcome (record x { reads = x.reads - 1 })
  step (read_failed err) x = catch_error err (record x { reads = x.reads - 1 })

  pub data Run : Fetch Md → Fetch Md → Type 0 where
    here : {x : Fetch Md} → Run x x
    next : {x y : Fetch Md} → (e : Event Md) → Can e x → Run (step e x) y → Run x y
