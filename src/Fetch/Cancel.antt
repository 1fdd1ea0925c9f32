-- ===== src/Fetch/Cancel.antt =====
-- fetch.ts: errors are told once, and what can still arrive behind a cancellation.
use grpc_web.Prelude.{ℕ, ◌+◌, ◌≤◌, ◌≡◌, ◌∙◌, refl, arith, Bool, true, false, List, [], ◌∷◌}
use grpc_web.Fetch.{
  Action, on_chunk, on_end_error, Fetch, done, value, new_fetch, cancel, start, send, catch_error,
  pump, call_client, on_response, on_read,
}
use grpc_web.Fetch.Run.{
  Event, started, sent, cancelled, responded, fetch_failed, was_read, read_failed, Can, step, Run,
  here, next,
}

-- How often the log tells the client an error.
abbrev pub errors_told : {Md : Type 0} → List (Action Md) → ℕ
errors_told [] = 0
errors_told (on_end_error err ∷ log) = 1 + errors_told log
errors_told (_ ∷ log) = errors_told log

abbrev pub chunks_told : {Md : Type 0} → List (Action Md) → ℕ
chunks_told [] = 0
chunks_told (on_chunk bytes ∷ log) = 1 + chunks_told log
chunks_told (_ ∷ log) = chunks_told log

module _ {Md : Type 0} where
  -- Behind a cancellation: no error is added, and no more chunks than reads that are waited for.
  pub record Settles (x y : Fetch Md) : Type 0 where
    pub stays : y.cancelled ≡ true
    pub errors : errors_told y.log ≡ errors_told x.log
    pub chunks : chunks_told y.log + y.reads ≤ chunks_told x.log + x.reads

  step-Settles : (e : Event Md) (x : Fetch Md) → x.cancelled ≡ true → Can e x → Settles x (step e x)
  unfolding step start send cancel on_response catch_error on_read call_client pump
  step-Settles (started md) x h c = record { stays = h; errors = refl; chunks = omega arith }
  step-Settles (sent bytes) x h c = record { stays = h; errors = refl; chunks = omega arith }
  step-Settles cancelled x h c = record {
    stays = ground (arith, h);
    errors = ground (arith, h);
    chunks = ground (arith, h);
  }
  step-Settles (responded md status has_body outcome) x h c = record {
    stays = ground (arith, h);
    errors = ground (arith, h);
    chunks = ground (arith, h);
  }
  step-Settles (fetch_failed err) x h c = record {
    stays = ground (arith, h);
    errors = ground (arith, h);
    chunks = ground (arith, h);
  }
  step-Settles (was_read done outcome) x h c = record {
    stays = ground (arith, h);
    errors = ground (arith, h);
    chunks = ground (arith, h);
  }
  step-Settles (was_read (value bytes) outcome) x h c = record {
    stays = ground (arith, h);
    errors = ground (arith, h);
    chunks = ground (arith, h);
  }
  step-Settles (read_failed err) x h c = record {
    stays = ground (arith, h);
    errors = ground (arith, h);
    chunks = ground (arith, h);
  }

  run-Settles : {x y : Fetch Md} → Run x y → x.cancelled ≡ true → Settles x y
  run-Settles here h = record { stays = h; errors = refl; chunks = omega arith }
  run-Settles {x} (next e c run) h =
      let a = step-Settles e x h c in
      let b = run-Settles run a.stays in
      record {
        stays = b.stays;
        errors = b.errors ∙ a.errors;
        chunks = omega (arith, a.chunks, b.chunks);
      }

  cancel-cancelled : (x : Fetch Md) → Settles (record x { cancelled = true }) (cancel x)
  unfolding cancel
  cancel-cancelled x = record { stays = ground arith; errors = ground arith; chunks = ground arith }

  -- Whatever happens behind a cancellation, in any order in which promises can settle: the client is
  -- told no error any more, and it gets at most one more chunk for each read that was under way.
  pub cancel-run :
      (x : Fetch Md) {y : Fetch Md}
      → Run (cancel x) y
      → (errors_told y.log ≡ errors_told x.log) × (chunks_told y.log ≤ chunks_told x.log + x.reads)
  cancel-run x run =
      let a = cancel-cancelled x in
      let b = run-Settles run a.stays in (b.errors ∙ a.errors, omega (arith, a.chunks, b.chunks))

  -- An error that was told has cancelled the transport.
  record Once (x : Fetch Md) : Type 0 where
    open_quiet : x.cancelled ≡ false → errors_told x.log ≡ 0
    most : errors_told x.log ≤ 1

  step-Once : (e : Event Md) (x : Fetch Md) → Once x → Once (step e x)
  unfolding step start send cancel on_response catch_error on_read call_client pump
  step-Once (started md) x h = record { open_quiet = h.open_quiet; most = h.most }
  step-Once (sent bytes) x h = record { open_quiet = h.open_quiet; most = h.most }
  step-Once cancelled x h = record {
    open_quiet = ground (arith, h.open_quiet);
    most = ground (arith, h.most);
  }
  step-Once (responded md status has_body outcome) x h = record {
    open_quiet = ground (arith, h.open_quiet);
    most = ground (arith, h.open_quiet, h.most);
  }
  step-Once (fetch_failed err) x h = record {
    open_quiet = ground (arith, h.open_quiet);
    most = ground (arith, h.open_quiet, h.most);
  }
  step-Once (was_read done outcome) x h = record {
    open_quiet = ground (arith, h.open_quiet);
    most = ground (arith, h.open_quiet, h.most);
  }
  step-Once (was_read (value bytes) outcome) x h = record {
    open_quiet = ground (arith, h.open_quiet);
    most = ground (arith, h.open_quiet, h.most);
  }
  step-Once (read_failed err) x h = record {
    open_quiet = ground (arith, h.open_quiet);
    most = ground (arith, h.open_quiet, h.most);
  }

  run-Once : {x y : Fetch Md} → Run x y → Once x → Once y
  run-Once here h = h
  run-Once {x} (next e c run) h = run-Once run (step-Once e x h)

  new_fetch-Once : (has_controller : Bool) → Once (new_fetch {Md = Md} has_controller)
  unfolding new_fetch
  new_fetch-Once has_controller = record { open_quiet = λ h. refl; most = omega arith }

  -- Over the whole life of a new transport, in any order in which promises can settle, whatever
  -- fails and throws, the client is told an error at most once, and none as long as the transport
  -- is not cancelled.
  pub run-errors_told :
      (has_controller : Bool) {y : Fetch Md}
      → Run (new_fetch has_controller) y
      → (errors_told y.log ≤ 1) × (y.cancelled ≡ false → errors_told y.log ≡ 0)
  run-errors_told has_controller run =
      let o = run-Once run (new_fetch-Once has_controller) in (o.most, o.open_quiet)
