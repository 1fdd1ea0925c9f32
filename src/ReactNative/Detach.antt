-- ===== src/ReactNative/Detach.antt =====
-- client/grpc-web-react-native-transport/src/index.ts: `detach` and `runCallbacks`, which put callbacks
-- off to a timer. The variable `awaitingExecution`, the timers that are set, and two histories: the
-- callbacks that were detached, and those that were called, the oldest first.
pub mod Order
pub mod Drain
pub mod Quiet
use grpc_web.Prelude.{ℕ, zero, suc, ◌+◌, ◌-◌, Bool, Option, none, some, List, [], ◌∷◌, ◌++◌}
use grpc_web.Prelude.{Text}

pub record Queue (A : Type 0) : Type 0 where
  pub awaiting_execution : Option (List A)
  pub timers : ℕ
  pub detached : List A
  pub called : List A

-- What a callback does to the queue: the callbacks that it detaches, and whether it then throws.
pub record Behaviour (A : Type 0) : Type 0 where
  pub detaches : List A
  pub throws : Option Text

module _ {A : Type 0} where
  unfoldable pub new_queue : Queue A
  new_queue = record { awaiting_execution = none; timers = 0; detached = []; called = [] }

  -- `awaitingExecution.push(cb)`, or a new array and a timer.
  unfoldable pub enqueue : Option (List A) → A → Queue A → Queue A
  enqueue (some callbacks) cb q = record q { awaiting_execution = some (callbacks ++ cb ∷ []) }
  enqueue none cb q = record q { awaiting_execution = some (cb ∷ []); timers = q.timers + 1 }

  unfoldable pub detach : A → Queue A → Queue A
  detach cb q = enqueue q.awaiting_execution cb (record q { detached = q.detached ++ cb ∷ [] })

  unfoldable pub detach_all : List A → Queue A → Queue A
  detach_all [] q = q
  detach_all (cb ∷ cbs) q = detach_all cbs (detach cb q)

  -- The loop over k, from the last index down: each callback that is left goes to the front.
  unfoldable pub unshift_all : List A → List A → List A
  unshift_all [] awaiting = awaiting
  unshift_all (cb ∷ cbs) awaiting = cb ∷ unshift_all cbs awaiting

  -- The handler of an exception, by what is waiting: a new array gets a timer.
  unfoldable pub put_back : Option (List A) → List A → Queue A → Queue A
  put_back none rest q = record q {
    awaiting_execution = some (unshift_all rest []);
    timers = q.timers + 1;
  }
  put_back (some awaiting) rest q = record q {
    awaiting_execution = some (unshift_all rest awaiting);
  }

  module _ (behave : List A → A → Behaviour A) where
    abbrev pub call : A → Queue A → Queue A
    call cb q = detach_all (behave q.called cb).detaches (record q { called = q.called ++ cb ∷ [] })

    -- Behind a callback: the next ones, or the handler, which throws the exception again.
    abbrev pub next_or_throw :
        Option Text → List A → (Queue A → Queue A × Option Text) → Queue A → Queue A × Option Text
    next_or_throw none rest go_on q = go_on q
    next_or_throw (some e) rest go_on q = (put_back q.awaiting_execution rest q, some e)

    -- The loop over `thisCallbackSet`.
    unfoldable pub run_set : List A → Queue A → Queue A × Option Text
    run_set [] q = (q, none)
    run_set (cb ∷ rest) q =
        next_or_throw (behave q.called cb).throws rest (λ q'. run_set rest q') (call cb q)

    unfoldable pub run_waiting : Option (List A) → Queue A → Queue A × Option Text
    run_waiting none q = (q, none)
    run_waiting (some callbacks) q = run_set callbacks (record q { awaiting_execution = none })

    unfoldable pub run_callbacks : Queue A → Queue A × Option Text
    run_callbacks q = run_waiting q.awaiting_execution q

    -- A timer that was set goes off.
    unfoldable pub fire : Queue A → Queue A × Option Text
    fire q = run_callbacks (record q { timers = q.timers - 1 })
