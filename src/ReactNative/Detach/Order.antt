-- ===== src/ReactNative/Detach/Order.antt =====
-- react-native-transport/src/index.ts: callbacks are called in the order in which they were detached.
use grpc_web.Prelude.{
  ℕ, ◌-◌, ◌<◌, ◌≡◌, refl, arith, ap, ◌∙◌, sym, Option, none, some, List, [], ◌∷◌, ◌++◌,
}
use grpc_web.Prelude.{append_assoc, append-nil, Text}
use grpc_web.ReactNative.Detach.{
  Queue, Behaviour, new_queue, enqueue, detach, detach_all, unshift_all, put_back, call,
  next_or_throw, run_set, run_waiting, run_callbacks, fire,
}

module _ {A : Type 0} where
  abbrev pub waiting : Option (List A) → List A
  waiting none = []
  waiting (some callbacks) = callbacks

  -- A timer is set exactly while callbacks wait.
  abbrev pub timer_of : Option (List A) → ℕ
  timer_of none = 0
  timer_of (some callbacks) = 1

  -- What was detached was called, or is about to be in the running set, or waits, in this order.
  pub record Running (rest : List A) (q : Queue A) : Type 0 where
    pub order : q.detached ≡ q.called ++ (rest ++ waiting q.awaiting_execution)
    pub timer : q.timers ≡ timer_of q.awaiting_execution

  behind : (a b c d : List A) → (a ++ (b ++ c)) ++ d ≡ a ++ (b ++ (c ++ d))
  behind a b c d = simp append_assoc

  enqueue-Running :
      (awaiting : Option (List A)) (cb : A) (rest : List A) (q : Queue A)
      → q.awaiting_execution ≡ awaiting
      → Running rest q
      → Running rest (enqueue awaiting cb (record q { detached = q.detached ++ cb ∷ [] }))
  unfolding enqueue
  enqueue-Running none cb rest q e r =
      let r' = rw e at r.timer in
      record {
        order = ap (λ t. t ++ cb ∷ []) (rw e at r.order) ∙ behind q.called rest [] (cb ∷ []);
        timer = omega (arith, r');
      }
  enqueue-Running (some callbacks) cb rest q e r = record {
    order = ap (λ t. t ++ cb ∷ []) (rw e at r.order) ∙ behind q.called rest callbacks (cb ∷ []);
    timer = rw e at r.timer;
  }

  pub detach-Running :
      (cb : A) (rest : List A) (q : Queue A) → Running rest q → Running rest (detach cb q)
  unfolding detach
  detach-Running cb rest q r = enqueue-Running q.awaiting_execution cb rest q refl r

  detach_all-Running :
      (cbs rest : List A) (q : Queue A) → Running rest q → Running rest (detach_all cbs q)
  unfolding detach_all
  detach_all-Running [] rest q r = r
  detach_all-Running (cb ∷ cbs) rest q r =
      detach_all-Running cbs rest (detach cb q) (detach-Running cb rest q r)

  pub unshift_all-append : (rest awaiting : List A) → unshift_all rest awaiting ≡ rest ++ awaiting
  unfolding unshift_all
  unshift_all-append [] awaiting = refl
  unshift_all-append (cb ∷ rest) awaiting = ap (λ t. cb ∷ t) (unshift_all-append rest awaiting)

  put_back-Running :
      (awaiting : Option (List A)) (rest : List A) (q : Queue A)
      → q.awaiting_execution ≡ awaiting
      → Running rest q
      → Running [] (put_back awaiting rest q)
  unfolding put_back
  put_back-Running none rest q e r =
      let r' = rw e at r.timer in
      record {
        order = rw e at r.order ∙ ap (λ t. q.called ++ t) (sym (unshift_all-append rest []));
        timer = omega (arith, r');
      }
  put_back-Running (some awaiting) rest q e r = record {
    order = rw e at r.order ∙ ap (λ t. q.called ++ t) (sym (unshift_all-append rest awaiting));
    timer = rw e at r.timer;
  }

  module _ (behave : List A → A → Behaviour A) where
    call-Running :
        (cb : A) (rest : List A) (q : Queue A)
        → Running (cb ∷ rest) q
        → Running rest (call behave cb q)
    call-Running cb rest q r =
        detach_all-Running (behave q.called cb).detaches rest
          (record q { called = q.called ++ cb ∷ [] })
          (record { order = r.order ∙ sym (append_assoc q.called (cb ∷ []) _); timer = r.timer })

    next_or_throw-Running :
        (thrown : Option Text) (rest : List A) (go_on : Queue A → Queue A × Option Text)
        (q : Queue A)
        → ((q' : Queue A) → Running rest q' → Running [] (go_on q').0)
        → Running rest q
        → Running [] (next_or_throw behave thrown rest go_on q).0
    next_or_throw-Running none rest go_on q later r = later q r
    next_or_throw-Running (some e) rest go_on q later r =
        put_back-Running q.awaiting_execution rest q refl r

    run_set-Running :
        (callbacks : List A) (q : Queue A)
        → Running callbacks q
        → Running [] (run_set behave callbacks q).0
    unfolding run_set
    run_set-Running [] q r = r
    run_set-Running (cb ∷ rest) q r =
        next_or_throw-Running (behave q.called cb).throws rest _ (call behave cb q)
          (λ q' r'. run_set-Running rest q' r') (call-Running cb rest q r)

    run_waiting-Running :
        (awaiting : Option (List A)) (q : Queue A)
        → q.awaiting_execution ≡ awaiting
        → 0 < q.timers
        → Running [] q
        → Running [] (run_waiting behave awaiting (record q { timers = q.timers - 1 })).0
    unfolding run_waiting
    run_waiting-Running none q e h r = absurd (omega (arith, h, (rw e at r.timer)))
    run_waiting-Running (some callbacks) q e h r =
        let r' = rw e at r.timer in
        run_set-Running callbacks (record q { timers = q.timers - 1; awaiting_execution = none })
          (record {
            order = rw e at r.order ∙ ap (λ t. q.called ++ t) (sym (append-nil callbacks));
            timer = omega (arith, r');
          })

    pub fire-Running : (q : Queue A) → 0 < q.timers → Running [] q → Running [] (fire behave q).0
    unfolding fire run_callbacks
    fire-Running q h r = run_waiting-Running q.awaiting_execution q refl h r

    -- The life of a queue: callbacks are detached from outside, and timers that are set go off.
    pub data Life : Queue A → Queue A → Type 0 where
      here : {q : Queue A} → Life q q
      detaches : {q r : Queue A} → (cb : A) → Life (detach cb q) r → Life q r
      fires : {q r : Queue A} → 0 < q.timers → Life (fire behave q).0 r → Life q r

    Life-Running : {q r : Queue A} → Life q r → Running [] q → Running [] r
    Life-Running here r = r
    Life-Running {q} (detaches cb l) r = Life-Running l (detach-Running cb [] q r)
    Life-Running {q} (fires h l) r = Life-Running l (fire-Running q h r)

    pub new_queue-Running : Running [] (new_queue {A = A})
    unfolding new_queue
    new_queue-Running = record { order = refl; timer = refl }

    -- Over the whole life of the queue, with callbacks that detach others and that throw, whatever
    -- was detached is called once and in the order of the calls of `detach`: those that were called
    -- and then those that wait are exactly those that were detached. One timer is set while some
    -- wait, and none otherwise.
    pub Life-order :
        {q : Queue A}
        → Life new_queue q
        → (q.detached ≡ q.called ++ waiting q.awaiting_execution)
          × (q.timers ≡ timer_of q.awaiting_execution)
    Life-order l = let r = Life-Running l new_queue-Running in (r.order, r.timer)
