-- ===== src/ReactNative/Detach/Drain.antt =====
-- react-native-transport/src/index.ts: every callback that was detached is called after enough timers.
use grpc_web.Prelude.{
  ℕ, zero, suc, ◌+◌, ◌-◌, ◌≤◌, ◌<◌, ◌≡◌, refl, arith, ap, ◌∙◌, sym, Option, none, some, List, [],
  ◌∷◌, ◌++◌,
}
use grpc_web.Prelude.{append-nil, Text}
use grpc_web.ReactNative.Detach.{
  Queue, Behaviour, new_queue, enqueue, detach, detach_all, put_back, call, next_or_throw, run_set,
  run_waiting, run_callbacks, fire,
}
use grpc_web.ReactNative.Detach.Order.{
  waiting, timer_of, Running, unshift_all-append, fire-Running, Life, Life-order,
}

abbrev pub total {ℓ} : {A : Type ℓ} → (A → ℕ) → List A → ℕ
total weight [] = 0
total weight (x ∷ xs) = weight x + total weight xs

pub total-append {ℓ} :
    {A : Type ℓ} (weight : A → ℕ) (xs ys : List A)
    → total weight (xs ++ ys) ≡ total weight xs + total weight ys
total-append weight [] ys = omega arith
total-append weight (x ∷ xs) ys = omega (arith, total-append weight xs ys)

module _ {A : Type 0} (behave : List A → A → Behaviour A) where
  -- A timer goes off if one is set.
  abbrev pub fire_if : ℕ → Queue A → Queue A
  fire_if zero q = q
  fire_if (suc timers) q = (fire behave q).0

  -- Timers go off, at most this many, as long as one is set.
  abbrev pub fire_times : ℕ → Queue A → Queue A
  fire_times zero q = q
  fire_times (suc n) q = fire_times n (fire_if q.timers q)

module _ {A : Type 0} (behave : List A → A → Behaviour A) (weight : A → ℕ) where
  -- A callback weighs more than all that it detaches.
  abbrev pub EndsChains : Type 0
  EndsChains = (called : List A) (cb : A) → total weight (behave called cb).detaches < weight cb

  abbrev load : Queue A → ℕ
  load q = total weight (waiting q.awaiting_execution)

  load-enqueue :
      (awaiting : Option (List A)) (cb : A) (q : Queue A)
      → load (enqueue awaiting cb q) ≡ total weight (waiting awaiting) + weight cb
  unfolding enqueue
  load-enqueue none cb q = omega arith
  load-enqueue (some callbacks) cb q = omega (arith, total-append weight callbacks (cb ∷ []))

  load-detach_all :
      (cbs : List A) (q : Queue A) → load (detach_all cbs q) ≡ load q + total weight cbs
  unfolding detach_all detach
  load-detach_all [] q = omega arith
  load-detach_all (cb ∷ cbs) q =
      let d = record q { detached = q.detached ++ cb ∷ [] } in
      omega (
        arith,
        load-detach_all cbs (enqueue q.awaiting_execution cb d),
        load-enqueue q.awaiting_execution cb d,
      )

  load-put_back :
      (awaiting : Option (List A)) (rest : List A) (q : Queue A)
      → load (put_back awaiting rest q) ≡ total weight rest + total weight (waiting awaiting)
  unfolding put_back
  load-put_back none rest q =
      ap (total weight) (unshift_all-append rest []) ∙ total-append weight rest []
  load-put_back (some awaiting) rest q =
      ap (total weight) (unshift_all-append rest awaiting) ∙ total-append weight rest awaiting

  module _ (ends : EndsChains) where
    load-call : (cb : A) (q : Queue A) → load (call behave cb q) < load q + weight cb
    load-call cb q = omega (
      arith,
      ends q.called cb,
      load-detach_all (behave q.called cb).detaches (record q { called = q.called ++ cb ∷ [] }),
    )

    load-next_or_throw :
        (thrown : Option Text) (rest : List A) (go_on : Queue A → Queue A × Option Text)
        (q : Queue A)
        → load (go_on q).0 ≤ total weight rest + load q
        → load (next_or_throw behave thrown rest go_on q).0 ≤ total weight rest + load q
    load-next_or_throw none rest go_on q h = h
    load-next_or_throw (some e) rest go_on q h =
        omega (arith, load-put_back q.awaiting_execution rest q)

    load-run_set :
        (cbs : List A) (q : Queue A) → load (run_set behave cbs q).0 ≤ total weight cbs + load q
    unfolding run_set
    load-run_set [] q = omega arith
    load-run_set (cb ∷ rest) q =
        let called = call behave cb q in
        let later =
          load-next_or_throw (behave q.called cb).throws rest (λ q'. run_set behave rest q') called
            (load-run_set rest called) in
        omega (arith, later, load-call cb q)

    -- One timer takes something off what waits.
    load-run_waiting :
        (awaiting : Option (List A)) (q : Queue A)
        → q.awaiting_execution ≡ awaiting
        → load (run_waiting behave awaiting q).0 ≤ total weight (waiting awaiting) - 1
    unfolding run_waiting run_set
    load-run_waiting none q e = omega (arith, ap (λ a. total weight (waiting a)) e)
    load-run_waiting (some []) q e = omega arith
    load-run_waiting (some (cb ∷ rest)) q e =
        let q0 : Queue A = record q { awaiting_execution = none } in
        let called = call behave cb q0 in
        let later =
          load-next_or_throw (behave q.called cb).throws rest (λ q'. run_set behave rest q') called
            (load-run_set rest called) in
        omega (arith, later, load-call cb q0)

    load-fire : (q : Queue A) → load (fire behave q).0 ≤ load q - 1
    unfolding fire run_callbacks
    load-fire q = load-run_waiting q.awaiting_execution (record q { timers = q.timers - 1 }) refl

    waiting_none : (xs : List A) → total weight xs ≡ 0 → xs ≡ []
    waiting_none [] e = refl
    waiting_none (x ∷ xs) e = absurd (omega (arith, e, ends [] x))

  module _ (ends : EndsChains) where
    pub fire_if-Running :
        (timers : ℕ) (q : Queue A)
        → q.timers ≡ timers
        → Running [] q
        → Running [] (fire_if behave timers q) × (load (fire_if behave timers q) ≤ load q - 1)
    fire_if-Running zero q e r = (r, no_timer q.awaiting_execution (sym r.timer ∙ e))
      where
        no_timer :
            (awaiting : Option (List A))
            → timer_of awaiting ≡ 0
            → total weight (waiting awaiting) ≤ total weight (waiting awaiting) - 1
        no_timer none e = omega arith
        no_timer (some callbacks) e = absurd (omega (arith, e))
    fire_if-Running (suc timers) q e r =
        (fire-Running behave q (omega (arith, e)) r, load-fire ends q)

    pub fire_times-Running :
        (n : ℕ) (q : Queue A)
        → Running [] q
        → load q ≤ n
        → Running [] (fire_times behave n q)
          × (waiting (fire_times behave n q).awaiting_execution ≡ [])
    fire_times-Running zero q r h = (r, waiting_none ends _ (omega (arith, h)))
    fire_times-Running (suc n) q r h =
        let (r', h') = fire_if-Running q.timers q refl r in
        fire_times-Running n (fire_if behave q.timers q) r' (omega (arith, h, h'))

    -- When callbacks detach only finitely long chains of others, by a weight that is larger than that
    -- of all that a callback detaches, then as many timers as what waits weighs are enough, whatever
    -- throws: nothing waits any more, and every callback that was detached was called, in order.
    pub fire_times-drained :
        {q : Queue A} (n : ℕ)
        → Life behave new_queue q
        → total weight (waiting q.awaiting_execution) ≤ n
        → (waiting (fire_times behave n q).awaiting_execution ≡ [])
          × ((fire_times behave n q).called ≡ (fire_times behave n q).detached)
    fire_times-drained {q} n l h =
        let (order, timer) = Life-order behave l in
        let (r, none_left) = fire_times-Running n q (record { order = order; timer = timer }) h in
        (
          none_left,
          sym (append-nil _)
              ∙ ap (λ w. (fire_times behave n q).called ++ w) (sym none_left)
              ∙ sym r.order,
        )
