-- ===== src/ReactNative/Detach/Quiet.antt =====
-- react-native-transport/src/index.ts: what a reader keeps of the callbacks that were detached, when the
-- callbacks that are called detach nothing that it keeps.
use grpc_web.Prelude.{
  ℕ, zero, suc, ◌-◌, ◌≡◌, refl, ap, ◌∙◌, sym, Option, none, some, List, [], ◌∷◌, ◌++◌, Text,
}
use grpc_web.Prelude.{append_assoc, append-nil}
use grpc_web.ReactNative.Detach.{
  Queue, Behaviour, enqueue, detach, detach_all, put_back, call, next_or_throw, run_set,
  run_waiting, run_callbacks, fire,
}
use grpc_web.ReactNative.Detach.Drain.{fire_if, fire_times}

module _ {A B : Type 0} (keep : A → List B) where
  abbrev pub kept : List A → List B
  kept [] = []
  kept (x ∷ xs) = keep x ++ kept xs

  kept-append : (xs ys : List A) → kept (xs ++ ys) ≡ kept xs ++ kept ys
  kept-append [] ys = refl
  kept-append (x ∷ xs) ys =
      ap (λ t. keep x ++ t) (kept-append xs ys) ∙ sym (append_assoc (keep x) (kept xs) (kept ys))

  kept-enqueue :
      (awaiting : Option (List A)) (cb : A) (q : Queue A)
      → kept (enqueue awaiting cb q).detached ≡ kept q.detached
  unfolding enqueue
  kept-enqueue none cb q = refl
  kept-enqueue (some callbacks) cb q = refl

  pub kept-detach :
      (cb : A) (q : Queue A) → kept (detach cb q).detached ≡ kept q.detached ++ keep cb
  unfolding detach
  kept-detach cb q =
      kept-enqueue q.awaiting_execution cb _
      ∙ kept-append q.detached (cb ∷ [])
      ∙ ap (λ t. kept q.detached ++ t) (append-nil (keep cb))

  kept-detach_all :
      (cbs : List A) (q : Queue A) → kept (detach_all cbs q).detached ≡ kept q.detached ++ kept cbs
  unfolding detach_all
  kept-detach_all [] q = sym (append-nil _)
  kept-detach_all (cb ∷ cbs) q =
      kept-detach_all cbs (detach cb q)
      ∙ ap (λ t. t ++ kept cbs) (kept-detach cb q)
      ∙ append_assoc (kept q.detached) (keep cb) (kept cbs)

  module _ (behave : List A → A → Behaviour A) where
    -- No callback detaches one that is kept.
    abbrev pub IsQuiet : Type 0
    IsQuiet = (called : List A) (cb : A) → kept (behave called cb).detaches ≡ []

    module _ (quiet : IsQuiet) where
      kept-call : (cb : A) (q : Queue A) → kept (call behave cb q).detached ≡ kept q.detached
      kept-call cb q =
          kept-detach_all (behave q.called cb).detaches (record q { called = q.called ++ cb ∷ [] })
          ∙ ap (λ t. kept q.detached ++ t) (quiet q.called cb)
          ∙ append-nil (kept q.detached)

      kept-put_back :
          (awaiting : Option (List A)) (rest : List A) (q : Queue A)
          → kept (put_back awaiting rest q).detached ≡ kept q.detached
      unfolding put_back
      kept-put_back none rest q = refl
      kept-put_back (some awaiting) rest q = refl

      kept-next_or_throw :
          (thrown : Option Text) (rest : List A) (go_on : Queue A → Queue A × Option Text)
          (q : Queue A)
          → kept (go_on q).0.detached ≡ kept q.detached
          → kept (next_or_throw behave thrown rest go_on q).0.detached ≡ kept q.detached
      kept-next_or_throw none rest go_on q h = h
      kept-next_or_throw (some e) rest go_on q h = kept-put_back q.awaiting_execution rest q

      kept-run_set :
          (cbs : List A) (q : Queue A) → kept (run_set behave cbs q).0.detached ≡ kept q.detached
      unfolding run_set
      kept-run_set [] q = refl
      kept-run_set (cb ∷ rest) q =
          kept-next_or_throw (behave q.called cb).throws rest (λ q'. run_set behave rest q')
            (call behave cb q) (kept-run_set rest (call behave cb q))
          ∙ kept-call cb q

      kept-run_waiting :
          (awaiting : Option (List A)) (q : Queue A)
          → kept (run_waiting behave awaiting q).0.detached ≡ kept q.detached
      unfolding run_waiting
      kept-run_waiting none q = refl
      kept-run_waiting (some cbs) q = kept-run_set cbs (record q { awaiting_execution = none })

      pub kept-fire_if :
          (timers : ℕ) (q : Queue A) → kept (fire_if behave timers q).detached ≡ kept q.detached
      unfolding fire run_callbacks
      kept-fire_if zero q = refl
      kept-fire_if (suc timers) q =
          kept-run_waiting q.awaiting_execution (record q { timers = q.timers - 1 })

      pub kept-fire_times :
          (n : ℕ) (q : Queue A) → kept (fire_times behave n q).detached ≡ kept q.detached
      kept-fire_times zero q = refl
      kept-fire_times (suc n) q =
          kept-fire_times n (fire_if behave q.timers q) ∙ kept-fire_if q.timers q
