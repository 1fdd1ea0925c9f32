-- ===== src/Client/Liveness.antt =====
-- client.ts: the end of the transport ends the request, whatever the callbacks do.
use grpc_web.Prelude.{
  ℕ, ◌≡◌, refl, ap, ◌∙◌, sym, true, false, ◌⊎◌, inl, inr, Option, none, some, List, [], ◌∷◌, ◌++◌,
}
use grpc_web.Prelude.{append_assoc, append-nil, Text, if-false, if-true, Bool-cases}
use grpc_web.Client.Types.{Environment, State, Event, end, new_client}
use grpc_web.Client.Callbacks.{call_callback, for_each_open, raw_on_error, raw_on_end, or_new}
use grpc_web.Client.Responses.{on_transport_end, end_with, end_trailers, end_headers_only}
use grpc_web.Client.Session.{Input, transport_end, step, run}
use grpc_web.Client.Passive.{told}
use grpc_web.Client.EndCalls.{ends_told, call_callback-Extends}
use grpc_web.Client.Ends.{run-EndsOnce}
use grpc_web.Js.Number.{Number}
use mathlib.Core.Path.{subst}

module _ (E : Environment) where
  open E use {Metadata, Arg, Request, Response}

  for_each_open-closed :
      (callbacks : List ℕ) (event : Event Metadata Response) (c : State E)
      → c.closed ≡ true
      → for_each_open E callbacks event c ≡ c
  unfolding for_each_open
  for_each_open-closed [] event c h = refl
  for_each_open-closed (x ∷ xs) event c h =
      ap (for_each_open E xs event) (if-true c _ h) ∙ for_each_open-closed xs event c h

  -- The loop leaves a client that one of the callbacks closed, or has told the end to all of them.
  Visited : State E → State E → List (ℕ × Event Metadata Response) → Type 0
  Visited c d calls =
      (d.completed ≡ c.completed)
      × ((d.closed ≡ true) ⊎ (ends_told d.log ≡ ends_told c.log ++ calls))

  for_each_open-Visited :
      (callbacks : List ℕ) (code : Number) (msg : Text) (md : Metadata) (c : State E)
      → Visited c (for_each_open E callbacks (end code msg md) c) (told callbacks (end code msg md))
  unfolding for_each_open Visited
  for_each_open-Visited [] code msg md c = (refl, inr (sym (append-nil _)))
  for_each_open-Visited (x ∷ xs) code msg md c = elim (Bool-cases c.closed) [
    | inl closed ↦
        let same = for_each_open-closed (x ∷ xs) (end code msg md) c closed in
        (ap (λ d. d.completed) same, inl (ap (λ d. d.closed) same ∙ closed))
    | inr opened ↦
        let event : Event Metadata Response = end code msg md in
        let d = call_callback E x event c in
        let a = call_callback-Extends E x event c in
        let (complete, all) = for_each_open-Visited xs code msg md d in
        subst (λ t. Visited c (for_each_open E xs event t) (told (x ∷ xs) event))
          (sym (if-false c d opened))
          (
            complete ∙ a.completed,
            elim all [
              | inl closed ↦ inl closed
              | inr same ↦
                  inr (
                    same ∙ ap (λ t. t ++ told xs event) a.same ∙ append_assoc (ends_told c.log) _ _)
            ],
          )
  ]

  -- The request is complete; the client was closed, or all the callbacks were told one end.
  Finishes : State E → State E → Type 0
  Finishes c d =
      (d.completed ≡ true)
      × ((d.closed ≡ true)
          ⊎ ((event : Event Metadata Response) × (ends_told d.log
                ≡ ends_told c.log ++ told c.on_end_callbacks event)))

  loop-Finishes :
      (code : Number) (msg : Text) (md : Metadata) (c : State E)
      → Finishes c
          (for_each_open E c.on_end_callbacks (end code msg md) (record c { completed = true }))
  unfolding Finishes Visited
  loop-Finishes code msg md c =
      let (complete, all) =
        for_each_open-Visited c.on_end_callbacks code msg md (record c { completed = true }) in
      (complete, elim all [ inl closed ↦ inl closed | inr same ↦ inr (end code msg md, same) ])

  raw_on_end-Finishes :
      (code : Number) (msg : Text) (md : Metadata) (c : State E)
      → c.completed ≡ false
      → Finishes c (raw_on_end E code msg md c)
  unfolding raw_on_end
  raw_on_end-Finishes code msg md c h =
      subst (Finishes c) (sym (if-false c _ h)) (loop-Finishes code msg md c)

  raw_on_error-Finishes :
      (code : Number) (msg : Text) (md : Option Metadata) (c : State E)
      → c.completed ≡ false
      → Finishes c (raw_on_error E code msg md c)
  unfolding raw_on_error
  raw_on_error-Finishes code msg md c h =
      subst (Finishes c) (sym (if-false c _ h)) (loop-Finishes code msg (or_new E md) c)

  end_trailers-Finishes :
      (grpc_status : Option Number) (md : Metadata) (c : State E)
      → c.completed ≡ false
      → Finishes c (end_trailers E grpc_status md c)
  unfolding end_trailers
  end_trailers-Finishes none md c h = raw_on_error-Finishes _ _ none c h
  end_trailers-Finishes (some grpc_status) md c h = raw_on_end-Finishes grpc_status _ md c h

  end_headers_only-Finishes :
      (grpc_status : Option Number) (md : Metadata) (c : State E)
      → c.completed ≡ false
      → Finishes c (end_headers_only E grpc_status md c)
  unfolding end_headers_only
  end_headers_only-Finishes none md c h = raw_on_end-Finishes _ _ md c h
  end_headers_only-Finishes (some grpc_status) md c h = raw_on_end-Finishes grpc_status _ md c h

  end_with-Finishes :
      (trailers headers : Option Metadata) (c : State E)
      → c.completed ≡ false
      → Finishes c (end_with E trailers headers c)
  unfolding end_with
  end_with-Finishes none none c h = raw_on_error-Finishes _ _ none c h
  end_with-Finishes none (some md) c h = end_headers_only-Finishes _ md c h
  end_with-Finishes (some md) headers c h = end_trailers-Finishes _ md c h

  -- Over the life of a new client, whatever the user, the callbacks and the transport do: if the
  -- request is neither complete nor closed when the transport ends, then that call completes it, and
  -- tells one and the same end to every callback that is registered by then, to each once and in
  -- order, unless one of them closes the client.
  pub transport_end-told :
      (inputs : List (Input Metadata Arg Request)) (u : E.User)
      → (run E inputs (new_client E u)).completed ≡ false
      → (run E inputs (new_client E u)).closed ≡ false
      → let c = run E inputs (new_client E u) in
        let c' = (step E transport_end c).0 in
        (c'.completed ≡ true)
        × ((c'.closed ≡ true)
            ⊎ ((event : Event Metadata Response) × (ends_told c'.log
                  ≡ told c.on_end_callbacks event)))
  unfolding step on_transport_end Finishes
  transport_end-told inputs u h k =
      let c = run E inputs (new_client E u) in
      let (complete, all) =
        subst (Finishes c) (sym (if-false c _ k))
          (end_with-Finishes c.response_trailers c.response_headers c h) in
      let none_yet = (run-EndsOnce E inputs u).quiet h in
      (
        complete,
        elim all [
          | inl closed ↦ inl closed
          | inr (event, same) ↦
              inr (event, same ∙ ap (λ t. t ++ told c.on_end_callbacks event) none_yet)
        ],
      )
