-- ===== src/Client/Ends.antt =====
-- client.ts: the end of a request is told at most once.
use grpc_web.Prelude.{ℕ, ◌≡◌, refl, ap, ◌∙◌, sym, true, false, ◌||◌, Option, List, [], ◌∷◌, ◌++◌}
use grpc_web.Prelude.{append_assoc, append-nil, Text, Bool-cases, inl, inr, if-true, if-false}
use grpc_web.Client.Types.{Environment, State, Event, headers, message, end, new_client}
use grpc_web.Client.Callbacks.{
  call_callback, for_each, for_each_open, raw_on_end, raw_on_headers, raw_on_error, raw_on_message,
}
use grpc_web.Client.Passive.{told}
use grpc_web.Client.Session.{Input, run}
use grpc_web.Client.Parts.{IsKept, if_keeps, if_cases, run_keeps}
use grpc_web.Js.Number.{Number}
use mathlib.Core.Path.{subst}
use mathlib.Core.List.{map-append}
use mathlib.Core.Bool.{false≢true}
use grpc_web.Client.EndCalls.{obey-Extends, ends_told, Extends, call_callback-Extends}

module _ (E : Environment) where
  open E use {Metadata, Arg, Request, Response, User, react}

  -- Nothing is told before the request is complete; and what is told is one event, to a first part of
  -- the registered callbacks, to each once and in order.
  pub record EndsOnce (c : State E) : Type 0 where
    pub quiet : c.completed ≡ false → ends_told c.log ≡ []
    pub event : Event Metadata Response
    untold : List (ℕ × Event Metadata Response)
    pub once : ends_told c.log ++ untold ≡ told c.on_end_callbacks event

  Extends-EndsOnce : {c d : State E} → Extends E c d [] → EndsOnce c → EndsOnce d
  Extends-EndsOnce {c} {d} a w =
      let same = a.same ∙ append-nil (ends_told c.log) in
      record {
        quiet = λ h. same ∙ w.quiet (sym a.completed ∙ h);
        event = w.event;
        untold = w.untold ++ told a.more w.event;
        once =
            ap (λ t. t ++ (w.untold ++ told a.more w.event)) same
            ∙ sym (append_assoc (ends_told c.log) w.untold (told a.more w.event))
            ∙ ap (λ t. t ++ told a.more w.event) w.once
            ∙ sym (map-append _ c.on_end_callbacks a.more)
            ∙ ap (λ t. told t w.event) (sym a.longer);
      }

  -- While the loop runs: the callbacks that are still to be visited come next.
  record Telling (event : Event Metadata Response) (todo : List ℕ) (c : State E) : Type 0 where
    complete : c.completed ≡ true
    late : List (ℕ × Event Metadata Response)
    next : ends_told c.log ++ (told todo event ++ late) ≡ told c.on_end_callbacks event

  tell :
      (x : ℕ) (xs : List ℕ) (code : Number) (msg : Text) (md : Metadata) (c : State E)
      → Telling (end code msg md) (x ∷ xs) c
      → Telling (end code msg md) xs (call_callback E x (end code msg md) c)
  tell x xs code msg md c w =
      let event = end code msg md in
      let a = call_callback-Extends E x event c in
      record {
        complete = a.completed ∙ w.complete;
        late = w.late ++ told a.more event;
        next =
            ap (λ t. t ++ (told xs event ++ (w.late ++ told a.more event))) a.same
            ∙ (simp append_assoc)
            ∙ ap (λ t. t ++ told a.more event) w.next
            ∙ sym (map-append _ c.on_end_callbacks a.more)
            ∙ ap (λ t. told t event) (sym a.longer);
      }

  for_each_open_closed :
      (todo : List ℕ) (event : Event Metadata Response) (c : State E)
      → c.closed ≡ true
      → for_each_open E todo event c ≡ c
  unfolding for_each_open
  for_each_open_closed [] event c h = refl
  for_each_open_closed (x ∷ xs) event c h =
      ap (for_each_open E xs event) (if-true c _ h) ∙ for_each_open_closed xs event c h

  Telling-EndsOnce :
      (event : Event Metadata Response) (todo : List ℕ) (c : State E)
      → Telling event todo c
      → EndsOnce c
  Telling-EndsOnce event todo c w = record {
    quiet = λ h. absurd (false≢true (sym h ∙ w.complete));
    event = event;
    untold = told todo event ++ w.late;
    once = w.next;
  }

  for_each_open-EndsOnce :
      (todo : List ℕ) (code : Number) (msg : Text) (md : Metadata) (c : State E)
      → Telling (end code msg md) todo c
      → EndsOnce (for_each_open E todo (end code msg md) c)
  unfolding for_each_open
  for_each_open-EndsOnce [] code msg md c w = Telling-EndsOnce _ [] c w
  for_each_open-EndsOnce (x ∷ xs) code msg md c w = elim (Bool-cases c.closed) [
    | inl e ↦
        subst EndsOnce
          (sym (for_each_open_closed xs (end code msg md) c e)
            ∙ ap (for_each_open E xs (end code msg md)) (sym (if-true c _ e)))
          (Telling-EndsOnce _ (x ∷ xs) c w)
    | inr e ↦
        subst (λ t. EndsOnce (for_each_open E xs (end code msg md) t)) (sym (if-false c _ e))
          (for_each_open-EndsOnce xs code msg md _ (tell x xs code msg md c w))
  ]

  -- The request becomes complete: nothing was told, and all registered callbacks come next.
  completing :
      (code : Number) (msg : Text) (md : Metadata) (c : State E)
      → c.completed ≡ false
      → EndsOnce c
      → Telling (end code msg md) c.on_end_callbacks (record c { completed = true })
  completing code msg md c h w = record {
    complete = refl;
    late = [];
    next =
        ap (λ t. t ++ (told c.on_end_callbacks (end code msg md) ++ [])) (w.quiet h) ∙ append-nil _;
  }

  raw_on_end-EndsOnce :
      (code : Number) (msg : Text) (md : Metadata) (c : State E)
      → EndsOnce c
      → EndsOnce (raw_on_end E code msg md c)
  unfolding raw_on_end
  raw_on_end-EndsOnce code msg md c w =
      if_cases EndsOnce c.completed w (λ h.
        for_each_open-EndsOnce c.on_end_callbacks code msg md _ (completing code msg md c h w))

  raw_on_error-EndsOnce :
      (code : Number) (msg : Text) (md : Option Metadata) (c : State E)
      → EndsOnce c
      → EndsOnce (raw_on_error E code msg md c)
  unfolding raw_on_error
  raw_on_error-EndsOnce code msg md c w =
      if_cases EndsOnce c.completed w
        (λ h. for_each_open-EndsOnce c.on_end_callbacks code msg _ _ (completing code msg _ c h w))

  for_each-EndsOnce :
      (todo : List ℕ) (md : Metadata) (c : State E)
      → EndsOnce c
      → EndsOnce (for_each E todo (headers md) c)
  unfolding for_each
  for_each-EndsOnce [] md c w = w
  for_each-EndsOnce (x ∷ xs) md c w =
      for_each-EndsOnce xs md _ (Extends-EndsOnce (call_callback-Extends E x (headers md) c) w)

  for_each_open_message-EndsOnce :
      (todo : List ℕ) (res : Response) (c : State E)
      → EndsOnce c
      → EndsOnce (for_each_open E todo (message res) c)
  unfolding for_each_open
  for_each_open_message-EndsOnce [] res c w = w
  for_each_open_message-EndsOnce (x ∷ xs) res c w = for_each_open_message-EndsOnce xs res _ (
      if_keeps EndsOnce c.closed w (Extends-EndsOnce (call_callback-Extends E x (message res) c) w))

  raw_on_headers-EndsOnce :
      (md : Metadata) (c : State E) → EndsOnce c → EndsOnce (raw_on_headers E md c)
  unfolding raw_on_headers
  raw_on_headers-EndsOnce md c w = if_keeps EndsOnce c.completed w (for_each-EndsOnce _ md c w)

  raw_on_message-EndsOnce :
      (res : Response) (c : State E) → EndsOnce c → EndsOnce (raw_on_message E res c)
  unfolding raw_on_message
  raw_on_message-EndsOnce res c w =
      if_keeps EndsOnce (c.completed || c.closed) w (for_each_open_message-EndsOnce _ res c w)

  EndsOnce-IsKept : IsKept E EndsOnce
  EndsOnce-IsKept = record {
    obeys = λ m c w. Extends-EndsOnce (obey-Extends E m c) w;
    receives_headers =
        λ md c w. record { quiet = w.quiet; event = w.event; untold = w.untold; once = w.once };
    receives_trailers =
        λ md c w. record { quiet = w.quiet; event = w.event; untold = w.untold; once = w.once };
    parses = λ p c w. record { quiet = w.quiet; event = w.event; untold = w.untold; once = w.once };
    ends = raw_on_end-EndsOnce;
    fails = raw_on_error-EndsOnce;
    tells_headers = raw_on_headers-EndsOnce;
    tells_message = raw_on_message-EndsOnce;
  }

  new_client-EndsOnce : (u : User) → EndsOnce (new_client E u)
  unfolding new_client
  new_client-EndsOnce u = record {
    quiet = λ h. refl;
    event = headers E.new_metadata;
    untold = [];
    once = refl;
  }

  -- Over the life of a new client, whatever the user, the callbacks and the transport do, in any
  -- order: no callback is told an end before the request is complete, and the ends that are told
  -- are one and the same event, told to a first part of the registered callbacks, to each at most
  -- once and in their order.
  pub run-EndsOnce :
      (inputs : List (Input Metadata Arg Request)) (u : User)
      → EndsOnce (run E inputs (new_client E u))
  run-EndsOnce inputs u =
      run_keeps E EndsOnce EndsOnce-IsKept inputs (new_client E u) (new_client-EndsOnce u)
