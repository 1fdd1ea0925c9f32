-- ===== src/Client/Passive.antt =====
-- client.ts for callbacks that return and do not call the client: what each part of it tells the user.
use grpc_web.Prelude.{
  ℕ, ◌≡◌, refl, ap, ◌∙◌, sym, Bool, false, ◌||◌, Option, none, some, List, [], ◌∷◌, ◌++◌,
}
use grpc_web.Prelude.{map, append_assoc, append-nil, Result, ok, thrown, All, if-false}
use mathlib.Core.Path.{subst}
use grpc_web.ChunkParser.{Chunk}
use grpc_web.Client.Types.{Environment, State, Event, return, message}
use grpc_web.Client.Callbacks.{run_script, call_callback, for_each, for_each_open, raw_on_message}
use grpc_web.Client.Responses.{on_trailers_after, on_deserialized, on_chunks}
use grpc_web.Client.Silence.{callbacks_called}

-- The calls of these callbacks with one event.
abbrev pub told : {A : Type 0} → List ℕ → A → List (ℕ × A)
told callbacks event = map (λ callback. (callback, event)) callbacks

-- The trailers that are known behind some chunks, given those before.
abbrev pub final_trailers : {Md : Type 0} → (Md → Md) → Option Md → List (Chunk Md) → Option Md
final_trailers copy known [] = known
final_trailers copy known (Chunk.message bytes ∷ chunks) = final_trailers copy known chunks
final_trailers copy known (Chunk.trailers md ∷ chunks) = final_trailers copy (some (copy md)) chunks

or_false : {a b : Bool} → a ≡ false → b ≡ false → (a || b) ≡ false
or_false h k = rw (h, k)

module _ (E : Environment) where
  open E use {Metadata, Arg, Request, Response, User, react, copy, deserialize_binary}

  -- Every callback returns, and calls no method of the client.
  abbrev pub IsPassive : Type 0
  IsPassive =
      (callback : ℕ) (event : Event Metadata Response) (u : User)
      → (v : User) × (react callback event u ≡ return v)

  -- `c'` is `c` behind some calls of callbacks, with these trailers: nothing else that the responses
  -- depend on has changed.
  pub record After (c c' : State E) (calls : List (ℕ × Event Metadata Response))
      (known : Option Metadata) : Type 0 where
    pub completed : c'.completed ≡ c.completed
    pub closed : c'.closed ≡ c.closed
    pub message_callbacks : c'.on_message_callbacks ≡ c.on_message_callbacks
    pub headers_callbacks : c'.on_headers_callbacks ≡ c.on_headers_callbacks
    pub end_callbacks : c'.on_end_callbacks ≡ c.on_end_callbacks
    pub parser : c'.parser ≡ c.parser
    pub response_headers : c'.response_headers ≡ c.response_headers
    pub response_trailers : c'.response_trailers ≡ known
    pub history : callbacks_called c'.log ≡ callbacks_called c.log ++ calls

  pub After-refl : (c : State E) → After c c [] c.response_trailers
  After-refl c = record {
    completed = refl;
    closed = refl;
    message_callbacks = refl;
    headers_callbacks = refl;
    end_callbacks = refl;
    parser = refl;
    response_headers = refl;
    response_trailers = refl;
    history = sym (append-nil _);
  }

  After-trans :
      {c d e : State E} {xs ys : List (ℕ × Event Metadata Response)} {k l : Option Metadata}
      → After c d xs k
      → After d e ys l
      → After c e (xs ++ ys) l
  After-trans {c} {xs = xs} {ys = ys} a b = record {
    completed = b.completed ∙ a.completed;
    closed = b.closed ∙ a.closed;
    message_callbacks = b.message_callbacks ∙ a.message_callbacks;
    headers_callbacks = b.headers_callbacks ∙ a.headers_callbacks;
    end_callbacks = b.end_callbacks ∙ a.end_callbacks;
    parser = b.parser ∙ a.parser;
    response_headers = b.response_headers ∙ a.response_headers;
    response_trailers = b.response_trailers;
    history = b.history ∙ ap (λ t. t ++ ys) a.history ∙ append_assoc (callbacks_called c.log) xs ys;
  }

  After-then :
      {c d e : State E} {xs ys : List (ℕ × Event Metadata Response)} {k : Option Metadata}
      → After c d xs k
      → After d e ys d.response_trailers
      → After c e (xs ++ ys) k
  After-then {c} {d} {e} {xs} {ys} {k} a b =
      subst (λ t. After c e (xs ++ ys) t) a.response_trailers (After-trans a b)

  -- The second part may speak of the callbacks and trailers that the first one leaves.
  pub After-step :
      {c d e : State E} {xs : List (ℕ × Event Metadata Response)} {k : Option Metadata}
      (f : List ℕ → List (ℕ × Event Metadata Response)) (g : Option Metadata → Option Metadata)
      → After c d xs k
      → After d e (f d.on_message_callbacks) (g d.response_trailers)
      → After c e (xs ++ f c.on_message_callbacks) (g k)
  After-step {c} {d} {e} {xs} {k} f g a b =
      subst (λ t. After c e (xs ++ f t) (g k)) a.message_callbacks
        (subst (λ t. After c e (xs ++ f d.on_message_callbacks) (g t)) a.response_trailers
          (After-trans a b))

  with_trailers :
      (md : Metadata) (c : State E)
      → After c (record c { response_trailers = some md }) [] (some md)
  with_trailers md c = record {
    completed = refl;
    closed = refl;
    message_callbacks = refl;
    headers_callbacks = refl;
    end_callbacks = refl;
    parser = refl;
    response_headers = refl;
    response_trailers = refl;
    history = sym (append-nil _);
  }

  module _ (passive : IsPassive) where
    call_callback-After :
        (callback : ℕ) (event : Event Metadata Response) (c : State E)
        → After c (call_callback E callback event c) ((callback, event) ∷ []) c.response_trailers
    unfolding call_callback run_script
    call_callback-After callback event c = rw (passive callback event c.user).1 (record {
      completed = refl;
      closed = refl;
      message_callbacks = refl;
      headers_callbacks = refl;
      end_callbacks = refl;
      parser = refl;
      response_headers = refl;
      response_trailers = refl;
      history = refl;
    })

    pub for_each-After :
        (callbacks : List ℕ) (event : Event Metadata Response) (c : State E)
        → After c (for_each E callbacks event c) (told callbacks event) c.response_trailers
    unfolding for_each
    for_each-After [] event c = After-refl c
    for_each-After (x ∷ xs) event c =
        After-then (call_callback-After x event c)
          (for_each-After xs event (call_callback E x event c))

    pub for_each_open-After :
        (callbacks : List ℕ) (event : Event Metadata Response) (c : State E)
        → c.closed ≡ false
        → After c (for_each_open E callbacks event c) (told callbacks event) c.response_trailers
    unfolding for_each_open
    for_each_open-After [] event c h = After-refl c
    for_each_open-After (x ∷ xs) event c h =
        let d = call_callback E x event c in
        let a = call_callback-After x event c in
        subst (λ t. After c (for_each_open E xs event t) (told (x ∷ xs) event) c.response_trailers)
          (sym (if-false c d h)) (After-then a (for_each_open-After xs event d (a.closed ∙ h)))

    raw_on_message-After :
        (res : Response) (c : State E)
        → c.completed ≡ false
        → c.closed ≡ false
        → After c
            (raw_on_message E res c)
            (told c.on_message_callbacks (message res))
            c.response_trailers
    unfolding raw_on_message
    raw_on_message-After res c h k =
        subst (λ t. After c t (told c.on_message_callbacks (message res)) c.response_trailers)
          (sym (if-false c _ (or_false h k)))
          (for_each_open-After c.on_message_callbacks (message res) c k)

  -- A chunk that is no message, or a message that `deserializeBinary` takes.
  abbrev pub IsRead : Chunk Metadata → Type 0
  IsRead (Chunk.message bytes) = (res : Response) × (deserialize_binary bytes ≡ ok res)
  IsRead (Chunk.trailers md) = Unit

  abbrev pub told_result : List ℕ → Result Response → List (ℕ × Event Metadata Response)
  told_result callbacks (ok res) = told callbacks (message res)
  told_result callbacks (thrown e) = []

  -- What the callbacks for messages are told of some chunks.
  abbrev pub shown : List ℕ → List (Chunk Metadata) → List (ℕ × Event Metadata Response)
  shown callbacks [] = []
  shown callbacks (Chunk.message bytes ∷ chunks) =
      told_result callbacks (deserialize_binary bytes) ++ shown callbacks chunks
  shown callbacks (Chunk.trailers md ∷ chunks) = shown callbacks chunks

  module _ (passive : IsPassive) where
    -- With headers at hand, chunks that are read are told one after the other; nothing is thrown.
    pub on_chunks-After :
        (chunks : List (Chunk Metadata)) (c : State E) {md : Metadata}
        → All IsRead chunks
        → c.completed ≡ false
        → c.closed ≡ false
        → c.response_headers ≡ some md
        → After c
            (on_chunks E chunks c).0
            (shown c.on_message_callbacks chunks)
            (final_trailers copy c.response_trailers chunks)
          × ((on_chunks E chunks c).1 ≡ none)
    unfolding on_chunks on_deserialized on_trailers_after
    on_chunks-After [] c a h k r = (After-refl c, refl)
    on_chunks-After (Chunk.message bytes ∷ chunks) c ((res, e), a) h k r =
        let m = raw_on_message-After passive res c h k in
        let (b, done) =
          on_chunks-After chunks (raw_on_message E res c) a (m.completed ∙ h) (m.closed ∙ k)
            (m.response_headers ∙ r) in
        rw e
          (After-step (λ xs. shown xs chunks) (λ known. final_trailers copy known chunks) m b, done)
    on_chunks-After (Chunk.trailers md ∷ chunks) c (t, a) h k r =
        let (b, done) =
          on_chunks-After chunks (record c { response_trailers = some (copy md) }) a h k r in
        subst
          (λ received.
            After c (on_chunks E chunks (on_trailers_after E received md c)).0
              (shown c.on_message_callbacks chunks) (final_trailers copy (some (copy md)) chunks)
            × ((on_chunks E chunks (on_trailers_after E received md c)).1 ≡ none))
          (sym r) (After-trans (with_trailers (copy md) c) b, done)
