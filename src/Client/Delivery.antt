-- ===== src/Client/Delivery.antt =====
-- client.ts with its parser: what the callbacks are told of a whole response.
use grpc_web.Prelude.{
  ℕ, ◌≡◌, refl, arith, ap, ◌∙◌, sym, false, Option, none, some, List, [], ◌∷◌, ◌++◌,
}
use grpc_web.Prelude.{map, append_assoc, Bytes, Result, ok, thrown, All, if-false}
use grpc_web.ChunkParser.{Chunk, Parser, parse}
use grpc_web.ChunkParser.Split.{after, feed}
use grpc_web.Client.Types.{Environment, State, Event}
use grpc_web.Client.Responses.{on_chunks, on_parsed, on_transport_chunk}
use grpc_web.Client.Session.{Input, transport_chunk, step, run}
use grpc_web.Client.Passive.{
  IsPassive, told_result, After, After-refl, After-step, IsRead, shown, final_trailers,
  on_chunks-After,
}
use mathlib.Core.Path.{subst}

-- Pieces whose calls of the parser all return: the first one's chunks, and the later ones'.
after-ok :
    {Md : Type 0} (r : Result (List (Chunk Md))) (p : Parser)
    (later : Parser × Result (List (Chunk Md))) {cs : List (Chunk Md)}
    → (after r p later).1 ≡ ok cs
    → (xs : List (Chunk Md)) × (ys : List (Chunk Md)) × (r ≡ ok xs)
      × (later.1 ≡ ok ys)
      × (cs ≡ xs ++ ys)
after-ok (ok xs) p (q, ok ys) e = (xs, ys, refl, refl, ground arith)
after-ok (ok xs) p (q, thrown msg) e = cc
after-ok (thrown msg) p later e = cc

All-append_inv :
    {A : Type 0} (P : A → Type 0) (xs ys : List A) → All P (xs ++ ys) → All P xs × All P ys
All-append_inv P [] ys h = (tt, h)
All-append_inv P (x ∷ xs) ys (p, h) = let (a, b) = All-append_inv P xs ys h in ((p, a), b)

pub final_trailers-append :
    {Md : Type 0} (copy : Md → Md) (known : Option Md) (xs ys : List (Chunk Md))
    → final_trailers copy known (xs ++ ys) ≡ final_trailers copy (final_trailers copy known xs) ys
final_trailers-append copy known [] ys = refl
final_trailers-append copy known (Chunk.message b ∷ xs) ys = final_trailers-append copy known xs ys
final_trailers-append copy known (Chunk.trailers md ∷ xs) ys =
    final_trailers-append copy (some (copy md)) xs ys

ok-injective : {A : Type 0} {a b : A} → ok a ≡ ok b → a ≡ b
ok-injective e = cc

module _ (E : Environment) (passive : IsPassive E) where
  open E use {Metadata, Arg, Request, Response, copy, from_text, has_slice}

  pub shown-append :
      (callbacks : List ℕ) (xs ys : List (Chunk Metadata))
      → shown E callbacks (xs ++ ys) ≡ shown E callbacks xs ++ shown E callbacks ys
  shown-append callbacks [] ys = refl
  shown-append callbacks (Chunk.message b ∷ xs) ys =
      let front = told_result E callbacks (E.deserialize_binary b) in
      ap (λ t. front ++ t) (shown-append callbacks xs ys)
      ∙ sym (append_assoc front (shown E callbacks xs) (shown E callbacks ys))
  shown-append callbacks (Chunk.trailers md ∷ xs) ys = shown-append callbacks xs ys

  abbrev pub chunk_inputs : List Bytes → List (Input Metadata Arg Request)
  chunk_inputs = map transport_chunk

  -- A call whose bytes are parsed without an exception.
  on_transport_chunk-ok :
      (bytes : Bytes) (c : State E) (chunks : List (Chunk Metadata))
      → c.closed ≡ false
      → (parse has_slice from_text c.parser bytes false).1 ≡ ok chunks
      → on_transport_chunk E bytes c
        ≡ on_chunks E chunks
            (record c { parser = (parse has_slice from_text c.parser bytes false).0 })
  unfolding on_transport_chunk on_parsed
  on_transport_chunk-ok bytes c chunks k e =
      let d = record c { parser = (parse has_slice from_text c.parser bytes false).0 } in
      if-false (c, none) _ k ∙ ap (λ r. on_parsed E r d) e

  After-reparse :
      {c d : State E} {xs : List (ℕ × Event Metadata Response)} {known : Option Metadata}
      (p : Parser)
      → After E c d xs known
      → After E (record c { parser = p }) (record d { parser = p }) xs known
  After-reparse p a = record {
    completed = a.completed;
    closed = a.closed;
    message_callbacks = a.message_callbacks;
    headers_callbacks = a.headers_callbacks;
    end_callbacks = a.end_callbacks;
    parser = refl;
    response_headers = a.response_headers;
    response_trailers = a.response_trailers;
    history = a.history;
  }

  -- What the user is told of some chunks, as one statement of the chunks.
  abbrev pub Told : State E → State E → List (Chunk Metadata) → Type 0
  Told c d cs =
      (p : Parser) × After E (record c { parser = p }) d (shown E c.on_message_callbacks cs)
        (final_trailers copy c.response_trailers cs)

  Told-append :
      (c d e : State E) (p : Parser) (xs ys : List (Chunk Metadata))
      → After E
          (record c { parser = p })
          d
          (shown E c.on_message_callbacks xs)
          (final_trailers copy c.response_trailers xs)
      → Told d e ys
      → Told c e (xs ++ ys)
  Told-append c d e p xs ys a (q, b) = (
    q,
    rw
        (
          shown-append c.on_message_callbacks xs ys,
          final_trailers-append copy c.response_trailers xs ys,
        )
        (After-step E (λ ms. shown E ms ys) (λ known. final_trailers copy known ys)
          (After-reparse q a) b),
  )

  -- Feeding the client is feeding its parser, and telling the user of all the chunks.
  pub run-pieces :
      (pieces : List Bytes) (c : State E) (cs : List (Chunk Metadata)) {md : Metadata}
      → (feed has_slice from_text c.parser pieces).1 ≡ ok cs
      → All (IsRead E) cs
      → c.completed ≡ false
      → c.closed ≡ false
      → c.response_headers ≡ some md
      → Told c (run E (chunk_inputs pieces) c) cs
  unfolding run step
  run-pieces [] c cs f a h k r = (c.parser, rw (← ok-injective f) (After-refl E c))
  run-pieces (b ∷ bs) c cs f a h k r =
      let (xs, ys, first, rest, split) = after-ok _ _ _ f in
      let p = (parse has_slice from_text c.parser b false).0 in
      let d = (on_chunks E xs (record c { parser = p })).0 in
      let (ax, ay) = All-append_inv (IsRead E) xs ys (rw split at a) in
      let (t, _) = on_chunks-After E passive xs (record c { parser = p }) ax h k r in
      let e : on_transport_chunk E b c ≡ on_chunks E xs (record c { parser = p }) =
        on_transport_chunk-ok b c xs k first in
      let later =
        run-pieces bs d ys (ap (λ q. (feed has_slice from_text q bs).1) t.parser ∙ rest) ay
          (t.completed ∙ h) (t.closed ∙ k) (t.response_headers ∙ r) in
      subst (Told c _) (sym split) (
        Told-append c d _ p xs ys t
          (subst (λ o. Told d (run E (chunk_inputs bs) o) ys) (sym (ap (λ o. o.0) e)) later))
