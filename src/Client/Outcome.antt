-- ===== src/Client/Outcome.antt =====
-- client.ts from the response's bytes to the user: a whole response, for callbacks that return and
-- do not call the client.
use grpc_web.Prelude.{ℕ, ◌≡◌, refl, ap, ◌∙◌, sym, true, false, Option, some, List, [], ◌∷◌, ◌++◌}
use grpc_web.Prelude.{
  map, append_assoc, append-nil, ◌==◌, Text, text, Bytes, ok, All, All-append, concat, if-false,
  if-true,
}
use grpc_web.ChunkParser.{Chunk, new_parser, parse_trailer_data}
use grpc_web.ChunkParser.Split.{feed}
use grpc_web.ChunkParser.Frames.{FitsFrame}
use grpc_web.ChunkParser.RoundTrip.{feed-response}
use grpc_web.Framing.{frame_response, frame_trailers, header_block}
use grpc_web.Client.Types.{Environment, State, Event, headers, message, end}
use grpc_web.Client.Callbacks.{for_each, for_each_open, raw_on_headers, raw_on_end}
use grpc_web.Client.Responses.{
  get_status_from_headers, decode_grpc_status, first, headers_code, on_transport_headers,
  on_transport_end, end_with, end_trailers,
}
use grpc_web.Client.Session.{Input, transport_headers, transport_end, step, run}
use grpc_web.Client.Silence.{callbacks_called}
use grpc_web.Client.Passive.{
  IsPassive, told, After, IsRead, shown, final_trailers, for_each-After, for_each_open-After,
}
use grpc_web.Client.Delivery.{chunk_inputs, run-pieces, shown-append, final_trailers-append}
use grpc_web.Js.Number.{Number, is_number}
use mathlib.Core.Path.{subst}

-- Three parts, one behind the other.
regroup :
    {A : Type 0} (h0 h1 h2 h3 xs ys zs : List A)
    → h1 ≡ h0 ++ xs
    → h2 ≡ h1 ++ ys
    → h3 ≡ h2 ++ zs
    → h3 ≡ h0 ++ (xs ++ (ys ++ zs))
regroup h0 h1 h2 h3 xs ys zs e f g =
    g ∙ ap (λ t. t ++ zs) (f ∙ ap (λ t. t ++ ys) e) ∙ simp append_assoc

module _ (E : Environment) (passive : IsPassive E) where
  open E use {Metadata, Arg, Request, Response, copy, get, from_text, has_slice, deserialize_binary}

  pub run-append :
      (xs ys : List (Input Metadata Arg Request)) (c : State E)
      → run E (xs ++ ys) c ≡ run E ys (run E xs c)
  unfolding run
  run-append [] ys c = refl
  run-append (x ∷ xs) ys c = run-append xs ys (step E x c).0

  -- `deserializeBinary` takes these payloads, and returns these messages.
  abbrev pub Deserializes : List Bytes → List Response → Type 0
  Deserializes [] [] = Unit
  Deserializes (b ∷ bs) (r ∷ rs) = (deserialize_binary b ≡ ok r) × Deserializes bs rs
  Deserializes _ _ = ⊥

  -- Each message is told to all callbacks before the next one.
  abbrev pub told_all : List ℕ → List Response → List (ℕ × Event Metadata Response)
  told_all callbacks [] = []
  told_all callbacks (r ∷ rs) = told callbacks (message r) ++ told_all callbacks rs

  messages_IsRead :
      (payloads : List Bytes) (rs : List Response)
      → Deserializes payloads rs
      → All (IsRead E) (map Chunk.message payloads)
  messages_IsRead [] [] d = tt
  messages_IsRead [] (r ∷ rs) d = absurd d
  messages_IsRead (b ∷ bs) [] d = absurd d
  messages_IsRead (b ∷ bs) (r ∷ rs) (e, d) = ((r, e), messages_IsRead bs rs d)

  shown_messages :
      (callbacks : List ℕ) (payloads : List Bytes) (rs : List Response)
      → Deserializes payloads rs
      → shown E callbacks (map Chunk.message payloads) ≡ told_all callbacks rs
  shown_messages callbacks [] [] d = refl
  shown_messages callbacks [] (r ∷ rs) d = absurd d
  shown_messages callbacks (b ∷ bs) [] d = absurd d
  shown_messages callbacks (b ∷ bs) (r ∷ rs) (e, d) =
      rw e (ap (λ t. told callbacks (message r) ++ t) (shown_messages callbacks bs rs d))

  final_trailers_messages :
      (known : Option Metadata) (payloads : List Bytes)
      → final_trailers copy known (map Chunk.message payloads) ≡ known
  final_trailers_messages known [] = refl
  final_trailers_messages known (b ∷ bs) = final_trailers_messages known bs

  -- Headers of a success are kept, and told.
  pub headers-After :
      (md : Metadata) (status : ℕ) (c : State E)
      → c.completed ≡ false
      → c.closed ≡ false
      → (status == 0) ≡ false
      → is_number (headers_code (get_status_from_headers E md) status) 0 ≡ true
      → After E
          (record c { response_headers = some md })
          (on_transport_headers E md status c)
          (told c.on_headers_callbacks (headers md))
          c.response_trailers
  unfolding on_transport_headers raw_on_headers
  headers-After md status c h k z e =
      let d = record c { response_headers = some md } in
      let all_told = told c.on_headers_callbacks (headers md) in
      let path : on_transport_headers E md status c
          ≡ for_each E c.on_headers_callbacks (headers md) d =
        if-false c _ k ∙ if-false c _ z ∙ if-true (raw_on_headers E md d) _ e ∙ if-false d _ h in
      subst (λ t. After E d t all_told c.response_trailers) (sym path)
        (for_each-After E passive c.on_headers_callbacks (headers md) d)

  -- What `onEnd` is told at the end of a response with trailers.
  abbrev pub final_event : Number → Metadata → Event Metadata Response
  final_event grpc_status md =
      end grpc_status (decode_grpc_status (first (get md (text "grpc-message")))) md

  -- The end, with trailers that hold a status.
  end-After :
      (md : Metadata) (grpc_status : Number) (c : State E)
      → c.completed ≡ false
      → c.closed ≡ false
      → c.response_trailers ≡ some md
      → get_status_from_headers E md ≡ some grpc_status
      → After E
          (record c { completed = true })
          (on_transport_end E c)
          (told c.on_end_callbacks (final_event grpc_status md))
          c.response_trailers
  unfolding on_transport_end end_with end_trailers raw_on_end
  end-After md grpc_status c h k t e =
      let d = record c { completed = true } in
      let event = final_event grpc_status md in
      let path : on_transport_end E c ≡ for_each_open E c.on_end_callbacks event d =
        if-false c _ k
        ∙ ap (λ r. end_with E r c.response_headers c) t
        ∙ ap (λ r. end_trailers E r md c) e
        ∙ if-false c _ h in
      subst (λ o. After E d o (told c.on_end_callbacks event) c.response_trailers) (sym path)
        (for_each_open-After E passive c.on_end_callbacks event d k)

  -- The parser gives the messages and the trailers of the whole response.
  pub response_chunks :
      (callbacks : List ℕ) (payloads : List Bytes) (rs : List Response) (md : Metadata)
      (known : Option Metadata)
      → Deserializes payloads rs
      → let cs = map Chunk.message payloads ++ Chunk.trailers md ∷ [] in
        (shown E callbacks cs ≡ told_all callbacks rs)
        × (final_trailers copy known cs ≡ some (copy md))
        × All (IsRead E) cs
  response_chunks callbacks payloads rs md known d = (
    shown-append E passive callbacks (map Chunk.message payloads) (Chunk.trailers md ∷ [])
        ∙ append-nil _
        ∙ shown_messages callbacks payloads rs d,
    final_trailers-append copy known (map Chunk.message payloads) (Chunk.trailers md ∷ []),
    All-append (IsRead E) (map Chunk.message payloads) (Chunk.trailers md ∷ [])
        (messages_IsRead payloads rs d) (tt, tt),
  )

  -- A client that is neither closed nor complete and whose parser is new gets headers with an HTTP
  -- status other than 0 and the code OK, then a body of messages and trailers with a grpc-status,
  -- cut into pieces in any way, then the end. The callbacks return and do not call the client;
  -- `deserializeBinary` takes each message; the payloads and the trailer block fit their length
  -- bytes, and the block is taken by `new Metadata`. Then the user is told the headers; each
  -- message once, in order; and at the end the grpc-status, its decoded message and the trailers,
  -- each callback in the order of its registration; and nothing else. The request is then
  -- complete.
  pub run-response :
      (c : State E) (md trailer_md : Metadata) (status : ℕ) (grpc_status : Number)
      (payloads pieces : List Bytes) (rs : List Response) (to_buffer : Text → Bytes)
      (entries : List (Text × List Text))
      → c.completed ≡ false
      → c.closed ≡ false
      → c.parser ≡ new_parser
      → (status == 0) ≡ false
      → is_number (headers_code (get_status_from_headers E md) status) 0 ≡ true
      → Deserializes payloads rs
      → All FitsFrame payloads
      → FitsFrame (to_buffer (header_block entries))
      → parse_trailer_data from_text (to_buffer (header_block entries)) ≡ ok trailer_md
      → get_status_from_headers E (copy trailer_md) ≡ some grpc_status
      → concat pieces ≡ concat (map frame_response payloads) ++ frame_trailers to_buffer entries
      → let c' =
          run E
            (transport_headers md status ∷ chunk_inputs E passive pieces ++ transport_end ∷ [])
            c in
        (callbacks_called c'.log
          ≡ callbacks_called c.log
            ++ (told c.on_headers_callbacks (headers md)
                ++ (told_all c.on_message_callbacks rs
                    ++ told c.on_end_callbacks (final_event grpc_status (copy trailer_md)))))
        × (c'.completed ≡ true)
  run-response c md trailer_md status grpc_status payloads pieces rs to_buffer entries h k p z e d
        fits fits' b s w =
      let (all_chunks, _) =
        feed-response has_slice from_text payloads pieces to_buffer entries trailer_md fits fits' b
          w in
      let c1 = on_transport_headers E md status c in
      let a1 = headers-After md status c h k z e in
      let cs = map Chunk.message payloads ++ Chunk.trailers trailer_md ∷ [] in
      let (shows, ends, reads) =
        response_chunks c1.on_message_callbacks payloads rs trailer_md c1.response_trailers d in
      let (q, a2) =
        run-pieces E passive pieces c1 cs
          (ap (λ t. (feed has_slice from_text t pieces).1) (a1.parser ∙ p) ∙ all_chunks) reads
          (a1.completed ∙ h) (a1.closed ∙ k) a1.response_headers in
      let c2 = run E (chunk_inputs E passive pieces) c1 in
      let a3 =
        end-After (copy trailer_md) grpc_status c2 (a2.completed ∙ a1.completed ∙ h)
          (a2.closed ∙ a1.closed ∙ k) (a2.response_trailers ∙ ends) s in
      let path : run E
            (transport_headers md status ∷ chunk_inputs E passive pieces ++ transport_end ∷ []) c
          ≡ on_transport_end E c2 =
        unfold run step in run-append (chunk_inputs E passive pieces) (transport_end ∷ []) c1 in
      subst
        (λ o.
          (callbacks_called o.log
            ≡ callbacks_called c.log
              ++ (told c.on_headers_callbacks (headers md)
                  ++ (told_all c.on_message_callbacks rs
                      ++ told c.on_end_callbacks (final_event grpc_status (copy trailer_md)))))
          × (o.completed ≡ true))
        (sym path)
        (
          regroup _ _ _ _ _ _ _ a1.history
              (a2.history
                ∙ ap (λ t. callbacks_called c1.log ++ t)
                    (shows ∙ ap (λ t. told_all t rs) a1.message_callbacks))
              (a3.history
                ∙ ap
                    (λ t.
                      callbacks_called c2.log ++ told t (final_event grpc_status (copy trailer_md)))
                    (a2.end_callbacks ∙ a1.end_callbacks)),
          a3.completed,
        )
