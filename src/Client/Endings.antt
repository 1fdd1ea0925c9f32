-- ===== src/Client/Endings.antt =====
-- client.ts: the one end that the user is told, for each way in which a response can end, for callbacks
-- that return and do not call the client.
use grpc_web.Prelude.{ℕ, ◌≡◌, refl, ap, ◌∙◌, sym, true, false, Option, some, List, [], ◌∷◌, ◌++◌}
use grpc_web.Prelude.{append_assoc, ◌==◌, text, Bytes, ok, All, if-false}
use grpc_web.ChunkParser.{Chunk}
use grpc_web.ChunkParser.Split.{feed}
use grpc_web.Client.Types.{Environment, State, headers, end}
use grpc_web.Client.Callbacks.{raw_on_headers, raw_on_error}
use grpc_web.Client.Responses.{
  get_status_from_headers, decode_grpc_status, first, headers_code, on_transport_headers,
  on_transport_end,
}
use grpc_web.Client.Session.{Input, transport_headers, transport_end, step, run}
use grpc_web.Client.Silence.{callbacks_called, run_completed}
use grpc_web.Client.Passive.{IsPassive, told, After, IsRead, shown, final_trailers, for_each-After}
use grpc_web.Client.Delivery.{chunk_inputs, run-pieces}
use grpc_web.Client.Outcome.{headers-After, run-append}
use grpc_web.Js.Number.{is_number}
use mathlib.Core.Path.{subst}
use grpc_web.Client.Ended.{ending, Ends, raw_on_error-Ends, on_transport_end-Ends}

module _ (E : Environment) (passive : IsPassive E) where
  open E use {Metadata, Arg, Request, Response, copy, get, has_slice, from_text, new_metadata}

  -- What is told behind the headers, of pieces and the end.
  pub pieces_ending :
      (c : State E) (md : Metadata) (pieces : List Bytes) (cs : List (Chunk Metadata))
      → c.completed ≡ false
      → c.closed ≡ false
      → c.response_headers ≡ some md
      → (feed has_slice from_text c.parser pieces).1 ≡ ok cs
      → All (IsRead E) cs
      → let c' = run E (chunk_inputs E passive pieces ++ transport_end ∷ []) c in
        (callbacks_called c'.log
          ≡ callbacks_called c.log
            ++ (shown E c.on_message_callbacks cs
                ++ told c.on_end_callbacks
                    (ending E passive (final_trailers copy c.response_trailers cs) md)))
        × (c'.completed ≡ true)
  unfolding Ends
  pieces_ending c md pieces cs h k r f reads =
      let (q, a) = run-pieces E passive pieces c cs f reads h k r in
      let d = run E (chunk_inputs E passive pieces) c in
      let last = final_trailers copy c.response_trailers cs in
      let (ends, complete) =
        on_transport_end-Ends E passive last md d (a.completed ∙ h) (a.closed ∙ k)
          a.response_trailers (a.response_headers ∙ r) in
      let path : run E (chunk_inputs E passive pieces ++ transport_end ∷ []) c
          ≡ on_transport_end E d =
        unfold run step in
        run-append E passive (chunk_inputs E passive pieces) (transport_end ∷ []) c in
      (
        ap (λ o. callbacks_called o.log) path
            ∙ ends
            ∙ ap (λ t. t ++ told d.on_end_callbacks (ending E passive last md)) a.history
            ∙ append_assoc (callbacks_called c.log) (shown E c.on_message_callbacks cs) _
            ∙ ap
                (λ t.
                  callbacks_called c.log
                  ++ (shown E c.on_message_callbacks cs ++ told t (ending E passive last md)))
                a.end_callbacks,
        ap (λ o. o.completed) path ∙ complete,
      )

  -- The callbacks and the trailers of a client that has told its headers are those of before.
  told_behind :
      (c : State E) (md : Metadata) (cs : List (Chunk Metadata)) (on_messages on_ends : List ℕ)
      (known : Option Metadata)
      → on_messages ≡ c.on_message_callbacks
      → on_ends ≡ c.on_end_callbacks
      → known ≡ c.response_trailers
      → callbacks_called c.log
          ++ (told c.on_headers_callbacks (headers md)
              ++ (shown E on_messages cs
                  ++ told on_ends (ending E passive (final_trailers copy known cs) md)))
        ≡ callbacks_called c.log
          ++ (told c.on_headers_callbacks (headers md)
              ++ (shown E c.on_message_callbacks cs
                  ++ told c.on_end_callbacks
                      (ending E passive (final_trailers copy c.response_trailers cs) md)))
  told_behind c md cs on_messages on_ends known e f g = rw (e, f, g) refl

  -- A client that is neither closed nor complete gets headers with an HTTP status other than 0 and
  -- the code OK, then pieces that its parser reads without an exception, with messages that
  -- `deserializeBinary` takes, then the end; its callbacks return and do not call the client. Then
  -- the user is told the headers, the messages in order, and one end: with trailers the status and
  -- message in the last of them, or the error Internal if they hold no status; without trailers the
  -- status and message in the headers, or the error Unknown if they hold none, and in both cases
  -- the headers themselves as the end's trailers. Nothing else is told, and the request is complete.
  pub run-ending :
      (c : State E) (md : Metadata) (status : ℕ) (pieces : List Bytes) (cs : List (Chunk Metadata))
      → c.completed ≡ false
      → c.closed ≡ false
      → (status == 0) ≡ false
      → is_number (headers_code (get_status_from_headers E md) status) 0 ≡ true
      → (feed has_slice from_text c.parser pieces).1 ≡ ok cs
      → All (IsRead E) cs
      → let c' =
          run E
            (transport_headers md status ∷ chunk_inputs E passive pieces ++ transport_end ∷ [])
            c in
        (callbacks_called c'.log
          ≡ callbacks_called c.log
            ++ (told c.on_headers_callbacks (headers md)
                ++ (shown E c.on_message_callbacks cs
                    ++ told c.on_end_callbacks
                        (ending E passive (final_trailers copy c.response_trailers cs) md))))
        × (c'.completed ≡ true)
  unfolding run step
  run-ending c md status pieces cs h k z e f reads =
      let c1 = on_transport_headers E md status c in
      let a = headers-After E passive md status c h k z e in
      let (later, complete) =
        pieces_ending c1 md pieces cs (a.completed ∙ h) (a.closed ∙ k) a.response_headers
          (ap (λ t. (feed has_slice from_text t pieces).1) a.parser ∙ f) reads in
      (
        later
            ∙ ap
                (λ t.
                  t
                  ++ (shown E c1.on_message_callbacks cs
                      ++ told c1.on_end_callbacks
                          (ending E passive (final_trailers copy c1.response_trailers cs) md)))
                a.history
            ∙ append_assoc (callbacks_called c.log) (told c.on_headers_callbacks (headers md)) _
            ∙ told_behind c md cs _ _ _ a.message_callbacks a.end_callbacks a.response_trailers,
        complete,
      )

  -- A response with an HTTP status other than 0 and a code that is not OK, to a client that is neither
  -- closed nor complete, whose callbacks return and do not call the client: the user is told the
  -- headers and, at once, the end with that code, the decoded grpc-message and the headers. Whatever
  -- the user and the transport do behind that, nothing else is told.
  pub run-failed_headers :
      (c : State E) (md : Metadata) (status : ℕ) (inputs : List (Input Metadata Arg Request))
      → c.completed ≡ false
      → c.closed ≡ false
      → (status == 0) ≡ false
      → is_number (headers_code (get_status_from_headers E md) status) 0 ≡ false
      → let code = headers_code (get_status_from_headers E md) status in
        let c' = run E (transport_headers md status ∷ inputs) c in
        (callbacks_called c'.log
          ≡ callbacks_called c.log
            ++ (told c.on_headers_callbacks (headers md)
                ++ told c.on_end_callbacks
                    (end code (decode_grpc_status (first (get md (text "grpc-message")))) md)))
        × (c'.completed ≡ true)
  unfolding run step on_transport_headers raw_on_headers Ends
  run-failed_headers c md status inputs h k z e =
      let code = headers_code (get_status_from_headers E md) status in
      let msg = decode_grpc_status (first (get md (text "grpc-message"))) in
      let d : State E = record c { response_headers = some md } in
      let c1 = raw_on_headers E md d in
      let c2 = raw_on_error E code msg (some md) c1 in
      let a1 : After E d c1 (told c.on_headers_callbacks (headers md)) c.response_trailers =
        subst (λ t. After E d t (told c.on_headers_callbacks (headers md)) c.response_trailers)
          (sym (if-false d _ h)) (for_each-After E passive c.on_headers_callbacks (headers md) d) in
      let (a2, complete) =
        raw_on_error-Ends E passive code msg (some md) c1 (a1.completed ∙ h) (a1.closed ∙ k) in
      let path : on_transport_headers E md status c ≡ c2 =
        if-false c _ k ∙ if-false c _ z ∙ if-false c1 _ e in
      let (silent, stays) = run_completed E inputs c2 complete in
      subst
        (λ o.
          (callbacks_called (run E inputs o).log
            ≡ callbacks_called c.log
              ++ (told c.on_headers_callbacks (headers md)
                  ++ told c.on_end_callbacks (end code msg md)))
          × ((run E inputs o).completed ≡ true))
        (sym path)
        (
          silent
              ∙ a2
              ∙ ap (λ t. t ++ told c1.on_end_callbacks (end code msg md)) a1.history
              ∙ append_assoc (callbacks_called c.log) (told c.on_headers_callbacks (headers md)) _
              ∙ ap
                  (λ t.
                    callbacks_called c.log
                    ++ (told c.on_headers_callbacks (headers md) ++ told t (end code msg md)))
                  a1.end_callbacks,
          stays,
        )
