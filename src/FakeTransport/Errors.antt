-- ===== src/FakeTransport/Errors.antt =====
-- fake-transport/src/index.ts with client.ts: the errors of a fake server.
use grpc_web.Prelude.{
  ℕ, ◌≡◌, refl, ap, sym, ◌∙◌, true, false, Option, none, some, List, [], ◌∷◌, ◌++◌,
}
use grpc_web.Prelude.{append_assoc, Text, text, Bytes, ok, All}
use grpc_web.ChunkParser.{new_parser, parse_trailer_data}
use grpc_web.ChunkParser.Frames.{FitsFrame}
use grpc_web.Framing.{header_block}
use grpc_web.Client.Types.{Environment, State, headers, end}
use grpc_web.Client.Responses.{
  get_status_from_headers, headers_code, decode_grpc_status, first, on_transport_headers,
}
use grpc_web.Client.Session.{transport_end, step, run}
use grpc_web.Client.Silence.{callbacks_called}
use grpc_web.Client.Passive.{IsPassive, told}
use grpc_web.Client.Outcome.{Deserializes, told_all, headers-After, run-response}
use grpc_web.Client.Endings.{run-failed_headers}
use grpc_web.Js.Number.{is_number, parse_int}
use grpc_web.FakeTransport.{
  FakeTransportBuilder, new_builder, headers_calls, messages_calls, trailers_calls, send_headers,
  send_messages, send_trailers, send_all, error_metadata,
}
use grpc_web.FakeTransport.Whole.{body_pieces, as_inputs, concat-body_pieces}

-- What was told before, and two events that the callbacks of before are told.
told_in_turn :
    {A : Type 0} (first_event last_event : A) (before seen : List (ℕ × A)) (history : List (ℕ × A))
    (on_headers on_ends : List ℕ) (callbacks : List ℕ × List ℕ)
    → history ≡ before ++ seen
    → on_headers ≡ callbacks.0
    → on_ends ≡ callbacks.1
    → history ++ (told on_headers first_event ++ told on_ends last_event)
      ≡ before ++ (seen ++ (told callbacks.0 first_event ++ told callbacks.1 last_event))
told_in_turn first_event last_event before seen history on_headers on_ends callbacks e f g =
    rw (e, f, g) (append_assoc before seen _)

module _ (E : Environment) (passive : IsPassive E) (entries : E.Metadata → List (Text × List Text))
    (to_buffer : Text → Bytes) where
  open E use {Metadata, Response, get, new_metadata, copy}

  -- A fake transport with headers and an error before the messages, all of whose triggers are sent to
  -- a client that is neither closed nor complete, whose callbacks return and do not call it. The code
  -- of the headers is OK, that of the metadata of the error is not. Then the user is told the
  -- headers, the metadata of the error as headers too, and at once the end with that code, the
  -- decoded message of the error and its metadata; no message, and one end; and the request is
  -- complete.
  pub send_all-messages_error :
      (c : State E) (md : Metadata) (error : Text × Text) (messages : List Bytes)
      (later_error : Option (Text × Text)) (trailers : Option Metadata)
      → c.completed ≡ false
      → c.closed ≡ false
      → is_number (headers_code (get_status_from_headers E md) 200) 0 ≡ true
      → is_number
          (headers_code (get_status_from_headers E (error_metadata E entries to_buffer error)) 200)
          0
        ≡ false
      → let error_md = error_metadata E entries to_buffer error in
        let code = headers_code (get_status_from_headers E error_md) 200 in
        let mock : FakeTransportBuilder Metadata = record new_builder {
          headers = some md;
          pre_messages_error = some error;
          messages = messages;
          pre_trailers_error = later_error;
          trailers = trailers;
        } in
        let c' = run E (send_all E entries to_buffer mock) c in
        (callbacks_called c'.log
          ≡ callbacks_called c.log
            ++ (told c.on_headers_callbacks (headers md)
                ++ (told c.on_headers_callbacks (headers error_md)
                    ++ told c.on_end_callbacks (
                        end code
                          (decode_grpc_status (first (get error_md (text "grpc-message"))))
                          error_md))))
        × (c'.completed ≡ true)
  unfolding send_all send_headers send_messages headers_calls messages_calls new_builder run step
  send_all-messages_error c md error messages later_error trailers h k e f =
      let error_md = error_metadata E entries to_buffer error in
      let code = headers_code (get_status_from_headers E error_md) 200 in
      let c1 = on_transport_headers E md 200 c in
      let a = headers-After E passive md 200 c h k refl e in
      let (later, complete) =
        run-failed_headers E passive c1 error_md 200 (transport_end ∷ []) (a.completed ∙ h)
          (a.closed ∙ k) refl f in
      (
        later
            ∙ told_in_turn _ _ (callbacks_called c.log) (told c.on_headers_callbacks (headers md)) _
                _ _ (c.on_headers_callbacks, c.on_end_callbacks) a.history a.headers_callbacks
                a.end_callbacks,
        complete,
      )

  status_read :
      (md : Metadata) (status : Text)
      → get (copy md) (text "grpc-status") ≡ status ∷ []
      → get_status_from_headers E (copy md) ≡ some (parse_int status)
  unfolding get_status_from_headers
  status_read md status e = ap (λ values. elim values [ [] ↦ none | s ∷ _ ↦ some (parse_int s) ]) e

  -- A fake transport with headers, messages and an error before the trailers, all of whose triggers
  -- are sent to a client that is neither closed nor complete and whose parser is new, whose callbacks
  -- return and do not call it. The code of the headers is OK; `deserializeBinary` takes each message;
  -- the frames' lengths fit; and what `new Metadata` reads of the block of the error's metadata holds
  -- the status and the message of the error again. Then the user is told the headers, each message
  -- once, in order, and the end with the number that parseInt reads of that status, that message
  -- with its percent signs decoded where they can be, and what was read; nothing else; and the
  -- request is complete.
  pub send_all-trailers_error :
      (c : State E) (md : Metadata) (error : Text × Text) (messages : List Bytes)
      (trailers : Option Metadata) (rs : List Response) (trailer_md : Metadata)
      → c.completed ≡ false
      → c.closed ≡ false
      → c.parser ≡ new_parser
      → is_number (headers_code (get_status_from_headers E md) 200) 0 ≡ true
      → Deserializes E passive messages rs
      → All FitsFrame messages
      → FitsFrame (to_buffer (header_block (entries (error_metadata E entries to_buffer error))))
      → parse_trailer_data E.from_text
          (to_buffer (header_block (entries (error_metadata E entries to_buffer error))))
        ≡ ok trailer_md
      → get (copy trailer_md) (text "grpc-status") ≡ error.0 ∷ []
      → get (copy trailer_md) (text "grpc-message") ≡ error.1 ∷ []
      → let mock : FakeTransportBuilder Metadata = record new_builder {
        headers = some md;
        messages = messages;
        pre_trailers_error = some error;
        trailers = trailers;
      } in
        let c' = run E (send_all E entries to_buffer mock) c in
        (callbacks_called c'.log
          ≡ callbacks_called c.log
            ++ (told c.on_headers_callbacks (headers md)
                ++ (told_all E passive c.on_message_callbacks rs
                    ++ told c.on_end_callbacks (
                        end
                          (parse_int error.0)
                          (decode_grpc_status (some error.1))
                          (copy trailer_md)))))
        × (c'.completed ≡ true)
  unfolding send_all send_headers send_messages send_trailers headers_calls messages_calls
      trailers_calls new_builder
  send_all-trailers_error c md error messages trailers rs trailer_md h k p e d fits fits' b status
        message =
      let error_md = error_metadata E entries to_buffer error in
      let told_end : first (get (copy trailer_md) (text "grpc-message")) ≡ some error.1 =
        ap first message in
      rw (as_inputs E passive entries to_buffer messages error_md, sym told_end)
        (run-response E passive c md trailer_md 200 (parse_int error.0) messages
          (body_pieces E passive entries to_buffer messages error_md) rs to_buffer
          (entries error_md) h k p refl e d fits fits' b (status_read trailer_md error.0 status)
          (concat-body_pieces E passive entries to_buffer messages error_md))
