-- ===== src/Client/Ended.antt =====
-- client.ts: the one end that the user is told, for each way in which a response can end:
-- the methods that tell it, for callbacks that return and do not call the client.
use grpc_web.Prelude.{◌≡◌, ap, ◌∙◌, sym, true, false, Option, none, some, ◌++◌}
use grpc_web.Prelude.{Text, text, if-false}
use grpc_web.Client.Types.{Environment, State, Event, end}
use grpc_web.Client.Callbacks.{for_each_open, raw_on_error, raw_on_end, or_new}
use grpc_web.Client.Responses.{
  get_status_from_headers, number_of, on_transport_end, end_with, end_trailers, end_headers_only,
}
use grpc_web.Client.Silence.{callbacks_called}
use grpc_web.Client.Passive.{IsPassive, told, for_each_open-After}
use grpc_web.Client.Outcome.{final_event}
use grpc_web.Code.{Code}
use grpc_web.Js.Number.{Number}
use mathlib.Core.Path.{subst}

module _ (E : Environment) (passive : IsPassive E) where
  open E use {Metadata, Arg, Request, Response, copy, get, has_slice, from_text, new_metadata}

  -- The end of a response with these trailers, if any, and these headers: the status in the trailers
  -- or, without trailers, the one in the headers; or the error that there is none.
  abbrev pub status_or :
      Event Metadata Response → Metadata → Option Number → Event Metadata Response
  status_or otherwise md none = otherwise
  status_or otherwise md (some grpc_status) = final_event E passive grpc_status md

  abbrev pub ending : Option Metadata → Metadata → Event Metadata Response
  ending (some trailers) md =
      status_or
        (end (number_of Code.internal)
          (text "Response closed without grpc-status (Trailers provided)") new_metadata)
        trailers (get_status_from_headers E trailers)
  ending none md =
      status_or
        (end (number_of Code.unknown) (text "Response closed without grpc-status (Headers only)")
          md)
        md (get_status_from_headers E md)

  -- The user is told this end, and the request is complete.
  unfoldable pub Ends : State E → State E → Event Metadata Response → Type 0
  Ends c d event =
      (callbacks_called d.log ≡ callbacks_called c.log ++ told c.on_end_callbacks event)
      × (d.completed ≡ true)

  told_once :
      (event : Event Metadata Response) (c : State E)
      → c.closed ≡ false
      → Ends c (for_each_open E c.on_end_callbacks event (record c { completed = true })) event
  unfolding Ends
  told_once event c k =
      let a =
        for_each_open-After E passive c.on_end_callbacks event (record c { completed = true }) k in
      (a.history, a.completed)

  raw_on_end-Ends :
      (code : Number) (msg : Text) (md : Metadata) (c : State E)
      → c.completed ≡ false
      → c.closed ≡ false
      → Ends c (raw_on_end E code msg md c) (end code msg md)
  unfolding raw_on_end
  raw_on_end-Ends code msg md c h k =
      subst (λ d. Ends c d (end code msg md)) (sym (if-false c _ h))
        (told_once (end code msg md) c k)

  pub raw_on_error-Ends :
      (code : Number) (msg : Text) (md : Option Metadata) (c : State E)
      → c.completed ≡ false
      → c.closed ≡ false
      → Ends c (raw_on_error E code msg md c) (end code msg (or_new E md))
  unfolding raw_on_error
  raw_on_error-Ends code msg md c h k =
      subst (λ d. Ends c d (end code msg (or_new E md))) (sym (if-false c _ h))
        (told_once (end code msg (or_new E md)) c k)

  end_trailers-Ends :
      (grpc_status : Option Number) (md : Metadata) (c : State E)
      → c.completed ≡ false
      → c.closed ≡ false
      → Ends c (end_trailers E grpc_status md c) (
          status_or
            (end
              (number_of Code.internal)
              (text "Response closed without grpc-status (Trailers provided)")
              new_metadata)
            md
            grpc_status)
  unfolding end_trailers
  end_trailers-Ends none md c h k = raw_on_error-Ends _ _ none c h k
  end_trailers-Ends (some grpc_status) md c h k = raw_on_end-Ends grpc_status _ md c h k

  end_headers_only-Ends :
      (grpc_status : Option Number) (md : Metadata) (c : State E)
      → c.completed ≡ false
      → c.closed ≡ false
      → Ends c (end_headers_only E grpc_status md c) (
          status_or
            (end
              (number_of Code.unknown)
              (text "Response closed without grpc-status (Headers only)")
              md)
            md
            grpc_status)
  unfolding end_headers_only
  end_headers_only-Ends none md c h k = raw_on_end-Ends _ _ md c h k
  end_headers_only-Ends (some grpc_status) md c h k = raw_on_end-Ends grpc_status _ md c h k

  end_with-Ends :
      (trailers : Option Metadata) (md : Metadata) (c : State E)
      → c.completed ≡ false
      → c.closed ≡ false
      → Ends c (end_with E trailers (some md) c) (ending trailers md)
  unfolding end_with
  end_with-Ends none md c h k = end_headers_only-Ends (get_status_from_headers E md) md c h k
  end_with-Ends (some trailers) md c h k =
      end_trailers-Ends (get_status_from_headers E trailers) trailers c h k

  -- The end of the transport, on a client with headers.
  pub on_transport_end-Ends :
      (trailers : Option Metadata) (md : Metadata) (c : State E)
      → c.completed ≡ false
      → c.closed ≡ false
      → c.response_trailers ≡ trailers
      → c.response_headers ≡ some md
      → Ends c (on_transport_end E c) (ending trailers md)
  unfolding on_transport_end
  on_transport_end-Ends trailers md c h k t r =
      subst (λ d. Ends c d (ending trailers md))
        (sym (
          if-false c _ k
          ∙ ap (λ o. end_with E o c.response_headers c) t
          ∙ ap (λ o. end_with E trailers o c) r))
        (end_with-Ends trailers md c h k)
