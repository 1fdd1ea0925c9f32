-- ===== src/Client/Keeps.antt =====
-- Invariants of the client by its single writes: what these keep, the calls of callbacks keep, the
-- calls that callbacks make included.
use grpc_web.Prelude.{ℕ, Bool, true, false, ◌||◌, Option, none, some, List, [], ◌∷◌, Text}
use grpc_web.Prelude.{◌≡◌}
use grpc_web.ChunkParser.{Parser}
use grpc_web.Client.Types.{
  Environment, State, Command, Event, Script, return, throw, call, called, later_throw, headers,
}
use grpc_web.Client.Requests.{record_action, obey}
use grpc_web.Client.Callbacks.{
  run_script, rethrow_later, call_callback, for_each, for_each_open, raw_on_end, raw_on_headers,
  raw_on_error, raw_on_message,
}
use grpc_web.Js.Number.{Number}
use grpc_web.Client.Parts.{IsKept, if_keeps, if_cases}

-- Only headers are told by a client that is closed.
abbrev pub MayTell : {Md Resp : Type 0} → Event Md Resp → Bool → Type 0
MayTell (headers md) closed = Unit
MayTell _ closed = closed ≡ false

pub record Keeps (E : Environment) (P : State E → Type 0) : Type 0 where
  pub obeys : (m : Command E.Arg E.Request) (c : State E) → P c → P (obey E m c).0
  pub calls :
      (callback : ℕ) (event : Event E.Metadata E.Response) (c : State E)
      → MayTell event c.closed
      → P c
      → P (record_action E (called callback event) c)
  pub throws : (e : Text) (c : State E) → P c → P (record_action E (later_throw e) c)
  pub users : (u : E.User) (c : State E) → P c → P (record c { user = u })
  pub completes : (c : State E) → P c → P (record c { completed = true })
  pub receives_headers :
      (md : Option E.Metadata) (c : State E) → P c → P (record c { response_headers = md })
  pub receives_trailers :
      (md : Option E.Metadata) (c : State E) → P c → P (record c { response_trailers = md })
  pub parses : (p : Parser) (c : State E) → P c → P (record c { parser = p })

module _ (E : Environment) (P : State E → Type 0) (k : Keeps E P) where
  open E use {Metadata, Arg, Request, Response, User}

  run_script-Keeps : (s : Script Arg Request User) (c : State E) → P c → P (run_script E s c).0
  unfolding run_script
  run_script-Keeps (return u) c h = k.users u c h
  run_script-Keeps (throw u e) c h = k.users u c h
  run_script-Keeps (call m go_on) c h =
      run_script-Keeps (go_on (obey E m c).1) (obey E m c).0 (k.obeys m c h)

  rethrow_later-Keeps : (out : State E × Option Text) → P out.0 → P (rethrow_later E out)
  rethrow_later-Keeps (c, none) h = h
  rethrow_later-Keeps (c, some e) h = k.throws e c h

  call_callback-Keeps :
      (callback : ℕ) (event : Event Metadata Response) (c : State E)
      → MayTell event c.closed
      → P c
      → P (call_callback E callback event c)
  unfolding call_callback
  call_callback-Keeps callback event c m h =
      rethrow_later-Keeps _ (run_script-Keeps _ _ (k.calls callback event c m h))

  for_each-Keeps :
      (callbacks : List ℕ) (md : Metadata) (c : State E)
      → P c
      → P (for_each E callbacks (headers md) c)
  unfolding for_each
  for_each-Keeps [] md c h = h
  for_each-Keeps (x ∷ xs) md c h =
      for_each-Keeps xs md _ (call_callback-Keeps x (headers md) c tt h)

  for_each_open-Keeps :
      (callbacks : List ℕ) (event : Event Metadata Response) (c : State E)
      → ((b : Bool) → b ≡ false → MayTell event b)
      → P c
      → P (for_each_open E callbacks event c)
  unfolding for_each_open
  for_each_open-Keeps [] event c m h = h
  for_each_open-Keeps (x ∷ xs) event c m h =
      for_each_open-Keeps xs event _ m
        (if_cases P c.closed h (λ e. call_callback-Keeps x event c (m c.closed e) h))

  raw_on_end-Keeps :
      (code : Number) (msg : Text) (md : Metadata) (c : State E)
      → P c
      → P (raw_on_end E code msg md c)
  unfolding raw_on_end
  raw_on_end-Keeps code msg md c h =
      if_keeps P c.completed h (for_each_open-Keeps _ _ _ (λ b e. e) (k.completes c h))

  raw_on_headers-Keeps : (md : Metadata) (c : State E) → P c → P (raw_on_headers E md c)
  unfolding raw_on_headers
  raw_on_headers-Keeps md c h = if_keeps P c.completed h (for_each-Keeps _ _ c h)

  raw_on_error-Keeps :
      (code : Number) (msg : Text) (md : Option Metadata) (c : State E)
      → P c
      → P (raw_on_error E code msg md c)
  unfolding raw_on_error
  raw_on_error-Keeps code msg md c h =
      if_keeps P c.completed h (for_each_open-Keeps _ _ _ (λ b e. e) (k.completes c h))

  raw_on_message-Keeps : (res : Response) (c : State E) → P c → P (raw_on_message E res c)
  unfolding raw_on_message
  raw_on_message-Keeps res c h =
      if_keeps P (c.completed || c.closed) h (for_each_open-Keeps _ _ c (λ b e. e) h)

  pub Keeps-IsKept : IsKept E P
  Keeps-IsKept = record {
    obeys = k.obeys;
    receives_headers = k.receives_headers;
    receives_trailers = k.receives_trailers;
    parses = k.parses;
    ends = raw_on_end-Keeps;
    fails = raw_on_error-Keeps;
    tells_headers = raw_on_headers-Keeps;
    tells_message = raw_on_message-Keeps;
  }
