-- ===== src/Client/Parts.antt =====
-- Invariants of the client by its parts: what the user's calls, the writes of the received data and
-- the four `raw...` methods keep, every sequence of calls keeps.
use grpc_web.Prelude.{
  ℕ, Bool, true, false, Option, none, some, List, [], ◌∷◌, if◌then◌else◌, Text, Bytes, Result, ok,
  thrown,
}
use grpc_web.Prelude.{◌==◌, ◌≡◌, sym, refl}
use mathlib.Core.Path.{subst}
use grpc_web.ChunkParser.{Chunk, Parser}
use grpc_web.Client.Types.{Environment, State, Command}
use grpc_web.Client.Requests.{obey}
use grpc_web.Client.Callbacks.{raw_on_end, raw_on_headers, raw_on_error, raw_on_message}
use grpc_web.Client.Responses.{
  on_transport_headers, on_trailers_after, on_deserialized, on_chunks, on_parsed,
  on_transport_chunk, end_headers_only, end_trailers, end_with, on_transport_end,
  get_status_from_headers, headers_code,
}
use grpc_web.Client.Session.{
  Input, command, transport_headers, transport_chunk, transport_end, step, run,
}
use grpc_web.Js.Number.{Number, is_number}

-- A test does not matter where both branches keep the invariant.
pub if_keeps :
    {A : Type 0} (P : A → Type 0) (b : Bool) {x y : A} → P x → P y → P (if b then x else y)
if_keeps P true p q = p
if_keeps P false p q = q

-- The same, with the test that failed.
pub if_cases :
    {A : Type 0} (P : A → Type 0) (b : Bool) {x y : A}
    → P x
    → (b ≡ false → P y)
    → P (if b then x else y)
if_cases P true p q = p
if_cases P false p q = q refl

pub if_true :
    {A : Type 0} (P : A → Type 0) {b : Bool} {x : A} (y : A)
    → b ≡ true
    → P x
    → P (if b then x else y)
if_true P {b} {x} y h p = subst (λ t. P (if t then x else y)) (sym h) p

pub record IsKept (E : Environment) (P : State E → Type 0) : Type 0 where
  pub obeys : (m : Command E.Arg E.Request) (c : State E) → P c → P (obey E m c).0
  pub receives_headers :
      (md : Option E.Metadata) (c : State E) → P c → P (record c { response_headers = md })
  pub receives_trailers :
      (md : Option E.Metadata) (c : State E) → P c → P (record c { response_trailers = md })
  pub parses : (p : Parser) (c : State E) → P c → P (record c { parser = p })
  pub ends :
      (code : Number) (msg : Text) (md : E.Metadata) (c : State E)
      → P c
      → P (raw_on_end E code msg md c)
  pub fails :
      (code : Number) (msg : Text) (md : Option E.Metadata) (c : State E)
      → P c
      → P (raw_on_error E code msg md c)
  pub tells_headers : (md : E.Metadata) (c : State E) → P c → P (raw_on_headers E md c)
  pub tells_message : (res : E.Response) (c : State E) → P c → P (raw_on_message E res c)

module _ (E : Environment) (P : State E → Type 0) (k : IsKept E P) where
  open E use {Metadata, Arg, Request, Response}

  on_transport_headers_keeps :
      (md : Metadata) (status : ℕ) (c : State E) → P c → P (on_transport_headers E md status c)
  unfolding on_transport_headers
  on_transport_headers_keeps md status c h =
      let h' = k.tells_headers md _ (k.receives_headers (some md) c h) in
      if_keeps P c.closed h (
        if_keeps P (status == 0) h (
          if_keeps P (is_number (headers_code (get_status_from_headers E md) status) 0) h'
            (k.fails _ _ (some md) _ h')))

  on_trailers_after_keeps :
      (received : Option Metadata) (md : Metadata) (c : State E)
      → P c
      → P (on_trailers_after E received md c)
  unfolding on_trailers_after
  on_trailers_after_keeps none md c h = k.tells_headers _ _ (k.receives_headers _ c h)
  on_trailers_after_keeps (some _) md c h = k.receives_trailers _ c h

  on_deserialized_keeps :
      (r : Result Response) (c : State E) (go_on : State E → State E × Option Text)
      → ((c' : State E) → P c' → P (go_on c').0)
      → P c
      → P (on_deserialized E r c go_on).0
  unfolding on_deserialized
  on_deserialized_keeps (ok res) c go_on later h = later _ (k.tells_message res c h)
  on_deserialized_keeps (thrown e) c go_on later h = h

  on_chunks_keeps :
      (chunks : List (Chunk Metadata)) (c : State E) → P c → P (on_chunks E chunks c).0
  unfolding on_chunks
  on_chunks_keeps [] c h = h
  on_chunks_keeps (Chunk.message bytes ∷ chunks) c h =
      on_deserialized_keeps (E.deserialize_binary bytes) c _ (λ c' h'. on_chunks_keeps chunks c' h')
        h
  on_chunks_keeps (Chunk.trailers md ∷ chunks) c h =
      on_chunks_keeps chunks _ (on_trailers_after_keeps c.response_headers md c h)

  on_parsed_keeps : (r : Result (List (Chunk Metadata))) (c : State E) → P c → P (on_parsed E r c).0
  unfolding on_parsed
  on_parsed_keeps (ok chunks) c h = on_chunks_keeps chunks c h
  on_parsed_keeps (thrown e) c h = k.fails _ _ none c h

  on_transport_chunk_keeps :
      (bytes : Bytes) (c : State E) → P c → P (on_transport_chunk E bytes c).0
  unfolding on_transport_chunk
  on_transport_chunk_keeps bytes c h =
      if_keeps (λ (out : State E × Option Text). P out.0) c.closed h
        (on_parsed_keeps _ _ (k.parses _ c h))

  end_headers_only_keeps :
      (status : Option Number) (md : Metadata) (c : State E)
      → P c
      → P (end_headers_only E status md c)
  unfolding end_headers_only
  end_headers_only_keeps none md c h = k.ends _ _ md c h
  end_headers_only_keeps (some status) md c h = k.ends _ _ md c h

  end_trailers_keeps :
      (status : Option Number) (md : Metadata) (c : State E) → P c → P (end_trailers E status md c)
  unfolding end_trailers
  end_trailers_keeps none md c h = k.fails _ _ none c h
  end_trailers_keeps (some status) md c h = k.ends _ _ md c h

  end_with_keeps :
      (trailers headers : Option Metadata) (c : State E) → P c → P (end_with E trailers headers c)
  unfolding end_with
  end_with_keeps none none c h = k.fails _ _ none c h
  end_with_keeps none (some md) c h = end_headers_only_keeps _ md c h
  end_with_keeps (some md) _ c h = end_trailers_keeps _ md c h

  step_keeps : (i : Input Metadata Arg Request) (c : State E) → P c → P (step E i c).0
  unfolding step on_transport_end
  step_keeps (command m) c h = k.obeys m c h
  step_keeps (transport_headers md status) c h = on_transport_headers_keeps md status c h
  step_keeps (transport_chunk bytes) c h = on_transport_chunk_keeps bytes c h
  step_keeps transport_end c h =
      if_keeps P c.closed h (end_with_keeps c.response_trailers c.response_headers c h)

  pub run_keeps :
      (inputs : List (Input Metadata Arg Request)) (c : State E) → P c → P (run E inputs c)
  unfolding run
  run_keeps [] c h = h
  run_keeps (i ∷ inputs) c h = run_keeps inputs _ (step_keeps i c h)
