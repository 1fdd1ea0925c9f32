-- ===== src/Client/Tests.antt =====
-- The client on small inputs, with a metadata class that is an association list.
pub mod Endings
use grpc_web.Prelude.{
  ℕ, ◌≡◌, ◌≢◌, refl, arith, true, false, Option, none, some, List, [], ◌∷◌, ◌++◌,
}
use grpc_web.Prelude.{take, drop, text_eq, ◌==◌, if◌then◌else◌, Text, text, Bytes, Result, ok}
use mathlib.Core.Bool.{false≢true}
use grpc_web.Prelude.{thrown, ◌||◌, Bool, ◌&&◌, ltb, ltb→lt, All, IsByte}
use grpc_web.ChunkParser.{new_parser, parse_trailer_data}
use grpc_web.ChunkParser.Ascii.{
  is_allowed_control_chars, is_valid_header_ascii, all_valid, from_char_code, decode_ascii,
}
use grpc_web.Framing.{
  set_bytes, uint32_bytes, frame_response, frame_trailers, header_block, join_values,
}
use grpc_web.Js.Number.{int, parse_int}
use grpc_web.Code.{http_status_to_code}
use grpc_web.Client.Types.{
  Environment, State, Event, Command, Script, return, throw, call, headers, new_client,
}
use grpc_web.Client.Requests.{obey}
use grpc_web.Client.Responses.{get_status_from_headers, headers_code}
use grpc_web.Client.Session.{
  Input, command, transport_headers, transport_chunk, transport_end, step, run,
}
use grpc_web.Client.Protocol.{
  phase_of, phase, action_of, refused, added, exception_in, starts, run-admitted, obey_iff,
}
use grpc_web.Client.Silence.{callbacks_called, step_closed, run_completed}
use grpc_web.Client.Cancelled.{IsSilent, run-IsSilent}
use grpc_web.Client.Ends.{EndsOnce, run-EndsOnce}
use grpc_web.Client.Passive.{told}
use grpc_web.Client.Delivery.{chunk_inputs}
use grpc_web.Client.Outcome.{told_all, final_event, run-response}

abbrev pub Entries : Type 0
Entries = List (Text × List Text)

-- The class takes no empty key.
abbrev from_entries : Option Entries → Result Entries
from_entries none = ok []
from_entries (some []) = ok []
from_entries (some (([], values) ∷ entries)) = thrown (text "header name must not be empty")
from_entries (some ((c ∷ key, values) ∷ entries)) = ok ((c ∷ key, values) ∷ entries)

-- The values of a key.
abbrev values_of : Entries → Text → List Text
values_of [] key = []
values_of ((k, values) ∷ entries) key = if text_eq k key then values else values_of entries key

-- A block with one line `grpc-status: d` for a digit d.
abbrev from_status_line : Text → Result Entries
from_status_line t = ok ((text "grpc-status", take 1 (drop 13 t) ∷ []) ∷ [])

-- Callback 0 returns, 1 throws, 2 closes the client, 3 sends a message.
abbrev react_by_number : ℕ → Event Entries Bytes → ℕ → Script Entries Bytes ℕ
react_by_number callback event u =
    if callback == 1
    then throw u (text "callback")
    else if callback == 2
    then call Command.close (λ e. return u)
    else if callback == 3
    then call (Command.send (9 ∷ [])) (λ e. return u)
    else return u

abbrev environment : (ℕ → Event Entries Bytes → ℕ → Script Entries Bytes ℕ) → Environment
environment react = record {
  Metadata = Entries;
  Arg = Entries;
  Request = Bytes;
  Response = Bytes;
  User = ℕ;
  new_metadata = [];
  from_arg = from_entries;
  from_text = from_status_line;
  copy = λ md. md;
  get = values_of;
  set = λ md key value. (key, value ∷ []) ∷ md;
  serialize_binary = λ bytes. bytes;
  deserialize_binary = λ bytes. ok bytes;
  request_stream = false;
  react = react;
  has_slice = true;
}

abbrev pub busy : Environment
busy = environment react_by_number

abbrev pub calm : Environment
calm = environment (λ callback event u. return u)

abbrev pub status_md : Entries
status_md = (text "grpc-status", (text "0") ∷ []) ∷ []

-- The whole of a request whose second callback for the end closes the client.
abbrev pub inputs : List (Input Entries Entries Bytes)
inputs =
    command (Command.on_headers 1)
    ∷ command (Command.on_message 3)
    ∷ command (Command.on_end 0)
    ∷ command (Command.on_end 2)
    ∷ command (Command.on_end 0)
    ∷ command (Command.start none)
    ∷ command (Command.send (5 ∷ []))
    ∷ command Command.finish_send
    ∷ transport_headers status_md 200
    ∷ transport_chunk (0 ∷ 0 ∷ 0 ∷ 0 ∷ 1 ∷ 7 ∷ [])
    ∷ transport_end
    ∷ []

run-admitted_example :
    let c = run busy inputs (new_client busy 0) in phase_of false c.log ≡ some (phase c)
run-admitted_example = run-admitted busy inputs 0

run-IsSilent_example : IsSilent (run busy inputs (new_client busy 0)).log
run-IsSilent_example = run-IsSilent busy inputs 0

run-EndsOnce_example : EndsOnce busy (run busy inputs (new_client busy 0))
run-EndsOnce_example = run-EndsOnce busy inputs 0

-- A client that was started and closed.
abbrev closed_client : State busy
closed_client = record {
  started = true;
  sent_first_message = false;
  completed = false;
  closed = true;
  finished_sending = false;
  on_headers_callbacks = 0 ∷ [];
  on_message_callbacks = [];
  on_end_callbacks = 0 ∷ [];
  parser = new_parser;
  response_headers = none;
  response_trailers = none;
  user = 0;
  log = [];
}

-- A client whose end was told.
abbrev complete_client : State busy
complete_client = record closed_client { completed = true; closed = false }

run_completed_example :
    (callbacks_called (run busy inputs complete_client).log ≡ callbacks_called complete_client.log)
    × ((run busy inputs complete_client).completed ≡ true)
run_completed_example = run_completed busy inputs complete_client refl

-- A start with metadata that is not taken.
abbrev bad_start : Command Entries Bytes
bad_start = Command.start (some (([], []) ∷ []))

obey_iff_example :
    let c = new_client busy 0 in
    (refused busy (action_of busy bad_start) (phase c) ≡ true
      → ((obey busy bad_start c).0 ≡ c) × ((obey busy bad_start c).1 ≢ none))
    × (refused busy (action_of busy bad_start) (phase c) ≡ false
        → ((obey busy bad_start c).1 ≡ exception_in busy bad_start)
          × ((obey busy bad_start c).0.log ≡ added (action_of busy bad_start) c.log)
          × ((obey busy bad_start c).0.started ≡ (starts busy bad_start || c.started)))
unfolding new_client
obey_iff_example =
    obey_iff busy bad_start (new_client busy 0)
      (record { agrees = refl; fresh = λ h. (refl, refl, refl) })

-- A client with a callback of each kind.
abbrev pub listening : State calm
listening = record {
  started = true;
  sent_first_message = true;
  completed = false;
  closed = false;
  finished_sending = true;
  on_headers_callbacks = 0 ∷ [];
  on_message_callbacks = 0 ∷ 1 ∷ [];
  on_end_callbacks = 2 ∷ [];
  parser = new_parser;
  response_headers = none;
  response_trailers = none;
  user = 0;
  log = [];
}

abbrev pub status_line : Text
status_line = text "grpc-status: 0" ++ (13 ∷ 10 ∷ [])

-- A frame of two bytes and the trailers, cut within both headers.
abbrev pub pieces : List Bytes
pieces = (0 ∷ 0 ∷ 0 ∷ []) ∷ (0 ∷ 2 ∷ 7 ∷ 8 ∷ 128 ∷ []) ∷ (0 ∷ 0 ∷ 0 ∷ 16 ∷ status_line) ∷ []

-- Whether the numbers are bytes.
abbrev are_bytes : Bytes → Bool
are_bytes [] = true
are_bytes (b ∷ bytes) = ltb b 256 && are_bytes bytes

first_true : (a b : Bool) → (a && b) ≡ true → (a ≡ true) × (b ≡ true)
first_true true true e = (refl, refl)
first_true true false e = (refl, e)
first_true false b e = absurd (false≢true e)

are_bytes-All : (bytes : Bytes) → are_bytes bytes ≡ true → All IsByte bytes
are_bytes-All [] e = tt
are_bytes-All (b ∷ bytes) e =
    let (this, others) = first_true (ltb b 256) (are_bytes bytes) e in
    (ltb→lt b 256 this, are_bytes-All bytes others)

pub pieces-IsByte : All (All IsByte) pieces
pieces-IsByte = (
  are_bytes-All (0 ∷ 0 ∷ 0 ∷ []) refl,
  (
    are_bytes-All (0 ∷ 2 ∷ 7 ∷ 8 ∷ 128 ∷ []) refl,
    (are_bytes-All (0 ∷ 0 ∷ 0 ∷ 16 ∷ status_line) refl, tt),
  ),
)

abbrev pub calm_IsPassive :
    (callback : ℕ) (event : Event Entries Bytes) (u : ℕ)
    → (v : ℕ) × (calm.react callback event u ≡ return v)
calm_IsPassive callback event u = (u, refl)

run-response_example :
    let c' =
      run calm
        (transport_headers [] 200 ∷ chunk_inputs calm calm_IsPassive pieces ++ transport_end ∷ [])
        listening in
    (callbacks_called c'.log
      ≡ callbacks_called listening.log
        ++ (told (0 ∷ []) (headers [])
            ++ (told_all calm calm_IsPassive (0 ∷ 1 ∷ []) ((7 ∷ 8 ∷ []) ∷ [])
                ++ told (2 ∷ []) (final_event calm calm_IsPassive (int 0) status_md))))
    × (c'.completed ≡ true)
unfolding get_status_from_headers headers_code http_status_to_code parse_trailer_data decode_ascii
    all_valid is_valid_header_ascii is_allowed_control_chars from_char_code parse_int frame_response
    frame_trailers set_bytes uint32_bytes header_block join_values
run-response_example =
    run-response calm calm_IsPassive listening [] status_md 200 (int 0) ((7 ∷ 8 ∷ []) ∷ []) pieces
      ((7 ∷ 8 ∷ []) ∷ []) (λ t. t) status_md refl refl refl refl refl (refl, tt) (omega arith, tt)
      (omega arith) refl refl refl
