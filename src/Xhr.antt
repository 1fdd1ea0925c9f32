-- ===== src/Xhr.antt =====
-- client/grpc-web/src/transports/http/xhr.ts: the transports over XMLHttpRequest.
-- The request object is the browser's: what is done to it, and what the client is called with, goes
-- into a log, newest first. The text of the response and the events come from outside.
pub mod Chunks
pub mod Exchange
pub mod Tests
use grpc_web.Prelude.{ℕ, ◌+◌, ◌-◌, ◌*◌, ◌%◌, Bool, ◌&&◌, Option, none, some, List, [], ◌∷◌}
use grpc_web.Prelude.{leb, if◌then◌else◌, length, drop, ◌==◌, Text, text, Bytes, Result, ok, thrown}
use grpc_web.Framing.{join_values}

-- The class XHR, and MozChunkedArrayBufferXHR, which overrides two of its methods.
pub data XhrKind : Type 0 where
  text_xhr moz_xhr : XhrKind

-- The transport that is constructed, by what the browser supports.
unfoldable pub xhr_transport : Bool → Bool → Result XhrKind
xhr_transport moz_supported override_mime_type_supported =
    if moz_supported
    then ok moz_xhr
    else if override_mime_type_supported
    then ok text_xhr
    else thrown (text "This environment's XHR implementation cannot support binary transfer.")

pub data Action (Md : Type 0) : Type 0 where
  open_post : Text → Action Md
  set_response_type : Text → Action Md
  override_mime_type : Text → Action Md
  set_request_header : Text → Text → Action Md
  set_with_credentials : Bool → Action Md
  send : Bytes → Action Md
  abort : Action Md
  on_headers : Md → ℕ → Action Md
  on_chunk : Bytes → Action Md
  on_end : Action Md

-- `index` has a type and no value: it is undefined until the first progress.
pub record Xhr (Md : Type 0) : Type 0 where
  pub kind : XhrKind
  pub url : Text
  pub with_credentials : Bool
  pub index : Option ℕ
  pub log : List (Action Md)

-- `codePointAt(i)` of a string, by the code at i and the codes behind it; the polyfill computes what
-- the method of strings returns. Behind the end `charCodeAt` is NaN, which is no surrogate.
unfoldable pub code_point_at : ℕ → Text → ℕ
code_point_at code [] = code
code_point_at code (surr ∷ rest) =
    if leb 0xd800 code && leb code 0xdbff
    then (if leb 0xdc00 surr && leb surr 0xdfff
        then 0x10000 + (code - 0xd800) * 1024 + (surr - 0xdc00)
        else code)
    else code

-- The loop over the string; `& 0xFF` keeps the lowest eight bits.
unfoldable pub string_to_array_buffer : Text → Bytes
string_to_array_buffer [] = []
string_to_array_buffer (code ∷ str) = code_point_at code str % 256 ∷ string_to_array_buffer str

-- `substr(index)`: an index that is undefined counts as 0.
abbrev pub index_or_start : Option ℕ → ℕ
index_or_start none = 0
index_or_start (some i) = i

module _ {Md : Type 0} where
  abbrev pub record_action : Action Md → Xhr Md → Xhr Md
  record_action a x = record x { log = a ∷ x.log }

  -- XHR.onProgressEvent, with the response text so far.
  unfoldable pub on_progress_event : Text → Xhr Md → Xhr Md
  on_progress_event response x =
      let raw_text = drop (index_or_start x.index) response in
      record_action (on_chunk (string_to_array_buffer raw_text))
        (record x { index = some (length response) })

  -- MozChunkedArrayBufferXHR.onProgressEvent: the response is the bytes since the last event.
  unfoldable pub moz_on_progress_event : Bytes → Xhr Md → Xhr Md
  moz_on_progress_event resp x = record_action (on_chunk resp) x

  unfoldable pub on_load_event : Xhr Md → Xhr Md
  on_load_event x = record_action on_end x

  -- XMLHttpRequest.HEADERS_RECEIVED is 2. `response_headers` is the metadata made of all of them.
  unfoldable pub on_state_change : ℕ → Md → ℕ → Xhr Md → Xhr Md
  on_state_change ready_state response_headers status x =
      if ready_state == 2 then record_action (on_headers response_headers status) x else x

  unfoldable pub send_message : Bytes → Xhr Md → Xhr Md
  send_message msg_bytes x = record_action (send msg_bytes) x

  abbrev pub configure_xhr : XhrKind → Xhr Md → Xhr Md
  configure_xhr text_xhr x =
      record_action (override_mime_type (text "text/plain; charset=x-user-defined"))
        (record_action (set_response_type (text "text")) x)
  configure_xhr moz_xhr x = record_action (set_response_type (text "moz-chunked-arraybuffer")) x

  unfoldable pub set_request_headers : List (Text × List Text) → Xhr Md → Xhr Md
  set_request_headers [] x = x
  set_request_headers ((key, values) ∷ entries) x =
      set_request_headers entries (record_action (set_request_header key (join_values values)) x)

  -- `start`, with the entries of the metadata in the order of its forEach.
  unfoldable pub start : List (Text × List Text) → Xhr Md → Xhr Md
  start entries x =
      let configured = configure_xhr x.kind (record_action (open_post x.url) x) in
      record_action (set_with_credentials x.with_credentials)
        (set_request_headers entries configured)

  -- The listener of "error".
  unfoldable pub on_error : Xhr Md → Xhr Md
  on_error x = record_action on_end x

  unfoldable pub cancel : Xhr Md → Xhr Md
  cancel x = record_action abort x
