-- ===== src/NodeHttp.antt =====
-- client/grpc-web-node-http-transport/src/index.ts: the transport over Node's http and https.
-- The request object and `url.parse` are Node's: what is done to the request, and what the client is
-- called with, goes into a log, newest first; the parts of the URL are given.
pub mod Copies
pub mod Headers
pub mod Whole
pub mod Tests
use grpc_web.Prelude.{
  ℕ, zero, suc, ◌+◌, ◌%◌, Bool, true, false, not, ◌&&◌, Option, none, some, List, [], ◌∷◌, ◌++◌,
}
use grpc_web.Prelude.{if◌then◌else◌, length, get_or, take, drop, text_eq, Text, text, Bytes}
use grpc_web.Framing.{array_buffer, join_values}
use grpc_web.Js.Number.{Number, parse_int}

-- A value of a header: a string or several; undefined is none.
pub data HeaderValue : Type 0 where
  single : Text → HeaderValue
  several : List Text → HeaderValue

-- A property that `for (let key in headers)` visits: the object's own, or inherited.
pub record Property : Type 0 where
  pub key : Text
  pub is_own : Bool
  pub value : Option HeaderValue

-- `object[key] = value`.
abbrev pub assign {ℓ} : {A : Type ℓ} → Text → A → List (Text × A) → List (Text × A)
assign key value [] = (key, value) ∷ []
assign key value ((k, v) ∷ object) =
    if text_eq k key then (k, value) ∷ object else (k, v) ∷ assign key value object

-- The body of the loop.
unfoldable pub keep_defined :
    Bool → Text → Option HeaderValue → List (Text × HeaderValue) → List (Text × HeaderValue)
keep_defined false key value filtered = filtered
keep_defined true key none filtered = filtered
keep_defined true key (some value) filtered = assign key value filtered

unfoldable pub filter_loop : List Property → List (Text × HeaderValue) → List (Text × HeaderValue)
filter_loop [] filtered = filtered
filter_loop (p ∷ headers) filtered =
    filter_loop headers (keep_defined p.is_own p.key p.value filtered)

unfoldable pub filter_headers_for_undefined : List Property → List (Text × HeaderValue)
filter_headers_for_undefined headers = filter_loop headers []

-- `target[i] = source[i]`; an element keeps eight bits, and an index out of range is ignored.
unfoldable pub set_at : Bytes → ℕ → ℕ → Bytes
set_at [] i value = []
set_at (b ∷ target) zero value = value % 256 ∷ target
set_at (b ∷ target) (suc i) value = b ∷ set_at target i value

-- The loop over the indices, by the rounds left.
unfoldable pub copy_from : Bytes → Bytes → ℕ → ℕ → Bytes
copy_from source target i zero = target
copy_from source target i (suc rounds) =
    copy_from source (set_at target i (get_or source i 0)) (i + 1) rounds

unfoldable pub to_array_buffer : Bytes → Bytes
to_array_buffer buf = copy_from buf (array_buffer (length buf)) 0 (length buf)

unfoldable pub to_buffer : Bytes → Bytes
to_buffer ab = copy_from ab (array_buffer (length ab)) 0 (length ab)

-- The parts of `url.parse(url)`.
pub record ParsedUrl : Type 0 where
  pub hostname : Text
  pub port : Option Text
  pub path : Text
  pub protocol : Text

pub record HttpOptions : Type 0 where
  pub host : Text
  pub port : Option Number
  pub path : Text
  pub headers : List (Text × Text)
  pub method : Text

pub data Action (Md : Type 0) : Type 0 where
  https_request : HttpOptions → Action Md
  http_request : HttpOptions → Action Md
  set_header : Text → ℕ → Action Md
  write : Bytes → Action Md
  finish : Action Md
  abort : Action Md
  on_headers : Md → ℕ → Action Md
  on_chunk : Bytes → Action Md
  on_end : Action Md

-- The transport of a method, by what it streams. `with_https_options` is what the spread of the
-- user's https options makes of the options of a request.
pub record NodeHttp (Md : Type 0) : Type 0 where
  pub request_stream : Bool
  pub response_stream : Bool
  pub url : ParsedUrl
  pub with_https_options : HttpOptions → HttpOptions
  pub log : List (Action Md)

-- The loop `metadata.forEach(...)`.
unfoldable pub joined_headers : List (Text × List Text) → List (Text × Text) → List (Text × Text)
joined_headers [] headers = headers
joined_headers ((key, values) ∷ entries) headers =
    joined_headers entries (assign key (join_values values) headers)

abbrev pub port_of : Option Text → Option Number
port_of none = none
port_of (some []) = none
port_of (some (c ∷ port)) = some (parse_int (c ∷ port))

module _ {Md : Type 0} where
  abbrev pub record_action : Action Md → NodeHttp Md → NodeHttp Md
  record_action a x = record x { log = a ∷ x.log }

  unfoldable pub start : List (Text × List Text) → NodeHttp Md → NodeHttp Md
  start metadata x =
      let http_options : HttpOptions = record {
        host = x.url.hostname;
        port = port_of x.url.port;
        path = x.url.path;
        headers = joined_headers metadata [];
        method = text "POST";
      } in
      if text_eq x.url.protocol (text "https:")
      then record_action (https_request (x.with_https_options http_options)) x
      else record_action (http_request http_options) x

  unfoldable pub send_message : Bytes → NodeHttp Md → NodeHttp Md
  send_message msg_bytes x =
      let sized =
        if not x.request_stream && not x.response_stream
        then record_action (set_header (text "Content-Length") (length msg_bytes)) x
        else x in
      record_action finish (record_action (write (to_buffer msg_bytes)) sized)

  -- The response: `new_metadata` is the constructor of Metadata from an object.
  unfoldable pub response_callback :
      (List (Text × HeaderValue) → Md) → List Property → ℕ → NodeHttp Md → NodeHttp Md
  response_callback new_metadata headers status_code x =
      record_action (on_headers (new_metadata (filter_headers_for_undefined headers)) status_code) x

  -- The handlers of "data" and "end" of the response, and of "error" of the request.
  unfoldable pub on_data : Bytes → NodeHttp Md → NodeHttp Md
  on_data chunk x = record_action (on_chunk (to_array_buffer chunk)) x

  unfoldable pub on_response_end : NodeHttp Md → NodeHttp Md
  on_response_end x = record_action on_end x

  unfoldable pub on_error : NodeHttp Md → NodeHttp Md
  on_error x = record_action on_end x

  unfoldable pub cancel : NodeHttp Md → NodeHttp Md
  cancel x = record_action abort x
