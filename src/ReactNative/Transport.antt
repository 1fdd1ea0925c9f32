-- ===== src/ReactNative/Transport.antt =====
-- client/grpc-web-react-native-transport/src/index.ts: the classes XHR and ArrayBufferXHR, whose events
-- detach the calls of the client. The request object is the browser's: what is done to it goes into a
-- log, newest first.
use grpc_web.Prelude.{ℕ, Bool, true, false, Option, none, some, List, [], ◌∷◌}
use grpc_web.Prelude.{if◌then◌else◌, length, drop, ◌==◌, Text, text, Bytes}
use grpc_web.Framing.{join_values}
use grpc_web.ReactNative.Text.{string_to_array_buffer}
use grpc_web.ReactNative.Detach.{Queue, detach}

-- A detached call of the client. That of the headers reads the request's headers when it is made.
pub data ClientCall : Type 0 where
  tell_headers : ClientCall
  tell_chunk : Bytes → (flush : Bool) → ClientCall
  tell_end : ClientCall

pub data XhrClass : Type 0 where
  text_xhr array_buffer_xhr : XhrClass

pub data XhrAction : Type 0 where
  open_post : Text → XhrAction
  set_response_type : Text → XhrAction
  override_mime_type : Text → XhrAction
  set_request_header : Text → Text → XhrAction
  set_with_credentials : Bool → XhrAction
  send : Bytes → XhrAction
  abort : XhrAction

-- `index` has a type and no value: it is undefined until the first progress. `request` stands for the
-- identity of the object.
pub record NativeXhr : Type 0 where
  pub request : ℕ
  pub class : XhrClass
  pub url : Text
  pub with_credentials : Bool
  pub index : Option ℕ
  pub log : List XhrAction

-- A callback that is detached: the transport whose handler made it, and the call that it makes.
pub record Callback : Type 0 where
  pub request : ℕ
  pub call : ClientCall

-- A transport, and the one queue that all transports of the module share.
pub record Page : Type 0 where
  pub xhr : NativeXhr
  pub queue : Queue Callback

unfoldable pub react_native_transport : ℕ → Text → Bool → NativeXhr
react_native_transport request url with_credentials = record {
  request = request;
  class = array_buffer_xhr;
  url = url;
  with_credentials = with_credentials;
  index = none;
  log = [];
}

abbrev pub detach_call : ClientCall → Page → Page
detach_call call p = record p {
  queue = detach (record { request = p.xhr.request; call = call }) p.queue;
}

abbrev pub record_action : XhrAction → NativeXhr → NativeXhr
record_action a x = record x { log = a ∷ x.log }

abbrev pub substr_from : Option ℕ → Text → Text
substr_from none str = str
substr_from (some i) str = drop i str

-- `onProgressEvent`, with the response text so far; the subclass ignores it.
unfoldable pub on_progress_event : XhrClass → Text → Page → Page
on_progress_event text_xhr response p =
    let raw_text = substr_from p.xhr.index response in
    detach_call (tell_chunk (string_to_array_buffer raw_text) false)
      (record p { xhr = record p.xhr { index = some (length response) } })
on_progress_event array_buffer_xhr response p = p

-- `onLoadEvent`, with the response; the subclass has it as bytes, and gives them first.
unfoldable pub on_load_event : XhrClass → Bytes → Page → Page
on_load_event text_xhr resp p = detach_call tell_end p
on_load_event array_buffer_xhr resp p = detach_call tell_end (detach_call (tell_chunk resp true) p)

-- XMLHttpRequest.HEADERS_RECEIVED is 2.
unfoldable pub on_state_change : ℕ → Page → Page
on_state_change ready_state p = if ready_state == 2 then detach_call tell_headers p else p

-- The listener of "error".
unfoldable pub on_error : Page → Page
on_error p = detach_call tell_end p

unfoldable pub send_message : Bytes → NativeXhr → NativeXhr
send_message msg_bytes x = record_action (send msg_bytes) x

unfoldable pub configure_xhr : XhrClass → NativeXhr → NativeXhr
configure_xhr text_xhr x =
    record_action (override_mime_type (text "text/plain; charset=x-user-defined"))
      (record_action (set_response_type (text "text")) x)
configure_xhr array_buffer_xhr x = record_action (set_response_type (text "arraybuffer")) x

-- The loop `this.metadata.forEach(...)`.
unfoldable pub set_request_headers : List (Text × List Text) → NativeXhr → NativeXhr
set_request_headers [] x = x
set_request_headers ((key, values) ∷ entries) x =
    set_request_headers entries (record_action (set_request_header key (join_values values)) x)

unfoldable pub start : List (Text × List Text) → NativeXhr → NativeXhr
start entries x =
    let configured = configure_xhr x.class (record_action (open_post x.url) x) in
    record_action (set_with_credentials x.with_credentials) (set_request_headers entries configured)

unfoldable pub cancel : NativeXhr → NativeXhr
cancel x = record_action abort x

-- An event of the request object.
pub data Event : Type 0 where
  state_changed : ℕ → Event
  progressed : Text → Event
  loaded : Bytes → Event
  failed : Event

unfoldable pub handle : Event → Page → Page
handle (state_changed ready_state) p = on_state_change ready_state p
handle (progressed response) p = on_progress_event p.xhr.class response p
handle (loaded resp) p = on_load_event p.xhr.class resp p
handle failed p = on_error p
