-- ===== src/Transports.antt =====
-- client/grpc-web/src/transports/Transport.ts, transports/http/http.ts, transports/http/xhrUtil.ts,
-- and the choice of a transport in the constructor of client.ts. The browser is outside: what its
-- globals are and what a request object answers is a record.
pub mod Choice
pub mod Tests
use grpc_web.Prelude.{ℕ, Bool, true, false, ◌&&◌, Option, none, some, List, [], ◌∷◌}
use grpc_web.Prelude.{if◌then◌else◌, text_eq, Text, text, Result, ok, thrown}
use grpc_web.Xhr.{XhrKind, xhr_transport}

-- What `typeof` and `hasOwnProperty` say of the globals; and what `responseType` of a request reads
-- after it was set, or the exception of setting it.
pub record Browser : Type 0 where
  pub has_xml_http_request : Bool
  pub has_override_mime_type : Bool
  pub response_type_after : Text → Result Text
  pub has_response : Bool
  pub response_has_body : Bool
  pub has_headers : Bool

pub data HttpFactory : Type 0 where
  fetch_readable_stream_transport : (credentials : Text) → HttpFactory
  xhr_factory : (with_credentials : Bool) → HttpFactory

-- A factory: one of http.ts, a user's, or the one that is the default in the beginning, which makes
-- its choice at each call.
pub data Factory : Type 0 where
  http : HttpFactory → Factory
  user : ℕ → Factory
  initial : Factory

-- A transport: its class, and what it was made with. A user's is a number.
pub data Made : Type 0 where
  fetch_made : (credentials url : Text) → Made
  xhr_made : XhrKind → (with_credentials : Bool) → (url : Text) → Made
  user_made : ℕ → Made

-- The variables of the modules: whether `xhr` of xhrUtil.ts is defined, and the default factory.
pub record Modules : Type 0 where
  pub xhr : Bool
  pub default_transport_factory : Factory

unfoldable pub loaded : Modules
loaded = record { xhr = false; default_transport_factory = initial }

unfoldable pub set_default_transport_factory : Factory → Modules → Modules
set_default_transport_factory t m = record m { default_transport_factory = t }

module _ (browser : Browser) where
  unfoldable pub detect_fetch_support : Bool
  detect_fetch_support = browser.has_response && browser.response_has_body && browser.has_headers

  -- `getXHR()`, which keeps the request that it makes. The name is not defined in some browsers.
  unfoldable pub get_xhr : Bool → Bool × Result Bool
  get_xhr true = (true, ok true)
  get_xhr false =
      if browser.has_xml_http_request
      then (true, ok true)
      else (false, thrown (text "XMLHttpRequest is not defined"))

  abbrev pub same_type : Text → Result Text → Bool
  same_type type (ok read) = text_eq read type
  same_type type (thrown e) = false

  abbrev pub supports : Text → Result Bool → Result Bool
  supports type (ok true) = ok (same_type type (browser.response_type_after type))
  supports type (ok false) = ok false
  supports type (thrown e) = thrown e

  unfoldable pub xhr_supports_response_type : Text → Bool → Bool × Result Bool
  xhr_supports_response_type type xhr = let (xhr', got) = get_xhr xhr in (xhr', supports type got)

  unfoldable pub detect_moz_xhr_support : Bool → Bool × Result Bool
  detect_moz_xhr_support xhr =
      if browser.has_xml_http_request
      then xhr_supports_response_type (text "moz-chunked-arraybuffer") xhr
      else (xhr, ok false)

  unfoldable pub detect_xhr_override_mime_type_support : Bool
  detect_xhr_override_mime_type_support =
      browser.has_xml_http_request && browser.has_override_mime_type

  abbrev pub made_of_kind : Bool → Text → Result XhrKind → Result Made
  made_of_kind with_credentials url (ok kind) = ok (xhr_made kind with_credentials url)
  made_of_kind with_credentials url (thrown e) = thrown e

  -- The function that XhrTransport returns, behind the first detection.
  abbrev pub made_by_xhr : Bool → Text → Result Bool → Result Made
  made_by_xhr with_credentials url (ok moz) =
      made_of_kind with_credentials url (xhr_transport moz detect_xhr_override_mime_type_support)
  made_by_xhr with_credentials url (thrown e) = thrown e

  unfoldable pub call_http : HttpFactory → Text → Bool → Bool × Result Made
  call_http (fetch_readable_stream_transport credentials) url xhr =
      (xhr, ok (fetch_made credentials url))
  call_http (xhr_factory with_credentials) url xhr =
      let (xhr', moz) = detect_moz_xhr_support xhr in (xhr', made_by_xhr with_credentials url moz)

  unfoldable pub cross_browser_http_transport : Bool → HttpFactory
  cross_browser_http_transport with_credentials =
      if detect_fetch_support
      then fetch_readable_stream_transport
          (if with_credentials then text "include" else text "same-origin")
      else xhr_factory with_credentials

  -- `user_factory` is what the factories of a user return for a URL.
  module _ (user_factory : ℕ → Text → Result ℕ) where
    abbrev pub by_user : Result ℕ → Result Made
    by_user (ok transport) = ok (user_made transport)
    by_user (thrown e) = thrown e

    unfoldable pub call_factory : Factory → Text → Bool → Bool × Result Made
    call_factory (http factory) url xhr = call_http factory url xhr
    call_factory (user n) url xhr = (xhr, by_user (user_factory n url))
    call_factory initial url xhr = call_http (cross_browser_http_transport false) url xhr

    unfoldable pub make_default_transport : Text → Modules → Modules × Result Made
    make_default_transport url m =
        let (xhr', made) = call_factory m.default_transport_factory url m.xhr in
        (record m { xhr = xhr' }, made)

    -- `createTransport`, by the transport of the options.
    unfoldable pub create_transport : Option Factory → Text → Modules → Modules × Result Made
    create_transport none url m = make_default_transport url m
    create_transport (some transport) url m =
        let (xhr', made) = call_factory transport url m.xhr in (record m { xhr = xhr' }, made)
