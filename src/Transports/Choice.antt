-- ===== src/Transports/Choice.antt =====
-- The choice of a transport: what was made before does not matter.
use grpc_web.Prelude.{
  ℕ, ◌≡◌, refl, arith, ◌∙◌, Bool, true, false, ◌&&◌, Option, none, some, List, [], ◌∷◌,
}
use grpc_web.Prelude.{if◌then◌else◌, Text, text, Result, ok, thrown}
use mathlib.Core.Path.{ap₂}
use grpc_web.Xhr.{text_xhr, moz_xhr, xhr_transport}
use grpc_web.Transports.{
  Browser, HttpFactory, fetch_readable_stream_transport, xhr_factory, Factory, http, user, initial,
  Made, fetch_made, xhr_made, Modules, loaded, set_default_transport_factory, detect_fetch_support,
  get_xhr, same_type, by_user, xhr_supports_response_type, detect_moz_xhr_support,
  detect_xhr_override_mime_type_support, call_http, cross_browser_http_transport, call_factory,
  make_default_transport, create_transport,
}

-- The page sets the default, or makes a client with or without a transport of its own.
pub data Use : Type 0 where
  set_default : Factory → Use
  new_client : Option Factory → (url : Text) → Use

module _ (browser : Browser) (user_factory : ℕ → Text → Result ℕ) where
  -- The two kinds of XHR, or an exception.
  abbrev pub xhr_choice : Bool → Text → Result Made
  xhr_choice with_credentials url =
      if browser.has_xml_http_request
        && same_type browser (text "moz-chunked-arraybuffer")
            (browser.response_type_after (text "moz-chunked-arraybuffer"))
      then ok (xhr_made moz_xhr with_credentials url)
      else if browser.has_xml_http_request && browser.has_override_mime_type
      then ok (xhr_made text_xhr with_credentials url)
      else thrown (text "This environment's XHR implementation cannot support binary transfer.")

  abbrev pub http_choice : HttpFactory → Text → Result Made
  http_choice (fetch_readable_stream_transport credentials) url = ok (fetch_made credentials url)
  http_choice (xhr_factory with_credentials) url = xhr_choice with_credentials url

  abbrev pub choice : Factory → Text → Result Made
  choice (http factory) url = http_choice factory url
  choice (user n) url = by_user browser user_factory (user_factory n url)
  choice initial url =
      if browser.has_response && browser.response_has_body && browser.has_headers
      then ok (fetch_made (text "same-origin") url)
      else xhr_choice false url

  -- The transports of the clients, by the factory that is the default at the time.
  abbrev pub choices : Factory → List Use → List (Result Made)
  choices default [] = []
  choices default (set_default factory ∷ uses) = choices factory uses
  choices default (new_client none url ∷ uses) = choice default url ∷ choices default uses
  choices default (new_client (some factory) url ∷ uses) = choice factory url ∷ choices default uses

  -- The transports that are made, one use after another.
  unfoldable pub run_uses : List Use → Modules → List (Result Made)
  run_uses [] m = []
  run_uses (set_default factory ∷ uses) m = run_uses uses (set_default_transport_factory factory m)
  run_uses (new_client transport url ∷ uses) m =
      let (m', made) = create_transport browser user_factory transport url m in
      made ∷ run_uses uses m'

  call_http-choice :
      (factory : HttpFactory) (url : Text) (xhr : Bool)
      → (call_http browser factory url xhr).1 ≡ http_choice factory url
  unfolding call_http detect_moz_xhr_support xhr_supports_response_type get_xhr xhr_transport
      detect_xhr_override_mime_type_support
  call_http-choice (fetch_readable_stream_transport credentials) url xhr = refl
  call_http-choice (xhr_factory with_credentials) url true = ground arith
  call_http-choice (xhr_factory with_credentials) url false = ground arith

  cross_choice :
      (fetch_supported : Bool) (url : Text)
      → http_choice
          (if fetch_supported
            then fetch_readable_stream_transport (text "same-origin")
            else xhr_factory false)
          url
        ≡ (if fetch_supported
            then ok (fetch_made (text "same-origin") url)
            else xhr_choice false url)
  cross_choice true url = refl
  cross_choice false url = refl

  call_factory-choice :
      (factory : Factory) (url : Text) (xhr : Bool)
      → (call_factory browser user_factory factory url xhr).1 ≡ choice factory url
  unfolding call_factory cross_browser_http_transport detect_fetch_support
  call_factory-choice (http factory) url xhr = call_http-choice factory url xhr
  call_factory-choice (user n) url xhr = refl
  call_factory-choice initial url xhr =
      call_http-choice (cross_browser_http_transport browser false) url xhr
      ∙ cross_choice (browser.has_response && browser.response_has_body && browser.has_headers) url

  run_uses-choices :
      (uses : List Use) (m : Modules) → run_uses uses m ≡ choices m.default_transport_factory uses
  unfolding run_uses set_default_transport_factory create_transport make_default_transport
  run_uses-choices [] m = refl
  run_uses-choices (set_default factory ∷ uses) m = run_uses-choices uses _
  run_uses-choices (new_client none url ∷ uses) m =
      ap₂ (λ r rs. r ∷ rs) (call_factory-choice m.default_transport_factory url m.xhr)
        (run_uses-choices uses _)
  run_uses-choices (new_client (some factory) url ∷ uses) m =
      ap₂ (λ r rs. r ∷ rs) (call_factory-choice factory url m.xhr) (run_uses-choices uses _)

  -- The transport of each client that a page makes, from the loading of the modules on: what its own
  -- factory makes, or without one what the factory that was set last makes, or without any the
  -- initial one. That is fetch with the credentials "same-origin" if the browser has `Response` with
  -- a `body`, and `Headers`; otherwise the XHR for `moz-chunked-arraybuffer`, if the browser has XHR
  -- and takes that type; otherwise the XHR for text, if the browser has XHR with `overrideMimeType`;
  -- otherwise an exception. The request that the detection keeps does not matter.
  pub run_uses-choices-loaded : (uses : List Use) → run_uses uses loaded ≡ choices initial uses
  unfolding loaded
  run_uses-choices-loaded uses = run_uses-choices uses loaded
