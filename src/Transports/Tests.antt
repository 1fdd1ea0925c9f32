-- ===== src/Transports/Tests.antt =====
-- The choice of a transport in one browser.
use grpc_web.Prelude.{◌≡◌, true, false, none, some, List, [], ◌∷◌, text, ok}
use grpc_web.Transports.{Browser, xhr_factory, http, user, initial, loaded}
use grpc_web.Transports.Choice.{
  Use, set_default, new_client, choices, run_uses, run_uses-choices-loaded,
}

-- No fetch, and XHR with overrideMimeType that leaves `responseType` as it was.
abbrev old_browser : Browser
old_browser = record {
  has_xml_http_request = true;
  has_override_mime_type = true;
  response_type_after = λ type. ok [];
  has_response = false;
  response_has_body = false;
  has_headers = true;
}

abbrev uses : List Use
uses =
    new_client none (text "https://host/a")
    ∷ set_default (user 3)
    ∷ new_client (some (http (xhr_factory true))) (text "https://host/b")
    ∷ new_client none (text "https://host/c")
    ∷ []

run_uses-choices-loaded_example :
    run_uses old_browser (λ n url. ok n) uses loaded
    ≡ choices old_browser (λ n url. ok n) initial uses
run_uses-choices-loaded_example = run_uses-choices-loaded old_browser (λ n url. ok n) uses
