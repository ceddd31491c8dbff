-- ===== src/Dev/Proxy/Tests.antt =====
-- Requests at concrete addresses.
use blockops.Prelude.{◌≡◌, refl, ◌||◌, true, false, none, some, [], ◌∷◌, if◌then◌else◌}
use blockops.Js.Text.{codes, same_text}
use blockops.Api.Client.{Headers, get_header}
use blockops.Dev.Proxy.{Url, http, https, Request, upstream_headers, wants_upgrade}
use blockops.Dev.Proxy.Laws.{upstream_headers-passed}

abbrev api : Url
api = record {
  protocol = https;
  hostname = codes "api.example";
  port = none;
  has_credentials = false;
  path = codes "/";
}

abbrev page : Url
page = record {
  protocol = http;
  hostname = codes "127.0.0.1";
  port = some 5173;
  has_credentials = false;
  path = codes "/api/v1/session?x=1";
}

abbrev sent_headers : Headers
sent_headers =
    (codes "host", codes "127.0.0.1:5173")
    ∷ (codes "cookie", codes "session=1")
    ∷ (codes "upgrade", codes "WebSocket")
    ∷ []

abbrev sent : Request
sent = record { method = codes "GET"; url = page; headers = sent_headers; body = some (codes "x") }

upstream_headers-passed_example : get_header (codes "host") (upstream_headers sent_headers) ≡ (
    if same_text (codes "cookie") (codes "host")
      || (same_text (codes "origin") (codes "host")
          || same_text (codes "sec-websocket-protocol") (codes "host"))
    then get_header (codes "host") sent_headers
    else none)
upstream_headers-passed_example = upstream_headers-passed sent_headers (codes "host")

cookie_sent : upstream_headers sent_headers ≡ (codes "cookie", codes "session=1") ∷ []
unfolding upstream_headers
cookie_sent = refl

upgrade_wanted : wants_upgrade sent ≡ true
unfolding wants_upgrade
upgrade_wanted = refl
