-- ===== src/Dev/Proxy.antt =====
-- frontend/dev.ts: `apiURL`, `proxyRequest` and the headers that `connectUpstream` sends.
--
-- `request.url` and the origin of the API are parsed URLs; the setters of `URL` are those of the
-- URL standard, for a host that is already parsed. A port is `none` where it is the scheme's own.
-- The names of a request's headers are lower-case, as `Headers` keeps them.
pub mod Laws
mod Tests
use blockops.Prelude.{
  ℕ, ◌+◌, Bool, true, false, ◌&&◌, ◌||◌, not, Option, none, some, List, [], ◌∷◌, map, select, ◌==◌,
  if◌then◌else◌,
}
use blockops.Js.Text.{Text, codes, same_text, in_range}
use blockops.Api.Client.{Headers, get_header, set_header}

pub data Scheme : Type 0 where
  http https ws wss ftp file : Scheme
  other : Text → Scheme

pub record Url : Type 0 where
  pub protocol : Scheme
  pub hostname : Text
  pub port : Option ℕ
  pub has_credentials : Bool
  pub path : Text  -- with its query

abbrev pub is_special : Scheme → Bool
is_special (other s) = false
is_special _ = true

abbrev pub is_file : Scheme → Bool
is_file file = true
is_file _ = false

abbrev pub default_port : Scheme → Option ℕ
default_port http = some 80
default_port https = some 443
default_port ws = some 80
default_port wss = some 443
default_port ftp = some 21
default_port _ = none

abbrev pub same_port : Option ℕ → Option ℕ → Bool
same_port (some p) (some q) = p == q
same_port none none = true
same_port _ _ = false

abbrev pub is_empty : Text → Bool
is_empty [] = true
is_empty (c ∷ s) = false

abbrev pub has_port : Option ℕ → Bool
has_port none = false
has_port (some p) = true

-- A port that is the scheme's own is dropped.
abbrev pub normal_port : Scheme → Option ℕ → Option ℕ
normal_port s p = if same_port p (default_port s) then none else p

-- `url.protocol = …`
unfoldable pub set_protocol : Scheme → Url → Url
set_protocol s u =
    let blocked =
      (is_special s && not (is_special u.protocol))
      || (not (is_special s) && is_special u.protocol)
      || (is_file s && (u.has_credentials || has_port u.port))
      || (is_file u.protocol && is_empty u.hostname) in
    if blocked then u else record u { protocol = s; port = normal_port s u.port }

-- `url.hostname = …`
unfoldable pub set_hostname : Text → Url → Url
set_hostname h u =
    if is_empty h && (is_special u.protocol || u.has_credentials || has_port u.port)
    then u
    else record u { hostname = h }

-- `url.port = …`; the port of an origin without one is the empty string, which clears it.
unfoldable pub set_port : Option ℕ → Url → Url
set_port p u =
    if is_empty u.hostname || is_file u.protocol
    then u
    else record u { port = normal_port u.protocol p }

unfoldable pub api_url : Url → Url → Url
unfolding set_protocol set_hostname set_port
api_url origin url =
    set_port origin.port (set_hostname origin.hostname (set_protocol origin.protocol url))

-- A request of the browser, and what `fetch` is called with. The body is that of the stream.
pub record Request : Type 0 where
  pub method : Text
  pub url : Url
  pub headers : Headers
  pub body : Option Text

abbrev pub without_header : Text → Headers → Headers
without_header name hs = select (λ h. not (same_text h.0 name)) hs

unfoldable pub proxy_request : Url → Request → Request
unfolding api_url
proxy_request origin request = record {
  method = request.method;
  url = api_url origin request.url;
  headers = without_header (codes "host") request.headers;
  body =
      if same_text request.method (codes "GET") || same_text request.method (codes "HEAD")
      then none
      else request.body;
}

abbrev pub passed_on : List Text
passed_on = codes "cookie" ∷ codes "origin" ∷ codes "sec-websocket-protocol" ∷ []

abbrev pub assign : Text → Option Text → Headers → Headers
assign name none hs = hs
assign name (some value) hs = set_header name value hs

-- The loop over the names, from the headers that it has so far.
unfoldable pub copy_headers : List Text → Headers → Headers → Headers
copy_headers [] request headers = headers
copy_headers (name ∷ names) request headers =
    copy_headers names request (assign name (get_header name request) headers)

unfoldable pub upstream_headers : Headers → Headers
unfolding copy_headers
upstream_headers request = copy_headers passed_on request []

-- `toLowerCase` on the value of a header, whose units are bytes
abbrev pub lower_unit : ℕ → ℕ
lower_unit c = if in_range 65 90 c || (in_range 192 222 c && not (c == 215)) then c + 32 else c

abbrev pub lower : Text → Text
lower s = map lower_unit s

abbrev pub is_websocket : Option Text → Bool
is_websocket none = false
is_websocket (some v) = same_text (lower v) (codes "websocket")

-- `request.headers.get("upgrade")?.toLowerCase() === "websocket"`
unfoldable pub wants_upgrade : Request → Bool
wants_upgrade request = is_websocket (get_header (codes "upgrade") request.headers)
