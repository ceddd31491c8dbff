-- ===== src/Dev/Proxy/Laws.antt =====
-- Where a request that is passed on goes, and with what.
use blockops.Prelude.{
  ℕ, ◌≡◌, ◌≢◌, ◌⊎◌, inl, inr, refl, sym, ◌∙◌, Bool, true, false, ◌||◌, Option, none, some, [], ◌∷◌,
  List, any, Option-cases, if◌then◌else◌, Bool-cases, arith,
}
use blockops.Js.Text.{Text, codes, same_text}
use blockops.Js.Text.Laws.{same_text_iff}
use blockops.Api.Client.{Headers, get_header, set_header}
use blockops.Dev.Proxy.{
  Scheme, http, https, Url, normal_port, set_protocol, set_hostname, set_port, api_url, Request,
  proxy_request, passed_on, assign, upstream_headers, copy_headers, without_header,
}

-- An address of the web, as both the page's requests and the API have.
pub record IsWeb (u : Url) : Type 0 where
  pub scheme : (u.protocol ≡ http) ⊎ (u.protocol ≡ https)
  pub host : u.hostname ≢ []
  pub port : normal_port u.protocol u.port ≡ u.port

set_protocol-web :
    (s : Scheme) (u : Url)
    → (s ≡ http) ⊎ (s ≡ https)
    → (u.protocol ≡ http) ⊎ (u.protocol ≡ https)
    → set_protocol s u ≡ record u { protocol = s; port = normal_port s u.port }
unfolding set_protocol
set_protocol-web s u (inl e) (inl f) = rw (e, f) refl
set_protocol-web s u (inl e) (inr f) = rw (e, f) refl
set_protocol-web s u (inr e) (inl f) = rw (e, f) refl
set_protocol-web s u (inr e) (inr f) = rw (e, f) refl

set_hostname-filled : (h : Text) (u : Url) → h ≢ [] → set_hostname h u ≡ record u { hostname = h }
unfolding set_hostname
set_hostname-filled [] u n = absurd (n refl)
set_hostname-filled (c ∷ s) u n = refl

set_port-web :
    (p : Option ℕ) (u : Url)
    → (u.protocol ≡ http) ⊎ (u.protocol ≡ https)
    → u.hostname ≢ []
    → set_port p u ≡ record u { port = normal_port u.protocol p }
unfolding set_port
set_port-web p u w n = ground arith

-- Between web addresses, `apiURL` takes the scheme, the host and the port of the API, also where the
-- one has a port and the other has not, and keeps the path and the credentials.
pub api_url-moved :
    (origin url : Url)
    → IsWeb origin
    → IsWeb url
    → api_url origin url
      ≡ record url { protocol = origin.protocol; hostname = origin.hostname; port = origin.port }
unfolding api_url
api_url-moved origin url h k =
    let a = set_protocol-web origin.protocol url h.scheme k.scheme in
    let moved = record url {
      protocol = origin.protocol;
      port = normal_port origin.protocol url.port;
    } in
    let b = set_hostname-filled origin.hostname moved h.host in
    let c =
      set_port-web origin.port (record moved { hostname = origin.hostname }) h.scheme h.host in
    rw (a, b, c, h.port) refl

same_text-cases : (s t : Text) → (s ≡ t) ⊎ (same_text s t ≡ false)
same_text-cases s t = elim (Bool-cases (same_text s t)) [
  | inl e ↦ inl ((same_text_iff s t).0 e)
  | inr e ↦ inr e
]

get_header-without_same :
    (name : Text) (hs : Headers) → get_header name (without_header name hs) ≡ none
get_header-without_same name [] = refl
get_header-without_same name ((n, v) ∷ hs) =
    ground (arith, get_header-without_same name hs, Bool-cases (same_text n name))

get_header-without_other :
    (name other : Text) (hs : Headers)
    → name ≢ other
    → get_header other (without_header name hs) ≡ get_header other hs
get_header-without_other name other [] d = refl
get_header-without_other name other ((n, v) ∷ hs) d = ground (
  arith,
  get_header-without_other name other hs d,
  same_text_iff n name,
  same_text_iff n other,
  Bool-cases (same_text n name),
  Bool-cases (same_text n other),
)

-- A request that is passed on has its method, goes to `apiURL` of its address, and has every header
-- but `host`; its body goes with it unless the method is GET or HEAD.
pub proxy_request-passed :
    (origin : Url) (r : Request)
    → let p = proxy_request origin r in
      (p.method ≡ r.method)
      × (p.url ≡ api_url origin r.url)
      × (get_header (codes "host") p.headers ≡ none)
      × ((name : Text)
          → name ≢ codes "host"
          → get_header name p.headers ≡ get_header name r.headers)
      × (((p.body ≡ r.body) × (r.method ≢ codes "GET") × (r.method ≢ codes "HEAD"))
          ⊎ ((p.body ≡ none) × ((r.method ≡ codes "GET") ⊎ (r.method ≡ codes "HEAD"))))
unfolding proxy_request
proxy_request-passed origin r = (
  refl,
  refl,
  get_header-without_same (codes "host") r.headers,
  λ name d. get_header-without_other (codes "host") name r.headers (λ e. d (sym e)),
  ground (
    arith,
    same_text_iff r.method (codes "GET"),
    same_text_iff r.method (codes "HEAD"),
    Bool-cases (same_text r.method (codes "GET")),
    Bool-cases (same_text r.method (codes "HEAD")),
  ),
)

abbrev or_else : Option Text → Option Text → Option Text
or_else none o = o
or_else (some v) o = some v

get_header-set_header :
    (n v name : Text) (hs : Headers)
    → get_header name (set_header n v hs)
      ≡ (if same_text n name then some v else get_header name hs)
get_header-set_header n v name [] = refl
get_header-set_header n v name ((m, w) ∷ hs) = ground (
  arith,
  get_header-set_header n v name hs,
  same_text_iff m n,
  same_text_iff n name,
  same_text_iff m name,
  Bool-cases (same_text m n),
  Bool-cases (same_text n name),
  Bool-cases (same_text m name),
)

get_header-assign :
    (n name : Text) (o : Option Text) (hs : Headers)
    → get_header name (assign n o hs)
      ≡ (if same_text n name then or_else o (get_header name hs) else get_header name hs)
get_header-assign n name none hs = ground (arith, Bool-cases (same_text n name))
get_header-assign n name (some v) hs = get_header-set_header n v name hs

get_header-copy_headers :
    (names : List Text) (request hs : Headers) (name : Text)
    → get_header name (copy_headers names request hs) ≡ (
        if any (λ n. same_text n name) names
        then or_else (get_header name request) (get_header name hs)
        else get_header name hs)
unfolding copy_headers
get_header-copy_headers [] request hs name = refl
get_header-copy_headers (n ∷ ns) request hs name = ground (
  arith,
  get_header-copy_headers ns request (assign n (get_header n request) hs) name,
  get_header-assign n name (get_header n request) hs,
  same_text_iff n name,
  Bool-cases (same_text n name),
  Option-cases (get_header name request),
)

or_else-none : (o : Option Text) → or_else o none ≡ o
or_else-none none = refl
or_else-none (some t) = refl

three_names :
    (a b c : Bool) (o : Option Text)
    → (if a || (b || (c || false)) then or_else o none else none)
      ≡ (if a || (b || c) then o else none)
three_names true b c o = or_else-none o
three_names false true c o = or_else-none o
three_names false false true o = or_else-none o
three_names false false false o = refl

-- The socket to the API is opened with the browser's cookie, origin and subprotocols, where the
-- browser sent them, and with no other header.
pub upstream_headers-passed :
    (request : Headers) (name : Text)
    → get_header name (upstream_headers request) ≡ (
        if same_text (codes "cookie") name
          || (same_text (codes "origin") name || same_text (codes "sec-websocket-protocol") name)
        then get_header name request
        else none)
unfolding upstream_headers
upstream_headers-passed request name =
    get_header-copy_headers passed_on request [] name
    ∙ three_names (same_text (codes "cookie") name) (same_text (codes "origin") name)
        (same_text (codes "sec-websocket-protocol") name) (get_header name request)
