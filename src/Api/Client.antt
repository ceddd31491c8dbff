-- ===== src/Api/Client.antt =====
-- lib/api/api.ts: one request of the client and what its caller gets.
--
-- `Json` is what a response or a body holds; how it is written is a parameter, `stringify`.
pub mod Laws
pub mod Tests
use blockops.Prelude.{
  ℕ, Bool, true, false, not, ◌&&◌, Option, none, some, List, [], ◌∷◌, leb, ◌==◌, if◌then◌else◌,
}
use blockops.Js.Text.{Text, codes, same_text}
use blockops.Zod.{Zod}
use blockops.Api.Error.{
  ApiError, api_error, ErrorBody, malformed, api_error_from_response, Caught, api, other,
}

pub data Method : Type 0 where
  get post put delete : Method

pub data Body (Json : Type 0) : Type 0 where
  undefined : Body Json
  blob : Text → Text → Body Json  -- its type and its bytes
  json : Json → Body Json

-- The body of a request: nothing, the bytes of a blob, or a written value.
pub data Payload : Type 0 where
  empty : Payload
  bytes written : Text → Payload

abbrev pub Headers : Type 0
Headers = List (Text × Text)

-- `headers.set`: the headers of this module differ in more than case.
abbrev pub set_header : Text → Text → Headers → Headers
set_header name v [] = (name, v) ∷ []
set_header name v ((n, w) ∷ hs) =
    let rest = set_header name v hs in if same_text n name then (n, v) ∷ hs else (n, w) ∷ rest

abbrev pub get_header : Text → Headers → Option Text
get_header name [] = none
get_header name ((n, w) ∷ hs) =
    let rest = get_header name hs in if same_text n name then some w else rest

abbrev pub accept_header : Text
accept_header = codes "Accept"

abbrev pub content_type : Text
content_type = codes "Content-Type"

abbrev pub csrf_header : Text
csrf_header = codes "X-CSRF-Token"

pub record Request : Type 0 where
  pub method : Method
  pub path : Text
  pub headers : Headers
  pub payload : Payload
  pub credentials : Text  -- to which origins cookies go

-- `response.json()` is `none` where it throws.
pub record Response (Json : Type 0) : Type 0 where
  pub status : ℕ
  pub value : Option Json

abbrev pub is_ok : ℕ → Bool
is_ok status = leb 200 status && leb status 299

-- What the promise of a call settles with.
pub data Outcome (A : Type 0) : Type 0 where
  returned : A → Outcome A
  thrown : Caught → Outcome A

abbrev pub is_get : Method → Bool
is_get get = true
is_get _ = false

-- the truth of a string
abbrev pub truthy : Option Text → Bool
truthy none = false
truthy (some []) = false
truthy (some (c ∷ s)) = true

abbrev pub text_or : Text → Option Text → Text
text_or t none = t
text_or t (some u) = u

module _ {Json : Type 0} (stringify : Json → Text) where
  -- `requestBody`
  unfoldable pub request_body : Body Json → Headers → Payload × Headers
  request_body undefined headers = (empty, headers)
  request_body (blob [] content) headers =
      (bytes content, set_header content_type (codes "application/octet-stream") headers)
  request_body (blob (c ∷ s) content) headers =
      (bytes content, set_header content_type (c ∷ s) headers)
  request_body (json v) headers =
      (written (stringify v), set_header content_type (codes "application/json") headers)

  -- The part of `request` before `fetch`.
  unfoldable pub build_request : Option Text → Method → Text → Body Json → Request
  unfolding request_body
  build_request csrf_token method path options =
      let (payload, headers) =
        request_body options ((accept_header, codes "application/json") ∷ []) in
      record {
        method = method;
        path = path;
        headers =
            if not (is_get method) && truthy csrf_token
            then set_header csrf_header (text_or [] csrf_token) headers
            else headers;
        payload = payload;
        credentials = codes "same-origin";
      }

-- The part of `request` after `fetch`; `shape` is what the error schema's objects find in a body.
abbrev pub body_shape : {Json : Type 0} → (Json → ErrorBody) → Option Json → ErrorBody
body_shape shape none = malformed
body_shape shape (some v) = shape v

abbrev pub read_value : {Json : Type 0} → ℕ → Option Json → Outcome (Option Json)
read_value status none = thrown (
    api (
      api_error status (codes "invalid_response")
        (codes "BlockOps returned an unreadable response.")))
read_value status (some v) = returned (some v)

module _ {Json : Type 0} (z : Zod) (shape : Json → ErrorBody) where
  unfoldable pub interpret_value : ℕ → Option Json → Outcome (Option Json)
  interpret_value status value =
      if not (is_ok status)
      then thrown (api (api_error_from_response z status (body_shape shape value)))
      else if status == 204
      then returned none
      else read_value status value

  abbrev pub interpret_response : Response Json → Outcome (Option Json)
  interpret_response response = interpret_value response.status response.value

  unfoldable pub settle_fetch : Option (Response Json) → Outcome (Option Json)
  settle_fetch none = thrown other
  settle_fetch (some response) = interpret_response response

  -- `fetch` is `none` where it rejects.
  unfoldable pub request : (Request → Option (Response Json)) → Request → Outcome (Option Json)
  unfolding settle_fetch
  request fetch r = settle_fetch (fetch r)

  -- `parseApiResponse`, with the result of the schema's `safeParse`
  unfoldable pub parse_api_response : {A : Type 0} → Option A → Outcome A
  parse_api_response (some a) = returned a
  parse_api_response none = thrown (
      api (api_error 0 (codes "invalid_response") (codes "BlockOps returned an invalid response.")))

  unfoldable pub parse_outcome :
      {A : Type 0} → (Option Json → Option A) → Outcome (Option Json) → Outcome A
  unfolding parse_api_response
  parse_outcome parse (returned v) = parse_api_response (parse v)
  parse_outcome parse (thrown e) = thrown e

  -- An endpoint: a request and then its schema.
  unfoldable pub call :
      {A : Type 0}
      → (Request → Option (Response Json))
      → (Option Json → Option A)
      → Request
      → Outcome A
  unfolding request parse_outcome
  call fetch parse r = parse_outcome parse (request fetch r)
