-- ===== src/Api/Client/Laws.antt =====
-- What a request carries and how its call settles.
use blockops.Prelude.{
  ℕ, ◌≤◌, ◌≡◌, ◌≢◌, refl, ◌↔◌, ◌⊎◌, inl, inr, true, false, Option, none, some, ◌∷◌, [],
  Option-cases, arith,
}
use blockops.Js.Text.{Text, codes}
use blockops.Js.Utf8.{code_points}
use blockops.Zod.{Zod}
use blockops.Api.Error.{
  ErrorBody, malformed, code_pattern, has_unsafe_message_characters, ApiError, api_error, Caught,
  api,
}
use blockops.Api.Error.Laws.{IsSafe, api_error-IsSafe, api_error_from_response-IsSafe}
use blockops.Api.Client.{
  Method, Body, undefined, blob, json, get_header, content_type, csrf_header, accept_header, truthy,
  Request, build_request, Response, is_get, Outcome, returned, thrown, interpret_value,
  interpret_response, request, settle_fetch, parse_outcome, parse_api_response, call,
}

-- A call that is no read carries the session's token exactly if there is one, a read never carries
-- it, the content type is set exactly if there is a body, and the request has the method and the path
-- of the call and asks for JSON.
pub build_request-headers :
    {Json : Type 0} (stringify : Json → Text) (token : Option Text) (m : Method) (path : Text)
    (body : Body Json)
    → let r = build_request stringify token m path body in
      (is_get m ≡ true → get_header csrf_header r.headers ≡ none)
      × (is_get m ≡ false → truthy token ≡ true → get_header csrf_header r.headers ≡ token)
      × (truthy token ≡ false → get_header csrf_header r.headers ≡ none)
      × ((get_header content_type r.headers ≡ none) ↔ (body ≡ undefined))
      × (get_header accept_header r.headers ≡ some (codes "application/json"))
      × (r.method ≡ m)
      × (r.path ≡ path)
unfolding build_request
build_request-headers stringify none m path undefined = ground arith
build_request-headers stringify none m path (blob [] t) = ground arith
build_request-headers stringify none m path (blob (c ∷ s) t) = ground arith
build_request-headers stringify none m path (json v) = ground arith
build_request-headers stringify (some []) m path undefined = ground arith
build_request-headers stringify (some []) m path (blob [] t) = ground arith
build_request-headers stringify (some []) m path (blob (c ∷ s) t) = ground arith
build_request-headers stringify (some []) m path (json v) = ground arith
build_request-headers stringify (some (d ∷ t)) m path undefined = ground arith
build_request-headers stringify (some (d ∷ t)) m path (blob [] u) = ground arith
build_request-headers stringify (some (d ∷ t)) m path (blob (c ∷ s) u) = ground arith
build_request-headers stringify (some (d ∷ t)) m path (json v) = ground arith

module _ {Json : Type 0} (z : Zod) (shape : Json → ErrorBody) where
  interpret_value-returned_iff :
      (status : ℕ) (value v : Option Json)
      → (interpret_value z shape status value ≡ returned v) ↔ (
          (200 ≤ status)
          × (status ≤ 299)
          × ((status ≡ 204) × (v ≡ none) ⊎ (status ≢ 204) × (v ≡ value) × (v ≢ none)))
  unfolding interpret_value
  interpret_value-returned_iff status none v = ground arith
  interpret_value-returned_iff status (some j) v = ground arith

  unreadable-IsSafe :
      (status : ℕ)
      → IsSafe status (
          api_error status
            (codes "invalid_response")
            (codes "BlockOps returned an unreadable response."))
  unfolding has_unsafe_message_characters code_points
  unreadable-IsSafe status =
      api_error-IsSafe status _ _
        (inr (record { bounds = (omega arith, omega arith); printable = refl }))

  invalid-IsSafe :
      (status : ℕ)
      → IsSafe status
          (api_error 0 (codes "invalid_response") (codes "BlockOps returned an invalid response."))
  unfolding api_error code_pattern has_unsafe_message_characters code_points
  invalid-IsSafe status = record {
    status_known = inl refl;
    code_known = refl;
    message_known = inr (record { bounds = (omega arith, omega arith); printable = refl });
  }

  interpret_value-IsSafe :
      (status : ℕ) (value : Option Json) (e : Caught)
      → interpret_value z shape status value ≡ thrown e
      → (a : ApiError) × (e ≡ api a) × IsSafe status a
  unfolding interpret_value
  interpret_value-IsSafe status none e h =
      ground (arith, unreadable-IsSafe status, api_error_from_response-IsSafe z status malformed)
  interpret_value-IsSafe status (some j) e h =
      ground (arith, api_error_from_response-IsSafe z status (shape j))

  -- A request that was answered returns exactly if the status is 200 to 299: nothing for 204,
  -- whatever the body, and otherwise the JSON value of the body, which there must be.
  pub request-returned_iff :
      (fetch : Request → Option (Response Json)) (q : Request) (r : Response Json) (v : Option Json)
      → fetch q ≡ some r
      → (request z shape fetch q ≡ returned v) ↔ (
          (200 ≤ r.status)
          × (r.status ≤ 299)
          × ((r.status ≡ 204) × (v ≡ none) ⊎ (r.status ≢ 204) × (v ≡ r.value) × (v ≢ none)))
  unfolding request settle_fetch
  request-returned_iff fetch q r v e = rw e (interpret_value-returned_iff r.status r.value v)

  parse_outcome-IsSafe :
      {A : Type 0} (parse : Option Json → Option A) (r : Response Json) (o : Outcome (Option Json))
      (e : Caught)
      → ((c : Caught) → o ≡ thrown c → (a : ApiError) × (c ≡ api a) × IsSafe r.status a)
      → parse_outcome z shape parse o ≡ thrown e
      → (a : ApiError) × (e ≡ api a) × IsSafe r.status a
  unfolding parse_outcome parse_api_response
  parse_outcome-IsSafe parse r (thrown c) e h k = ground (arith, h c refl)
  parse_outcome-IsSafe parse r (returned v) e h k = elim (Option-cases (parse v)) [
    | inl n ↦ ground (arith, invalid-IsSafe r.status)
    | inr (a, y) ↦ ground arith
  ]

  -- When an endpoint that was answered throws, it throws an error of the client, whose status is 0 or
  -- the answer's, from 100 to 599, whose code has the form of a code, and whose message is the fixed
  -- text with the status or 1 to 240 units without control characters.
  pub call-IsSafe :
      {A : Type 0} (fetch : Request → Option (Response Json)) (parse : Option Json → Option A)
      (q : Request) (r : Response Json) (e : Caught)
      → fetch q ≡ some r
      → call z shape fetch parse q ≡ thrown e
      → (a : ApiError) × (e ≡ api a) × IsSafe r.status a
  unfolding call request settle_fetch
  call-IsSafe fetch parse q r e f h =
      parse_outcome-IsSafe parse r (interpret_response z shape r) e
        (λ c k. interpret_value-IsSafe r.status r.value c k) (rw f at h)
