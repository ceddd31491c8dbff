-- ===== src/Api/Client/Tests.antt =====
-- Requests and answers at concrete arguments.
use blockops.Prelude.{◌≡◌, ◌↔◌, refl, true, false, Option, none, some, []}
use blockops.Js.Text.{Text, codes}
use blockops.Zod.Direct.{direct}
use blockops.Api.Error.{ApiError, ErrorBody, malformed, with_error, api, api_error_from_response}
use blockops.Api.Error.Laws.{IsSafe, api_error_from_response-IsSafe}
use blockops.Api.Client.{
  get, post, undefined, empty, json, get_header, content_type, csrf_header, accept_header, truthy,
  is_get, Request, build_request, Response, thrown, call, settle_fetch, interpret_value,
  parse_outcome,
}
use blockops.Api.Client.Laws.{build_request-headers, call-IsSafe}

-- A value is written as itself.
abbrev itself : Text → Text
itself t = t

abbrev token : Option Text
token = some (codes "csrf-token")

build_request-headers_example :
    let r = build_request itself token post (codes "/api/post") (json (codes "{}")) in
    (is_get post ≡ true → get_header csrf_header r.headers ≡ none)
    × (is_get post ≡ false → truthy token ≡ true → get_header csrf_header r.headers ≡ token)
    × (truthy token ≡ false → get_header csrf_header r.headers ≡ none)
    × ((get_header content_type r.headers ≡ none) ↔ (json (codes "{}") ≡ undefined))
    × (get_header accept_header r.headers ≡ some (codes "application/json"))
    × (r.method ≡ post)
    × (r.path ≡ codes "/api/post")
build_request-headers_example =
    build_request-headers itself token post (codes "/api/post") (json (codes "{}"))

-- What api.test.ts sends as a malformed error.
abbrev bad_error : Text → ErrorBody
bad_error t = with_error (some (codes "INVALID CODE")) (some t)

api_error_from_response-IsSafe_example :
    IsSafe 502 (api_error_from_response direct 502 (bad_error (codes "unsafe")))
api_error_from_response-IsSafe_example =
    api_error_from_response-IsSafe direct 502 (bad_error (codes "unsafe"))

abbrev read : Request
read = record {
  method = get;
  path = codes "/api/test";
  headers = [];
  payload = empty;
  credentials = codes "same-origin";
}

abbrev answer : Response Text
answer = record { status = 200; value = some (codes "{}") }

abbrev fetch : Request → Option (Response Text)
fetch q = some answer

abbrev failing : Response Text
failing = record { status = 502; value = none }

abbrev fetch_failing : Request → Option (Response Text)
fetch_failing q = some failing

abbrev parse_any : Option Text → Option Text
parse_any t = t

fails :
    call direct bad_error fetch_failing parse_any read
    ≡ thrown (api (api_error_from_response direct 502 malformed))
unfolding call settle_fetch interpret_value parse_outcome
fails = refl

call-IsSafe_example :
    (a : ApiError) × (api (api_error_from_response direct 502 malformed) ≡ api a) × IsSafe 502 a
call-IsSafe_example =
    call-IsSafe direct bad_error fetch_failing parse_any read failing
      (api (api_error_from_response direct 502 malformed)) refl fails
