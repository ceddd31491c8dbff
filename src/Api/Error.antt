-- ===== src/Api/Error.antt =====
-- lib/api/api-error.ts: the error that every failed call ends in.
pub mod Laws
use mathlib.Core.Option
use blockops.Prelude.{
  ℕ, ◌+◌, ◌/◌, Bool, true, false, not, ◌&&◌, ◌||◌, Option, none, some, List, [], ◌∷◌, ◌++◌, length,
  all, any, leb, ltb, ◌==◌, if◌then◌else◌,
}
use blockops.Js.Text.{Text, codes, in_range}
use blockops.Js.Utf8.{code_points}
use blockops.Js.Number.{to_text}
use blockops.Zod.{verdict, accept, reject, Verdict, Zod}

-- `charCodeAt(0)` of the string of one code point
unfoldable pub char_code : ℕ → ℕ
char_code point = if ltb point 0x10000 then point else 0xd7c0 + point / 1024

unfoldable pub has_unsafe_message_characters : Text → Bool
unfolding char_code
has_unsafe_message_characters message =
    any (λ point. let code = char_code point in leb code 31 || code == 127) (code_points message)

-- `^[a-z0-9_]{1,64}$`
unfoldable pub code_pattern : Text → Bool
code_pattern code =
    leb 1 (length code)
    && leb (length code) 64
    && all (λ c. in_range b'a' b'z' c || in_range b'0' b'9' c || c == b'_') code

pub record ApiError : Type 0 where
  pub status : ℕ
  pub code : Text
  pub safe_message : Text

abbrev pub request_failed : Text
request_failed = codes "request_failed"

-- The constructor; the statuses that the source passes are natural numbers.
unfoldable pub api_error : ℕ → Text → Text → ApiError
api_error status code safe_message = record {
  status = if leb 100 status && leb status 599 then status else 0;
  code = if code_pattern code then code else request_failed;
  safe_message = safe_message;
}

-- What the two object layers of `errorBodySchema` find in a body: something else than such an
-- object, an object without `error`, or the two optional texts of `error`.
pub data ErrorBody : Type 0 where
  malformed no_error : ErrorBody
  with_error : Option Text → Option Text → ErrorBody

pub record ErrorFields : Type 0 where
  pub code : Option Text
  pub message : Option Text

-- `optional()`: the outer option is the failure of the field.
optional_field : Option (Verdict Text) → Option (Option Text)
optional_field none = some none
optional_field (some (accept t)) = some (some t)
optional_field (some (reject m)) = none

both_fields : Option (Option Text) → Option (Option Text) → Option ErrorFields
both_fields (some c) (some m) = some (record { code = c; message = m })
both_fields _ _ = none

-- `Request failed with status …`
unfoldable pub failed_with_status : ℕ → Text
failed_with_status status = codes "Request failed with status " ++ (to_text status ++ codes ".")

abbrev pub or_else : Text → Option Text → Text
or_else t none = t
or_else t (some u) = u

error_from_fields : ℕ → Option ErrorFields → ApiError
unfolding api_error failed_with_status
error_from_fields status none = api_error status request_failed (failed_with_status status)
error_from_fields status (some fields) =
    api_error status (or_else request_failed fields.code)
      (or_else (failed_with_status status) fields.message)

module _ (z : Zod) where
  open z use {Schema, safe_parse, string, regex, refine, min, max, trimmed}

  unfoldable pub error_code_schema : Schema
  error_code_schema = regex string code_pattern z.default_message

  unfoldable pub error_message_schema : Schema
  error_message_schema =
      refine (max (min (trimmed string) 1 z.default_message) 240 z.default_message)
        (λ message. not (has_unsafe_message_characters message)) z.default_message

  -- `errorBodySchema.safeParse`; `none` is a failure.
  unfoldable pub parse_error_body : ErrorBody → Option ErrorFields
  unfolding optional_field both_fields
  parse_error_body malformed = none
  parse_error_body no_error = some (record { code = none; message = none })
  parse_error_body (with_error code message) =
      both_fields (optional_field (Option.map (λ t. verdict (safe_parse error_code_schema t)) code))
        (optional_field (Option.map (λ t. verdict (safe_parse error_message_schema t)) message))

  -- A body that is no JSON is malformed too.
  unfoldable pub api_error_from_response : ℕ → ErrorBody → ApiError
  unfolding error_from_fields
  api_error_from_response status body = error_from_fields status (parse_error_body body)

-- What a `catch` may hold: an `ApiError` or anything else.
pub data Caught : Type 0 where
  api : ApiError → Caught
  other : Caught

unfoldable pub safe_error_message : Caught → Text
safe_error_message (api e) = e.safe_message
safe_error_message other = codes "Something went wrong."
