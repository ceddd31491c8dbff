-- ===== src/Api/Error/Laws.antt =====
-- What an error can show.
use mathlib.Core.Option
use blockops.Prelude.{
  ℕ, ◌≤◌, ◌≡◌, refl, ◌⊎◌, inl, inr, true, false, not, Option, none, some, length, leb, arith,
}
use blockops.Js.Text.{Text, trim}
use blockops.Zod.{verdict, accept, reject, Verdict, check, alter, Zod}
use blockops.Api.Error.{
  has_unsafe_message_characters, code_pattern, ApiError, request_failed, or_else, api_error,
  ErrorBody, malformed, no_error, with_error, ErrorFields, optional_field, both_fields,
  failed_with_status, error_from_fields, error_code_schema, error_message_schema, parse_error_body,
  api_error_from_response,
}

-- A text of the server that may be shown: 1 to 240 units, no control characters.
pub record IsShowable (t : Text) : Type 0 where
  pub bounds : (1 ≤ length t) × (length t ≤ 240)
  pub printable : has_unsafe_message_characters t ≡ false

pub record IsSafe (status : ℕ) (e : ApiError) : Type 0 where
  pub status_known : (e.status ≡ 0) ⊎ ((e.status ≡ status) × (100 ≤ e.status) × (e.status ≤ 599))
  pub code_known : code_pattern e.code ≡ true
  pub message_known : (e.safe_message ≡ failed_with_status status) ⊎ (IsShowable e.safe_message)

request_failed-code : code_pattern request_failed ≡ true
unfolding code_pattern
request_failed-code = refl

abbrev CodeFine : Option Text → Type 0
CodeFine none = Unit
CodeFine (some t) = code_pattern t ≡ true

abbrev MessageFine : Option Text → Type 0
MessageFine none = Unit
MessageFine (some t) = IsShowable t

abbrev FieldsFine : Option ErrorFields → Type 0
FieldsFine none = Unit
FieldsFine (some f) = CodeFine f.code × MessageFine f.message

pub api_error-IsSafe :
    (status : ℕ) (c m : Text)
    → (m ≡ failed_with_status status) ⊎ (IsShowable m)
    → IsSafe status (api_error status c m)
unfolding api_error
api_error-IsSafe status c m h = ground (arith, request_failed-code)

message_shown :
    (status : ℕ) (m : Option Text)
    → MessageFine m
    → (or_else (failed_with_status status) m ≡ failed_with_status status)
      ⊎ IsShowable (or_else (failed_with_status status) m)
message_shown status none h = inl refl
message_shown status (some m) h = inr h

error_from_fields-IsSafe :
    (status : ℕ) (f : Option ErrorFields)
    → FieldsFine f
    → IsSafe status (error_from_fields status f)
unfolding error_from_fields
error_from_fields-IsSafe status none h = api_error-IsSafe status _ _ (inl refl)
error_from_fields-IsSafe status (some f) h =
    api_error-IsSafe status _ _ (message_shown status f.message h.1)

module _ (z : Zod) where
  message_verdict :
      (t : Text)
      → verdict (z.safe_parse (error_message_schema z) t)
        ≡ check
            (λ message. not (has_unsafe_message_characters message))
            z.default_message
            (check
              (λ u. leb (length u) 240)
              z.default_message
              (check (λ u. leb 1 (length u)) z.default_message (alter trim (accept t))))
  unfolding error_message_schema
  message_verdict t = simp (z.refine_law, z.max_law, z.min_law, z.trimmed_law, z.string_law)

  code_verdict :
      (t : Text)
      → verdict (z.safe_parse (error_code_schema z) t)
        ≡ check code_pattern z.default_message (accept t)
  unfolding error_code_schema
  code_verdict t = simp (z.regex_law, z.string_law)

  message_sound :
      (t u : Text) → verdict (z.safe_parse (error_message_schema z) t) ≡ accept u → IsShowable u
  message_sound t u e = ground (arith, message_verdict t)

  code_sound :
      (t u : Text)
      → verdict (z.safe_parse (error_code_schema z) t) ≡ accept u
      → code_pattern u ≡ true
  code_sound t u e = ground (arith, code_verdict t)

  both_fields-fine :
      (c m : Option (Verdict Text))
      → ((u : Text) → c ≡ some (accept u) → code_pattern u ≡ true)
      → ((u : Text) → m ≡ some (accept u) → IsShowable u)
      → FieldsFine (both_fields (optional_field c) (optional_field m))
  unfolding both_fields optional_field
  both_fields-fine none none h k = (tt, tt)
  both_fields-fine (some (accept t)) none h k = (h t refl, tt)
  both_fields-fine none (some (accept u)) h k = (tt, k u refl)
  both_fields-fine (some (accept t)) (some (accept u)) h k = (h t refl, k u refl)
  both_fields-fine (some (reject t)) m h k = tt
  both_fields-fine none (some (reject u)) h k = tt
  both_fields-fine (some (accept t)) (some (reject u)) h k = tt

  code_field :
      (c : Option Text) (u : Text)
      → Option.map (λ t. verdict (z.safe_parse (error_code_schema z) t)) c ≡ some (accept u)
      → code_pattern u ≡ true
  code_field none u e = cc
  code_field (some t) u e = code_sound t u cc

  message_field :
      (c : Option Text) (u : Text)
      → Option.map (λ t. verdict (z.safe_parse (error_message_schema z) t)) c ≡ some (accept u)
      → IsShowable u
  message_field none u e = cc
  message_field (some t) u e = message_sound t u cc

  parse_error_body-fine : (b : ErrorBody) → FieldsFine (parse_error_body z b)
  unfolding parse_error_body
  parse_error_body-fine malformed = tt
  parse_error_body-fine no_error = (tt, tt)
  parse_error_body-fine (with_error c m) = both_fields-fine _ _ (code_field c) (message_field m)

-- Whatever the server answers, the error has status 0 or a status of 100 to 599 that the server
-- sent, a code of 1 to 64 lower-case letters, digits and underscores, and a message that is either
-- the fixed text with the status or 1 to 240 units without control characters.
pub api_error_from_response-IsSafe :
    (z : Zod) (status : ℕ) (body : ErrorBody)
    → IsSafe status (api_error_from_response z status body)
unfolding api_error_from_response
api_error_from_response-IsSafe z status body =
    error_from_fields-IsSafe status (parse_error_body z body) (parse_error_body-fine z body)
