-- ===== src/Auth/Schemas.antt =====
-- auth-schemas.ts: usernames and passwords.
--
-- `Letters` stands for the Unicode categories `\p{Ll}`, `\p{Lu}` and `\p{Nd}` of code points.
pub mod Laws
use blockops.Prelude.{
  ℕ, ◌+◌, Bool, true, false, not, ◌&&◌, ◌||◌, List, [], ◌∷◌, length, all, any, select, leb, ◌==◌,
}
use blockops.Js.Text.{Text, codes, in_range}
use blockops.Js.Utf8.{utf8_length, code_points}
use blockops.Zod.{Zod, ObjectParsed}

unfoldable pub is_alphanumeric : ℕ → Bool
is_alphanumeric c = in_range b'A' b'Z' c || in_range b'a' b'z' c || in_range b'0' b'9' c

unfoldable pub is_username_unit : ℕ → Bool
unfolding is_alphanumeric
is_username_unit c = is_alphanumeric c || c == b'_' || c == b'.' || c == b'-'

-- `^[A-Za-z0-9][A-Za-z0-9_.-]{2,31}$`
unfoldable pub username_pattern : Text → Bool
unfolding is_alphanumeric is_username_unit
username_pattern [] = false
username_pattern (c ∷ s) =
    is_alphanumeric c && leb 2 (length s) && leb (length s) 31 && all is_username_unit s

abbrev pub username_message : Text
username_message =
    codes "Username must be 3–32 characters using letters, numbers, dot, underscore, or hyphen."

abbrev pub password_required : Text
password_required = codes "Password is required."

abbrev pub password_too_long : Text
password_too_long = codes "Password must be at most 256 characters."

abbrev pub password_too_short : Text
password_too_short = codes "Password must be at least 12 characters."

abbrev pub password_too_simple : Text
password_too_simple =
    codes "Password must use at least three of lowercase, uppercase, numbers, and symbols."

pub record Letters : Type 0 where
  pub is_lower : ℕ → Bool
  pub is_upper : ℕ → Bool
  pub is_digit : ℕ → Bool

-- `[^\p{Ll}\p{Lu}\p{Nd}]`
abbrev pub is_symbol : Letters → ℕ → Bool
is_symbol l c = not (l.is_lower c || l.is_upper c || l.is_digit c)

-- The patterns that some code point of the password matches.
unfoldable pub categories : Letters → Text → ℕ
categories l password =
    let points = code_points password in
    length (
      select (λ pattern. any pattern points)
        (l.is_lower ∷ l.is_upper ∷ l.is_digit ∷ is_symbol l ∷ []))

module _ (z : Zod) where
  open z use {Schema, safe_parse, string, regex, refine, min, safe_parse_object}

  unfoldable pub username_schema : Schema
  username_schema = regex string username_pattern username_message

  unfoldable pub password_schema : Schema
  password_schema =
      refine (min string 1 password_required) (λ password. leb (utf8_length password) 256)
        password_too_long

  unfoldable pub strong_password_schema : Letters → Schema
  unfolding password_schema
  strong_password_schema l =
      refine (refine password_schema (λ password. leb 12 (utf8_length password)) password_too_short)
        (λ password. leb 3 (categories l password)) password_too_simple

  -- `loginCredentialsSchema.safeParse` and `setupCredentialsSchema.safeParse`
  unfoldable pub parse_login : Text → Text → ObjectParsed
  parse_login username password =
      safe_parse_object ((username_schema, username) ∷ (password_schema, password) ∷ [])

  unfoldable pub parse_setup : Letters → Text → Text → ObjectParsed
  parse_setup l username password =
      safe_parse_object ((username_schema, username) ∷ (strong_password_schema l, password) ∷ [])
