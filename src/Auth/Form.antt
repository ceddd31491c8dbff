-- ===== src/Auth/Form.antt =====
-- auth-form.tsx: the form of the setup and the login screen.
use blockops.Prelude.{ℕ, Bool, true, false, ◌||◌, Option, none, some, List, [], ◌∷◌, if◌then◌else◌}
use blockops.Js.Text.{Text, codes}
use blockops.Zod.{Zod, ObjectParsed, accepted, rejected}
use blockops.Auth.Schemas.{Letters, parse_login, parse_setup}

pub data Mode : Type 0 where
  setup login : Mode

pub record Credentials : Type 0 where
  pub username : Text
  pub password : Text

pub record AuthForm : Type 0 where
  pub username : Text
  pub password : Text
  pub username_error : Option Text
  pub password_error : Option Text
  pub sent : List Credentials  -- the calls of `onSubmit`, the newest first

abbrev pub initial_form : AuthForm
initial_form = record {
  username = [];
  password = [];
  username_error = none;
  password_error = none;
  sent = [];
}

-- `submit` after `safeParse`: the first message of each field, or the credentials.
unfoldable pub submit_parsed : ObjectParsed → AuthForm → AuthForm
submit_parsed (accepted (u ∷ p ∷ _)) f = record f {
  username_error = none;
  password_error = none;
  sent = record { username = u; password = p } ∷ f.sent;
}
submit_parsed (rejected (u ∷ p ∷ _)) f = record f { username_error = u; password_error = p }
submit_parsed _ f = f

abbrev pub parse_credentials : Zod → Letters → Mode → Text → Text → ObjectParsed
parse_credentials z l setup u p = parse_setup z l u p
parse_credentials z l login u p = parse_login z u p

unfoldable pub submit : Zod → Letters → Mode → AuthForm → AuthForm
unfolding submit_parsed
submit z l mode f = submit_parsed (parse_credentials z l mode f.username f.password) f

-- What the form renders: its notice, the hints of the fields, whether a hint is an error, the limits
-- of the inputs and the button.
pub record FieldView : Type 0 where
  pub hint : Option Text
  pub hint_is_error : Bool
  pub described : Bool
  pub min_length : Option ℕ
  pub max_length : ℕ
  pub auto_complete : Text

pub record FormView : Type 0 where
  pub notice : Option Text
  pub username_field : FieldView
  pub password_field : FieldView
  pub button_label : Text
  pub button_disabled : Bool

abbrev first_of : Option Text → Option Text → Option Text
first_of none b = b
first_of (some a) b = some a

-- the truth of an optional string
abbrev shows : Option Text → Bool
shows none = false
shows (some []) = false
shows (some (c ∷ s)) = true

abbrev is_setup : Mode → Bool
is_setup setup = true
is_setup login = false

unfoldable pub form_view : Mode → Option Text → Bool → Text → AuthForm → FormView
form_view mode notice pending submit_label f = record {
  notice = notice;
  username_field = record {
    hint = first_of f.username_error (
        if is_setup mode
        then some (codes "3–32 letters, numbers, dot, underscore, or hyphen.")
        else none);
    hint_is_error = shows f.username_error;
    described = is_setup mode || shows f.username_error;
    min_length = some 3;
    max_length = 32;
    auto_complete = codes "username";
  };
  password_field = record {
    hint = first_of f.password_error (
        if is_setup mode
        then some (codes "At least 12 characters using three character categories.")
        else none);
    hint_is_error = shows f.password_error;
    described = is_setup mode || shows f.password_error;
    min_length = if is_setup mode then some 12 else none;
    max_length = 256;
    auto_complete = if is_setup mode then codes "new-password" else codes "current-password";
  };
  button_label = if pending then codes "Please wait…" else submit_label;
  button_disabled = pending;
}
