-- ===== src/Settings/NewUser.antt =====
-- components/user-settings.tsx: the form that creates a user.
--
-- `createUserRequestSchema` has the fields of `setupCredentialsSchema` and the role, which the form's
-- `select` only sets to one of the three.
pub mod Laws
pub mod Tests
use blockops.Prelude.{
  Bool, true, false, not, ◌&&◌, ◌||◌, Option, none, some, List, [], ◌∷◌, if◌then◌else◌,
}
use blockops.Js.Text.{Text}
use blockops.Zod.{Zod, ObjectParsed, accepted, rejected}
use blockops.Query.{is_pending, is_error, is_success, Mutation}
use blockops.Auth.Permissions.{Role, viewer}
use blockops.Auth.Schemas.{Letters, parse_setup}

pub record CreateUserRequest : Type 0 where
  pub username : Text
  pub password : Text
  pub role : Role

pub record FieldErrors : Type 0 where
  pub username : Option Text
  pub password : Option Text
  pub role : Option Text

abbrev pub no_errors : FieldErrors
no_errors = record { username = none; password = none; role = none }

pub record NewUser (S : Type 0) : Type 0 where
  pub username : Text
  pub password : Text
  pub role : Role
  pub field_errors : FieldErrors
  pub create : S
  pub sent : List CreateUserRequest  -- the newest first

-- `createUserRequestSchema.safeParse`, with `flatten().fieldErrors` where it fails
pub data Request : Type 0 where
  valid : CreateUserRequest → Request
  invalid : FieldErrors → Request

abbrev pub with_role : Role → ObjectParsed → Request
with_role role (accepted (username ∷ password ∷ [])) =
    valid (record { username = username; password = password; role = role })
with_role role (accepted _) = invalid no_errors
with_role role (rejected (username ∷ password ∷ [])) =
    invalid (record { username = username; password = password; role = none })
with_role role (rejected _) = invalid no_errors

unfoldable pub parse_request : Zod → Letters → Text → Text → Role → Request
parse_request z l username password role = with_role role (parse_setup z l username password)

module _ {E : Type 0} (m : Mutation CreateUserRequest E) where
  abbrev pub Form : Type 0
  Form = NewUser m.State

  abbrev pub initial_form : Form
  initial_form = record {
    username = [];
    password = [];
    role = viewer;
    field_errors = no_errors;
    create = m.initial;
    sent = [];
  }

  unfoldable pub edit_create_field : Form → Form
  edit_create_field f =
      if is_error (m.status f.create) || is_success (m.status f.create)
      then record f { create = m.reset f.create }
      else f

  unfoldable pub type_username : Text → Form → Form
  unfolding edit_create_field
  type_username t f =
      let g = edit_create_field f in
      record g { username = t; field_errors = record g.field_errors { username = none } }

  unfoldable pub type_password : Text → Form → Form
  unfolding edit_create_field
  type_password t f =
      let g = edit_create_field f in
      record g { password = t; field_errors = record g.field_errors { password = none } }

  unfoldable pub choose_role : Role → Form → Form
  unfolding edit_create_field
  choose_role r f =
      let g = edit_create_field f in
      record g { role = r; field_errors = record g.field_errors { role = none } }

  -- `submit` after the schema
  unfoldable pub submit_parsed : Request → Form → Form
  submit_parsed (invalid errors) f = record f { create = m.reset f.create; field_errors = errors }
  submit_parsed (valid request) f = record f {
    field_errors = no_errors;
    create = m.mutate request f.create;
    sent = request ∷ f.sent;
  }

  unfoldable pub submit : Zod → Letters → Form → Form
  unfolding submit_parsed parse_request
  submit z l f = submit_parsed (parse_request z l f.username f.password f.role) f

  -- The user was created: the callback runs while the observer follows the call.
  unfoldable pub resolved : Form → Form
  resolved f =
      let settled = record f { create = m.resolve f.create } in
      if is_pending (m.status f.create)
      then record settled { username = []; password = []; role = viewer }
      else settled

pub data FormEvent (E : Type 0) : Type 0 where
  username_typed password_typed : Text → FormEvent E
  role_chosen : Role → FormEvent E
  submitted created : FormEvent E
  refused : E → FormEvent E

-- The submit button, and so the form, is disabled while a call is under way.
module _ {E : Type 0} (z : Zod) (l : Letters) (m : Mutation CreateUserRequest E) where
  unfoldable pub handle : FormEvent E → Form m → Form m
  unfolding type_username type_password choose_role submit resolved
  handle (username_typed t) f = type_username m t f
  handle (password_typed t) f = type_password m t f
  handle (role_chosen r) f = choose_role m r f
  handle submitted f = if is_pending (m.status f.create) then f else submit m z l f
  handle created f = resolved m f
  handle (refused e) f = record f { create = m.reject e f.create }

  abbrev pub run : List (FormEvent E) → Form m → Form m
  run [] f = f
  run (e ∷ es) f = run es (handle e f)
