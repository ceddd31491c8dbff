-- ===== src/Auth/Session/Schema.antt =====
-- The schemas of users and sessions of auth-schemas.ts.
pub mod Laws
use blockops.Prelude.{Bool, true, ◌&&◌, Option, none, some, [], ◌∷◌, if◌then◌else◌}
use blockops.Js.Text.{Text, codes, same_text}
use blockops.Zod.{Zod, ObjectParsed, accepted}
use blockops.Auth.Permissions.{Role, administrator, operator, viewer}
use blockops.Auth.Schemas.{username_pattern}

pub record User : Type 0 where
  pub id : Text
  pub username : Text
  pub role : Role
  pub disabled : Bool
  pub created_at : Text

pub record Session : Type 0 where
  pub user : User
  pub csrf_token : Text
  pub expires_at : Text
  pub server_id : Text

-- A value with the fields of a session and of its user, each of its type.
pub record SessionFields : Type 0 where
  pub id : Text
  pub username : Text
  pub role : Text
  pub disabled : Bool
  pub created_at : Text
  pub csrf_token : Text
  pub expires_at : Text
  pub server_id : Text

unfoldable pub role_schema : Text → Option Role
role_schema t =
    if same_text t (codes "administrator")
    then some administrator
    else if same_text t (codes "operator")
    then some operator
    else if same_text t (codes "viewer")
    then some viewer
    else none

-- The session of the parsed fields, if all of them are right.
abbrev pub session_of :
    SessionFields → ObjectParsed → ObjectParsed → Option Role → Bool → Option Session
session_of v (accepted (csrf_token ∷ server_id ∷ [])) (accepted (id ∷ username ∷ [])) (some role)
      true =
    some (record {
      user = record {
        id = id;
        username = username;
        role = role;
        disabled = v.disabled;
        created_at = v.created_at;
      };
      csrf_token = csrf_token;
      expires_at = v.expires_at;
      server_id = server_id;
    })
session_of v _ _ _ _ = none

module _ (z : Zod) (is_datetime : Text → Bool) where
  open z use {string, min, regex, default_message, safe_parse_object}

  unfoldable pub session_schema : SessionFields → Option Session
  session_schema v =
      session_of v
        (safe_parse_object (
          (min string 1 default_message, v.csrf_token)
          ∷ (min string 1 default_message, v.server_id)
          ∷ []))
        (safe_parse_object (
          (min string 1 default_message, v.id)
          ∷ (regex string username_pattern default_message, v.username)
          ∷ []))
        (role_schema v.role) (is_datetime v.created_at && is_datetime v.expires_at)

  -- `sessionSchema.safeParse`
  unfoldable pub parse_session :
      {Json : Type 0} → (Json → Option SessionFields) → Option Json → Option Session
  unfolding session_schema
  parse_session object none = none
  parse_session object (some v) = elim (object v) [
    | none ↦ none
    | some fields ↦ session_schema fields
  ]
