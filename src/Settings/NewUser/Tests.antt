-- ===== src/Settings/NewUser/Tests.antt =====
-- The form of a new user at concrete arguments.
use blockops.Prelude.{ℕ, ◌≡◌, refl, List, [], ◌∷◌, length, All}
use blockops.Js.Text.{codes, in_range}
use blockops.Zod.Direct.{direct}
use blockops.Query.{Mutation}
use blockops.Query.Simple.{simple}
use blockops.Auth.Permissions.{operator}
use blockops.Js.Utf8.{utf8_length, code_points}
use blockops.Auth.Schemas.{
  Letters, parse_setup, username_schema, username_pattern, strong_password_schema, categories,
}
use blockops.Settings.NewUser.{
  CreateUserRequest, FormEvent, username_typed, password_typed, role_chosen, submitted, created,
  initial_form, handle, run,
}
use blockops.Settings.NewUser.Laws.{IsAdmissible, IsForgetful, run-IsForgetful}

abbrev latin : Letters
latin = record {
  is_lower = in_range b'a' b'z';
  is_upper = in_range b'A' b'Z';
  is_digit = in_range b'0' b'9';
}

abbrev mutation : Mutation CreateUserRequest ℕ
mutation = simple CreateUserRequest ℕ

-- A second attempt while the first is under way is not sent.
abbrev creation : List (FormEvent ℕ)
creation =
    username_typed (codes "ada")
    ∷ password_typed (codes "Correct-horse-9")
    ∷ role_chosen operator
    ∷ submitted
    ∷ submitted
    ∷ created
    ∷ []

run-IsForgetful_example :
    IsForgetful direct latin mutation (run direct latin mutation creation (initial_form mutation))
    × All (IsAdmissible latin) (run direct latin mutation creation (initial_form mutation)).sent
run-IsForgetful_example = run-IsForgetful direct latin mutation creation

one_is_sent : length (run direct latin mutation creation (initial_form mutation)).sent ≡ 1
unfolding handle parse_setup username_schema username_pattern strong_password_schema utf8_length
    categories code_points
one_is_sent = refl
