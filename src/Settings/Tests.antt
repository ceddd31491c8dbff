-- ===== src/Settings/Tests.antt =====
-- Settings at concrete arguments.
use blockops.Prelude.{ℕ, ◌≡◌, refl, true, false, some, List, [], ◌∷◌, All}
use blockops.Js.Text.{codes}
use blockops.Zod.Direct.{direct}
use blockops.Query.{Mutation}
use blockops.Query.Simple.{simple}
use blockops.Settings.Schema.{is_host_port}
use blockops.Settings.Integration
use blockops.Settings.Integration.{
  RconCredentials, IntegrationEvent, password_typed, submitted, initial_integration,
}
use blockops.Settings.Integration.Laws.{IsRcon, run-sent}
use blockops.Auth.Permissions.{operator}
use blockops.Auth.Session.Schema.{User}
use blockops.Settings.Users.{
  disable, revoke, UserIntent, UserChange, UsersEvent, clicked, confirmed, disable_accepted, Page,
  initial_settings, run,
}
use blockops.Settings.Users.Invariant.{IsGuarded, run-IsGuarded}

passes : is_host_port (codes "mc:25575") ≡ true
unfolding is_host_port
passes = refl

-- An IPv6 address needs brackets.
needs_brackets : is_host_port (codes "::1:25575") ≡ false
unfolding is_host_port
needs_brackets = refl

abbrev mutation : Mutation UserChange ℕ
mutation = simple UserChange ℕ

abbrev ada : User
ada = record {
  id = codes "ada";
  username = codes "ada";
  role = operator;
  disabled = false;
  created_at = [];
}

abbrev bob : User
bob = record {
  id = codes "bob";
  username = codes "bob";
  role = operator;
  disabled = false;
  created_at = [];
}

abbrev events : List (UsersEvent ℕ)
events = clicked disable ada ∷ confirmed ∷ clicked disable bob ∷ confirmed ∷ disable_accepted ∷ []

run-IsGuarded_example :
    IsGuarded mutation (codes "ada") (run mutation (codes "ada") events (initial_settings mutation))
run-IsGuarded_example = run-IsGuarded mutation (codes "ada") events

abbrev change : UserChange
change = record { user_id = codes "bob"; surface_id = 1 }

abbrev second : UserIntent
second = record { type_ = revoke; user = bob; surface_id = 2 }

abbrev two_dialogs : Page mutation
two_dialogs = record (initial_settings mutation) {
  intent = some second;
  next_surface_id = 2;
  disabling = mutation.mutate change mutation.initial;
}

abbrev rcon : Mutation RconCredentials ℕ
rcon = simple RconCredentials ℕ

abbrev rcon_events : List (IntegrationEvent ℕ)
rcon_events =
    password_typed (codes "short")
    ∷ submitted (codes "mc:25575")
    ∷ password_typed (codes "long enough")
    ∷ submitted (codes "mc:25575")
    ∷ []

run-sent_example :
    All IsRcon (Integration.run direct rcon true rcon_events (initial_integration rcon)).sent
run-sent_example = run-sent direct rcon true rcon_events
