-- ===== src/Worlds/Tests.antt =====
-- The worlds page at concrete events.
use blockops.Prelude.{ℕ, ◌≡◌, refl, some, List, [], ◌∷◌}
use blockops.Js.Text.{Text, codes}
use blockops.Zod.Direct.{direct_refine}
use blockops.Query.{Mutation}
use blockops.Query.Simple.{simple}
use blockops.Auth.Permissions.{administrator, has_permission}
use blockops.Worlds.{
  File, WorldsEvent, selected, opened, confirmed, initial_page, handle, run, world_file_schema,
}
use blockops.Worlds.Invariant.{IsChecked, run-IsChecked}

abbrev mutation : Mutation File ℕ
mutation = simple File ℕ

abbrev world : File
world = record { size = 10; name = codes "world.zip"; type_ = [] }

abbrev text_file : File
text_file = record { size = 10; name = codes "world.txt"; type_ = codes "text/plain" }

abbrev itself : Text → Text
itself t = t

abbrev events : List (WorldsEvent ℕ)
events =
    selected (some text_file) ∷ opened ∷ confirmed ∷ selected (some world) ∷ opened ∷ confirmed ∷ []

uploads :
    (run (direct_refine File) itself mutation administrator events (initial_page mutation)).sent
    ≡ world ∷ []
unfolding handle has_permission world_file_schema
uploads = refl

run-IsChecked_example :
    IsChecked
      (direct_refine File)
      itself
      mutation
      administrator
      (run (direct_refine File) itself mutation administrator events (initial_page mutation))
run-IsChecked_example = run-IsChecked (direct_refine File) itself mutation administrator events
