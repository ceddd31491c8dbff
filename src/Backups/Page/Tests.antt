-- ===== src/Backups/Page/Tests.antt =====
-- The backups page at concrete events.
use blockops.Prelude.{ℕ, ◌≡◌, refl, List, [], ◌∷◌}
use blockops.Js.Text.{Text, codes}
use blockops.Query.{Mutation}
use blockops.Query.Simple.{simple}
use blockops.Auth.Permissions.{operator, has_permission}
use blockops.Backups.Page.{
  create, delete, restore, PageEvent, clicked, confirmed, closed, created_, delete_failed,
  initial_page, handle, run,
}
use blockops.Backups.Page.Invariant.{IsFocused, run-IsFocused}
use blockops.Backups.Page.Permitted.{IsAllowed, run-IsAllowed}

abbrev creation : Mutation Unit ℕ
creation = simple Unit ℕ

abbrev removal : Mutation Text ℕ
removal = simple Text ℕ

abbrev events : List (PageEvent ℕ)
events =
    clicked (delete (codes "old"))
    ∷ confirmed
    ∷ delete_failed 9
    ∷ closed
    ∷ clicked (restore (codes "old"))
    ∷ confirmed
    ∷ clicked create
    ∷ confirmed
    ∷ created_
    ∷ []

-- An operator deletes and creates, and has no control that restores.
nothing_restored :
    (run creation removal operator events (initial_page creation removal)).restored ≡ []
unfolding handle has_permission
nothing_restored = refl

run-IsFocused_example :
    IsFocused creation removal operator
      (run creation removal operator events (initial_page creation removal))
run-IsFocused_example = run-IsFocused creation removal operator events

run-IsAllowed_example :
    IsAllowed creation removal operator
      (run creation removal operator events (initial_page creation removal))
run-IsAllowed_example = run-IsAllowed creation removal operator events
