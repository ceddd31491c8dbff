-- ===== src/Players/Page/Tests.antt =====
-- The players page at concrete events.
use blockops.Prelude.{ℕ, ◌+◌, ◌≡◌, refl, true, none, some, [], arith}
use blockops.Js.Text.{codes}
use blockops.Zod.Direct.{direct}
use blockops.Query.{failed, idle}
use blockops.Query.Simple.{simple}
use blockops.Players.Schema.{ban, PlayerActionRequest}
use blockops.Players.Page.{
  PlayersPage, player_row, initial_page, resolved, rejected, type_search, Reach, here, next,
}
use blockops.Players.Page.Invariant.{IsConsistent, Reach-IsConsistent, resolved-draft}

abbrev opened : PlayersPage (simple PlayerActionRequest ℕ).State
opened = record (initial_page (simple PlayerActionRequest ℕ)) {
  pending = some (record { action = ban; name = codes "Steve"; origin = player_row });
}

abbrev request : PlayerActionRequest
request = record { action = ban; name = codes "Steve"; reason = codes "grief" }

-- The page while a ban is in flight.
abbrev sending : PlayersPage (simple PlayerActionRequest ℕ).State
sending = record opened {
  action = (simple PlayerActionRequest ℕ).mutate request (simple PlayerActionRequest ℕ).initial;
  captured = opened.pending;
}

sending-IsConsistent : IsConsistent (simple PlayerActionRequest ℕ) true sending
sending-IsConsistent = ground arith

resolved-draft_example :
    (resolved (simple PlayerActionRequest ℕ) sending ≡ record sending {
      pending = none;
      action = (resolved (simple PlayerActionRequest ℕ) sending).action;
      invalidations = 0 + 1;
      allowlist_draft = [];
    })
    × ((resolved (simple PlayerActionRequest ℕ) sending).action.status ≡ idle)
    × (rejected (simple PlayerActionRequest ℕ) 7 sending
        ≡ record sending { action = (rejected (simple PlayerActionRequest ℕ) 7 sending).action })
    × ((rejected (simple PlayerActionRequest ℕ) 7 sending).action.error ≡ some 7)
    × ((rejected (simple PlayerActionRequest ℕ) 7 sending).action.status ≡ failed)
resolved-draft_example =
    resolved-draft (simple PlayerActionRequest ℕ) true sending 7 sending-IsConsistent refl

abbrev searching : PlayersPage (simple PlayerActionRequest ℕ).State
searching = record (initial_page (simple PlayerActionRequest ℕ)) { search = codes "st" }

searched : Reach direct (simple PlayerActionRequest ℕ) true searching
searched = next here (type_search (codes "st"))

Reach-IsConsistent_example : IsConsistent (simple PlayerActionRequest ℕ) true searching
Reach-IsConsistent_example = Reach-IsConsistent direct (simple PlayerActionRequest ℕ) true searched
