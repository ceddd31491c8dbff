-- ===== src/Players/View/Tests.antt =====
-- The players page of an operator, rendered.
use blockops.Prelude.{
  ◌≡◌, refl, true, false, none, some, List, [], ◌∷◌, ◌++◌, is_some, if◌then◌else◌,
}
use blockops.Js.Text.{Text, codes}
use blockops.Query.{QueryResult, is_pending, Mutation}
use blockops.Query.Simple.{simple}
use blockops.Api.Error.{Caught}
use blockops.Auth.Permissions.{operator, players_manage, has_permission}
use blockops.Ui.{clicks, in_dialogs, click_if}
use blockops.Players.Schema.{PlayerActionRequest, Player}
use blockops.Players.Page.{PlayersPage, initial_page}
use blockops.Players.View.{Click, add, players_page}
use blockops.Players.View.Laws.{rows_asks, found, dialog_clicks, players_page-clicks}

abbrev actions : Mutation PlayerActionRequest Caught
actions = simple PlayerActionRequest Caught

abbrev known : List Player
known =
    record {
      name = codes "Alex";
      uuid = none;
      online = true;
      allowlisted = false;
      banned = false;
      operator = true;
    }
    ∷ []

abbrev answered : QueryResult (List Player) Caught
answered = record { value = some known; error = none; fetching = false }

abbrev as_is : Text → Text
as_is t = t

abbrev page : PlayersPage actions.State
page = initial_page actions

players_page-clicks_example :
    let shown : List Click =
      if is_some page.pending then dialog_clicks (is_pending page.action.status) else [] in
    (clicks (players_page as_is actions operator page answered)
      ≡ click_if (has_permission operator players_manage) add
        ++ (rows_asks (has_permission operator players_manage) (found as_is page.search known)
            ++ shown))
    × (in_dialogs (players_page as_is actions operator page answered) ≡ shown)
players_page-clicks_example =
    players_page-clicks as_is actions operator page answered known refl refl
