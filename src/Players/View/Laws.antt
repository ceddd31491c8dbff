-- ===== src/Players/View/Laws.antt =====
-- Which actions the rendered players page offers.
use blockops.Prelude.{
  ◌≡◌, refl, ◌∙◌, ap, ap₂, ◌&&◌, select, Bool-cases, arith, Bool, true, false, Option, none, some,
  List, [], ◌∷◌, ◌++◌, map, is_some, if◌then◌else◌,
}
use blockops.Js.Text.{Text, includes}
use blockops.Query.{QueryResult, is_pending, Mutation}
use blockops.Api.Error.{Caught}
use blockops.Auth.Permissions.{Role, players_manage, has_permission}
use blockops.Ui.{
  words, input, views, clicks, in_dialogs, click_if, notice, page_header, field, empty_state,
}
use blockops.Ui.Laws.{elements, clicks-modal}
use blockops.Players.Schema.{
  PlayerActionRequest, Player, PlayerAction, allowlist_add, allowlist_remove, kick, ban, pardon, op,
  deop,
}
use blockops.Players.Row.{RowAction, row_actions, would_change, filter_players}
use blockops.Players.Page.{PendingAction, DialogState, PlayersPage, busy}
use blockops.Players.View.Dialogs.{in_dialogs-loaded_view}
use blockops.Players.View.{
  Click, request, add, close, submit, action_button, player_row, allowlist_form, error_notice,
  action_dialog, dialog_of, player_table, can_manage, loaded_view, players_page,
}

-- The requests of a player's row, by the actions that the row offers.
abbrev pub requests : Text → List RowAction → List Click
requests name [] = []
requests name (a ∷ actions) =
    request (record { action = a.action; name = name }) ∷ requests name actions

abbrev pub rows_requests : Bool → List Player → List Click
rows_requests can_manage_ [] = []
rows_requests can_manage_ (player ∷ players) =
    requests player.name (row_actions can_manage_ player) ++ rows_requests can_manage_ players

clicks-all_words : (ts : List Text) → clicks {E = Click} (views (map words ts)) ≡ []
clicks-all_words [] = simp elements
clicks-all_words (t ∷ ts) = simp (elements, clicks-all_words ts)

clicks-actions :
    (name : Text) (actions : List RowAction)
    → clicks (views (map (action_button name) actions)) ≡ requests name actions
unfolding action_button
clicks-actions name [] = simp elements
clicks-actions name (a ∷ actions) = simp (elements, clicks-actions name actions)

clicks-player_row :
    (b : Bool) (player : Player)
    → clicks (player_row b player) ≡ requests player.name (row_actions b player)
unfolding player_row
clicks-player_row b player = simp (elements, clicks-all_words, clicks-actions)

clicks-rows :
    (b : Bool) (players : List Player)
    → clicks (views (map (player_row b) players)) ≡ rows_requests b players
clicks-rows b [] = simp elements
clicks-rows b (player ∷ players) = simp (elements, clicks-player_row, clicks-rows b players)

clicks-player_table :
    (b : Bool) (search : Text) (players : List Player)
    → clicks (player_table b search players) ≡ rows_requests b players
unfolding player_table empty_state
clicks-player_table b search [] = simp elements
clicks-player_table b search (player ∷ players) = clicks-rows b (player ∷ players)

-- ui
clicks-field :
    (label : Text) (hint : Option Text) (b : Bool) (value : Text)
    → clicks {E = Click} (field label hint b (input value)) ≡ []
unfolding field clicks
clicks-field label none b value = refl
clicks-field label (some []) b value = refl
clicks-field label (some (c ∷ s)) b value = refl

clicks-allowlist_form :
    (draft : Text) (error : Option Text) → clicks (allowlist_form draft error) ≡ add ∷ []
unfolding allowlist_form
clicks-allowlist_form draft error = simp (elements, clicks-field)

clicks-error_notice : (o : Option Caught) → clicks (error_notice o) ≡ []
unfolding notice
clicks-error_notice none = simp elements
clicks-error_notice (some e) = simp elements

-- The controls of the open dialog.
abbrev pub dialog_clicks : Bool → List Click
dialog_clicks is_busy = close ∷ close ∷ (if is_busy then [] else close ∷ submit ∷ [])

clicks-dialog_of :
    (o : Option PendingAction) (state : DialogState) (is_busy : Bool) (error : Option Caught)
    → clicks (dialog_of o state is_busy error) ≡ (if is_some o then dialog_clicks is_busy else [])
unfolding dialog_of action_dialog
clicks-dialog_of none state is_busy error = simp elements
clicks-dialog_of (some a) state true error =
    simp (elements, clicks-modal, clicks-field, clicks-error_notice)
clicks-dialog_of (some a) state false error =
    simp (elements, clicks-modal, clicks-field, clicks-error_notice)

clicks-loaded_view :
    (to_lower : Text → Text) (m : Mutation PlayerActionRequest Caught) (role : Role)
    (p : PlayersPage m.State) (players : List Player)
    → clicks (loaded_view to_lower m role p players)
      ≡ click_if (can_manage to_lower m role p) add
        ++ (rows_requests (can_manage to_lower m role p) (filter_players to_lower p.search players)
            ++ (if is_some p.pending then dialog_clicks (busy m p) else []))
unfolding loaded_view page_header
clicks-loaded_view to_lower m role p players =
    simp (elements, clicks-allowlist_form, clicks-player_table, clicks-dialog_of)

-- The seven actions in the order of a row's buttons, and those of them that would change something
-- about a player, for a user who may manage players.
abbrev pub every_action : List PlayerAction
every_action = allowlist_remove ∷ allowlist_add ∷ deop ∷ op ∷ pardon ∷ ban ∷ kick ∷ []

abbrev pub changes : Bool → Player → List PlayerAction
changes manages player = select (λ a. manages && would_change player a) every_action

abbrev pub asks : Text → List PlayerAction → List Click
asks name [] = []
asks name (a ∷ actions) = request (record { action = a; name = name }) ∷ asks name actions

abbrev pub rows_asks : Bool → List Player → List Click
rows_asks manages [] = []
rows_asks manages (player ∷ players) =
    asks player.name (changes manages player) ++ rows_asks manages players

requests-changes :
    (b : Bool) (player : Player)
    → requests player.name (row_actions b player) ≡ asks player.name (changes b player)
unfolding row_actions
requests-changes false player = refl
requests-changes true player = ground (
  arith,
  Bool-cases player.allowlisted,
  Bool-cases player.operator,
  Bool-cases player.banned,
  Bool-cases player.online,
)

rows_requests-changes :
    (b : Bool) (players : List Player) → rows_requests b players ≡ rows_asks b players
rows_requests-changes b [] = refl
rows_requests-changes b (player ∷ players) =
    ap₂ (λ l r. l ++ r) (requests-changes b player) (rows_requests-changes b players)

-- The players whose name has the search in it, in any case.
abbrev pub found : (Text → Text) → Text → List Player → List Player
found to_lower search players =
    select (λ (player : Player). includes (to_lower search) (to_lower player.name)) players

filter_players-found :
    (to_lower : Text → Text) (search : Text) (players : List Player)
    → filter_players to_lower search players ≡ found to_lower search players
unfolding filter_players
filter_players-found to_lower search players = refl

-- While the players are loaded, the page has enabled controls for exactly this: to add a name, if the
-- role may manage players; for each player whose name has the search in it, the actions that would
-- change something about it, none of them if the role may not manage players; and, while a dialog
-- is open, to close it, and to submit it unless a call is under way. The open dialog has those, and
-- no others.
pub players_page-clicks :
    (to_lower : Text → Text) (m : Mutation PlayerActionRequest Caught) (role : Role)
    (p : PlayersPage m.State) (q : QueryResult (List Player) Caught) (players : List Player)
    → q.error ≡ none
    → q.value ≡ some players
    → let shown : List Click =
        if is_some p.pending then dialog_clicks (is_pending (m.status p.action)) else [] in
      (clicks (players_page to_lower m role p q)
        ≡ click_if (has_permission role players_manage) add
          ++ (rows_asks (has_permission role players_manage) (found to_lower p.search players)
              ++ shown))
      × (in_dialogs (players_page to_lower m role p q) ≡ shown)
unfolding players_page
players_page-clicks to_lower m role p q players e v =
    let manages = has_permission role players_manage in
    let listed = clicks-loaded_view to_lower m role p players in
    let asked =
      rows_requests-changes manages (filter_players to_lower p.search players)
      ∙ ap (rows_asks manages) (filter_players-found to_lower p.search players) in
    let open_ = if is_some p.pending then dialog_clicks (is_pending (m.status p.action)) else [] in
    rw (e, v)
      (
        listed ∙ ap (λ l. click_if manages add ++ (l ++ open_)) asked,
        in_dialogs-loaded_view to_lower m role p players
            ∙ clicks-dialog_of p.pending p.dialog (busy m p) (m.error p.action),
      )
