-- ===== src/Settings/View/Laws.antt =====
-- The controls of the rendered settings page.
use blockops.Prelude.{
  ℕ, ◌≡◌, refl, ap, ◌∙◌, ◌==◌, Bool, false, not, ◌&&◌, ◌||◌, Option, none, some, List, [], ◌∷◌,
  ◌++◌, map, is_some, if◌then◌else◌,
}
use blockops.Js.Text.{Text, same_text}
use blockops.Query.{QueryResult, is_loading, is_pending, Mutation}
use blockops.Api.Error.{Caught}
use blockops.Auth.Session.Schema.{User}
use blockops.Ui.{
  View, clicks, in_dialogs, click_if, views, field, text_if, words, region, alert, plain, notice,
  page_header, empty_state,
}
use blockops.Ui.Laws.{elements, both_tests, confirm_dialog-clicks}
use blockops.Settings.Users.{
  UserSettings, UserIntent, IntentType, disable, revoke, UserChange, matches_surface, offers, busy,
}
use blockops.Settings.NewUser.{CreateUserRequest, NewUser}
use blockops.Settings.Integration.{RconCredentials, Integration}
use blockops.Settings.View.Dialogs.{in_dialogs-loaded_view}
use blockops.Settings.View.{
  Click, ask, close, confirm, create, update, RconStatus, Deployment, SettingsData,
  deployment_settings, integration_form, integration_settings, user_row, user_rows, create_form,
  intent_dialog, user_settings, loaded_view, settings_page,
}

clicks-hint :
    (b : Bool) (o : Option Text)
    → clicks {E = Click} (text_if (λ t. region (if b then alert else plain) (words t)) o) ≡ []
clicks-hint b none = simp elements
clicks-hint b (some []) = simp elements
clicks-hint b (some (c ∷ s)) = simp elements

clicks-field :
    (label : Text) (hint : Option Text) (b : Bool) (v : View Click)
    → clicks (field label hint b v) ≡ clicks v
unfolding field
clicks-field label hint b v = simp (elements, clicks-hint)

clicks-deployment_settings : (d : Deployment) → clicks (deployment_settings d) ≡ []
unfolding deployment_settings
clicks-deployment_settings d = simp elements

clicks-integration_settings :
    (m : Mutation RconCredentials Caught) (f : Integration m.State) (s : RconStatus)
    → clicks (integration_settings m f s)
      ≡ click_if (s.credential_updates_enabled && not (is_pending (m.status f.update))) update
unfolding integration_settings integration_form notice
clicks-integration_settings m f s = simp (elements, clicks-field, both_tests)

-- What the rows of the users offer.
abbrev pub row_clicks : Text → List User → List Click
row_clicks own [] = []
row_clicks own (u ∷ us) =
    ask revoke u
    ∷ (click_if (not (same_text u.id own) && not u.disabled) (ask disable u) ++ row_clicks own us)

-- The call of the open dialog itself is under way: the mutation of its type is pending with its number.
abbrev pub is_own_call : Option UserChange → ℕ → Bool
is_own_call none surface = false
is_own_call (some c) surface = c.surface_id == surface

abbrev pub state_of : {S : Type 0} → UserSettings S → IntentType → S
state_of p disable = p.disabling
state_of p revoke = p.revoking

abbrev pub under_way : (mu : Mutation UserChange Caught) → UserSettings mu.State → UserIntent → Bool
under_way mu p i =
    let s = state_of p i.type_ in
    is_own_call (mu.variables s) i.surface_id && is_pending (mu.status s)

-- What the dialog offers, if one is open.
abbrev pub dialog_clicks :
    (mu : Mutation UserChange Caught) → UserSettings mu.State → Option UserIntent → List Click
dialog_clicks mu p none = []
dialog_clicks mu p (some i) =
    close ∷ close ∷ (if under_way mu p i then [] else close ∷ confirm ∷ [])

own_call :
    (o : Option UserChange) (i : UserIntent)
    → matches_surface o (some i) ≡ is_own_call o i.surface_id
own_call none i = refl
own_call (some c) i = refl

changing : {S : Type 0} → UserSettings S → IntentType → S
changing p t = elim t [ disable ↦ p.disabling | revoke ↦ p.revoking ]

changing-state_of : {S : Type 0} (p : UserSettings S) (t : IntentType) → changing p t ≡ state_of p t
unfolding changing
changing-state_of p disable = refl
changing-state_of p revoke = refl

busy-some :
    (mu : Mutation UserChange Caught) (p : UserSettings mu.State) (i : UserIntent)
    → p.intent ≡ some i
    → busy mu p ≡ under_way mu p i
unfolding busy changing
busy-some mu p i e =
    let opened =
      ap
        (λ o.
          matches_surface
            (mu.variables (elim o [ none ↦ p.revoking | some i ↦ changing p i.type_ ])) o
          && is_pending (mu.status (elim o [ none ↦ p.revoking | some i ↦ changing p i.type_ ])))
        e in
    opened
    ∙ ap (λ s. matches_surface (mu.variables s) (some i) && is_pending (mu.status s))
        (changing-state_of p i.type_)
    ∙ ap (λ b. b && is_pending (mu.status (state_of p i.type_)))
        (own_call (mu.variables (state_of p i.type_)) i)

busy-under_way :
    (mu : Mutation UserChange Caught) (p : UserSettings mu.State) (o : Option UserIntent)
    → p.intent ≡ o
    → (if is_some o then close ∷ close ∷ (if busy mu p then [] else close ∷ confirm ∷ []) else [])
      ≡ dialog_clicks mu p o
busy-under_way mu p none e = refl
busy-under_way mu p (some i) e =
    ap (λ b. close ∷ close ∷ (if b then [] else close ∷ confirm ∷ [])) (busy-some mu p i e)

module _ (format : Text → Option Text) (own : Text) where
  clicks-user_row :
      (u : User)
      → clicks (user_row format own u)
        ≡ ask revoke u ∷ click_if (not (same_text u.id own) && not u.disabled) (ask disable u)
  unfolding user_row offers
  clicks-user_row u = simp elements

  clicks-rows : (us : List User) → clicks (views (map (user_row format own) us)) ≡ row_clicks own us
  clicks-rows [] = simp elements
  clicks-rows (u ∷ us) = simp (elements, clicks-user_row, clicks-rows us)

  clicks-user_rows : (us : List User) → clicks (user_rows format own us) ≡ row_clicks own us
  unfolding user_rows empty_state
  clicks-user_rows [] = simp elements
  clicks-user_rows (u ∷ us) = clicks-rows (u ∷ us)

  module _ (mu : Mutation UserChange Caught) (mc : Mutation CreateUserRequest Caught) where
    clicks-create_form :
        (f : NewUser mc.State)
        → clicks (create_form format own mu mc f)
          ≡ click_if (not (is_pending (mc.status f.create))) create
    unfolding create_form
    clicks-create_form f = simp (elements, clicks-field)

    clicks-intent_dialog :
        (p : UserSettings mu.State)
        → clicks (intent_dialog format own mu mc p) ≡ dialog_clicks mu p p.intent
    unfolding intent_dialog notice
    clicks-intent_dialog p =
        confirm_dialog-clicks _ (simp elements) ∙ busy-under_way mu p p.intent refl

    clicks-user_settings :
        (f : NewUser mc.State) (p : UserSettings mu.State) (us : List User)
        → clicks (user_settings format own mu mc f p us)
          ≡ click_if (not (is_pending (mc.status f.create))) create
            ++ (row_clicks own us ++ dialog_clicks mu p p.intent)
    unfolding user_settings notice
    clicks-user_settings f p us =
        simp (elements, clicks-create_form, clicks-user_rows, clicks-intent_dialog)

-- Once the settings and the users are there, the page has enabled controls for exactly this: to
-- update the credentials, if updates are enabled and none is under way; to create a user while no
-- creation is under way; to revoke the sessions of every user, and to disable every enabled user but
-- the one who looks at it; and to close an open dialog, and to confirm it unless its own call is
-- under way. The open dialog has those that close or confirm it, and no others.
pub settings_page-clicks :
    (format : Text → Option Text) (own : Text) (mu : Mutation UserChange Caught)
    (mc : Mutation CreateUserRequest Caught) (mr : Mutation RconCredentials Caught)
    (i : Integration mr.State) (f : NewUser mc.State) (p : UserSettings mu.State)
    (settings : QueryResult SettingsData Caught) (users : QueryResult (List User) Caught)
    (s : SettingsData) (us : List User)
    → (is_loading settings || is_loading users) ≡ false
    → settings.error ≡ none
    → users.error ≡ none
    → settings.value ≡ some s
    → users.value ≡ some us
    → let can_update = s.rcon.credential_updates_enabled && not (is_pending (mr.status i.update)) in
      (clicks (settings_page format own mu mc mr i f p settings users)
        ≡ click_if can_update update
          ++ (click_if (not (is_pending (mc.status f.create))) create
              ++ (row_clicks own us ++ dialog_clicks mu p p.intent)))
      × (in_dialogs (settings_page format own mu mc mr i f p settings users)
          ≡ dialog_clicks mu p p.intent)
unfolding settings_page loaded_view page_header
settings_page-clicks format own mu mc mr i f p settings users s us l e d v w =
    rw (l, e, d, v, w)
      (
        simp (
          elements, clicks-integration_settings, clicks-user_settings, clicks-deployment_settings,
        ),
        in_dialogs-loaded_view format own mu mc mr i f p s us
            ∙ clicks-intent_dialog format own mu mc p,
      )
