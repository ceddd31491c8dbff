-- ===== src/Players/Page.antt =====
-- players-page.tsx, components/player-action-dialog.tsx and components/allowlist-form.tsx: the
-- state of the page, its handlers, and what the environment may do.
--
-- `captured` is the value of `pending` in the closure of the last `mutate` call's `onSuccess`.
pub mod Invariant
pub mod Tests
use blockops.Prelude.{
  ℕ, ◌+◌, ◌≡◌, Bool, true, false, Option, none, some, List, [], ◌∷◌, is_some, if◌then◌else◌,
}
use blockops.Js.Text.{Text, codes}
use blockops.Zod.{accept, reject, verdict, Verdict, Zod}
use blockops.Query.{Status, is_pending, Mutation}
use blockops.Players.Schema.{
  PlayerAction, allowlist_add, PlayerActionRequest, PendingPlayerAction, Player, valid, invalid,
  player_name_schema, parse_request, player_action_copy, RequestVerdict,
}
use blockops.Players.Row.{offers}

pub data Origin : Type 0 where
  player_row allowlist_form : Origin

pub record PendingAction : Type 0 where
  pub action : PlayerAction
  pub name : Text
  pub origin : Origin

-- The state of the mounted dialog.
pub record DialogState : Type 0 where
  pub reason : Text
  pub reason_error : Option Text

abbrev pub fresh_dialog : DialogState
fresh_dialog = record { reason = []; reason_error = none }

abbrev pub from_form : Option PendingAction → Bool
from_form none = false
from_form (some p) = elim p.origin [ allowlist_form ↦ true | player_row ↦ false ]

pub record PlayersPage (S : Type 0) : Type 0 where
  pub search : Text
  pub allowlist_draft : Text
  pub form_error : Option Text
  pub pending : Option PendingAction
  pub dialog : DialogState
  pub action : S
  pub captured : Option PendingAction
  pub sent : List PlayerActionRequest  -- the newest first
  pub invalidations : ℕ

module _ {E : Type 0} (m : Mutation PlayerActionRequest E) where
  abbrev pub initial_page : PlayersPage m.State
  initial_page = record {
    search = [];
    allowlist_draft = [];
    form_error = none;
    pending = none;
    dialog = fresh_dialog;
    action = m.initial;
    captured = none;
    sent = [];
    invalidations = 0;
  }

  unfoldable pub close_dialog : PlayersPage m.State → PlayersPage m.State
  close_dialog p = record p { pending = none; action = m.reset p.action }

  -- Opening mounts a new dialog.
  unfoldable pub request_from_row : PendingPlayerAction → PlayersPage m.State → PlayersPage m.State
  request_from_row next p = record p {
    pending = some (record { action = next.action; name = next.name; origin = player_row });
    dialog = fresh_dialog;
  }

  unfoldable pub confirm : PlayerActionRequest → PlayersPage m.State → PlayersPage m.State
  confirm request p = record p {
    action = m.mutate request p.action;
    captured = p.pending;
    sent = request ∷ p.sent;
  }

  -- the callback that `confirm` passes to `mutate`
  unfoldable pub on_success : PlayersPage m.State → PlayersPage m.State
  unfolding close_dialog
  on_success p =
      let closed = close_dialog p in
      if from_form p.captured then record closed { allowlist_draft = [] } else closed

  -- The server has accepted the request: the hook invalidates every query; the callback runs only
  -- while the observer still follows the call.
  unfoldable pub resolved : PlayersPage m.State → PlayersPage m.State
  unfolding on_success
  resolved p =
      let settled = record p { action = m.resolve p.action; invalidations = p.invalidations + 1 } in
      if is_pending (m.status p.action) then on_success settled else settled

  unfoldable pub rejected : E → PlayersPage m.State → PlayersPage m.State
  rejected e p = record p { action = m.reject e p.action }

  -- What the dialog shows: whether it is busy, and the error of the last attempt.
  abbrev pub busy : PlayersPage m.State → Bool
  busy p = is_pending (m.status p.action)

  abbrev pub shown_error : PlayersPage m.State → Option E
  shown_error p = elim p.pending [ none ↦ none | some _ ↦ m.error p.action ]

module _ {E : Type 0} (z : Zod) (m : Mutation PlayerActionRequest E) where
  -- `submit` of the allowlist form
  unfoldable pub submit_form : PlayersPage m.State → PlayersPage m.State
  submit_form p = elim (verdict (z.safe_parse (player_name_schema z) p.allowlist_draft)) [
    | reject message ↦ record p { form_error = some message }
    | accept name ↦ record p {
      form_error = none;
      pending = some (record { action = allowlist_add; name = name; origin = allowlist_form });
      dialog = fresh_dialog;
    }
  ]

  -- `submit` of the dialog
  submit_verdict : RequestVerdict → PlayersPage m.State → PlayersPage m.State
  submit_verdict (invalid none) p = record p {
    dialog = record p.dialog { reason_error = some (codes "The player action is invalid.") };
  }
  submit_verdict (invalid (some message)) p = record p {
    dialog = record p.dialog { reason_error = some message };
  }
  submit_verdict (valid request) p =
      confirm m request (record p { dialog = record p.dialog { reason_error = none } })

  unfoldable pub submit_pending : Option PendingAction → PlayersPage m.State → PlayersPage m.State
  unfolding submit_verdict confirm
  submit_pending none p = p
  submit_pending (some pending) p =
      let reason =
        if (player_action_copy pending.action).needs_reason then p.dialog.reason else [] in
      submit_verdict
        (parse_request z (record { action = pending.action; name = pending.name; reason = reason }))
        p

  unfoldable pub submit_dialog : PlayersPage m.State → PlayersPage m.State
  unfolding submit_pending submit_verdict confirm
  submit_dialog p = submit_pending p.pending p

-- What can happen next: the dialog is modal, so the row and the form act only while it is closed;
-- the controls are rendered only for a user who may manage players; a busy dialog does not submit.
pub data Step {E : Type 0} (z : Zod) (m : Mutation PlayerActionRequest E) (can_manage : Bool)
    (p : PlayersPage m.State) : PlayersPage m.State → Type 0 where
  type_search : (t : Text) → Step z m can_manage p (record p { search = t })
  type_draft :
      (t : Text)
      → can_manage ≡ true
      → p.pending ≡ none
      → Step z m can_manage p (record p { allowlist_draft = t })
  type_reason :
      (t : Text) → Step z m can_manage p (record p { dialog = record p.dialog { reason = t } })
  click_row :
      (player : Player) (a : PlayerAction)
      → offers can_manage player a ≡ true
      → p.pending ≡ none
      → Step z m can_manage p (request_from_row m (record { action = a; name = player.name }) p)
  submit_allowlist :
      can_manage ≡ true → p.pending ≡ none → Step z m can_manage p (submit_form z m p)
  submit_request :
      is_some p.pending ≡ true → busy m p ≡ false → Step z m can_manage p (submit_dialog z m p)
  close : is_some p.pending ≡ true → Step z m can_manage p (close_dialog m p)
  succeed : Step z m can_manage p (resolved m p)
  fail : (e : E) → Step z m can_manage p (rejected m e p)

pub data Reach {E : Type 0} (z : Zod) (m : Mutation PlayerActionRequest E) (can_manage : Bool)
    : PlayersPage m.State → Type 0 where
  here : Reach z m can_manage (initial_page m)
  next :
      {p q : PlayersPage m.State}
      → Reach z m can_manage p
      → Step z m can_manage p q
      → Reach z m can_manage q

-- What the dialog renders.
pub record DialogView (E : Type 0) : Type 0 where
  pub title : Text
  pub description : Text
  pub reason_shown : Bool
  pub reason_hint : Option Text
  pub notice : Option E
  pub cancel_disabled : Bool
  pub submit_disabled : Bool
  pub submit_destructive : Bool
  pub submit_label : Text

unfoldable pub dialog_view :
    {E : Type 0} → PendingAction → DialogState → Bool → Option E → DialogView E
dialog_view action state is_busy error =
    let copy = player_action_copy action.action in
    record {
      title = copy.title action.name;
      description = copy.description;
      reason_shown = copy.needs_reason;
      reason_hint = if copy.needs_reason then state.reason_error else none;
      notice = error;
      cancel_disabled = is_busy;
      submit_disabled = is_busy;
      submit_destructive = copy.dangerous;
      submit_label = if is_busy then codes "Working…" else copy.confirm_label;
    }
