-- ===== src/Players/Page/Invariant.antt =====
-- What holds of the players page after any events.
use blockops.Prelude.{
  ◌+◌, ◌≡◌, ◌≢◌, refl, Bool, true, false, Option, none, some, [], is_some, All, if◌then◌else◌, inl,
  inr, arith,
}
use blockops.Zod.{Zod}
use blockops.Query.{failed, idle, pending, pending-cases, Mutation}
use blockops.Players.Schema.{
  PlayerActionRequest, PendingPlayerAction, valid, invalid, RequestVerdict, parse_request,
  player_action_copy, Player, PlayerAction,
}
use blockops.Players.Schema.Laws.{IsRequest, parse_request-IsRequest}
use blockops.Players.Row.{offers, row_actions}
use blockops.Players.Page.{
  PendingAction, PlayersPage, initial_page, from_form, close_dialog, request_from_row, confirm,
  resolved, rejected, submit_form, submit_verdict, submit_pending, submit_dialog, Step, type_search,
  type_draft, type_reason, click_row, submit_allowlist, submit_request, close, succeed, fail, Reach,
  here, next,
}

module _ {E : Type 0} (m : Mutation PlayerActionRequest E) (can_manage : Bool) where
  pub record IsConsistent (p : PlayersPage m.State) : Type 0 where
    pub closed_idle : p.pending ≡ none → m.status p.action ≡ idle
    pub closed_error : p.pending ≡ none → m.error p.action ≡ none
    pub busy_captured : m.status p.action ≡ pending → p.captured ≡ p.pending
    pub viewer_closed : can_manage ≡ false → p.pending ≡ none
    pub viewer_silent : can_manage ≡ false → p.sent ≡ []
    pub sent_valid : All IsRequest p.sent

  initial_page-IsConsistent : IsConsistent (initial_page m)
  initial_page-IsConsistent = ground (arith, m.initial_status, m.initial_error)

  close_dialog-IsConsistent :
      (p : PlayersPage m.State) → IsConsistent p → IsConsistent (close_dialog m p)
  unfolding close_dialog
  close_dialog-IsConsistent p h = ground (arith, m.reset_status p.action, m.reset_error p.action)

  resolved_followed :
      (p : PlayersPage m.State)
      → IsConsistent p
      → m.status p.action ≡ pending
      → IsConsistent (resolved m p)
  unfolding resolved
  resolved_followed p h s =
      ground (arith, m.reset_status (m.resolve p.action), m.reset_error (m.resolve p.action))

  resolved_late :
      (p : PlayersPage m.State)
      → IsConsistent p
      → m.status p.action ≢ pending
      → IsConsistent (resolved m p)
  unfolding resolved
  resolved_late p h s = ground (arith, m.resolve_detached p.action s)

  rejected-IsConsistent :
      (e : E) (p : PlayersPage m.State) → IsConsistent p → IsConsistent (rejected m e p)
  unfolding rejected
  rejected-IsConsistent e p h = elim (pending-cases (m.status p.action)) [
    | inl s ↦ ground (arith, m.reject_status e p.action s, m.reject_error e p.action s)
    | inr s ↦ ground (arith, m.reject_detached e p.action s)
  ]

  resolved-IsConsistent : (p : PlayersPage m.State) → IsConsistent p → IsConsistent (resolved m p)
  resolved-IsConsistent p h = elim (pending-cases (m.status p.action)) [
    | inl s ↦ resolved_followed p h s
    | inr s ↦ resolved_late p h s
  ]

  request_from_row-IsConsistent :
      (wanted : PendingPlayerAction) (p : PlayersPage m.State)
      → can_manage ≡ true
      → p.pending ≡ none
      → IsConsistent p
      → IsConsistent (request_from_row m wanted p)
  unfolding request_from_row
  request_from_row-IsConsistent wanted p c n h = ground arith

module _ {E : Type 0} (z : Zod) (m : Mutation PlayerActionRequest E) (can_manage : Bool) where
  submit_form-IsConsistent :
      (p : PlayersPage m.State)
      → can_manage ≡ true
      → p.pending ≡ none
      → IsConsistent m can_manage p
      → IsConsistent m can_manage (submit_form z m p)
  unfolding submit_form
  submit_form-IsConsistent p c n h = ground arith

  submit_verdict-IsConsistent :
      (v : RequestVerdict) (p : PlayersPage m.State)
      → can_manage ≡ true
      → is_some p.pending ≡ true
      → ((q : PlayerActionRequest) → v ≡ valid q → IsRequest q)
      → IsConsistent m can_manage p
      → IsConsistent m can_manage (submit_verdict z m v p)
  unfolding submit_verdict confirm
  submit_verdict-IsConsistent (invalid none) p c o ok h = ground arith
  submit_verdict-IsConsistent (invalid (some t)) p c o ok h = ground arith
  submit_verdict-IsConsistent (valid q) p c o ok h =
      ground (arith, ok q refl, m.mutate_status q p.action, m.mutate_error q p.action)

  submit_pending-IsConsistent :
      (o : Option PendingAction) (p : PlayersPage m.State)
      → can_manage ≡ true
      → is_some p.pending ≡ true
      → IsConsistent m can_manage p
      → IsConsistent m can_manage (submit_pending z m o p)
  unfolding submit_pending
  submit_pending-IsConsistent none p c i h = h
  submit_pending-IsConsistent (some x) p c i h =
      submit_verdict-IsConsistent
        (parse_request z (record {
          action = x.action;
          name = x.name;
          reason = if (player_action_copy x.action).needs_reason then p.dialog.reason else [];
        }))
        p c i (λ q e. (parse_request-IsRequest z _ q e).0) h

  submit_dialog-IsConsistent :
      (p : PlayersPage m.State)
      → can_manage ≡ true
      → is_some p.pending ≡ true
      → IsConsistent m can_manage p
      → IsConsistent m can_manage (submit_dialog z m p)
  unfolding submit_dialog
  submit_dialog-IsConsistent p c o h = submit_pending-IsConsistent p.pending p c o h

  may_manage :
      (p : PlayersPage m.State)
      → IsConsistent m can_manage p
      → is_some p.pending ≡ true
      → can_manage ≡ true
  may_manage p h o = ground arith

  offered :
      (player : Player) (a : PlayerAction) → offers can_manage player a ≡ true → can_manage ≡ true
  unfolding row_actions
  offered player a h = ground arith

Step-IsConsistent :
    {E : Type 0} (z : Zod) (m : Mutation PlayerActionRequest E) (can_manage : Bool)
    {p q : PlayersPage m.State}
    → Step z m can_manage p q
    → IsConsistent m can_manage p
    → IsConsistent m can_manage q
Step-IsConsistent z m c {p} (type_search t) h = ground arith
Step-IsConsistent z m c {p} (type_draft t g n) h = ground arith
Step-IsConsistent z m c {p} (type_reason t) h = ground arith
Step-IsConsistent z m c {p} (click_row player a o n) h =
    request_from_row-IsConsistent m c _ p (offered z m c player a o) n h
Step-IsConsistent z m c {p} (submit_allowlist g n) h = submit_form-IsConsistent z m c p g n h
Step-IsConsistent z m c {p} (submit_request o b) h =
    submit_dialog-IsConsistent z m c p (may_manage z m c p h o) o h
Step-IsConsistent z m c {p} (close o) h = close_dialog-IsConsistent m c p h
Step-IsConsistent z m c {p} succeed h = resolved-IsConsistent m c p h
Step-IsConsistent z m c {p} (fail e) h = rejected-IsConsistent m c e p h

-- After any events: while no dialog is open the mutation is idle and has no error, so a failure
-- for one player never shows in the dialog of another; the callback of a call in flight belongs to
-- the open dialog; a user without `players.manage` opens no dialog and sends nothing; and every
-- request that was sent is one that the server expects.
pub Reach-IsConsistent :
    {E : Type 0} (z : Zod) (m : Mutation PlayerActionRequest E) (can_manage : Bool)
    {p : PlayersPage m.State}
    → Reach z m can_manage p
    → IsConsistent m can_manage p
Reach-IsConsistent z m c here = initial_page-IsConsistent m c
Reach-IsConsistent z m c (next r st) = Step-IsConsistent z m c st (Reach-IsConsistent z m c r)

-- When a request succeeds while its call is under way, the dialog closes, the mutation is reset, every
-- query is invalidated once, the allowlist draft is cleared exactly if the allowlist form started the
-- action, and nothing else changes; when it fails, the mutation has the error and has failed, and
-- nothing else changes: the dialog stays open with what was typed.
pub resolved-draft :
    {E : Type 0} (m : Mutation PlayerActionRequest E) (can_manage : Bool) (p : PlayersPage m.State)
    (e : E)
    → IsConsistent m can_manage p
    → m.status p.action ≡ pending
    → (resolved m p ≡ record p {
      pending = none;
      action = (resolved m p).action;
      invalidations = p.invalidations + 1;
      allowlist_draft = if from_form p.pending then [] else p.allowlist_draft;
    })
      × (m.status (resolved m p).action ≡ idle)
      × (rejected m e p ≡ record p { action = (rejected m e p).action })
      × (m.error (rejected m e p).action ≡ some e)
      × (m.status (rejected m e p).action ≡ failed)
unfolding resolved rejected
resolved-draft m c p e h s = ground (
  arith,
  m.reset_status (m.resolve p.action),
  m.reject_error e p.action s,
  m.reject_status e p.action s,
)
