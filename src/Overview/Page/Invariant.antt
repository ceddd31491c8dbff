-- ===== src/Overview/Page/Invariant.antt =====
-- What the overview page sends and shows after any events.
use blockops.Prelude.{◌<◌, ◌≡◌, refl, true, false, Option, none, some, List, [], ◌∷◌, All, arith}
use blockops.Query.{idle, pending, Mutation}
use blockops.Auth.Permissions.{
  Role, administrator, operator, viewer, Permission, backups_create, server_start, server_stop,
  server_restart, has_permission,
}
use blockops.Overview.Page.{
  ServerAction, start, stop, restart, OverviewAction, backup, server, ServerState, can_backup,
  can_run_server_action, can_run, offers, Page, initial_page, request_action, close_confirmation,
  confirm_pending, confirm_action, backup_resolved, server_resolved, backup_rejected,
  server_rejected, mutation_error, PageEvent, requested, confirmed, closed, backup_accepted,
  server_accepted, backup_failed, server_failed, handle, run,
}

-- The permission that the server asks for an action.
abbrev pub permission_of : OverviewAction → Permission
permission_of backup = backups_create
permission_of (server start) = server_start
permission_of (server stop) = server_stop
permission_of (server restart) = server_restart

-- The page lets a role run an action exactly if the role holds the permission for it.
pub can_run-has_permission :
    (role : Role) (a : OverviewAction) → can_run role a ≡ has_permission role (permission_of a)
unfolding can_run_server_action has_permission
can_run-has_permission administrator backup = refl
can_run-has_permission operator backup = refl
can_run-has_permission viewer backup = refl
can_run-has_permission administrator (server start) = refl
can_run-has_permission administrator (server stop) = refl
can_run-has_permission administrator (server restart) = refl
can_run-has_permission operator (server start) = refl
can_run-has_permission operator (server stop) = refl
can_run-has_permission operator (server restart) = refl
can_run-has_permission viewer (server start) = refl
can_run-has_permission viewer (server stop) = refl
can_run-has_permission viewer (server restart) = refl

module _ {E : Type 0} (mb : Mutation Unit E) (ms : Mutation ServerAction E) (role : Role) where
  pub record IsPermitted (p : Page mb ms role) : Type 0 where
    pub open_permitted : (a : OverviewAction) → p.pending_action ≡ some a → can_run role a ≡ true
    pub backups_permitted : 0 < p.sent_backups → can_backup role ≡ true
    pub actions_permitted : All (λ a. can_run_server_action role a ≡ true) p.sent_actions

  close_confirmation-IsPermitted :
      (o : Option OverviewAction) (p : Page mb ms role)
      → IsPermitted p
      → IsPermitted (close_confirmation mb ms role o p)
  unfolding close_confirmation
  close_confirmation-IsPermitted none p h = ground arith
  close_confirmation-IsPermitted (some backup) p h = ground arith
  close_confirmation-IsPermitted (some (server a)) p h = ground arith

  request_action-IsPermitted :
      (a : OverviewAction) (p : Page mb ms role)
      → IsPermitted p
      → IsPermitted (request_action mb ms role a p)
  unfolding request_action
  request_action-IsPermitted backup p h = ground arith
  request_action-IsPermitted (server a) p h = ground arith

  confirm_pending-IsPermitted :
      (o : Option OverviewAction) (p : Page mb ms role)
      → IsPermitted p
      → IsPermitted (confirm_pending mb ms role o p)
  unfolding confirm_pending
  confirm_pending-IsPermitted none p h = h
  confirm_pending-IsPermitted (some backup) p h = ground arith
  confirm_pending-IsPermitted (some (server a)) p h = ground arith

  handle-IsPermitted :
      (e : PageEvent E) (p : Page mb ms role) → IsPermitted p → IsPermitted (handle mb ms role e p)
  unfolding handle confirm_action backup_resolved server_resolved backup_rejected server_rejected
  handle-IsPermitted (requested a) p h = request_action-IsPermitted a p h
  handle-IsPermitted confirmed p h = confirm_pending-IsPermitted p.pending_action p h
  handle-IsPermitted closed p h = close_confirmation-IsPermitted p.pending_action p h
  handle-IsPermitted backup_accepted p h = ground (
    arith,
    close_confirmation-IsPermitted p.captured_backup (record p { backups = mb.resolve p.backups }),
  )
  handle-IsPermitted server_accepted p h = ground (
    arith,
    close_confirmation-IsPermitted p.captured_server (record p { servers = ms.resolve p.servers }),
  )
  handle-IsPermitted (backup_failed e) p h = ground arith
  handle-IsPermitted (server_failed e) p h = ground arith

  run-IsPermitted' :
      (es : List (PageEvent E)) (p : Page mb ms role)
      → IsPermitted p
      → IsPermitted (run mb ms role es p)
  run-IsPermitted' [] p h = h
  run-IsPermitted' (e ∷ es) p h =
      run-IsPermitted' es (handle mb ms role e p) (handle-IsPermitted e p h)

  initial_page-IsPermitted : IsPermitted (initial_page mb ms role)
  initial_page-IsPermitted = ground arith

-- Whatever is clicked and whatever the server answers, in any order, a confirmation is open only
-- for an action that the role may run, and only such actions are sent.
pub run-IsPermitted :
    {E : Type 0} (mb : Mutation Unit E) (ms : Mutation ServerAction E) (role : Role)
    (es : List (PageEvent E))
    → IsPermitted mb ms role (run mb ms role es (initial_page mb ms role))
run-IsPermitted mb ms role es =
    run-IsPermitted' mb ms role es (initial_page mb ms role) (initial_page-IsPermitted mb ms role)

-- A request for an action that the role may run opens its confirmation without the error of an
-- earlier attempt; any other request changes nothing; and every button that the page enables
-- requests an action that the role may run.
pub request_action-opens :
    {E : Type 0} (mb : Mutation Unit E) (ms : Mutation ServerAction E) (role : Role)
    (state : ServerState) (a : OverviewAction) (p : Page mb ms role)
    → let q = request_action mb ms role a p in
      (can_run role a ≡ true → (q.pending_action ≡ some a) × (mutation_error mb ms role q ≡ none))
      × (can_run role a ≡ false → q ≡ p)
      × (offers role state a ≡ true → can_run role a ≡ true)
unfolding request_action mutation_error offers can_run_server_action
request_action-opens mb ms role state backup p = ground (arith, mb.reset_error p.backups)
request_action-opens mb ms role state (server start) p = ground (arith, ms.reset_error p.servers)
request_action-opens mb ms role state (server stop) p = ground (arith, ms.reset_error p.servers)
request_action-opens mb ms role state (server restart) p = ground (arith, ms.reset_error p.servers)

-- A server action that succeeds while it is followed closes the confirmation and resets its
-- mutation; one that fails keeps the confirmation and shows the error there.
pub server_resolved-closes :
    {E : Type 0} (mb : Mutation Unit E) (ms : Mutation ServerAction E) (role : Role)
    (a : ServerAction) (e : E) (p : Page mb ms role)
    → ms.status p.servers ≡ pending
    → p.captured_server ≡ some (server a)
    → p.pending_action ≡ some (server a)
    → ((server_resolved mb ms role p).pending_action ≡ none)
      × (ms.status (server_resolved mb ms role p).servers ≡ idle)
      × ((server_rejected mb ms role e p).pending_action ≡ p.pending_action)
      × (mutation_error mb ms role (server_rejected mb ms role e p) ≡ some e)
unfolding server_resolved close_confirmation server_rejected mutation_error
server_resolved-closes mb ms role a e p s c o =
    ground (arith, ms.reset_status (ms.resolve p.servers), ms.reject_error e p.servers s)
