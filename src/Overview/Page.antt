-- ===== src/Overview/Page.antt =====
-- overview-page.tsx, overview-actions.ts and components/server-lifecycle.tsx: the actions that the
-- page offers, their confirmation and what is sent.
--
-- `captured_backup` and `captured_server` are the values of `pendingAction` in the closures of the
-- last calls of the two `mutate` functions.
pub mod Invariant
pub mod Tests
use blockops.Prelude.{
  ℕ, ◌+◌, Bool, true, false, not, ◌&&◌, ◌||◌, Option, none, some, List, [], ◌∷◌, if◌then◌else◌,
}
use blockops.Js.Text.{Text, codes}
use blockops.Query.{is_pending, Mutation}
use blockops.Auth.Permissions.{
  Role, administrator, operator, viewer, backups_create, server_restart, has_permission,
}

pub data ServerAction : Type 0 where
  start stop restart : ServerAction

pub data OverviewAction : Type 0 where
  backup : OverviewAction
  server : ServerAction → OverviewAction

pub data ServerState : Type 0 where
  online offline starting stopping unknown : ServerState

pub record Confirmation : Type 0 where
  pub title : Text
  pub description : Text
  pub label : Text

-- `confirmationFor`
unfoldable pub confirmation_for : Option OverviewAction → Confirmation
confirmation_for none = record {
  title = codes "Confirm action";
  description = codes "Confirm this server operation.";
  label = codes "Confirm";
}
confirmation_for (some backup) = record {
  title = codes "Create a consistent backup?";
  description =
      codes
        "BlockOps will briefly disable world saves, flush data, archive the configured worlds, and re-enable saves.";
  label = codes "Create backup";
}
confirmation_for (some (server start)) = record {
  title = codes "Start the Minecraft server?";
  description =
      codes
        "BlockOps will ask the private Docker integration to start only the configured container.";
  label = codes "Start server";
}
confirmation_for (some (server stop)) = record {
  title = codes "Stop the Minecraft server?";
  description =
      codes "Connected players will be disconnected. Use this only when you intend downtime.";
  label = codes "Stop server";
}
confirmation_for (some (server restart)) = record {
  title = codes "Restart the Minecraft server?";
  description =
      codes "Connected players will be disconnected while the configured container restarts.";
  label = codes "Restart server";
}

abbrev pub is_administrator : Role → Bool
is_administrator administrator = true
is_administrator _ = false

abbrev pub can_backup : Role → Bool
can_backup role = has_permission role backups_create

unfoldable pub can_run_server_action : Role → ServerAction → Bool
can_run_server_action role restart = has_permission role server_restart
can_run_server_action role _ = is_administrator role

abbrev pub can_run : Role → OverviewAction → Bool
can_run role backup = can_backup role
can_run role (server a) = can_run_server_action role a

abbrev pub is_online : ServerState → Bool
is_online online = true
is_online _ = false

abbrev pub is_offline : ServerState → Bool
is_offline offline = true
is_offline _ = false

-- Whether the page has an enabled button for an action: the header's two and the lifecycle's two.
unfoldable pub offers : Role → ServerState → OverviewAction → Bool
offers role state backup = can_backup role
offers role state (server restart) = has_permission role server_restart
offers role state (server start) = is_administrator role && not (is_online state)
offers role state (server stop) = is_administrator role && not (is_offline state)

pub record OverviewPage (B S : Type 0) : Type 0 where
  pub pending_action : Option OverviewAction
  pub backups : B
  pub servers : S
  pub captured_backup : Option OverviewAction
  pub captured_server : Option OverviewAction
  pub sent_backups : ℕ
  pub sent_actions : List ServerAction  -- the newest first

module _ {E : Type 0} (mb : Mutation Unit E) (ms : Mutation ServerAction E) (role : Role) where
  abbrev pub Page : Type 0
  Page = OverviewPage mb.State ms.State

  abbrev pub initial_page : Page
  initial_page = record {
    pending_action = none;
    backups = mb.initial;
    servers = ms.initial;
    captured_backup = none;
    captured_server = none;
    sent_backups = 0;
    sent_actions = [];
  }

  unfoldable pub request_action : OverviewAction → Page → Page
  unfolding can_run_server_action
  request_action backup p =
      if not (can_backup role)
      then p
      else record p { backups = mb.reset p.backups; pending_action = some backup }
  request_action (server a) p =
      if not (can_run_server_action role a)
      then p
      else record p { servers = ms.reset p.servers; pending_action = some (server a) }

  -- `closeConfirmation` of the render in which `pendingAction` was the first argument
  unfoldable pub close_confirmation : Option OverviewAction → Page → Page
  close_confirmation none p = record p { pending_action = none }
  close_confirmation (some backup) p = record p {
    backups = mb.reset p.backups;
    pending_action = none;
  }
  close_confirmation (some (server a)) p = record p {
    servers = ms.reset p.servers;
    pending_action = none;
  }

  unfoldable pub confirm_pending : Option OverviewAction → Page → Page
  unfolding can_run_server_action
  confirm_pending none p = p
  confirm_pending (some backup) p =
      if can_backup role
      then record p {
        backups = mb.mutate tt p.backups;
        captured_backup = some backup;
        sent_backups = p.sent_backups + 1;
      }
      else p
  confirm_pending (some (server a)) p =
      if can_run_server_action role a
      then record p {
        servers = ms.mutate a p.servers;
        captured_server = some (server a);
        sent_actions = a ∷ p.sent_actions;
      }
      else p

  -- `confirmAction`
  unfoldable pub confirm_action : Page → Page
  unfolding confirm_pending
  confirm_action p = confirm_pending p.pending_action p

  -- The server has accepted a call: its callback runs while the observer still follows it.
  unfoldable pub backup_resolved : Page → Page
  unfolding close_confirmation
  backup_resolved p =
      let settled = record p { backups = mb.resolve p.backups } in
      if is_pending (mb.status p.backups)
      then close_confirmation p.captured_backup settled
      else settled

  unfoldable pub server_resolved : Page → Page
  unfolding close_confirmation
  server_resolved p =
      let settled = record p { servers = ms.resolve p.servers } in
      if is_pending (ms.status p.servers)
      then close_confirmation p.captured_server settled
      else settled

  unfoldable pub backup_rejected : E → Page → Page
  backup_rejected e p = record p { backups = mb.reject e p.backups }

  unfoldable pub server_rejected : E → Page → Page
  server_rejected e p = record p { servers = ms.reject e p.servers }

  -- `mutationError`
  unfoldable pub mutation_error : Page → Option E
  mutation_error p = elim p.pending_action [
    | some backup ↦ mb.error p.backups
    | some (server a) ↦ ms.error p.servers
    | none ↦ ms.error p.servers
  ]

pub data PageEvent (E : Type 0) : Type 0 where
  requested : OverviewAction → PageEvent E
  confirmed closed backup_accepted server_accepted : PageEvent E
  backup_failed server_failed : E → PageEvent E

module _ {E : Type 0} (mb : Mutation Unit E) (ms : Mutation ServerAction E) (role : Role) where
  unfoldable pub handle : PageEvent E → Page mb ms role → Page mb ms role
  unfolding request_action confirm_action close_confirmation backup_resolved server_resolved
      backup_rejected server_rejected
  handle (requested a) p = request_action mb ms role a p
  handle confirmed p = confirm_action mb ms role p
  handle closed p = close_confirmation mb ms role p.pending_action p
  handle backup_accepted p = backup_resolved mb ms role p
  handle server_accepted p = server_resolved mb ms role p
  handle (backup_failed e) p = backup_rejected mb ms role e p
  handle (server_failed e) p = server_rejected mb ms role e p

  abbrev pub run : List (PageEvent E) → Page mb ms role → Page mb ms role
  run [] p = p
  run (e ∷ es) p = run es (handle e p)
