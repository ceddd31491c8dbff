-- ===== src/Shell.antt =====
-- frontend/src/app: routing/routes.ts, the route modules behind routing/permission-boundary.tsx, and
-- the entries of shell/app-sidebar.tsx.
pub mod Laws
pub mod Theme
pub mod Frame
pub mod View
pub mod Tests
use mathlib.Core.Option
use blockops.Prelude.{
  Bool, true, false, not, Option, none, some, List, [], ◌∷◌, ◌++◌, map, select, if◌then◌else◌,
}
use blockops.Js.Text.{Text, codes, same_text}
use blockops.Auth.Permissions.{
  Role, Permission, monitor_read, console_read, players_read, world_download, backups_read,
  settings_manage, audit_read, has_permission,
}

pub data Section : Type 0 where
  manage server : Section

pub data NavigationEntry : Type 0 where
  item : Text → Text → Permission → Section → NavigationEntry
  planned : Text → Section → NavigationEntry

unfoldable pub navigation : List NavigationEntry
navigation =
    item (codes "/overview") (codes "Overview") monitor_read manage
    ∷ item (codes "/console") (codes "Console") console_read manage
    ∷ planned (codes "Files") manage
    ∷ planned (codes "Mods & plugins") manage
    ∷ item (codes "/players") (codes "Players") players_read manage
    ∷ item (codes "/worlds") (codes "Worlds") world_download manage
    ∷ item (codes "/backups") (codes "Backups") backups_read manage
    ∷ planned (codes "Schedules") manage
    ∷ item (codes "/settings") (codes "Settings") settings_manage server
    ∷ planned (codes "Access") server
    ∷ item (codes "/audit") (codes "Audit log") audit_read server
    ∷ []

abbrev pub section_of : NavigationEntry → Section
section_of (item _ _ _ s) = s
section_of (planned _ s) = s

abbrev same_section : Section → Section → Bool
same_section manage manage = true
same_section server server = true
same_section _ _ = false

-- An entry of the sidebar: a link that is marked as open or restricted, or a disabled label.
pub data SidebarItem : Type 0 where
  link : Text → Text → Bool → SidebarItem
  soon : Text → SidebarItem

unfoldable pub sidebar_item : Role → NavigationEntry → SidebarItem
sidebar_item role (item path label permission s) = link path label (has_permission role permission)
sidebar_item role (planned label s) = soon label

-- The entries of a section, in order.
unfoldable pub sidebar_section : Role → Section → List SidebarItem
unfolding sidebar_item navigation
sidebar_section role s =
    map (sidebar_item role) (select (λ entry. same_section (section_of entry) s) navigation)

abbrev pub sidebar : Role → List SidebarItem
sidebar role = sidebar_section role manage ++ sidebar_section role server

-- A route module: what its permission boundary asks for, and the title of the restricted page.
pub record RouteModule : Type 0 where
  pub path : Text
  pub permission : Permission
  pub title : Text

abbrev pub overview_route : RouteModule
overview_route = record {
  path = codes "overview";
  permission = monitor_read;
  title = codes "Overview";
}

abbrev pub console_route : RouteModule
console_route = record {
  path = codes "console";
  permission = console_read;
  title = codes "Console";
}

abbrev pub players_route : RouteModule
players_route = record {
  path = codes "players";
  permission = players_read;
  title = codes "Players";
}

abbrev pub worlds_route : RouteModule
worlds_route = record { path = codes "worlds"; permission = world_download; title = codes "Worlds" }

abbrev pub backups_route : RouteModule
backups_route = record {
  path = codes "backups";
  permission = backups_read;
  title = codes "Backups";
}

abbrev pub audit_route : RouteModule
audit_route = record { path = codes "audit"; permission = audit_read; title = codes "Audit log" }

abbrev pub settings_route : RouteModule
settings_route = record {
  path = codes "settings";
  permission = settings_manage;
  title = codes "Settings";
}

-- The children of the shell's route that load a module.
unfoldable pub router : List RouteModule
router =
    overview_route ∷ console_route ∷ players_route ∷ worlds_route ∷ backups_route ∷ audit_route
    ∷ settings_route ∷ []

-- What a route shows: its page, or the restricted area with its title.
pub data RouteView : Type 0 where
  page : RouteView
  restricted : Text → RouteView

unfoldable pub permission_boundary : Role → RouteModule → RouteView
permission_boundary role r = if has_permission role r.permission then page else restricted r.title

-- The route at an absolute path; `none` is the page for an unknown path.
abbrev pub find_route : Text → List RouteModule → Option RouteModule
find_route path [] = none
find_route path (r ∷ rs) =
    let rest = find_route path rs in if same_text (b'/' ∷ r.path) path then some r else rest

unfoldable pub visit : Role → Text → Option RouteView
unfolding router permission_boundary
visit role path = Option.map (permission_boundary role) (find_route path router)
