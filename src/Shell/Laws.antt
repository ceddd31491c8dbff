-- ===== src/Shell/Laws.antt =====
-- The sidebar and the routes agree.
use blockops.Prelude.{◌≡◌, Bool, true, false, some, All, ◌∷◌, any, if◌then◌else◌, arith}
use blockops.Js.Text.{Text, same_text}
use blockops.Auth.Permissions.{Role, administrator, operator, viewer, has_permission}
use blockops.Shell.{
  SidebarItem, link, soon, sidebar, sidebar_section, router, page, restricted, visit,
}

-- A link leads to a route, which shows its page if the link is marked as open and otherwise the
-- restricted area under the label of the link.
abbrev pub LeadsTo : Role → SidebarItem → Type 0
LeadsTo role (link path label can_open) =
    visit role path ≡ some (if can_open then page else restricted label)
LeadsTo role (soon label) = Unit

abbrev pub links_to : Text → SidebarItem → Bool
links_to path (link p label can_open) = same_text p path
links_to path (soon label) = false

-- For every role, each link of the sidebar leads to the route it names and is marked as open exactly
-- if that route shows its page to the role, and each route has a link in the sidebar.
pub sidebar-LeadsTo :
    (role : Role)
    → All (LeadsTo role) (sidebar role)
      × All (λ r. any (links_to (b'/' ∷ r.path)) (sidebar role) ≡ true) router
unfolding sidebar_section visit router has_permission
sidebar-LeadsTo administrator = ground arith
sidebar-LeadsTo operator = ground arith
sidebar-LeadsTo viewer = ground arith
