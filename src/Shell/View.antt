-- ===== src/Shell/View.antt =====
-- frontend/src/app/shell: what app-shell.tsx, app-header.tsx and app-sidebar.tsx render.
--
-- The classes that hide the sidebar on a narrow screen, or its buttons on a wide one, are left out.
pub mod Laws
use blockops.Prelude.{
  Bool, true, false, not, Option, none, some, List, [], ◌∷◌, ◌++◌, map, if◌then◌else◌,
}
use blockops.Js.Text.{Text, codes}
use blockops.Formatters.{format_duration}
use blockops.Ui.{
  View, nothing, words, pill, button, link, inert, standard, ghost, views, beside, shown_if,
  text_if,
}
use blockops.Auth.Permissions.{Role, administrator, operator, viewer}
use blockops.Overview.Data.{ServerIdentity, server_state_tone, state_text}
use blockops.Shell.{Section, manage, server, SidebarItem, sidebar_section}
use blockops.Shell.Theme.{Theme, light, dark, theme_text, other_theme}

pub data Click : Type 0 where
  open_menu close_menu switch_theme sign_out : Click
  follow : Text → Click

pub record Props : Type 0 where
  pub role : Role
  pub username : Text
  pub identity : ServerIdentity
  pub menu_open : Bool
  pub signing_out : Bool
  pub theme : Theme
  pub outlet : View Click

-- `[software, version].filter(Boolean).join(" ")`
abbrev pub filled : Option Text → List Text
filled none = []
filled (some []) = []
filled (some (c ∷ s)) = (c ∷ s) ∷ []

abbrev pub join_spaced : List Text → Text
join_spaced [] = []
join_spaced (t ∷ []) = t
join_spaced (t ∷ ts) = t ++ (codes " " ++ join_spaced ts)

unfoldable pub software : ServerIdentity → Text
software identity = join_spaced (filled identity.software ++ filled identity.version)

-- app-header.tsx
unfoldable pub app_header : ServerIdentity → Theme → View Click
app_header identity theme = views (
    button ghost (codes "Open navigation") true open_menu
    ∷ words (codes "Minecraft server")
    ∷ pill (server_state_tone identity.state) (state_text identity.state)
    ∷ text_if words (some (software identity))
    ∷ words (codes "uptime " ++ format_duration identity.uptime_seconds)
    ∷ button ghost (codes "Use " ++ (theme_text (other_theme theme) ++ codes " theme")) true
        switch_theme
    ∷ [])

-- `SidebarItem`: a link navigates also where the role may not open its page.
unfoldable pub item_view : SidebarItem → View Click
item_view (SidebarItem.link path label can_open) = link label (follow path)
item_view (SidebarItem.soon label) = beside (words label) (words (codes "Soon"))

abbrev pub section_label : Section → Text
section_label manage = codes "Manage"
section_label server = codes "Server"

unfoldable pub section_view : Role → Section → View Click
section_view role s =
    beside (words (section_label s)) (views (map item_view (sidebar_section role s)))

abbrev pub role_text : Role → Text
role_text administrator = codes "administrator"
role_text operator = codes "operator"
role_text viewer = codes "viewer"

-- app-sidebar.tsx
unfoldable pub app_sidebar : Props → View Click
app_sidebar p = views (
    shown_if p.menu_open (button ghost (codes "Close navigation") true close_menu)
    ∷ words (codes "Instances")
    ∷ pill (server_state_tone p.identity.state) (codes "Minecraft server")
    ∷ words (state_text p.identity.state)
    ∷ section_view p.role manage
    ∷ section_view p.role server
    ∷ words p.username
    ∷ words (role_text p.role)
    ∷ button ghost (codes "Sign out") (not p.signing_out) sign_out
    ∷ [])

-- app-shell.tsx: the header and the page are inert behind an open menu.
unfoldable pub app_shell : Props → View Click
app_shell p = views (
    app_sidebar p
    ∷ shown_if p.menu_open (button ghost (codes "Close navigation") true close_menu)
    ∷ inert p.menu_open (beside (app_header p.identity p.theme) p.outlet)
    ∷ [])
