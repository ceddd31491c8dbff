-- ===== src/Shell/View/Laws.antt =====
-- What can be called while the menu is open, and while it is closed.
use blockops.Prelude.{
  ◌≡◌, refl, Bool, true, false, not, List, [], ◌∷◌, ◌++◌, map, ◌∙◌, if◌then◌else◌,
}
use blockops.Ui.{views, clicks, click_if}
use blockops.Ui.Laws.{elements}
use blockops.Auth.Permissions.{Role}
use blockops.Overview.Data.{ServerIdentity}
use blockops.Shell.{Section, manage, server, SidebarItem, sidebar_section}
use blockops.Shell.Theme.{Theme}
use blockops.Shell.View.{
  Click, open_menu, close_menu, switch_theme, sign_out, follow, Props, app_header, item_view,
  section_view, app_sidebar, app_shell,
}

-- The links of the sidebar.
abbrev pub followed : List SidebarItem → List Click
followed [] = []
followed (SidebarItem.link path label can_open ∷ items) = follow path ∷ followed items
followed (SidebarItem.soon label ∷ items) = followed items

clicks-items : (items : List SidebarItem) → clicks (views (map item_view items)) ≡ followed items
unfolding clicks item_view
clicks-items [] = refl
clicks-items (SidebarItem.link path label can_open ∷ items) = rw (clicks-items items) refl
clicks-items (SidebarItem.soon label ∷ items) = clicks-items items

clicks-section_view :
    (role : Role) (s : Section) → clicks (section_view role s) ≡ followed (sidebar_section role s)
unfolding clicks section_view
clicks-section_view role s = clicks-items (sidebar_section role s)

clicks-app_header :
    (identity : ServerIdentity) (theme : Theme)
    → clicks (app_header identity theme) ≡ open_menu ∷ switch_theme ∷ []
unfolding app_header
clicks-app_header identity theme = simp elements

-- The links of the two sections, and the sign-out unless it is under way.
abbrev pub sidebar_clicks : Props → List Click
sidebar_clicks p =
    followed (sidebar_section p.role manage)
    ++ (followed (sidebar_section p.role server) ++ click_if (not p.signing_out) sign_out)

clicks-app_sidebar :
    (p : Props) → clicks (app_sidebar p) ≡ click_if p.menu_open close_menu ++ sidebar_clicks p
unfolding app_sidebar
clicks-app_sidebar p = simp (elements, clicks-section_view)

reachable :
    (b : Bool) (side outlet : List Click)
    → (click_if b close_menu ++ side)
        ++ (click_if b close_menu ++ (if b then [] else open_menu ∷ switch_theme ∷ outlet))
      ≡ (if b
          then close_menu ∷ (side ++ close_menu ∷ [])
          else side ++ open_menu ∷ switch_theme ∷ outlet)
reachable true side outlet = refl
reachable false side outlet = refl

clicks-app_shell :
    (p : Props)
    → clicks (app_shell p)
      ≡ (click_if p.menu_open close_menu ++ sidebar_clicks p)
        ++ (click_if p.menu_open close_menu
            ++ (if p.menu_open then [] else open_menu ∷ switch_theme ∷ clicks p.outlet))
unfolding app_shell
clicks-app_shell p = simp (elements, clicks-app_sidebar, clicks-app_header)

-- While the menu is open, nothing of the header and of the page can be called: only the two buttons
-- that close the menu, the links of the sidebar and the sign-out. While it is closed there is
-- nothing to close, and the menu can be opened, the theme switched and the page used.
pub app_shell-clicks :
    (p : Props)
    → clicks (app_shell p) ≡ (
        if p.menu_open
        then close_menu ∷ (sidebar_clicks p ++ close_menu ∷ [])
        else sidebar_clicks p ++ open_menu ∷ switch_theme ∷ clicks p.outlet)
app_shell-clicks p = clicks-app_shell p ∙ reachable p.menu_open (sidebar_clicks p) (clicks p.outlet)
