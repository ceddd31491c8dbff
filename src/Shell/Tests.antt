-- ===== src/Shell/Tests.antt =====
-- The sidebar of an operator, themes and a menu.
use blockops.Prelude.{◌≡◌, refl, true, false, none, some, List, All, any, [], ◌∷◌}
use blockops.Js.Text.{codes}
use blockops.Auth.Permissions.{operator}
use blockops.Shell.{sidebar, router}
use blockops.Ui.{nothing}
use blockops.Overview.Data.{no_identity}
use blockops.Shell.View.{Props}
use blockops.Shell.Theme
use blockops.Shell.Frame
use blockops.Shell.Theme.{light, initial_theme, with_effect, mount, ThemeEvent, toggled, loaded}
use blockops.Shell.Frame.{
  mounted, usable, FrameEvent, opened, elapsed, followed, moved, open_button,
}
use blockops.Shell.Frame.Laws.{all_elapsed, run-settled}
use blockops.Shell.Laws.{LeadsTo, links_to, sidebar-LeadsTo}

sidebar-LeadsTo_example :
    All (LeadsTo operator) (sidebar operator)
    × All (λ r. any (links_to (b'/' ∷ r.path)) (sidebar operator) ≡ true) router
sidebar-LeadsTo_example = sidebar-LeadsTo operator

abbrev theme_events : List ThemeEvent
theme_events = toggled ∷ loaded false ∷ toggled ∷ toggled ∷ loaded true ∷ []

-- Three toggles from the dark theme that the browser prefers.
light_in_the_end : Theme.run theme_events (mount (some (codes "blue")) true) ≡ with_effect light
unfolding Theme.handle mount initial_theme
light_in_the_end = refl

abbrev frame_events : List FrameEvent
frame_events = elapsed ∷ followed (codes "/players") ∷ opened ∷ []

abbrev earlier : List FrameEvent
earlier =
    opened ∷ elapsed ∷ moved none ∷ followed (codes "/console") ∷ moved (some open_button) ∷ []

run-settled_example :
    let f =
      Frame.run true
        (opened ∷ frame_events)
        (Frame.run true earlier (mounted (codes "/overview"))) in
    let g = Frame.run true (all_elapsed f.timers) f in
    (g.timers ≡ []) × (g.menu_open ≡ f.menu_open) × (g.focused ≡ some (usable f.menu_open))
unfolding Frame.handle
run-settled_example =
    run-settled earlier opened frame_events (codes "/overview") refl (refl, (refl, (refl, tt)))

-- An operator's shell with an open menu.
abbrev shell_props : Props
shell_props = record {
  role = operator;
  username = codes "alex";
  identity = no_identity;
  menu_open = true;
  signing_out = false;
  theme = light;
  outlet = nothing;
}
