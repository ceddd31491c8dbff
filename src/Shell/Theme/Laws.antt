-- ===== src/Shell/Theme/Laws.antt =====
-- What a theme goes through.
use blockops.Prelude.{◌≡◌, refl, Bool, Option, some, List, [], ◌∷◌}
use blockops.Js.Text.{Text}
use blockops.Shell.Theme.{
  Theme, light, dark, theme_text, initial_theme, with_effect, mount, other_theme, ThemeEvent,
  toggled, loaded, handle, run,
}

-- The toggles alone decide the theme.
abbrev pub toggle_all : List ThemeEvent → Theme → Theme
toggle_all [] t = t
toggle_all (toggled ∷ es) t = toggle_all es (other_theme t)
toggle_all (loaded prefers_dark ∷ es) t = toggle_all es t

pub initial_theme-stored :
    (t : Theme) (prefers_dark : Bool) → initial_theme (some (theme_text t)) prefers_dark ≡ t
unfolding initial_theme
initial_theme-stored light prefers_dark = refl
initial_theme-stored dark prefers_dark = refl

run-with_effect :
    (es : List ThemeEvent) (t : Theme) → run es (with_effect t) ≡ with_effect (toggle_all es t)
unfolding handle
run-with_effect [] t = refl
run-with_effect (toggled ∷ es) t = run-with_effect es (other_theme t)
run-with_effect (loaded prefers_dark ∷ es) light = run-with_effect es light
run-with_effect (loaded prefers_dark ∷ es) dark = run-with_effect es dark

-- After the first load, whatever was stored then, and after any toggles and loads with any
-- preferences: the theme is that of the first load, toggled as often as the button was clicked; the
-- document has it, and so has the storage, from which the page that is loaded takes it up.
pub run-mount :
    (es : List ThemeEvent) (stored : Option Text) (prefers_dark : Bool)
    → run es (mount stored prefers_dark)
      ≡ with_effect (toggle_all es (initial_theme stored prefers_dark))
unfolding mount
run-mount es stored prefers_dark = run-with_effect es (initial_theme stored prefers_dark)
