-- ===== src/Shell/Theme.antt =====
-- frontend/src/app/providers/theme-provider.tsx: the theme, the attribute of the document and the
-- storage of the browser.
--
-- `getItem` and `setItem` of this one key are a field of the state. A mount runs `initialTheme` and
-- then the effect; the effect runs again after every change of the theme.
pub mod Laws
use blockops.Prelude.{
  Bool, true, false, not, ◌||◌, Option, none, some, List, [], ◌∷◌, if◌then◌else◌,
}
use blockops.Js.Text.{Text, codes, same_text}

pub data Theme : Type 0 where
  light dark : Theme

abbrev pub theme_text : Theme → Text
theme_text light = codes "light"
theme_text dark = codes "dark"

unfoldable pub initial_theme : Option Text → Bool → Theme
initial_theme none prefers_dark = if prefers_dark then dark else light
initial_theme (some stored) prefers_dark =
    if same_text stored (codes "light")
    then light
    else if same_text stored (codes "dark")
    then dark
    else if prefers_dark
    then dark
    else light

pub record ThemeProvider : Type 0 where
  pub theme : Theme
  pub dataset : Text  -- `data-theme` of the document
  pub stored : Option Text

-- The effect on `theme`.
abbrev pub with_effect : Theme → ThemeProvider
with_effect t = record { theme = t; dataset = theme_text t; stored = some (theme_text t) }

unfoldable pub mount : Option Text → Bool → ThemeProvider
unfolding initial_theme
mount stored prefers_dark = with_effect (initial_theme stored prefers_dark)

abbrev pub other_theme : Theme → Theme
other_theme dark = light
other_theme light = dark

unfoldable pub toggle_theme : ThemeProvider → ThemeProvider
toggle_theme p = with_effect (other_theme p.theme)

-- What happens to the page: its button is clicked, or it is loaded again with any preference.
pub data ThemeEvent : Type 0 where
  toggled : ThemeEvent
  loaded : Bool → ThemeEvent

unfoldable pub handle : ThemeEvent → ThemeProvider → ThemeProvider
unfolding mount toggle_theme
handle toggled p = toggle_theme p
handle (loaded prefers_dark) p = mount p.stored prefers_dark

abbrev pub run : List ThemeEvent → ThemeProvider → ThemeProvider
run [] p = p
run (e ∷ es) p = run es (handle e p)
