-- ===== src/Shell/Frame.antt =====
-- frontend/src/app/shell/app-shell.tsx: the menu of a narrow screen, its buttons and its timers.
--
-- The timers of 50 ms elapse in the order in which they were set, and nothing cancels them. The close
-- button is mounted only while the menu is open; the open button stands in the part of the page that
-- is inert then; neither can be focused on a wide screen, where both are hidden.
pub mod Laws
use blockops.Prelude.{
  ℕ, ◌+◌, Bool, true, false, not, ◌&&◌, ◌||◌, Option, none, some, List, [], ◌∷◌, ◌++◌,
  if◌then◌else◌,
}
use blockops.Js.Text.{Text, same_text}

-- The elements that the timers focus.
pub data Target : Type 0 where
  close_button open_button : Target

abbrev pub same_target : Target → Target → Bool
same_target close_button close_button = true
same_target open_button open_button = true
same_target _ _ = false

pub record Frame : Type 0 where
  pub menu_open : Bool
  pub timers : List Target  -- what they focus, the first to elapse first
  pub focused : Option Target  -- which of the two has the focus, if one has
  pub pathname : Text
  pub scrolls : ℕ  -- how often the page was scrolled to its top

abbrev pub mounted : Text → Frame
mounted path = record {
  menu_open = false;
  timers = [];
  focused = none;
  pathname = path;
  scrolls = 1;
}

-- The button that can be focused, on a narrow screen.
abbrev pub usable : Bool → Target
usable true = close_button
usable false = open_button

-- An element that goes away or becomes inert loses the focus.
abbrev pub keep_focus : Target → Option Target → Option Target
keep_focus t none = none
keep_focus t (some u) = if same_target t u then some u else none

unfoldable pub set_menu_open : Bool → Frame → Frame
set_menu_open b f = record f { menu_open = b; focused = keep_focus (usable b) f.focused }

unfoldable pub open_navigation : Frame → Frame
unfolding set_menu_open
open_navigation f =
    let g = set_menu_open true f in record g { timers = g.timers ++ close_button ∷ [] }

unfoldable pub close_navigation : Frame → Frame
unfolding set_menu_open
close_navigation f =
    let g = set_menu_open false f in record g { timers = g.timers ++ open_button ∷ [] }

-- `document.getElementById(…)?.focus()`
unfoldable pub focus : Bool → Target → Frame → Frame
focus narrow t f =
    if narrow && same_target t (usable f.menu_open) then record f { focused = some t } else f

-- The effect on `location.pathname`.
unfoldable pub navigate : Text → Frame → Frame
navigate path f =
    if same_text path f.pathname then f else record f { pathname = path; scrolls = f.scrolls + 1 }

-- The menu is opened by its button, which is inert while it is open; it is dismissed by its close
-- button, by the backdrop and by Escape; a link of the sidebar, which has the focus then, closes it and
-- navigates. The user moves the focus with Tab or a click, to one of the two buttons or to something
-- else.
pub data FrameEvent : Type 0 where
  opened dismissed elapsed : FrameEvent
  followed : Text → FrameEvent
  moved : Option Target → FrameEvent

unfoldable pub move_focus : Bool → Option Target → Frame → Frame
unfolding focus
move_focus narrow none f = record f { focused = none }
move_focus narrow (some t) f = focus narrow t f

unfoldable pub handle : Bool → FrameEvent → Frame → Frame
unfolding open_navigation close_navigation focus move_focus navigate
handle narrow opened f = let g = open_navigation f in if f.menu_open then f else g
handle narrow dismissed f = close_navigation f
handle narrow (followed path) f = navigate path (close_navigation (record f { focused = none }))
handle narrow (moved t) f = move_focus narrow t f
handle narrow elapsed f = elim f.timers [
  | [] ↦ f
  | t ∷ ts ↦ focus narrow t (record f { timers = ts })
]

abbrev pub run : Bool → List FrameEvent → Frame → Frame
run narrow [] f = f
run narrow (e ∷ es) f = run narrow es (handle narrow e f)
