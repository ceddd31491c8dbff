-- ===== src/Console/Output.antt =====
-- components/console-output.tsx: which of the lines are shown.
--
-- `to_lower` stands for `toLowerCase`.
pub mod Laws
pub mod Tests
use blockops.Prelude.{
  Bool, true, false, not, ◌&&◌, ◌||◌, Option, none, some, List, [], ◌∷◌, select, if◌then◌else◌,
}
use blockops.Js.Text.{Text, codes, includes}
use blockops.Console.Line.{ConsoleLine}
use blockops.Console.Lines.{merge_console_lines}

pub data LevelFilter : Type 0 where
  all warning error : LevelFilter

pub data LineTone : Type 0 where
  plain warned failed : LineTone

abbrev pub is_warning : Text → Bool
is_warning lower = includes (codes "[warn]") lower

abbrev pub is_failure : Text → Bool
is_failure lower = includes (codes "[error]") lower || includes (codes "exception") lower

abbrev pub matches_level : Text → LevelFilter → Bool
matches_level lower all = true
matches_level lower warning = is_warning lower
matches_level lower error = is_failure lower

abbrev pub is_empty : Text → Bool
is_empty [] = true
is_empty (c ∷ s) = false

unfoldable pub matches_level_and_search : (Text → Text) → ConsoleLine → Text → LevelFilter → Bool
matches_level_and_search to_lower line search level =
    let lower = to_lower line.text in
    if not (is_empty search) && not (includes search lower)
    then false
    else matches_level lower level

unfoldable pub line_tone : (Text → Text) → Text → LineTone
line_tone to_lower t =
    let lower = to_lower t in
    if is_failure lower then failed else if is_warning lower then warned else plain

pub record ConsoleOutput : Type 0 where
  pub paused_lines : Option (List ConsoleLine)
  pub search : Text
  pub deferred_search : Text  -- the search of the last deferred render, as `useDeferredValue` keeps it
  pub level : LevelFilter

-- `visibleLines`
abbrev pub visible_lines : ConsoleOutput → List ConsoleLine → List ConsoleLine
visible_lines o lines = elim o.paused_lines [ none ↦ lines | some paused ↦ paused ]

unfoldable pub filtered :
    (Text → Text) → ConsoleOutput → List ConsoleLine → List ConsoleLine → List ConsoleLine
unfolding matches_level_and_search
filtered to_lower o history live =
    select (λ line. matches_level_and_search to_lower line (to_lower o.deferred_search) o.level)
      (visible_lines o (merge_console_lines history live))

-- the button that pauses and resumes
unfoldable pub toggle_pause : List ConsoleLine → List ConsoleLine → ConsoleOutput → ConsoleOutput
toggle_pause history live o = record o {
  paused_lines = elim o.paused_lines [
    | none ↦ some (merge_console_lines history live)
    | some paused ↦ none
  ];
}

-- the button that returns to the live output
unfoldable pub resume : ConsoleOutput → ConsoleOutput
resume o = record o { paused_lines = none }
