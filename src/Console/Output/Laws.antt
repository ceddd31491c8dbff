-- ===== src/Console/Output/Laws.antt =====
-- What a pause and the filters do.
use blockops.Prelude.{◌≡◌, ◌≢◌, true, false, none, List, arith}
use blockops.Js.Text.{Text, includes}
use blockops.Console.Line.{ConsoleLine}
use blockops.Console.Output.{
  LevelFilter, all, warning, error, plain, failed, is_empty, matches_level_and_search, line_tone,
  ConsoleOutput, filtered, toggle_pause, resume,
}

-- A pause keeps the shown lines as they are, whatever arrives; resuming shows the lines of then,
-- and the two ways of resuming do the same.
pub filtered-toggle_pause :
    (to_lower : Text → Text) (o : ConsoleOutput) (history live history' live' : List ConsoleLine)
    → o.paused_lines ≡ none
    → let paused = toggle_pause history live o in
      (filtered to_lower paused history' live' ≡ filtered to_lower o history live)
      × (filtered to_lower (resume paused) history' live' ≡ filtered to_lower o history' live')
      × (toggle_pause history' live' paused ≡ resume paused)
unfolding filtered toggle_pause resume
filtered-toggle_pause to_lower o history live history' live' e = ground arith

-- Every line that the filter for warnings shows is toned as a warning or a failure, and every line
-- that the filter for errors shows is toned as a failure; a shown line has the searched text.
pub matches-line_tone :
    (to_lower : Text → Text) (line : ConsoleLine) (search : Text) (level : LevelFilter)
    → matches_level_and_search to_lower line search level ≡ true
    → ((is_empty search ≡ false) → includes search (to_lower line.text) ≡ true)
      × (level ≡ error → line_tone to_lower line.text ≡ failed)
      × (level ≡ warning → line_tone to_lower line.text ≢ plain)
unfolding matches_level_and_search line_tone
matches-line_tone to_lower line search all h = ground arith
matches-line_tone to_lower line search warning h = ground arith
matches-line_tone to_lower line search error h = ground arith
