-- ===== src/Console/Output/Tests.antt =====
-- The output at concrete lines.
use blockops.Prelude.{◌≡◌, refl, true, none, [], ◌∷◌}
use blockops.Js.Text.{Text, codes}
use blockops.Console.Line.{ConsoleLine}
use blockops.Console.Output.{
  all, error, matches_level_and_search, ConsoleOutput, filtered, toggle_pause, resume,
}
use blockops.Console.Output.Laws.{filtered-toggle_pause}

abbrev itself : Text → Text
itself t = t

abbrev line : ConsoleLine
line = record { sequence = 1; timestamp = []; text = codes "[error] disk" }

abbrev later : ConsoleLine
later = record { sequence = 2; timestamp = []; text = codes "done" }

abbrev output : ConsoleOutput
output = record { paused_lines = none; search = []; deferred_search = []; level = all }

filtered-toggle_pause_example :
    let paused = toggle_pause (line ∷ []) [] output in
    (filtered itself paused (line ∷ []) (later ∷ []) ≡ filtered itself output (line ∷ []) [])
    × (filtered itself (resume paused) (line ∷ []) (later ∷ [])
        ≡ filtered itself output (line ∷ []) (later ∷ []))
    × (toggle_pause (line ∷ []) (later ∷ []) paused ≡ resume paused)
filtered-toggle_pause_example =
    filtered-toggle_pause itself output (line ∷ []) [] (line ∷ []) (later ∷ []) refl

shown : matches_level_and_search itself line (codes "disk") error ≡ true
unfolding matches_level_and_search
shown = refl
