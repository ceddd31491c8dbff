-- ===== src/Console/Lines/Tests.antt =====
-- Concrete runs of console-lines.ts, and the theorems about it at concrete inputs.
use blockops.Prelude.{ℕ, ◌≤◌, ◌≡◌, refl, List, [], ◌∷◌, foldl, length}
use blockops.Console.Line.{ConsoleLine}
use blockops.Console.Lines.{client_line_limit, slice_last, append_console_line, merge_console_lines}
use blockops.Console.Lines.Window.{append_console_line-window}
use blockops.Console.Lines.Merged.{IsMerge, merge_console_lines-IsMerge}

abbrev line : ℕ → ℕ → ConsoleLine
line q mark = record { sequence = q; timestamp = []; text = mark ∷ [] }

abbrev history : List ConsoleLine
history = line 2 104 ∷ line 1 104 ∷ []

abbrev live : List ConsoleLine
live = line 3 108 ∷ line 2 108 ∷ []

merged_lines : merge_console_lines history live ≡ line 1 104 ∷ line 2 108 ∷ line 3 108 ∷ []
unfolding merge_console_lines
merged_lines = refl

last_two : slice_last 2 (line 1 0 ∷ line 2 0 ∷ line 3 0 ∷ []) ≡ line 2 0 ∷ line 3 0 ∷ []
unfolding slice_last
last_two = refl

append_console_line-window_example :
    (foldl append_console_line [] live ≡ slice_last client_line_limit live)
    × (length (foldl append_console_line [] live) ≤ client_line_limit)
append_console_line-window_example = append_console_line-window live

merge_console_lines-IsMerge_example : IsMerge history live (merge_console_lines history live)
merge_console_lines-IsMerge_example = merge_console_lines-IsMerge history live
