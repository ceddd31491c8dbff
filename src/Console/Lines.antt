-- ===== src/Console/Lines.antt =====
-- console-lines.ts: the bounded list of live lines, and its merge with the history.
pub mod Window
pub mod Merged
mod Tests
use blockops.Prelude.{ℕ, ◌-◌, List, [], ◌∷◌, ◌++◌, foldl, length, drop, leb, ◌==◌, if◌then◌else◌}
use blockops.Console.Line.{ConsoleLine}

abbrev pub client_line_limit : ℕ
client_line_limit = 2000

-- `slice(-n)` for a positive n
unfoldable pub slice_last {ℓ} : {A : Type ℓ} → ℕ → List A → List A
slice_last n xs = drop (length xs - n) xs

unfoldable pub append_console_line : List ConsoleLine → ConsoleLine → List ConsoleLine
append_console_line lines line = slice_last client_line_limit (lines ++ line ∷ [])

-- `Map.set` on the entries in the order of insertion: a key that is there keeps its place
unfoldable pub set_by_sequence : List ConsoleLine → ConsoleLine → List ConsoleLine
set_by_sequence [] line = line ∷ []
set_by_sequence (entry ∷ entries) line =
    if entry.sequence == line.sequence then line ∷ entries else entry ∷ set_by_sequence entries line

-- `Array.prototype.sort` with the comparison `left.sequence - right.sequence`: it is stable
unfoldable pub insert_sorted : ConsoleLine → List ConsoleLine → List ConsoleLine
insert_sorted line [] = line ∷ []
insert_sorted line (other ∷ rest) =
    if leb line.sequence other.sequence
    then line ∷ other ∷ rest
    else other ∷ insert_sorted line rest

unfoldable pub sort_by_sequence : List ConsoleLine → List ConsoleLine
unfolding insert_sorted
sort_by_sequence [] = []
sort_by_sequence (line ∷ lines) = insert_sorted line (sort_by_sequence lines)

-- the two loops over `history` and `live`
unfoldable pub by_sequence : List ConsoleLine → List ConsoleLine → List ConsoleLine
unfolding set_by_sequence
by_sequence history live = foldl set_by_sequence (foldl set_by_sequence [] history) live

unfoldable pub merge_console_lines : List ConsoleLine → List ConsoleLine → List ConsoleLine
unfolding by_sequence sort_by_sequence slice_last
merge_console_lines history live =
    slice_last client_line_limit (sort_by_sequence (by_sequence history live))
