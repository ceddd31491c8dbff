-- ===== src/Console/Page/Laws.antt =====
-- What the terminal shows, whatever happened before.
use blockops.Prelude.{
  ℕ, ◌≡◌, ◌≤◌, ◌<◌, Bool, true, Option, none, some, List, [], ◌∷◌, length, select, All, All-select,
  select-All, length-select, arith,
}
use blockops.Js.Text.{Text}
use blockops.Console.Line.{ConsoleLine}
use blockops.Console.Lines.{client_line_limit, merge_console_lines}
use blockops.Console.Lines.Merged.{merge_console_lines-IsMerge}
use blockops.Console.Lines.Merged.Sorted.{IsAscending}
use blockops.Console.Output.{ConsoleOutput, visible_lines, filtered, toggle_pause, resume}
use blockops.Console.Page.{
  ConsolePage, mounted_page, mount, history_lines, live_lines, kept_lines, on_output, PageEvent,
  streamed, history_settled, searched, search_rendered, level_chosen, pause_clicked, return_clicked,
  handle, run, terminal, passes, passes_now,
}

select-IsAscending :
    (p : ConsoleLine → Bool) (xs : List ConsoleLine) → IsAscending xs → IsAscending (select p xs)
select-IsAscending p [] h = tt
select-IsAscending p (x ∷ xs) (low, h) = ground (
  arith,
  select-IsAscending p xs h,
  All-select (λ (y : ConsoleLine). x.sequence < y.sequence) p xs low,
)

-- Lines that the terminal can show.
record IsShowable (lines : List ConsoleLine) : Type 0 where
  ascending : IsAscending lines
  bounded : length lines ≤ client_line_limit

merged-IsShowable :
    (history live : List ConsoleLine) → IsShowable (merge_console_lines history live)
merged-IsShowable history live =
    let m = merge_console_lines-IsMerge history live in
    record { ascending = m.ascending; bounded = m.bounded }

abbrev AllShowable : Option (List ConsoleLine) → Type 0
AllShowable none = Unit
AllShowable (some lines) = IsShowable lines

abbrev IsSteady : Option ConsoleOutput → Type 0
IsSteady none = Unit
IsSteady (some o) = AllShowable o.paused_lines

toggle_pause-IsSteady :
    (h l : List ConsoleLine) (o : ConsoleOutput) → IsSteady (some (toggle_pause h l o))
unfolding toggle_pause
toggle_pause-IsSteady h l o =
    elim o.paused_lines
      as (λ q. AllShowable (elim q [ none ↦ some (merge_console_lines h l) | some ls ↦ none ])) [
        | none ↦ merged-IsShowable h l
        | some ls ↦ tt
      ]

on_output-IsSteady :
    (f : ConsoleOutput → ConsoleOutput) (o : Option ConsoleOutput)
    → ((u : ConsoleOutput) → IsSteady (some u) → IsSteady (some (f u)))
    → IsSteady o
    → IsSteady (on_output f o)
on_output-IsSteady f none h k = tt
on_output-IsSteady f (some o) h k = h o k

mount-IsSteady :
    (ls : Option (List ConsoleLine)) (o : Option ConsoleOutput) → IsSteady o → IsSteady (mount ls o)
mount-IsSteady none o h = tt
mount-IsSteady (some ls) none h = tt
mount-IsSteady (some ls) (some o) h = h

module _ (decode : List ℕ → Option ConsoleLine) where
  handle-IsSteady :
      (e : PageEvent) (p : ConsolePage) → IsSteady p.output → IsSteady (handle decode e p).output
  unfolding handle resume
  handle-IsSteady (streamed e) p h = h
  handle-IsSteady (history_settled q) p h = mount-IsSteady (history_lines q) p.output h
  handle-IsSteady (searched t) p h = on_output-IsSteady _ p.output (λ o k. k) h
  handle-IsSteady search_rendered p h = on_output-IsSteady _ p.output (λ o k. k) h
  handle-IsSteady (level_chosen l) p h = on_output-IsSteady _ p.output (λ o k. k) h
  handle-IsSteady pause_clicked p h =
      on_output-IsSteady _ p.output (λ o k. toggle_pause-IsSteady (kept_lines p) (live_lines p) o) h
  handle-IsSteady return_clicked p h = on_output-IsSteady _ p.output (λ o k. tt) h

  run-IsSteady :
      (es : List PageEvent) (p : ConsolePage)
      → IsSteady p.output
      → IsSteady (run decode es p).output
  run-IsSteady [] p h = h
  run-IsSteady (e ∷ es) p h = run-IsSteady es (handle decode e p) (handle-IsSteady e p h)

visible_lines-IsShowable :
    (o : ConsoleOutput) (lines : List ConsoleLine)
    → IsSteady (some o)
    → IsShowable lines
    → IsShowable (visible_lines o lines)
visible_lines-IsShowable o lines h k =
    elim o.paused_lines
        as (λ q. AllShowable q → IsShowable (elim q [ none ↦ lines | some ls ↦ ls ])) [
          | none ↦ λ _. k
          | some ls ↦ λ s. s
        ]
      h

select-IsShowable :
    (p : ConsoleLine → Bool) (lines : List ConsoleLine)
    → IsShowable lines
    → IsShowable (select p lines)
select-IsShowable p lines h = record {
  ascending = select-IsAscending p lines h.ascending;
  bounded = let less = length-select p lines in let most = h.bounded in omega arith;
}

-- What the terminal shows of a pane in any state with such lines.
abbrev IsShown : (Text → Text) → Option ConsoleOutput → List ConsoleLine → Type 0
IsShown to_lower o lines =
    IsShowable lines × All (λ (x : ConsoleLine). passes to_lower o x ≡ true) lines

terminal-IsShown :
    (to_lower : Text → Text) (o : Option ConsoleOutput) (history live : List ConsoleLine)
    → IsSteady o
    → IsShown to_lower o (elim o [ none ↦ [] | some u ↦ filtered to_lower u history live ])
unfolding filtered
terminal-IsShown to_lower none history live h =
    (record { ascending = tt; bounded = omega arith }, tt)
terminal-IsShown to_lower (some o) history live h =
    let lines = visible_lines o (merge_console_lines history live) in
    (
      select-IsShowable (passes to_lower (some o)) lines
          (visible_lines-IsShowable o _ h (merged-IsShowable history live)),
      select-All (passes to_lower (some o)) lines,
    )

terminal-search_rendered :
    (decode : List ℕ → Option ConsoleLine) (to_lower : Text → Text) (p : ConsolePage)
    → All
        (λ (x : ConsoleLine). passes_now to_lower p.output x ≡ true)
        (terminal to_lower (handle decode search_rendered p))
unfolding terminal handle filtered
terminal-search_rendered decode to_lower p =
    elim p.output
      as (λ o.
        All (λ (x : ConsoleLine). passes_now to_lower o x ≡ true)
          (elim (on_output (λ u. record u { deferred_search = u.search }) o) [
            | none ↦ []
            | some u ↦ filtered to_lower u (kept_lines p) (live_lines p)
          ])) [
            | none ↦ tt
            | some o ↦
                select-All (passes_now to_lower (some o))
                  (visible_lines o (merge_console_lines (kept_lines p) (live_lines p)))
          ]

-- Whatever the stream, the query for the history and the user did, paused or not: the terminal shows
-- lines of strictly ascending sequence numbers, at most 2,000 of them, and only such as the level and
-- the search of the last deferred render let through; and one deferred render later only such as the
-- level and the search itself let through.
pub run-terminal :
    (decode : List ℕ → Option ConsoleLine) (to_lower : Text → Text) (es : List PageEvent)
    → let p = run decode es mounted_page in
      IsAscending (terminal to_lower p)
      × (length (terminal to_lower p) ≤ client_line_limit)
      × All (λ (x : ConsoleLine). passes to_lower p.output x ≡ true) (terminal to_lower p)
      × All
          (λ (x : ConsoleLine). passes_now to_lower p.output x ≡ true)
          (terminal to_lower (handle decode search_rendered p))
unfolding terminal
run-terminal decode to_lower es =
    let p = run decode es mounted_page in
    let (lines, all) =
      terminal-IsShown to_lower p.output (kept_lines p) (live_lines p)
        (run-IsSteady decode es mounted_page tt) in
    (lines.ascending, lines.bounded, all, terminal-search_rendered decode to_lower p)
