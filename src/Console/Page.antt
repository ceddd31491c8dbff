-- ===== src/Console/Page.antt =====
-- console-page.tsx over its hooks and components/console-output.tsx: the history, the stream and the
-- output pane, which is mounted only while the history is there.
--
-- The events are those of the stream, of the query for the history, which may take any result, and of
-- the output pane: its controls, and the deferred render that follows a change of the search at any
-- later time. `decode` and `to_lower` are those of the stream and of the output.
pub mod Laws
pub mod View
pub mod Tests
use blockops.Prelude.{ℕ, Bool, true, false, Option, none, some, List, [], ◌∷◌, if◌then◌else◌}
use blockops.Js.Text.{Text}
use blockops.Query.{QueryResult, is_loading}
use blockops.Api.Error.{Caught}
use blockops.Console.Line.{ConsoleLine}
use blockops.Console.Stream
use blockops.Console.Stream.{Stream, Event, start}
use blockops.Console.Hook.{use_console_stream}
use blockops.Console.Output.{
  LevelFilter, all, ConsoleOutput, matches_level_and_search, filtered, toggle_pause, resume,
}

pub record ConsolePage : Type 0 where
  pub history : QueryResult (List ConsoleLine) Caught
  pub stream : Stream
  pub output : Option ConsoleOutput  -- its state while it is mounted

abbrev pub initial_output : ConsoleOutput
initial_output = record { paused_lines = none; search = []; deferred_search = []; level = all }

abbrev pub mounted_page : ConsolePage
mounted_page = record {
  history = record { value = none; error = none; fetching = true };
  stream = start;
  output = none;
}

-- `history.data.lines` after the three guards of the page.
unfoldable pub history_lines : QueryResult (List ConsoleLine) Caught → Option (List ConsoleLine)
history_lines q = if is_loading q then none else elim q.error [ some e ↦ none | none ↦ q.value ]

-- A component that comes into the tree starts anew, and one that leaves it loses its state.
abbrev pub mount : Option (List ConsoleLine) → Option ConsoleOutput → Option ConsoleOutput
mount none o = none
mount (some lines) none = some initial_output
mount (some lines) (some o) = some o

-- What the output pane gets.
abbrev pub live_lines : ConsolePage → List ConsoleLine
live_lines p = (use_console_stream p.stream).lines

abbrev pub kept_lines : ConsolePage → List ConsoleLine
kept_lines p = elim (history_lines p.history) [ none ↦ [] | some lines ↦ lines ]

abbrev pub on_output : (ConsoleOutput → ConsoleOutput) → Option ConsoleOutput → Option ConsoleOutput
on_output f none = none
on_output f (some o) = some (f o)

pub data PageEvent : Type 0 where
  streamed : Event → PageEvent
  history_settled : QueryResult (List ConsoleLine) Caught → PageEvent
  searched : Text → PageEvent
  level_chosen : LevelFilter → PageEvent
  search_rendered pause_clicked return_clicked : PageEvent

module _ (decode : List ℕ → Option ConsoleLine) where
  unfoldable pub handle : PageEvent → ConsolePage → ConsolePage
  unfolding toggle_pause resume
  handle (streamed e) p = record p { stream = blockops.Console.Stream.handle decode e p.stream }
  handle (history_settled q) p = record p { history = q; output = mount (history_lines q) p.output }
  handle (searched t) p = record p { output = on_output (λ o. record o { search = t }) p.output }
  handle search_rendered p = record p {
    output = on_output (λ o. record o { deferred_search = o.search }) p.output;
  }
  handle (level_chosen l) p = record p { output = on_output (λ o. record o { level = l }) p.output }
  handle pause_clicked p = record p {
    output = on_output (toggle_pause (kept_lines p) (live_lines p)) p.output;
  }
  handle return_clicked p = record p { output = on_output resume p.output }

  abbrev pub run : List PageEvent → ConsolePage → ConsolePage
  run [] p = p
  run (e ∷ es) p = run es (handle e p)

-- The lines in the terminal, of which there are none while the pane is not mounted.
unfoldable pub terminal : (Text → Text) → ConsolePage → List ConsoleLine
unfolding filtered
terminal to_lower p = elim p.output [
  | none ↦ []
  | some o ↦ filtered to_lower o (kept_lines p) (live_lines p)
]

-- Whether the pane's filters let a line through, with the search of the last deferred render.
abbrev pub passes : (Text → Text) → Option ConsoleOutput → ConsoleLine → Bool
passes to_lower none line = false
passes to_lower (some o) line =
    matches_level_and_search to_lower line (to_lower o.deferred_search) o.level

-- The same with the search that the pane has.
abbrev pub passes_now : (Text → Text) → Option ConsoleOutput → ConsoleLine → Bool
passes_now to_lower none line = false
passes_now to_lower (some o) line =
    matches_level_and_search to_lower line (to_lower o.search) o.level
