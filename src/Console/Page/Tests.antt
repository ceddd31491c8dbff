-- ===== src/Console/Page/Tests.antt =====
-- The console page at concrete events.
use blockops.Prelude.{
  ℕ, ◌≡◌, ◌≤◌, refl, ◌++◌, ◌&&◌, true, false, Option, none, some, List, [], ◌∷◌, length, All, map,
}
use blockops.Js.Text.{Text, codes}
use blockops.Query.{QueryResult, Mutation}
use blockops.Query.Simple.{simple}
use blockops.Api.Error.{Caught}
use blockops.Auth.Permissions.{viewer, has_permission, console_execute}
use blockops.Ui.{clicks, click_if}
use blockops.Console.Line.{ConsoleLine}
use blockops.Console.Lines.{client_line_limit, merge_console_lines, append_console_line}
use blockops.Console.Lines.Merged.Sorted.{IsAscending}
use blockops.Console.Stream
use blockops.Console.Hook.{use_console_stream}
use blockops.Console.Stream.{start, opened, message, text}
use blockops.Console.Output.{all, warning, error}
use blockops.Console.CommandForm.{initial_form}
use blockops.Console.Page.{
  ConsolePage, mounted_page, PageEvent, streamed, history_settled, searched, search_rendered,
  pause_clicked, handle, history_lines, run, terminal, passes, passes_now,
}
use blockops.Console.Page.Laws.{run-terminal}
use blockops.Console.Page.View.{choose, toggle, return_to_live, send, console_page}
use blockops.Console.Page.View.Laws.{is_paused, is_ready, console_page-clicks}

abbrev itself : Text → Text
itself t = t

-- A frame is the text of a line; its number is that of its first unit.
abbrev decode : List ℕ → Option ConsoleLine
decode [] = none
decode (c ∷ s) = some (record { sequence = c; timestamp = []; text = s })

abbrev line : ℕ → ConsoleLine
line n = record { sequence = n; timestamp = []; text = codes "done" }

abbrev history : QueryResult (List ConsoleLine) Caught
history = record { value = some (line 5 ∷ line 3 ∷ []); error = none; fetching = false }

-- A line comes that the history has too, then the output is paused, and another line comes.
abbrev events : List PageEvent
events =
    streamed (opened 0)
    ∷ streamed (message 0 (text (5 ∷ codes "done")))
    ∷ history_settled history
    ∷ searched (codes "one")
    ∷ search_rendered
    ∷ searched (codes "two")
    ∷ pause_clicked
    ∷ streamed (message 0 (text (6 ∷ codes "done")))
    ∷ []

abbrev page : ConsolePage
page = run decode events mounted_page

run-terminal_example :
    IsAscending (terminal itself page)
    × (length (terminal itself page) ≤ client_line_limit)
    × All (λ (x : ConsoleLine). passes itself page.output x ≡ true) (terminal itself page)
    × All
        (λ (x : ConsoleLine). passes_now itself page.output x ≡ true)
        (terminal itself (handle decode search_rendered page))
run-terminal_example = run-terminal decode itself events

abbrev mutation : Mutation Text Caught
mutation = simple Text Caught

console_page-clicks_example :
    clicks (console_page itself itself mutation none viewer (initial_form mutation) page)
    ≡ choose all
      ∷ choose warning
      ∷ choose error
      ∷ toggle
      ∷ (click_if (is_paused page.output) return_to_live
          ++ click_if
              (has_permission viewer console_execute && is_ready mutation (initial_form mutation))
              send)
unfolding handle
console_page-clicks_example =
    console_page-clicks itself itself mutation none viewer (initial_form mutation) page
      (line 5 ∷ line 3 ∷ []) refl refl refl

two_are_shown : map (λ (x : ConsoleLine). x.sequence) (terminal itself page) ≡ 3 ∷ 5 ∷ []
unfolding terminal handle history_lines merge_console_lines use_console_stream
    blockops.Console.Stream.handle start append_console_line
two_are_shown = refl
