-- ===== src/Console/Page/View/Laws.antt =====
-- What a user of the console can do.
use blockops.Prelude.{
  ◌≡◌, refl, ap, ap₂, not, ◌&&◌, ltb, length, arith, Bool, false, Option, none, some, List, [], ◌∷◌,
  ◌++◌, is_some, map,
}
use blockops.Js.Text.{Text, trim}
use blockops.Query.{is_loading, is_pending, Mutation}
use blockops.Api.Error.{Caught}
use blockops.Auth.Permissions.{Role, has_permission, console_execute}
use blockops.Ui.{clicks, click_if, views, notice, page_header}
use blockops.Ui.Laws.{elements, clicks-text_notice, both_tests}
use blockops.Console.Line.{ConsoleLine}
use blockops.Console.Output.{all, warning, error, ConsoleOutput, is_empty}
use blockops.Console.CommandForm.{CommandForm}
use blockops.Console.Page.{ConsolePage}
use blockops.Console.Page.View.{
  choose, toggle, return_to_live, send, line_row, terminal_view, output_view, can_send,
  command_form_view, loaded_view, output_of, console_page,
}

not_empty : (t : Text) → not (is_empty t) ≡ ltb 0 (length t)
not_empty [] = refl
not_empty (c ∷ s) = ground arith

module _ (format : Text → Text) where
  clicks-rows : (lines : List ConsoleLine) → clicks (views (map (line_row format) lines)) ≡ []
  clicks-rows [] = simp elements
  clicks-rows (line ∷ lines) = simp (elements, clicks-rows lines)

  clicks-terminal_view : (lines : List ConsoleLine) → clicks (terminal_view format lines) ≡ []
  unfolding terminal_view
  clicks-terminal_view [] = simp elements
  clicks-terminal_view (line ∷ lines) = clicks-rows (line ∷ lines)

  clicks-output_view :
      (o : ConsoleOutput) (lines : List ConsoleLine)
      → clicks (output_view format o lines)
        ≡ choose all
          ∷ choose warning
          ∷ choose error
          ∷ toggle
          ∷ click_if (is_some o.paused_lines) return_to_live
  unfolding output_view
  clicks-output_view o lines = simp (elements, clicks-terminal_view)

module _ (m : Mutation Text Caught) (response : Option Text) where
  clicks-command_form_view :
      (f : CommandForm m.State)
      → clicks (command_form_view m response f) ≡ click_if (can_send m response f) send
  unfolding command_form_view notice
  clicks-command_form_view f = simp (elements, clicks-text_notice)

-- The output is paused, and the draft has something else than white space and no command is under
-- way, said apart from what is rendered.
abbrev pub is_paused : Option ConsoleOutput → Bool
is_paused none = false
is_paused (some o) = is_some o.paused_lines

abbrev pub is_ready : (m : Mutation Text Caught) → CommandForm m.State → Bool
is_ready m f = ltb 0 (length (trim f.command)) && not (is_pending (m.status f.execute))

can_send-is_ready :
    (m : Mutation Text Caught) (response : Option Text) (f : CommandForm m.State)
    → can_send m response f ≡ is_ready m f
can_send-is_ready m response f =
    ap (λ b. b && not (is_pending (m.status f.execute))) (not_empty (trim f.command))

output_of-is_paused :
    (format to_lower : Text → Text) (m : Mutation Text Caught) (response : Option Text)
    (o : Option ConsoleOutput)
    → is_some (output_of format to_lower m response o).paused_lines ≡ is_paused o
output_of-is_paused format to_lower m response none = refl
output_of-is_paused format to_lower m response (some o) = refl

-- Once its history is there, the page has enabled controls for exactly this: for everybody, to choose a
-- level and to pause or resume; to return to the live output exactly while it is paused; and to send a
-- command exactly with the permission to, a draft that is not blank and no command under way.
pub console_page-clicks :
    (format to_lower : Text → Text) (m : Mutation Text Caught) (response : Option Text)
    (role : Role) (f : CommandForm m.State) (p : ConsolePage) (lines : List ConsoleLine)
    → is_loading p.history ≡ false
    → p.history.error ≡ none
    → p.history.value ≡ some lines
    → clicks (console_page format to_lower m response role f p)
      ≡ choose all
        ∷ choose warning
        ∷ choose error
        ∷ toggle
        ∷ (click_if (is_paused p.output) return_to_live
            ++ click_if (has_permission role console_execute && is_ready m f) send)
unfolding console_page loaded_view page_header notice
console_page-clicks format to_lower m response role f p lines l e v =
    rw (l, e, v)
      (simp (elements, clicks-output_view, clicks-command_form_view, both_tests)
        (ap₂
          (λ b c.
            choose all
            ∷ choose warning
            ∷ choose error
            ∷ toggle
            ∷ (click_if b return_to_live
                ++ click_if (has_permission role console_execute && c) send))
          (output_of-is_paused format to_lower m response p.output)
          (can_send-is_ready m response f)))
