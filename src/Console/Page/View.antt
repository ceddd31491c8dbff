-- ===== src/Console/Page/View.antt =====
-- What console-page.tsx, components/console-output.tsx and components/console-command-form.tsx
-- render.
--
-- `format` stands for `toLocaleTimeString`, `to_lower` for `toLowerCase`, and `response` is
-- `execute.data.response`. The placeholders and the labels for screen readers are left out.
pub mod Laws
use blockops.Prelude.{
  Bool, true, false, not, ◌&&◌, ◌||◌, Option, none, some, List, [], ◌∷◌, ◌++◌, map, length, is_some,
  if◌then◌else◌,
}
use blockops.Js.Text.{Text, codes, trim}
use blockops.Js.Number.{to_text}
use blockops.Query.{QueryResult, is_loading, is_pending, Mutation}
use blockops.Api.Error.{Caught, safe_error_message}
use blockops.Auth.Permissions.{Role, has_permission, console_execute}
use blockops.Ui.{
  Tone, good, warn, bad, View, nothing, words, button, input, status_pill, secondary, standard,
  views, beside, shown_if, text_if, danger, success, info, notice, loading_state, error_state,
  page_header,
}
use blockops.Console.Line.{ConsoleLine}
use blockops.Console.Stream.{ConnectionState, connecting, connected, reconnecting, disconnected}
use blockops.Console.Hook.{use_console_stream}
use blockops.Console.Output.{LevelFilter, all, warning, error, ConsoleOutput, is_empty}
use blockops.Console.CommandForm.{CommandForm, shows_error, shows_response}
use blockops.Console.Page.{ConsolePage, terminal}

pub data Click : Type 0 where
  choose : LevelFilter → Click
  toggle return_to_live send retry : Click

abbrev pub level_text : LevelFilter → Text
level_text all = codes "all"
level_text warning = codes "warning"
level_text error = codes "error"

abbrev pub connection_text : ConnectionState → Text
connection_text connecting = codes "connecting"
connection_text connected = codes "connected"
connection_text reconnecting = codes "reconnecting"
connection_text disconnected = codes "disconnected"

abbrev pub connection_tone : ConnectionState → Tone
connection_tone connected = good
connection_tone disconnected = bad
connection_tone _ = warn

abbrev level_button : LevelFilter → View Click
level_button l = button standard (level_text l) true (choose l)

module _ (format : Text → Text) where
  abbrev line_row : ConsoleLine → View Click
  line_row line = beside (words (format line.timestamp)) (words line.text)

  unfoldable pub terminal_view : List ConsoleLine → View Click
  terminal_view [] = words (codes "No console lines match this view.")
  terminal_view (line ∷ lines) = views (map line_row (line ∷ lines))

  -- console-output.tsx, with `filtered`
  unfoldable pub output_view : ConsoleOutput → List ConsoleLine → View Click
  unfolding terminal_view
  output_view o lines =
      let paused = is_some o.paused_lines in
      views (
        input o.search
        ∷ views (map level_button (all ∷ warning ∷ error ∷ []))
        ∷ button secondary (if paused then codes "Resume" else codes "Pause") true toggle
        ∷ words (to_text (length lines) ++ codes " lines shown · 2,000 line client limit")
        ∷ terminal_view lines
        ∷ shown_if paused (button standard (codes "Return to live output") true return_to_live)
        ∷ [])

-- console-command-form.tsx
module _ (m : Mutation Text Caught) (response : Option Text) where
  abbrev error_text : Option Caught → Text
  error_text none = codes "Something went wrong."
  error_text (some e) = safe_error_message e

  abbrev response_text : Option Text → Text
  response_text none = codes "Command accepted with no response."
  response_text (some t) = if is_empty t then codes "Command accepted with no response." else t

  abbrev pub can_send : CommandForm m.State → Bool
  can_send f = not (is_empty (trim f.command)) && not (is_pending (m.status f.execute))

  unfoldable pub command_form_view : CommandForm m.State → View Click
  command_form_view f = views (
      input f.command
      ∷ button standard (if is_pending (m.status f.execute) then codes "Sending…" else codes "Send")
          (can_send f) send
      ∷ text_if (λ t. notice danger (words t)) f.command_error
      ∷ shown_if (shows_error m f) (notice danger (words (error_text (m.error f.execute))))
      ∷ shown_if (shows_response m f) (
          notice success
            (views (words (codes "RCON response:") ∷ words (response_text response) ∷ [])))
      ∷ [])

-- console-page.tsx after its guards
module _ (format : Text → Text) (to_lower : Text → Text) (m : Mutation Text Caught)
    (response : Option Text) where
  unfoldable pub loaded_view : Role → CommandForm m.State → ConsolePage → ConsoleOutput → View Click
  loaded_view role f p o =
      let connection = (use_console_stream p.stream).connection in
      views (
        page_header (some (codes "RCON + latest.log")) (codes "Console")
          (codes "A bounded, sanitized Minecraft console. Commands never reach a host shell.")
          (status_pill (connection_tone connection) (connection_text connection))
        ∷ output_view format o (terminal to_lower p)
        ∷ (if has_permission role console_execute
            then command_form_view m response f
            else notice info (
                words (
                  codes
                    "Viewer access is read-only. Ask an administrator for the Operator role to submit Minecraft commands.")))
        ∷ [])

  abbrev pub output_of : Option ConsoleOutput → ConsoleOutput
  output_of none = blockops.Console.Page.initial_output
  output_of (some o) = o

  unfoldable pub console_page : Role → CommandForm m.State → ConsolePage → View Click
  console_page role f p =
      if is_loading p.history
      then loading_state (codes "Loading bounded console history")
      else elim p.history.error [
        | some e ↦ error_state (safe_error_message e) (some retry)
        | none ↦ elim p.history.value [
          | none ↦ loading_state (codes "Loading bounded console history")
          | some lines ↦ loaded_view role f p (output_of p.output)
        ]
      ]
