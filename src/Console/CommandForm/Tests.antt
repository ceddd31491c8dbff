-- ===== src/Console/CommandForm/Tests.antt =====
-- The command form at concrete events.
use blockops.Prelude.{ℕ, ◌≡◌, refl, List, [], ◌∷◌}
use blockops.Js.Text.{Text, codes, trim}
use blockops.Js.Utf8.{utf8_length}
use blockops.Zod.Direct.{direct}
use blockops.Query.{Mutation}
use blockops.Query.Simple.{simple}
use blockops.Console.Schema.{console_command_schema, has_line_break_or_null}
use blockops.Console.CommandForm.{
  CommandForm, up, FormEvent, typed, arrow, submitted, answered, initial_form, run, handle,
  submit_command,
}
use blockops.Console.CommandForm.Invariant.{IsTidy, run-IsTidy}

abbrev mutation : Mutation Text ℕ
mutation = simple Text ℕ

abbrev events : List (FormEvent ℕ)
events =
    typed (codes "list")
    ∷ submitted
    ∷ answered
    ∷ typed (codes "say hi")
    ∷ submitted
    ∷ typed (codes "stop")
    ∷ answered
    ∷ arrow up
    ∷ arrow up
    ∷ []

-- The late answer to the second command leaves the draft and the history alone.
browsed : (run direct mutation events (initial_form mutation)).command_history ≡ codes "list" ∷ []
unfolding handle console_command_schema has_line_break_or_null trim utf8_length submit_command
browsed = refl

run-IsTidy_example : IsTidy mutation (run direct mutation events (initial_form mutation))
run-IsTidy_example = run-IsTidy direct mutation events

abbrev sending : CommandForm mutation.State
sending = record (initial_form mutation) {
  command = codes "list";
  execute = mutation.mutate (codes "list") mutation.initial;
}
