-- ===== src/Console/CommandForm.antt =====
-- components/console-command-form.tsx: the draft of a command, its submission and the history that
-- the arrow keys browse.
--
-- `captured` is the value of `action` in the closure of the last `mutate` call's `onSuccess`.
-- `history_index` is `historyIndexRef.current + 1`, so that it starts at 0.
pub mod History
pub mod Invariant
pub mod Answers
pub mod Tests
use blockops.Prelude.{
  ℕ, zero, suc, ◌+◌, ◌-◌, min, Bool, true, false, not, ◌&&◌, Option, none, some, List, [], ◌∷◌,
  take, select, length, get_elem?, ◌==◌, if◌then◌else◌,
}
use blockops.Js.Text.{Text, same_text}
use blockops.Zod.{accept, reject, verdict, Verdict, Zod}
use blockops.Query.{is_pending, is_error, is_success, Mutation}
use blockops.Console.Schema.{console_command_schema}

pub record CommandForm (S : Type 0) : Type 0 where
  pub command : Text
  pub command_error : Option Text
  pub active_command : Option Text
  pub command_history : List Text
  pub history_index : ℕ
  pub action : ℕ
  pub captured : ℕ
  pub execute : S
  pub sent : List Text  -- the newest first

pub data Arrow : Type 0 where
  up down : Arrow

abbrev pub history_limit : ℕ
history_limit = 50

-- the new value of `commandHistoryRef.current`
unfoldable pub remember : Text → List Text → List Text
remember value history =
    take history_limit (value ∷ select (λ item. not (same_text item value)) history)

-- the entry that the arrow keys choose, or the empty draft
abbrev pub or_empty : Option Text → Text
or_empty none = []
or_empty (some t) = t

unfoldable pub history_entry : List Text → ℕ → Text
history_entry history zero = []
history_entry history (suc next) = or_empty (get_elem? history next)

abbrev pub next_index : Arrow → ℕ → ℕ → ℕ
next_index up count index = min count (index + 1)
next_index down count index = index - 1

abbrev pub same_option : Option Text → Option Text → Bool
same_option (some a) (some b) = same_text a b
same_option _ _ = false

module _ {E : Type 0} (m : Mutation Text E) where
  abbrev pub initial_form : CommandForm m.State
  initial_form = record {
    command = [];
    command_error = none;
    active_command = none;
    command_history = [];
    history_index = 0;
    action = 0;
    captured = 0;
    execute = m.initial;
    sent = [];
  }

  unfoldable pub start_draft : Text → CommandForm m.State → CommandForm m.State
  start_draft value f = record f {
    action = f.action + 1;
    command = value;
    command_error = none;
    active_command = none;
    execute = if not (is_pending (m.status f.execute)) then m.reset f.execute else f.execute;
  }

  unfoldable pub command_key_down : Arrow → CommandForm m.State → CommandForm m.State
  unfolding start_draft history_entry
  command_key_down key f =
      let moved = next_index key (length f.command_history) f.history_index in
      start_draft (history_entry f.command_history moved) (record f { history_index = moved })

  -- `submit` after the schema, in the form with the action counted and the mutation reset
  unfoldable pub submit_command : Verdict Text → CommandForm m.State → CommandForm m.State
  submit_command (reject message) f = record f { command_error = some message }
  submit_command (accept value) f = record f {
    active_command = some value;
    execute = m.mutate value f.execute;
    captured = f.action;
    sent = value ∷ f.sent;
  }

  -- the callback that `submit` passes to `mutate`
  unfoldable pub on_success : Text → CommandForm m.State → CommandForm m.State
  unfolding remember
  on_success value f = if not (f.action == f.captured) then f else record f {
    command_history = remember value f.command_history;
    command = [];
    history_index = 0;
  }

  unfoldable pub succeed_with : Option Text → CommandForm m.State → CommandForm m.State
  unfolding on_success
  succeed_with none f = f
  succeed_with (some value) f = on_success value f

  -- The server has answered: the callback runs only while the observer still follows the call, with
  -- the variables of that call.
  unfoldable pub resolved : CommandForm m.State → CommandForm m.State
  unfolding succeed_with
  resolved f =
      let settled = record f { execute = m.resolve f.execute } in
      if is_pending (m.status f.execute)
      then succeed_with (m.variables f.execute) settled
      else settled

  unfoldable pub rejected : E → CommandForm m.State → CommandForm m.State
  rejected e f = record f { execute = m.reject e f.execute }

  unfoldable pub mutation_belongs_to_surface : CommandForm m.State → Bool
  mutation_belongs_to_surface f = same_option f.active_command (m.variables f.execute)

  -- Which of the notices of a settled call is rendered.
  unfoldable pub shows_error : CommandForm m.State → Bool
  unfolding mutation_belongs_to_surface
  shows_error f = is_error (m.status f.execute) && mutation_belongs_to_surface f

  unfoldable pub shows_response : CommandForm m.State → Bool
  unfolding mutation_belongs_to_surface
  shows_response f = is_success (m.status f.execute) && mutation_belongs_to_surface f

module _ {E : Type 0} (z : Zod) (m : Mutation Text E) where
  unfoldable pub submit : CommandForm m.State → CommandForm m.State
  unfolding submit_command
  submit f =
      if is_pending (m.status f.execute)
      then f
      else submit_command m (verdict (z.safe_parse (console_command_schema z) f.command))
          (record f { action = f.action + 1; command_error = none; execute = m.reset f.execute })

pub data FormEvent (E : Type 0) : Type 0 where
  typed : Text → FormEvent E
  arrow : Arrow → FormEvent E
  submitted : FormEvent E
  answered : FormEvent E
  failed : E → FormEvent E

unfoldable pub handle :
    {E : Type 0} (z : Zod) (m : Mutation Text E)
    → FormEvent E
    → CommandForm m.State
    → CommandForm m.State
unfolding start_draft command_key_down submit resolved rejected
handle z m (typed t) f = start_draft m t f
handle z m (arrow a) f = command_key_down m a f
handle z m submitted f = submit z m f
handle z m answered f = resolved m f
handle z m (failed e) f = rejected m e f

abbrev pub run :
    {E : Type 0} (z : Zod) (m : Mutation Text E)
    → List (FormEvent E)
    → CommandForm m.State
    → CommandForm m.State
run z m [] f = f
run z m (e ∷ es) f = run z m es (handle z m e f)
