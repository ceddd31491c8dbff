-- ===== src/Console/CommandForm/Invariant.antt =====
-- What holds of the command form after any events.
use blockops.Prelude.{
  ℕ, ◌≡◌, ◌≢◌, refl, Option, none, some, List, [], ◌∷◌, length, ap, sym, ◌∙◌, All, ◌==◌, Bool-cases,
  inl, inr, arith,
}
use blockops.Js.Text.{Text}
use blockops.Zod.{accept, reject, Verdict, Zod}
use blockops.Query.{idle, pending, is_pending, Mutation}
use blockops.Console.Schema.{console_command_schema_iff}
use blockops.Console.CommandForm.{
  CommandForm, Arrow, history_entry, next_index, initial_form, start_draft, command_key_down,
  submit_command, on_success, succeed_with, resolved, rejected, submit, FormEvent, typed, arrow,
  submitted, answered, failed, handle, run,
}
use blockops.Console.CommandForm.History.{
  IsCommand, IsHistory, next_index-IsHistory, remember-IsHistory,
}

module _ {E : Type 0} (m : Mutation Text E) where
  pub record IsTidy (f : CommandForm m.State) : Type 0 where
    pub history : IsHistory f.command_history f.history_index
    pub call_command : (v : Text) → m.variables f.execute ≡ some v → IsCommand v
    pub active_call :
        (v : Text)
        → f.active_command ≡ some v
        → m.status f.execute ≢ idle
        → m.variables f.execute ≡ some v
    pub sent_commands : All IsCommand f.sent

  initial_form-IsTidy : IsTidy (initial_form m)
  initial_form-IsTidy = record {
    history = record {
      bound = omega arith;
      distinct = tt;
      commands = tt;
      index_bound = omega arith;
    };
    call_command = λ v e. let n = m.initial_variables in cc;
    active_call = λ v e s. cc;
    sent_commands = tt;
  }

  start_draft-IsTidy :
      (t : Text) (f : CommandForm m.State) (i : ℕ)
      → IsHistory f.command_history i
      → IsTidy f
      → IsTidy (start_draft m t (record f { history_index = i }))
  unfolding start_draft
  start_draft-IsTidy t f i k h = record {
    history = k;
    call_command = λ v e. ground (arith, m.reset_variables f.execute, h.call_command v);
    active_call = λ v e s. cc;
    sent_commands = h.sent_commands;
  }

  command_key_down-IsTidy :
      (a : Arrow) (f : CommandForm m.State) → IsTidy f → IsTidy (command_key_down m a f)
  unfolding command_key_down
  command_key_down-IsTidy a f h =
      let moved = next_index a (length f.command_history) f.history_index in
      start_draft-IsTidy (history_entry f.command_history moved) f moved
        (next_index-IsHistory a f.command_history f.history_index h.history) h

  submit_command-IsTidy :
      (v : Verdict Text) (f : CommandForm m.State)
      → ((u : Text) → v ≡ accept u → IsCommand u)
      → IsTidy f
      → IsTidy (submit_command m v f)
  unfolding submit_command
  submit_command-IsTidy (reject t) f ok h = record {
    history = h.history;
    call_command = h.call_command;
    active_call = h.active_call;
    sent_commands = h.sent_commands;
  }
  submit_command-IsTidy (accept u) f ok h = record {
    history = h.history;
    call_command =
        λ v e. let k = ok u refl in let q = m.mutate_variables u f.execute in ground arith;
    active_call = λ v e s. let q = m.mutate_variables u f.execute in cc;
    sent_commands = (ok u refl, h.sent_commands);
  }

  on_success-IsTidy :
      (v : Text) (f : CommandForm m.State) → IsCommand v → IsTidy f → IsTidy (on_success m v f)
  unfolding on_success
  on_success-IsTidy v f c h = elim (Bool-cases (f.action == f.captured)) [
    | inl e ↦
        let k = remember-IsHistory v f.command_history f.history_index c h.history in
        let calls = h.call_command in
        let active = h.active_call in
        let sent = h.sent_commands in
        rw e
          (record { history = k; call_command = calls; active_call = active; sent_commands = sent })
    | inr e ↦ rw e h
  ]

  succeed_with-IsTidy :
      (o : Option Text) (f : CommandForm m.State)
      → ((v : Text) → o ≡ some v → IsCommand v)
      → IsTidy f
      → IsTidy (succeed_with m o f)
  unfolding succeed_with
  succeed_with-IsTidy none f c h = h
  succeed_with-IsTidy (some v) f c h = on_success-IsTidy v f (c v refl) h

  settled-IsTidy :
      (f : CommandForm m.State) (s : m.State)
      → m.variables s ≡ m.variables f.execute
      → (m.status f.execute ≡ idle → m.status s ≡ idle)
      → IsTidy f
      → IsTidy (record f { execute = s })
  settled-IsTidy f s v i h = record {
    history = h.history;
    call_command = λ u e. h.call_command u (sym v ∙ e);
    active_call = λ u a n. v ∙ h.active_call u a (λ q. n (i q));
    sent_commands = h.sent_commands;
  }

  idle_detached : (s : m.State) → m.status s ≡ idle → m.status s ≢ pending
  idle_detached s e p = cc

  resolved-IsTidy : (f : CommandForm m.State) → IsTidy f → IsTidy (resolved m f)
  unfolding resolved
  resolved-IsTidy f h =
      let idles = λ (i : m.status f.execute ≡ idle).
        ap (m.status) (m.resolve_detached f.execute (idle_detached f.execute i)) ∙ i in
      let s = settled-IsTidy f (m.resolve f.execute) (m.resolve_variables f.execute) idles h in
      let commands = h.call_command in
      elim (Bool-cases (is_pending (m.status f.execute))) [
        | inl e ↦ rw e (succeed_with-IsTidy (m.variables f.execute) _ commands s)
        | inr e ↦ rw e s
      ]

  rejected-IsTidy : (e : E) (f : CommandForm m.State) → IsTidy f → IsTidy (rejected m e f)
  unfolding rejected
  rejected-IsTidy e f h =
      settled-IsTidy f (m.reject e f.execute) (m.reject_variables e f.execute)
        (λ i. ap (m.status) (m.reject_detached e f.execute (idle_detached f.execute i)) ∙ i) h

module _ {E : Type 0} (z : Zod) (m : Mutation Text E) where
  submit-IsTidy : (f : CommandForm m.State) → IsTidy m f → IsTidy m (submit z m f)
  unfolding submit
  submit-IsTidy f h = elim (Bool-cases (is_pending (m.status f.execute))) [
    | inl e ↦ rw e h
    | inr e ↦ rw e (
        submit_command-IsTidy m _ _
          (λ u a. let k = (console_command_schema_iff z f.command u).0 a in (k.2, k.3))
          (record {
            history = h.history;
            call_command = λ v q. let n = m.reset_variables f.execute in cc;
            active_call = λ v q i. elim (i (m.reset_status f.execute)) [ ];
            sent_commands = h.sent_commands;
          }))
  ]

  handle-IsTidy :
      (e : FormEvent E) (f : CommandForm m.State) → IsTidy m f → IsTidy m (handle z m e f)
  unfolding handle
  handle-IsTidy (typed t) f h = start_draft-IsTidy m t f f.history_index h.history h
  handle-IsTidy (arrow a) f h = command_key_down-IsTidy m a f h
  handle-IsTidy submitted f h = submit-IsTidy f h
  handle-IsTidy answered f h = resolved-IsTidy m f h
  handle-IsTidy (failed e) f h = rejected-IsTidy m e f h

  run-IsTidy' :
      (es : List (FormEvent E)) (f : CommandForm m.State) → IsTidy m f → IsTidy m (run z m es f)
  run-IsTidy' [] f h = h
  run-IsTidy' (e ∷ es) f h = run-IsTidy' es (handle z m e f) (handle-IsTidy e f h)

-- After any events, the history holds at most 50 commands, no two alike, each of 1 to 4,096 bytes;
-- the index of the arrow keys lies in it; every command that was sent has 1 to 4,096 bytes; and
-- while a command is the active one, a call that is not idle is the call for that command.
pub run-IsTidy :
    {E : Type 0} (z : Zod) (m : Mutation Text E) (es : List (FormEvent E))
    → IsTidy m (run z m es (initial_form m))
run-IsTidy z m es = run-IsTidy' z m es (initial_form m) (initial_form-IsTidy m)
