-- ===== src/Console/CommandForm/Answers.antt =====
-- What an answer and an arrow key do to the form.
use blockops.Prelude.{
  ℕ, zero, suc, ◌≤◌, ◌≡◌, ◌≢◌, refl, some, List, [], length, get_elem?, ◌⊎◌, get_elem?-below, inl,
  inr, arith,
}
use blockops.Js.Text.{Text}
use blockops.Query.{pending, Mutation}
use blockops.Console.CommandForm.{
  CommandForm, Arrow, remember, history_entry, start_draft, command_key_down, on_success,
  succeed_with, resolved,
}
use blockops.Console.CommandForm.History.{next_index-IsHistory}
use blockops.Console.CommandForm.Invariant.{IsTidy}

answer_fresh :
    {E : Type 0} (m : Mutation Text E) (f : CommandForm m.State) (v : Text)
    → m.variables f.execute ≡ some v
    → m.status f.execute ≡ pending
    → f.action ≡ f.captured
    → ((resolved m f).command ≡ [])
      × ((resolved m f).command_history ≡ remember v f.command_history)
      × ((resolved m f).history_index ≡ 0)
unfolding resolved succeed_with on_success
answer_fresh m f v e s a = ground arith

answer_late :
    {E : Type 0} (m : Mutation Text E) (f : CommandForm m.State) (v : Text)
    → m.variables f.execute ≡ some v
    → m.status f.execute ≡ pending
    → f.action ≢ f.captured
    → resolved m f ≡ record f { execute = m.resolve f.execute }
unfolding resolved succeed_with on_success
answer_late m f v e s a = ground arith

-- When a command succeeds and nothing was typed, browsed or submitted since, it becomes the newest
-- entry of the history and the draft is cleared; otherwise the draft, the history and its index
-- stay as they are.
pub resolved-draft_or_late :
    {E : Type 0} (m : Mutation Text E) (f : CommandForm m.State) (v : Text)
    → m.variables f.execute ≡ some v
    → m.status f.execute ≡ pending
    → (f.action ≡ f.captured
        → ((resolved m f).command ≡ [])
          × ((resolved m f).command_history ≡ remember v f.command_history)
          × ((resolved m f).history_index ≡ 0))
      × (f.action ≢ f.captured → resolved m f ≡ record f { execute = m.resolve f.execute })
resolved-draft_or_late m f v e s = (answer_fresh m f v e s, answer_late m f v e s)

history_entry-get :
    (h : List Text) (i : ℕ)
    → i ≤ length h
    → (i ≡ 0) × (history_entry h i ≡ [])
      ⊎ (next : ℕ) × (i ≡ suc next) × (get_elem? h next ≡ some (history_entry h i))
unfolding history_entry
history_entry-get h zero k = inl (refl, refl)
history_entry-get h (suc i) k = let (t, e) = get_elem?-below h i k in inr (i, refl, rw e refl)

-- An arrow key never reads past the history: the draft becomes the entry at the new index, or empty
-- at index 0.
pub command_key_down-entry :
    {E : Type 0} (m : Mutation Text E) (a : Arrow) (f : CommandForm m.State)
    → IsTidy m f
    → let g = command_key_down m a f in
      (g.history_index ≡ 0) × (g.command ≡ [])
      ⊎ (next : ℕ) × (g.history_index ≡ suc next)
        × (get_elem? f.command_history next ≡ some g.command)
unfolding command_key_down start_draft history_entry
command_key_down-entry m a f h =
    history_entry-get f.command_history _
      (next_index-IsHistory a f.command_history f.history_index h.history).index_bound
