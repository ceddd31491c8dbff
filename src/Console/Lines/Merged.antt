-- ===== src/Console/Lines/Merged.antt =====
-- The merge of history and live lines against its specification: for each sequence number the
-- last live line, or else the last history line, in ascending order, the highest 2,000 of them.
pub mod Entries
pub mod Sorted
use blockops.Prelude.{
  ℕ, ◌-◌, ◌≤◌, ◌<◌, ◌≡◌, refl, sym, ap, ◌∙◌, ◌⊎◌, inl, inr, Option, none, some, List, length, drop,
  length-drop, All, leb, leb→le, false, Bool-cases, arith,
}
use blockops.Console.Line.{ConsoleLine}
use blockops.Console.Lines.{
  client_line_limit, slice_last, sort_by_sequence, by_sequence, merge_console_lines,
}
use blockops.Console.Lines.Window.{length-slice_last, slice_last-short}
use blockops.Console.Lines.Merged.Entries.{
  find, latest, or_else, find-by_sequence, by_sequence-Distinct,
}
use blockops.Console.Lines.Merged.Sorted.{
  IsAscending, sort_by_sequence-IsAscending, find-sort_by_sequence, drop-IsAscending, find-drop,
  find-drop_or_lower,
}

-- The line that the view should have for a sequence number.
abbrev pub preferred : ℕ → List ConsoleLine → List ConsoleLine → Option ConsoleLine
preferred q history live = or_else (latest q live) (latest q history)

pub record IsMerge (history live merged : List ConsoleLine) : Type 0 where
  pub ascending : IsAscending merged
  pub bounded : length merged ≤ client_line_limit
  pub genuine :
      (q : ℕ) (x : ConsoleLine) → find q merged ≡ some x → preferred q history live ≡ some x
  pub complete :
      (q : ℕ) (x : ConsoleLine)
      → preferred q history live ≡ some x
      → (find q merged ≡ some x)
        ⊎ ((length merged ≡ client_line_limit) × All (λ y. q < y.sequence) merged)

module _ (history live : List ConsoleLine) where
  abbrev merged_all : List ConsoleLine
  merged_all = sort_by_sequence (by_sequence history live)

  merged_all-IsAscending : IsAscending merged_all
  merged_all-IsAscending =
      sort_by_sequence-IsAscending (by_sequence history live) (by_sequence-Distinct history live)

  find-merged_all : (q : ℕ) → find q merged_all ≡ preferred q history live
  find-merged_all q =
      find-sort_by_sequence q (by_sequence history live) (by_sequence-Distinct history live)
      ∙ find-by_sequence q history live

  full :
      leb (length merged_all) client_line_limit ≡ false
      → length (slice_last client_line_limit merged_all) ≡ client_line_limit
  unfolding slice_last
  full many = ground (arith, length-drop (length merged_all - client_line_limit) merged_all)

  kept_or_full :
      (q : ℕ) (x : ConsoleLine)
      → find q merged_all ≡ some x
      → (find q (slice_last client_line_limit merged_all) ≡ some x)
        ⊎ ((length (slice_last client_line_limit merged_all) ≡ client_line_limit)
            × All (λ y. q < y.sequence) (slice_last client_line_limit merged_all))
  unfolding slice_last
  kept_or_full q x h = elim (Bool-cases (leb (length merged_all) client_line_limit)) [
    | inl few ↦ inl (rw (slice_last-short client_line_limit merged_all (leb→le _ _ few)) h)
    | inr many ↦
        elim (find-drop_or_lower (length merged_all - client_line_limit) q merged_all
          merged_all-IsAscending h) [ inl kept ↦ inl kept | inr low ↦ inr (full many, low) ]
  ]

-- `mergeConsoleLines` yields strictly ascending sequence numbers, at most 2,000 lines, only the
-- preferred line of each number, and every preferred line, unless 2,000 lines with higher numbers
-- are there.
pub merge_console_lines-IsMerge :
    (history live : List ConsoleLine) → IsMerge history live (merge_console_lines history live)
unfolding merge_console_lines
merge_console_lines-IsMerge history live = record {
  ascending = drop-IsAscending _ _ (merged_all-IsAscending history live);
  bounded = length-slice_last client_line_limit (merged_all history live);
  genuine = λ q x e.
      sym (find-merged_all history live q)
      ∙ find-drop _ q (merged_all history live) (merged_all-IsAscending history live) e;
  complete = λ q x e. kept_or_full history live q x (find-merged_all history live q ∙ e);
}
