-- ===== src/Audit/Paging/Tests.antt =====
-- A log of three events in two pages.
use blockops.Prelude.{
  ℕ, ◌+◌, ◌≡◌, ◌≤◌, refl, ap, Bool, true, false, Bool-cases, Option, none, some, List, [], ◌∷◌,
  length, take, drop, arith,
}
use blockops.Js.SearchParams.{set}
use blockops.Js.Usv.{to_usv_string}
use blockops.Js.Utf8.{is_high_surrogate, is_low_surrogate}
use blockops.Js.Text.{Text, codes, same_text}
use blockops.Query.SimplePages.{simple_pages}
use blockops.Audit.{denied, audit_filter_search_params, outcome_text}
use blockops.Audit.Paging.{
  AuditPage, initial_audit_cursor, get_next_page_param, Infinite, PagingEvent, asked_more, answered,
  failed, shown, handle, run, next_after, audit_events_params,
}
use blockops.Audit.Paging.Whole.{Pages, run-whole}

abbrev log : List ℕ
log = 7 ∷ 8 ∷ 9 ∷ []

abbrev second : Text
second = codes "c2"

abbrev page_at : Bool → AuditPage ℕ
page_at true = record { events = 9 ∷ []; next_cursor = none }
page_at false = record { events = []; next_cursor = none }

abbrev serve : Option Text → AuditPage ℕ
serve none = record { events = 7 ∷ 8 ∷ []; next_cursor = some second }
serve (some t) = page_at (same_text t second)

abbrev place_at : Bool → ℕ
place_at true = 2
place_at false = 3

abbrev place : Option Text → ℕ
place none = 0
place (some t) = place_at (same_text t second)

page_at_slice :
    (b : Bool) → (page_at b).events ≡ take (length (page_at b).events) (drop (place_at b) log)
page_at_slice true = refl
page_at_slice false = refl

serve_slice :
    (c : Option Text) → (serve c).events ≡ take (length (serve c).events) (drop (place c) log)
serve_slice none = refl
serve_slice (some t) = page_at_slice (same_text t second)

serve_next :
    (c : Option Text) (d : Text)
    → (serve c).next_cursor ≡ some d
    → place (some d) ≡ place c + length (serve c).events
serve_next none d e = let same : d ≡ second = cc in ap (λ t. place (some t)) same
serve_next (some t) d e = ground (arith, Bool-cases (same_text t second))

serve_last :
    (c : Option Text)
    → (serve c).next_cursor ≡ none
    → length log ≤ place c + length (serve c).events
serve_last none e = absurd cc
serve_last (some t) e = ground (arith, Bool-cases (same_text t second))

log-Pages : Pages log serve
log-Pages = record {
  place = place;
  first = refl;
  slice = serve_slice;
  next = serve_next;
  last = serve_last;
}

abbrev query : Infinite ℕ ℕ
query = simple_pages (Option Text) (AuditPage ℕ) ℕ initial_audit_cursor get_next_page_param

-- The first page, a failure, the second page, and a fetch that finds no further one.
abbrev fetches : List (PagingEvent ℕ)
fetches =
    asked_more
    ∷ answered
    ∷ asked_more
    ∷ failed 5
    ∷ asked_more
    ∷ answered
    ∷ asked_more
    ∷ answered
    ∷ []

run-whole_example :
    let s = run query serve fetches query.initial in
    (shown query serve s ≡ take (length (shown query serve s)) log)
    × (next_after query serve (query.pages s) ≡ none → shown query serve s ≡ log)
run-whole_example = run-whole query log serve fetches log-Pages

all_three : shown query serve (run query serve fetches query.initial) ≡ log
unfolding handle get_next_page_param
all_three = refl

asked_params :
    audit_events_params (record { query = []; outcome = denied }) (some second)
    ≡ (codes "outcome", codes "denied")
      ∷ (codes "limit", codes "100")
      ∷ (codes "cursor", second)
      ∷ []
unfolding audit_events_params audit_filter_search_params outcome_text set to_usv_string
    is_high_surrogate is_low_surrogate
asked_params = refl
