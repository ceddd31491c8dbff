-- ===== src/Audit/Paging.antt =====
-- features/audit: audit-query.ts, use-audit-events.ts, get-audit-events.ts and the pages that
-- audit-page.tsx shows, over an infinite query.
--
-- `Event` is `AuditEvent`, whose fields do not matter here. `serve` stands for the API: the page that
-- it answers a cursor with, while the log does not change.
pub mod Whole
pub mod Tests
use blockops.Prelude.{ℕ, Option, none, some, List, [], ◌∷◌, ◌++◌}
use blockops.Js.Text.{Text, codes}
use blockops.Js.SearchParams.{SearchParams, set}
use blockops.Query.{InfiniteQuery}
use blockops.Audit.{AuditFilters, audit_filter_search_params}

pub record AuditPage (Event : Type 0) : Type 0 where
  pub events : List Event
  pub next_cursor : Option Text

abbrev pub page_limit : Text
page_limit = codes "100"

-- `if (cursor) …`
abbrev pub with_cursor : Option Text → SearchParams → SearchParams
with_cursor none params = params
with_cursor (some []) params = params
with_cursor (some (c ∷ s)) params = set (codes "cursor") (c ∷ s) params

-- The parameters that `getAuditEvents` asks with.
unfoldable pub audit_events_params : AuditFilters → Option Text → SearchParams
audit_events_params filters cursor =
    with_cursor cursor (set (codes "limit") page_limit (audit_filter_search_params filters))

abbrev pub initial_audit_cursor : Option Text
initial_audit_cursor = none

-- `getNextPageParam`: `undefined`, where there is no next page, is an outer `none`.
unfoldable pub get_next_page_param : {Event : Type 0} → AuditPage Event → Option (Option Text)
get_next_page_param page = elim page.next_cursor [ none ↦ none | some c ↦ some (some c) ]

-- `pages.flatMap((page) => page.events)`
abbrev pub flat_events : {Event : Type 0} → List (AuditPage Event) → List Event
flat_events [] = []
flat_events (page ∷ pages) = page.events ++ flat_events pages

abbrev pub Infinite : Type 0 → Type 0 → Type 1
Infinite Event E =
    InfiniteQuery (Option Text) (AuditPage Event) E initial_audit_cursor get_next_page_param

-- The query's events: a fetch is asked for, and is answered with the page of its cursor, or fails.
pub data PagingEvent (E : Type 0) : Type 0 where
  asked_more answered : PagingEvent E
  failed : E → PagingEvent E

module _ {Event E : Type 0} (q : Infinite Event E) (serve : Option Text → AuditPage Event) where
  -- What the page shows.
  abbrev pub shown : q.State → List Event
  shown s = flat_events (q.pages s)

  abbrev pub answer : Option (Option Text) → q.State → q.State
  answer none s = s
  answer (some cursor) s = q.resolve (serve cursor) s

  unfoldable pub handle : PagingEvent E → q.State → q.State
  handle asked_more s = q.fetch s
  handle answered s = answer (q.asked s) s
  handle (failed e) s = q.reject e s

  abbrev pub run : List (PagingEvent E) → q.State → q.State
  run [] s = s
  run (e ∷ es) s = run es (handle e s)

  -- `hasNextPage`, once there is a page
  abbrev pub next_after : List (AuditPage Event) → Option (Option Text)
  next_after pages = blockops.Query.next_param initial_audit_cursor get_next_page_param pages
