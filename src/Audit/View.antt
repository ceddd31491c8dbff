-- ===== src/Audit/View.antt =====
-- features/audit: what audit-page.tsx, audit-filter-controls.tsx and audit-results.tsx render.
--
-- `write` stands for the text of `URLSearchParams`, `stringify` for `JSON.stringify` and `keys` for
-- `Object.keys` on the details of an event, and `format` for the dates of `Intl`. The caption and the
-- heads of the table are left out.
pub mod Laws
use blockops.Prelude.{
  ℕ, Bool, true, false, not, ◌&&◌, ◌||◌, Option, none, some, List, [], ◌∷◌, ◌++◌, map, length, ltb,
  is_some, if◌then◌else◌,
}
use blockops.Js.Text.{Text, codes, slice_to}
use blockops.Js.SearchParams.{SearchParams}
use blockops.Formatters.{format_date}
use blockops.Ui.{
  Tone, good, warn, bad, View, nothing, words, pill, button, link, input, secondary, standard,
  views, beside, shown_if, alert, region, loading_state, error_state, empty_state, page_header,
}
use blockops.Api.Error.{Caught, safe_error_message}
use blockops.Audit.{
  OutcomeFilter, all, success, failure, denied, outcome_text, AuditFilters,
  audit_filter_search_params, has_audit_filters,
}
use blockops.Audit.Paging.{AuditPage, flat_events}

-- `auditOutcomeSchema`
pub data Outcome : Type 0 where
  succeeded failed refused : Outcome

abbrev pub event_outcome_text : Outcome → Text
event_outcome_text succeeded = codes "success"
event_outcome_text failed = codes "failure"
event_outcome_text refused = codes "denied"

unfoldable pub outcome_tone : Outcome → Tone
outcome_tone succeeded = good
outcome_tone refused = warn
outcome_tone failed = bad

pub record AuditEvent (Details : Type 0) : Type 0 where
  pub id : Text
  pub occurred_at : Text
  pub user_id : Option Text
  pub username : Option Text
  pub action : Text
  pub target : Text
  pub source_ip : Text
  pub outcome : Outcome
  pub details : Option Details

-- What the page reads of the infinite query.
pub record AuditQuery (Details : Type 0) : Type 0 where
  pub is_loading : Bool
  pub error : Option Caught
  pub pages : Option (List (AuditPage (AuditEvent Details)))
  pub has_next_page : Bool
  pub is_fetching_next_page : Bool
  pub is_fetch_next_page_error : Bool

-- A download, a choice of an outcome, `fetchNextPage`, or `refetch`.
pub data Click : Type 0 where
  download : Text → Click
  choose : OutcomeFilter → Click
  fetch_next_page refetch : Click

-- The tests of `formatDetails` on the keys and on the written details.
abbrev pub cut : Text → Text
cut value = if ltb 180 (length value) then slice_to 180 value ++ codes "…" else value

abbrev pub unless_empty : List Text → Text → Text
unless_empty [] t = codes "—"
unless_empty (key ∷ keys) t = t

abbrev pub actor : Option Text → Text
actor none = codes "Unauthenticated"
actor (some []) = codes "Unauthenticated"
actor (some (c ∷ s)) = c ∷ s

module _ {Details : Type 0} (keys : Details → List Text) (stringify : Details → Text)
    (format : Text → Option Text) (write : SearchParams → Text) where
  unfoldable pub format_details : Option Details → Text
  format_details none = codes "—"
  format_details (some details) = unless_empty (keys details) (cut (stringify details))

  -- The cells of a row, in the order of the columns.
  unfoldable pub event_row : AuditEvent Details → View Click
  event_row event = views (
      words (format_date format (some event.occurred_at))
      ∷ pill (outcome_tone event.outcome) (event_outcome_text event.outcome)
      ∷ words (actor event.username)
      ∷ words event.action
      ∷ words event.target
      ∷ words event.source_ip
      ∷ words (format_details event.details)
      ∷ [])

  -- audit-results.tsx
  unfoldable pub audit_results : List (AuditEvent Details) → Bool → View Click
  audit_results [] true =
      empty_state (codes "No matching audit events")
        (codes "Change the filters or perform an administrative action.") nothing
  audit_results [] false =
      empty_state (codes "No audit events yet") (codes "Administrative actions will appear here.")
        nothing
  audit_results (event ∷ events) filtered = views (map event_row (event ∷ events))

  -- audit-filter-controls.tsx
  abbrev outcome_button : OutcomeFilter → View Click
  outcome_button o = button standard (outcome_text o) true (choose o)

  unfoldable pub audit_filter_controls : AuditFilters → View Click
  audit_filter_controls filters =
      beside (input filters.query)
        (views (map outcome_button (all ∷ success ∷ failure ∷ denied ∷ [])))

  unfoldable pub audit_export_url : AuditFilters → Text
  audit_export_url filters =
      codes "/api/v1/fleet/audit/export?" ++ write (audit_filter_search_params filters)

  abbrev error_text : Option Caught → Text
  error_text none = codes "Something went wrong."
  error_text (some e) = safe_error_message e

  abbrev more_label : AuditQuery Details → Text
  more_label q =
      if q.is_fetching_next_page
      then codes "Loading more"
      else if q.is_fetch_next_page_error
      then codes "Try load more again"
      else codes "Load more"

  abbrev pub events_of : Option (List (AuditPage (AuditEvent Details))) → List (AuditEvent Details)
  events_of none = []
  events_of (some pages) = flat_events pages

  unfoldable pub loaded_view : AuditFilters → AuditQuery Details → View Click
  loaded_view filters q = views (
      page_header (some (codes "Administrative evidence")) (codes "Audit log")
        (codes
          "Authentication, authorization, Minecraft, world, backup, user, and integration actions.")
        (link (codes "Export CSV") (download (audit_export_url filters)))
      ∷ audit_filter_controls filters
      ∷ audit_results (events_of q.pages) (has_audit_filters filters)
      ∷ shown_if q.is_fetch_next_page_error (region alert (words (error_text q.error)))
      ∷ shown_if q.has_next_page
          (button secondary (more_label q) (not q.is_fetching_next_page) fetch_next_page)
      ∷ [])

  unfoldable pub audit_page : AuditFilters → AuditQuery Details → View Click
  audit_page filters q =
      if q.is_loading
      then loading_state (codes "Loading administrative evidence")
      else if is_some q.error && not (is_some q.pages)
      then error_state (error_text q.error) (some refetch)
      else loaded_view filters q
