-- ===== src/Audit.antt =====
-- features/audit: audit-filters.ts and audit-page.tsx, the filters of the audit log in the address.
--
-- `OutcomeSchema` is what the code uses of zod for `auditOutcomeFilterSchema`: `z.enum` accepts
-- exactly its members.
pub mod Laws
pub mod Paging
pub mod View
pub mod Tests
use blockops.Prelude.{
  ℕ, ◌≡◌, Bool, true, false, not, ◌||◌, Option, none, some, List, [], ◌∷◌, length, leb,
  if◌then◌else◌,
}
use blockops.Js.Text.{Text, codes, same_text, trim}
use blockops.Js.Utf8.{code_points}
use blockops.Js.SearchParams.{SearchParams, get, set}

pub data OutcomeFilter : Type 0 where
  all success failure denied : OutcomeFilter

unfoldable pub outcome_text : OutcomeFilter → Text
outcome_text all = codes "all"
outcome_text success = codes "success"
outcome_text failure = codes "failure"
outcome_text denied = codes "denied"

pub record OutcomeSchema : Type 0 where
  pub safe_parse : Option Text → Option OutcomeFilter
  pub member : (o : OutcomeFilter) → safe_parse (some (outcome_text o)) ≡ some o
  pub only :
      (v : Option Text) (o : OutcomeFilter) → safe_parse v ≡ some o → v ≡ some (outcome_text o)

pub record AuditFilters : Type 0 where
  pub query : Text
  pub outcome : OutcomeFilter

abbrev pub search_max_length : ℕ
search_max_length = 200

abbrev pub query_name : Text
query_name = codes "q"

abbrev pub outcome_name : Text
outcome_name = codes "outcome"

abbrev pub or_text : Option Text → Text
or_text none = []
or_text (some t) = t

abbrev pub or_all : Option OutcomeFilter → OutcomeFilter
or_all none = all
or_all (some o) = o

abbrev pub short_query : Text → Text
short_query query = if leb (length (code_points query)) search_max_length then query else []

abbrev pub parse_outcome_filter : OutcomeSchema → Option Text → OutcomeFilter
parse_outcome_filter os value = or_all (os.safe_parse value)

unfoldable pub parse_audit_search_params : OutcomeSchema → SearchParams → AuditFilters
parse_audit_search_params os params = record {
  query = short_query (or_text (get query_name params));
  outcome = parse_outcome_filter os (get outcome_name params);
}

abbrev pub with_query : Text → SearchParams
with_query [] = []
with_query (c ∷ s) = set query_name (c ∷ s) []

unfoldable pub audit_filter_search_params : AuditFilters → SearchParams
audit_filter_search_params filters =
    set outcome_name (outcome_text filters.outcome) (with_query filters.query)

abbrev is_blank : Text → Bool
is_blank [] = true
is_blank (c ∷ s) = false

abbrev is_all : OutcomeFilter → Bool
is_all all = true
is_all _ = false

unfoldable pub has_audit_filters : AuditFilters → Bool
unfolding trim
has_audit_filters filters = not (is_blank (trim filters.query)) || not (is_all filters.outcome)

-- `updateFilters` of the page: the address after a change of the controls.
unfoldable pub update_filters : Text → OutcomeFilter → SearchParams
update_filters next_query next_outcome =
    set outcome_name (outcome_text next_outcome) (with_query next_query)

abbrev pub same_outcome : Option Text → Text → Bool
same_outcome none t = false
same_outcome (some u) t = same_text u t

-- The effect of the page: the address after it.
unfoldable pub canonical : OutcomeSchema → SearchParams → SearchParams
unfolding parse_audit_search_params
canonical os params =
    let outcome = outcome_text (parse_audit_search_params os params).outcome in
    if same_outcome (get outcome_name params) outcome
    then params
    else set outcome_name outcome params
