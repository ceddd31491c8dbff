-- ===== src/Audit/Tests.antt =====
-- The filters at concrete addresses.
use blockops.Prelude.{
  ◌≤◌, ◌≡◌, refl, Option, none, some, List, [], ◌∷◌, length, if◌then◌else◌, Bool-cases, inl, inr,
  arith,
}
use blockops.Js.Text.{Text, codes, same_text}
use blockops.Js.Text.Laws.{same_text_iff}
use blockops.Js.Utf8.{is_high_surrogate, is_low_surrogate, code_points}
use blockops.Js.Usv.{to_usv_string}
use blockops.Js.SearchParams.{SearchParams}
use blockops.Audit.{
  OutcomeFilter, all, success, failure, denied, outcome_text, OutcomeSchema, AuditFilters,
  search_max_length, parse_audit_search_params, audit_filter_search_params,
}
use blockops.Audit.Laws.{parse-audit_filter_search_params}

abbrev members : List OutcomeFilter
members = all ∷ success ∷ failure ∷ denied ∷ []

abbrev find_member : Text → List OutcomeFilter → Option OutcomeFilter
unfolding outcome_text
find_member t [] = none
find_member t (o ∷ os) =
    let rest = find_member t os in if same_text t (outcome_text o) then some o else rest

find_member-only :
    (t : Text) (os : List OutcomeFilter) (o : OutcomeFilter)
    → find_member t os ≡ some o
    → some t ≡ some (outcome_text o)
unfolding find_member
find_member-only t [] o e = cc
find_member-only t (m ∷ os) o e = elim (Bool-cases (same_text t (outcome_text m))) [
  | inl s ↦ let found = rw s at e in let named = (same_text_iff t (outcome_text m)).0 s in cc
  | inr s ↦ find_member-only t os o (rw s at e)
]

abbrev parse : Option Text → Option OutcomeFilter
parse none = none
parse (some t) = find_member t members

parse-member : (o : OutcomeFilter) → parse (some (outcome_text o)) ≡ some o
unfolding outcome_text find_member
parse-member all = refl
parse-member success = refl
parse-member failure = refl
parse-member denied = refl

parse-only : (v : Option Text) (o : OutcomeFilter) → parse v ≡ some o → v ≡ some (outcome_text o)
parse-only none o e = cc
parse-only (some t) o e = find_member-only t members o e

abbrev schema : OutcomeSchema
schema = record { safe_parse = parse; member = parse-member; only = parse-only }

abbrev filters : AuditFilters
filters = record { query = codes "ada"; outcome = denied }

short : length (code_points filters.query) ≤ search_max_length
unfolding code_points
short = omega arith

parse-audit_filter_search_params_example :
    parse_audit_search_params schema (audit_filter_search_params filters)
    ≡ record filters { query = to_usv_string filters.query }
parse-audit_filter_search_params_example = parse-audit_filter_search_params schema filters short

abbrev address : SearchParams
address =
    (codes "outcome", codes "bogus")
    ∷ (codes "q", codes "ada")
    ∷ (codes "outcome", codes "denied")
    ∷ []

-- A lone surrogate does not come back.
lone : to_usv_string (b'a' ∷ 0xd83d ∷ []) ≡ b'a' ∷ 0xfffd ∷ []
unfolding to_usv_string is_high_surrogate is_low_surrogate
lone = refl
