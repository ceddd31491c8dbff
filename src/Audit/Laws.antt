-- ===== src/Audit/Laws.antt =====
-- The filters and the address agree.
use blockops.Prelude.{
  ◌≤◌, ◌≡◌, refl, ap, ap₂, subst, sym, ◌∙◌, ◌⊎◌, true, Option, none, some, [], ◌∷◌, length,
  Bool-cases, inl, inr, if◌then◌else◌, arith,
}
use blockops.Js.Text.{Text}
use blockops.Js.Text.Laws.{same_text_iff}
use blockops.Js.Utf8.{is_high_surrogate, is_low_surrogate, code_points}
use blockops.Js.Usv.{to_usv_string, code_points-to_usv_string, is_well_formed, to_usv_string-IsSame}
use blockops.Js.SearchParams.{SearchParams, get, set, get-set, get-set_other}
use blockops.Audit.{
  OutcomeFilter, all, success, failure, denied, outcome_text, OutcomeSchema, AuditFilters,
  search_max_length, query_name, outcome_name, parse_outcome_filter, parse_audit_search_params,
  audit_filter_search_params, canonical, or_text, or_all, short_query, with_query, same_outcome,
}

get-with_query : (query : Text) → or_text (get query_name (with_query query)) ≡ to_usv_string query
unfolding to_usv_string
get-with_query [] = refl
get-with_query (c ∷ s) = ap or_text (get-set query_name (c ∷ s) [])

outcome_text-usv : (o : OutcomeFilter) → to_usv_string (outcome_text o) ≡ outcome_text o
unfolding to_usv_string outcome_text is_high_surrogate is_low_surrogate
outcome_text-usv all = refl
outcome_text-usv success = refl
outcome_text-usv failure = refl
outcome_text-usv denied = refl

get-set_outcome :
    (o : OutcomeFilter) (p : SearchParams)
    → get outcome_name (set outcome_name (outcome_text o) p) ≡ some (outcome_text o)
get-set_outcome o p = get-set outcome_name (outcome_text o) p ∙ ap some (outcome_text-usv o)

abbrev filters_of : OutcomeSchema → Option Text → Option Text → AuditFilters
filters_of os q o = record { query = short_query (or_text q); outcome = parse_outcome_filter os o }

parse_filters :
    (os : OutcomeSchema) (p : SearchParams)
    → parse_audit_search_params os p ≡ filters_of os (get query_name p) (get outcome_name p)
unfolding parse_audit_search_params
parse_filters os p = refl

short_query-fits : (q : Text) → length (code_points q) ≤ search_max_length → short_query q ≡ q
short_query-fits q h = ground arith

-- Filters that the page can hold, with a query of at most 200 code points, come back from the
-- address that it writes for them, where each lone surrogate of the query is U+FFFD.
pub parse-audit_filter_search_params :
    (os : OutcomeSchema) (filters : AuditFilters)
    → length (code_points filters.query) ≤ search_max_length
    → parse_audit_search_params os (audit_filter_search_params filters)
      ≡ record filters { query = to_usv_string filters.query }
unfolding audit_filter_search_params
parse-audit_filter_search_params os filters h =
    let o = outcome_text filters.outcome in
    let written = with_query filters.query in
    parse_filters os (set outcome_name o written)
    ∙ ap₂ (filters_of os) (get-set_other query_name outcome_name o written refl)
        (get-set_outcome filters.outcome written)
    ∙ ap₂ (λ q r. record { query = q; outcome = r })
        (ap short_query (get-with_query filters.query)
          ∙ short_query-fits (to_usv_string filters.query)
              (rw (code_points-to_usv_string filters.query) h))
        (ap or_all (os.member filters.outcome))

-- Where the query has no lone surrogate, the filters come back as they are.
pub parse-well_formed :
    (os : OutcomeSchema) (filters : AuditFilters)
    → length (code_points filters.query) ≤ search_max_length
    → is_well_formed filters.query ≡ true
    → parse_audit_search_params os (audit_filter_search_params filters) ≡ filters
parse-well_formed os filters h w =
    parse-audit_filter_search_params os filters h
    ∙ ap (λ q. record filters { query = q }) (to_usv_string-IsSame filters.query w)

same_outcome_sound : (v : Option Text) (t : Text) → same_outcome v t ≡ true → v ≡ some t
same_outcome_sound none t e = cc
same_outcome_sound (some u) t e = ap some ((same_text_iff u t).0 e)

same_outcome_refl : (t : Text) → same_outcome (some t) t ≡ true
same_outcome_refl t = (same_text_iff t t).1 refl

-- The outcome that the page filters by, as the address names it.
abbrev named : OutcomeSchema → SearchParams → Text
named os p = outcome_text (parse_outcome_filter os (get outcome_name p))

canonical-cases :
    (os : OutcomeSchema) (p : SearchParams)
    → (canonical os p ≡ p) × (get outcome_name p ≡ some (named os p))
      ⊎ (canonical os p ≡ set outcome_name (named os p) p)
unfolding canonical parse_audit_search_params
canonical-cases os p = elim (Bool-cases (same_outcome (get outcome_name p) (named os p))) [
  | inl e ↦ inl (rw e refl, same_outcome_sound (get outcome_name p) (named os p) e)
  | inr e ↦ inr (rw e refl)
]

canonical-fixed :
    (os : OutcomeSchema) (p : SearchParams)
    → get outcome_name p ≡ some (named os p)
    → canonical os p ≡ p
unfolding canonical parse_audit_search_params
canonical-fixed os p e =
    let same =
      subst (λ v. same_outcome v (named os p) ≡ true) (sym e) (same_outcome_refl (named os p)) in
    ap (λ b. if b then p else set outcome_name (named os p) p) same

parse-set :
    (os : OutcomeSchema) (p : SearchParams)
    → parse_audit_search_params os (set outcome_name (named os p) p)
      ≡ parse_audit_search_params os p
parse-set os p =
    parse_filters os (set outcome_name (named os p) p)
    ∙ ap₂ (filters_of os) (get-set_other query_name outcome_name (named os p) p refl)
        (get-set_outcome (parse_outcome_filter os (get outcome_name p)) p)
    ∙ ap (λ o. record { query = short_query (or_text (get query_name p)); outcome = or_all o })
        (os.member (parse_outcome_filter os (get outcome_name p)))
    ∙ sym (parse_filters os p)

canonical-same :
    (os : OutcomeSchema) (p : SearchParams)
    → (get outcome_name (canonical os p) ≡ some (named os p))
      × (parse_audit_search_params os (canonical os p) ≡ parse_audit_search_params os p)
canonical-same os p = elim (canonical-cases os p) [
  | inl (e, n) ↦ (ap (get outcome_name) e ∙ n, ap (parse_audit_search_params os) e)
  | inr e ↦ (
    ap (get outcome_name) e ∙ get-set_outcome (parse_outcome_filter os (get outcome_name p)) p,
    ap (parse_audit_search_params os) e ∙ parse-set os p,
  )
]

-- Whatever is in the address, after the effect it names the outcome that the page filters by, the
-- filters are the ones from before, and the effect has nothing left to do.
pub canonical-parse :
    (os : OutcomeSchema) (params : SearchParams)
    → (get outcome_name (canonical os params)
        ≡ some (outcome_text (parse_audit_search_params os params).outcome))
      × (parse_audit_search_params os (canonical os params) ≡ parse_audit_search_params os params)
      × (canonical os (canonical os params) ≡ canonical os params)
unfolding parse_audit_search_params
canonical-parse os params =
    let (named_, same) = canonical-same os params in
    (
      named_,
      same,
      canonical-fixed os (canonical os params)
          (named_ ∙ ap (λ (f : AuditFilters). some (outcome_text f.outcome)) (sym same)),
    )
