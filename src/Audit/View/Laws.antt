-- ===== src/Audit/View/Laws.antt =====
-- What the rendered audit log lets its reader call, and how long a cell of details is.
use blockops.Prelude.{
  ℕ, ◌+◌, ◌≤◌, ◌≡◌, refl, Bool, true, false, not, ◌&&◌, Option, none, some, List, [], ◌∷◌, ◌++◌,
  map, length, take, ltb, length-append, length-take, is_some, if◌then◌else◌, arith,
}
use blockops.Js.Text.{Text, codes}
use blockops.Js.SearchParams.{SearchParams}
use blockops.Ui.{views, clicks, click_if, page_header, empty_state}
use blockops.Ui.Laws.{elements, both_tests}
use blockops.Audit.{all, success, failure, denied, AuditFilters}
use blockops.Audit.View.{
  AuditEvent, AuditQuery, download, choose, fetch_next_page, cut, unless_empty, format_details,
  event_row, audit_results, audit_filter_controls, audit_export_url, loaded_view, audit_page,
}

take_more : (n : ℕ) (t u : Text) → length (take n t ++ u) ≤ n + length u
take_more n t u = omega (arith, length-append (take n t) u, length-take n t)

branch-bounded :
    (b : Bool) (n : ℕ) (t u : Text)
    → (b ≡ true → length t ≤ n)
    → (b ≡ false → length u ≤ n)
    → length (if b then t else u) ≤ n
branch-bounded true n t u h k = h refl
branch-bounded false n t u h k = k refl

short : (n : ℕ) → ltb 180 n ≡ false → n ≤ 181
short n h = ground arith

cut-bounded : (t : Text) → length (cut t) ≤ 181
cut-bounded t =
    branch-bounded (ltb 180 (length t)) 181 (take 180 t ++ codes "…") t
      (λ h. take_more 180 t (codes "…")) (short (length t))

unless_empty-bounded :
    (ks : List Text) (t : Text) → length t ≤ 181 → length (unless_empty ks t) ≤ 181
unless_empty-bounded [] t h = omega arith
unless_empty-bounded (k ∷ ks) t h = h

module _ {Details : Type 0} (keys : Details → List Text) (stringify : Details → Text)
    (format : Text → Option Text) (write : SearchParams → Text) where
  -- A cell of details has at most 181 units, whatever the details are.
  pub format_details-bounded :
      (o : Option Details) → length (format_details keys stringify format write o) ≤ 181
  unfolding format_details
  format_details-bounded none = omega arith
  format_details-bounded (some d) =
      unless_empty-bounded (keys d) (cut (stringify d)) (cut-bounded (stringify d))

  clicks-event_row :
      (e : AuditEvent Details) → clicks (event_row keys stringify format write e) ≡ []
  unfolding event_row
  clicks-event_row e = simp elements

  clicks-rows :
      (es : List (AuditEvent Details))
      → clicks (views (map (event_row keys stringify format write) es)) ≡ []
  clicks-rows [] = simp elements
  clicks-rows (e ∷ es) = simp (elements, clicks-event_row, clicks-rows es)

  clicks-audit_results :
      (es : List (AuditEvent Details)) (b : Bool)
      → clicks (audit_results keys stringify format write es b) ≡ []
  unfolding audit_results empty_state
  clicks-audit_results [] true = simp elements
  clicks-audit_results [] false = simp elements
  clicks-audit_results (e ∷ es) b = clicks-rows (e ∷ es)

  clicks-controls :
      (filters : AuditFilters)
      → clicks (audit_filter_controls keys stringify format write filters)
        ≡ choose all ∷ choose success ∷ choose failure ∷ choose denied ∷ []
  unfolding audit_filter_controls
  clicks-controls filters = simp elements

  -- Unless it loads its first page or has only an error, the page has enabled controls for exactly
  -- this: to download the events of the filters, to choose an outcome, and to ask for more exactly
  -- while there is a next page and none is being fetched.
  pub audit_page-clicks :
      (filters : AuditFilters) (q : AuditQuery Details)
      → q.is_loading ≡ false
      → (is_some q.error && not (is_some q.pages)) ≡ false
      → clicks (audit_page keys stringify format write filters q)
        ≡ download (audit_export_url keys stringify format write filters)
          ∷ choose all
          ∷ choose success
          ∷ choose failure
          ∷ choose denied
          ∷ click_if (q.has_next_page && not q.is_fetching_next_page) fetch_next_page
  unfolding audit_page loaded_view page_header
  audit_page-clicks filters q l e =
      rw (l, e) (simp (elements, clicks-controls, clicks-audit_results, both_tests))
