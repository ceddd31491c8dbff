-- ===== src/Audit/Paging/Whole.antt =====
-- The pages against the log that the API pages through.
use blockops.Prelude.{
  ℕ, zero, suc, ◌+◌, ◌≤◌, ◌≡◌, ◌⊎◌, inl, inr, refl, sym, ap, ap₂, subst, ◌∙◌, Option, none, some,
  List, [], ◌∷◌, ◌++◌, append_assoc, append-nil, length, length-append, take, drop, Option-cases,
  arith,
}
use blockops.Js.Text.{Text}
use blockops.Query.{next_param}
use blockops.Audit.Paging.{
  AuditPage, initial_audit_cursor, get_next_page_param, flat_events, Infinite, PagingEvent,
  asked_more, answered, failed, shown, answer, handle, run, next_after,
}

-- What the API promises: a cursor is a place of the log; the answer holds events from there on, and
-- its next cursor is the place after them; without a next cursor they are the last ones.
pub record Pages {Event : Type 0} (log : List Event) (serve : Option Text → AuditPage Event)
    : Type 0 where
  pub place : Option Text → ℕ
  pub first : place initial_audit_cursor ≡ 0
  pub slice :
      (c : Option Text) → (serve c).events ≡ take (length (serve c).events) (drop (place c) log)
  pub next :
      (c : Option Text) (d : Text)
      → (serve c).next_cursor ≡ some d
      → place (some d) ≡ place c + length (serve c).events
  pub last :
      (c : Option Text)
      → (serve c).next_cursor ≡ none
      → length log ≤ place c + length (serve c).events

module _ {A : Type 0} where
  take-nil : (n : ℕ) → take {A = A} n [] ≡ []
  take-nil zero = refl
  take-nil (suc n) = refl

  take-add : (m n : ℕ) (xs : List A) → take m xs ++ take n (drop m xs) ≡ take (m + n) xs
  take-add zero n xs = let e : 0 + n ≡ n = omega arith in ap (λ k. take k xs) (sym e)
  take-add (suc m) n [] = take-nil n ∙ sym (take-nil (suc m + n))
  take-add (suc m) n (x ∷ xs) =
      let e : suc m + n ≡ suc (m + n) = omega arith in
      ap (λ l. x ∷ l) (take-add m n xs) ∙ sym (ap (λ k. take k (x ∷ xs)) e)

  take-all : (n : ℕ) (xs : List A) → length xs ≤ n → take n xs ≡ xs
  take-all zero [] h = refl
  take-all (suc n) [] h = refl
  take-all zero (x ∷ xs) h = absurd (omega (arith, h))
  take-all (suc n) (x ∷ xs) h = ap (λ l. x ∷ l) (take-all n xs (omega (arith, h)))

flat_events-append :
    {Event : Type 0} (ps : List (AuditPage Event)) (p : AuditPage Event)
    → flat_events (ps ++ p ∷ []) ≡ flat_events ps ++ p.events
flat_events-append [] p = append-nil p.events
flat_events-append (r ∷ ps) p =
    ap (λ l. r.events ++ l) (flat_events-append ps p)
    ∙ sym (append_assoc r.events (flat_events ps) p.events)

next_param-append :
    {P A : Type 0} (f : P) (g : A → Option P) (ps : List A) (a : A)
    → next_param f g (ps ++ a ∷ []) ≡ g a
next_param-append f g [] a = refl
next_param-append f g (b ∷ []) a = refl
next_param-append f g (b ∷ c ∷ ps) a = next_param-append f g (c ∷ ps) a

module _ {Event : Type 0} (log : List Event) (serve : Option Text → AuditPage Event)
    (h : Pages log serve) where
  -- The pages hold the log up to a place, where the next page begins.
  record IsPrefix (ps : List (AuditPage Event)) : Type 0 where
    pub flat : flat_events ps ≡ take (length (flat_events ps)) log
    pub begins :
        (c : Option Text)
        → next_param initial_audit_cursor get_next_page_param ps ≡ some c
        → h.place c ≡ length (flat_events ps)
    pub ended :
        next_param initial_audit_cursor get_next_page_param ps ≡ none
        → length log ≤ length (flat_events ps)

  none_yet : IsPrefix []
  none_yet = record { flat = refl; begins = λ c e. ap h.place (cc) ∙ h.first; ended = λ e. cc }

  -- The next page of a page, by its cursor.
  after_page :
      (p : AuditPage Event)
      → ((d : Text) × (p.next_cursor ≡ some d) × (get_next_page_param p ≡ some (some d)))
        ⊎ ((p.next_cursor ≡ none) × (get_next_page_param p ≡ none))
  unfolding get_next_page_param
  after_page p = elim (Option-cases p.next_cursor) [
    | inl e ↦ inr (e, rw e refl)
    | inr (d, e) ↦ inl (d, e, rw e refl)
  ]

  flat_more :
      (ps : List (AuditPage Event)) (c : Option Text)
      → flat_events ps ≡ take (length (flat_events ps)) log
      → h.place c ≡ length (flat_events ps)
      → flat_events (ps ++ serve c ∷ []) ≡ take (length (flat_events (ps ++ serve c ∷ []))) log
  flat_more ps c f b =
      let n = length (flat_events ps) in
      let m = length (serve c).events in
      let joined = flat_events-append ps (serve c) in
      let sliced : (serve c).events ≡ take m (drop n log) =
        subst (λ k. (serve c).events ≡ take m (drop k log)) b (h.slice c) in
      let long : length (flat_events (ps ++ serve c ∷ [])) ≡ n + m =
        ap length joined ∙ length-append (flat_events ps) (serve c).events in
      joined ∙ ap₂ (λ xs ys. xs ++ ys) f sliced ∙ take-add n m log ∙ sym (ap (λ k. take k log) long)

  one_more :
      (ps : List (AuditPage Event)) (c : Option Text)
      → IsPrefix ps
      → next_param initial_audit_cursor get_next_page_param ps ≡ some c
      → IsPrefix (ps ++ serve c ∷ [])
  one_more ps c k e =
      let b = k.begins c e in
      let long : length (flat_events (ps ++ serve c ∷ [])) ≡ h.place c + length (serve c).events =
        ap length (flat_events-append ps (serve c))
        ∙ length-append (flat_events ps) (serve c).events
        ∙ ap (λ n. n + length (serve c).events) (sym b) in
      let after = next_param-append initial_audit_cursor get_next_page_param ps (serve c) in
      elim (after_page (serve c)) [
        | inl (d, cursor, to) ↦ record {
          flat = flat_more ps c k.flat b;
          begins = λ c' e'.
              let same : c' ≡ some d = cc in ap h.place same ∙ h.next c d cursor ∙ sym long;
          ended = λ e'. absurd cc;
        }
        | inr (cursor, to) ↦ record {
          flat = flat_more ps c k.flat b;
          begins = λ c' e'. absurd cc;
          ended = λ e'. subst (λ n. length log ≤ n) (sym long) (h.last c cursor);
        }
      ]

module _ {Event E : Type 0} (q : Infinite Event E) (log : List Event)
    (serve : Option Text → AuditPage Event) (h : Pages log serve) where
  -- The fetch that is under way asks for the page after those that are shown.
  record IsFaithful (s : q.State) : Type 0 where
    pub prefix : IsPrefix log serve h (q.pages s)
    pub asking : (c : Option Text) → q.asked s ≡ some c → next_after q serve (q.pages s) ≡ some c

  initial-IsFaithful : IsFaithful q.initial
  initial-IsFaithful = record {
    prefix = subst (IsPrefix log serve h) (sym q.initial_pages) (none_yet log serve h);
    asking = λ c e. let n = q.initial_asked in absurd cc;
  }

  fetch-IsFaithful : (s : q.State) → IsFaithful s → IsFaithful (q.fetch s)
  fetch-IsFaithful s k = elim (Option-cases (q.asked s)) [
    | inl e ↦ record {
      prefix = subst (IsPrefix log serve h) (sym (q.fetch_pages s)) k.prefix;
      asking = λ c e'. rw (q.fetch_pages s) (sym (q.fetch_asked s e) ∙ e');
    }
    | inr (c, e) ↦ record {
      prefix = subst (IsPrefix log serve h) (sym (q.fetch_pages s)) k.prefix;
      asking = λ d e'. rw (q.fetch_pages s) (k.asking d (e ∙ sym (q.fetch_asked_once s c e) ∙ e'));
    }
  ]

  answer-IsFaithful :
      (o : Option (Option Text)) (s : q.State)
      → q.asked s ≡ o
      → IsFaithful s
      → IsFaithful (answer q serve o s)
  answer-IsFaithful none s e k = k
  answer-IsFaithful (some c) s e k = record {
    prefix =
        subst (IsPrefix log serve h) (sym (q.resolve_pages (serve c) s c e))
          (one_more log serve h (q.pages s) c k.prefix (k.asking c e));
    asking = λ d e'. let n = q.resolve_asked (serve c) s in absurd cc;
  }

  handle-IsFaithful :
      (e : PagingEvent E) (s : q.State) → IsFaithful s → IsFaithful (handle q serve e s)
  unfolding handle
  handle-IsFaithful asked_more s k = fetch-IsFaithful s k
  handle-IsFaithful answered s k = answer-IsFaithful (q.asked s) s refl k
  handle-IsFaithful (failed e) s k = record {
    prefix = subst (IsPrefix log serve h) (sym (q.reject_pages e s)) k.prefix;
    asking = λ d e'. let n = q.reject_asked e s in absurd cc;
  }

  run-IsFaithful :
      (es : List (PagingEvent E)) (s : q.State) → IsFaithful s → IsFaithful (run q serve es s)
  run-IsFaithful [] s k = k
  run-IsFaithful (e ∷ es) s k = run-IsFaithful es (handle q serve e s) (handle-IsFaithful e s k)

-- While the log does not change, and after any fetches, answers and failures: the events shown are
-- the log's first ones, in order, none lost and none twice, and they are the whole log once there is
-- no next page.
pub run-whole :
    {Event E : Type 0} (q : Infinite Event E) (log : List Event)
    (serve : Option Text → AuditPage Event) (es : List (PagingEvent E))
    → Pages log serve
    → let s = run q serve es q.initial in
      (shown q serve s ≡ take (length (shown q serve s)) log)
      × (next_after q serve (q.pages s) ≡ none → shown q serve s ≡ log)
run-whole q log serve es h =
    let s = run q serve es q.initial in
    let k = (run-IsFaithful q log serve h es q.initial (initial-IsFaithful q log serve h)).prefix in
    (k.flat, λ e. k.flat ∙ take-all (length (shown q serve s)) log (k.ended e))
