-- ===== src/Query/SimplePages.antt =====
-- An implementation that meets the interface of an infinite query.
use blockops.Prelude.{◌≡◌, refl, Option, none, some, List, [], ◌∷◌, ◌++◌, arith}
use blockops.Query.{next_param, InfiniteQuery}

pub record Loaded (P A : Type 0) : Type 0 where
  pub pages : List A
  pub asked : Option P

module _ {P A : Type 0} (first : P) (next : A → Option P) where
  abbrev pub asked_from : Option P → List A → Option P
  asked_from (some p) pages = some p
  asked_from none pages = next_param first next pages

  abbrev pub added : Option P → A → List A → List A
  added none a pages = pages
  added (some p) a pages = pages ++ a ∷ []

  pub asked_from-idle :
      (o : Option P) (pages : List A) → o ≡ none → asked_from o pages ≡ next_param first next pages
  asked_from-idle o pages h = ground arith

  pub asked_from-busy :
      (o : Option P) (pages : List A) (p : P) → o ≡ some p → asked_from o pages ≡ some p
  asked_from-busy o pages p h = ground arith

  pub added-asked :
      (o : Option P) (a : A) (pages : List A) (p : P)
      → o ≡ some p
      → added o a pages ≡ pages ++ a ∷ []
  added-asked o a pages p h = ground arith

  pub added-unasked : (o : Option P) (a : A) (pages : List A) → o ≡ none → added o a pages ≡ pages
  added-unasked o a pages h = ground arith

abbrev pub simple_pages :
    (P A E : Type 0) (first : P) (next : A → Option P) → InfiniteQuery P A E first next
simple_pages P A E first next = record {
  State = Loaded P A;
  initial = record { pages = []; asked = none };
  pages = λ s. s.pages;
  asked = λ s. s.asked;
  fetch = λ s. record s { asked = asked_from first next s.asked s.pages };
  resolve = λ a s. record { pages = added first next s.asked a s.pages; asked = none };
  reject = λ e s. record s { asked = none };
  initial_pages = refl;
  initial_asked = refl;
  fetch_pages = λ s. refl;
  fetch_asked = λ s h. asked_from-idle first next s.asked s.pages h;
  fetch_asked_once = λ s p h. asked_from-busy first next s.asked s.pages p h;
  resolve_pages = λ a s p h. added-asked first next s.asked a s.pages p h;
  resolve_asked = λ a s. refl;
  resolve_detached = λ a s h. added-unasked first next s.asked a s.pages h;
  reject_pages = λ e s. refl;
  reject_asked = λ e s. refl;
}
