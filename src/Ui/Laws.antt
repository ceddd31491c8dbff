-- ===== src/Ui/Laws.antt =====
-- The controls of the shared elements.
use blockops.Prelude.{
  ◌≡◌, refl, ◌&&◌, ap, Bool, true, false, Option, none, some, [], ◌∷◌, ◌++◌, append-nil, Bool-cases,
  if◌then◌else◌, arith,
}
use blockops.Js.Text.{Text}
use blockops.Ui.{
  Variant, Tone, NoticeTone, notice, Region, heading, pill, input, link, region, View, nothing,
  words, button, inert, beside, click_if, shown_if, text_if, clicks, modal, ConfirmProps,
  confirm_actions, confirm_dialog,
}

pub clicks-button :
    {E : Type 0} (v : Variant) (label : Text) (enabled : Bool) (e : E)
    → clicks (button v label enabled e) ≡ click_if enabled e
unfolding clicks
clicks-button v label true e = refl
clicks-button v label false e = refl

pub clicks-shown_if :
    {E : Type 0} (b : Bool) (v : View E) → clicks (shown_if b v) ≡ (if b then clicks v else [])
unfolding clicks
clicks-shown_if true v = refl
clicks-shown_if false v = refl

pub clicks-text_if : {E : Type 0} (o : Option Text) → clicks {E = E} (text_if words o) ≡ []
unfolding clicks
clicks-text_if none = refl
clicks-text_if (some []) = refl
clicks-text_if (some (c ∷ s)) = refl

pub clicks-inert :
    {E : Type 0} (b : Bool) (v : View E) → clicks (inert b v) ≡ (if b then [] else clicks v)
unfolding clicks
clicks-inert true v = refl
clicks-inert false v = refl

pub same_branches {ℓ} : {A : Type ℓ} (b : Bool) (x : A) → (if b then x else x) ≡ x
same_branches true x = refl
same_branches false x = refl

pub both_tests :
    {E : Type 0} (a b : Bool) (e : E) → (if a then click_if b e else []) ≡ click_if (a && b) e
both_tests true b e = refl
both_tests false b e = refl

pub clicks-choice :
    {E : Type 0} (b : Bool) (v w : View E)
    → clicks (if b then v else w) ≡ (if b then clicks v else clicks w)
clicks-choice true v w = refl
clicks-choice false v w = refl

module _ {E : Type 0} where
  pub clicks-nothing : clicks {E = E} nothing ≡ []
  unfolding clicks
  clicks-nothing = refl

  pub clicks-words : (t : Text) → clicks {E = E} (words t) ≡ []
  unfolding clicks
  clicks-words t = refl

  pub clicks-heading : (t : Text) → clicks {E = E} (heading t) ≡ []
  unfolding clicks
  clicks-heading t = refl

  pub clicks-pill : (tone : Tone) (t : Text) → clicks {E = E} (pill tone t) ≡ []
  unfolding clicks
  clicks-pill tone t = refl

  pub clicks-input : (t : Text) → clicks {E = E} (input t) ≡ []
  unfolding clicks
  clicks-input t = refl

  pub clicks-link : (t : Text) (e : E) → clicks (link t e) ≡ e ∷ []
  unfolding clicks
  clicks-link t e = refl

  pub clicks-region : (r : Region) (v : View E) → clicks (region r v) ≡ clicks v
  unfolding clicks
  clicks-region r v = refl

  pub clicks-beside : (v w : View E) → clicks (beside v w) ≡ clicks v ++ clicks w
  unfolding clicks
  clicks-beside v w = refl

pub ruleset elements = (
  same_branches, clicks-button, clicks-choice, clicks-shown_if, clicks-text_if, clicks-inert,
  clicks-nothing, clicks-words, clicks-heading, clicks-pill, clicks-input, clicks-link,
  clicks-region, clicks-beside, append-nil,
)

pub clicks-text_notice :
    {E : Type 0} (tone : NoticeTone) (o : Option Text)
    → clicks {E = E} (text_if (λ t. notice tone (words t)) o) ≡ []
unfolding notice
clicks-text_notice tone none = simp elements
clicks-text_notice tone (some []) = simp elements
clicks-text_notice tone (some (c ∷ s)) = simp elements

pub clicks-modal :
    {E : Type 0} (b : Bool) (title : Text) (d : Option Text) (e : E) (v : View E)
    → clicks (modal b title d e v) ≡ (if b then e ∷ e ∷ clicks v else [])
unfolding clicks modal
clicks-modal false title d e v = refl
clicks-modal true title none e v = ap (λ l. e ∷ e ∷ l) (append-nil (clicks v))
clicks-modal true title (some []) e v = ap (λ l. e ∷ e ∷ l) (append-nil (clicks v))
clicks-modal true title (some (c ∷ s)) e v = ap (λ l. e ∷ e ∷ l) (append-nil (clicks v))

-- A confirmation has the controls that close it while it is open, and those that confirm and cancel it
-- only while it is not busy; closed, it has none.
pub confirm_dialog-clicks :
    {E : Type 0} (p : ConfirmProps E)
    → clicks p.error ≡ []
    → clicks (confirm_dialog p) ≡ (
        if p.is_open
        then p.on_close ∷ p.on_close ∷ (if p.busy then [] else p.on_close ∷ p.on_confirm ∷ [])
        else [])
unfolding clicks confirm_dialog confirm_actions
confirm_dialog-clicks p h = ground (
  arith,
  clicks-modal p.is_open p.title (some p.description) p.on_close
      (beside p.error (confirm_actions p)),
  Bool-cases p.busy,
  Bool-cases p.is_open,
)
