-- ===== src/Ui/Dialogs.antt =====
-- The controls of the open dialogs among what the shared elements render.
use blockops.Prelude.{
  ◌≡◌, refl, Bool, true, false, Option, none, some, List, [], ◌∷◌, ◌++◌, map, append-nil,
  if◌then◌else◌,
}
use blockops.Js.Text.{Text}
use blockops.Ui.{
  Variant, Tone, NoticeTone, notice, Region, heading, pill, input, link, region, View, nothing,
  words, button, beside, shown_if, text_if, clicks, in_dialogs, field, modal, ConfirmProps,
  confirm_actions, confirm_dialog, views, Fraction, meter, alert, plain,
}
use blockops.Ui.Laws.{same_branches, clicks-modal}

module _ {E : Type 0} where
  pub in_dialogs-button :
      (v : Variant) (label : Text) (enabled : Bool) (e : E)
      → in_dialogs (button v label enabled e) ≡ []
  unfolding in_dialogs
  in_dialogs-button v label enabled e = refl

  pub in_dialogs-shown_if :
      (b : Bool) (v : View E) → in_dialogs (shown_if b v) ≡ (if b then in_dialogs v else [])
  unfolding in_dialogs
  in_dialogs-shown_if true v = refl
  in_dialogs-shown_if false v = refl

  pub in_dialogs-choice :
      (b : Bool) (v w : View E)
      → in_dialogs (if b then v else w) ≡ (if b then in_dialogs v else in_dialogs w)
  in_dialogs-choice true v w = refl
  in_dialogs-choice false v w = refl

  pub in_dialogs-text_if : (o : Option Text) → in_dialogs {E = E} (text_if words o) ≡ []
  unfolding in_dialogs
  in_dialogs-text_if none = refl
  in_dialogs-text_if (some []) = refl
  in_dialogs-text_if (some (c ∷ s)) = refl

  pub in_dialogs-nothing : in_dialogs {E = E} nothing ≡ []
  unfolding in_dialogs
  in_dialogs-nothing = refl

  pub in_dialogs-words : (t : Text) → in_dialogs {E = E} (words t) ≡ []
  unfolding in_dialogs
  in_dialogs-words t = refl

  pub in_dialogs-heading : (t : Text) → in_dialogs {E = E} (heading t) ≡ []
  unfolding in_dialogs
  in_dialogs-heading t = refl

  pub in_dialogs-pill : (tone : Tone) (t : Text) → in_dialogs {E = E} (pill tone t) ≡ []
  unfolding in_dialogs
  in_dialogs-pill tone t = refl

  pub in_dialogs-meter : (t : Text) (f : Fraction) → in_dialogs {E = E} (meter t f) ≡ []
  unfolding in_dialogs
  in_dialogs-meter t f = refl

  pub in_dialogs-input : (t : Text) → in_dialogs {E = E} (input t) ≡ []
  unfolding in_dialogs
  in_dialogs-input t = refl

  pub in_dialogs-link : (t : Text) (e : E) → in_dialogs (link t e) ≡ []
  unfolding in_dialogs
  in_dialogs-link t e = refl

  pub in_dialogs-region : (r : Region) (v : View E) → in_dialogs (region r v) ≡ in_dialogs v
  unfolding in_dialogs
  in_dialogs-region r v = refl

  pub in_dialogs-beside : (v w : View E) → in_dialogs (beside v w) ≡ in_dialogs v ++ in_dialogs w
  unfolding in_dialogs
  in_dialogs-beside v w = refl

  pub in_dialogs-text_notice :
      (tone : NoticeTone) (o : Option Text)
      → in_dialogs {E = E} (text_if (λ t. notice tone (words t)) o) ≡ []
  unfolding in_dialogs notice
  in_dialogs-text_notice tone none = refl
  in_dialogs-text_notice tone (some []) = refl
  in_dialogs-text_notice tone (some (c ∷ s)) = refl

  in_dialogs-hint :
      (b : Bool) (o : Option Text)
      → in_dialogs {E = E} (text_if (λ t. region (if b then alert else plain) (words t)) o) ≡ []
  unfolding in_dialogs
  in_dialogs-hint b none = refl
  in_dialogs-hint b (some []) = refl
  in_dialogs-hint b (some (c ∷ s)) = refl

  -- A dialog is all that it renders.
  pub in_dialogs-modal :
      (b : Bool) (title : Text) (d : Option Text) (e : E) (v : View E)
      → in_dialogs (modal b title d e v) ≡ clicks (modal b title d e v)
  unfolding in_dialogs clicks modal
  in_dialogs-modal false title d e v = refl
  in_dialogs-modal true title d e v = refl

  pub in_dialogs-confirm_dialog :
      (p : ConfirmProps E) → in_dialogs (confirm_dialog p) ≡ clicks (confirm_dialog p)
  unfolding confirm_dialog
  in_dialogs-confirm_dialog p =
      in_dialogs-modal p.is_open p.title (some p.description) p.on_close
        (beside p.error (confirm_actions p))

  pub ruleset covered = (
    same_branches, in_dialogs-button, in_dialogs-shown_if, in_dialogs-choice, in_dialogs-text_if,
    in_dialogs-nothing, in_dialogs-words, in_dialogs-heading, in_dialogs-pill, in_dialogs-meter,
    in_dialogs-input, in_dialogs-link, in_dialogs-region, in_dialogs-beside, in_dialogs-text_notice,
    append-nil,
  )

  pub in_dialogs-field :
      (label : Text) (hint : Option Text) (b : Bool) (v : View E)
      → in_dialogs (field label hint b v) ≡ in_dialogs v
  unfolding field
  in_dialogs-field label hint b v = simp (covered, in_dialogs-hint)

  -- A list of elements without a dialog.
  pub in_dialogs-map :
      {A : Type 0} (f : A → View E)
      → ((x : A) → in_dialogs (f x) ≡ [])
      → (xs : List A) → in_dialogs (views (map f xs)) ≡ []
  in_dialogs-map f h [] = in_dialogs-nothing
  in_dialogs-map f h (x ∷ xs) = simp (covered, h x, in_dialogs-map f h xs)
