-- ===== src/Ui.antt =====
-- packages/ui/src: what the shared elements render, as a tree.
--
-- A `View` keeps what a user reads and can do: texts, headings, buttons with what they call, the roles
-- that are announced, and dialogs with their dismissal. Classes and icons are left out. A dialog traps
-- the focus and is dismissed by Escape or its backdrop, as @base-ui/react/dialog does it.
pub mod Laws
pub mod Dialogs
use blockops.Prelude.{
  ℕ, Bool, true, false, not, ◌&&◌, Option, none, some, List, [], ◌∷◌, ◌++◌, map, if◌then◌else◌,
}
use blockops.Js.Text.{Text, codes}

pub data Variant : Type 0 where
  standard secondary outline ghost destructive : Variant

pub data Tone : Type 0 where
  good warn bad neutral info : Tone

pub data NoticeTone : Type 0 where
  info success warning danger : NoticeTone

pub data Region : Type 0 where
  plain status alert : Region

-- A number of a meter, as a fraction.
pub record Fraction : Type 0 where
  pub numerator : ℕ
  pub denominator : ℕ

pub data View (E : Type 0) : Type 0 where
  nothing : View E
  words heading : Text → View E
  pill : Tone → Text → View E
  meter : Text → Fraction → View E
  button : Variant → Text → Bool → E → View E  -- its label, whether it is enabled, and its call
  link : Text → E → View E
  input : Text → View E  -- with its value
  inert : Bool → View E → View E  -- whether its content is out of reach
  region : Region → View E → View E
  dialog : E → View E → View E  -- with what its dismissal calls
  beside : View E → View E → View E

-- notice.tsx
abbrev pub notice_region : NoticeTone → Region
notice_region danger = alert
notice_region _ = status

module _ {E : Type 0} where
  abbrev pub views : List (View E) → View E
  views [] = nothing
  views (v ∷ vs) = beside v (views vs)

  -- `condition ? view : null`
  abbrev pub shown_if : Bool → View E → View E
  shown_if true v = v
  shown_if false v = nothing

  -- The call of an enabled button, where there is one.
  abbrev pub click_if : Bool → E → List E
  click_if b e = if b then e ∷ [] else []

  -- The calls of the enabled controls that are rendered and the dismissals of the open dialogs, with
  -- the controls of the page that an open dialog keeps from the user.
  unfoldable pub clicks : View E → List E
  clicks (button variant label true e) = e ∷ []
  clicks (link label e) = e ∷ []
  clicks (region r v) = clicks v
  clicks (inert false v) = clicks v
  clicks (dialog e v) = e ∷ clicks v
  clicks (beside v w) = clicks v ++ clicks w
  clicks _ = []

  -- Those of the open dialogs alone: while there is one, the user reaches no other.
  unfoldable pub in_dialogs : View E → List E
  unfolding clicks
  in_dialogs (region r v) = in_dialogs v
  in_dialogs (inert false v) = in_dialogs v
  in_dialogs (dialog e v) = e ∷ clicks v
  in_dialogs (beside v w) = in_dialogs v ++ in_dialogs w
  in_dialogs _ = []

  unfoldable pub texts : View E → List Text
  texts (words t) = t ∷ []
  texts (heading t) = t ∷ []
  texts (region r v) = texts v
  texts (inert b v) = texts v
  texts (dialog e v) = texts v
  texts (beside v w) = texts v ++ texts w
  texts _ = []

  -- The texts that are announced at once.
  unfoldable pub alerts : View E → List Text
  unfolding texts
  alerts (region alert v) = texts v
  alerts (region plain v) = alerts v
  alerts (region status v) = alerts v
  alerts (inert false v) = alerts v
  alerts (dialog e v) = alerts v
  alerts (beside v w) = alerts v ++ alerts w
  alerts _ = []

  abbrev pub text_if : (Text → View E) → Option Text → View E
  text_if f none = nothing
  text_if f (some []) = nothing
  text_if f (some (c ∷ s)) = f (c ∷ s)

  -- async-state.tsx
  unfoldable pub loading_state : Text → View E
  loading_state label = region status (words label)

  unfoldable pub empty_state : Text → Text → View E → View E
  empty_state title description action = views (heading title ∷ words description ∷ action ∷ [])

  abbrev pub retry_button : Option E → View E
  retry_button none = nothing
  retry_button (some e) = button standard (codes "Try again") true e

  unfoldable pub error_state : Text → Option E → View E
  error_state message retry =
      region alert (
        views (heading (codes "Couldn’t load this view") ∷ words message ∷ retry_button retry ∷ []))

  unfoldable pub notice : NoticeTone → View E → View E
  notice tone children = region (notice_region tone) children

  -- status-pill.tsx
  abbrev pub status_pill : Tone → Text → View E
  status_pill tone children = pill tone children

  -- page-header.tsx
  unfoldable pub page_header : Option Text → Text → Text → View E → View E
  page_header eyebrow title description actions =
      views (text_if words eyebrow ∷ heading title ∷ words description ∷ actions ∷ [])

  -- field.tsx: the label, the control and the hint, which is announced where it is an error.
  unfoldable pub field : Text → Option Text → Bool → View E → View E
  field label hint hint_is_error children = views (
      words label
      ∷ children
      ∷ text_if (λ t. region (if hint_is_error then alert else plain) (words t)) hint
      ∷ [])

  -- modal.tsx
  unfoldable pub modal : Bool → Text → Option Text → E → View E → View E
  modal false title description on_close children = nothing
  modal true title description on_close children = dialog on_close (
      views (
        heading title
        ∷ text_if words description
        ∷ button ghost (codes "Close dialog") true on_close
        ∷ children
        ∷ []))

-- confirm-dialog.tsx
pub record ConfirmProps (E : Type 0) : Type 0 where
  pub is_open : Bool
  pub title : Text
  pub description : Text
  pub confirm_label : Text
  pub dangerous : Bool
  pub busy : Bool
  pub error : View E
  pub on_confirm : E
  pub on_close : E

module _ {E : Type 0} where
  -- The two buttons, of which the second submits the form.
  unfoldable pub confirm_actions : ConfirmProps E → View E
  confirm_actions p = views (
      button secondary (codes "Cancel") (not p.busy) p.on_close
      ∷ button (if p.dangerous then destructive else standard)
          (if p.busy then codes "Working…" else p.confirm_label) (not p.busy) p.on_confirm
      ∷ [])

  unfoldable pub confirm_dialog : ConfirmProps E → View E
  unfolding modal confirm_actions
  confirm_dialog p =
      modal p.is_open p.title (some p.description) p.on_close (beside p.error (confirm_actions p))
