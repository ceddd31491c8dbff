-- ===== src/Shell/Frame/Laws.antt =====
-- Where the focus comes to rest.
use blockops.Prelude.{
  ◌≡◌, ◌⊎◌, inl, inr, refl, Bool, true, false, not, none, some, All, List, [], ◌∷◌, ◌++◌, any,
  Bool-cases, ◌∙◌, ap, arith,
}
use blockops.Js.Text.{Text}
use blockops.Shell.Frame.{
  Target, close_button, open_button, same_target, Frame, mounted, usable, focus, FrameEvent, opened,
  dismissed, elapsed, followed, moved, handle, run,
}

-- A timer waits for the button that can be used.
abbrev waits_for : Target → List Target → Bool
waits_for t ts = any (λ u. same_target u t) ts

-- Only the button that can be used has the focus.
abbrev pub IsKept : Frame → Type 0
IsKept f = (t : Target) → f.focused ≡ some t → t ≡ usable f.menu_open

-- Only the usable button has the focus, and it has it or will have it.
pub record IsSettling (f : Frame) : Type 0 where
  pub only : (t : Target) → f.focused ≡ some t → t ≡ usable f.menu_open
  pub due :
      (f.focused ≡ some (usable f.menu_open)) ⊎ (waits_for (usable f.menu_open) f.timers ≡ true)

waits_for-append : (t : Target) (ts : List Target) → waits_for t (ts ++ t ∷ []) ≡ true
waits_for-append close_button [] = refl
waits_for-append open_button [] = refl
waits_for-append t (u ∷ ts) = ground (arith, waits_for-append t ts)

Target-cases : (t : Target) → (t ≡ close_button) ⊎ (t ≡ open_button)
Target-cases close_button = inl refl
Target-cases open_button = inr refl

elapsed-IsSettling :
    (ts : List Target) (f : Frame)
    → IsSettling f
    → f.timers ≡ ts
    → IsSettling (elim ts [ [] ↦ f | u ∷ us ↦ focus true u (record f { timers = us }) ])
unfolding focus
elapsed-IsSettling [] f h e = h
elapsed-IsSettling (u ∷ us) f h e = ground (arith, Target-cases u, Bool-cases f.menu_open)

-- The user has moved the focus.
abbrev pub is_move : FrameEvent → Bool
is_move (moved t) = true
is_move _ = false

handle-IsSettling :
    (e : FrameEvent) (f : Frame) → is_move e ≡ false → IsSettling f → IsSettling (handle true e f)
unfolding handle
handle-IsSettling opened f n h = ground (arith, waits_for-append close_button f.timers)
handle-IsSettling dismissed f n h = ground (arith, waits_for-append open_button f.timers)
handle-IsSettling (followed path) f n h = ground (arith, waits_for-append open_button f.timers)
handle-IsSettling (moved t) f n h = absurd cc
handle-IsSettling elapsed f n h = elapsed-IsSettling f.timers f h refl

elapsed-IsKept :
    (ts : List Target) (f : Frame)
    → IsKept f
    → f.timers ≡ ts
    → IsKept (elim ts [ [] ↦ f | u ∷ us ↦ focus true u (record f { timers = us }) ])
unfolding focus
elapsed-IsKept [] f h e = h
elapsed-IsKept (u ∷ us) f h e = ground (arith, Target-cases u, Bool-cases f.menu_open)

handle-IsKept : (e : FrameEvent) (f : Frame) → IsKept f → IsKept (handle true e f)
unfolding handle
handle-IsKept opened f h = ground arith
handle-IsKept dismissed f h = ground arith
handle-IsKept (followed path) f h = ground arith
handle-IsKept (moved none) f h = ground arith
handle-IsKept (moved (some t)) f h = ground (arith, Target-cases t, Bool-cases f.menu_open)
handle-IsKept elapsed f h = elapsed-IsKept f.timers f h refl

run-IsKept : (es : List FrameEvent) (f : Frame) → IsKept f → IsKept (run true es f)
run-IsKept [] f h = h
run-IsKept (e ∷ es) f h = run-IsKept es (handle true e f) (handle-IsKept e f h)

-- The event opens the menu or closes it; the button that opens it is inert while it is open.
abbrev pub uses_menu : FrameEvent → Frame → Bool
uses_menu opened f = not f.menu_open
uses_menu dismissed f = true
uses_menu (followed path) f = true
uses_menu (moved t) f = false
uses_menu elapsed f = false

-- From such an event on a timer waits.
first-IsSettling :
    (e : FrameEvent) (f : Frame) → uses_menu e f ≡ true → IsKept f → IsSettling (handle true e f)
unfolding handle
first-IsSettling opened f u h = ground (arith, waits_for-append close_button f.timers)
first-IsSettling dismissed f u h = ground (arith, waits_for-append open_button f.timers)
first-IsSettling (followed to) f u h = ground (arith, waits_for-append open_button f.timers)
first-IsSettling (moved t) f u h = absurd cc
first-IsSettling elapsed f u h = absurd cc

at_rest : (f : Frame) → IsSettling f → f.timers ≡ [] → f.focused ≡ some (usable f.menu_open)
at_rest f h e = ground arith

run-IsSettling :
    (es : List FrameEvent) (f : Frame)
    → All (λ e. is_move e ≡ false) es
    → IsSettling f
    → IsSettling (run true es f)
run-IsSettling [] f n h = h
run-IsSettling (e ∷ es) f (n, ns) h =
    run-IsSettling es (handle true e f) ns (handle-IsSettling e f n h)

-- Every timer elapses.
abbrev pub all_elapsed : List Target → List FrameEvent
all_elapsed [] = []
all_elapsed (t ∷ ts) = elapsed ∷ all_elapsed ts

all_elapsed-unmoved : (ts : List Target) → All (λ e. is_move e ≡ false) (all_elapsed ts)
all_elapsed-unmoved [] = tt
all_elapsed-unmoved (t ∷ ts) = (refl, all_elapsed-unmoved ts)

elapsed_keeps :
    (u : Target) (us : List Target) (f : Frame)
    → f.timers ≡ u ∷ us
    → ((handle true elapsed f).timers ≡ us) × ((handle true elapsed f).menu_open ≡ f.menu_open)
unfolding handle focus
elapsed_keeps u us f e = ground arith

run-all_elapsed :
    (ts : List Target) (f : Frame)
    → f.timers ≡ ts
    → ((run true (all_elapsed ts) f).timers ≡ [])
      × ((run true (all_elapsed ts) f).menu_open ≡ f.menu_open)
run-all_elapsed [] f e = (e, refl)
run-all_elapsed (u ∷ us) f e =
    let (rest, kept) = elapsed_keeps u us f e in
    let (none_left, kept_then) = run-all_elapsed us (handle true elapsed f) rest in
    (none_left, kept_then ∙ kept)

-- On a narrow screen, after any events, moves of the focus by the user among them: when the menu is
-- opened or closed, and the user does not move the focus from then on, whatever else happens, then
-- once all timers have elapsed the menu is as it was, and the button that can be used then has the
-- focus, which is the close button of an open menu and the open button of a closed one.
pub run-settled :
    (before : List FrameEvent) (e : FrameEvent) (es : List FrameEvent) (path : Text)
    → uses_menu e (run true before (mounted path)) ≡ true
    → All (λ e. is_move e ≡ false) es
    → let f = run true (e ∷ es) (run true before (mounted path)) in
      let g = run true (all_elapsed f.timers) f in
      (g.timers ≡ []) × (g.menu_open ≡ f.menu_open) × (g.focused ≡ some (usable f.menu_open))
run-settled before e es path u n =
    let reached = run true before (mounted path) in
    let f = run true (e ∷ es) reached in
    let g = run true (all_elapsed f.timers) f in
    let (none_left, kept) = run-all_elapsed f.timers f refl in
    let begun =
      first-IsSettling e reached u (run-IsKept before (mounted path) (λ t h. absurd cc)) in
    let settling = run-IsSettling es (handle true e reached) n begun in
    let rested =
      at_rest g (run-IsSettling (all_elapsed f.timers) f (all_elapsed-unmoved f.timers) settling)
        none_left in
    (none_left, kept, rested ∙ ap (λ b. some (usable b)) kept)
