-- ===== src/Dev/Tunnel/Answer.antt =====
-- What the browser's request is answered with, and when anything passes.
use blockops.Prelude.{
  ℕ, ◌≡◌, refl, sym, ap, Bool, true, false, Option, none, some, List, [], ◌∷◌, ◌++◌, All,
  Option-cases, Bool-cases, ◌∙◌, arith,
}
use blockops.Js.Text.{Text}
use blockops.Dev.Tunnel.{
  refused, failed, upgraded, Tunnel, dialling, respond, Event, dialled, broke, browser_opened,
  browser_closed, hung_up, received, browser_sent, resumed, handle, run,
}
use blockops.Dev.Tunnel.Order.{flush-sent}

-- What the dialling comes to, by the events alone: the first of open, close and error.
abbrev pub dial : List Event → Option Bool
dial [] = none
dial (dialled ∷ es) = some true
dial (hung_up code reason ∷ es) = some false
dial (broke ∷ es) = some false
dial (e ∷ es) = dial es

pub record IsOrderly (t : Tunnel) : Type 0 where
  pub refused_dial : t.reply ≡ some refused → t.connected ≡ some false
  pub failed_dial : t.reply ≡ some failed → (t.connected ≡ some true) × (t.upstream_closes ≡ 1)
  pub upgraded_dial : t.reply ≡ some upgraded → t.connected ≡ some true
  pub unanswered : t.reply ≡ none → t.upstream_closes ≡ 0
  pub opened_upgraded : t.opened ≡ true → t.reply ≡ some upgraded
  pub silent : t.opened ≡ false → (t.to_browser ≡ []) × (t.to_upstream ≡ []) × (t.closes ≡ [])

respond-IsOrderly :
    (u : Bool) (o : Option Bool) (t : Tunnel)
    → t.reply ≡ none
    → t.connected ≡ o
    → IsOrderly t
    → IsOrderly (respond u o t)
unfolding respond
respond-IsOrderly u none t e c h = h
respond-IsOrderly u (some false) t e c h = ground arith
respond-IsOrderly true (some true) t e c h = ground arith
respond-IsOrderly false (some true) t e c h = ground arith

handle-IsOrderly : (e : Event) (t : Tunnel) → IsOrderly t → IsOrderly (handle e t)
unfolding handle
handle-IsOrderly dialled t h = ground (arith, Option-cases t.connected)
handle-IsOrderly broke t h = ground (arith, Option-cases t.connected)
handle-IsOrderly browser_opened t h = ground (arith, flush-sent t.buffered t)
handle-IsOrderly browser_closed t h = ground arith
handle-IsOrderly (hung_up code reason) t h = ground (arith, Option-cases t.connected)
handle-IsOrderly (received frame) t h = ground arith
handle-IsOrderly (browser_sent frame) t h = ground arith
handle-IsOrderly (resumed upgrades) t h =
    ground (arith, Option-cases t.reply, respond-IsOrderly upgrades t.connected t)

-- The promise has what the first answer was, or a later one when it was still pending.
abbrev or_dial : Option Bool → List Event → Option Bool
or_dial none es = dial es
or_dial (some b) es = some b

handle-dial :
    (e : Event) (es : List Event) (t : Tunnel)
    → IsOrderly t
    → or_dial (handle e t).connected es ≡ or_dial t.connected (e ∷ es)
unfolding handle
handle-dial dialled es t h = ground (arith, Option-cases t.connected)
handle-dial broke es t h = ground (arith, Option-cases t.connected)
handle-dial browser_opened es t h =
    ground (arith, flush-sent t.buffered t, Option-cases t.connected)
handle-dial browser_closed es t h = ground (arith, Option-cases t.connected)
handle-dial (hung_up code reason) es t h = ground (arith, Option-cases t.connected)
handle-dial (received frame) es t h = ground (arith, Option-cases t.connected)
handle-dial (browser_sent frame) es t h = ground (arith, Option-cases t.connected)
handle-dial (resumed u) es t h =
    ground (arith, Option-cases t.reply, Option-cases t.connected, Bool-cases u)

run-IsOrderly' :
    (es : List Event) (t : Tunnel)
    → IsOrderly t
    → IsOrderly (run es t) × ((run es t).connected ≡ or_dial t.connected es)
run-IsOrderly' [] t h = (h, ground (arith, Option-cases t.connected))
run-IsOrderly' (e ∷ es) t h =
    let (orderly, connected) = run-IsOrderly' es (handle e t) (handle-IsOrderly e t h) in
    (orderly, connected ∙ handle-dial e es t h)

dialling-IsOrderly : IsOrderly dialling
dialling-IsOrderly = ground arith

-- After any events: the browser's request is refused only where the API closed or failed before
-- it opened, and is upgraded or failed only where it opened first; a failed upgrade has closed the
-- upstream socket once; and until the browser's socket is open, which is after the upgrade, nothing
-- is sent to either side and the browser's socket is not closed.
pub run-IsOrderly :
    (es : List Event) → IsOrderly (run es dialling) × ((run es dialling).connected ≡ dial es)
run-IsOrderly es = run-IsOrderly' es dialling dialling-IsOrderly

handle-missed :
    (t : Tunnel) (code : ℕ) (reason : Text)
    → t.connected ≡ some true
    → t.opened ≡ false
    → (handle (hung_up code reason) t ≡ t) × (handle broke t ≡ t)
unfolding handle
handle-missed t code reason c o = ground arith

run-append : (es fs : List Event) (t : Tunnel) → run (es ++ fs) t ≡ run fs (run es t)
run-append [] fs t = refl
run-append (e ∷ es) fs t = run-append es fs (handle e t)

abbrev pub is_opening : Event → Bool
is_opening browser_opened = true
is_opening _ = false

handle-opened :
    (e : Event) (t : Tunnel) → is_opening e ≡ false → t.opened ≡ false → (handle e t).opened ≡ false
unfolding handle
handle-opened dialled t n o = ground arith
handle-opened broke t n o = ground arith
handle-opened browser_opened t n o = absurd cc
handle-opened browser_closed t n o = ground arith
handle-opened (hung_up code reason) t n o = ground arith
handle-opened (received frame) t n o = ground arith
handle-opened (browser_sent frame) t n o = ground arith
handle-opened (resumed upgrades) t n o =
    ground (arith, Option-cases t.reply, Option-cases t.connected)

run-opened :
    (es : List Event) (t : Tunnel)
    → All (λ e. is_opening e ≡ false) es
    → t.opened ≡ false
    → (run es t).opened ≡ false
run-opened [] t n o = o
run-opened (e ∷ es) t (n, ns) o = run-opened es (handle e t) ns (handle-opened e t n o)

-- A close or an error of the upstream socket, after it opened and before the browser's socket is
-- open, is lost: whatever happens afterwards, the whole tunnel, with its reply and the closes of both
-- sockets, is as if the API had not closed and not failed.
pub run-missed :
    (es fs : List Event) (code : ℕ) (reason : Text)
    → dial es ≡ some true
    → All (λ e. is_opening e ≡ false) es
    → (run (es ++ hung_up code reason ∷ fs) dialling ≡ run (es ++ fs) dialling)
      × (run (es ++ broke ∷ fs) dialling ≡ run (es ++ fs) dialling)
run-missed es fs code reason d n =
    let t = run es dialling in
    let (closed, erred) =
      handle-missed t code reason ((run-IsOrderly es).1 ∙ d) (run-opened es dialling n refl) in
    (
      run-append es (hung_up code reason ∷ fs) dialling
          ∙ ap (run fs) closed
          ∙ sym (run-append es fs dialling),
      run-append es (broke ∷ fs) dialling ∙ ap (run fs) erred ∙ sym (run-append es fs dialling),
    )
