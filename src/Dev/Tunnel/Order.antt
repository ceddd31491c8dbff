-- ===== src/Dev/Tunnel/Order.antt =====
-- The frames that pass the tunnel, and their order.
use blockops.Prelude.{
  ◌≡◌, refl, sym, ap, ◌∙◌, Bool, true, false, Option, none, some, List, [], ◌∷◌, ◌++◌, append_assoc,
  append-nil, Option-cases, arith,
}
use blockops.Dev.Tunnel.{
  Frame, Tunnel, dialling, flush, respond, Event, dialled, broke, browser_opened, browser_closed,
  hung_up, received, browser_sent, resumed, handle, run,
}

-- What the API has sent, by the events alone.
abbrev pub frame_of : Event → List Frame
frame_of (received frame) = frame ∷ []
frame_of e = []

abbrev pub frames : List Event → List Frame
frames [] = []
frames (e ∷ es) = frame_of e ++ frames es

-- What the tunnel has taken in, sent or not.
abbrev pub taken : Tunnel → List Frame
taken t = t.to_browser ++ t.buffered

-- Nothing waits once the browser's socket is open.
abbrev pub IsFlushed : Tunnel → Type 0
IsFlushed t = t.opened ≡ true → t.buffered ≡ []

-- What the loop of `open` leaves.
pub flush-sent :
    (fs : List Frame) (t : Tunnel)
    → flush fs t ≡ record t { to_browser = t.to_browser ++ fs; buffered = [] }
unfolding flush
flush-sent [] t = ground (arith, append-nil t.to_browser)
flush-sent (f ∷ fs) t =
    flush-sent fs (record t { to_browser = t.to_browser ++ f ∷ [] })
    ∙ ap (λ l. record t { to_browser = l; buffered = [] }) (append_assoc t.to_browser (f ∷ []) fs)

respond_keeps :
    (u : Bool) (o : Option Bool) (t : Tunnel)
    → (taken (respond u o t) ≡ taken t)
      × ((respond u o t).opened ≡ t.opened)
      × ((respond u o t).buffered ≡ t.buffered)
unfolding respond
respond_keeps u none t = (refl, refl, refl)
respond_keeps u (some false) t = (refl, refl, refl)
respond_keeps u (some true) t = ground arith

handle-taken :
    (e : Event) (t : Tunnel)
    → IsFlushed t
    → (taken (handle e t) ≡ taken t ++ frame_of e) × IsFlushed (handle e t)
unfolding handle
handle-taken dialled t h = ground (arith, append-nil (taken t))
handle-taken broke t h = ground (arith, append-nil (taken t))
handle-taken browser_opened t h =
    ground (
      arith,
      append-nil (taken t),
      append-nil (t.to_browser ++ t.buffered),
      flush-sent t.buffered t,
    )
handle-taken browser_closed t h = ground (arith, append-nil (taken t))
handle-taken (hung_up code reason) t h = ground (arith, append-nil (taken t))
handle-taken (received frame) t h = ground (
  arith,
  append_assoc t.to_browser t.buffered (frame ∷ []),
  append-nil t.to_browser,
  append-nil (t.to_browser ++ frame ∷ []),
)
handle-taken (browser_sent frame) t h = ground (arith, append-nil (taken t))
handle-taken (resumed upgrades) t h =
    ground (arith, append-nil (taken t), Option-cases t.reply, respond_keeps upgrades t.connected t)

run-taken :
    (es : List Event) (t : Tunnel)
    → IsFlushed t
    → (taken (run es t) ≡ taken t ++ frames es) × IsFlushed (run es t)
run-taken [] t h = (sym (append-nil (taken t)), h)
run-taken (e ∷ es) t h =
    let (taken_now, flushed) = handle-taken e t h in
    let (taken_then, flushed_then) = run-taken es (handle e t) flushed in
    (
      taken_then
          ∙ ap (λ l. l ++ frames es) taken_now
          ∙ append_assoc (taken t) (frame_of e) (frames es),
      flushed_then,
    )

-- After any events from the dialling on, the frames sent to the browser, with those that wait behind
-- them, are the frames that the API has sent, each once and in order, and none waits once the
-- browser's socket is open.
pub run-ordered :
    (es : List Event)
    → let t = run es dialling in
      (t.to_browser ++ t.buffered ≡ frames es) × (t.opened ≡ true → t.to_browser ≡ frames es)
run-ordered es =
    let (all, flushed) = run-taken es dialling (λ e. refl) in
    let t = run es dialling in
    (all, λ o. sym (append-nil t.to_browser) ∙ ap (λ l. t.to_browser ++ l) (sym (flushed o)) ∙ all)
