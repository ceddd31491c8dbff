-- ===== src/Dev/Tunnel/Tests.antt =====
-- Tunnels at concrete events.
use blockops.Prelude.{◌≡◌, ◌++◌, refl, true, some, List, [], ◌∷◌}
use blockops.Js.Text.{codes}
use blockops.Dev.Tunnel.{
  text, refused, dialling, Event, dialled, broke, browser_opened, hung_up, received, browser_sent,
  resumed, handle, run,
}
use blockops.Dev.Tunnel.Order.{frames, run-ordered}
use blockops.Dev.Tunnel.Answer.{dial, IsOrderly, run-IsOrderly, run-missed}

abbrev events : List Event
events =
    dialled
    ∷ received (text (codes "a"))
    ∷ resumed true
    ∷ received (text (codes "b"))
    ∷ browser_opened
    ∷ received (text (codes "c"))
    ∷ browser_sent (text (codes "d"))
    ∷ hung_up 0 (codes "bye")
    ∷ []

three_frames :
    (run events dialling).to_browser ≡ text (codes "a") ∷ text (codes "b") ∷ text (codes "c") ∷ []
unfolding handle
three_frames = refl

closed_normally : (run events dialling).closes ≡ (1000, codes "bye") ∷ []
unfolding handle
closed_normally = refl

run-ordered_example :
    let t = run events dialling in
    (t.to_browser ++ t.buffered ≡ frames events) × (t.opened ≡ true → t.to_browser ≡ frames events)
run-ordered_example = run-ordered events

run-IsOrderly_example :
    IsOrderly (run events dialling) × ((run events dialling).connected ≡ dial events)
run-IsOrderly_example = run-IsOrderly events

refused_by_the_api : (run (broke ∷ dialled ∷ resumed true ∷ []) dialling).reply ≡ some refused
unfolding handle
refused_by_the_api = refl

-- The API opens and sends a frame, closes, and only then the browser's socket opens.
abbrev early : List Event
early = dialled ∷ received (text (codes "a")) ∷ resumed true ∷ []

abbrev late : List Event
late = browser_opened ∷ browser_sent (text (codes "b")) ∷ []

run-missed_example :
    (run (early ++ hung_up 1006 [] ∷ late) dialling ≡ run (early ++ late) dialling)
    × (run (early ++ broke ∷ late) dialling ≡ run (early ++ late) dialling)
run-missed_example = run-missed early late 1006 [] refl (refl, (refl, (refl, tt)))

-- The browser's socket then is not closed, and its frames go to a closed socket.
sends_to_nobody :
    let t = run (early ++ hung_up 1006 [] ∷ late) dialling in
    (t.closes ≡ []) × (t.to_upstream ≡ text (codes "b") ∷ [])
unfolding handle
sends_to_nobody = (refl, refl)
