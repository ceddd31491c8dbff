-- ===== src/Console/Stream/Tests.antt =====
-- Concrete runs of console-stream.ts, and the theorems about it at concrete inputs.
use blockops.Prelude.{ℕ, ◌≡◌, refl, true, false, Option, none, some, List, [], ◌∷◌, ◌++◌, arith}
use blockops.Console.Line.{ConsoleLine}
use blockops.Console.Stream.{
  binary, text, connecting, connected, reconnecting, disconnected, Stream, Event, opened, closed,
  message, elapsed, unmounted, start, handle,
}
use blockops.Console.Stream.Invariant.{
  IsSound, start-IsSound, Reach, here, next, close_, elapse, Reach-IsSound,
}
use blockops.Console.Stream.Trace.{
  phase, advance, accepted, handle-refines, IsQuiet, run, run_stopped,
}
use blockops.Console.Stream.Backoff.{retry}

abbrev decode_any : List ℕ → Option ConsoleLine
decode_any [] = none
decode_any d = some (record { sequence = 1; timestamp = []; text = d })

abbrev life : List Event
life =
    closed 0
    ∷ elapsed 0
    ∷ opened 1
    ∷ message 1 (text (104 ∷ []))
    ∷ message 0 (text (105 ∷ []))
    ∷ message 1 binary
    ∷ message 1 (text [])
    ∷ closed 1
    ∷ unmounted
    ∷ []

life_states :
    (run decode_any life start).states
    ≡ disconnected ∷ reconnecting ∷ connected ∷ reconnecting ∷ reconnecting ∷ connecting ∷ []
unfolding start handle
life_states = refl

life_delays : (run decode_any life start).delays ≡ 500 ∷ 500 ∷ []
unfolding start handle
life_delays = refl

-- The delays of console-stream.test.ts.
eight_delays :
    (retry decode_any 8 0 start).delays
    ≡ 500 ∷ 1000 ∷ 2000 ∷ 4000 ∷ 8000 ∷ 10000 ∷ 10000 ∷ 10000 ∷ []
unfolding start handle
eight_delays = refl

reopened : Reach decode_any (handle decode_any (elapsed 0) (handle decode_any (closed 0) start))
unfolding start handle
reopened = next (next here (close_ 0 (omega arith))) (elapse 0 refl)

Reach-IsSound_example : IsSound (handle decode_any (elapsed 0) (handle decode_any (closed 0) start))
Reach-IsSound_example = Reach-IsSound reopened

handle-refines_example :
    (phase (handle decode_any (closed 0) start) ≡ advance (phase start) start.sockets (closed 0))
    × ((handle decode_any (closed 0) start).lines
        ≡ start.lines ++ accepted decode_any (phase start) (closed 0))
handle-refines_example = handle-refines decode_any start (closed 0) start-IsSound tt

abbrev ended : Stream
ended = handle decode_any unmounted start

ended-IsSound : IsSound ended
unfolding start handle
ended-IsSound = ground arith

ended_stopped : ended.stopped ≡ true
unfolding start handle
ended_stopped = refl

run_stopped_example : IsQuiet ended (run decode_any life ended)
run_stopped_example = run_stopped decode_any life ended ended-IsSound ended_stopped

start_running : start.stopped ≡ false
unfolding start
start_running = refl

start_socket : start.socket ≡ some 0
unfolding start
start_socket = refl
