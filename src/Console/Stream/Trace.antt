-- ===== src/Console/Stream/Trace.antt =====
-- The stream as its user sees it: one session that is live, waits, or is over.
use blockops.Prelude.{
  ℕ, ◌≡◌, refl, ◌∙◌, Bool, true, false, Option, none, some, List, [], ◌∷◌, ◌++◌, append-nil, ◌==◌,
  if◌then◌else◌, ◌≢◌, arith,
}
use blockops.Console.Line.{ConsoleLine}
use blockops.Console.Stream.{
  Frame, text, binary, Stream, is_current, Event, opened, closed, failed, message, elapsed,
  unmounted, handle,
}
use blockops.Console.Stream.Invariant.{IsSound, cleanup-IsSound, contains}

pub data Phase : Type 0 where
  live : ℕ → Phase
  waiting over : Phase

abbrev pub phase_of : Bool → Option ℕ → Phase
phase_of true socket = over
phase_of false none = waiting
phase_of false (some i) = live i

abbrev pub phase : Stream → Phase
phase s = phase_of s.stopped s.socket

-- The specification: `n` is the number of the next socket.
abbrev pub advance : Phase → ℕ → Event → Phase
advance over n e = over
advance p n unmounted = over
advance (live i) n (closed j) = if i == j then waiting else live i
advance waiting n (elapsed t) = live n
advance p n e = p

abbrev pub decoded : Option ConsoleLine → List ConsoleLine
decoded none = []
decoded (some line) = line ∷ []

-- The lines that an event brings to the user.
abbrev pub accepted : (List ℕ → Option ConsoleLine) → Phase → Event → List ConsoleLine
accepted decode (live i) (message j (text d)) = if i == j then decoded (decode d) else []
accepted decode p e = []

-- A timer elapses only while it is pending.
abbrev pub IsEnabled : Stream → Event → Type 0
IsEnabled s (elapsed t) = contains t s.pending ≡ true
IsEnabled s e = Unit

module _ (decode : List ℕ → Option ConsoleLine) (s : Stream) where
  handle-advance :
      (e : Event)
      → IsSound s
      → IsEnabled s e
      → phase (handle decode e s) ≡ advance (phase s) s.sockets e
  unfolding handle
  handle-advance (opened i) h p = ground arith
  handle-advance (closed i) h p = ground arith
  handle-advance (failed i) h p = ground arith
  handle-advance (message i binary) h p = ground arith
  handle-advance (message i (text d)) h p = ground arith
  handle-advance (elapsed t) h p = ground arith
  handle-advance unmounted h p = ground arith

  handle-accepted : (e : Event) → (handle decode e s).lines ≡ s.lines ++ accepted decode (phase s) e
  unfolding handle
  handle-accepted (opened i) = ground (arith, append-nil s.lines)
  handle-accepted (closed i) = ground (arith, append-nil s.lines)
  handle-accepted (failed i) = ground (arith, append-nil s.lines)
  handle-accepted (message i binary) = ground (arith, append-nil s.lines)
  handle-accepted (message i (text d)) = ground (arith, append-nil s.lines)
  handle-accepted (elapsed t) = ground (arith, append-nil s.lines)
  handle-accepted unmounted = ground (arith, append-nil s.lines)

-- From a sound state, every event that can happen there moves the stream as the specification says,
-- and hands over exactly the lines that decode from text frames of the current socket.
pub handle-refines :
    (decode : List ℕ → Option ConsoleLine) (s : Stream) (e : Event)
    → IsSound s
    → IsEnabled s e
    → (phase (handle decode e s) ≡ advance (phase s) s.sockets e)
      × ((handle decode e s).lines ≡ s.lines ++ accepted decode (phase s) e)
handle-refines decode s e h p = (handle-advance decode s e h p, handle-accepted decode s e)

-- An event of a socket that is not the current one changes nothing.
pub handle-stale :
    (decode : List ℕ → Option ConsoleLine) (s : Stream) (i : ℕ) (frame : Frame)
    → is_current s.socket i ≡ false
    → (handle decode (opened i) s ≡ s)
      × (handle decode (message i frame) s ≡ s)
      × (handle decode (closed i) s ≡ s)
      × (handle decode (failed i) s ≡ s)
unfolding handle
handle-stale decode s i binary h = ground arith
handle-stale decode s i (text d) h = ground arith

handle_stopped :
    (decode : List ℕ → Option ConsoleLine) (s : Stream) (e : Event)
    → IsSound s
    → s.stopped ≡ true
    → e ≢ unmounted
    → handle decode e s ≡ s
unfolding handle
handle_stopped decode s (opened i) h p n = ground arith
handle_stopped decode s (closed i) h p n = ground arith
handle_stopped decode s (failed i) h p n = ground arith
handle_stopped decode s (message i binary) h p n = refl
handle_stopped decode s (message i (text d)) h p n = ground arith
handle_stopped decode s (elapsed t) h p n = ground arith
handle_stopped decode s unmounted h p n = absurd (n refl)

abbrev pub run : (List ℕ → Option ConsoleLine) → List Event → Stream → Stream
run decode [] s = s
run decode (e ∷ es) s = run decode es (handle decode e s)

-- What a stopped stream may no longer change.
pub record IsQuiet (s t : Stream) : Type 0 where
  pub stopped : t.stopped ≡ true
  pub sockets : t.sockets ≡ s.sockets
  pub timers : t.timers ≡ s.timers
  pub closing : t.closing ≡ s.closing
  pub lines : t.lines ≡ s.lines

unmounted_again :
    (decode : List ℕ → Option ConsoleLine) (s : Stream)
    → IsSound s
    → s.stopped ≡ true
    → IsQuiet s (handle decode unmounted s)
unfolding handle
unmounted_again decode s h p = ground arith

IsQuiet-trans : {s t u : Stream} → IsQuiet s t → IsQuiet t u → IsQuiet s u
IsQuiet-trans a b = record {
  stopped = b.stopped;
  sockets = b.sockets ∙ a.sockets;
  timers = b.timers ∙ a.timers;
  closing = b.closing ∙ a.closing;
  lines = b.lines ∙ a.lines;
}

IsQuiet-of_eq : {s t : Stream} → s.stopped ≡ true → t ≡ s → IsQuiet s t
IsQuiet-of_eq {s} p e =
    rw e (record { stopped = p; sockets = refl; timers = refl; closing = refl; lines = refl })

handle-IsQuiet :
    (decode : List ℕ → Option ConsoleLine) (s : Stream) (e : Event)
    → IsSound s
    → s.stopped ≡ true
    → IsSound (handle decode e s) × IsQuiet s (handle decode e s)
handle-IsQuiet decode s unmounted h p =
    (unfold handle in cleanup-IsSound s h, unmounted_again decode s h p)
handle-IsQuiet decode s e h p =
    let same : handle decode e s ≡ s = handle_stopped decode s e h p (λ q. cc) in
    (rw same h, IsQuiet-of_eq p same)

-- After the cleanup no event whatever creates a socket, schedules a timer, closes a socket a
-- second time or hands over a line.
pub run_stopped :
    (decode : List ℕ → Option ConsoleLine) (es : List Event) (s : Stream)
    → IsSound s
    → s.stopped ≡ true
    → IsQuiet s (run decode es s)
run_stopped decode [] s h p = IsQuiet-of_eq p refl
run_stopped decode (e ∷ es) s h p =
    let (h', q) = handle-IsQuiet decode s e h p in
    IsQuiet-trans q (run_stopped decode es (handle decode e s) h' q.stopped)
