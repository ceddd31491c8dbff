-- ===== src/Console/Stream/Invariant.antt =====
-- What holds of the stream after every sequence of events.
use blockops.Prelude.{
  ℕ, ◌<◌, ◌≡◌, Bool, true, false, not, Option, none, some, List, [], ◌∷◌, is_some, ◌==◌, any, arith,
}
use blockops.Console.Line.{ConsoleLine}
use blockops.Console.Stream.{
  ConnectionState, connecting, connected, reconnecting, disconnected, Frame, text, binary, Stream,
  on_open, on_message, on_close, on_error, cleanup, start, opened, closed, failed, message, elapsed,
  unmounted, handle,
}

abbrev pub to_list : Option ℕ → List ℕ
to_list none = []
to_list (some i) = i ∷ []

abbrev pub newest : List ConnectionState → ConnectionState
newest [] = connecting
newest (c ∷ _) = c

abbrev pub contains : ℕ → List ℕ → Bool
contains i xs = any (λ j. j == i) xs

abbrev pub IsBelow : Option ℕ → ℕ → Type 0
IsBelow none n = Unit
IsBelow (some i) n = i < n

pub record IsSound (s : Stream) : Type 0 where
  pub attached_current : s.attached ≡ to_list s.socket
  pub pending_timer : s.pending ≡ to_list s.timer
  pub socket_created : IsBelow s.socket s.sockets
  pub exclusive : s.stopped ≡ false → is_some s.socket ≡ not (is_some s.timer)
  pub released : s.stopped ≡ true → (s.socket ≡ none) × (s.timer ≡ none)
  pub waiting : is_some s.timer ≡ true → (0 < s.attempt) × (newest s.states ≡ reconnecting)
  pub shown_stopped : s.stopped ≡ true → newest s.states ≡ disconnected
  pub shown_running : s.stopped ≡ false → newest s.states ≡ disconnected → ⊥
  pub shown_connected : newest s.states ≡ connected → (s.attempt ≡ 0) × (is_some s.socket ≡ true)

pub start-IsSound : IsSound start
unfolding start
start-IsSound = ground arith

-- What the browser may do next: any event of a socket that exists, current or not, the elapsing
-- of a timer that is pending, and the unmounting of the component.
pub data Step (decode : List ℕ → Option ConsoleLine) (s : Stream) : Stream → Type 0 where
  open_ : (i : ℕ) → i < s.sockets → Step decode s (handle decode (opened i) s)
  close_ : (i : ℕ) → i < s.sockets → Step decode s (handle decode (closed i) s)
  fail_ : (i : ℕ) → i < s.sockets → Step decode s (handle decode (failed i) s)
  receive :
      (i : ℕ) (frame : Frame) → i < s.sockets → Step decode s (handle decode (message i frame) s)
  elapse : (t : ℕ) → contains t s.pending ≡ true → Step decode s (handle decode (elapsed t) s)
  unmount : Step decode s (handle decode unmounted s)

pub data Reach (decode : List ℕ → Option ConsoleLine) : Stream → Type 0 where
  here : Reach decode start
  next : {s t : Stream} → Reach decode s → Step decode s t → Reach decode t

on_open-IsSound : (i : ℕ) (s : Stream) → IsSound s → IsSound (on_open i s)
unfolding on_open
on_open-IsSound i s h = ground arith

on_close-IsSound : (i : ℕ) (s : Stream) → IsSound s → IsSound (on_close i s)
unfolding on_close
on_close-IsSound i s h = ground arith

on_error-IsSound : (i : ℕ) (s : Stream) → IsSound s → IsSound (on_error i s)
unfolding on_error
on_error-IsSound i s h = ground arith

on_message-IsSound :
    (decode : List ℕ → Option ConsoleLine) (i : ℕ) (frame : Frame) (s : Stream)
    → IsSound s
    → IsSound (on_message decode i frame s)
unfolding on_message
on_message-IsSound decode i binary s h = h
on_message-IsSound decode i (text d) s h = ground arith

pub cleanup-IsSound : (s : Stream) → IsSound s → IsSound (cleanup s)
unfolding cleanup
cleanup-IsSound s h = ground arith

elapsed-IsSound :
    (decode : List ℕ → Option ConsoleLine) (t : ℕ) (s : Stream)
    → contains t s.pending ≡ true
    → IsSound s
    → IsSound (handle decode (elapsed t) s)
unfolding handle
elapsed-IsSound decode t s p h = ground arith

Step-IsSound :
    {decode : List ℕ → Option ConsoleLine} {s t : Stream} → Step decode s t → IsSound s → IsSound t
unfolding handle
Step-IsSound {s} (open_ i p) h = on_open-IsSound i s h
Step-IsSound {s} (close_ i p) h = on_close-IsSound i s h
Step-IsSound {s} (fail_ i p) h = on_error-IsSound i s h
Step-IsSound {decode} {s} (receive i frame p) h = on_message-IsSound decode i frame s h
Step-IsSound {decode} {s} (elapse t p) h = elapsed-IsSound decode t s p h
Step-IsSound {s} unmount h = cleanup-IsSound s h

-- After any events: while the stream runs it has exactly one of a socket and a pending timer; only
-- the current socket has handlers and only the timer in `timer` is pending; once stopped it has
-- neither; and the last state reported is `disconnected` exactly when it is stopped,
-- `reconnecting` while it waits, and `connected` only with a socket and no failed attempt.
pub Reach-IsSound : {decode : List ℕ → Option ConsoleLine} {s : Stream} → Reach decode s → IsSound s
Reach-IsSound here = start-IsSound
Reach-IsSound (next r st) = Step-IsSound st (Reach-IsSound r)
