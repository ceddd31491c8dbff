-- ===== src/Console/Stream.antt =====
-- console-stream.ts: the socket that streams console lines and reconnects by itself.
--
-- `connectConsoleStream` keeps `socket`, `timer`, `stopped` and `attempt` in variables that its
-- handlers share. Sockets and timers are numbered in the order in which `createSocket` and
-- `schedule` are called; the other fields record what the handlers have done to the outside.
-- `decode` stands for `JSON.parse` and `consoleLineSchema.safeParse`: `none` where one of them fails.
pub mod Delay
pub mod Invariant
pub mod Trace
pub mod Backoff
mod Tests
use blockops.Prelude.{
  ℕ, ◌+◌, ◌-◌, ◌*◌, ◌^◌, min, Bool, true, false, not, ◌&&◌, ◌||◌, Option, none, some, List, [], ◌∷◌,
  ◌++◌, select, is_some, ◌==◌, if◌then◌else◌,
}
use blockops.Console.Line.{ConsoleLine}

pub data ConnectionState : Type 0 where
  connecting connected reconnecting disconnected : ConnectionState

-- `event.data`: a text frame, or a `Blob`
pub data Frame : Type 0 where
  text : List ℕ → Frame
  binary : Frame

pub record Stream : Type 0 where
  pub socket : Option ℕ
  pub timer : Option ℕ
  pub stopped : Bool
  pub attempt : ℕ
  pub sockets : ℕ  -- how many sockets were created
  pub attached : List ℕ  -- the sockets that have handlers
  pub closing : List ℕ  -- the calls of `close`, the newest first
  pub timers : ℕ  -- how many timers were scheduled
  pub pending : List ℕ  -- the timers that have neither elapsed nor been cancelled
  pub delays : List ℕ  -- the delays that were scheduled
  pub states : List ConnectionState  -- the calls of `onConnection`, the newest first
  pub lines : List ConsoleLine  -- the calls of `onLine`

abbrev pub initial : Stream
initial = record {
  socket = none;
  timer = none;
  stopped = false;
  attempt = 0;
  sockets = 0;
  attached = [];
  closing = [];
  timers = 0;
  pending = [];
  delays = [];
  states = [];
  lines = [];
}

-- `attempt - 1` stops at 0, as `Math.max(attempt - 1, 0)` does
unfoldable pub reconnect_delay : ℕ → ℕ
reconnect_delay attempt = min 10000 (500 * 2 ^ min (attempt - 1) 5)

-- `socket === nextSocket`
abbrev pub is_current : Option ℕ → ℕ → Bool
is_current none i = false
is_current (some j) i = j == i

abbrev pub without : ℕ → List ℕ → List ℕ
without i xs = select (λ j. not (j == i)) xs

unfoldable pub connect : Stream → Stream
connect s = if s.stopped then s else record s {
  timer = none;
  states = (if s.attempt == 0 then connecting else reconnecting) ∷ s.states;
  socket = some s.sockets;
  sockets = s.sockets + 1;
  attached = s.sockets ∷ s.attached;
}

unfoldable pub on_open : ℕ → Stream → Stream
on_open i s =
    if s.stopped || not (is_current s.socket i)
    then s
    else record s { attempt = 0; states = connected ∷ s.states }

unfoldable pub on_message : (List ℕ → Option ConsoleLine) → ℕ → Frame → Stream → Stream
on_message decode i binary s = s
on_message decode i (text data_) s =
    if s.stopped || not (is_current s.socket i)
    then s
    else elim (decode data_) [ none ↦ s | some line ↦ record s { lines = s.lines ++ line ∷ [] } ]

unfoldable pub on_close : ℕ → Stream → Stream
unfolding reconnect_delay
on_close i s = if s.stopped || not (is_current s.socket i) || is_some s.timer then s else record s {
  attached = without i s.attached;
  socket = none;
  attempt = s.attempt + 1;
  states = reconnecting ∷ s.states;
  timer = some s.timers;
  timers = s.timers + 1;
  pending = s.timers ∷ s.pending;
  delays = s.delays ++ reconnect_delay (s.attempt + 1) ∷ [];
}

unfoldable pub on_error : ℕ → Stream → Stream
on_error i s =
    if not s.stopped && is_current s.socket i then record s { closing = i ∷ s.closing } else s

-- the two guarded parts of the function that `connectConsoleStream` returns
unfoldable pub cancel_timer : Stream → Stream
cancel_timer s = elim s.timer [
  | none ↦ s
  | some t ↦ record s { timer = none; pending = without t s.pending }
]

unfoldable pub close_socket : Stream → Stream
close_socket s = elim s.socket [
  | none ↦ s
  | some i ↦ record s { socket = none; attached = without i s.attached; closing = i ∷ s.closing }
]

unfoldable pub cleanup : Stream → Stream
unfolding cancel_timer close_socket
cleanup s =
    let released = close_socket (cancel_timer (record s { stopped = true })) in
    record released { states = disconnected ∷ released.states }

unfoldable pub start : Stream
unfolding connect
start = connect initial

pub data Event : Type 0 where
  opened closed failed : ℕ → Event
  message : ℕ → Frame → Event
  elapsed : ℕ → Event
  unmounted : Event

-- What an event does. A socket's handler is run even if it was detached: its guards hold then too.
unfoldable pub handle : (List ℕ → Option ConsoleLine) → Event → Stream → Stream
unfolding connect on_open on_message on_close on_error cleanup
handle decode (opened i) s = on_open i s
handle decode (closed i) s = on_close i s
handle decode (failed i) s = on_error i s
handle decode (message i frame) s = on_message decode i frame s
handle decode (elapsed t) s = connect (record s { pending = without t s.pending })
handle decode unmounted s = cleanup s
