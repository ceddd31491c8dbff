-- ===== src/Console/Hook.antt =====
-- hooks/use-console-stream.ts: the React state that the stream's callbacks fill, and
-- hooks/use-console-history.ts's data beside it, as the console page hands them to the output.
use blockops.Prelude.{ℕ, ◌≤◌, ◌≡◌, true, Option, List, [], foldl, length}
use blockops.Console.Line.{ConsoleLine}
use blockops.Console.Lines.{client_line_limit, slice_last, append_console_line}
use blockops.Console.Lines.Window.{append_console_line-window}
use blockops.Console.Stream.{ConnectionState, connected, disconnected, Stream}
use blockops.Console.Stream.Invariant.{Reach, Reach-IsSound, newest}

pub record ConsoleHook : Type 0 where
  pub connection : ConnectionState
  pub lines : List ConsoleLine

-- The two states after the calls of `setConnection` and `setLines` that the stream has made; both
-- start as `useState` does, and the transition in which a line is appended keeps the order.
unfoldable pub use_console_stream : Stream → ConsoleHook
use_console_stream s = record {
  connection = newest s.states;
  lines = foldl append_console_line [] s.lines;
}

-- Whatever the socket does, the component holds the last 2,000 accepted lines and no more, and it
-- reports `disconnected` once the stream is stopped, and `connected` only with no failed attempt
-- since.
pub use_console_stream-bounded :
    {decode : List ℕ → Option ConsoleLine} {s : Stream}
    → Reach decode s
    → let hook = use_console_stream s in
      (hook.lines ≡ slice_last client_line_limit s.lines)
      × (length hook.lines ≤ client_line_limit)
      × (s.stopped ≡ true → hook.connection ≡ disconnected)
      × (hook.connection ≡ connected → s.attempt ≡ 0)
unfolding use_console_stream
use_console_stream-bounded {s} r =
    let w = append_console_line-window s.lines in
    let sound = Reach-IsSound r in (w.0, w.1, sound.shown_stopped, λ c. (sound.shown_connected c).0)
