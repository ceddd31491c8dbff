-- ===== src/Console/Stream/Backoff.antt =====
-- Reconnecting while the server is away.
use blockops.Prelude.{
  ℕ, zero, suc, ◌+◌, ◌≡◌, ◌∙◌, ap₂, sym, false, Option, some, List, [], ◌∷◌, ◌++◌, append_assoc,
  append-nil, arith,
}
use blockops.Console.Line.{ConsoleLine}
use blockops.Console.Stream.{Stream, closed, elapsed, reconnect_delay, handle, on_open, on_close}
use blockops.Console.Stream.Invariant.{IsSound}

module _ (decode : List ℕ → Option ConsoleLine) where
  -- The current socket closes, and the timer that this schedules elapses.
  abbrev pub retry_once : ℕ → Stream → Stream
  retry_once i s = handle decode (elapsed s.timers) (handle decode (closed i) s)

  abbrev pub retry : ℕ → ℕ → Stream → Stream
  retry zero i s = s
  retry (suc k) i s = retry k s.sockets (retry_once i s)

-- The delays of `k` attempts in a row, the first being attempt `n + 1`.
abbrev pub delays_from : ℕ → ℕ → List ℕ
delays_from n zero = []
delays_from n (suc k) = reconnect_delay (n + 1) ∷ delays_from (n + 1) k

pub record IsRetried (k : ℕ) (s t : Stream) : Type 0 where
  pub running : t.stopped ≡ false
  pub attempt : t.attempt ≡ s.attempt + k
  pub sockets : t.sockets ≡ s.sockets + k
  pub delays : t.delays ≡ s.delays ++ delays_from s.attempt k

retry_once_lem :
    (decode : List ℕ → Option ConsoleLine) (i : ℕ) (s : Stream)
    → IsSound s
    → s.stopped ≡ false
    → s.socket ≡ some i
    → let t = retry_once decode i s in
      IsSound t
      × (t.stopped ≡ false)
      × (t.socket ≡ some s.sockets)
      × (t.attempt ≡ s.attempt + 1)
      × (t.sockets ≡ s.sockets + 1)
      × (t.delays ≡ s.delays ++ reconnect_delay (s.attempt + 1) ∷ [])
unfolding handle
retry_once_lem decode i s h p q = ground arith

IsRetried-next :
    (k : ℕ) (s t u : Stream)
    → t.attempt ≡ s.attempt + 1
    → t.sockets ≡ s.sockets + 1
    → t.delays ≡ s.delays ++ reconnect_delay (s.attempt + 1) ∷ []
    → IsRetried k t u
    → IsRetried (suc k) s u
IsRetried-next k s t u a c d r = record {
  running = r.running;
  attempt = omega (arith, r.attempt);
  sockets = omega (arith, r.sockets);
  delays =
      r.delays
      ∙ ap₂ (λ xs m. xs ++ delays_from m k) d a
      ∙ append_assoc s.delays (reconnect_delay (s.attempt + 1) ∷ [])
          (delays_from (s.attempt + 1) k);
}

-- A running stream whose next `k` connections all close at once schedules the delays of the next
-- `k` attempts in order, counts each of them, and opens one socket for each, and still runs.
pub retry-IsRetried :
    (decode : List ℕ → Option ConsoleLine) (k i : ℕ) (s : Stream)
    → IsSound s
    → s.stopped ≡ false
    → s.socket ≡ some i
    → IsRetried k s (retry decode k i s)
retry-IsRetried decode zero i s h p q = record {
  running = p;
  attempt = omega arith;
  sockets = omega arith;
  delays = sym (append-nil s.delays);
}
retry-IsRetried decode (suc k) i s h p q =
    let t = retry_once decode i s in
    let l = retry_once_lem decode i s h p q in
    IsRetried-next k s t (retry decode k s.sockets t) l.3 l.4 l.5
      (retry-IsRetried decode k s.sockets t l.0 l.1 l.2)

-- Once a connection opens, the next reconnect waits half a second again, whatever came before.
pub on_open-resets :
    (i : ℕ) (s : Stream)
    → IsSound s
    → s.stopped ≡ false
    → s.socket ≡ some i
    → (on_close i (on_open i s)).delays ≡ s.delays ++ 500 ∷ []
unfolding on_open on_close
on_open-resets i s h p q = ground arith
