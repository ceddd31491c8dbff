-- ===== src/Dev/Tunnel.antt =====
-- frontend/dev.ts: one upgrade request to a WebSocket, from the dialling of the API on.
--
-- The state is what `connectUpstream`, the route's handler and the handlers of `websocket` share: the
-- promise, the buffer, which handlers the upstream socket has, and what was called outside. The
-- events are those of both sockets, and `resumed`, where the handler goes on after its `await`:
-- `upgrades` is what `server.upgrade` returns there. Bun opens the browser's socket only after a
-- successful upgrade, and calls its other handlers only after `open`.
pub mod Order
pub mod Answer
mod Tests
use blockops.Prelude.{
  ℕ, ◌+◌, Bool, true, false, Option, none, some, List, [], ◌∷◌, ◌++◌, ◌==◌, if◌then◌else◌,
}
use blockops.Js.Text.{Text, codes}

-- `string | Buffer`
pub data Frame : Type 0 where
  text bytes : Text → Frame

-- What the route's handler returns: 502, 400, or `undefined` for a request that was upgraded.
pub data Reply : Type 0 where
  refused failed upgraded : Reply

pub record Tunnel : Type 0 where
  pub connected : Option Bool  -- what the promise has resolved with
  pub buffered : List Frame
  pub reply : Option Reply
  pub opened : Bool  -- whether `open` has replaced the handlers of the upstream socket
  pub to_browser : List Frame  -- the calls of `socket.send`
  pub closes : List (ℕ × Text)  -- the calls of `socket.close`
  pub to_upstream : List Frame  -- the calls of `upstream.send`
  pub upstream_closes : ℕ  -- the calls of `upstream.close`

abbrev pub dialling : Tunnel
dialling = record {
  connected = none;
  buffered = [];
  reply = none;
  opened = false;
  to_browser = [];
  closes = [];
  to_upstream = [];
  upstream_closes = 0;
}

-- `resolve`: a promise keeps its first value.
abbrev pub settle : Bool → Option Bool → Option Bool
settle b none = some b
settle b (some c) = some c

-- `socket.close(code, reason)`
abbrev pub close_browser : ℕ → Text → Tunnel → Tunnel
close_browser code reason t = record t { closes = t.closes ++ (code, reason) ∷ [] }

unfoldable pub on_upstream_close : ℕ → Text → Tunnel → Tunnel
on_upstream_close code reason t =
    if t.opened
    then close_browser (if code == 0 then 1000 else code) reason t
    else record t { connected = settle false t.connected }

unfoldable pub on_upstream_error : Tunnel → Tunnel
on_upstream_error t =
    if t.opened
    then close_browser 1011 (codes "Upstream WebSocket failed") t
    else record t { connected = settle false t.connected }

unfoldable pub on_upstream_message : Frame → Tunnel → Tunnel
on_upstream_message frame t =
    if t.opened
    then record t { to_browser = t.to_browser ++ frame ∷ [] }
    else record t { buffered = t.buffered ++ frame ∷ [] }

-- The route's handler after `await connectUpstream`.
unfoldable pub respond : Bool → Option Bool → Tunnel → Tunnel
respond upgrades none t = t
respond upgrades (some false) t = record t { reply = some refused }
respond upgrades (some true) t =
    if upgrades
    then record t { reply = some upgraded }
    else record t { upstream_closes = t.upstream_closes + 1; reply = some failed }

-- The loop of `open` over the frames, and the reset of the buffer.
unfoldable pub flush : List Frame → Tunnel → Tunnel
flush [] t = record t { buffered = [] }
flush (frame ∷ frames) t = flush frames (record t { to_browser = t.to_browser ++ frame ∷ [] })

unfoldable pub on_browser_open : Tunnel → Tunnel
unfolding flush
on_browser_open t = record (flush t.buffered t) { opened = true }

pub data Event : Type 0 where
  dialled broke browser_opened browser_closed : Event
  hung_up : ℕ → Text → Event
  received browser_sent : Frame → Event
  resumed : Bool → Event

-- Whether `open` is due.
abbrev pub is_upgraded : Option Reply → Bool
is_upgraded (some upgraded) = true
is_upgraded _ = false

unfoldable pub handle : Event → Tunnel → Tunnel
unfolding on_upstream_close on_upstream_error on_upstream_message respond on_browser_open
handle dialled t = record t { connected = settle true t.connected }
handle (hung_up code reason) t = on_upstream_close code reason t
handle broke t = on_upstream_error t
handle (received frame) t = on_upstream_message frame t
handle (resumed upgrades) t = elim t.reply [ none ↦ respond upgrades t.connected t | some _ ↦ t ]
handle browser_opened t =
    let after = on_browser_open t in
    if t.opened then t else if is_upgraded t.reply then after else t
handle (browser_sent frame) t =
    if t.opened then record t { to_upstream = t.to_upstream ++ frame ∷ [] } else t
handle browser_closed t =
    if t.opened then record t { upstream_closes = t.upstream_closes + 1 } else t

abbrev pub run : List Event → Tunnel → Tunnel
run [] t = t
run (e ∷ es) t = run es (handle e t)
