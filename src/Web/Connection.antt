-- ===== src/Web/Connection.antt =====
-- `_serve_ws_client` and `_drain_outbound` of web.py: the connection of a browser tab, with its
-- queue of the hub. What the tab and the other threads do comes in, turn by turn.
use bark_detector.Prelude.{
  ℕ, zero, suc, Bool, true, false, Option, none, some, List, [], ◌∷◌, ◌++◌, length, drop,
  if◌then◌else◌,
}
use bark_detector.WsHub.{WsHub, register, unregister, broadcast}

-- `ws.receive`: it raises, it gives None and the socket is not connected, it gives None, or it
-- gives a message, on which `_dispatch` sends these replies and raises or not.
pub data Received (M : Type 0) : Type 0 where
  fails : Received M
  closed : Received M
  times_out : Received M
  gets : List M → Bool → Received M

-- A turn of the loop: what other threads broadcast before the queue is read, what is received, and
-- how many messages can be sent before a send raises, if one does.
pub record Turn (M : Type 0) : Type 0 where
  pub meanwhile : List M
  pub received : Received M
  pub send_raises : Option ℕ

pub data Frame (M : Type 0) : Type 0 where
  hello : Frame M
  reply : M → Frame M
  push : M → Frame M

-- The messages of the queue that were taken out, the frames that were sent, and whether the
-- connection is still served.
pub record Connection (M : Type 0) : Type 0 where
  pub hub : WsHub M
  pub queue : ℕ
  pub taken : ℕ
  pub sent : List (Frame M)
  pub serving : Bool

module _ {M : Type 0} where
  unfoldable pub broadcast_all : WsHub M → List M → WsHub M
  broadcast_all hub [] = hub
  broadcast_all hub (m ∷ ms) = broadcast_all (broadcast hub m) ms

  abbrev pub replies : List M → List (Frame M)
  replies [] = []
  replies (m ∷ ms) = reply m ∷ replies ms

  abbrev pub pushed : List M → List (Frame M)
  pushed [] = []
  pushed (m ∷ ms) = push m ∷ pushed ms

  -- The `finally` clause.
  unfoldable pub finish : Connection M → Connection M
  finish c = record c { hub = unregister c.hub c.queue; serving = false }

  -- What `_drain_outbound` sends of the messages that wait, and whether it returns.
  unfoldable pub drain : Option ℕ → List M → List M × Bool
  drain send_raises [] = ([], true)
  drain none (m ∷ ms) = (m ∷ (drain none ms).0, (drain none ms).1)
  drain (some zero) (m ∷ ms) = ([], false)
  drain (some (suc n)) (m ∷ ms) = (m ∷ (drain (some n) ms).0, (drain (some n) ms).1)

  -- The connection after these were sent; where a send raised it is left.
  unfoldable pub drained : Connection M → List M × Bool → Connection M
  unfolding finish
  drained c (ms, returned) =
      let next : Connection M = record c {
        taken = length (c.hub.queues c.queue);
        sent = c.sent ++ pushed ms;
      } in
      if returned then next else finish next

  unfoldable pub drain_outbound : Option ℕ → Connection M → Connection M
  unfolding drain drained
  drain_outbound send_raises c = drained c (drain send_raises (drop c.taken (c.hub.queues c.queue)))

  unfoldable pub after_receive : Option ℕ → Received M → Connection M → Connection M
  unfolding drain_outbound finish
  after_receive send_raises fails c = finish c
  after_receive send_raises closed c = finish c
  after_receive send_raises times_out c = drain_outbound send_raises c
  after_receive send_raises (gets ms true) c = finish (record c { sent = c.sent ++ replies ms })
  after_receive send_raises (gets ms false) c =
      drain_outbound send_raises (record c { sent = c.sent ++ replies ms })

  -- A turn, if the connection is served; other threads broadcast in any case.
  unfoldable pub turn_of : Bool → Connection M → Turn M → Connection M
  unfolding broadcast_all after_receive
  turn_of true c t =
      after_receive t.send_raises t.received (record c { hub = broadcast_all c.hub t.meanwhile })
  turn_of false c t = record c { hub = broadcast_all c.hub t.meanwhile }

  unfoldable pub turn : Connection M → Turn M → Connection M
  unfolding turn_of
  turn c t = turn_of c.serving c t

  unfoldable pub turns : Connection M → List (Turn M) → Connection M
  unfolding turn
  turns c [] = c
  turns c (t ∷ ts) = turns (turn c t) ts

  -- After the first frame, which may not be sent.
  unfoldable pub greeted : Bool → Connection M → Connection M
  unfolding finish
  greeted true c = finish c
  greeted false c = record c { sent = hello ∷ [] }

  unfoldable pub serve_ws_client : WsHub M → Bool → List (Turn M) → Connection M
  unfolding turns greeted
  serve_ws_client hub hello_raises ts =
      let (registered, queue) = register hub in
      turns
        (greeted hello_raises
          (record { hub = registered; queue = queue; taken = 0; sent = []; serving = true }))
        ts
