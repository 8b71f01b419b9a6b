-- ===== src/Web/Pushes.antt =====
-- What a connection of web.py pushes to its tab of what is broadcast.
use bark_detector.Prelude.{
  ℕ, zero, suc, ◌≡◌, refl, sym, ap, ◌∙◌, Bool, true, false, Option, none, some, List, [], ◌∷◌, ◌++◌,
  length, drop, append-nil, append_assoc, arith, ◌==◌, Bool-cases, inl, inr,
}
use bark_detector.EventStore.{has_id}
use bark_detector.WsHub.{WsHub, register, unregister, broadcast, discard}
use bark_detector.Web.Connection.{
  Turn, Received, fails, closed, times_out, gets, Frame, hello, reply, push, Connection,
  broadcast_all, replies, pushed, finish, drain, drained, drain_outbound, after_receive, turn_of,
  turn, turns, greeted, serve_ws_client,
}

has_id_discarded : (q : ℕ) (clients : List ℕ) → has_id (discard q clients) q ≡ false
unfolding has_id discard
has_id_discarded q [] = refl
has_id_discarded q (client ∷ clients) = ground (arith, has_id_discarded q clients)

drop_append : {A : Type 0} (xs ys : List A) → drop (length xs) (xs ++ ys) ≡ ys
drop_append [] ys = refl
drop_append (x ∷ xs) ys = drop_append xs ys

eq_self : (n : ℕ) → (n == n) ≡ true
eq_self n = ground arith

module _ {M : Type 0} where
  -- The messages that were pushed, in their order.
  abbrev pub pushes : List (Frame M) → List M
  pushes [] = []
  pushes (hello ∷ frames) = pushes frames
  pushes (reply m ∷ frames) = pushes frames
  pushes (push m ∷ frames) = m ∷ pushes frames

  pushes-append : (xs ys : List (Frame M)) → pushes (xs ++ ys) ≡ pushes xs ++ pushes ys
  pushes-append [] ys = refl
  pushes-append (hello ∷ xs) ys = pushes-append xs ys
  pushes-append (reply m ∷ xs) ys = pushes-append xs ys
  pushes-append (push m ∷ xs) ys = ap (◌∷◌ m) (pushes-append xs ys)

  pushes-replies : (ms : List M) → pushes (replies ms) ≡ []
  pushes-replies [] = refl
  pushes-replies (m ∷ ms) = pushes-replies ms

  pushes-pushed : (ms : List M) → pushes (pushed ms) ≡ ms
  pushes-pushed [] = refl
  pushes-pushed (m ∷ ms) = ap (◌∷◌ m) (pushes-pushed ms)

  abbrev pub all_broadcast : List (Turn M) → List M
  all_broadcast [] = []
  all_broadcast (t ∷ ts) = t.meanwhile ++ all_broadcast ts

  clients-broadcast_all :
      (hub : WsHub M) (ms : List M) → (broadcast_all hub ms).clients ≡ hub.clients
  unfolding broadcast_all broadcast
  clients-broadcast_all hub [] = refl
  clients-broadcast_all hub (m ∷ ms) = clients-broadcast_all (broadcast hub m) ms

  queues-broadcast_all :
      (hub : WsHub M) (q : ℕ) (ms : List M)
      → has_id hub.clients q ≡ true
      → (broadcast_all hub ms).queues q ≡ hub.queues q ++ ms
  unfolding broadcast_all broadcast
  queues-broadcast_all hub q [] h = sym (append-nil (hub.queues q))
  queues-broadcast_all hub q (m ∷ ms) h =
      queues-broadcast_all (broadcast hub m) q ms h ∙ rw h (append_assoc (hub.queues q) (m ∷ []) ms)

  -- What is drained is the front of what waits, and all of it if no send raises.
  record Drains (ms : List M) (r : List M × Bool) : Type 0 where
    left : List M
    front : r.0 ++ left ≡ ms
    whole : r.1 ≡ true → left ≡ []

  drain-Drains : (send_raises : Option ℕ) (ms : List M) → Drains ms (drain send_raises ms)
  unfolding drain
  drain-Drains send_raises [] = record { left = []; front = refl; whole = λ e. refl }
  drain-Drains none (m ∷ ms) =
      let d = drain-Drains none ms in
      record { left = d.left; front = ap (◌∷◌ m) d.front; whole = d.whole }
  drain-Drains (some zero) (m ∷ ms) = record {
    left = m ∷ ms;
    front = refl;
    whole = λ e. absurd (cc);
  }
  drain-Drains (some (suc n)) (m ∷ ms) =
      let d = drain-Drains (some n) ms in
      record { left = d.left; front = ap (◌∷◌ m) d.front; whole = d.whole }

  -- While a connection is served its queue is registered, and all that was broadcast since then,
  -- `past`, was pushed; once it is not, its queue is not registered, and what was pushed is the
  -- front of what was broadcast.
  abbrev Serves : List M → Connection M → Type 0
  Serves past c =
      (has_id c.hub.clients c.queue ≡ true)
      × (c.hub.queues c.queue ≡ past)
      × (c.taken ≡ length past)
      × (pushes c.sent ≡ past)

  abbrev Ended : List M → Connection M → Type 0
  Ended past c =
      (has_id c.hub.clients c.queue ≡ false) × (rest : List M) × (pushes c.sent ++ rest ≡ past)

  abbrev Keeps : List M → Connection M → Type 0
  Keeps past c = (c.serving ≡ true → Serves past c) × (c.serving ≡ false → Ended past c)

  finish-Keeps :
      (past rest : List M) (c : Connection M) → pushes c.sent ++ rest ≡ past → Keeps past (finish c)
  unfolding finish unregister
  finish-Keeps past rest c e =
      ((λ s. absurd (cc)), λ s. (has_id_discarded c.queue c.hub.clients, rest, e))

  pushed_after :
      (past ms : List M) (c : Connection M)
      → pushes c.sent ≡ past
      → pushes (c.sent ++ pushed ms) ≡ past ++ ms
  pushed_after past ms c p = pushes-append c.sent (pushed ms) ∙ rw (p, pushes-pushed ms) refl

  replied_after :
      (past ms : List M) (c : Connection M)
      → pushes c.sent ≡ past
      → pushes (c.sent ++ replies ms) ≡ past
  replied_after past ms c p =
      pushes-append c.sent (replies ms) ∙ rw (p, pushes-replies ms) (append-nil past)

  drained-Keeps :
      (past new : List M) (c : Connection M) (r : List M × Bool)
      → has_id c.hub.clients c.queue ≡ true
      → c.hub.queues c.queue ≡ past ++ new
      → c.serving ≡ true
      → pushes c.sent ≡ past
      → Drains new r
      → Keeps (past ++ new) (drained c r)
  unfolding drained
  drained-Keeps past new c (ms, true) h q s p d =
      let sent = pushed_after past ms c p in
      let none_left : ms ≡ new =
        sym (append-nil ms) ∙ (ap (λ l. ms ++ l) (sym (d.whole refl)) ∙ d.front) in
      ((λ e. (h, q, ap length q, sent ∙ ap (λ l. past ++ l) none_left)), λ e. absurd (cc))
  drained-Keeps past new c (ms, false) h q s p d =
      finish-Keeps (past ++ new) d.left
        (record c { taken = length (c.hub.queues c.queue); sent = c.sent ++ pushed ms })
        (ap (λ l. l ++ d.left) (pushed_after past ms c p)
          ∙ (append_assoc past ms d.left ∙ ap (λ l. past ++ l) d.front))

  drain_outbound-Keeps :
      (send_raises : Option ℕ) (past new : List M) (c : Connection M)
      → has_id c.hub.clients c.queue ≡ true
      → c.hub.queues c.queue ≡ past ++ new
      → c.taken ≡ length past
      → c.serving ≡ true
      → pushes c.sent ≡ past
      → Keeps (past ++ new) (drain_outbound send_raises c)
  unfolding drain_outbound
  drain_outbound-Keeps send_raises past new c h q k s p =
      let waits : drop c.taken (c.hub.queues c.queue) ≡ new = rw (k, q) (drop_append past new) in
      drained-Keeps past new c _ h q s p (rw waits (drain-Drains send_raises new))

  after_receive-Keeps :
      (send_raises : Option ℕ) (past new : List M) (r : Received M) (c : Connection M)
      → has_id c.hub.clients c.queue ≡ true
      → c.hub.queues c.queue ≡ past ++ new
      → c.taken ≡ length past
      → c.serving ≡ true
      → pushes c.sent ≡ past
      → Keeps (past ++ new) (after_receive send_raises r c)
  unfolding after_receive
  after_receive-Keeps send_raises past new fails c h q k s p =
      finish-Keeps (past ++ new) new c (ap (λ l. l ++ new) p)
  after_receive-Keeps send_raises past new closed c h q k s p =
      finish-Keeps (past ++ new) new c (ap (λ l. l ++ new) p)
  after_receive-Keeps send_raises past new times_out c h q k s p =
      drain_outbound-Keeps send_raises past new c h q k s p
  after_receive-Keeps send_raises past new (gets ms true) c h q k s p =
      finish-Keeps (past ++ new) new (record c { sent = c.sent ++ replies ms })
        (ap (λ l. l ++ new) (replied_after past ms c p))
  after_receive-Keeps send_raises past new (gets ms false) c h q k s p =
      drain_outbound-Keeps send_raises past new (record c { sent = c.sent ++ replies ms }) h q k s
        (replied_after past ms c p)

  turn_of-Keeps :
      (past : List M) (t : Turn M) (c : Connection M) (serving : Bool)
      → c.serving ≡ serving
      → Keeps past c
      → Keeps (past ++ t.meanwhile) (turn_of serving c t)
  unfolding turn_of
  turn_of-Keeps past t c true e keep =
      let (h, q, k, p) = keep.0 e in
      after_receive-Keeps t.send_raises past t.meanwhile t.received
        (record c { hub = broadcast_all c.hub t.meanwhile })
        (ap (λ l. has_id l c.queue) (clients-broadcast_all c.hub t.meanwhile) ∙ h)
        (queues-broadcast_all c.hub c.queue t.meanwhile h ∙ ap (λ l. l ++ t.meanwhile) q) k e p
  turn_of-Keeps past t c false e keep =
      let (h, rest, f) = keep.1 e in
      (
        (λ s. absurd (cc)),
        λ s. (
          ap (λ l. has_id l c.queue) (clients-broadcast_all c.hub t.meanwhile) ∙ h,
          rest ++ t.meanwhile,
          sym (append_assoc (pushes c.sent) rest t.meanwhile) ∙ ap (λ l. l ++ t.meanwhile) f,
        ),
      )

  turn-Keeps :
      (past : List M) (t : Turn M) (c : Connection M)
      → Keeps past c
      → Keeps (past ++ t.meanwhile) (turn c t)
  unfolding turn
  turn-Keeps past t c keep = turn_of-Keeps past t c c.serving refl keep

  turns-Keeps :
      (past : List M) (c : Connection M) (ts : List (Turn M))
      → Keeps past c
      → Keeps (past ++ all_broadcast ts) (turns c ts)
  unfolding turns
  turns-Keeps past c [] keep = rw (append-nil past) keep
  turns-Keeps past c (t ∷ ts) keep =
      rw (← append_assoc past t.meanwhile (all_broadcast ts))
        (turns-Keeps (past ++ t.meanwhile) (turn c t) ts (turn-Keeps past t c keep))

  greeted-Keeps :
      (hello_raises : Bool) (c : Connection M)
      → has_id c.hub.clients c.queue ≡ true
      → c.hub.queues c.queue ≡ []
      → c.taken ≡ 0
      → c.sent ≡ []
      → c.serving ≡ true
      → Keeps [] (greeted hello_raises c)
  unfolding greeted
  greeted-Keeps true c h q k p s = finish-Keeps [] [] c (rw p refl)
  greeted-Keeps false c h q k p s = ((λ t. (h, q, k, refl)), λ t. absurd (cc))

  pushes-Keeps :
      (past : List M) (c : Connection M)
      → Keeps past c
      → (has_id c.hub.clients c.queue ≡ c.serving)
        × (rest : List M) × (pushes c.sent ++ rest ≡ past)
        × (c.serving ≡ true → rest ≡ [])
  pushes-Keeps past c keep = elim (Bool-cases c.serving) [
    | inl e ↦
        let (h, q, k, p) = keep.0 e in (h ∙ sym e, [], append-nil (pushes c.sent) ∙ p, λ s. refl)
    | inr e ↦ let (h, rest, f) = keep.1 e in (h ∙ sym e, rest, f, λ s. absurd (cc))
  ]

  -- Where the queue that the hub makes is empty, and whatever is received, is broadcast meanwhile
  -- and fails to be sent, a served connection has its queue registered and has pushed all that was
  -- broadcast up to its last turn, each message once and in order; one that ended has its queue
  -- no longer registered and has pushed the front of what was broadcast.
  pub serve_ws_client-pushes :
      (hub : WsHub M) (hello_raises : Bool) (ts : List (Turn M))
      → hub.queues hub.next_queue ≡ []
      → (let c = serve_ws_client hub hello_raises ts in
          (has_id c.hub.clients c.queue ≡ c.serving)
          × (rest : List M) × (pushes c.sent ++ rest ≡ all_broadcast ts)
          × (c.serving ≡ true → rest ≡ []))
  unfolding serve_ws_client register has_id
  serve_ws_client-pushes hub hello_raises ts new =
      let made : Connection M = record {
        hub = (register hub).0;
        queue = hub.next_queue;
        taken = 0;
        sent = [];
        serving = true;
      } in
      let start = greeted hello_raises made in
      pushes-Keeps (all_broadcast ts) (turns start ts) (
        turns-Keeps [] start ts
          (greeted-Keeps hello_raises made (rw (eq_self hub.next_queue) refl) new refl refl refl))
