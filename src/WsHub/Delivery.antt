-- ===== src/WsHub/Delivery.antt =====
-- What a queue of the hub of ws_hub.py receives over any sequence of calls.
use bark_detector.Prelude.{
  ℕ, suc, ◌≡◌, refl, ◌∙◌, ap, sym, Bool, true, false, not, ◌&&◌, ◌||◌, List, [], ◌∷◌, ◌++◌,
  append-nil, append_assoc, ◌==◌, arith, if◌then◌else◌,
}
use bark_detector.EventStore.{has_id}
use bark_detector.WsHub.{WsHub, discard, register, unregister, broadcast}

pub data Call (M : Type 0) : Type 0 where
  register_call : Call M
  unregister_call : ℕ → Call M
  broadcast_call : M → Call M

has_id-discard :
    (k q : ℕ) (clients : List ℕ) → has_id (discard k clients) q ≡ (has_id clients q && not (k == q))
unfolding has_id discard
has_id-discard k q [] = refl
has_id-discard k q (client ∷ clients) = ground (arith, has_id-discard k q clients)

module _ {M : Type 0} where
  unfoldable pub run : WsHub M → List (Call M) → WsHub M
  run hub [] = hub
  run hub (register_call ∷ calls) = run (register hub).0 calls
  run hub (unregister_call q ∷ calls) = run (unregister hub q) calls
  run hub (broadcast_call message ∷ calls) = run (broadcast hub message) calls

  -- The messages broadcast between the registration of the queue and its end, when the next new
  -- queue is `next` and the queue is registered at the start if `member` says so.
  abbrev pub heard : ℕ → ℕ → Bool → List (Call M) → List M
  heard q next member [] = []
  heard q next member (register_call ∷ calls) = heard q (suc next) (next == q || member) calls
  heard q next member (unregister_call k ∷ calls) = heard q next (member && not (k == q)) calls
  heard q next member (broadcast_call message ∷ calls) =
      let rest = heard q next member calls in if member then message ∷ rest else rest

  delivered_from :
      (hub : WsHub M) (calls : List (Call M)) (q : ℕ) (member : Bool)
      → has_id hub.clients q ≡ member
      → (run hub calls).queues q ≡ hub.queues q ++ heard q hub.next_queue member calls
  unfolding run register unregister broadcast has_id
  delivered_from hub [] q member e = sym (append-nil (hub.queues q))
  delivered_from hub (register_call ∷ calls) q member e =
      delivered_from (register hub).0 calls q (hub.next_queue == q || member)
        (ap (λ b. hub.next_queue == q || b) e)
  delivered_from hub (unregister_call k ∷ calls) q member e =
      delivered_from (unregister hub k) calls q (member && not (k == q))
        (has_id-discard k q hub.clients ∙ ap (λ b. b && not (k == q)) e)
  delivered_from hub (broadcast_call message ∷ calls) q true e =
      delivered_from (broadcast hub message) calls q true e
      ∙ rw e (append_assoc (hub.queues q) (message ∷ []) (heard q hub.next_queue true calls))
  delivered_from hub (broadcast_call message ∷ calls) q false e =
      delivered_from (broadcast hub message) calls q false e ∙ rw e

  -- Over any sequence of calls on the hub every queue receives exactly the messages that are
  -- broadcast while it is registered, each once and in their order.
  pub delivered :
      (hub : WsHub M) (calls : List (Call M)) (q : ℕ)
      → (run hub calls).queues q
        ≡ hub.queues q ++ heard q hub.next_queue (has_id hub.clients q) calls
  delivered hub calls q = delivered_from hub calls q (has_id hub.clients q) refl
