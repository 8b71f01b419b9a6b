-- ===== src/WsHub/Tests.antt =====
-- A run of the hub of ws_hub.py, and its theorem at that run.
use bark_detector.Prelude.{ℕ, ◌≡◌, refl, List, [], ◌∷◌, ◌++◌}
use bark_detector.EventStore.{has_id}
use bark_detector.WsHub.{WsHub, discard, register, unregister, broadcast}
use bark_detector.WsHub.Delivery.{
  Call, register_call, unregister_call, broadcast_call, run, heard, delivered,
}

abbrev start : WsHub ℕ
start = record { clients = []; queues = λ q. []; next_queue = 0 }

abbrev calls : List (Call ℕ)
calls =
    broadcast_call 1
    ∷ register_call
    ∷ broadcast_call 2
    ∷ register_call
    ∷ broadcast_call 3
    ∷ unregister_call 0
    ∷ broadcast_call 4
    ∷ []

first_test : (run start calls).queues 0 ≡ 2 ∷ 3 ∷ []
unfolding run register unregister broadcast discard has_id
first_test = refl

second_test : (run start calls).queues 1 ≡ 3 ∷ 4 ∷ []
unfolding run register unregister broadcast discard has_id
second_test = refl

delivered_example :
    (run start calls).queues 0 ≡ start.queues 0 ++ heard 0 0 (has_id start.clients 0) calls
delivered_example = delivered start calls 0
