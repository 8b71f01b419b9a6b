-- ===== src/WsHub.antt =====
-- ws_hub.py: the hub between the background threads and the browser tabs. A queue is a number, and
-- what its reader takes out is left out: it holds all that was put into it, oldest first.
pub mod Delivery
mod Tests
use bark_detector.Prelude.{ℕ, suc, Bool, not, List, [], ◌∷◌, ◌++◌, ◌==◌, if◌then◌else◌}
use bark_detector.EventStore.{has_id}

pub record WsHub (M : Type 0) : Type 0 where
  -- the set of registered queues
  pub clients : List ℕ
  pub queues : ℕ → List M
  -- the next object that `queue.Queue()` makes
  pub next_queue : ℕ

abbrev pub init : {M : Type 0} → WsHub M
init = record { clients = []; queues = λ q. []; next_queue = 0 }

-- `set.discard`
unfoldable pub discard : ℕ → List ℕ → List ℕ
discard q [] = []
discard q (client ∷ clients) =
    let rest = discard q clients in if client == q then rest else client ∷ rest

module _ {M : Type 0} where
  unfoldable pub register : WsHub M → WsHub M × ℕ
  register hub = (
    record hub { clients = hub.next_queue ∷ hub.clients; next_queue = suc hub.next_queue },
    hub.next_queue,
  )

  unfoldable pub unregister : WsHub M → ℕ → WsHub M
  unregister hub q = record hub { clients = discard q hub.clients }

  -- Every registered queue gets the message once.
  unfoldable pub broadcast : WsHub M → M → WsHub M
  broadcast hub message = record hub {
    queues = λ q. if has_id hub.clients q then hub.queues q ++ message ∷ [] else hub.queues q;
  }
