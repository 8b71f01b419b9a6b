-- ===== src/Mqtt.antt =====
-- What goes over the wire: messages with JSON or plain payloads, and what a broker retains of them.
pub mod Discovery
pub mod Publisher
pub mod Retained
pub mod Status
mod Tests
use bark_detector.Prelude.{
  ◌≡◌, ℕ, String, Bool, Option, none, some, List, [], ◌∷◌, str_eq, if◌then◌else◌,
}
use bark_detector.Prelude.Int.{ℤ}

-- The values that `json.dumps` is given.
mutual
  pub data Json (F : Type 0) : Type 0 where
    str : String → Json F
    num : F → Json F
    int : ℤ → Json F
    texts : List String → Json F
    obj : Fields F → Json F

  pub data Fields (F : Type 0) : Type 0 where
    end : Fields F
    field : String → Json F → Fields F → Fields F

pub data Payload (F : Type 0) : Type 0 where
  plain : String → Payload F
  json : Json F → Payload F

-- A publish at quality 1.
pub record Message (F : Type 0) : Type 0 where
  pub topic : String
  pub payload : Payload F
  pub retain : Bool

-- An empty retained payload clears its topic.
abbrev pub kept_payload : {F : Type 0} → Payload F → Option (Payload F)
kept_payload (plain s) = if str_eq s "" then none else some (plain s)
kept_payload (json j) = some (json j)

-- What a topic keeps after one more message, when it kept `kept` before: a retained message of the
-- topic replaces it.
unfoldable pub settle_one :
    {F : Type 0} → String → Option (Payload F) → Message F → Option (Payload F)
settle_one topic kept m =
    if m.retain then (if str_eq m.topic topic then kept_payload m.payload else kept) else kept

-- A broker, as far as MQTT documents it.
pub record Broker (F : Type 0) : Type 1 where
  pub State : Type 0
  pub deliver : State → Message F → State
  pub kept : State → String → Option (Payload F)
  pub kept-deliver :
      (b : State) (m : Message F) (topic : String)
      → kept (deliver b m) topic ≡ settle_one topic (kept b topic) m

module _ {F : Type 0} (broker : Broker F) where
  unfoldable pub deliver_all : broker.State → List (Message F) → broker.State
  deliver_all b [] = b
  deliver_all b (m ∷ ms) = deliver_all (broker.deliver b m) ms
