-- ===== src/Controller/MqttSettings.antt =====
-- controller.py: `update_mqtt`, on the settings of MQTT that the controller has and on the publisher.
pub mod Kept
mod Tests
use bark_detector.Prelude.{
  ℕ, String, Bool, true, false, not, ◌&&◌, Option, none, some, List, [], ◌∷◌, ◌++◌, map,
  if◌then◌else◌,
}
use bark_detector.Float.{Float}
use bark_detector.Config.{MqttConfig, SourceConfig, get}
use bark_detector.Config.Env.{Env}
use bark_detector.Config.Settings.{RawMqtt, build_mqtt_config}
use bark_detector.Mqtt.{Message}
use bark_detector.Mqtt.Publisher.{
  MqttPublisher, Effect, publish, reconfigure, remove_system_discovery, remove_discovery_for_source,
}
use bark_detector.Controller.{Reply, done, broken}

pub record MqttSettings : Type 0 where
  pub mqtt : MqttConfig
  pub publisher : MqttPublisher

-- What the update asks of the file of the settings and of the broker's client.
pub data Call (F : Type 0) : Type 0 where
  save_config : MqttConfig → Call F
  client_call : Effect F → Call F

-- `{**asdict(old), **raw}`
unfoldable pub merge_mqtt : MqttConfig → RawMqtt → RawMqtt
merge_mqtt old raw = record {
  enabled = some (get raw.enabled old.enabled);
  host = some (get raw.host old.host);
  port = some (get raw.port old.port);
  username = some (get raw.username old.username);
  password = some (get raw.password old.password);
  topic = some (get raw.topic old.topic);
  client_id = some (get raw.client_id old.client_id);
  discovery = some (get raw.discovery old.discovery);
  discovery_prefix = some (get raw.discovery_prefix old.discovery_prefix);
}

module _ {F : Type 0} where
  remove_sources : MqttPublisher → List (SourceConfig F) → List (Message F)
  remove_sources p [] = []
  remove_sources p (source ∷ sources) =
      remove_discovery_for_source p source.id ++ remove_sources p sources

  -- What is published when discovery was turned off.
  unfoldable pub removals :
      MqttPublisher → MqttConfig → MqttConfig → List (SourceConfig F) → List (Message F)
  unfolding remove_sources
  removals p old new sources =
      if old.discovery && not new.discovery
      then remove_system_discovery p ++ remove_sources p sources
      else []

  -- The settings that passed, whether the file could be written, and whether the client stops.
  unfoldable pub update_built :
      MqttSettings
      → List (SourceConfig F)
      → Option MqttConfig
      → Bool
      → Bool
      → MqttSettings × Reply MqttConfig × List (Call F)
  unfolding removals
  update_built s sources none saved stops = (s, broken, [])
  update_built s sources (some new) false stops =
      (record s { mqtt = new }, broken, save_config new ∷ [])
  update_built s sources (some new) true stops =
      let (publisher, effects) = reconfigure s.publisher new stops in
      (
        record { mqtt = new; publisher = publisher },
        done new,
        save_config new
            ∷ map client_call (effects ++ map publish (removals publisher s.mqtt new sources)),
      )

  unfoldable pub update_mqtt :
      Env F
      → MqttSettings
      → List (SourceConfig F)
      → RawMqtt
      → Bool
      → Bool
      → MqttSettings × Reply MqttConfig × List (Call F)
  unfolding merge_mqtt update_built
  update_mqtt env s sources raw saved stops =
      update_built s sources (build_mqtt_config env (merge_mqtt s.mqtt raw)) saved stops
