-- ===== src/Controller/MqttSettings/Tests.antt =====
-- An update of the settings of MQTT in controller.py, and its theorem at it.
use bark_detector.Prelude.{ℕ, ◌≡◌, refl, true, none, some, []}
use bark_detector.Prelude.Int.{pos}
use bark_detector.Config.{MqttConfig}
use bark_detector.Config.Env.{Env, env_override, from_var, to_bool}
use bark_detector.Config.Settings.{RawMqtt, build_mqtt_config, dump_mqtt, or_none}
use bark_detector.Mqtt.Publisher.{init}
use bark_detector.Controller.{done}
use bark_detector.Controller.MqttSettings.{MqttSettings, merge_mqtt, update_built, update_mqtt}
use bark_detector.Controller.MqttSettings.Kept.{Keeps, update_mqtt-Keeps}

abbrev no_env : Env ℕ
no_env = record { var = λ key. none; int_of = λ text. none; float_of = λ text. none }

abbrev nothing : RawMqtt
nothing = record {
  enabled = none;
  host = none;
  port = none;
  username = none;
  password = none;
  topic = none;
  client_id = none;
  discovery = none;
  discovery_prefix = none;
}

abbrev known : RawMqtt
known = record nothing { enabled = some true; password = some (some "hunter2") }

abbrev known_mqtt : MqttConfig
known_mqtt = record {
  enabled = true;
  host = "localhost";
  port = pos 1883;
  username = none;
  password = some "hunter2";
  topic = "bark_detector";
  client_id = "bark_detector";
  discovery = true;
  discovery_prefix = "homeassistant";
}

abbrev settings : MqttSettings
settings = record { mqtt = known_mqtt; publisher = init known_mqtt }

abbrev moved : RawMqtt
moved = record nothing { host = some "broker"; username = some (some "") }

abbrev moved_mqtt : MqttConfig
moved_mqtt = record known_mqtt { host = "broker" }

known_test : build_mqtt_config no_env known ≡ some known_mqtt
unfolding build_mqtt_config env_override from_var to_bool or_none
known_test = refl

moved_test : (update_mqtt no_env settings [] moved true true).1 ≡ done moved_mqtt
unfolding update_mqtt update_built merge_mqtt build_mqtt_config env_override from_var to_bool
    or_none
moved_test = refl

update_mqtt-Keeps_example :
    ((update_mqtt no_env settings [] moved true true).0.mqtt ≡ moved_mqtt)
    × ((update_mqtt no_env settings [] moved true true).0.publisher.config ≡ moved_mqtt)
    × Keeps moved known_mqtt moved_mqtt
    × (build_mqtt_config no_env (dump_mqtt no_env moved_mqtt) ≡ some moved_mqtt)
update_mqtt-Keeps_example =
    update_mqtt-Keeps no_env settings [] moved known true true moved_mqtt known_test moved_test
