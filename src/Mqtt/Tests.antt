-- ===== src/Mqtt/Tests.antt =====
-- Runs of the publisher of mqtt_publisher.py, and its theorems at concrete inputs.
use bark_detector.Prelude.{
  String, Option, some, none, str_eq, ℕ, ◌≡◌, refl, true, false, none, some, List, [], ◌∷◌, ◌++◌,
  if◌then◌else◌, str_eq,
}
use bark_detector.Prelude.Int.{pos}
use bark_detector.Float.Milli.{milli}
use bark_detector.Config.{MqttConfig, default_mqtt, SourceConfig}
use bark_detector.Snippet.{DetectionTrigger, DetectionEvent}
use bark_detector.Cleanup.{SpaceAlert}
use bark_detector.Mqtt.{Payload, settle_one, Broker, plain, deliver_all}
use bark_detector.Mqtt.Publisher.{
  MqttPublisher, init, set_connected, handle_connect, handle_disconnect, connect, reconfigure, stop,
  remove_discovery_for_source, publish_each,
}
use bark_detector.Mqtt.Status.{
  Happening, connects, disconnects, dials, stops, reconfigures, happen, happen_all, told,
  changes_of, last_of, statuses, happen_all_lem,
}
use bark_detector.Mqtt.Retained.{is_topic, discovery_removed}

abbrev enabled_mqtt : MqttConfig
enabled_mqtt = record default_mqtt { enabled = true }

abbrev publisher : MqttPublisher
publisher = init enabled_mqtt

abbrev kitchen : SourceConfig ℕ
kitchen = record {
  name = "kitchen";
  type = "rtsp";
  path = "rtsp://camera/audio";
  listen = "bark" ∷ [];
  detection_thresholds = [];
  notify_thresholds = [];
  min_volume = 500000;
  pre_capture = 5000;
  post_capture = 5000;
  input_args = [];
  id = "0123456789ab";
}

abbrev renamed : SourceConfig ℕ
renamed = record kitchen { name = "hall" }

abbrev happenings : List Happening
happenings =
    dials
    ∷ connects
    ∷ connects
    ∷ disconnects
    ∷ connects
    ∷ reconfigures default_mqtt true
    ∷ stops
    ∷ []

-- The callback hears of four changes.
happenings_test :
    told {F = ℕ} (happen_all {F = ℕ} publisher happenings).1 ≡ true ∷ false ∷ true ∷ false ∷ []
unfolding happen_all happen connect handle_connect handle_disconnect reconfigure stop set_connected
    init
happenings_test = refl

happen_all_lem_example :
    (told {F = ℕ} (happen_all {F = ℕ} publisher happenings).1
      ≡ changes_of false (statuses false true happenings))
    × ((happen_all {F = ℕ} publisher happenings).0.connected
        ≡ last_of false (statuses false true happenings))
unfolding init
happen_all_lem_example = happen_all_lem ℕ publisher happenings

abbrev bark_trigger : DetectionTrigger ℕ
bark_trigger = record {
  id = "a1";
  source = "kitchen";
  label = "bark";
  score = 912;
  timestamp = 1000;
}

abbrev bark_event : DetectionEvent ℕ
bark_event = record {
  id = "a1";
  source = "kitchen";
  label = "bark";
  score = 912;
  timestamp = 1000;
  file = "/media/kitchen_bark_1.wav";
  duration = 9750;
  notified = true;
}

abbrev space_alert : SpaceAlert
space_alert = record { used_bytes = 1200; max_bytes = pos 1000; deleted_count = 2 }

-- A broker that keeps what the last retained message of each topic left.
abbrev table_broker : Broker ℕ
table_broker = record {
  State = String → Option (Payload ℕ);
  deliver = λ b m topic. settle_one topic (b topic) m;
  kept = λ b topic. b topic;
  kept-deliver = λ b m topic. refl;
}

abbrev before : String → Option (Payload ℕ)
before t = if str_eq t "other" then some (plain "kept") else none

abbrev topic : String
topic = "homeassistant/event/bark_detector_0123456789ab/detected/config"

discovery_removed_example :
    table_broker.kept
      (deliver_all table_broker before (
        publish_each publisher (kitchen ∷ renamed ∷ [])
        ++ remove_discovery_for_source publisher "0123456789ab"))
      topic
    ≡ (if is_topic enabled_mqtt "0123456789ab" topic then none else before topic)
unfolding init
discovery_removed_example =
    discovery_removed table_broker before publisher "0123456789ab" (kitchen ∷ renamed ∷ []) topic
      (refl, (refl, tt)) refl
