-- ===== src/Config.antt =====
-- config.py: the data classes of the configuration, and the thresholds of a source.
pub mod Source
pub mod Env
pub mod Settings
pub mod Saved
pub mod Secrets
pub mod Files
pub mod AtomicWrite
pub mod Valid
pub mod Described
mod Tests
use bark_detector.Prelude.{
  ℕ, String, Bool, true, false, Option, none, some, List, [], ◌∷◌, lookup, concat,
}
use bark_detector.Prelude.Int.{ℤ, pos}
use bark_detector.Float.{Float}

abbrev pub default_listen : List String
default_listen = "bark" ∷ "bow-wow" ∷ "howl" ∷ "yip" ∷ []

abbrev pub default_threshold : {F : Type 0} → Float F → F
default_threshold fl = fl.decimal 8 1

abbrev pub default_min_volume : {F : Type 0} → Float F → F
default_min_volume fl = fl.decimal 500 0

abbrev pub default_capture : {F : Type 0} → Float F → F
default_capture fl = fl.decimal 50 1

abbrev pub valid_source_types : List String
valid_source_types = "rtsp" ∷ "device" ∷ "esphome_tcp" ∷ []

pub record MqttConfig : Type 0 where
  pub enabled : Bool
  pub host : String
  pub port : ℤ
  pub username : Option String
  pub password : Option String
  pub topic : String
  pub client_id : String
  pub discovery : Bool
  pub discovery_prefix : String

abbrev pub default_mqtt : MqttConfig
default_mqtt = record {
  enabled = false;
  host = "localhost";
  port = pos 1883;
  username = none;
  password = none;
  topic = "bark_detector";
  client_id = "bark_detector";
  discovery = true;
  discovery_prefix = "homeassistant";
}

-- The topics, whose placeholder `{source}` or `{event}` is the argument.
unfoldable pub availability_topic : MqttConfig → String
availability_topic c = concat (c.topic ∷ "/bridge/status" ∷ [])

unfoldable pub triggered_topic : MqttConfig → String → String
triggered_topic c source = concat (c.topic ∷ "/" ∷ source ∷ "/triggered" ∷ [])

unfoldable pub event_topic : MqttConfig → String → String
event_topic c source = concat (c.topic ∷ "/" ∷ source ∷ "/event" ∷ [])

unfoldable pub status_topic : MqttConfig → String → String
status_topic c source = concat (c.topic ∷ "/" ∷ source ∷ "/status" ∷ [])

unfoldable pub system_topic : MqttConfig → String → String
system_topic c event = concat (c.topic ∷ "/system/" ∷ event ∷ [])

pub record SourceConfig (F : Type 0) : Type 0 where
  pub name : String
  pub type : String
  pub path : String
  pub listen : List String
  pub detection_thresholds : List (String × F)
  pub notify_thresholds : List (String × F)
  pub min_volume : F
  pub pre_capture : F
  pub post_capture : F
  pub input_args : List String
  pub id : String

-- `d.get(key, default)`
abbrev pub get {ℓ} : {A : Type ℓ} → Option A → A → A
get none d = d
get (some a) d = a

module _ {F : Type 0} ⦃fl : Float F⦄ where
  unfoldable pub notify_threshold_for : SourceConfig F → String → F
  notify_threshold_for s label = get (lookup label s.notify_thresholds) (default_threshold fl)

  unfoldable pub detection_threshold_for : SourceConfig F → String → F
  detection_threshold_for s label =
      get (lookup label s.detection_thresholds) (notify_threshold_for s label)

pub record WebConfig : Type 0 where
  pub enabled : Bool
  pub host : String
  pub port : ℤ

-- A limit that is `none` is off.
pub record CleanupConfig (F : Type 0) : Type 0 where
  pub max_age_days : Option F
  pub max_space_mb : Option F
  pub check_interval_minutes : F

abbrev pub default_cleanup : {F : Type 0} → Float F → CleanupConfig F
default_cleanup fl = record {
  max_age_days = some (fl.decimal 300 1);
  max_space_mb = some (fl.decimal 1000 1);
  check_interval_minutes = fl.decimal 150 1;
}
