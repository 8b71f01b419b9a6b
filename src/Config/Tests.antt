-- ===== src/Config/Tests.antt =====
-- Requests that `build_source_config` of config.py is given, and its theorems at them.
use bark_detector.Prelude.{
  ℕ, ◌≡◌, refl, true, false, str_eq, if◌then◌else◌, none, some, [], ◌∷◌, lookup, insert, remove,
  rename, moved, contains, String,
}
use bark_detector.Prelude.Int.{pos}
use bark_detector.Config.AtomicWrite.{
  Calls, Disk, AllWhole, IsNew, last_disk, atomic_write, atomic_write_lem,
}
use bark_detector.Float.Milli.{milli}
use bark_detector.Config.{SourceConfig, MqttConfig}
use bark_detector.Config.Env.{
  Env, env_override, from_var, persisted_value, persisted, variable_of, to_bool, to_optional_float,
  is_word,
}
use bark_detector.Config.Settings.{
  RawConfig, Settings, default_sources_dir, build_mqtt_config, build_web_config,
  build_cleanup_config, or_none, load_settings, dump_config, dump_mqtt,
}
use bark_detector.Config.Saved.{load_settings-dump_config}
use bark_detector.Config.Secrets.{dump_mqtt_hides}
use bark_detector.Config.Source.{
  RawSource, ok, error, blank_name, slash_in_name, threshold_order, build_source_config,
  built_source, misordered, check_source, check_thresholds, is_blank_or_padded, has_slash,
  has_control,
}
use bark_detector.Config.Valid.{IsValid, build_source_config-IsValid}
use bark_detector.Config.Described.{Describes, build_source_config_complete}

abbrev empty_raw : RawSource ℕ
empty_raw = record {
  name = none;
  type = none;
  path = none;
  id = none;
  listen = none;
  thresholds = none;
  notify_thresholds = none;
  detection_thresholds = none;
  min_volume = none;
  pre_capture = none;
  post_capture = none;
  input_args = none;
}

abbrev yard : RawSource ℕ
yard = record empty_raw {
  name = some "yard";
  type = some "rtsp";
  path = some "rtsp://camera/audio";
  listen = some ("bark" ∷ []);
  detection_thresholds = some (("bark", 600) ∷ []);
}

abbrev yard_source : SourceConfig ℕ
yard_source = record {
  name = "yard";
  type = "rtsp";
  path = "rtsp://camera/audio";
  listen = "bark" ∷ [];
  detection_thresholds = ("bark", 600) ∷ [];
  notify_thresholds = [];
  min_volume = 500000;
  pre_capture = 5000;
  post_capture = 5000;
  input_args = [];
  id = "f0f0f0f0f0f0";
}

builds : Unit {0}
unfolding build_source_config built_source misordered check_source check_thresholds
    is_blank_or_padded has_slash has_control contains lookup
builds = tt

built_test : build_source_config yard empty_raw "f0f0f0f0f0f0" ≡ ok yard_source
unfolding builds
built_test = refl

slash_test :
    build_source_config (record yard { name = some "back/yard" }) empty_raw "f0f0f0f0f0f0"
    ≡ error slash_in_name
unfolding builds
slash_test = refl

padded_test :
    build_source_config (record yard { name = some "yard " }) empty_raw "f0f0f0f0f0f0"
    ≡ error blank_name
unfolding builds
padded_test = refl

-- A notify threshold below the detection threshold is refused.
order_test :
    build_source_config
      (record yard { notify_thresholds = some (("bark", 500) ∷ []) })
      empty_raw
      "f0f0f0f0f0f0"
    ≡ error (threshold_order "bark")
unfolding builds
order_test = refl

build_source_config-IsValid_example :
    IsValid yard_source
    × (yard.name ≡ some "yard")
    × (yard.type ≡ some "rtsp")
    × (yard.path ≡ some "rtsp://camera/audio")
build_source_config-IsValid_example =
    build_source_config-IsValid yard empty_raw "f0f0f0f0f0f0" yard_source built_test

yard_source-Describes : Describes yard empty_raw "f0f0f0f0f0f0" yard_source
yard_source-Describes = record {
  name = refl;
  type = refl;
  path = refl;
  id = refl;
  listen = refl;
  detection_thresholds = refl;
  notify_thresholds = refl;
  min_volume = refl;
  pre_capture = refl;
  post_capture = refl;
  input_args = refl;
}

build_source_config_complete_example :
    build_source_config yard empty_raw "f0f0f0f0f0f0" ≡ ok yard_source
build_source_config_complete_example =
    build_source_config_complete yard empty_raw "f0f0f0f0f0f0" yard_source yard_source-Describes
      build_source_config-IsValid_example.0

-- An environment that sets the password and turns MQTT on, and a file that sets the host.
abbrev secret_env : Env ℕ
secret_env = record {
  var = λ key.
      if str_eq key "MQTT_PASSWORD"
      then some "hunter2"
      else if str_eq key "MQTT_ENABLED"
      then some " Yes"
      else none;
  int_of = λ text. none;
  float_of = λ text. none;
}

abbrev host_file : RawConfig ℕ
host_file = record {
  mqtt = record {
    enabled = none;
    host = some "broker";
    port = none;
    username = some (some "");
    password = some (some "old");
    topic = none;
    client_id = none;
    discovery = some true;
    discovery_prefix = none;
  };
  sources_dir = none;
  source_defaults = empty_raw;
  snippet_dir = some "/data/snippets";
  ffmpeg_path = none;
  log_level = none;
  web = record { enabled = none; host = none; port = some (pos 80) };
  cleanup = record {
    max_age_days = some none;
    max_space_mb = none;
    check_interval_minutes = some 5000;
  };
}

abbrev host_mqtt : MqttConfig
host_mqtt = record {
  enabled = true;
  host = "broker";
  port = pos 1883;
  username = none;
  password = some "hunter2";
  topic = "bark_detector";
  client_id = "bark_detector";
  discovery = true;
  discovery_prefix = "homeassistant";
}

abbrev host_settings : Settings ℕ
host_settings = record {
  mqtt = host_mqtt;
  sources_dir = "/config/sources";
  source_defaults = empty_raw;
  snippet_dir = "/data/snippets";
  ffmpeg_path = "ffmpeg";
  log_level = "INFO";
  web = record { enabled = true; host = "0.0.0.0"; port = pos 80 };
  cleanup = record {
    max_age_days = none;
    max_space_mb = some 100000;
    check_interval_minutes = 5000;
  };
}

settings_test : load_settings secret_env default_sources_dir host_file ≡ some host_settings
unfolding load_settings build_mqtt_config build_web_config build_cleanup_config env_override
    from_var to_bool to_optional_float or_none is_word
settings_test = refl

-- Of the settings of MQTT, only the host is saved.
dump_mqtt_test :
    dump_mqtt secret_env host_mqtt
    ≡ record host_file.mqtt { username = none; password = none; discovery = none }
unfolding dump_mqtt persisted_value persisted variable_of
dump_mqtt_test = refl

load_settings-dump_config_example :
    load_settings secret_env default_sources_dir (dump_config secret_env host_settings)
    ≡ some host_settings
load_settings-dump_config_example =
    load_settings-dump_config secret_env host_file host_settings settings_test

dump_mqtt_hides_example :
    dump_mqtt secret_env host_mqtt
    ≡ dump_mqtt secret_env (record host_mqtt { enabled = false; password = none })
dump_mqtt_hides_example =
    dump_mqtt_hides secret_env host_mqtt (record host_mqtt { enabled = false; password = none })
      (record {
        enabled = λ unset. cc;
        host = λ unset. refl;
        port = λ unset. refl;
        username = λ unset. refl;
        password = λ unset. cc;
        topic = λ unset. refl;
        client_id = λ unset. refl;
        discovery = λ unset. refl;
        discovery_prefix = λ unset. refl;
      })

abbrev calls : Calls String
calls = record {
  makedirs = true;
  mkstemp = some "/config/.config-a1";
  broken = none;
  replace = true;
  remove = true;
}

abbrev disk : Disk String
disk = ("/config/config.yaml", "old") ∷ ("/config/other.yaml", "kept") ∷ []

disk-IsNew : IsNew "/config/config.yaml" calls.mkstemp disk
unfolding lookup
disk-IsNew = (refl, refl)

-- The disk at the end, and the same where the write breaks off.
writes :
    (last_disk disk (atomic_write calls "" "new" "/config/config.yaml" disk).disks
      ≡ ("/config/config.yaml", "new") ∷ ("/config/other.yaml", "kept") ∷ [])
    × (last_disk disk
          (atomic_write
            (record calls { broken = some "n" })
            ""
            "new"
            "/config/config.yaml"
            disk).disks
        ≡ disk)
unfolding atomic_write insert remove rename moved lookup
writes = (refl, refl)

atomic_write_lem_example :
    (let w = atomic_write calls "" "new" "/config/config.yaml" disk in
      AllWhole "new" "/config/config.yaml" calls.mkstemp disk w.disks
      × (w.raised ≡ false
          → (other : String)
          → lookup other (last_disk disk w.disks)
            ≡ lookup other (insert "/config/config.yaml" "new" disk))
      × (w.raised ≡ true
          → calls.remove ≡ true
          → (other : String) → lookup other (last_disk disk w.disks) ≡ lookup other disk))
atomic_write_lem_example = atomic_write_lem calls "" "new" "/config/config.yaml" disk disk-IsNew
