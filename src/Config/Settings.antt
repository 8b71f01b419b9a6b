-- ===== src/Config/Settings.antt =====
-- config.py: building the settings of the program from a file and the environment, and what
-- `dump_config` writes back. A file's values have the types that their fields want.
use bark_detector.Prelude.{
  String, Bool, true, false, not, ◌&&◌, Option, none, some, str_eq, ◌==◌, ◌>>=◌, if◌then◌else◌,
  join_path,
}
use bark_detector.Prelude.Int.{ℤ, pos, negsuc}
use bark_detector.Float.{Float}
use bark_detector.Config.{MqttConfig, WebConfig, CleanupConfig, get}
use bark_detector.Config.Source.{RawSource}
use bark_detector.Config.Env.{Env, env_override, to_bool, to_optional_float, persisted_value}

-- The sections of a file, whose keys may be missing; where None is a value of a key, it is
-- `some none`.
pub record RawMqtt : Type 0 where
  pub enabled : Option Bool
  pub host : Option String
  pub port : Option ℤ
  pub username : Option (Option String)
  pub password : Option (Option String)
  pub topic : Option String
  pub client_id : Option String
  pub discovery : Option Bool
  pub discovery_prefix : Option String

pub record RawWeb : Type 0 where
  pub enabled : Option Bool
  pub host : Option String
  pub port : Option ℤ

pub record RawCleanup (F : Type 0) : Type 0 where
  pub max_age_days : Option (Option F)
  pub max_space_mb : Option (Option F)
  pub check_interval_minutes : Option F

pub record RawConfig (F : Type 0) : Type 0 where
  pub mqtt : RawMqtt
  pub sources_dir : Option String
  pub source_defaults : RawSource F
  pub snippet_dir : Option String
  pub ffmpeg_path : Option String
  pub log_level : Option String
  pub web : RawWeb
  pub cleanup : RawCleanup F

-- A `Config` but for its sources.
pub record Settings (F : Type 0) : Type 0 where
  pub mqtt : MqttConfig
  pub sources_dir : String
  pub source_defaults : RawSource F
  pub snippet_dir : String
  pub ffmpeg_path : String
  pub log_level : String
  pub web : WebConfig
  pub cleanup : CleanupConfig F

abbrev pub default_sources_dir : String
default_sources_dir = "/config/sources"

abbrev pub default_web : WebConfig
default_web = record { enabled = true; host = "0.0.0.0"; port = pos 8099 }

-- `Config.db_path`
pub db_path : String → String
db_path snippet_dir = join_path snippet_dir "events.db"

-- `value or None`
unfoldable pub or_none : Option String → Option String
or_none none = none
or_none (some text) = if str_eq text "" then none else some text

-- Python's `==` on the values of the fields.
abbrev pub same_bool : Bool → Bool → Bool
same_bool true b = b
same_bool false b = not b

abbrev pub same_ℤ : ℤ → ℤ → Bool
same_ℤ (pos m) (pos n) = m == n
same_ℤ (pos m) (negsuc n) = false
same_ℤ (negsuc m) (pos n) = false
same_ℤ (negsuc m) (negsuc n) = m == n

abbrev pub same_option : {A : Type 0} → (A → A → Bool) → Option A → Option A → Bool
same_option same none none = true
same_option same none (some b) = false
same_option same (some a) none = false
same_option same (some a) (some b) = same a b

module _ {F : Type 0} (env : Env F) where
  unfoldable pub build_mqtt_config : RawMqtt → Option MqttConfig
  unfolding or_none
  build_mqtt_config raw = do
    enabled ← env_override env (to_bool env) "MQTT_ENABLED" (get raw.enabled false)
    host ← env_override env some "MQTT_HOST" (get raw.host "localhost")
    port ← env_override env env.int_of "MQTT_PORT" (get raw.port (pos 1883))
    username ←
        env_override env (λ text. some (some text)) "MQTT_USERNAME"
          (or_none (get raw.username none))
    password ←
        env_override env (λ text. some (some text)) "MQTT_PASSWORD"
          (or_none (get raw.password none))
    topic ← env_override env some "MQTT_TOPIC" (get raw.topic "bark_detector")
    client_id ← env_override env some "MQTT_CLIENT_ID" (get raw.client_id "bark_detector")
    discovery ← env_override env (to_bool env) "MQTT_DISCOVERY" (get raw.discovery true)
    discovery_prefix ←
        env_override env some "MQTT_DISCOVERY_PREFIX" (get raw.discovery_prefix "homeassistant")
    some (record {
      enabled = enabled;
      host = host;
      port = port;
      username = username;
      password = password;
      topic = topic;
      client_id = client_id;
      discovery = discovery;
      discovery_prefix = discovery_prefix;
    })

  unfoldable pub build_web_config : RawWeb → Option WebConfig
  build_web_config raw = do
    enabled ← env_override env (to_bool env) "WEB_ENABLED" (get raw.enabled true)
    host ← env_override env some "WEB_HOST" (get raw.host "0.0.0.0")
    port ← env_override env env.int_of "WEB_PORT" (get raw.port (pos 8099))
    some (record { enabled = enabled; host = host; port = port })

  unfoldable pub dump_mqtt : MqttConfig → RawMqtt
  dump_mqtt c = record {
    enabled = persisted_value env same_bool c.enabled false (some "MQTT_ENABLED");
    host = persisted_value env str_eq c.host "localhost" (some "MQTT_HOST");
    port = persisted_value env same_ℤ c.port (pos 1883) (some "MQTT_PORT");
    username = persisted_value env (same_option str_eq) c.username none (some "MQTT_USERNAME");
    password = persisted_value env (same_option str_eq) c.password none (some "MQTT_PASSWORD");
    topic = persisted_value env str_eq c.topic "bark_detector" (some "MQTT_TOPIC");
    client_id = persisted_value env str_eq c.client_id "bark_detector" (some "MQTT_CLIENT_ID");
    discovery = persisted_value env same_bool c.discovery true (some "MQTT_DISCOVERY");
    discovery_prefix =
        persisted_value env str_eq c.discovery_prefix "homeassistant"
          (some "MQTT_DISCOVERY_PREFIX");
  }

  unfoldable pub dump_web : WebConfig → RawWeb
  dump_web c = record {
    enabled = persisted_value env same_bool c.enabled true (some "WEB_ENABLED");
    host = persisted_value env str_eq c.host "0.0.0.0" (some "WEB_HOST");
    port = persisted_value env same_ℤ c.port (pos 8099) (some "WEB_PORT");
  }

module _ {F : Type 0} ⦃fl : Float F⦄ (env : Env F) where
  abbrev pub same_float : F → F → Bool
  same_float a b = fl.le a b && fl.le b a

  unfoldable pub build_cleanup_config : RawCleanup F → Option (CleanupConfig F)
  build_cleanup_config raw = do
    max_age_days ←
        env_override env (to_optional_float env) "CLEANUP_MAX_AGE_DAYS"
          (get raw.max_age_days (some (fl.decimal 300 1)))
    max_space_mb ←
        env_override env (to_optional_float env) "CLEANUP_MAX_SPACE_MB"
          (get raw.max_space_mb (some (fl.decimal 1000 1)))
    check_interval_minutes ←
        env_override env env.float_of "CLEANUP_CHECK_INTERVAL_MINUTES"
          (get raw.check_interval_minutes (fl.decimal 150 1))
    some (record {
      max_age_days = max_age_days;
      max_space_mb = max_space_mb;
      check_interval_minutes = check_interval_minutes;
    })

  unfoldable pub dump_cleanup : CleanupConfig F → RawCleanup F
  dump_cleanup c = record {
    max_age_days =
        persisted_value env (same_option same_float) c.max_age_days (some (fl.decimal 300 1))
          (some "CLEANUP_MAX_AGE_DAYS");
    max_space_mb =
        persisted_value env (same_option same_float) c.max_space_mb (some (fl.decimal 1000 1))
          (some "CLEANUP_MAX_SPACE_MB");
    check_interval_minutes =
        persisted_value env same_float c.check_interval_minutes (fl.decimal 150 1)
          (some "CLEANUP_CHECK_INTERVAL_MINUTES");
  }

  -- `load_config` but for its sources; the directory that it is given is used where neither the
  -- file nor the environment says one.
  unfoldable pub load_settings : String → RawConfig F → Option (Settings F)
  unfolding build_mqtt_config build_web_config build_cleanup_config
  load_settings sources_default raw = do
    sources_dir ← env_override env some "SOURCES_DIR" (get raw.sources_dir sources_default)
    mqtt ← build_mqtt_config env raw.mqtt
    snippet_dir ← env_override env some "SNIPPET_DIR" (get raw.snippet_dir "/media/bark_snippets")
    log_level ← env_override env some "LOG_LEVEL" (get raw.log_level "INFO")
    web ← build_web_config env raw.web
    cleanup ← build_cleanup_config raw.cleanup
    some (record {
      mqtt = mqtt;
      sources_dir = sources_dir;
      source_defaults = raw.source_defaults;
      snippet_dir = snippet_dir;
      ffmpeg_path = get raw.ffmpeg_path "ffmpeg";
      log_level = log_level;
      web = web;
      cleanup = cleanup;
    })

  unfoldable pub dump_config : Settings F → RawConfig F
  unfolding dump_mqtt dump_web dump_cleanup
  dump_config c = record {
    mqtt = dump_mqtt env c.mqtt;
    sources_dir = persisted_value env str_eq c.sources_dir default_sources_dir (some "SOURCES_DIR");
    source_defaults = c.source_defaults;
    snippet_dir =
        persisted_value env str_eq c.snippet_dir "/media/bark_snippets" (some "SNIPPET_DIR");
    ffmpeg_path = persisted_value env str_eq c.ffmpeg_path "ffmpeg" none;
    log_level = persisted_value env str_eq c.log_level "INFO" (some "LOG_LEVEL");
    web = dump_web env c.web;
    cleanup = dump_cleanup c.cleanup;
  }
