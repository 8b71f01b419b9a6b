-- ===== src/Config/Saved.antt =====
-- What is saved of the settings of config.py is what loading wants.
use bark_detector.Prelude.{
  ℕ, ◌≤◌, ◌<◌, ◌≡◌, refl, ◌∙◌, ap, sym, String, Bool, true, false, Option, none, some, str_eq,
  eq_iff, arith, Bool-cases, inl, inr,
}
use bark_detector.Prelude.Int.{ℤ, pos}
use bark_detector.Float.{Float}
use bark_detector.Config.{MqttConfig, WebConfig, CleanupConfig, get}
use bark_detector.Config.Env.{
  Env, env_override, to_bool, to_optional_float, persisted_value, from_var, persisted,
  from_var-persisted,
}
use bark_detector.Config.Settings.{
  RawMqtt, RawWeb, RawCleanup, RawConfig, Settings, default_sources_dir, or_none, same_bool, same_ℤ,
  same_option, same_float, build_mqtt_config, build_web_config, build_cleanup_config, dump_mqtt,
  dump_web, dump_cleanup, load_settings, dump_config,
}

same_bool_sound : (a b : Bool) → same_bool a b ≡ true → a ≡ b
same_bool_sound true true e = refl
same_bool_sound true false e = cc
same_bool_sound false true e = cc
same_bool_sound false false e = refl

same_ℤ_sound : (a b : ℤ) → same_ℤ a b ≡ true → a ≡ b
same_ℤ_sound a b e = ground arith

str_eq_sound : (a b : String) → str_eq a b ≡ true → a ≡ b
str_eq_sound a b = (eq_iff a b).0

same_option-none : (a : Option String) → same_option str_eq a none ≡ true → a ≡ none
same_option-none none e = refl
same_option-none (some a) e = cc

pub or_none_idem : (a : Option String) → or_none (or_none a) ≡ or_none a
unfolding or_none
or_none_idem none = refl
or_none_idem (some a) = elim (Bool-cases (str_eq a "")) [ inl e ↦ rw e | inr e ↦ rw (e, e) ]

module _ {F : Type 0} (env : Env F) where
  override-persisted :
      {A : Type 0} (cast : String → Option A) (same : A → A → Bool) (key : String) (raw : Option A)
      (default v : A)
      → (same v default ≡ true → v ≡ default)
      → env_override env cast key (get raw default) ≡ some v
      → env_override env cast key (get (persisted_value env same v default (some key)) default)
        ≡ some v
  unfolding env_override persisted_value
  override-persisted cast same key raw default v sound e =
      from_var-persisted cast same (env.var key) raw default v sound e

  -- A user name or a password, whose empty text is None in a file.
  secret-persisted :
      (var : Option String) (raw v : Option String)
      → from_var (λ text. some (some text)) var (or_none raw) ≡ some v
      → from_var
          (λ text. some (some text))
          var
          (or_none (get (persisted (same_option str_eq) var v none) none))
        ≡ some v
  unfolding from_var persisted or_none
  secret-persisted (some text) raw v e = e
  secret-persisted none raw none e = refl
  secret-persisted none raw (some v) e =
      let m : or_none raw ≡ some v = cc in ap some (ap or_none (sym m) ∙ (or_none_idem raw ∙ m))

  override-secret :
      (key : String) (raw v : Option String)
      → env_override env (λ text. some (some text)) key (or_none raw) ≡ some v
      → env_override env
          (λ text. some (some text))
          key
          (or_none (get (persisted_value env (same_option str_eq) v none (some key)) none))
        ≡ some v
  unfolding env_override persisted_value
  override-secret key raw v e = secret-persisted (env.var key) raw v e

  pub mqtt_fields :
      (raw : RawMqtt) (c : MqttConfig)
      → build_mqtt_config env raw ≡ some c
      → (env_override env (to_bool env) "MQTT_ENABLED" (get raw.enabled false) ≡ some c.enabled)
        × (env_override env some "MQTT_HOST" (get raw.host "localhost") ≡ some c.host)
        × (env_override env env.int_of "MQTT_PORT" (get raw.port (pos 1883)) ≡ some c.port)
        × (env_override env
              (λ text. some (some text))
              "MQTT_USERNAME"
              (or_none (get raw.username none))
            ≡ some c.username)
        × (env_override env
              (λ text. some (some text))
              "MQTT_PASSWORD"
              (or_none (get raw.password none))
            ≡ some c.password)
        × (env_override env some "MQTT_TOPIC" (get raw.topic "bark_detector") ≡ some c.topic)
        × (env_override env some "MQTT_CLIENT_ID" (get raw.client_id "bark_detector")
            ≡ some c.client_id)
        × (env_override env (to_bool env) "MQTT_DISCOVERY" (get raw.discovery true)
            ≡ some c.discovery)
        × (env_override env some "MQTT_DISCOVERY_PREFIX" (get raw.discovery_prefix "homeassistant")
            ≡ some c.discovery_prefix)
  unfolding build_mqtt_config
  mqtt_fields raw c e = ground arith

  pub build_mqtt_config-dump_mqtt :
      (raw : RawMqtt) (c : MqttConfig)
      → build_mqtt_config env raw ≡ some c
      → build_mqtt_config env (dump_mqtt env c) ≡ some c
  unfolding build_mqtt_config dump_mqtt
  build_mqtt_config-dump_mqtt raw c e =
      let (enabled, host, port, username, password, topic, client_id, discovery, discovery_prefix) =
        mqtt_fields raw c e in
      rw (
        override-persisted (to_bool env) same_bool "MQTT_ENABLED" raw.enabled false c.enabled
            (same_bool_sound c.enabled false) enabled,
        override-persisted some str_eq "MQTT_HOST" raw.host "localhost" c.host
            (str_eq_sound c.host "localhost") host,
        override-persisted env.int_of same_ℤ "MQTT_PORT" raw.port (pos 1883) c.port
            (same_ℤ_sound c.port (pos 1883)) port,
        override-secret "MQTT_USERNAME" (get raw.username none) c.username username,
        override-secret "MQTT_PASSWORD" (get raw.password none) c.password password,
        override-persisted some str_eq "MQTT_TOPIC" raw.topic "bark_detector" c.topic
            (str_eq_sound c.topic "bark_detector") topic,
        override-persisted some str_eq "MQTT_CLIENT_ID" raw.client_id "bark_detector" c.client_id
            (str_eq_sound c.client_id "bark_detector") client_id,
        override-persisted (to_bool env) same_bool "MQTT_DISCOVERY" raw.discovery true c.discovery
            (same_bool_sound c.discovery true) discovery,
        override-persisted some str_eq "MQTT_DISCOVERY_PREFIX" raw.discovery_prefix "homeassistant"
            c.discovery_prefix (str_eq_sound c.discovery_prefix "homeassistant") discovery_prefix,
      )

  web_fields :
      (raw : RawWeb) (c : WebConfig)
      → build_web_config env raw ≡ some c
      → (env_override env (to_bool env) "WEB_ENABLED" (get raw.enabled true) ≡ some c.enabled)
        × (env_override env some "WEB_HOST" (get raw.host "0.0.0.0") ≡ some c.host)
        × (env_override env env.int_of "WEB_PORT" (get raw.port (pos 8099)) ≡ some c.port)
  unfolding build_web_config
  web_fields raw c e = ground arith

  pub build_web_config-dump_web :
      (raw : RawWeb) (c : WebConfig)
      → build_web_config env raw ≡ some c
      → build_web_config env (dump_web env c) ≡ some c
  unfolding build_web_config dump_web
  build_web_config-dump_web raw c e =
      let (enabled, host, port) = web_fields raw c e in
      rw (
        override-persisted (to_bool env) same_bool "WEB_ENABLED" raw.enabled true c.enabled
            (same_bool_sound c.enabled true) enabled,
        override-persisted some str_eq "WEB_HOST" raw.host "0.0.0.0" c.host
            (str_eq_sound c.host "0.0.0.0") host,
        override-persisted env.int_of same_ℤ "WEB_PORT" raw.port (pos 8099) c.port
            (same_ℤ_sound c.port (pos 8099)) port,
      )

module _ {F : Type 0} ⦃fl : Float F⦄ (env : Env F) where
  same_float_sound :
      (a : F) (m k : ℕ)
      → 0 < m
      → k ≤ 300
      → same_float env a (fl.decimal m k) ≡ true
      → a ≡ fl.decimal m k
  same_float_sound a m k p q e = fl.eq_decimal a m k p q (ground arith) (ground arith)

  same_option_float :
      (a : Option F) (m k : ℕ)
      → 0 < m
      → k ≤ 300
      → same_option (same_float env) a (some (fl.decimal m k)) ≡ true
      → a ≡ some (fl.decimal m k)
  same_option_float none m k p q e = cc
  same_option_float (some a) m k p q e = ap some (same_float_sound a m k p q e)

  cleanup_fields :
      (raw : RawCleanup F) (c : CleanupConfig F)
      → build_cleanup_config env raw ≡ some c
      → (env_override env
            (to_optional_float env)
            "CLEANUP_MAX_AGE_DAYS"
            (get raw.max_age_days (some (fl.decimal 300 1)))
          ≡ some c.max_age_days)
        × (env_override env
              (to_optional_float env)
              "CLEANUP_MAX_SPACE_MB"
              (get raw.max_space_mb (some (fl.decimal 1000 1)))
            ≡ some c.max_space_mb)
        × (env_override env env.float_of "CLEANUP_CHECK_INTERVAL_MINUTES"
              (get raw.check_interval_minutes (fl.decimal 150 1))
            ≡ some c.check_interval_minutes)
  unfolding build_cleanup_config
  cleanup_fields raw c e = ground arith

  pub build_cleanup_config-dump_cleanup :
      (raw : RawCleanup F) (c : CleanupConfig F)
      → build_cleanup_config env raw ≡ some c
      → build_cleanup_config env (dump_cleanup env c) ≡ some c
  unfolding build_cleanup_config dump_cleanup
  build_cleanup_config-dump_cleanup raw c e =
      let (age, space, interval) = cleanup_fields raw c e in
      rw (
        override-persisted env (to_optional_float env) (same_option (same_float env))
            "CLEANUP_MAX_AGE_DAYS" raw.max_age_days (some (fl.decimal 300 1)) c.max_age_days
            (same_option_float c.max_age_days 300 1 (omega arith) (omega arith)) age,
        override-persisted env (to_optional_float env) (same_option (same_float env))
            "CLEANUP_MAX_SPACE_MB" raw.max_space_mb (some (fl.decimal 1000 1)) c.max_space_mb
            (same_option_float c.max_space_mb 1000 1 (omega arith) (omega arith)) space,
        override-persisted env env.float_of (same_float env) "CLEANUP_CHECK_INTERVAL_MINUTES"
            raw.check_interval_minutes (fl.decimal 150 1) c.check_interval_minutes
            (same_float_sound c.check_interval_minutes 150 1 (omega arith) (omega arith)) interval,
      )

  settings_fields :
      (raw : RawConfig F) (c : Settings F)
      → load_settings env default_sources_dir raw ≡ some c
      → (env_override env some "SOURCES_DIR" (get raw.sources_dir default_sources_dir)
          ≡ some c.sources_dir)
        × (build_mqtt_config env raw.mqtt ≡ some c.mqtt)
        × (env_override env some "SNIPPET_DIR" (get raw.snippet_dir "/media/bark_snippets")
            ≡ some c.snippet_dir)
        × (env_override env some "LOG_LEVEL" (get raw.log_level "INFO") ≡ some c.log_level)
        × (build_web_config env raw.web ≡ some c.web)
        × (build_cleanup_config env raw.cleanup ≡ some c.cleanup)
  unfolding load_settings
  settings_fields raw c e = ground arith

  ffmpeg_path-persisted :
      (v : String) → get (persisted_value env str_eq v "ffmpeg" none) "ffmpeg" ≡ v
  unfolding persisted_value persisted
  ffmpeg_path-persisted v = elim (Bool-cases (str_eq v "ffmpeg")) [
    | inl e ↦ rw e (sym (str_eq_sound v "ffmpeg" e))
    | inr e ↦ rw e
  ]

  -- Settings that were loaded from any file, in any environment and with the default directory of
  -- sources, are loaded again, in that environment, from what `dump_config` makes of them: neither
  -- leaving out the defaults nor leaving out what the environment sets loses anything.
  pub load_settings-dump_config :
      (raw : RawConfig F) (c : Settings F)
      → load_settings env default_sources_dir raw ≡ some c
      → load_settings env default_sources_dir (dump_config env c) ≡ some c
  unfolding load_settings dump_config
  load_settings-dump_config raw c e =
      let (sources_dir, mqtt, snippet_dir, log_level, web, cleanup) = settings_fields raw c e in
      rw (
        override-persisted env some str_eq "SOURCES_DIR" raw.sources_dir default_sources_dir
            c.sources_dir (str_eq_sound c.sources_dir default_sources_dir) sources_dir,
        build_mqtt_config-dump_mqtt env raw.mqtt c.mqtt mqtt,
        override-persisted env some str_eq "SNIPPET_DIR" raw.snippet_dir "/media/bark_snippets"
            c.snippet_dir (str_eq_sound c.snippet_dir "/media/bark_snippets") snippet_dir,
        override-persisted env some str_eq "LOG_LEVEL" raw.log_level "INFO" c.log_level
            (str_eq_sound c.log_level "INFO") log_level,
        build_web_config-dump_web env raw.web c.web web,
        build_cleanup_config-dump_cleanup raw.cleanup c.cleanup cleanup,
        ffmpeg_path-persisted c.ffmpeg_path,
      )
