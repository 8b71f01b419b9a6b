-- ===== src/Config/Secrets.antt =====
-- What a saved file of config.py says of what the environment sets.
use bark_detector.Prelude.{◌≡◌, refl, String, Bool, true, false, Option, none, some, str_eq}
use bark_detector.Prelude.Int.{pos}
use bark_detector.Config.{MqttConfig}
use bark_detector.Config.Env.{Env, persisted_value, persisted}
use bark_detector.Config.Settings.{same_bool, same_ℤ, same_option, dump_mqtt}

module _ {F : Type 0} (env : Env F) where
  -- Equal where the variable does not set the value.
  abbrev pub AgreeUnset : {A : Type 0} → String → A → A → Type 0
  AgreeUnset key a b = env.var key ≡ none → a ≡ b

  -- Two settings of MQTT that differ at most in what the environment sets.
  pub record SameUnset (c d : MqttConfig) : Type 0 where
    pub enabled : AgreeUnset "MQTT_ENABLED" c.enabled d.enabled
    pub host : AgreeUnset "MQTT_HOST" c.host d.host
    pub port : AgreeUnset "MQTT_PORT" c.port d.port
    pub username : AgreeUnset "MQTT_USERNAME" c.username d.username
    pub password : AgreeUnset "MQTT_PASSWORD" c.password d.password
    pub topic : AgreeUnset "MQTT_TOPIC" c.topic d.topic
    pub client_id : AgreeUnset "MQTT_CLIENT_ID" c.client_id d.client_id
    pub discovery : AgreeUnset "MQTT_DISCOVERY" c.discovery d.discovery
    pub discovery_prefix : AgreeUnset "MQTT_DISCOVERY_PREFIX" c.discovery_prefix d.discovery_prefix

  hidden :
      {A : Type 0} (same : A → A → Bool) (var : Option String) (a b default : A)
      → (var ≡ none → a ≡ b)
      → persisted same var a default ≡ persisted same var b default
  unfolding persisted
  hidden same (some text) a b default agree = refl
  hidden same none a b default agree = rw (agree refl)

  persisted_value_hidden :
      {A : Type 0} (same : A → A → Bool) (key : String) (a b default : A)
      → AgreeUnset key a b
      → persisted_value env same a default (some key)
        ≡ persisted_value env same b default (some key)
  unfolding persisted_value
  persisted_value_hidden same key a b default agree = hidden same (env.var key) a b default agree

  -- What is saved of the settings of MQTT does not depend on any value that an environment variable
  -- sets, the password among them: settings that differ only there are saved alike.
  pub dump_mqtt_hides : (c d : MqttConfig) → SameUnset c d → dump_mqtt env c ≡ dump_mqtt env d
  unfolding dump_mqtt
  dump_mqtt_hides c d s = rw (
    persisted_value_hidden same_bool "MQTT_ENABLED" c.enabled d.enabled false s.enabled,
    persisted_value_hidden str_eq "MQTT_HOST" c.host d.host "localhost" s.host,
    persisted_value_hidden same_ℤ "MQTT_PORT" c.port d.port (pos 1883) s.port,
    persisted_value_hidden (same_option str_eq) "MQTT_USERNAME" c.username d.username none
        s.username,
    persisted_value_hidden (same_option str_eq) "MQTT_PASSWORD" c.password d.password none
        s.password,
    persisted_value_hidden str_eq "MQTT_TOPIC" c.topic d.topic "bark_detector" s.topic,
    persisted_value_hidden str_eq "MQTT_CLIENT_ID" c.client_id d.client_id "bark_detector"
        s.client_id,
    persisted_value_hidden same_bool "MQTT_DISCOVERY" c.discovery d.discovery true s.discovery,
    persisted_value_hidden str_eq "MQTT_DISCOVERY_PREFIX" c.discovery_prefix d.discovery_prefix
        "homeassistant" s.discovery_prefix,
  )
