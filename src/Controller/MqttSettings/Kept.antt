-- ===== src/Controller/MqttSettings/Kept.antt =====
-- `update_mqtt` of controller.py changes what it is given, and all that runs on the settings with it.
use bark_detector.Prelude.{◌≡◌, ap, String, Bool, true, false, Option, none, some, List}
use bark_detector.Prelude.Int.{pos}
use bark_detector.Config.{MqttConfig, SourceConfig, get}
use bark_detector.Config.Env.{Env, env_override, from_var, to_bool}
use bark_detector.Config.Settings.{RawMqtt, build_mqtt_config, dump_mqtt, or_none}
use bark_detector.Config.Saved.{or_none_idem, mqtt_fields, build_mqtt_config-dump_mqtt}
use bark_detector.Mqtt.Publisher.{set_connected, reconfigure}
use bark_detector.Controller.{done}
use bark_detector.Controller.MqttSettings.{MqttSettings, merge_mqtt, update_built, update_mqtt}

-- Equal where the request does not give the value.
abbrev pub KeptUnlessGiven : {A B : Type 0} → Option B → A → A → Type 0
KeptUnlessGiven given old new = given ≡ none → new ≡ old

-- The settings keep what a request does not give.
pub record Keeps (raw : RawMqtt) (old new : MqttConfig) : Type 0 where
  pub enabled : KeptUnlessGiven raw.enabled old.enabled new.enabled
  pub host : KeptUnlessGiven raw.host old.host new.host
  pub port : KeptUnlessGiven raw.port old.port new.port
  pub username : KeptUnlessGiven raw.username old.username new.username
  pub password : KeptUnlessGiven raw.password old.password new.password
  pub topic : KeptUnlessGiven raw.topic old.topic new.topic
  pub client_id : KeptUnlessGiven raw.client_id old.client_id new.client_id
  pub discovery : KeptUnlessGiven raw.discovery old.discovery new.discovery
  pub discovery_prefix :
      KeptUnlessGiven raw.discovery_prefix old.discovery_prefix new.discovery_prefix

module _ {A : Type 0} where
  from_var_kept :
      (cast : String → Option A) (var : Option String) (u old new : A)
      → from_var cast var u ≡ some old
      → from_var cast var old ≡ some new
      → new ≡ old
  unfolding from_var
  from_var_kept cast none u old new e f = cc
  from_var_kept cast (some text) u old new e f = cc

secret_kept :
    (var : Option String) (u old new : Option String)
    → from_var (λ text. some (some text)) var (or_none u) ≡ some old
    → from_var (λ text. some (some text)) var (or_none old) ≡ some new
    → new ≡ old
unfolding from_var
secret_kept none u old new e f = let same = or_none_idem u in cc
secret_kept (some text) u old new e f = cc

module _ {F : Type 0} where
  update_built-done :
      (s : MqttSettings) (sources : List (SourceConfig F)) (built : Option MqttConfig)
      (saved stops : Bool) (new : MqttConfig)
      → (update_built s sources built saved stops).1 ≡ done new
      → (built ≡ some new)
        × ((update_built s sources built saved stops).0.mqtt ≡ new)
        × ((update_built s sources built saved stops).0.publisher.config ≡ new)
  unfolding update_built reconfigure set_connected
  update_built-done s sources none saved stops new e = absurd (let c = e in cc)
  update_built-done s sources (some c) false stops new e = absurd (let c' = e in cc)
  update_built-done s sources (some c) true stops new e =
      let same : c ≡ new = cc in (ap some same, same, same)

module _ {F : Type 0} (env : Env F) where
  kept :
      {A : Type 0} (cast : String → Option A) (key : String) (given : Option A) (u old new : A)
      → env_override env cast key u ≡ some old
      → env_override env cast key (get given old) ≡ some new
      → KeptUnlessGiven given old new
  unfolding env_override
  kept cast key given u old new e f missing =
      from_var_kept cast (env.var key) u old new e (let f' = (rw missing at f) in f')

  kept_secret :
      (key : String) (given : Option (Option String)) (u old new : Option String)
      → env_override env (λ text. some (some text)) key (or_none u) ≡ some old
      → env_override env (λ text. some (some text)) key (or_none (get given old)) ≡ some new
      → KeptUnlessGiven given old new
  unfolding env_override
  kept_secret key given u old new e f missing =
      secret_kept (env.var key) u old new e (let f' = (rw missing at f) in f')

  build_mqtt_config-merge_mqtt :
      (first raw : RawMqtt) (old new : MqttConfig)
      → build_mqtt_config env first ≡ some old
      → build_mqtt_config env (merge_mqtt old raw) ≡ some new
      → Keeps raw old new
  unfolding merge_mqtt
  build_mqtt_config-merge_mqtt first raw old new e f =
      let (enabled, host, port, username, password, topic, client_id, discovery, discovery_prefix) =
        mqtt_fields env first old e in
      let (enabled', host', port', username', password', topic', client_id', discovery', prefix') =
        mqtt_fields env (merge_mqtt old raw) new f in
      record {
        enabled =
            kept (to_bool env) "MQTT_ENABLED" raw.enabled (get first.enabled false) old.enabled
              new.enabled enabled enabled';
        host =
            kept some "MQTT_HOST" raw.host (get first.host "localhost") old.host new.host host
              host';
        port =
            kept env.int_of "MQTT_PORT" raw.port (get first.port (pos 1883)) old.port new.port port
              port';
        username =
            kept_secret "MQTT_USERNAME" raw.username (get first.username none) old.username
              new.username username username';
        password =
            kept_secret "MQTT_PASSWORD" raw.password (get first.password none) old.password
              new.password password password';
        topic =
            kept some "MQTT_TOPIC" raw.topic (get first.topic "bark_detector") old.topic new.topic
              topic topic';
        client_id =
            kept some "MQTT_CLIENT_ID" raw.client_id (get first.client_id "bark_detector")
              old.client_id new.client_id client_id client_id';
        discovery =
            kept (to_bool env) "MQTT_DISCOVERY" raw.discovery (get first.discovery true)
              old.discovery new.discovery discovery discovery';
        discovery_prefix =
            kept some "MQTT_DISCOVERY_PREFIX" raw.discovery_prefix
              (get first.discovery_prefix "homeassistant") old.discovery_prefix new.discovery_prefix
              discovery_prefix prefix';
      }

  -- Where the settings were loaded or updated in this environment and an update succeeds, the
  -- controller and its publisher run on the settings of the reply, these keep each value that the
  -- request does not give, the password among them, and what was saved of them is loaded as them.
  pub update_mqtt-Keeps :
      (s : MqttSettings) (sources : List (SourceConfig F)) (raw first : RawMqtt)
      (saved stops : Bool) (new : MqttConfig)
      → build_mqtt_config env first ≡ some s.mqtt
      → (update_mqtt env s sources raw saved stops).1 ≡ done new
      → ((update_mqtt env s sources raw saved stops).0.mqtt ≡ new)
        × ((update_mqtt env s sources raw saved stops).0.publisher.config ≡ new)
        × Keeps raw s.mqtt new
        × (build_mqtt_config env (dump_mqtt env new) ≡ some new)
  unfolding update_mqtt
  update_mqtt-Keeps s sources raw first saved stops new loaded e =
      let (built, mqtt, config) =
        update_built-done s sources (build_mqtt_config env (merge_mqtt s.mqtt raw)) saved stops new
          e in
      (
        mqtt,
        config,
        build_mqtt_config-merge_mqtt first raw s.mqtt new loaded built,
        build_mqtt_config-dump_mqtt env (merge_mqtt s.mqtt raw) new built,
      )
