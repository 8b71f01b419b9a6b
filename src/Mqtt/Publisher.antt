-- ===== src/Mqtt/Publisher.antt =====
-- mqtt_publisher.py: the publisher's methods. The paho client is outside: what a method asks of it,
-- and what it tells the status callback, comes out as a list of effects in their order.
use bark_detector.Prelude.{
  String, Bool, true, false, not, Option, none, some, List, [], ◌∷◌, ◌++◌, ◌&&◌, str_eq,
  if◌then◌else◌,
}
use bark_detector.Prelude.Int.{pos}
use bark_detector.Float.{Float}
use bark_detector.Prelude.Int.{ℤ}
use bark_detector.Config.{
  MqttConfig, SourceConfig, availability_topic, triggered_topic, event_topic, status_topic,
  system_topic,
}
use bark_detector.Snippet.{DetectionTrigger, DetectionEvent}
use bark_detector.Cleanup.{SpaceAlert}
use bark_detector.Mqtt.{Json, Fields, str, num, int, obj, end, field, plain, json, Message}
use bark_detector.Mqtt.Discovery.{
  build_source_discovery, build_system_discovery, discovery_topics_for_source,
  system_discovery_topic,
}

-- What `_build_client` sets up.
pub record Client : Type 0 where
  pub client_id : String
  -- the user name and the password, if there is a user name
  pub login : Option (String × Option String)
  -- the last will, "offline", is retained on this topic
  pub will_topic : String

pub record MqttPublisher : Type 0 where
  pub config : MqttConfig
  pub connected : Bool
  pub client : Client

pub data Effect (F : Type 0) : Type 0 where
  status_change : Bool → Effect F
  publish : Message F → Effect F
  connect_async : String → ℤ → Effect F
  loop_start loop_stop disconnect : Effect F

-- An empty user name is none.
login_of : Option String → Option String → Option (String × Option String)
login_of none password = none
login_of (some user) password = if str_eq user "" then none else some (user, password)

unfoldable pub build_client : MqttConfig → Client
unfolding login_of
build_client config = record {
  client_id = config.client_id;
  login = login_of config.username config.password;
  will_topic = availability_topic config;
}

unfoldable pub init : MqttConfig → MqttPublisher
init config = record { config = config; connected = false; client = build_client config }

unfoldable pub is_connected : MqttPublisher → Bool
is_connected p = p.connected

-- `connected != self.connected`
changed : Bool → Bool → Bool
changed true old = not old
changed false old = old

retained : {F : Type 0} → String → String → Message F
retained topic text = record { topic = topic; payload = plain text; retain = true }

module _ {F : Type 0} where
  unfoldable pub set_connected : MqttPublisher → Bool → MqttPublisher × List (Effect F)
  unfolding changed
  set_connected p connected = (
    record p { connected = connected },
    if changed connected p.connected then status_change connected ∷ [] else [],
  )

  unfoldable pub handle_connect : MqttPublisher → MqttPublisher × List (Effect F)
  unfolding set_connected retained
  handle_connect p =
      let (p', effects) = set_connected p true in
      (
        p',
        effects
            ++ (if p'.config.enabled
                then publish (retained (availability_topic p'.config) "online") ∷ []
                else []),
      )

  unfoldable pub handle_disconnect : MqttPublisher → MqttPublisher × List (Effect F)
  unfolding set_connected
  handle_disconnect p = set_connected p false

  dial : MqttConfig → List (Effect F)
  dial config =
      if config.enabled then connect_async config.host config.port ∷ loop_start ∷ [] else []

  unfoldable pub connect : MqttPublisher → MqttPublisher × List (Effect F)
  unfolding dial
  connect p = (p, dial p.config)

  -- An exception of `loop_stop`, which keeps `disconnect` from being called, is logged.
  unfoldable pub reconfigure : MqttPublisher → MqttConfig → Bool → MqttPublisher × List (Effect F)
  unfolding set_connected dial
  reconfigure p new_config stops =
      let fresh = record p { client = build_client new_config; config = new_config } in
      let (p', effects) = set_connected fresh false in
      (
        p',
        (if stops then loop_stop ∷ disconnect ∷ [] else loop_stop ∷ [])
            ++ (effects ++ dial new_config),
      )

  unfoldable pub stop : MqttPublisher → MqttPublisher × List (Effect F)
  unfolding set_connected retained
  stop p =
      let (p', effects) = set_connected p false in
      if p.config.enabled
      then (
        p',
        publish (retained (availability_topic p.config) "offline")
            ∷ loop_stop
            ∷ disconnect
            ∷ effects,
      )
      else (p, [])

  -- The messages of the publishing methods, which change no state.
  when_enabled : MqttPublisher → List (Message F) → List (Message F)
  when_enabled p messages = if p.config.enabled then messages else []

  when_discovering : MqttPublisher → List (Message F) → List (Message F)
  when_discovering p messages = if p.config.enabled && p.config.discovery then messages else []

  retained_all : List (String × Json F) → List (Message F)
  retained_all [] = []
  retained_all ((topic, payload) ∷ rest) =
      record { topic = topic; payload = json payload; retain = true } ∷ retained_all rest

  cleared_all : List String → List (Message F)
  unfolding retained
  cleared_all [] = []
  cleared_all (topic ∷ rest) = retained topic "" ∷ cleared_all rest

  unfoldable pub publish_discovery_for_source : MqttPublisher → SourceConfig F → List (Message F)
  unfolding when_discovering retained_all
  publish_discovery_for_source p source =
      when_discovering p (retained_all (build_source_discovery p.config source))

  unfoldable pub remove_discovery_for_source : MqttPublisher → String → List (Message F)
  unfolding when_enabled cleared_all
  remove_discovery_for_source p source_id =
      when_enabled p (cleared_all (discovery_topics_for_source p.config.discovery_prefix source_id))

  unfoldable pub publish_system_discovery : MqttPublisher → List (Message F)
  unfolding when_discovering retained_all
  publish_system_discovery p = when_discovering p (retained_all (build_system_discovery p.config))

  unfoldable pub remove_system_discovery : MqttPublisher → List (Message F)
  unfolding when_enabled cleared_all
  remove_system_discovery p =
      when_enabled p (cleared_all (system_discovery_topic p.config.discovery_prefix ∷ []))

  unfoldable pub publish_each : MqttPublisher → List (SourceConfig F) → List (Message F)
  publish_each p [] = []
  publish_each p (source ∷ sources) =
      publish_discovery_for_source p source ++ publish_each p sources

  unfoldable pub publish_all_discovery : MqttPublisher → List (SourceConfig F) → List (Message F)
  unfolding publish_each
  publish_all_discovery p sources = publish_system_discovery p ++ publish_each p sources

module _ {F : Type 0} ⦃fl : Float F⦄ (p : MqttPublisher) where
  one_message : String → Bool → Fields F → List (Message F)
  one_message topic retain fields =
      if p.config.enabled
      then record { topic = topic; payload = json (obj fields); retain = retain } ∷ []
      else []

  unfoldable pub publish_trigger : DetectionTrigger F → List (Message F)
  unfolding one_message
  publish_trigger t = one_message (triggered_topic p.config t.source) false (
      field "id" (str t.id) (
        field "source" (str t.source) (
          field "label" (str t.label)
            (field "score" (num (fl.round t.score 3)) (field "timestamp" (num t.timestamp) end)))))

  unfoldable pub publish_event : DetectionEvent F → List (Message F)
  unfolding one_message
  publish_event e = one_message (event_topic p.config e.source) false (
      field "id" (str e.id) (
        field "source" (str e.source) (
          field "label" (str e.label) (
            field "score" (num (fl.round e.score 3)) (
              field "timestamp" (num e.timestamp) (
                field "file" (str e.file) (field "duration" (num (fl.round e.duration 2)) end)))))))

  unfoldable pub publish_status : String → String → F → List (Message F)
  unfolding one_message
  publish_status source status now =
      one_message (status_topic p.config source) true (
        field "source" (str source) (field "status" (str status) (field "timestamp" (num now) end)))

  unfoldable pub publish_space_alert : SpaceAlert → F → List (Message F)
  unfolding one_message
  publish_space_alert a now = one_message (system_topic p.config "space_limit_reached") false (
      field "used_bytes" (int (pos a.used_bytes)) (
        field "max_bytes" (int a.max_bytes)
          (field "deleted_count" (int (pos a.deleted_count)) (field "timestamp" (num now) end))))
