-- ===== src/Mqtt/Discovery.antt =====
-- ha_discovery.py: the Home Assistant discovery topics and payloads.
use bark_detector.Prelude.{String, List, [], ◌∷◌, concat}
use bark_detector.Mqtt.{Json, str, texts, obj, end, field}
use bark_detector.Config.{
  MqttConfig, SourceConfig, default_listen, availability_topic, triggered_topic, event_topic,
  status_topic, system_topic,
}

abbrev pub hub_device_id : String
hub_device_id = "bark_detector"

pub device_id : String → String
device_id source_id = concat ("bark_detector_" ∷ source_id ∷ [])

pub detected_topic : String → String → String
unfolding device_id
detected_topic prefix source_id =
    concat (prefix ∷ "/event/" ∷ device_id source_id ∷ "/detected/config" ∷ [])

pub connectivity_topic : String → String → String
unfolding device_id
connectivity_topic prefix source_id =
    concat (prefix ∷ "/binary_sensor/" ∷ device_id source_id ∷ "/connectivity/config" ∷ [])

unfoldable pub discovery_topics_for_source : String → String → List String
discovery_topics_for_source prefix source_id =
    detected_topic prefix source_id ∷ connectivity_topic prefix source_id ∷ []

-- `list(source.listen) or list(DEFAULT_LISTEN)`
event_types : List String → List String
event_types [] = default_listen
event_types (label ∷ labels) = label ∷ labels

module _ {F : Type 0} where
  source_device : SourceConfig F → Json F
  unfolding device_id
  source_device source = obj (
      field "identifiers" (texts (device_id source.id ∷ []))
        (field "name" (str source.name) (field "via_device" (str hub_device_id) end)))

  detected_payload : MqttConfig → SourceConfig F → Json F
  unfolding device_id event_types source_device
  detected_payload mqtt source = obj (
      field "name" (str "Detected") (
        field "unique_id" (str (concat (device_id source.id ∷ "_detected" ∷ []))) (
          field "state_topic" (str (triggered_topic mqtt source.name)) (
            field "event_types" (texts (event_types source.listen)) (
              field "value_template" (str "{{ {'event_type': value_json.label} | tojson }}") (
                field "json_attributes_topic" (str (event_topic mqtt source.name)) (
                  field "availability_topic" (str (availability_topic mqtt))
                    (field "device" (source_device source) end))))))))

  connectivity_payload : MqttConfig → SourceConfig F → Json F
  unfolding device_id source_device
  connectivity_payload mqtt source = obj (
      field "name" (str "Connectivity") (
        field "unique_id" (str (concat (device_id source.id ∷ "_connectivity" ∷ []))) (
          field "device_class" (str "connectivity") (
            field "state_topic" (str (status_topic mqtt source.name)) (
              field "value_template"
                (str "{{ 'ON' if value_json.status == 'connected' else 'OFF' }}")
                (field "availability_topic" (str (availability_topic mqtt))
                  (field "device" (source_device source) end)))))))

  unfoldable pub build_source_discovery : MqttConfig → SourceConfig F → List (String × Json F)
  unfolding detected_payload connectivity_payload
  build_source_discovery mqtt source =
      (detected_topic mqtt.discovery_prefix source.id, detected_payload mqtt source)
      ∷ (connectivity_topic mqtt.discovery_prefix source.id, connectivity_payload mqtt source)
      ∷ []

unfoldable pub system_discovery_topic : String → String
system_discovery_topic prefix =
    concat (prefix ∷ "/event/" ∷ hub_device_id ∷ "/space_alert/config" ∷ [])

unfoldable pub build_system_discovery : {F : Type 0} → MqttConfig → List (String × Json F)
build_system_discovery mqtt =
    let alert = system_topic mqtt "space_limit_reached" in
    (
      system_discovery_topic mqtt.discovery_prefix,
      obj (
          field "name" (str "Space Alert") (
            field "unique_id" (str (concat (hub_device_id ∷ "_space_alert" ∷ []))) (
              field "state_topic" (str alert) (
                field "event_types" (texts ("space_limit_reached" ∷ [])) (
                  field "value_template"
                    (str "{{ {'event_type': 'space_limit_reached'} | tojson }}")
                    (field "json_attributes_topic" (str alert) (
                      field "entity_category" (str "diagnostic") (
                        field "availability_topic" (str (availability_topic mqtt)) (
                          field "device"
                            (obj (
                              field "identifiers" (texts (hub_device_id ∷ []))
                                (field "name" (str "Bark Detector") end)))
                            end))))))))),
    )
    ∷ []
