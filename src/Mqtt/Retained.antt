-- ===== src/Mqtt/Retained.antt =====
-- What a broker keeps of a source's discovery messages of mqtt_publisher.py.
use bark_detector.Prelude.{
  ◌≡◌, refl, ◌∙◌, ap, String, Bool, true, false, Option, none, List, [], ◌∷◌, ◌&&◌, ◌||◌, ◌++◌,
  Bool-cases, if◌then◌else◌, str_eq, inl, inr,
}
use bark_detector.Config.{MqttConfig, SourceConfig}
use bark_detector.Mqtt.{Payload, Message, Broker, settle_one, deliver_all}
use bark_detector.Mqtt.Discovery.{
  build_source_discovery, discovery_topics_for_source, detected_topic, connectivity_topic,
}
use bark_detector.Mqtt.Publisher.{
  MqttPublisher, publish_discovery_for_source, remove_discovery_for_source, publish_each,
}

module _ {F : Type 0} where
  settle : String → Option (Payload F) → List (Message F) → Option (Payload F)
  settle topic kept [] = kept
  settle topic kept (m ∷ ms) = settle topic (settle_one topic kept m) ms

  settle-append :
      (topic : String) (kept : Option (Payload F)) (ms ns : List (Message F))
      → settle topic kept (ms ++ ns) ≡ settle topic (settle topic kept ms) ns
  unfolding settle
  settle-append topic kept [] ns = refl
  settle-append topic kept (m ∷ ms) ns = settle-append topic (settle_one topic kept m) ms ns

  kept-deliver_all :
      (broker : Broker F) (b : broker.State) (ms : List (Message F)) (topic : String)
      → broker.kept (deliver_all broker b ms) topic ≡ settle topic (broker.kept b topic) ms
  unfolding deliver_all settle
  kept-deliver_all broker b [] topic = refl
  kept-deliver_all broker b (m ∷ ms) topic =
      kept-deliver_all broker (broker.deliver b m) ms topic
      ∙ ap (λ kept. settle topic kept ms) (broker.kept-deliver b m topic)

-- All these sources have this identifier: they are the states of one source over time.
abbrev pub HaveId : {F : Type 0} → String → List (SourceConfig F) → Type 0
HaveId id [] = Unit {0}
HaveId id (source ∷ sources) = (source.id ≡ id) × HaveId id sources

-- The two discovery topics of the sources with this identifier.
abbrev pub is_topic : MqttConfig → String → String → Bool
is_topic config id t =
    str_eq (connectivity_topic config.discovery_prefix id) t
    || str_eq (detected_topic config.discovery_prefix id) t

or_false : (a b : Bool) → (a || b) ≡ false → (a ≡ false) × (b ≡ false)
or_false false b e = (refl, e)
or_false true b e = cc

module _ {F : Type 0} (p : MqttPublisher) (id : String) where
  removed :
      (kept : Option (Payload F)) (t : String)
      → p.config.enabled ≡ true
      → settle t kept (remove_discovery_for_source p id)
        ≡ (if is_topic p.config id t then none else kept)
  unfolding remove_discovery_for_source settle settle_one discovery_topics_for_source
  removed kept t on =
      simp (on) (elim (Bool-cases (str_eq (connectivity_topic p.config.discovery_prefix id) t)) [
        | inl c ↦ rw c
        | inr c ↦ rw c
      ])

  published_elsewhere :
      (kept : Option (Payload F)) (source : SourceConfig F) (t : String)
      → source.id ≡ id
      → is_topic p.config id t ≡ false
      → settle t kept (publish_discovery_for_source p source) ≡ kept
  unfolding publish_discovery_for_source settle settle_one build_source_discovery
  published_elsewhere kept source t same other =
      let (connectivity, detected) =
        or_false (str_eq (connectivity_topic p.config.discovery_prefix id) t)
          (str_eq (detected_topic p.config.discovery_prefix id) t) other in
      elim (Bool-cases (p.config.enabled && p.config.discovery)) [
        | inl on ↦ simp (on, same) (rw (connectivity, detected))
        | inr off ↦ simp (off)
      ]

  each_elsewhere :
      (kept : Option (Payload F)) (sources : List (SourceConfig F)) (t : String)
      → HaveId id sources
      → is_topic p.config id t ≡ false
      → settle t kept (publish_each p sources) ≡ kept
  unfolding publish_each settle
  each_elsewhere kept [] t same other = refl
  each_elsewhere kept (source ∷ sources) t same other =
      let published = publish_discovery_for_source p source in
      settle-append t kept published (publish_each p sources)
      ∙ (each_elsewhere (settle t kept published) sources t same.1 other
          ∙ published_elsewhere kept source t same.0 other)

  settled :
      (kept : Option (Payload F)) (sources : List (SourceConfig F)) (t : String)
      → HaveId id sources
      → p.config.enabled ≡ true
      → settle t kept (publish_each p sources ++ remove_discovery_for_source p id)
        ≡ (if is_topic p.config id t then none else kept)
  settled kept sources t same on =
      rw (settle-append t kept (publish_each p sources) (remove_discovery_for_source p id)) (
        rw (removed (settle t kept (publish_each p sources)) t on)
          (elim (Bool-cases (is_topic p.config id t)) [
            | inl e ↦ rw e
            | inr e ↦ rw e (each_elsewhere kept sources t same e)
          ]))

-- On every broker that keeps retained messages as MQTT documents it: while MQTT is enabled,
-- removing the discovery of a source by its identifier leaves nothing retained on its topics and
-- every other topic as it was, however often the source was published before under that
-- identifier, renamed or with other settings in between, and whatever the broker kept at the start.
pub discovery_removed :
    {F : Type 0} (broker : Broker F) (b : broker.State) (p : MqttPublisher) (id : String)
    (sources : List (SourceConfig F)) (t : String)
    → HaveId id sources
    → p.config.enabled ≡ true
    → broker.kept
        (deliver_all broker b (publish_each p sources ++ remove_discovery_for_source p id))
        t
      ≡ (if is_topic p.config id t then none else broker.kept b t)
discovery_removed broker b p id sources t same on =
    kept-deliver_all broker b (publish_each p sources ++ remove_discovery_for_source p id) t
    ∙ settled p id (broker.kept b t) sources t same on
