-- ===== src/Mqtt/Status.antt =====
-- The connection status that mqtt_publisher.py tells its callback and its subscribers.
use bark_detector.Prelude.{◌≡◌, refl, ap, ◌∙◌, String, Bool, true, false, List, [], ◌∷◌, ◌++◌}
use bark_detector.Float.{Float}
use bark_detector.Config.{MqttConfig, SourceConfig}
use bark_detector.Snippet.{DetectionTrigger, DetectionEvent}
use bark_detector.Cleanup.{SpaceAlert}
use bark_detector.Mqtt.Publisher.{
  MqttPublisher, Effect, status_change, publish, connect_async, loop_start, loop_stop, disconnect,
  handle_connect, handle_disconnect, connect, reconfigure, stop, publish_discovery_for_source,
  remove_discovery_for_source, publish_system_discovery, remove_system_discovery,
  publish_all_discovery, publish_trigger, publish_event, publish_status, publish_space_alert,
  publish_each,
}

-- What may happen to the connection.
pub data Happening : Type 0 where
  connects disconnects dials stops : Happening
  reconfigures : MqttConfig → Bool → Happening

module _ {F : Type 0} where
  unfoldable pub happen : MqttPublisher → Happening → MqttPublisher × List (Effect F)
  happen p connects = handle_connect p
  happen p disconnects = handle_disconnect p
  happen p dials = connect p
  happen p stops = stop p
  happen p (reconfigures config clean) = reconfigure p config clean

  unfoldable pub happen_all : MqttPublisher → List Happening → MqttPublisher × List (Effect F)
  happen_all p [] = (p, [])
  happen_all p (h ∷ hs) =
      let (p', effects) = happen p h in let (p'', more) = happen_all p' hs in (p'', effects ++ more)

  -- What the callback is told.
  abbrev pub told : List (Effect F) → List Bool
  told [] = []
  told (status_change b ∷ effects) = b ∷ told effects
  told (publish m ∷ effects) = told effects
  told (connect_async h n ∷ effects) = told effects
  told (loop_start ∷ effects) = told effects
  told (loop_stop ∷ effects) = told effects
  told (disconnect ∷ effects) = told effects

  told-append : (xs ys : List (Effect F)) → told (xs ++ ys) ≡ told xs ++ told ys
  told-append [] ys = refl
  told-append (status_change b ∷ xs) ys = ap (◌∷◌ b) (told-append xs ys)
  told-append (publish m ∷ xs) ys = told-append xs ys
  told-append (connect_async h n ∷ xs) ys = told-append xs ys
  told-append (loop_start ∷ xs) ys = told-append xs ys
  told-append (loop_stop ∷ xs) ys = told-append xs ys
  told-append (disconnect ∷ xs) ys = told-append xs ys

-- Whether there is a connection after that, where `c` says whether there was one and `enabled`
-- whether MQTT was in use: a stop ends it where MQTT is in use, new settings always.
abbrev pub is_up_after : Bool → Bool → Happening → Bool
is_up_after c enabled connects = true
is_up_after c enabled disconnects = false
is_up_after c enabled dials = c
is_up_after c true stops = false
is_up_after c false stops = c
is_up_after c enabled (reconfigures config clean) = false

abbrev pub is_used_after : Bool → Happening → Bool
is_used_after enabled connects = enabled
is_used_after enabled disconnects = enabled
is_used_after enabled dials = enabled
is_used_after enabled stops = enabled
is_used_after enabled (reconfigures config clean) = config.enabled

-- The status after each of the happenings.
abbrev pub statuses : Bool → Bool → List Happening → List Bool
statuses c enabled [] = []
statuses c enabled (h ∷ hs) =
    is_up_after c enabled h ∷ statuses (is_up_after c enabled h) (is_used_after enabled h) hs

-- The statuses that differ from the one before them.
abbrev pub changes_of : Bool → List Bool → List Bool
changes_of old [] = []
changes_of true (true ∷ bs) = changes_of true bs
changes_of true (false ∷ bs) = false ∷ changes_of false bs
changes_of false (true ∷ bs) = true ∷ changes_of true bs
changes_of false (false ∷ bs) = changes_of false bs

abbrev pub last_of : Bool → List Bool → Bool
last_of old [] = old
last_of old (b ∷ bs) = last_of b bs

changes_of-cons :
    (c b : Bool) (bs : List Bool) → changes_of c (b ∷ bs) ≡ changes_of c (b ∷ []) ++ changes_of b bs
changes_of-cons true true bs = refl
changes_of-cons true false bs = refl
changes_of-cons false true bs = refl
changes_of-cons false false bs = refl

module _ (F : Type 0) where
  abbrev enabled_as : MqttConfig → Bool → MqttConfig
  enabled_as config e = record config { enabled = e }

  abbrev Goes : MqttPublisher → Happening → Type 0
  Goes p h =
      ((happen {F = F} p h).0.connected ≡ is_up_after p.connected p.config.enabled h)
      × ((happen {F = F} p h).0.config.enabled ≡ is_used_after p.config.enabled h)
      × (told {F = F} (happen {F = F} p h).1
          ≡ changes_of p.connected (is_up_after p.connected p.config.enabled h ∷ []))

  -- a publisher with these two flags
  abbrev flagged : MqttPublisher → Bool → Bool → MqttPublisher
  flagged p c e = record p { connected = c; config = enabled_as p.config e }

  connects-Goes : (p : MqttPublisher) (c e : Bool) → Goes (flagged p c e) connects
  unfolding happen handle_connect
  connects-Goes p true true = (refl, refl, refl)
  connects-Goes p true false = (refl, refl, refl)
  connects-Goes p false true = (refl, refl, refl)
  connects-Goes p false false = (refl, refl, refl)

  disconnects-Goes : (p : MqttPublisher) (c e : Bool) → Goes (flagged p c e) disconnects
  unfolding happen handle_disconnect
  disconnects-Goes p true e = (refl, refl, refl)
  disconnects-Goes p false e = (refl, refl, refl)

  dials-Goes : (p : MqttPublisher) (c e : Bool) → Goes (flagged p c e) dials
  unfolding happen connect
  dials-Goes p true true = (refl, refl, refl)
  dials-Goes p true false = (refl, refl, refl)
  dials-Goes p false true = (refl, refl, refl)
  dials-Goes p false false = (refl, refl, refl)

  stops-Goes : (p : MqttPublisher) (c e : Bool) → Goes (flagged p c e) stops
  unfolding happen stop
  stops-Goes p true false = (refl, refl, refl)
  stops-Goes p false false = (refl, refl, refl)
  stops-Goes p true true = (refl, refl, refl)
  stops-Goes p false true = (refl, refl, refl)

  reconfigures-Goes :
      (p : MqttPublisher) (c e : Bool) (config : MqttConfig) (e' clean : Bool)
      → Goes (flagged p c e) (reconfigures (enabled_as config e') clean)
  unfolding happen reconfigure
  reconfigures-Goes p true e config true true = (refl, refl, refl)
  reconfigures-Goes p true e config true false = (refl, refl, refl)
  reconfigures-Goes p true e config false true = (refl, refl, refl)
  reconfigures-Goes p true e config false false = (refl, refl, refl)
  reconfigures-Goes p false e config true true = (refl, refl, refl)
  reconfigures-Goes p false e config true false = (refl, refl, refl)
  reconfigures-Goes p false e config false true = (refl, refl, refl)
  reconfigures-Goes p false e config false false = (refl, refl, refl)

  happen-Goes : (p : MqttPublisher) (h : Happening) → Goes p h
  happen-Goes p connects = connects-Goes p p.connected p.config.enabled
  happen-Goes p disconnects = disconnects-Goes p p.connected p.config.enabled
  happen-Goes p dials = dials-Goes p p.connected p.config.enabled
  happen-Goes p stops = stops-Goes p p.connected p.config.enabled
  happen-Goes p (reconfigures config clean) =
      reconfigures-Goes p p.connected p.config.enabled config config.enabled clean

  -- Whatever happens to the connection, in any order, the callback is told of every change of the
  -- status and of nothing else, and the status at the end is the right one: it is "connected" from
  -- each connect of the client until it disconnects, new settings are taken, or the publisher is
  -- stopped, which does nothing while MQTT is disabled.
  pub happen_all_lem :
      (p : MqttPublisher) (hs : List Happening)
      → (told {F = F} (happen_all {F = F} p hs).1
          ≡ changes_of p.connected (statuses p.connected p.config.enabled hs))
        × ((happen_all {F = F} p hs).0.connected
            ≡ last_of p.connected (statuses p.connected p.config.enabled hs))
  unfolding happen_all
  happen_all_lem p [] = (refl, refl)
  happen_all_lem p (h ∷ hs) =
      let next = (happen {F = F} p h).0 in
      let (up, used, own) = happen-Goes p h in
      let (rest, kept) = happen_all_lem next hs in
      (
        told-append (happen {F = F} p h).1 (happen_all {F = F} next hs).1
            ∙ rw
                (
                  own,
                  changes_of-cons p.connected (is_up_after p.connected p.config.enabled h) (
                      statuses (is_up_after p.connected p.config.enabled h)
                        (is_used_after p.config.enabled h) hs),
                )
                (ap (◌++◌ _) (rw (up, used) at rest)),
        rw (up, used) at kept,
      )

module _ {F : Type 0} (p : MqttPublisher) (off : p.config.enabled ≡ false) where
  publish_each_disabled : (sources : List (SourceConfig F)) → publish_each p sources ≡ []
  unfolding publish_each publish_discovery_for_source
  publish_each_disabled [] = refl
  publish_each_disabled (source ∷ sources) = simp (off, publish_each_disabled sources)

  publish_all_disabled : (sources : List (SourceConfig F)) → publish_all_discovery p sources ≡ []
  unfolding publish_all_discovery publish_system_discovery
  publish_all_disabled sources = simp (off, publish_each_disabled sources)

-- While MQTT is disabled the publisher sends nothing, whatever it is asked to publish or to
-- remove, and neither dials nor touches the client at its end.
pub disabled_silent :
    {F : Type 0} ⦃fl : Float F⦄ (p : MqttPublisher) (sources : List (SourceConfig F))
    (id name status : String) (t : DetectionTrigger F) (e : DetectionEvent F) (a : SpaceAlert)
    (now : F)
    → p.config.enabled ≡ false
    → (publish_trigger p t ≡ [])
      × (publish_event p e ≡ [])
      × (publish_status p name status now ≡ [])
      × (publish_space_alert p a now ≡ [])
      × (publish_all_discovery p sources ≡ [])
      × (remove_discovery_for_source {F = F} p id ≡ [])
      × (remove_system_discovery {F = F} p ≡ [])
      × ((connect {F = F} p).1 ≡ [])
      × ((stop {F = F} p).1 ≡ [])
unfolding publish_trigger publish_event publish_status publish_space_alert
    remove_discovery_for_source remove_system_discovery connect stop
disabled_silent p sources id name status t e a now off = (
  rw off,
  rw off,
  rw off,
  rw off,
  publish_all_disabled p off sources,
  rw off,
  rw off,
  rw off,
  rw off,
)
