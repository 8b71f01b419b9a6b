-- ===== src/Web/Secrets.antt =====
-- The password of MQTT never reaches the browser through web.py.
use bark_detector.Prelude.{
  ◌≡◌, refl, sym, ap, ◌∙◌, String, Bool, true, false, Option, none, some, List, Option-cases, inl,
  inr, arith,
}
use bark_detector.Float.{Float}
use bark_detector.Config.{MqttConfig, SourceConfig, get}
use bark_detector.Config.Env.{Env, env_override, from_var}
use bark_detector.Config.Source.{RawSource}
use bark_detector.Config.Settings.{RawMqtt, build_mqtt_config, or_none}
use bark_detector.Controller.MqttSettings.{MqttSettings, update_mqtt, merge_mqtt, update_built}
use bark_detector.Web.{
  App, Action, sources_add, sources_update, sources_delete, sources_test, mqtt_get, mqtt_update,
  unknown, action_of, Outside, Request, Answer, RedactedMqtt, is_set, redact_mqtt, an_mqtt, success,
  internal_error, answer_of, of_settings, handle, update_named, delete_named, of_sources, dispatch,
  reply, object, not_json, not_object, Frame,
}

redacted : Option MqttConfig → Option RedactedMqtt
redacted none = none
redacted (some c) = some (redact_mqtt c)

or_none_set : (a b : Option String) → is_set a ≡ is_set b → is_set (or_none a) ≡ is_set (or_none b)
unfolding is_set or_none
or_none_set none none e = refl
or_none_set none (some b) e = ground arith
or_none_set (some a) none e = ground arith
or_none_set (some a) (some b) e = ground arith

given_set :
    (given : Option (Option String)) (a b : Option String)
    → is_set a ≡ is_set b
    → is_set (or_none (get given a)) ≡ is_set (or_none (get given b))
given_set none a b e = or_none_set a b e
given_set (some text) a b e = refl

module _ {F : Type 0} (env : Env F) where
  -- Two passwords that are both set or both not set remain so.
  password_set :
      (given : Option (Option String)) (a b : Option String)
      → is_set a ≡ is_set b
      → (p : Option String) × (q : Option String) × (env_override env
            (λ text. some (some text))
            "MQTT_PASSWORD"
            (or_none (get given a))
          ≡ some p)
        × (env_override env (λ text. some (some text)) "MQTT_PASSWORD" (or_none (get given b))
            ≡ some q)
        × (is_set p ≡ is_set q)
  unfolding env_override from_var
  password_set given a b e = elim (Option-cases (env.var "MQTT_PASSWORD")) [
    | inr (text, v) ↦ (some text, some text, (rw v), (rw v), refl)
    | inl v ↦ (or_none (get given a), or_none (get given b), (rw v), (rw v), given_set given a b e)
  ]

  redacted_same :
      (c : MqttConfig) (raw : RawMqtt) (q : Option String)
      → is_set c.password ≡ is_set q
      → redacted (build_mqtt_config env (merge_mqtt c raw))
        ≡ redacted (build_mqtt_config env (merge_mqtt (record c { password = q }) raw))
  unfolding build_mqtt_config merge_mqtt redacted redact_mqtt
  redacted_same c raw q e =
      let (p', q', first, second, same) = password_set raw.password c.password q e in ground arith

answer_of_settings : {F : Type 0} → Option RedactedMqtt → Bool → Answer F
answer_of_settings none saved = internal_error
answer_of_settings (some c) true = success (an_mqtt c)
answer_of_settings (some c) false = internal_error

module _ {F : Type 0} where
  update_built_answer :
      (s : MqttSettings) (sources : List (SourceConfig F)) (built : Option MqttConfig)
      (saved stops : Bool)
      → answer_of {F = F}
          (λ c. an_mqtt (redact_mqtt c))
          (update_built s sources built saved stops).1
        ≡ answer_of_settings (redacted built) saved
  unfolding update_built redacted answer_of_settings
  update_built_answer s sources none saved stops = refl
  update_built_answer s sources (some c) true stops = refl
  update_built_answer s sources (some c) false stops = refl

  -- The same program with another password.
  unfoldable pub with_password : App F → Option String → App F
  with_password app q = record app {
    settings = record app.settings { mqtt = record app.settings.mqtt { password = q } };
  }

module _ {F : Type 0} ⦃fl : Float F⦄ (app : App F) (q : Option String) where
  update_named_hides :
      (o : Outside F) (name : Option String) (raw : RawSource F)
      → (update_named app o name raw).1 ≡ (update_named (with_password app q) o name raw).1
  unfolding update_named of_sources with_password
  update_named_hides o none raw = refl
  update_named_hides o (some name) raw = refl

  delete_named_hides :
      (name : Option String)
      → (delete_named app name).1 ≡ (delete_named (with_password app q) name).1
  unfolding delete_named of_sources with_password
  delete_named_hides none = refl
  delete_named_hides (some name) = refl

module _ {F I : Type 0} ⦃fl : Float F⦄ (app : App F) (o : Outside F) where
  handle_hides :
      (q : Option String) (request : Request F I) (action : Action)
      → is_set app.settings.mqtt.password ≡ is_set q
      → (handle app o request action).1 ≡ (handle (with_password app q) o request action).1
  unfolding handle with_password redact_mqtt of_settings update_mqtt of_sources update_named
      delete_named
  handle_hides q request sources_add e = refl
  handle_hides q request sources_update e = update_named_hides app q o request.name request.source
  handle_hides q request sources_delete e = delete_named_hides app q request.name
  handle_hides q request sources_test e = refl
  handle_hides q request mqtt_get e = rw e
  handle_hides q request mqtt_update e =
      let s = app.settings in
      let new = record s { mqtt = record s.mqtt { password = q } } in
      let sources = app.controller.sources in
      let first = build_mqtt_config o.env (merge_mqtt s.mqtt request.mqtt) in
      let second =
        build_mqtt_config o.env (merge_mqtt (record s.mqtt { password = q }) request.mqtt) in
      update_built_answer s sources first o.saved o.stops
      ∙ (ap (λ (r : Option RedactedMqtt). answer_of_settings {F = F} r o.saved)
            (redacted_same o.env s.mqtt request.mqtt q e)
          ∙ sym (update_built_answer new sources second o.saved o.stops))
  handle_hides q request unknown e = refl

  -- What is sent back to any message does not depend on the password of MQTT, only on whether one is
  -- set.
  pub dispatch_hides :
      (q : Option String) (frame : Frame F I)
      → is_set app.settings.mqtt.password ≡ is_set q
      → (dispatch app o frame).1 ≡ (dispatch (with_password app q) o frame).1
  unfolding dispatch
  dispatch_hides q not_json e = refl
  dispatch_hides q not_object e = refl
  dispatch_hides q (object request) e =
      ap (reply request.type request.id) (handle_hides q request (action_of request.type) e)
