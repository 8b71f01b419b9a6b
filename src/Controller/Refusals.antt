-- ===== src/Controller/Refusals.antt =====
-- A request that the sources' methods of controller.py refuse has changed nothing.
use bark_detector.Prelude.{
  ◌≡◌, refl, String, Bool, true, false, Option, none, some, List, [], if◌then◌else◌,
}
use bark_detector.Float.{Float}
use bark_detector.Config.{SourceConfig, MqttConfig}
use bark_detector.Config.Env.{Env}
use bark_detector.Config.Settings.{RawMqtt, build_mqtt_config}
use bark_detector.Controller.MqttSettings.{
  MqttSettings, update_mqtt, merge_mqtt, update_built as settings_built,
}
use bark_detector.Config.Source.{
  RawSource, ConfigError, source_not_found, Result, ok, error, build_source_config,
}
use bark_detector.Controller.{
  AppController, Effect, Reply, done, refused, broken, add_source, update_source, delete_source,
  find_source, delete_found, update_found, update_checked, update_built, no_defaults, merged,
  add_built, start_worker,
}

module _ {S A E : Type 0} where
  -- A refused operation gives the state back and asks for nothing.
  abbrev pub IsIdle : S → S × Reply A × List E → Type 0
  IsIdle c result = (e : ConfigError) → result.1 ≡ refused e → (result.0 ≡ c) × (result.2 ≡ [])

  IsIdle-if :
      (c : S) (b : Bool) (x y : S × Reply A × List E)
      → IsIdle c x
      → IsIdle c y
      → IsIdle c (if b then x else y)
  IsIdle-if c true x y idle idle' = idle
  IsIdle-if c false x y idle idle' = idle'

  IsIdle-refused : (c : S) (e : ConfigError) → IsIdle c (c, refused e, [])
  IsIdle-refused c e e' h = (refl, refl)

  -- With what starting a worker gives, if it raises nothing.
  IsIdle-started :
      {B : Type 0} (c : S) (o : Option B) (x : S × Reply A × List E) (f : B → S × Reply A × List E)
      → IsIdle c x
      → ((b : B) → IsIdle c (f b))
      → IsIdle c (elim o [ none ↦ x | some b ↦ f b ])
  IsIdle-started c none x f idle idle' = idle
  IsIdle-started c (some b) x f idle idle' = idle' b

  pub IsIdle-done : (c c' : S) (a : A) (effects : List E) → IsIdle c (c', done a, effects)
  IsIdle-done c c' a effects e h = absurd (let h' = h in cc)

  pub IsIdle-broken : (c c' : S) (effects : List E) → IsIdle c (c', broken, effects)
  IsIdle-broken c c' effects e h = absurd (let h' = h in cc)

module _ {F : Type 0} where
  delete_found-IsIdle :
      (c : AppController F) (name : String) (o : Option (SourceConfig F))
      → IsIdle c (delete_found c name o)
  unfolding delete_found
  delete_found-IsIdle c name none e h = (refl, refl)
  delete_found-IsIdle c name (some removed) e h = absurd (let h' = h in cc)

  pub delete_source-IsIdle : (c : AppController F) (name : String) → IsIdle c (delete_source c name)
  unfolding delete_source
  delete_source-IsIdle c name = delete_found-IsIdle c name (find_source name c.sources)

  settings_built-IsIdle :
      (s : MqttSettings) (sources : List (SourceConfig F)) (built : Option MqttConfig)
      (saved stops : Bool)
      → IsIdle s (settings_built s sources built saved stops)
  unfolding settings_built
  settings_built-IsIdle s sources none saved stops = IsIdle-broken s s []
  settings_built-IsIdle s sources (some new) false stops = IsIdle-broken s _ _
  settings_built-IsIdle s sources (some new) true stops = IsIdle-done s _ new _

  pub update_mqtt-IsIdle :
      (env : Env F) (s : MqttSettings) (sources : List (SourceConfig F)) (raw : RawMqtt)
      (saved stops : Bool)
      → IsIdle s (update_mqtt env s sources raw saved stops)
  unfolding update_mqtt
  update_mqtt-IsIdle env s sources raw saved stops =
      settings_built-IsIdle s sources (build_mqtt_config env (merge_mqtt s.mqtt raw)) saved stops

module _ {F : Type 0} ⦃fl : Float F⦄ where
  add_built-IsIdle :
      (c : AppController F) (s : SourceConfig F) (saved : Bool) → IsIdle c (add_built c s saved)
  unfolding add_built
  add_built-IsIdle c s saved =
      IsIdle-if c saved _ _
        (IsIdle-started c (start_worker _ s) _ _ (IsIdle-broken c _ _) (λ b. IsIdle-done c _ s _))
        (IsIdle-broken c _ _)

  pub add_source-IsIdle :
      (c : AppController F) (raw : RawSource F) (fresh_id : String) (saved : Bool)
      → IsIdle c (add_source c raw fresh_id saved)
  unfolding add_source
  add_source-IsIdle c raw fresh_id saved =
      IsIdle-if c _ _ _ (IsIdle-refused c _) (result (build_source_config raw no_defaults fresh_id))
    where
      result :
          (r : Result (SourceConfig F))
          → IsIdle {S = AppController F} {A = SourceConfig F} {E = Effect F} c
              (elim r [ error e ↦ (c, refused e, []) | ok source ↦ add_built c source saved ])
      result (error e) = IsIdle-refused c e
      result (ok source) = add_built-IsIdle c source saved

  update_built-IsIdle :
      (c : AppController F) (name : String) (new : SourceConfig F) (saved : Bool)
      → IsIdle c (update_built c name new saved)
  unfolding update_built
  update_built-IsIdle c name new saved = IsIdle-if c _ _ _ (IsIdle-refused c _) (
      IsIdle-if c saved _ _
        (IsIdle-started c (start_worker _ new) _ _ (IsIdle-broken c _ _)
          (λ b. IsIdle-done c _ new _))
        (IsIdle-broken c _ _))

  update_checked-IsIdle :
      (c : AppController F) (name : String) (saved : Bool) (r : Result (SourceConfig F))
      → IsIdle c (update_checked c name saved r)
  unfolding update_checked
  update_checked-IsIdle c name saved (error e) = IsIdle-refused c e
  update_checked-IsIdle c name saved (ok new) = update_built-IsIdle c name new saved

  update_found-IsIdle :
      (c : AppController F) (name : String) (raw : RawSource F) (fresh_id : String) (saved : Bool)
      (o : Option (SourceConfig F))
      → IsIdle c (update_found c name raw fresh_id saved o)
  unfolding update_found
  update_found-IsIdle c name raw fresh_id saved none = IsIdle-refused c source_not_found
  update_found-IsIdle c name raw fresh_id saved (some old) =
      update_checked-IsIdle c name saved
        (build_source_config (merged raw name old.id) no_defaults fresh_id)

  pub update_source-IsIdle :
      (c : AppController F) (name : String) (raw : RawSource F) (fresh_id : String) (saved : Bool)
      → IsIdle c (update_source c name raw fresh_id saved)
  unfolding update_source
  update_source-IsIdle c name raw fresh_id saved =
      update_found-IsIdle c name raw fresh_id saved (find_source name c.sources)
