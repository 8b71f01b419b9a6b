-- ===== src/Web/Refusals.antt =====
-- A message that web.py answers with a configuration error has changed nothing.
use bark_detector.Prelude.{◌≡◌, refl, ap, String, Option, none, some, List, [], map}
use bark_detector.Float.{Float}
use bark_detector.Config.{MqttConfig}
use bark_detector.Config.Source.{ConfigError, source_not_found}
use bark_detector.Controller.{
  AppController, Effect, Reply, done, refused, broken, add_source, update_source, delete_source,
}
use bark_detector.Controller.Refusals.{
  IsIdle, add_source-IsIdle, update_source-IsIdle, delete_source-IsIdle, update_mqtt-IsIdle,
}
use bark_detector.Controller.MqttSettings.{MqttSettings, Call, update_mqtt}
use bark_detector.Web.{
  App, Action, sources_add, sources_update, sources_delete, sources_test, mqtt_get, mqtt_update,
  unknown, action_of, a_source, a_name, Outside, Request, Data, Answer, config_error, Asked,
  of_sources, of_settings, handle, update_named, delete_named, dispatch, reply, object, not_json,
  not_object, Frame,
}

module _ {F : Type 0} where
  -- Where the answer is a configuration error, the state is given back and nothing is asked for.
  abbrev IsUnmoved : App F → App F × Answer F × List (Asked F) → Type 0
  IsUnmoved app result =
      (e : ConfigError) → result.1 ≡ config_error e → (result.0 ≡ app) × (result.2 ≡ [])

  of_sources-IsUnmoved :
      {A : Type 0} (app : App F) (data_of : A → Data F)
      (result : AppController F × Reply A × List (Effect F))
      → IsIdle app.controller result
      → IsUnmoved app (of_sources app data_of result)
  unfolding of_sources
  of_sources-IsUnmoved app data_of (c, done a, effects) idle e h = absurd (let h' = h in cc)
  of_sources-IsUnmoved app data_of (c, refused e', effects) idle e h =
      let (same, quiet) = idle e' refl in
      (ap (λ (c : AppController F). record app { controller = c }) same, ap (map _) quiet)
  of_sources-IsUnmoved app data_of (c, broken, effects) idle e h = absurd (let h' = h in cc)

  of_settings-IsUnmoved :
      (app : App F) (result : MqttSettings × Reply MqttConfig × List (Call F))
      → IsIdle app.settings result
      → IsUnmoved app (of_settings app result)
  unfolding of_settings
  of_settings-IsUnmoved app (s, done a, calls) idle e h = absurd (let h' = h in cc)
  of_settings-IsUnmoved app (s, refused e', calls) idle e h =
      let (same, quiet) = idle e' refl in
      (ap (λ (s : MqttSettings). record app { settings = s }) same, ap (map _) quiet)
  of_settings-IsUnmoved app (s, broken, calls) idle e h = absurd (let h' = h in cc)

  IsUnmoved-same : (app : App F) (answer : Answer F) → IsUnmoved app (app, answer, [])
  IsUnmoved-same app answer e h = (refl, refl)

module _ {F : Type 0} ⦃fl : Float F⦄ where
  delete_named-IsUnmoved :
      (app : App F) (name : Option String) → IsUnmoved app (delete_named app name)
  unfolding delete_named
  delete_named-IsUnmoved app none = IsUnmoved-same app (config_error source_not_found)
  delete_named-IsUnmoved app (some name) =
      of_sources-IsUnmoved app (λ deleted. a_name name) (delete_source app.controller name)
        (delete_source-IsIdle app.controller name)

module _ {F I : Type 0} ⦃fl : Float F⦄ (app : App F) (o : Outside F) where
  update_named-IsUnmoved :
      (request : Request F I) (name : Option String)
      → IsUnmoved app (update_named app o name request.source)
  unfolding update_named
  update_named-IsUnmoved request none = IsUnmoved-same app (config_error source_not_found)
  update_named-IsUnmoved request (some name) =
      of_sources-IsUnmoved app a_source
        (update_source app.controller name request.source o.fresh_id o.saved)
        (update_source-IsIdle app.controller name request.source o.fresh_id o.saved)

  handle-IsUnmoved :
      (request : Request F I) (action : Action) → IsUnmoved app (handle app o request action)
  unfolding handle
  handle-IsUnmoved request sources_add =
      of_sources-IsUnmoved app a_source
        (add_source app.controller request.source o.fresh_id o.saved)
        (add_source-IsIdle app.controller request.source o.fresh_id o.saved)
  handle-IsUnmoved request sources_update = update_named-IsUnmoved request request.name
  handle-IsUnmoved request sources_delete = delete_named-IsUnmoved app request.name
  handle-IsUnmoved request sources_test = λ e h. (refl, refl)
  handle-IsUnmoved request mqtt_get = λ e h. (refl, refl)
  handle-IsUnmoved request mqtt_update =
      of_settings-IsUnmoved app
        (update_mqtt o.env app.settings app.controller.sources request.mqtt o.saved o.stops)
        (update_mqtt-IsIdle o.env app.settings app.controller.sources request.mqtt o.saved o.stops)
  handle-IsUnmoved request unknown = λ e h. (refl, refl)

  -- A message that is answered with a configuration error has left the sources, their workers and
  -- statuses and the settings of MQTT as they were, and asked nothing of files, threads or MQTT.
  pub dispatch_refused :
      (frame : Frame F I) (type : Option String) (id : I) (e : ConfigError)
      → (dispatch app o frame).1 ≡ reply type id (config_error e)
      → ((dispatch app o frame).0 ≡ app) × ((dispatch app o frame).2 ≡ [])
  unfolding dispatch
  dispatch_refused not_json type id e h = (refl, refl)
  dispatch_refused not_object type id e h = (refl, refl)
  dispatch_refused (object request) type id e h =
      handle-IsUnmoved request (action_of request.type) e (let h' = h in cc)
