-- ===== src/Web.antt =====
-- web.py: the answers to requests for events and snippets, and to the messages of the settings page.
-- Flask's parsing of a request comes in parsed; JSON is its values.
pub mod Snippets
pub mod Connection
pub mod Pushes
pub mod Refusals
pub mod Secrets
mod Tests
use Prim.Native.Char.{code}
use bark_detector.Prelude.{
  ℕ, String, Bool, true, false, not, ◌&&◌, ◌||◌, Option, none, some, List, [], ◌∷◌, ◌++◌, ◌==◌, map,
  ltb, lookup, concat, str_eq, join_path, if◌then◌else◌,
}
use bark_detector.Prelude.Int.{ℤ, pos, negsuc}
use bark_detector.Float.{Float}
use bark_detector.Config.{MqttConfig, SourceConfig}
use bark_detector.Config.Env.{Env}
use bark_detector.Config.Source.{RawSource, ConfigError, source_not_found, has_slash}
use bark_detector.Config.Settings.{RawMqtt}
use bark_detector.EventStore.{Row, EventStore, OrderBy, list_recent}
use bark_detector.Controller.{
  AppController, Effect, Reply, done, refused, broken, add_source, update_source, delete_source,
}
use bark_detector.Controller.MqttSettings.{MqttSettings, Call, update_mqtt}
use bark_detector.Controller.TestSource.{TestResult, test_source}
use bark_detector.Probe.{Launch}

-- `os.path.basename` on a POSIX system
unfoldable pub basename : String → String
unfolding has_slash
basename String.[] = String.[]
basename (String.◌∷◌ c s) =
    let rest = basename s in
    if has_slash s then rest else if code c == b'/' then s else String.◌∷◌ c s

pub data SnippetReply : Type 0 where
  bad_request not_found : SnippetReply
  send_file : String → SnippetReply

-- `get_snippet`, where `is_file` is `os.path.isfile`
unfoldable pub get_snippet : (String → Bool) → String → String → SnippetReply
unfolding basename join_path
get_snippet is_file snippet_dir filename =
    let safe_name = basename filename in
    if str_eq safe_name "" || not (str_eq safe_name filename)
    then bad_request
    else if not (is_file (join_path snippet_dir safe_name))
    then not_found
    else send_file (join_path snippet_dir safe_name)

-- `min(... or 50, 200)`, where a limit that is missing or no integer is 50
unfoldable pub limit_of : Option ℤ → ℤ
limit_of none = pos 50
limit_of (some (negsuc n)) = negsuc n
limit_of (some (pos n)) = if n == 0 then pos 50 else if ltb 200 n then pos 200 else pos n

unfoldable pub snippet_url : String → String
snippet_url file = concat ("/snippets/" ∷ basename file ∷ [])

module _ {F : Type 0} where
  with_urls : List (Row F) → List (Row F × String)
  with_urls [] = []
  with_urls (row ∷ rows) = (row, snippet_url row.file) ∷ with_urls rows

module _ {F : Type 0} ⦃fl : Float F⦄ (sql : OrderBy fl) where
  unfoldable pub list_events : EventStore F → Option ℤ → Option F → List (Row F × String)
  unfolding with_urls limit_of
  list_events store limit t = with_urls (list_recent sql store (limit_of limit) t)

status_or : Option String → String
status_or none = "connecting"
status_or (some status) = status

module _ {F : Type 0} where
  -- `list_sources` of the web server: each source with its status
  unfoldable pub list_sources :
      List (String × String) → List (SourceConfig F) → List (SourceConfig F × String)
  unfolding status_or
  list_sources statuses [] = []
  list_sources statuses (source ∷ sources) =
      (source, status_or (lookup source.name statuses)) ∷ list_sources statuses sources

-- The settings of MQTT as they are sent: without the password.
pub record RedactedMqtt : Type 0 where
  pub enabled : Bool
  pub host : String
  pub port : ℤ
  pub username : Option String
  pub has_password : Bool
  pub topic : String
  pub client_id : String
  pub discovery : Bool
  pub discovery_prefix : String

-- `bool(password)`
unfoldable pub is_set : Option String → Bool
is_set none = false
is_set (some text) = not (str_eq text "")

unfoldable pub redact_mqtt : MqttConfig → RedactedMqtt
unfolding is_set
redact_mqtt c = record {
  enabled = c.enabled;
  host = c.host;
  port = c.port;
  username = c.username;
  has_password = is_set c.password;
  topic = c.topic;
  client_id = c.client_id;
  discovery = c.discovery;
  discovery_prefix = c.discovery_prefix;
}

-- What the messages of the settings page act on.
pub record App (F : Type 0) : Type 0 where
  pub controller : AppController F
  pub settings : MqttSettings

-- What the outside gives while a message is handled: the environment, the system and ffmpeg, a
-- fresh identifier, whether the file can be written, and whether the client of MQTT stops.
pub record Outside (F : Type 0) : Type 0 where
  pub env : Env F
  pub windows : Bool
  pub ffmpeg_path : String
  pub launch : List String → Launch
  pub fresh_id : String
  pub saved : Bool
  pub stops : Bool

-- A message that is an object; its payload as the keys of a source and as those of MQTT.
pub record Request (F I : Type 0) : Type 0 where
  pub type : Option String
  pub id : I
  pub name : Option String
  pub source : RawSource F
  pub mqtt : RawMqtt

pub data Data (F : Type 0) : Type 0 where
  a_source : SourceConfig F → Data F
  a_name : String → Data F
  a_test : TestResult → Data F
  an_mqtt : RedactedMqtt → Data F

pub data Answer (F : Type 0) : Type 0 where
  success : Data F → Answer F
  config_error : ConfigError → Answer F
  unknown_type internal_error : Answer F

pub data Action : Type 0 where
  sources_add sources_update sources_delete sources_test mqtt_get mqtt_update unknown : Action

-- Which branch the type of a message takes.
unfoldable pub action_of : Option String → Action
action_of none = unknown
action_of (some type) =
    if str_eq type "sources.add"
    then sources_add
    else if str_eq type "sources.update"
    then sources_update
    else if str_eq type "sources.delete"
    then sources_delete
    else if str_eq type "sources.test"
    then sources_test
    else if str_eq type "mqtt.get"
    then mqtt_get
    else if str_eq type "mqtt.update"
    then mqtt_update
    else unknown

-- Everything that handling a message asks of the files, the workers and MQTT.
pub data Asked (F : Type 0) : Type 0 where
  of_controller : Effect F → Asked F
  of_mqtt : Call F → Asked F

abbrev pub answer_of : {A F : Type 0} → (A → Data F) → Reply A → Answer F
answer_of data_of (done a) = success (data_of a)
answer_of data_of (refused e) = config_error e
answer_of data_of broken = internal_error

module _ {F : Type 0} where
  unfoldable pub of_sources :
      {A : Type 0}
      → App F
      → (A → Data F)
      → AppController F × Reply A × List (Effect F)
      → App F × Answer F × List (Asked F)
  of_sources app data_of (controller, reply, effects) =
      (record app { controller = controller }, answer_of data_of reply, map of_controller effects)

  unfoldable pub of_settings :
      App F → MqttSettings × Reply MqttConfig × List (Call F) → App F × Answer F × List (Asked F)
  of_settings app (settings, reply, calls) = (
    record app { settings = settings },
    answer_of (λ c. an_mqtt (redact_mqtt c)) reply,
    map of_mqtt calls,
  )

module _ {F : Type 0} ⦃fl : Float F⦄ where
  -- No source is named None.
  unfoldable pub update_named :
      App F → Outside F → Option String → RawSource F → App F × Answer F × List (Asked F)
  unfolding of_sources
  update_named app o none raw = (app, config_error source_not_found, [])
  update_named app o (some name) raw =
      of_sources app a_source (update_source app.controller name raw o.fresh_id o.saved)

  unfoldable pub delete_named : App F → Option String → App F × Answer F × List (Asked F)
  unfolding of_sources
  delete_named app none = (app, config_error source_not_found, [])
  delete_named app (some name) =
      of_sources app (λ deleted. a_name name) (delete_source app.controller name)

  unfoldable pub handle :
      {I : Type 0} → App F → Outside F → Request F I → Action → App F × Answer F × List (Asked F)
  unfolding update_named delete_named of_sources of_settings
  handle app o request sources_add =
      of_sources app a_source (add_source app.controller request.source o.fresh_id o.saved)
  handle app o request sources_update = update_named app o request.name request.source
  handle app o request sources_delete = delete_named app request.name
  handle app o request sources_test = (
    app,
    success (a_test (test_source o.windows o.ffmpeg_path o.launch request.source o.fresh_id)),
    [],
  )
  handle app o request mqtt_get = (app, success (an_mqtt (redact_mqtt app.settings.mqtt)), [])
  handle app o request mqtt_update =
      of_settings app
        (update_mqtt o.env app.settings app.controller.sources request.mqtt o.saved o.stops)
  handle app o request unknown = (app, unknown_type, [])

-- What comes in: a text that is no JSON, a value that is no object, or a request.
pub data Frame (F I : Type 0) : Type 0 where
  not_json not_object : Frame F I
  object : Request F I → Frame F I

-- What is sent back, unless the exception of `msg.get` ends the connection.
pub data Response (F I : Type 0) : Type 0 where
  invalid_json closed : Response F I
  reply : Option String → I → Answer F → Response F I

module _ {F I : Type 0} ⦃fl : Float F⦄ where
  unfoldable pub dispatch : App F → Outside F → Frame F I → App F × Response F I × List (Asked F)
  unfolding handle action_of
  dispatch app o not_json = (app, invalid_json, [])
  dispatch app o not_object = (app, closed, [])
  dispatch app o (object request) =
      let (app', answer, asked) = handle app o request (action_of request.type) in
      (app', reply request.type request.id answer, asked)
