-- ===== src/Program.antt =====
-- main.py, with `start` of controller.py: the program from loading its settings to its exit. What
-- `load_config` gives, what the libraries refuse, and the requests that are served until a signal
-- comes are arguments.
pub mod Threads
pub mod Serving
pub mod Exit
mod Tests
use bark_detector.Prelude.{
  ℕ, String, Bool, true, false, not, ◌&&◌, Option, none, some, List, [], ◌∷◌, ◌++◌, map,
  if◌then◌else◌,
}
use bark_detector.Prelude.Int.{ℤ}
use bark_detector.Float.{Float}
use bark_detector.Config.{SourceConfig, WebConfig, MqttConfig}
use bark_detector.Mqtt.Publisher.{MqttPublisher, Effect as ClientCall, connect_async, connect, init}
use bark_detector.Controller.{
  AppController, Effect, start_workers, add_source, update_source, delete_source,
}
use bark_detector.Controller.Stopping.{StopCall, stop}
use bark_detector.Controller.OnDisk.{Change, adding, updating, deleting}

-- `CONFIG_PATH` and the arguments of the command
unfoldable pub config_path : Option String → List String → String
config_path none [] = "/config/config.yaml"
config_path (some path) [] = path
config_path env (path ∷ args) = path

-- The parts of the settings that `main` and the controller start with.
pub record Config (F : Type 0) : Type 0 where
  pub mqtt : MqttConfig
  pub web : WebConfig
  pub sources : List (SourceConfig F)

-- What `load_config` does: it gives settings, raises ConfigError or OSError, or anything else.
pub data Load (F : Type 0) : Type 0 where
  loaded : Config F → Load F
  refused : Load F
  crashed : Load F

pub data Call (F : Type 0) : Type 0 where
  of_client : ClientCall F → Call F
  of_worker : Effect F → Call F
  start_status_thread start_cleanup_thread : Call F
  start_web : String → ℤ → Call F
  wait : Call F
  web_shutdown web_server_close : Call F
  of_stop : StopCall F → Call F

-- What the libraries do with the settings: whether the constructor of the controller returns, for
-- which SQLite opens the store and paho makes a client, whether `connect_async` takes the host and
-- the port of the broker, and whether the web server can listen.
pub record Outside : Type 0 where
  pub opens : Bool
  pub dials : Bool
  pub listens : Bool

-- How `main` ends: with an exit code or an exception, after these calls.
pub data Ended (F : Type 0) : Type 0 where
  returns : ℕ → List (Call F) → Ended F
  raises : List (Call F) → Ended F

module _ {F : Type 0} where
  -- `AppController.__init__`
  abbrev pub init_controller : List (SourceConfig F) → AppController F
  init_controller sources = record { sources = sources; workers = []; source_status = [] }

  unfoldable pub web_started : WebConfig → List (Call F)
  web_started web = if web.enabled then start_web web.host web.port ∷ [] else []

  unfoldable pub web_stopped : WebConfig → List (Call F)
  web_stopped web = if web.enabled then web_shutdown ∷ web_server_close ∷ [] else []

  -- `MqttPublisher.connect`, with what it calls before `connect_async` raises
  unfoldable pub dial : Outside → MqttPublisher → List (ClientCall F)
  dial out p =
      if p.config.enabled && not out.dials
      then connect_async p.config.host p.config.port ∷ []
      else (connect {F = F} p).1

module _ {F : Type 0} ⦃fl : Float F⦄ where
  -- `AppController.start`; the flag says that it returned, without an exception of `connect_async`
  -- or of the constructor of a worker.
  unfoldable pub start :
      Outside → AppController F → MqttPublisher → AppController F × Bool × List (Call F)
  unfolding dial
  start out c p =
      let calls = map of_client (dial out p) in
      let (c', begun, effects) = start_workers c c.sources in
      let before = calls ++ map of_worker effects in
      if p.config.enabled && not out.dials
      then (c, false, calls)
      else if begun
      then (c', true, before ++ start_status_thread ∷ start_cleanup_thread ∷ [])
      else (c', false, before)

  -- A request on the sources; the flag says whether `save_source` can write.
  unfoldable pub changed : AppController F → Change F × Bool → AppController F
  changed c (adding raw fresh_id, saved) = (add_source c raw fresh_id saved).0
  changed c (updating name raw fresh_id, saved) = (update_source c name raw fresh_id saved).0
  changed c (deleting name, saved) = (delete_source c name).0

  unfoldable pub asked : AppController F → Change F × Bool → List (Effect F)
  asked c (adding raw fresh_id, saved) = (add_source c raw fresh_id saved).2
  asked c (updating name raw fresh_id, saved) = (update_source c name raw fresh_id saved).2
  asked c (deleting name, saved) = (delete_source c name).2

  -- The requests until the signal.
  unfoldable pub serve :
      AppController F → List (Change F × Bool) → AppController F × List (Effect F)
  unfolding changed asked
  serve c [] = (c, [])
  serve c (change ∷ changes) =
      let (c', effects) = serve (changed c change) changes in (c', asked c change ++ effects)

  -- `main` after `start` has returned
  unfoldable pub run_started :
      Config F → Outside → List (Change F × Bool) → AppController F → List (Call F) → Ended F
  unfolding web_started web_stopped serve
  run_started config out changes c starts =
      let (served, effects) = serve c changes in
      let (stopped, gone, stops) = stop served (connect {F = F} (init config.mqtt)).0 in
      let before = starts ++ web_started config.web in
      let whole =
        before ++ (wait ∷ map of_worker effects ++ (web_stopped config.web ++ map of_stop stops)) in
      if config.web.enabled && not out.listens then raises before else returns 0 whole

  -- `main` after the settings are there
  unfoldable pub run : Config F → Outside → List (Change F × Bool) → Ended F
  unfolding start run_started
  run config out changes =
      let (c, begun, starts) = start out (init_controller config.sources) (init config.mqtt) in
      if out.opens
      then (if begun then run_started config out changes c starts else raises starts)
      else raises []

  unfoldable pub main : Load F → Outside → List (Change F × Bool) → Ended F
  unfolding run
  main (loaded config) out changes = run config out changes
  main refused out changes = returns 1 []
  main crashed out changes = raises []
