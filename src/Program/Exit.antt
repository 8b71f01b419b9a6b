-- ===== src/Program/Exit.antt =====
-- How a run of main.py ends.
use bark_detector.Prelude.{true, List, [], ◌∷◌, ◌++◌, map}
use bark_detector.Float.{Float}
use bark_detector.Config.{WebConfig}
use bark_detector.Mqtt.Publisher.{Effect as ClientCall}
use bark_detector.Mqtt.Publisher.{stop as stop_publisher}
use bark_detector.Controller.{Effect}
use bark_detector.Controller.Stopping.{
  set_background_stop, of_workers, join_status_thread, join_cleanup_thread, close_store, of_client,
  stop,
}
use bark_detector.Program.{
  Config, Outside, Call, of_worker, start_status_thread, start_cleanup_thread, start_web, wait,
  web_shutdown, web_server_close, of_stop, web_started, web_stopped,
}
use bark_detector.Program.{of_client as of_mqtt}

-- The libraries take the settings.
abbrev pub accepting : Outside
accepting = record { opens = true; dials = true; listens = true }

module _ {F : Type 0} where
  -- The calls on the workers.
  abbrev pub effects_of : List (Call F) → List (Effect F)
  effects_of [] = []
  effects_of (of_worker e ∷ calls) = e ∷ effects_of calls
  effects_of (of_stop (of_workers e) ∷ calls) = e ∷ effects_of calls
  effects_of (of_stop close_store ∷ calls) = effects_of calls
  effects_of (of_stop set_background_stop ∷ calls) = effects_of calls
  effects_of (of_stop join_status_thread ∷ calls) = effects_of calls
  effects_of (of_stop join_cleanup_thread ∷ calls) = effects_of calls
  effects_of (of_stop (of_client x) ∷ calls) = effects_of calls
  effects_of (of_mqtt x ∷ calls) = effects_of calls
  effects_of (start_status_thread ∷ calls) = effects_of calls
  effects_of (start_cleanup_thread ∷ calls) = effects_of calls
  effects_of (start_web host port ∷ calls) = effects_of calls
  effects_of (wait ∷ calls) = effects_of calls
  effects_of (web_shutdown ∷ calls) = effects_of calls
  effects_of (web_server_close ∷ calls) = effects_of calls

  -- The calls up to the end of the last worker.
  unfoldable pub until_stopped :
      List (ClientCall F)
      → WebConfig
      → List (Effect F)
      → List (Effect F)
      → List (Effect F)
      → List (Call F)
  until_stopped dials web starts changes ends =
      (((map of_mqtt dials ++ map of_worker starts)
          ++ start_status_thread ∷ start_cleanup_thread ∷ [])
        ++ web_started web)
      ++ (wait ∷ map of_worker changes
          ++ (web_stopped web ++ of_stop set_background_stop ∷ map of_stop (map of_workers ends)))

  -- The rest of the calls.
  unfoldable pub after_stopped : List (ClientCall F) → List (Call F)
  after_stopped ends =
      of_stop join_status_thread
      ∷ of_stop join_cleanup_thread
      ∷ of_stop close_store
      ∷ map of_stop (map of_client ends)
