-- ===== src/Controller/Stopping.antt =====
-- controller.py: `stop`, which tells the workers to stop and waits for them, 10 seconds at most each,
-- closes the store and stops the publisher, and what a change of MQTT's status sets off.
use bark_detector.Prelude.{
  ◌≡◌, refl, ◌∙◌, ap, String, Bool, none, some, List, [], ◌∷◌, ◌++◌, map, eq_refl, lookup, remove,
  if◌then◌else◌, arith,
}
use bark_detector.Config.{SourceConfig}
use bark_detector.Mqtt.{Message}
use bark_detector.Mqtt.Publisher.{
  MqttPublisher, Effect as ClientCall, publish_all_discovery, stop as stop_publisher,
}
use bark_detector.Controller.{AppController, Effect, stop_and_join, stop_worker}

-- What `stop` asks of the workers, the store and the client of MQTT.
pub data StopCall (F : Type 0) : Type 0 where
  set_background_stop : StopCall F
  of_workers : Effect F → StopCall F
  -- with 7 and 2 seconds at most
  join_status_thread join_cleanup_thread : StopCall F
  close_store : StopCall F
  of_client : ClientCall F → StopCall F

module _ {F : Type 0} where
  unfoldable pub names_of : List (String × SourceConfig F) → List String
  names_of [] = []
  names_of (entry ∷ workers) = entry.0 ∷ names_of workers

  -- The loop over the names of the workers.
  unfoldable pub stop_workers : AppController F → List String → AppController F × List (Effect F)
  unfolding stop_worker
  stop_workers c [] = (c, [])
  stop_workers c (name ∷ names) =
      let (stopped, effects) = stop_worker c name in
      let (rest, more) = stop_workers stopped names in (rest, effects ++ more)

  unfoldable pub stop :
      AppController F → MqttPublisher → AppController F × MqttPublisher × List (StopCall F)
  unfolding stop_workers names_of
  stop c p =
      let (c', effects) = stop_workers c (names_of c.workers) in
      let (p', calls) = stop_publisher p in
      (
        c',
        p',
        set_background_stop ∷ map of_workers effects
            ++ join_status_thread ∷ join_cleanup_thread ∷ close_store ∷ map of_client calls,
      )

  -- What is published by the thread of `_on_mqtt_status_change`, which also tells the browser tabs.
  unfoldable pub on_mqtt_status_change :
      MqttPublisher → List (SourceConfig F) → Bool → Bool × List (Message F)
  on_mqtt_status_change p sources connected =
      (connected, if connected then publish_all_discovery p sources else [])

  -- The keys of a dictionary.
  abbrev pub HaveDistinctKeys : List (String × SourceConfig F) → Type 0
  HaveDistinctKeys [] = Unit
  HaveDistinctKeys (entry ∷ workers) = (lookup entry.0 workers ≡ none) × HaveDistinctKeys workers

  abbrev pub stops : List (String × SourceConfig F) → List (Effect F)
  stops [] = []
  stops (entry ∷ workers) = stop_and_join entry.1 ∷ stops workers

  pub remove_missing :
      (name : String) (workers : List (String × SourceConfig F))
      → lookup name workers ≡ none
      → remove name workers ≡ workers
  unfolding lookup remove
  remove_missing name [] e = refl
  remove_missing name (entry ∷ workers) e = ground (arith, remove_missing name workers)

  lookup_first :
      (entry : String × SourceConfig F) (workers : List (String × SourceConfig F))
      → lookup entry.0 (entry ∷ workers) ≡ some entry.1
  unfolding lookup
  lookup_first entry workers = rw (eq_refl entry.0)

  remove_first :
      (entry : String × SourceConfig F) (workers : List (String × SourceConfig F))
      → lookup entry.0 workers ≡ none
      → remove entry.0 (entry ∷ workers) ≡ workers
  unfolding remove
  remove_first entry workers e = rw (eq_refl entry.0) (remove_missing entry.0 workers e)

  stop_worker_known :
      (c : AppController F) (name : String) (source : SourceConfig F)
      → lookup name c.workers ≡ some source
      → (stop_worker c name).1 ≡ stop_and_join source ∷ []
  unfolding stop_worker
  stop_worker_known c name source e = rw (stop_worker, e)

  stop_workers_all :
      (c : AppController F) (workers : List (String × SourceConfig F))
      → c.workers ≡ workers
      → HaveDistinctKeys workers
      → ((stop_workers c (names_of workers)).0.workers ≡ [])
        × ((stop_workers c (names_of workers)).1 ≡ stops workers)
        × ((stop_workers c (names_of workers)).0.sources ≡ c.sources)
  unfolding stop_workers names_of stop_worker
  stop_workers_all c [] e distinct = (e, refl, refl)
  stop_workers_all c (entry ∷ workers) e distinct =
      let stopped = (stop_worker c entry.0).0 in
      let found : lookup entry.0 c.workers ≡ some entry.1 =
        ap (lookup entry.0) e ∙ lookup_first entry workers in
      let left : remove entry.0 c.workers ≡ workers =
        ap (remove entry.0) e ∙ remove_first entry workers distinct.0 in
      let rest = stop_workers_all stopped workers left distinct.1 in
      (
        rest.0,
        ap (λ (effects : List (Effect F)). effects ++ (stop_workers stopped (names_of workers)).1)
              (stop_worker_known c entry.0 entry.1 found)
            ∙ ap (◌∷◌ (stop_and_join entry.1)) rest.1,
        rest.2,
      )

  -- Where the names of the workers are distinct, stopping the program sets the flag of the background
  -- loops, stops and joins each worker once, joins the loops, closes the store, then stops the
  -- publisher, and leaves no worker and all sources.
  pub stop_all :
      (c : AppController F) (p : MqttPublisher)
      → HaveDistinctKeys c.workers
      → ((stop c p).0.workers ≡ [])
        × ((stop c p).0.sources ≡ c.sources)
        × ((stop c p).2
            ≡ set_background_stop ∷ map of_workers (stops c.workers)
              ++ join_status_thread
                ∷ join_cleanup_thread
                ∷ close_store
                ∷ map of_client (stop_publisher {F = F} p).1)
  unfolding stop
  stop_all c p distinct =
      let (none_left, all_stopped, kept) = stop_workers_all c c.workers refl distinct in
      (
        none_left,
        kept,
        ap
            (λ (effects : List (Effect F)).
              set_background_stop ∷ map of_workers effects
              ++ join_status_thread
                ∷ join_cleanup_thread
                ∷ close_store
                ∷ map of_client (stop_publisher {F = F} p).1)
            all_stopped,
      )
