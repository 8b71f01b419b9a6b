-- ===== src/Controller.antt =====
-- controller.py: the sources with their workers, and the watchdog of their status. Each method is a
-- function of the parts of the controller that it reads; the calls it makes on the files, the
-- workers, the publisher and the hub come out as a list in their order.
pub mod Names
pub mod Synced
pub mod Watchdog
pub mod MqttSettings
pub mod TestSource
pub mod Stopping
pub mod OnDisk
pub mod Refusals
mod Tests
use bark_detector.Prelude.{
  ℕ, String, Bool, true, false, not, ◌&&◌, ◌||◌, Option, none, some, List, [], ◌∷◌, ◌++◌, lookup,
  insert, remove, str_eq, if◌then◌else◌,
}
use bark_detector.Float.{Float}
use bark_detector.Config.{SourceConfig}
use bark_detector.Snippet.{SnippetRecorder, init as init_recorder}
use bark_detector.Config.Source.{
  RawSource, ConfigError, source_exists, source_not_found, Result, ok, error, build_source_config,
}

-- The worker of a source is known by the settings that it runs with.
pub record AppController (F : Type 0) : Type 0 where
  pub sources : List (SourceConfig F)
  pub workers : List (String × SourceConfig F)
  pub source_status : List (String × String)

pub data Effect (F : Type 0) : Type 0 where
  save_source : SourceConfig F → Effect F
  delete_source_file : String → Effect F
  start_thread : SourceConfig F → Effect F
  -- The worker's flag is set, its audio source is stopped, and it is waited for, 10 seconds at most:
  -- whether its thread has ended by then is logged and nothing else depends on it.
  stop_and_join : SourceConfig F → Effect F
  publish_discovery : SourceConfig F → Effect F
  remove_discovery : String → Effect F
  broadcast_status : String → String → Effect F
  publish_status : String → String → Effect F

-- How a request ends: with a value, refused, or with what `save_source` or the constructor of a
-- worker raised.
pub data Reply (A : Type 0) : Type 0 where
  done : A → Reply A
  refused : ConfigError → Reply A
  broken : Reply A

module _ {F : Type 0} where
  -- The first source with this name.
  unfoldable pub find_source : String → List (SourceConfig F) → Option (SourceConfig F)
  find_source name [] = none
  find_source name (source ∷ sources) =
      if str_eq source.name name then some source else find_source name sources

  unfoldable pub is_taken : Option String → List (SourceConfig F) → Bool
  is_taken name [] = false
  is_taken none (source ∷ sources) = is_taken none sources
  is_taken (some name) (source ∷ sources) = str_eq source.name name || is_taken (some name) sources

  -- `self.config.sources[index] = new_source`, at the first source with this name
  unfoldable pub replace_source :
      String → SourceConfig F → List (SourceConfig F) → List (SourceConfig F)
  replace_source name new [] = []
  replace_source name new (source ∷ sources) =
      if str_eq source.name name then new ∷ sources else source ∷ replace_source name new sources

  unfoldable pub without_source : String → List (SourceConfig F) → List (SourceConfig F)
  without_source name [] = []
  without_source name (source ∷ sources) =
      let rest = without_source name sources in
      if str_eq source.name name then rest else source ∷ rest

  unfoldable pub stop_worker : AppController F → String → AppController F × List (Effect F)
  stop_worker c name = (
    record c { workers = remove name c.workers; source_status = remove name c.source_status },
    elim (lookup name c.workers) [ none ↦ [] | some source ↦ stop_and_join source ∷ [] ],
  )

  unfoldable pub delete_found :
      AppController F
      → String
      → Option (SourceConfig F)
      → AppController F × Reply (Unit {0}) × List (Effect F)
  unfolding stop_worker
  delete_found c name none = (c, refused source_not_found, [])
  delete_found c name (some removed) =
      let kept = record c { sources = without_source name c.sources } in
      let (stopped, effects) = stop_worker kept name in
      (stopped, done tt, delete_source_file name ∷ effects ++ remove_discovery removed.id ∷ [])

  unfoldable pub delete_source :
      AppController F → String → AppController F × Reply (Unit {0}) × List (Effect F)
  unfolding delete_found
  delete_source c name = delete_found c name (find_source name c.sources)

abbrev pub no_defaults : {F : Type 0} → RawSource F
no_defaults = record {
  name = none;
  type = none;
  path = none;
  id = none;
  listen = none;
  thresholds = none;
  notify_thresholds = none;
  detection_thresholds = none;
  min_volume = none;
  pre_capture = none;
  post_capture = none;
  input_args = none;
}

module _ {F : Type 0} ⦃fl : Float F⦄ where
  -- The constructor of the worker makes its recorder, which raises where `math.ceil` does; where
  -- the snippets go has no part in that. The model of its detector is taken to load.
  unfoldable pub can_start : SourceConfig F → Bool
  can_start source = elim (init_recorder source.name "" source.pre_capture source.post_capture) [
    | none ↦ false
    | some recorder ↦ true
  ]

  -- `none` where the constructor raises
  unfoldable pub start_worker :
      AppController F → SourceConfig F → Option (AppController F × List (Effect F))
  unfolding can_start
  start_worker c source =
      if can_start source
      then some
          (record c { workers = insert source.name source c.workers }, start_thread source ∷ [])
      else none

  -- `start` of the sources; the flag says that no constructor raised.
  unfoldable pub start_workers :
      AppController F → List (SourceConfig F) → AppController F × Bool × List (Effect F)
  unfolding start_worker
  start_workers c [] = (c, true, [])
  start_workers c (source ∷ sources) = elim (start_worker c source) [
    | none ↦ (c, false, [])
    | some (c', effects) ↦
        let (c'', begun, more) = start_workers c' sources in (c'', begun, effects ++ more)
  ]

  -- What `add_source` does with a source that passed the checks; `saved` says whether its file
  -- could be written.
  unfoldable pub add_built :
      AppController F
      → SourceConfig F
      → Bool
      → AppController F × Reply (SourceConfig F) × List (Effect F)
  unfolding start_worker
  add_built c source saved =
      let added = record c { sources = c.sources ++ source ∷ [] } in
      if saved
      then elim (start_worker added source) [
        | none ↦ (added, broken, save_source source ∷ [])
        | some (started, effects) ↦
            (started, done source, save_source source ∷ effects ++ publish_discovery source ∷ [])
      ]
      else (added, broken, save_source source ∷ [])

  unfoldable pub add_source :
      AppController F
      → RawSource F
      → String
      → Bool
      → AppController F × Reply (SourceConfig F) × List (Effect F)
  unfolding add_built
  add_source c raw fresh_id saved =
      if is_taken raw.name c.sources
      then (c, refused source_exists, [])
      else elim (build_source_config raw no_defaults fresh_id) [
        | error e ↦ (c, refused e, [])
        | ok source ↦ add_built c source saved
      ]

  -- `{**raw, "name": raw.get("name", name), "id": ...}`
  unfoldable pub merged : RawSource F → String → String → RawSource F
  merged raw name id = record raw {
    name = some (elim raw.name [ none ↦ name | some given ↦ given ]);
    id = some id;
  }

  unfoldable pub update_built :
      AppController F
      → String
      → SourceConfig F
      → Bool
      → AppController F × Reply (SourceConfig F) × List (Effect F)
  unfolding start_worker stop_worker
  update_built c name new saved =
      let renamed = not (str_eq new.name name) in
      let replaced = record c { sources = replace_source name new c.sources } in
      let (stopped, stop_effects) = stop_worker replaced name in
      let saves =
        save_source new ∷ (if renamed then delete_source_file name ∷ [] else []) ++ stop_effects in
      if renamed && is_taken (some new.name) c.sources
      then (c, refused source_exists, [])
      else if saved
      then elim (start_worker stopped new) [
        | none ↦ (stopped, broken, saves)
        | some (started, start_effects) ↦
            (started, done new, saves ++ (start_effects ++ publish_discovery new ∷ []))
      ]
      else (replaced, broken, save_source new ∷ [])

  unfoldable pub update_checked :
      AppController F
      → String
      → Bool
      → Result (SourceConfig F)
      → AppController F × Reply (SourceConfig F) × List (Effect F)
  unfolding update_built
  update_checked c name saved (error e) = (c, refused e, [])
  update_checked c name saved (ok new) = update_built c name new saved

  unfoldable pub update_found :
      AppController F
      → String
      → RawSource F
      → String
      → Bool
      → Option (SourceConfig F)
      → AppController F × Reply (SourceConfig F) × List (Effect F)
  unfolding merged update_checked
  update_found c name raw fresh_id saved none = (c, refused source_not_found, [])
  update_found c name raw fresh_id saved (some old) =
      update_checked c name saved
        (build_source_config (merged raw name old.id) no_defaults fresh_id)

  unfoldable pub update_source :
      AppController F
      → String
      → RawSource F
      → String
      → Bool
      → AppController F × Reply (SourceConfig F) × List (Effect F)
  unfolding update_found
  update_source c name raw fresh_id saved =
      update_found c name raw fresh_id saved (find_source name c.sources)

  -- The status that `last_chunk_at` gives at the time `now`.
  unfoldable pub status_of : Option F → F → String
  status_of none now = "connecting"
  status_of (some last) now =
      if fl.lt (fl.sub now last) (fl.decimal 50 1) then "connected" else "disconnected"

-- `new_status == old_status`
abbrev pub is_current : Option String → String → Bool
is_current none new = false
is_current (some old) new = str_eq new old

module _ {F : Type 0} where
  -- One turn of the watchdog's inner loop.
  unfoldable pub poll_one :
      List (String × String) → String → String → List (String × String) × List (Effect F)
  poll_one statuses name new = if is_current (lookup name statuses) new then (statuses, []) else (
    insert name new statuses,
    broadcast_status name new
        ∷ (if str_eq new "connecting" then [] else publish_status name new ∷ []),
  )

module _ {F : Type 0} ⦃fl : Float F⦄ where
  -- One round over the names of the workers with the time of their last chunk, and the time at
  -- which each is looked at.
  unfoldable pub poll :
      List (String × String)
      → List (String × Option F × F)
      → List (String × String) × List (Effect F)
  unfolding poll_one
  poll statuses [] = (statuses, [])
  poll statuses ((name, last, now) ∷ workers) =
      let (statuses', effects) = poll_one statuses name (status_of last now) in
      let (statuses'', more) = poll statuses' workers in (statuses'', effects ++ more)
