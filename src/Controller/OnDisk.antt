-- ===== src/Controller/OnDisk.antt =====
-- The calls of controller.py on the files of the sources, as config.py does them.
pub mod Steps
pub mod Requests
mod Tests
use bark_detector.Prelude.{
  ◌≡◌, refl, ◌∙◌, ap, sym, String, Bool, true, false, not, ◌&&◌, Option, none, some, List, [], ◌∷◌,
  ◌++◌, str_eq, eq_iff, arith, lookup, if◌then◌else◌, ◌⊎◌, Bool-cases, Option-cases, inl, inr,
}
use bark_detector.Float.{Float}
use bark_detector.Config.{SourceConfig}
use bark_detector.Config.Source.{RawSource, ConfigError, Result, ok, error, build_source_config}
use bark_detector.Config.Valid.{build_source_config-IsValid}
use bark_detector.Config.Files.{
  Directory, dump_source, save_source as save_file, delete_source_file as delete_file,
}
use bark_detector.Config.Files.Kept.{content_of, IsKept}
use bark_detector.Config.Files.Contents.{save_source-content_of, delete_source_file-content_of}
use bark_detector.Controller.{
  AppController, Effect, save_source, delete_source_file, start_thread, stop_and_join,
  publish_discovery, remove_discovery, broadcast_status, publish_status, find_source,
  without_source, replace_source, is_taken, start_worker, stop_worker, add_source, update_source,
  delete_source, update_found, delete_found, no_defaults, add_built, update_built, update_checked,
}
use bark_detector.Controller.Names.{
  HaveDistinctNames, find_source-append, find_source-without, find_source-replace, is_taken-found,
}
use bark_detector.Controller.Synced.{
  IsSynced, Result-cases, add_source-IsSynced, update_source-IsSynced, delete_source-IsSynced,
}

-- What a source's file holds, for a source that there may be.
abbrev pub dumped : {F : Type 0} → Option (SourceConfig F) → Option (RawSource F)
dumped none = none
dumped (some source) = some (dump_source source)

module _ {F : Type 0} where
  -- A call of the controller on the files; the others leave them.
  unfoldable pub perform_file : Directory F → Effect F → Option (Directory F)
  perform_file dir (save_source source) = save_file source dir
  perform_file dir (delete_source_file name) = some (delete_file name dir)
  perform_file dir (start_thread source) = some dir
  perform_file dir (stop_and_join source) = some dir
  perform_file dir (publish_discovery source) = some dir
  perform_file dir (remove_discovery id) = some dir
  perform_file dir (broadcast_status name status) = some dir
  perform_file dir (publish_status name status) = some dir

  unfoldable pub perform_files : Option (Directory F) → List (Effect F) → Option (Directory F)
  unfolding perform_file
  perform_files dir [] = dir
  perform_files none (effect ∷ effects) = none
  perform_files (some dir) (effect ∷ effects) = perform_files (perform_file dir effect) effects

  -- Under the name of each source and no other, the directory has a file that says what the source
  -- is, and no two files have one path or name one source.
  pub record IsSaved (sources : List (SourceConfig F)) (dir : Directory F) : Type 0 where
    pub kept : IsKept dir
    pub contents : (name : String) → content_of name dir ≡ dumped (find_source name sources)

  -- The calls succeed and leave the files in step with the sources.
  abbrev pub AreSavedAfter : List (SourceConfig F) → Directory F → List (Effect F) → Type 0
  AreSavedAfter sources dir effects =
      (new : Directory F) × (perform_files (some dir) effects ≡ some new) × IsSaved sources new

-- A request on the sources, with the identifier that it is offered.
pub data Change (F : Type 0) : Type 0 where
  adding : RawSource F → String → Change F
  updating : String → RawSource F → String → Change F
  deleting : String → Change F

module _ {F : Type 0} ⦃fl : Float F⦄ where
  unfoldable pub changed : AppController F → Change F → AppController F
  changed c (adding raw fresh_id) = (add_source c raw fresh_id true).0
  changed c (updating name raw fresh_id) = (update_source c name raw fresh_id true).0
  changed c (deleting name) = (delete_source c name).0

  unfoldable pub asked : AppController F → Change F → List (Effect F)
  asked c (adding raw fresh_id) = (add_source c raw fresh_id true).2
  asked c (updating name raw fresh_id) = (update_source c name raw fresh_id true).2
  asked c (deleting name) = (delete_source c name).2

  -- Requests one after the other, each with its calls on the files.
  unfoldable pub change_all :
      AppController F
      → Option (Directory F)
      → List (Change F)
      → AppController F × Option (Directory F)
  unfolding changed asked
  change_all c dir [] = (c, dir)
  change_all c dir (change ∷ changes) =
      change_all (changed c change) (perform_files dir (asked c change)) changes
