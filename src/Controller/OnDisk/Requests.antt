-- ===== src/Controller/OnDisk/Requests.antt =====
-- Sources, workers and files stay in step over any requests of controller.py.
use bark_detector.Prelude.{◌≡◌, refl, ◌∙◌, ap, Option, some, List, [], ◌∷◌}
use bark_detector.Float.{Float}
use bark_detector.Config.Files.{Directory}
use bark_detector.Controller.{AppController}
use bark_detector.Controller.Synced.{
  IsSynced, add_source-IsSynced, update_source-IsSynced, delete_source-IsSynced,
}
use bark_detector.Controller.OnDisk.{
  perform_files, IsSaved, AreSavedAfter, Change, adding, updating, deleting, changed, asked,
  change_all,
}
use bark_detector.Controller.OnDisk.Steps.{
  add_source-AreSavedAfter, update_source-AreSavedAfter, delete_source-AreSavedAfter,
}

module _ {F : Type 0} ⦃fl : Float F⦄ where
  pub changed-IsSynced :
      (c : AppController F) (change : Change F) → IsSynced c → IsSynced (changed c change)
  unfolding changed
  changed-IsSynced c (adding raw fresh_id) v = add_source-IsSynced c raw fresh_id v
  changed-IsSynced c (updating name raw fresh_id) v = update_source-IsSynced c name raw fresh_id v
  changed-IsSynced c (deleting name) v = delete_source-IsSynced c name v

  asked-AreSavedAfter :
      (c : AppController F) (change : Change F) (dir : Directory F)
      → IsSynced c
      → IsSaved c.sources dir
      → AreSavedAfter (changed c change).sources dir (asked c change)
  unfolding changed asked
  asked-AreSavedAfter c (adding raw fresh_id) dir v w =
      add_source-AreSavedAfter c raw fresh_id dir w
  asked-AreSavedAfter c (updating name raw fresh_id) dir v w =
      update_source-AreSavedAfter c name raw fresh_id dir v.distinct w
  asked-AreSavedAfter c (deleting name) dir v w = delete_source-AreSavedAfter c name dir w

  change_all_from :
      (c : AppController F) (d : Option (Directory F)) (dir : Directory F)
      (changes : List (Change F))
      → d ≡ some dir
      → IsSynced c
      → IsSaved c.sources dir
      → (new : Directory F) × ((change_all c d changes).1 ≡ some new)
        × IsSynced (change_all c d changes).0
        × IsSaved (change_all c d changes).0.sources new
  unfolding change_all
  change_all_from c d dir [] e v w = (dir, e, v, w)
  change_all_from c d dir (change ∷ changes) e v w =
      let (next, performed, saved) = asked-AreSavedAfter c change dir v w in
      change_all_from (changed c change) (perform_files d (asked c change)) next changes
        (ap (λ (x : Option (Directory F)). perform_files x (asked c change)) e ∙ performed)
        (changed-IsSynced c change v) saved

  -- Where every write succeeds and the model loads, after any requests to add, update, rename and delete sources, refused
  -- ones included, the sources, their workers and their files are in step, if they were before: under
  -- the name of each source and no other there is a file that says what it is, and a worker with its
  -- settings, but for a source whose worker's constructor raises (`can_start`), which has none.
  pub change_all-IsSaved :
      (c : AppController F) (dir : Directory F) (changes : List (Change F))
      → IsSynced c
      → IsSaved c.sources dir
      → (new : Directory F) × ((change_all c (some dir) changes).1 ≡ some new)
        × IsSynced (change_all c (some dir) changes).0
        × IsSaved (change_all c (some dir) changes).0.sources new
  change_all-IsSaved c dir changes v w = change_all_from c (some dir) dir changes refl v w
