-- ===== src/Program/Serving.antt =====
-- The workers that are started and not yet stopped and joined, over the requests of a run of main.py.
use bark_detector.Prelude.{
  ◌≡◌, refl, ap, ◌∙◌, String, Bool, true, false, not, ◌&&◌, some, List, [], ◌∷◌, ◌++◌, str_eq,
  insert, remove, if◌then◌else◌, Bool-cases, Option-cases, inl, inr,
}
use bark_detector.Float.{Float}
use bark_detector.Config.{SourceConfig}
use bark_detector.Config.Source.{RawSource, build_source_config}
use bark_detector.Controller.{
  AppController, Effect, delete_source_file, remove_discovery, find_source, is_taken, can_start,
  start_worker, stop_worker, add_built, add_source, update_built, update_checked, update_found,
  update_source, delete_found, delete_source, no_defaults, merged,
}
use bark_detector.Controller.Synced.{Result-cases}
use bark_detector.Controller.OnDisk.{Change, adding, updating, deleting}
use bark_detector.Program.{changed, asked, serve}
use bark_detector.Program.Threads.{
  thread, threads, threads-append, Unstopped, OwnNames, OwnNames-threads, stop_worker-threads,
}

module _ {F : Type 0} where
  -- The deletion of a file starts and stops no thread.
  file_first :
      (same : Bool) (name : String) (ws : Unstopped F) (effects : List (Effect F))
      → threads ws ((if not same then delete_source_file name ∷ [] else []) ++ effects)
        ≡ threads ws effects
  unfolding threads thread
  file_first true name ws effects = refl
  file_first false name ws effects = refl

  delete_source-threads :
      (c : AppController F) (name : String)
      → OwnNames c.workers
      → threads c.workers (delete_source c name).2 ≡ (delete_source c name).0.workers
  unfolding delete_source delete_found threads thread stop_worker
  delete_source-threads c name v = elim (Option-cases (find_source name c.sources)) [
    | inl e ↦ rw e refl
    | inr (old, e) ↦ rw e (
        threads-append c.workers (stop_worker c name).1 (remove_discovery old.id ∷ [])
        ∙ stop_worker-threads c name v)
  ]

module _ {F : Type 0} ⦃fl : Float F⦄ where
  add_built-threads :
      (c : AppController F) (s : SourceConfig F) (saved : Bool)
      → threads c.workers (add_built c s saved).2 ≡ (add_built c s saved).0.workers
  unfolding add_built start_worker threads thread
  add_built-threads c s true = elim (Bool-cases (can_start s)) [
    | inl begun ↦ rw begun refl
    | inr failed ↦ rw failed refl
  ]
  add_built-threads c s false = refl

  add_source-threads :
      (c : AppController F) (raw : RawSource F) (fresh_id : String) (saved : Bool)
      → threads c.workers (add_source c raw fresh_id saved).2
        ≡ (add_source c raw fresh_id saved).0.workers
  unfolding add_source threads
  add_source-threads c raw fresh_id saved = elim (Bool-cases (is_taken raw.name c.sources)) [
    | inl taken ↦ rw taken refl
    | inr free ↦ rw free (elim (Result-cases (build_source_config raw no_defaults fresh_id)) [
      | inl (e, refusal) ↦ rw refusal refl
      | inr (s, built) ↦ rw built (add_built-threads c s saved)
    ])
  ]

  update_built-threads :
      (c : AppController F) (name : String) (new : SourceConfig F) (saved : Bool)
      → OwnNames c.workers
      → threads c.workers (update_built c name new saved).2
        ≡ (update_built c name new saved).0.workers
  unfolding update_built start_worker threads thread stop_worker
  update_built-threads c name new saved own =
      let file : List (Effect F) =
        if not (str_eq new.name name) then delete_source_file name ∷ [] else [] in
      let stopping = (stop_worker c name).1 in
      let told : threads c.workers (file ++ stopping) ≡ remove name c.workers =
        file_first (str_eq new.name name) name c.workers stopping
        ∙ stop_worker-threads c name own in
      elim (Bool-cases (not (str_eq new.name name) && is_taken (some new.name) c.sources)) [
        | inl e ↦ rw e refl
        | inr e ↦ elim (Bool-cases saved) [
          | inl done ↦ elim (Bool-cases (can_start new)) [
            | inl begun ↦
                rw (e, done, begun)
                  (threads-append c.workers (file ++ stopping) _ ∙ ap (insert new.name new) told)
            | inr failed ↦ rw (e, done, failed) told
          ]
          | inr failed ↦ rw (e, failed) refl
        ]
      ]

  update_source-threads :
      (c : AppController F) (name : String) (raw : RawSource F) (fresh_id : String) (saved : Bool)
      → OwnNames c.workers
      → threads c.workers (update_source c name raw fresh_id saved).2
        ≡ (update_source c name raw fresh_id saved).0.workers
  unfolding update_source update_found update_checked threads
  update_source-threads c name raw fresh_id saved v =
      elim (Option-cases (find_source name c.sources)) [
        | inl e ↦ rw e refl
        | inr (old, e) ↦
            rw e
              (elim (Result-cases
                (build_source_config (merged raw name old.id) no_defaults fresh_id)) [
                  | inl (r, refusal) ↦ rw refusal refl
                  | inr (s, built) ↦ rw built (update_built-threads c name s saved v)
                ])
      ]

  changed-threads :
      (c : AppController F) (change : Change F × Bool)
      → OwnNames c.workers
      → threads c.workers (asked c change) ≡ (changed c change).workers
  unfolding asked changed
  changed-threads c (adding raw fresh_id, saved) own = add_source-threads c raw fresh_id saved
  changed-threads c (updating name raw fresh_id, saved) own =
      update_source-threads c name raw fresh_id saved own
  changed-threads c (deleting name, saved) own = delete_source-threads c name own

  -- Whatever is requested, the threads that run are the controller's workers.
  pub serve-threads :
      (c : AppController F) (changes : List (Change F × Bool))
      → OwnNames c.workers
      → (threads c.workers (serve c changes).1 ≡ (serve c changes).0.workers)
        × OwnNames (serve c changes).0.workers
  unfolding serve threads
  serve-threads c [] own = (refl, own)
  serve-threads c (change ∷ changes) own =
      let same = changed-threads c change own in
      let kept : OwnNames (changed c change).workers =
        rw same at (OwnNames-threads c.workers (asked c change) own) in
      let rest = serve-threads (changed c change) changes kept in
      (threads-append c.workers (asked c change) _ ∙ rw same (rest.0), rest.1)
