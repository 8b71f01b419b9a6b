-- ===== src/Controller/OnDisk/Steps.antt =====
-- Each request of controller.py leaves the files in step with the sources.
use bark_detector.Prelude.{
  ◌≡◌, refl, ◌∙◌, ap, sym, String, Bool, true, false, not, ◌&&◌, Option, none, some, List, [], ◌∷◌,
  ◌++◌, str_eq, eq_iff, arith, lookup, if◌then◌else◌, ◌⊎◌, Bool-cases, Option-cases, inl, inr,
}
use bark_detector.Float.{Float}
use bark_detector.Config.{SourceConfig}
use bark_detector.Config.Source.{RawSource, Result, ok, error, build_source_config}
use bark_detector.Config.Valid.{build_source_config-IsValid}
use bark_detector.Config.Files.{Directory, dump_source, delete_source_file as delete_file}
use bark_detector.Config.Files.Kept.{content_of}
use bark_detector.Config.Files.Contents.{save_source-content_of, delete_source_file-content_of}
use bark_detector.Controller.{
  AppController, Effect, delete_source_file, start_thread, stop_and_join, publish_discovery,
  remove_discovery, find_source, without_source, replace_source, is_taken, can_start, start_worker,
  stop_worker, add_source, update_source, delete_source, update_found, delete_found, no_defaults,
  add_built, update_built, update_checked,
}
use bark_detector.Controller.Names.{
  HaveDistinctNames, find_source-append, find_source-without, find_source-replace, is_taken-found,
}
use bark_detector.Controller.Synced.{Result-cases}
use bark_detector.Controller.OnDisk.{dumped, perform_files, IsSaved, AreSavedAfter}

module _ {F : Type 0} where
  dumped_new :
      (b : Bool) (s : SourceConfig F) (o : Option (SourceConfig F)) (x : Option (RawSource F))
      → x ≡ dumped o
      → (if b then some (dump_source s) else x) ≡ dumped (if b then some s else o)
  dumped_new true s o x e = refl
  dumped_new false s o x e = e

  dumped_gone :
      (b : Bool) (o : Option (SourceConfig F)) (x : Option (RawSource F))
      → x ≡ dumped o
      → (if b then none else x) ≡ dumped (if b then none else o)
  dumped_gone true o x e = refl
  dumped_gone false o x e = e

  stop_worker_asks :
      (c : AppController F) (name : String)
      → ((stop_worker c name).1 ≡ [])
        ⊎ ((source : SourceConfig F) × ((stop_worker c name).1 ≡ stop_and_join source ∷ []))
  unfolding stop_worker
  stop_worker_asks c name = elim (Option-cases (lookup name c.workers)) [
    | inl e ↦ inl (rw (stop_worker, e))
    | inr (source, e) ↦ inr (source, (rw (stop_worker, e)))
  ]

  stop_quiet :
      (c : AppController F) (name : String) (dir : Directory F) (effects : List (Effect F))
      → perform_files (some dir) ((stop_worker c name).1 ++ effects)
        ≡ perform_files (some dir) effects
  unfolding perform_files
  stop_quiet c name dir effects = elim (stop_worker_asks c name) [
    | inl e ↦ ap (λ (asked : List (Effect F)). perform_files (some dir) (asked ++ effects)) e
    | inr (source, e) ↦
        ap (λ (asked : List (Effect F)). perform_files (some dir) (asked ++ effects)) e
  ]

  stop_only :
      (c : AppController F) (name : String) (dir : Directory F)
      → perform_files (some dir) (stop_worker c name).1 ≡ some dir
  unfolding perform_files
  stop_only c name dir = elim (stop_worker_asks c name) [
    | inl e ↦ ap (perform_files (some dir)) e
    | inr (source, e) ↦ ap (perform_files (some dir)) e
  ]

  pub delete_source-AreSavedAfter :
      (c : AppController F) (name : String) (dir : Directory F)
      → IsSaved c.sources dir
      → AreSavedAfter (delete_source c name).0.sources dir (delete_source c name).2
  unfolding delete_source delete_found perform_files
  delete_source-AreSavedAfter c name dir v = elim (Option-cases (find_source name c.sources)) [
    | inl e ↦ rw e (dir, refl, v)
    | inr (old, e) ↦
        let (kept, contents) = delete_source_file-content_of name dir v.kept in
        rw e (
          delete_file name dir,
          stop_quiet (record c { sources = without_source name c.sources }) name
              (delete_file name dir) (remove_discovery old.id ∷ []),
          record {
            kept = kept;
            contents = λ k.
                contents k
                ∙ (dumped_gone (str_eq name k) (find_source k c.sources) (content_of k dir)
                      (v.contents k)
                    ∙ ap dumped (sym (find_source-without k name c.sources)));
          },
        )
  ]

  -- The names that an update which renames a source, and one which does not, leaves with a file.
  dumped_renamed :
      (new : SourceConfig F) (name k : String) (o : Option (SourceConfig F))
      (x : Option (RawSource F))
      → x ≡ dumped o
      → str_eq new.name name ≡ false
      → (if str_eq name k then none else if str_eq new.name k then some (dump_source new) else x)
        ≡ dumped (if str_eq new.name k then some new else if str_eq name k then none else o)
  dumped_renamed new name k o x h apart = elim (Bool-cases (str_eq new.name k)) [
    | inl e ↦
        let other : str_eq name k ≡ false =
          ground (arith, eq_iff new.name k, eq_iff name k, eq_iff new.name name) in
        rw (e, other)
    | inr e ↦ rw e (dumped_gone (str_eq name k) o x h)
  ]

  dumped_same :
      (new : SourceConfig F) (name k : String) (o : Option (SourceConfig F))
      (x : Option (RawSource F))
      → x ≡ dumped o
      → str_eq new.name name ≡ true
      → (if str_eq new.name k then some (dump_source new) else x)
        ≡ dumped (if str_eq new.name k then some new else if str_eq name k then none else o)
  dumped_same new name k o x h same = elim (Bool-cases (str_eq new.name k)) [
    | inl e ↦ rw e
    | inr e ↦
        let other : str_eq name k ≡ false =
          ground (arith, eq_iff new.name k, eq_iff name k, eq_iff new.name name) in
        rw (e, other) h
  ]

module _ {F : Type 0} ⦃fl : Float F⦄ where
  add_built-AreSavedAfter :
      (c : AppController F) (s : SourceConfig F) (dir : Directory F)
      → IsSaved c.sources dir
      → is_taken (some s.name) c.sources ≡ false
      → AreSavedAfter (add_built c s true).0.sources dir (add_built c s true).2
  unfolding add_built start_worker perform_files
  add_built-AreSavedAfter c s dir v free =
      let (new, saved, kept, contents) = save_source-content_of s dir v.kept in
      let after : IsSaved (c.sources ++ s ∷ []) new = record {
        kept = kept;
        contents = λ k.
            contents k
            ∙ (dumped_new (str_eq s.name k) s (find_source k c.sources) (content_of k dir)
                  (v.contents k)
                ∙ ap dumped (sym (find_source-append k c.sources s free)));
      } in
      elim (Bool-cases (can_start s)) [
        | inl begun ↦ rw begun (
          new,
          ap
              (λ (d : Option (Directory F)).
                perform_files d (start_thread s ∷ publish_discovery s ∷ []))
              saved,
          after,
        )
        | inr failed ↦ rw failed (new, ap (λ (d : Option (Directory F)). d) saved, after)
      ]

  pub add_source-AreSavedAfter :
      (c : AppController F) (raw : RawSource F) (fresh_id : String) (dir : Directory F)
      → IsSaved c.sources dir
      → AreSavedAfter
          (add_source c raw fresh_id true).0.sources
          dir
          (add_source c raw fresh_id true).2
  unfolding add_source perform_files
  add_source-AreSavedAfter c raw fresh_id dir v = elim (Bool-cases (is_taken raw.name c.sources)) [
    | inl taken ↦ rw taken (dir, refl, v)
    | inr free ↦ rw free (elim (Result-cases (build_source_config raw no_defaults fresh_id)) [
      | inl (e, refusal) ↦ rw refusal (dir, refl, v)
      | inr (s, built) ↦
          let named = (build_source_config-IsValid raw no_defaults fresh_id s built).1 in
          rw built (add_built-AreSavedAfter c s dir v (rw named at free))
    ])
  ]

  update_built-AreSavedAfter :
      (c : AppController F) (name : String) (old new : SourceConfig F) (dir : Directory F)
      → HaveDistinctNames c.sources
      → IsSaved c.sources dir
      → find_source name c.sources ≡ some old
      → AreSavedAfter (update_built c name new true).0.sources dir (update_built c name new true).2
  unfolding update_built start_worker perform_files stop_worker
  update_built-AreSavedAfter c name old new dir distinct v found =
      elim (Bool-cases (not (str_eq new.name name) && is_taken (some new.name) c.sources)) [
        | inl taken ↦ rw taken (dir, refl, v)
        | inr free ↦
            let (first, saved, kept, contents) = save_source-content_of new dir v.kept in
            let replaced = record c { sources = replace_source name new c.sources } in
            let after = λ (k : String).
              find_source-replace k name new c.sources distinct
                (is_taken-found name c.sources old found) free in
            let tail = start_thread new ∷ publish_discovery new ∷ [] in
            let stopping = (stop_worker replaced name).1 in
            elim (Bool-cases (str_eq new.name name)) [
              | inl same ↦
                  let kept_same : IsSaved (replace_source name new c.sources) first = record {
                    kept = kept;
                    contents = λ k.
                        contents k
                        ∙ (dumped_same new name k (find_source k c.sources) (content_of k dir)
                              (v.contents k) same
                            ∙ ap dumped (sym (after k)));
                  } in
                  elim (Bool-cases (can_start new)) [
                    | inl begun ↦
                        rw (begun, same)
                          (
                            first,
                            ap (λ (d : Option (Directory F)). perform_files d (stopping ++ tail))
                                  saved
                                ∙ stop_quiet replaced name first tail,
                            kept_same,
                          )
                    | inr failed ↦
                        rw (failed, same)
                          (
                            first,
                            ap (λ (d : Option (Directory F)). perform_files d stopping) saved
                                ∙ stop_only replaced name first,
                            kept_same,
                          )
                  ]
              | inr apart ↦
                  let fresh : is_taken (some new.name) c.sources ≡ false = (rw apart at free) in
                  let (kept', contents') = delete_source_file-content_of name first kept in
                  let second = delete_file name first in
                  let gone = delete_source_file name in
                  let kept_apart : IsSaved (replace_source name new c.sources) second = record {
                    kept = kept';
                    contents = λ k.
                        contents' k
                        ∙ (ap (λ (x : Option (RawSource F)). if str_eq name k then none else x)
                              (contents k)
                            ∙ (dumped_renamed new name k (find_source k c.sources)
                                  (content_of k dir) (v.contents k) apart
                                ∙ ap dumped (sym (after k))));
                  } in
                  elim (Bool-cases (can_start new)) [
                    | inl begun ↦
                        rw (begun, apart, fresh)
                          (
                            second,
                            ap
                                  (λ (d : Option (Directory F)).
                                    perform_files d (gone ∷ stopping ++ tail))
                                  saved
                                ∙ stop_quiet replaced name second tail,
                            kept_apart,
                          )
                    | inr failed ↦
                        rw (failed, apart, fresh)
                          (
                            second,
                            ap (λ (d : Option (Directory F)). perform_files d (gone ∷ stopping))
                                  saved
                                ∙ stop_only replaced name second,
                            kept_apart,
                          )
                  ]
            ]
      ]

  update_checked-AreSavedAfter :
      (c : AppController F) (name : String) (old : SourceConfig F) (r : Result (SourceConfig F))
      (dir : Directory F)
      → HaveDistinctNames c.sources
      → IsSaved c.sources dir
      → find_source name c.sources ≡ some old
      → AreSavedAfter (update_checked c name true r).0.sources dir (update_checked c name true r).2
  unfolding update_checked perform_files
  update_checked-AreSavedAfter c name old (error e) dir distinct v found = (dir, refl, v)
  update_checked-AreSavedAfter c name old (ok new) dir distinct v found =
      update_built-AreSavedAfter c name old new dir distinct v found

  pub update_source-AreSavedAfter :
      (c : AppController F) (name : String) (raw : RawSource F) (fresh_id : String)
      (dir : Directory F)
      → HaveDistinctNames c.sources
      → IsSaved c.sources dir
      → AreSavedAfter
          (update_source c name raw fresh_id true).0.sources
          dir
          (update_source c name raw fresh_id true).2
  unfolding update_source update_found perform_files
  update_source-AreSavedAfter c name raw fresh_id dir distinct v =
      elim (Option-cases (find_source name c.sources)) [
        | inl missing ↦ rw missing (dir, refl, v)
        | inr (old, found) ↦
            rw found (update_checked-AreSavedAfter c name old _ dir distinct v found)
      ]
