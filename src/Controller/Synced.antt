-- ===== src/Controller/Synced.antt =====
-- The sources of controller.py and their workers stay in step.
use bark_detector.Prelude.{
  ◌≡◌, refl, ap, ◌∙◌, sym, String, Bool, true, false, not, ◌&&◌, Option, none, some, lookup, remove,
  lookup-insert, lookup-remove, str_eq, eq_iff, arith, if◌then◌else◌, ◌⊎◌, Bool-cases, Option-cases,
  inl, inr,
}
use bark_detector.Float.{Float}
use bark_detector.Config.{SourceConfig}
use bark_detector.Config.Source.{RawSource, ConfigError, Result, ok, error, build_source_config}
use bark_detector.Config.Valid.{build_source_config-IsValid}
use bark_detector.Controller.{
  AppController, find_source, is_taken, can_start, start_worker, stop_worker, add_source,
  update_source, delete_source, update_found, delete_found, no_defaults, add_built, update_built,
  update_checked, update_found,
}
use bark_detector.Controller.Names.{
  HaveDistinctNames, distinct-append, distinct-without, distinct-replace, find_source-append,
  find_source-without, find_source-replace, find_source-untaken, is_taken-found,
}

module _ {F : Type 0} ⦃fl : Float F⦄ where
  -- The worker that a source has: none where the constructor of its worker raises.
  abbrev pub worker_of : Option (SourceConfig F) → Option (SourceConfig F)
  worker_of none = none
  worker_of (some source) = if can_start source then some source else none

  -- No two sources share a name, and under each name runs a worker with the settings of the
  -- source of that name; there is none where there is no such source, or one whose worker's
  -- constructor raises.
  pub record IsSynced (c : AppController F) : Type 0 where
    pub distinct : HaveDistinctNames c.sources
    pub running : (name : String) → lookup name c.workers ≡ worker_of (find_source name c.sources)

  worker_of-gone :
      (b : Bool) (o : Option (SourceConfig F))
      → worker_of (if b then none else o) ≡ (if b then none else worker_of o)
  worker_of-gone true o = refl
  worker_of-gone false o = refl

  worker_of-begun :
      (b : Bool) (s : SourceConfig F) (o : Option (SourceConfig F))
      → can_start s ≡ true
      → worker_of (if b then some s else o) ≡ (if b then some s else worker_of o)
  worker_of-begun true s o e = rw e refl
  worker_of-begun false s o e = refl

  worker_of-failed :
      (b : Bool) (s : SourceConfig F) (o : Option (SourceConfig F))
      → can_start s ≡ false
      → worker_of (if b then some s else o) ≡ (if b then none else worker_of o)
  worker_of-failed true s o e = rw e refl
  worker_of-failed false s o e = refl

  -- Of a name that no source has there is no worker.
  unfound :
      (b : Bool) (x : Option (SourceConfig F)) → (b ≡ true → x ≡ none) → x ≡ (if b then none else x)
  unfound true x h = h refl
  unfound false x h = refl

  -- A deletion keeps the sources and the workers in step, also where no source has the name.
  pub delete_source-IsSynced :
      (c : AppController F) (name : String) → IsSynced c → IsSynced (delete_source c name).0
  unfolding delete_source delete_found stop_worker
  delete_source-IsSynced c name v = elim (Option-cases (find_source name c.sources)) [
    | inl e ↦ rw e v
    | inr (old, e) ↦ rw e (record {
      distinct = distinct-without name c.sources v.distinct;
      running = λ k.
          lookup-remove name k c.workers
          ∙ rw (v.running k) (
              sym (worker_of-gone (str_eq name k) (find_source k c.sources))
              ∙ ap worker_of (sym (find_source-without k name c.sources)));
    })
  ]

pub Result-cases :
    {A : Type 0} (r : Result A) → ((e : ConfigError) × (r ≡ error e)) ⊎ ((a : A) × (r ≡ ok a))
Result-cases (error e) = inl (e, refl)
Result-cases (ok a) = inr (a, refl)

module _ {F : Type 0} ⦃fl : Float F⦄ where
  untaken :
      (c : AppController F) (s : SourceConfig F) (k : String)
      → is_taken (some s.name) c.sources ≡ false
      → str_eq s.name k ≡ true
      → worker_of (find_source k c.sources) ≡ none
  untaken c s k free e =
      rw ((eq_iff s.name k).0 e) at (ap worker_of (find_source-untaken s.name c.sources free))

  -- A name that an update gives is free, or it is the one that the source had.
  new_free :
      (c : AppController F) (name : String) (new : SourceConfig F) (k : String)
      → (not (str_eq new.name name) && is_taken (some new.name) c.sources) ≡ false
      → str_eq new.name k ≡ true
      → str_eq name k ≡ false
      → worker_of (find_source k c.sources) ≡ none
  new_free c name new k free e apart =
      untaken c new k (ground (arith, eq_iff new.name name, eq_iff new.name k, eq_iff name k)) e

  replaced_begun :
      (name k : String) (new : SourceConfig F) (o : Option (SourceConfig F))
      → can_start new ≡ true
      → (if str_eq new.name k then some new else if str_eq name k then none else worker_of o)
        ≡ worker_of (if str_eq new.name k then some new else if str_eq name k then none else o)
  replaced_begun name k new o begun = elim (Bool-cases (str_eq new.name k)) [
    | inl e ↦ rw (e, begun) refl
    | inr e ↦ rw e (sym (worker_of-gone (str_eq name k) o))
  ]

  replaced_failed :
      (name k : String) (new : SourceConfig F) (o : Option (SourceConfig F))
      → can_start new ≡ false
      → (str_eq new.name k ≡ true → str_eq name k ≡ false → worker_of o ≡ none)
      → (if str_eq name k then none else worker_of o)
        ≡ worker_of (if str_eq new.name k then some new else if str_eq name k then none else o)
  replaced_failed name k new o failed h = elim (Bool-cases (str_eq new.name k)) [
    | inl e ↦
        rw (e, failed)
          (elim (Bool-cases (str_eq name k)) [ inl n ↦ rw n refl | inr n ↦ rw n (h e n) ])
    | inr e ↦ rw e (sym (worker_of-gone (str_eq name k) o))
  ]

  add_built-IsSynced :
      (c : AppController F) (s : SourceConfig F)
      → IsSynced c
      → is_taken (some s.name) c.sources ≡ false
      → IsSynced (add_built c s true).0
  unfolding add_built start_worker
  add_built-IsSynced c s v free = elim (Bool-cases (can_start s)) [
    | inl begun ↦ rw begun (record {
      distinct = distinct-append c.sources s v.distinct free;
      running = λ k.
          lookup-insert s.name k s c.workers
          ∙ rw (v.running k) (
              sym (worker_of-begun (str_eq s.name k) s (find_source k c.sources) begun)
              ∙ ap worker_of (sym (find_source-append k c.sources s free)));
    })
    | inr failed ↦ rw failed (record {
      distinct = distinct-append c.sources s v.distinct free;
      running = λ k.
          v.running k
          ∙ (unfound (str_eq s.name k) (worker_of (find_source k c.sources)) (untaken c s k free)
              ∙ (sym (worker_of-failed (str_eq s.name k) s (find_source k c.sources) failed)
                  ∙ ap worker_of (sym (find_source-append k c.sources s free))));
    })
  ]

  -- Where the new source's file can be written, an addition keeps the sources and the workers in
  -- step (`IsSynced`), refusals included.
  pub add_source-IsSynced :
      (c : AppController F) (raw : RawSource F) (fresh_id : String)
      → IsSynced c
      → IsSynced (add_source c raw fresh_id true).0
  unfolding add_source
  add_source-IsSynced c raw fresh_id v = elim (Bool-cases (is_taken raw.name c.sources)) [
    | inl taken ↦ rw taken v
    | inr free ↦ rw free (elim (Result-cases (build_source_config raw no_defaults fresh_id)) [
      | inl (e, refusal) ↦ rw refusal v
      | inr (s, built) ↦
          let named = (build_source_config-IsValid raw no_defaults fresh_id s built).1 in
          rw built (add_built-IsSynced c s v (rw named at free))
    ])
  ]

  update_built-IsSynced :
      (c : AppController F) (name : String) (old new : SourceConfig F)
      → IsSynced c
      → find_source name c.sources ≡ some old
      → IsSynced (update_built c name new true).0
  unfolding update_built start_worker stop_worker
  update_built-IsSynced c name old new v found =
      elim (Bool-cases (not (str_eq new.name name) && is_taken (some new.name) c.sources)) [
        | inl taken ↦ rw taken v
        | inr free ↦
            let after = λ (k : String).
              find_source-replace k name new c.sources v.distinct
                (is_taken-found name c.sources old found) free in
            let distinct = distinct-replace name new c.sources v.distinct free in
            elim (Bool-cases (can_start new)) [
              | inl begun ↦
                  rw (free, begun)
                    (record {
                      distinct = distinct;
                      running = λ k.
                          lookup-insert new.name k new (remove name c.workers)
                          ∙ rw (lookup-remove name k c.workers, v.running k)
                              (replaced_begun name k new (find_source k c.sources) begun
                                ∙ ap worker_of (sym (after k)));
                    })
              | inr failed ↦
                  rw (free, failed)
                    (record {
                      distinct = distinct;
                      running = λ k.
                          lookup-remove name k c.workers
                          ∙ rw (v.running k) (
                              replaced_failed name k new (find_source k c.sources) failed
                                (λ e apart. new_free c name new k free e apart)
                              ∙ ap worker_of (sym (after k)));
                    })
            ]
      ]

  update_checked-IsSynced :
      (c : AppController F) (name : String) (old : SourceConfig F) (r : Result (SourceConfig F))
      → IsSynced c
      → find_source name c.sources ≡ some old
      → IsSynced (update_checked c name true r).0
  unfolding update_checked
  update_checked-IsSynced c name old (error e) v found = v
  update_checked-IsSynced c name old (ok new) v found = update_built-IsSynced c name old new v found

  -- Where the new source's file can be written, an update keeps the sources and the workers in
  -- step, renames and refusals included.
  pub update_source-IsSynced :
      (c : AppController F) (name : String) (raw : RawSource F) (fresh_id : String)
      → IsSynced c
      → IsSynced (update_source c name raw fresh_id true).0
  unfolding update_source update_found
  update_source-IsSynced c name raw fresh_id v = elim (Option-cases (find_source name c.sources)) [
    | inl missing ↦ rw missing v
    | inr (old, found) ↦ rw found (update_checked-IsSynced c name old _ v found)
  ]
