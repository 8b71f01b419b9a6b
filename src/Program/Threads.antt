-- ===== src/Program/Threads.antt =====
-- The workers that are started and not yet stopped and joined, over a whole run of main.py.
use bark_detector.Prelude.{
  ◌≡◌, refl, sym, ap, ◌∙◌, String, true, false, none, some, List, [], ◌∷◌, ◌++◌, str_eq, eq_iff,
  eq_refl, contains, lookup, insert, remove, lookup-insert, lookup-remove, arith, if◌then◌else◌,
  Bool-cases, Option-cases, inl, inr,
}
use bark_detector.Float.{Float}
use bark_detector.Config.{SourceConfig}
use bark_detector.Controller.{
  AppController, Effect, save_source, delete_source_file, start_thread, stop_and_join,
  publish_discovery, remove_discovery, broadcast_status, publish_status, can_start, start_worker,
  stop_worker, start_workers,
}
use bark_detector.Controller.Stopping.{stop_workers, names_of, remove_missing}

-- No constructor of a worker raises.
abbrev pub AllCanStart : {F : Type 0} ⦃fl : Float F⦄ → List (SourceConfig F) → Type 0
AllCanStart [] = Unit
AllCanStart (source ∷ sources) = (can_start source ≡ true) × AllCanStart sources

abbrev pub Unstopped : Type 0 → Type 0
Unstopped F = List (String × SourceConfig F)

module _ {F : Type 0} where
  -- The workers that were started and not yet told to stop and joined, after a call, by the names of
  -- their sources.
  unfoldable pub thread : Unstopped F → Effect F → Unstopped F
  thread ws (start_thread s) = insert s.name s ws
  thread ws (stop_and_join s) = remove s.name ws
  thread ws (save_source s) = ws
  thread ws (delete_source_file name) = ws
  thread ws (publish_discovery s) = ws
  thread ws (remove_discovery id) = ws
  thread ws (broadcast_status name status) = ws
  thread ws (publish_status name status) = ws

  unfoldable pub threads : Unstopped F → List (Effect F) → Unstopped F
  unfolding thread
  threads ws [] = ws
  threads ws (effect ∷ effects) = threads (thread ws effect) effects

  pub threads-append :
      (ws : Unstopped F) (xs ys : List (Effect F))
      → threads ws (xs ++ ys) ≡ threads (threads ws xs) ys
  unfolding threads
  threads-append ws [] ys = refl
  threads-append ws (x ∷ xs) ys = threads-append (thread ws x) xs ys

  -- Each worker is under the name of its source.
  abbrev pub OwnNames : Unstopped F → Type 0
  OwnNames ws = (k : String) (s : SourceConfig F) → lookup k ws ≡ some s → s.name ≡ k

  pub stop_worker-threads :
      (c : AppController F) (name : String)
      → OwnNames c.workers
      → threads c.workers (stop_worker c name).1 ≡ (stop_worker c name).0.workers
  unfolding threads thread stop_worker
  stop_worker-threads c name own = elim (Option-cases (lookup name c.workers)) [
    | inl e ↦ rw (threads, e) (sym (remove_missing name c.workers e))
    | inr (s, e) ↦ rw (threads, e) (ap (λ k. remove k c.workers) (own name s e))
  ]

  pub OwnNames-remove : (name : String) (ws : Unstopped F) → OwnNames ws → OwnNames (remove name ws)
  OwnNames-remove name ws own k s e = own k s (ground (arith, lookup-remove name k ws, e))

  pub stop_workers-threads :
      (c : AppController F) (names : List String)
      → OwnNames c.workers
      → threads c.workers (stop_workers c names).1 ≡ (stop_workers c names).0.workers
  unfolding stop_workers threads stop_worker
  stop_workers-threads c [] own = refl
  stop_workers-threads c (name ∷ names) own =
      threads-append c.workers (stop_worker c name).1 _
      ∙ rw (stop_worker-threads c name own)
          (stop_workers-threads (stop_worker c name).0 names (OwnNames-remove name c.workers own))

  -- A name that is stopped is gone.
  lookup-stop_workers :
      (c : AppController F) (names : List String) (k : String)
      → lookup k (stop_workers c names).0.workers
        ≡ (if contains names k then none else lookup k c.workers)
  unfolding stop_workers stop_worker contains
  lookup-stop_workers c [] k = refl
  lookup-stop_workers c (name ∷ names) k =
      ground
        (arith, lookup-stop_workers (stop_worker c name).0 names k, lookup-remove name k c.workers)

  lookup-unnamed :
      (ws : Unstopped F) (k : String) → contains (names_of ws) k ≡ false → lookup k ws ≡ none
  unfolding names_of contains lookup
  lookup-unnamed [] k h = refl
  lookup-unnamed (entry ∷ ws) k h = ground (arith, lookup-unnamed ws k)

  nothing_left : (ws : Unstopped F) → ((k : String) → lookup k ws ≡ none) → ws ≡ []
  unfolding lookup
  nothing_left [] h = refl
  nothing_left (entry ∷ ws) h = absurd (let e = h entry.0 in ground (arith, e, eq_refl entry.0))

  pub stop_workers-none :
      (c : AppController F) → (stop_workers c (names_of c.workers)).0.workers ≡ []
  stop_workers-none c = nothing_left _ λ k. lookup-stop_workers c (names_of c.workers) k ∙ gone k
    where
      gone :
          (k : String)
          → (if contains (names_of c.workers) k then none else lookup k c.workers) ≡ none
      gone k = elim (Bool-cases (contains (names_of c.workers) k)) [
        | inl e ↦ rw e refl
        | inr e ↦ rw e (lookup-unnamed c.workers k e)
      ]

  OwnNames-insert :
      (new : SourceConfig F) (ws : Unstopped F) → OwnNames ws → OwnNames (insert new.name new ws)
  OwnNames-insert new ws own k s e = elim (Bool-cases (str_eq new.name k)) [
    | inl h ↦
        let found : some new ≡ some s = sym (lookup-insert new.name k new ws ∙ rw h refl) ∙ e in
        let same : new ≡ s = cc in
        ap (λ (y : SourceConfig F). y.name) (sym same) ∙ (eq_iff new.name k).0 h
    | inr h ↦ own k s (sym (lookup-insert new.name k new ws ∙ rw h refl) ∙ e)
  ]

  -- Whatever is called, each thread runs under the name of its source.
  pub OwnNames-threads :
      (ws : Unstopped F) (effects : List (Effect F)) → OwnNames ws → OwnNames (threads ws effects)
  unfolding threads thread
  OwnNames-threads ws [] own = own
  OwnNames-threads ws (start_thread s ∷ effects) own =
      OwnNames-threads (insert s.name s ws) effects (OwnNames-insert s ws own)
  OwnNames-threads ws (stop_and_join s ∷ effects) own =
      OwnNames-threads (remove s.name ws) effects (OwnNames-remove s.name ws own)
  OwnNames-threads ws (save_source s ∷ effects) own = OwnNames-threads ws effects own
  OwnNames-threads ws (delete_source_file name ∷ effects) own = OwnNames-threads ws effects own
  OwnNames-threads ws (publish_discovery s ∷ effects) own = OwnNames-threads ws effects own
  OwnNames-threads ws (remove_discovery id ∷ effects) own = OwnNames-threads ws effects own
  OwnNames-threads ws (broadcast_status name status ∷ effects) own = OwnNames-threads ws effects own
  OwnNames-threads ws (publish_status name status ∷ effects) own = OwnNames-threads ws effects own

module _ {F : Type 0} ⦃fl : Float F⦄ where
  pub start_workers-threads :
      (c : AppController F) (sources : List (SourceConfig F))
      → threads c.workers (start_workers c sources).2 ≡ (start_workers c sources).0.workers
  unfolding threads thread start_workers start_worker
  start_workers-threads c [] = refl
  start_workers-threads c (s ∷ sources) = elim (Bool-cases (can_start s)) [
    | inl begun ↦
        rw (start_workers, begun)
          (start_workers-threads (record c { workers = insert s.name s c.workers }) sources)
    | inr failed ↦ rw (start_workers, failed) refl
  ]

  -- The workers of sources none of whose constructors raise are all started.
  pub start_workers-begun :
      (c : AppController F) (sources : List (SourceConfig F))
      → AllCanStart sources
      → (start_workers c sources).1 ≡ true
  unfolding start_workers start_worker
  start_workers-begun c [] h = refl
  start_workers-begun c (s ∷ sources) h =
      rw (start_workers, h.0)
        (start_workers-begun (record c { workers = insert s.name s c.workers }) sources h.1)

pub OwnNames-nil : (F : Type 0) → OwnNames {F = F} []
unfolding lookup
OwnNames-nil F k s e = cc
