-- ===== src/Worker/Trace.antt =====
-- What the outside sees of a worker of worker.py over its whole life: the notices it publishes, the
-- events it stores and the events it publishes.
use bark_detector.Prelude.{
  ℕ, ◌+◌, ◌≡◌, refl, ap, sym, ◌∙◌, ◌⊎◌, inl, inr, String, Bool, true, false, Option, none, some,
  List, [], ◌∷◌, ◌++◌, contains, contains-cons, contains_cases, contains_self, arith, Bool-cases,
  Option-cases, if◌then◌else◌,
}
use mathlib.Core.Path.{subst}
use bark_detector.Float.{Float}
use bark_detector.AudioFormat.{Bytes}
use bark_detector.Snippet.{
  SnippetRecorder, DetectionTrigger, DetectionEvent, WavFile, Outcome, returned, raised, trigger,
  notify, add_chunk,
}
use bark_detector.Snippet.History.{
  History, note, keep, step, trigger_call, notify_call, chunk_call, Reach, here, next,
}
use bark_detector.Snippet.Notices.{Distinct, Subset, Flagged, fresh_notice, announced_once}
use bark_detector.Worker.{
  SourceWorker, Input, Attempt, publish_trigger, store_event, publish_event, Verdict, skip, below,
  near_miss, hit, verdict, log_near_miss, announce, announce_if, fire, act, scan, report, classify,
  process_chunk, round,
}

-- The newest first.
pub record Log (F : Type 0) : Type 0 where
  pub announced : List String
  pub stored : List (DetectionEvent F)
  pub published : List (DetectionEvent F)

module _ {F : Type 0} where
  abbrev pub log_one : Log F → Attempt F → Log F
  log_one log (publish_trigger t) = record log { announced = t.id ∷ log.announced }
  log_one log (store_event e) = record log { stored = e ∷ log.stored }
  log_one log (publish_event e) = record log { published = e ∷ log.published }

  abbrev pub log_all : Log F → List (Attempt F) → Log F
  log_all log [] = log
  log_all log (a ∷ attempts) = log_all (log_one log a) attempts

  log_all-append :
      (log : Log F) (xs ys : List (Attempt F))
      → log_all log (xs ++ ys) ≡ log_all (log_all log xs) ys
  log_all-append log [] ys = refl
  log_all-append log (x ∷ xs) ys = log_all-append (log_one log x) xs ys

  abbrev pub notified_of : List (DetectionEvent F) → List (DetectionEvent F)
  notified_of [] = []
  notified_of (e ∷ es) = if e.notified then e ∷ notified_of es else notified_of es

  abbrev events_of : List (DetectionEvent F × WavFile) → List (DetectionEvent F)
  events_of [] = []
  events_of ((e, w) ∷ es) = e ∷ events_of es

  abbrev pub empty_log : Log F
  empty_log = record { announced = []; stored = []; published = [] }

  -- An event was marked as notified exactly if its identifier was announced.
  abbrev pub AllFlagged : List String → List (DetectionEvent F) → Type 0
  AllFlagged ids [] = Unit
  AllFlagged ids (e ∷ es) = (contains ids e.id ≡ e.notified) × AllFlagged ids es

module _ {F : Type 0} ⦃fl : Float F⦄ where
  -- The log after any rounds whose fresh identifiers were not offered before.
  pub data Run (start : SourceWorker F) : SourceWorker F → Log F → List String → Type 0 where
    begin : Run start start empty_log []
    go :
        {w : SourceWorker F} {log : Log F} {ids : List String}
        → Run start w log ids
        → (input : Input F) (chunk : Bytes) → contains ids input.fresh_id ≡ false
        → Run start
            (round w input chunk).0
            (log_all log (round w input chunk).1)
            (input.fresh_id ∷ ids)

  module _ (start : SnippetRecorder F) where
    record Sim (r : SnippetRecorder F) (log : Log F) (ids : List String) : Type 0 where
      history : History F
      reach : Reach start history
      same : history.recorder ≡ r
      announced : log.announced ≡ history.notices
      stored : log.stored ≡ events_of history.saved
      published : log.published ≡ notified_of log.stored
      known : Subset history.used ids

    Subset-note :
        (t : Option (DetectionTrigger F)) (id : String) (used ids : List String)
        → (t ≡ none) ⊎ ((u : DetectionTrigger F) × (t ≡ some u) × (u.id ≡ id))
        → Subset used ids
        → Subset (note t used) (id ∷ ids)
    Subset-note none id used ids m s = λ k e. contains-cons k id ids (s k e)
    Subset-note (some t) id used ids (inl e) s = absurd (cc)
    Subset-note (some t) id used ids (inr (u, e, i)) s = λ k q.
        let same : t.id ≡ id = cc in
        elim (contains_cases k t.id used q) [
          | inl p ↦ rw (← p, same) (contains_self id ids)
          | inr old ↦ contains-cons k id ids (s k old)
        ]

    trigger_result :
        (r : SnippetRecorder F) (label : String) (score now : F) (id : String)
        → ((trigger r label score now id).1 ≡ none)
          ⊎ ((t : DetectionTrigger F) × ((trigger r label score now id).1 ≡ some t) × (t.id ≡ id))
    unfolding trigger
    trigger_result r label score now id = elim (Option-cases r.active) [
      | inl e ↦ inr (
        record { id = id; source = r.source_name; label = label; score = score; timestamp = now },
        ground arith,
        refl,
      )
      | inr (c, e) ↦ inl (ground arith)
    ]

    Sim-weaken :
        (r : SnippetRecorder F) (log : Log F) (ids : List String) (id : String)
        → Sim r log ids
        → Sim r log (id ∷ ids)
    Sim-weaken r log ids id s = record {
      history = s.history;
      reach = s.reach;
      same = s.same;
      announced = s.announced;
      stored = s.stored;
      published = s.published;
      known = λ k e. contains-cons k id ids (s.known k e);
    }

    Sim-trigger :
        (r : SnippetRecorder F) (log : Log F) (ids : List String) (label : String) (score now : F)
        (id : String)
        → contains ids id ≡ false
        → Sim r log ids
        → Sim (trigger r label score now id).0 log (id ∷ ids)
    unfolding step
    Sim-trigger r log ids label score now id f s = record {
      history = step s.history (trigger_call label score now id);
      reach =
          next s.reach (trigger_call label score now id)
            (fresh_notice id ids s.history.used s.known f);
      same = ap (λ q. (trigger q label score now id).0) s.same;
      announced = s.announced;
      stored = s.stored;
      published = s.published;
      known =
          Subset-note _ id s.history.used ids (trigger_result s.history.recorder label score now id)
            s.known;
    }

    log_announce :
        (log : Log F) (t : Option (DetectionTrigger F))
        → log_all log (announce t) ≡ record log { announced = note t log.announced }
    log_announce log none = refl
    log_announce log (some t) = refl

    Sim-notify :
        (r : SnippetRecorder F) (log : Log F) (ids : List String) (label : String) (score now : F)
        → Sim r log ids
        → Sim (notify r label score now).0 (log_all log (announce (notify r label score now).1)) ids
    unfolding step
    Sim-notify r log ids label score now s =
        rw (log_announce log (notify r label score now).1) (record {
          history = step s.history (notify_call label score now);
          reach = next s.reach (notify_call label score now) tt;
          same = ap (λ q. (notify q label score now).0) s.same;
          announced =
              rw s.announced
                (ap (λ q. note (notify q label score now).1 s.history.notices) (sym s.same));
          stored = s.stored;
          published = s.published;
          known = s.known;
        })

    log_report :
        (log : Log F) (saved : List (DetectionEvent F × WavFile))
        (o : Outcome (Option (DetectionEvent F × WavFile)))
        → log.stored ≡ events_of saved
        → log.published ≡ notified_of log.stored
        → ((log_all log (report o)).announced ≡ log.announced)
          × ((log_all log (report o)).stored ≡ events_of (keep o saved))
          × ((log_all log (report o)).published ≡ notified_of (log_all log (report o)).stored)
    unfolding report
    log_report log saved (returned none) s p = (refl, s, p)
    log_report log saved raised s p = (refl, s, p)
    log_report log saved (returned (some (e, w))) s p = (ground arith, ground arith, ground arith)

    Sim-chunk :
        (r : SnippetRecorder F) (log : Log F) (ids : List String) (x : Bytes) (writable : Bool)
        → Sim r log ids
        → Sim (add_chunk r x writable).0 (log_all log (report (add_chunk r x writable).1)) ids
    unfolding step
    Sim-chunk r log ids x writable s =
        let o = (add_chunk r x writable).1 in
        let logged = log_report log s.history.saved o s.stored s.published in
        record {
          history = step s.history (chunk_call x writable);
          reach = next s.reach (chunk_call x writable) tt;
          same = ap (λ q. (add_chunk q x writable).0) s.same;
          announced = logged.0 ∙ s.announced;
          stored =
              logged.1
              ∙ ap (λ q. events_of (keep (add_chunk q x writable).1 s.history.saved)) (sym s.same);
          published = logged.2;
          known = s.known;
        }

    Sim-announce_if :
        (loud : Bool) (r : SnippetRecorder F) (log : Log F) (ids : List String) (input : Input F)
        (label : String) (score : F)
        → Sim r log ids
        → Sim
            (announce_if loud r input label score).0
            (log_all log (announce_if loud r input label score).1)
            ids
    unfolding announce_if
    Sim-announce_if false r log ids input label score s = s
    Sim-announce_if true r log ids input label score s =
        Sim-notify r log ids label score input.notified_at s

    abbrev SimAfter : SourceWorker F × List (Attempt F) → Log F → List String → Type 0
    SimAfter result log ids = Sim result.0.recorder (log_all log result.1) ids

    act-Sim :
        (v : Verdict) (w : SourceWorker F) (log : Log F) (ids : List String) (input : Input F)
        (i : ℕ) (label : String) (score : F)
        (rest : SourceWorker F → SourceWorker F × List (Attempt F))
        → contains ids input.fresh_id ≡ false
        → Sim w.recorder log ids
        → ((w' : SourceWorker F)
            → w'.recorder ≡ w.recorder
            → SimAfter (rest w') log (input.fresh_id ∷ ids))
        → SimAfter (act v w input i label score rest) log (input.fresh_id ∷ ids)
    unfolding act fire log_near_miss
    act-Sim skip w log ids input i label score rest f s h = h w refl
    act-Sim below w log ids input i label score rest f s h = h w refl
    act-Sim near_miss w log ids input i label score rest f s h = h _ (ground arith)
    act-Sim hit w log ids input i label score rest f s h =
        Sim-announce_if _ _ log _ input label score
          (Sim-trigger w.recorder log ids label score input.triggered_at input.fresh_id f s)

    scan-Sim :
        (w : SourceWorker F) (log : Log F) (ids : List String) (input : Input F) (i : ℕ)
        (ds : List (String × F))
        → contains ids input.fresh_id ≡ false
        → Sim w.recorder log ids
        → SimAfter (scan w input i ds) log (input.fresh_id ∷ ids)
    unfolding scan
    scan-Sim w log ids input i [] f s = Sim-weaken w.recorder log ids input.fresh_id s
    scan-Sim w log ids input i ((label, score) ∷ ds) f s =
        act-Sim (verdict w label score) w log ids input i label score _ f s
          (λ w' e. scan-Sim w' log ids input (i + 1) ds f (rw e s))

    classify-Sim :
        (w : SourceWorker F) (log : Log F) (ids : List String) (input : Input F)
        → contains ids input.fresh_id ≡ false
        → Sim w.recorder log ids
        → SimAfter (classify w input) log (input.fresh_id ∷ ids)
    unfolding classify
    classify-Sim w log ids input f s = elim (Bool-cases (fl.le w.source.min_volume input.rms)) [
      | inl e ↦ rw e (scan-Sim w log ids input 0 _ f s)
      | inr e ↦ rw e (Sim-weaken w.recorder log ids input.fresh_id s)
    ]

    process-Sim :
        (w : SourceWorker F) (log : Log F) (ids : List String) (input : Input F) (chunk : Bytes)
        → contains ids input.fresh_id ≡ false
        → Sim w.recorder log ids
        → Sim
            (process_chunk w input chunk).0.recorder
            (log_all log (process_chunk w input chunk).1)
            (input.fresh_id ∷ ids)
    unfolding process_chunk
    process-Sim w log ids input chunk f s =
        rw log_all-append (Sim-chunk _ _ _ chunk input.writable (classify-Sim w log ids input f s))

  Run-Sim :
      {start w : SourceWorker F} {log : Log F} {ids : List String}
      → Run start w log ids
      → Sim start.recorder w.recorder log ids
  unfolding round
  Run-Sim {start} begin = record {
    history = record { recorder = start.recorder; heard = []; used = []; notices = []; saved = [] };
    reach = here;
    same = refl;
    announced = refl;
    stored = refl;
    published = refl;
    known = λ k e. e;
  }
  Run-Sim {start} (go {w} {log} {ids} r input chunk f) =
      process-Sim start.recorder (record w { last_chunk_at = some input.received_at }) log ids input
        chunk f (Run-Sim r)

  AllFlagged-of :
      (ids : List String) (saved : List (DetectionEvent F × WavFile))
      → Flagged ids saved
      → AllFlagged ids (events_of saved)
  AllFlagged-of ids [] f = tt
  AllFlagged-of ids ((e, w) ∷ es) f = (f.0, AllFlagged-of ids es f.1)

  -- Over any rounds of a worker that starts idle, whatever the classifier reports and whichever
  -- writes fail, if the identifiers offered are new: no capture is announced twice, the events
  -- published are exactly the stored ones that are marked as notified, in the same order, and an
  -- event is so marked exactly if a notice with its identifier was published.
  pub published_events :
      {start w : SourceWorker F} {log : Log F} {ids : List String}
      → start.recorder.active ≡ none
      → Run start w log ids
      → Distinct log.announced
        × (log.published ≡ notified_of log.stored)
        × AllFlagged log.announced log.stored
  published_events {log} idle run =
      let s = Run-Sim run in
      let (once, known, flags) = announced_once idle s.reach in
      (
        subst Distinct (sym s.announced) once,
        s.published,
        subst (λ ids. AllFlagged ids log.stored) (sym s.announced)
            (subst (AllFlagged s.history.notices) (sym s.stored) (AllFlagged-of _ _ flags)),
      )
