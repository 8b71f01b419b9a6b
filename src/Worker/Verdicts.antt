-- ===== src/Worker/Verdicts.antt =====
-- What worker.py publishes when a chunk is classified: at most one notice, and only for a sound
-- that is listened to and loud enough.
use bark_detector.Prelude.{
  ℕ, ◌+◌, ◌≡◌, refl, ap, ◌∙◌, ◌⊎◌, inl, inr, String, Bool, true, false, not, ◌||◌, none, some, List,
  [], ◌∷◌, contains, eq_iff, arith, Bool-cases, Option-cases, str_eq,
}
use bark_detector.Float.{Float}
use bark_detector.Config.{SourceConfig, detection_threshold_for, notify_threshold_for}
use bark_detector.Snippet.{SnippetRecorder, DetectionTrigger, trigger, notify}
use bark_detector.Worker.{
  SourceWorker, Input, Attempt, publish_trigger, Verdict, skip, below, near_miss, hit, verdict,
  log_near_miss, announce, announce_if, fire, act, scan, classify, min_threshold,
}
use bark_detector.Worker.Prefilter.{log_near_miss-source}

module _ {F : Type 0} ⦃fl : Float F⦄ where
  -- The detection is in the list.
  pub data Reported (label : String) (score : F) : List (String × F) → Type 0 where
    here : {rest : List (String × F)} → Reported label score ((label, score) ∷ rest)
    there :
        {d : String × F} {rest : List (String × F)}
        → Reported label score rest
        → Reported label score (d ∷ rest)

  -- A detection of a sound that is listened to, at or above its detection threshold.
  pub record Counts (s : SourceConfig F) (label : String) (score : F) (ds : List (String × F))
      : Type 0 where
    pub reported : Reported label score ds
    pub listened : contains s.listen label ≡ true
    pub detected : fl.lt score (detection_threshold_for s label) ≡ false

  -- Either nothing is published, or one notice for a detection that counts, whose score reaches
  -- the notify threshold of its label, and which carries that label and score.
  pub data Publishes (s : SourceConfig F) (ds : List (String × F)) (attempts : List (Attempt F))
      : Type 0 where
    nothing : attempts ≡ [] → Publishes s ds attempts
    one :
        (t : DetectionTrigger F)
        → attempts ≡ publish_trigger t ∷ []
        → Counts s t.label t.score ds
        → fl.le (notify_threshold_for s t.label) t.score ≡ true
        → Publishes s ds attempts

  notify_result :
      (r : SnippetRecorder F) (label : String) (score now : F)
      → ((notify r label score now).1 ≡ none)
        ⊎ ((t : DetectionTrigger F) × ((notify r label score now).1 ≡ some t)
            × (t.label ≡ label)
            × (t.score ≡ score))
  unfolding notify
  notify_result r label score now = elim (Option-cases r.active) [
    | inl e ↦ inl (rw (e, notify))
    | inr (c, e) ↦ elim (Bool-cases (c.notified || not (str_eq c.label label))) [
      | inl silent ↦ inl (rw (e, notify, silent))
      | inr fresh ↦ inr (
        record {
          id = c.id;
          source = r.source_name;
          label = c.label;
          score = score;
          timestamp = now;
        },
        ground arith,
        ground (arith, eq_iff c.label label),
        refl,
      )
    ]
  ]

  announce_result :
      (loud : Bool) (r : SnippetRecorder F) (input : Input F) (label : String) (score : F)
      → ((announce_if loud r input label score).1 ≡ [])
        ⊎ ((t : DetectionTrigger F) × ((announce_if loud r input label score).1
              ≡ publish_trigger t ∷ [])
            × (loud ≡ true)
            × (t.label ≡ label)
            × (t.score ≡ score))
  unfolding announce_if
  announce_result false r input label score = inl refl
  announce_result true r input label score = elim (notify_result r label score input.notified_at) [
    | inl e ↦ inl (ap announce e)
    | inr (t, e, l, s) ↦ inr (t, ap announce e, refl, l, s)
  ]

  verdict_hit :
      (w : SourceWorker F) (label : String) (score : F)
      → verdict w label score ≡ hit
      → (contains w.source.listen label ≡ true)
        × (fl.lt score (detection_threshold_for w.source label) ≡ false)
  unfolding verdict
  verdict_hit w label score h = ground arith

  fire-Publishes :
      (s : SourceConfig F) (w : SourceWorker F) (input : Input F) (label : String) (score : F)
      (rest : List (String × F))
      → w.source ≡ s
      → verdict w label score ≡ hit
      → Publishes s ((label, score) ∷ rest) (fire w input label score).1
  unfolding fire
  fire-Publishes s w input label score rest e h =
      let r = (trigger w.recorder label score input.triggered_at input.fresh_id).0 in
      let loud = fl.le (notify_threshold_for w.source label) score in
      elim (announce_result loud r input label score) [
        | inl q ↦ nothing q
        | inr (t, q, noisy, l, sc) ↦
            one t q
              (rw (l, sc)
                (record {
                  reported = here;
                  listened = rw e at ((verdict_hit w label score h).0);
                  detected = rw e at ((verdict_hit w label score h).1);
                }))
              (rw (l, sc) (rw e at noisy))
      ]

  Publishes-there :
      (s : SourceConfig F) (d : String × F) (rest : List (String × F)) (attempts : List (Attempt F))
      → Publishes s rest attempts
      → Publishes s (d ∷ rest) attempts
  Publishes-there s d rest attempts (nothing e) = nothing e
  Publishes-there s d rest attempts (one t e c n) =
      one t e (record { reported = there c.reported; listened = c.listened; detected = c.detected })
        n

  act-Publishes :
      (v : Verdict) (s : SourceConfig F) (w : SourceWorker F) (input : Input F) (i : ℕ)
      (label : String) (score : F) (rest : List (String × F))
      (next : SourceWorker F → SourceWorker F × List (Attempt F))
      → w.source ≡ s
      → verdict w label score ≡ v
      → ((w' : SourceWorker F) → w'.source ≡ s → Publishes s rest (next w').1)
      → Publishes s ((label, score) ∷ rest) (act v w input i label score next).1
  unfolding act
  act-Publishes skip s w input i label score rest next e v h = Publishes-there s _ rest _ (h w e)
  act-Publishes below s w input i label score rest next e v h = Publishes-there s _ rest _ (h w e)
  act-Publishes near_miss s w input i label score rest next e v h =
      Publishes-there s _ rest _
        (h (log_near_miss w label (input.monotonic i)) (log_near_miss-source w label _ ∙ e))
  act-Publishes hit s w input i label score rest next e v h =
      fire-Publishes s w input label score rest e v

  scan-Publishes :
      (s : SourceConfig F) (w : SourceWorker F) (input : Input F) (i : ℕ) (ds : List (String × F))
      → w.source ≡ s
      → Publishes s ds (scan w input i ds).1
  unfolding scan
  scan-Publishes s w input i [] e = nothing refl
  scan-Publishes s w input i ((label, score) ∷ ds) e =
      act-Publishes (verdict w label score) s w input i label score ds _ e refl
        (λ w' e'. scan-Publishes s w' input (i + 1) ds e')

  -- A chunk leads to no notice or to one; a notice needs a chunk as loud as `min_volume`, and
  -- carries the label and the score of a detection that was reported above `min_threshold`, whose
  -- label is listened to and whose score reaches the detection and the notify threshold.
  pub classify-Publishes :
      (w : SourceWorker F) (input : Input F)
      → ((classify w input).1 ≡ [])
        ⊎ ((fl.le w.source.min_volume input.rms ≡ true)
            × Publishes w.source (input.detect (min_threshold w.source)) (classify w input).1)
  unfolding classify
  classify-Publishes w input = elim (Bool-cases (fl.le w.source.min_volume input.rms)) [
    | inl e ↦ inr (e, rw e (scan-Publishes w.source w input 0 _ refl))
    | inr e ↦ inl (rw e)
  ]
