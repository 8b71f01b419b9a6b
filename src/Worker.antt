-- ===== src/Worker.antt =====
-- worker.py: what one source's worker makes of each chunk of audio. The classifier, the volume of
-- the chunk, the clocks and the outcome of writing a file come in with the chunk; what the worker
-- asks of the publisher and the store comes out as a list of attempts, since it only logs their
-- failures.
pub mod Prefilter
pub mod Classifier
pub mod Verdicts
pub mod Trace
mod Tests
use bark_detector.Prelude.{
  ℕ, ◌+◌, String, Bool, true, false, not, Option, none, some, List, [], ◌∷◌, ◌++◌, contains, lookup,
  insert, str_eq, if◌then◌else◌,
}
use bark_detector.Float.{Float}
use bark_detector.AudioFormat.{Bytes}
use bark_detector.Config.{SourceConfig, detection_threshold_for, notify_threshold_for}
use bark_detector.Snippet.{
  SnippetRecorder, DetectionTrigger, DetectionEvent, WavFile, Outcome, returned, raised,
  active_label, trigger, notify, add_chunk,
}

pub record SourceWorker (F : Type 0) : Type 0 where
  pub source : SourceConfig F
  pub recorder : SnippetRecorder F
  pub last_chunk_at : Option F
  pub last_near_miss_log : List (String × F)

-- What the outside gives in one call: the volume, the classifier as a function of its threshold,
-- `time.time()` in the loop and in `trigger` and `notify`, `time.monotonic()` at the i-th
-- detection, a fresh identifier, and whether the file can be written.
pub record Input (F : Type 0) : Type 0 where
  pub rms : F
  pub detect : F → List (String × F)
  pub received_at : F
  pub triggered_at : F
  pub notified_at : F
  pub monotonic : ℕ → F
  pub fresh_id : String
  pub writable : Bool

pub data Attempt (F : Type 0) : Type 0 where
  publish_trigger : DetectionTrigger F → Attempt F
  store_event : DetectionEvent F → Attempt F
  publish_event : DetectionEvent F → Attempt F

pub data Verdict : Type 0 where
  skip below near_miss hit : Verdict

abbrev pub announce : {F : Type 0} → Option (DetectionTrigger F) → List (Attempt F)
announce none = []
announce (some t) = publish_trigger t ∷ []

other_capture : Option String → String → Bool
other_capture none label = false
other_capture (some active) label = not (str_eq label active)

module _ {F : Type 0} ⦃fl : Float F⦄ where
  -- `max(0.01, detection_threshold - 0.2)`
  unfoldable pub near_floor : SourceConfig F → String → F
  near_floor s label =
      let reduced = fl.sub (detection_threshold_for s label) (fl.decimal 2 1) in
      if fl.lt (fl.decimal 1 2) reduced then reduced else fl.decimal 1 2

  -- Python's `min` keeps the first of equal items.
  unfoldable pub least : F → List F → F
  least x [] = x
  least x (y ∷ ys) = least (if fl.lt y x then y else x) ys

  floors : SourceConfig F → List String → List F
  floors s [] = []
  floors s (label ∷ labels) = near_floor s label ∷ floors s labels

  min_threshold_of : SourceConfig F → List String → F
  unfolding floors least
  min_threshold_of s [] = fl.decimal 10 1
  min_threshold_of s (label ∷ labels) = least (near_floor s label) (floors s labels)

  -- the lowest score that the classifier has to report
  unfoldable pub min_threshold : SourceConfig F → F
  unfolding min_threshold_of
  min_threshold s = min_threshold_of s s.listen

  -- The tests of the loop over the detections, in their order; `below` and `near_miss` are the
  -- two branches of a score below the detection threshold.
  unfoldable pub verdict : SourceWorker F → String → F → Verdict
  unfolding other_capture
  verdict w label score =
      if not (contains w.source.listen label)
      then skip
      else if other_capture (active_label w.recorder) label
      then skip
      else if fl.lt score (detection_threshold_for w.source label)
      then (if fl.le (near_floor w.source label) score then near_miss else below)
      else hit

  is_due : Option F → F → Bool
  is_due none now = true
  is_due (some earlier) now = fl.le (fl.decimal 60 0) (fl.sub now earlier)

  -- A near miss is logged once a minute for each label.
  unfoldable pub log_near_miss : SourceWorker F → String → F → SourceWorker F
  unfolding is_due
  log_near_miss w label now =
      if is_due (lookup label w.last_near_miss_log) now
      then record w { last_near_miss_log = insert label now w.last_near_miss_log }
      else w

  announce_if :
      Bool → SnippetRecorder F → Input F → String → F → SnippetRecorder F × List (Attempt F)
  announce_if false r input label score = (r, [])
  announce_if true r input label score =
      let (r', t) = notify r label score input.notified_at in (r', announce t)

  -- The trigger, and the notice if the score is high enough.
  unfoldable pub fire : SourceWorker F → Input F → String → F → SourceWorker F × List (Attempt F)
  unfolding announce_if
  fire w input label score =
      let r = (trigger w.recorder label score input.triggered_at input.fresh_id).0 in
      let loud = fl.le (notify_threshold_for w.source label) score in
      let (r', attempts) = announce_if loud r input label score in
      (record w { recorder = r' }, attempts)

  -- The rest of the loop's body: `next` is what the loop goes on to do, and a hit ends it.
  unfoldable pub act :
      Verdict
      → SourceWorker F
      → Input F
      → ℕ
      → String
      → F
      → (SourceWorker F → SourceWorker F × List (Attempt F))
      → SourceWorker F × List (Attempt F)
  act skip w input i label score next = next w
  act below w input i label score next = next w
  act near_miss w input i label score next = next (log_near_miss w label (input.monotonic i))
  act hit w input i label score next = fire w input label score

  -- The loop over the detections, the i-th of which is the first of the list.
  unfoldable pub scan :
      SourceWorker F → Input F → ℕ → List (String × F) → SourceWorker F × List (Attempt F)
  unfolding act
  scan w input i [] = (w, [])
  scan w input i ((label, score) ∷ rest) =
      act (verdict w label score) w input i label score (λ w'. scan w' input (i + 1) rest)

  -- What the worker does with the event of a finished capture.
  unfoldable pub report : Outcome (Option (DetectionEvent F × WavFile)) → List (Attempt F)
  report (returned none) = []
  report (returned (some (event, file))) =
      if event.notified
      then store_event event ∷ publish_event event ∷ []
      else store_event event ∷ []
  report raised = []

  unfoldable pub classify : SourceWorker F → Input F → SourceWorker F × List (Attempt F)
  classify w input =
      if fl.le w.source.min_volume input.rms
      then scan w input 0 (input.detect (min_threshold w.source))
      else (w, [])

  -- The last part says whether the call raises, which ends the worker's thread.
  unfoldable pub process_chunk :
      SourceWorker F
      → Input F
      → Bytes
      → SourceWorker F × List (Attempt F) × Outcome (Option (DetectionEvent F × WavFile))
  unfolding classify report
  process_chunk w input chunk =
      let (w', attempts) = classify w input in
      let (r, outcome) = add_chunk w'.recorder chunk input.writable in
      (record w' { recorder = r }, attempts ++ report outcome, outcome)

  -- One round of `run` in which `read_chunk` gives a chunk.
  unfoldable pub round :
      SourceWorker F
      → Input F
      → Bytes
      → SourceWorker F × List (Attempt F) × Outcome (Option (DetectionEvent F × WavFile))
  unfolding process_chunk
  round w input chunk =
      process_chunk (record w { last_chunk_at = some input.received_at }) input chunk
