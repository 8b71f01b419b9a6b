-- ===== src/Worker/Tests.antt =====
-- Runs of a worker of worker.py, and its theorems at concrete inputs.
use bark_detector.Prelude.{
  ℕ, ◌≡◌, ◌⊎◌, refl, String, true, none, some, List, [], ◌∷◌, contains, lookup, leb, ◌==◌,
  if◌then◌else◌, arith, contains_cases, not-contains-nil, inl, inr,
}
use bark_detector.Float.Milli.{milli}
use bark_detector.Config.{SourceConfig, detection_threshold_for, notify_threshold_for}
use bark_detector.Detector.{detect}
use bark_detector.Detector.Raw.{detect_raw}
use bark_detector.Detector.Sorting.{by_insertion, all_numbers}
use bark_detector.Snippet.{active_label, add_chunk, trigger, notify}
use bark_detector.Snippet.Notices.{Distinct}
use bark_detector.Worker.{
  SourceWorker, Input, publish_trigger, min_threshold, near_floor, scan, classify, process_chunk,
  round, verdict, fire, log_near_miss, least, report, act,
}
use bark_detector.Worker.Prefilter.{InRange, reported}
use bark_detector.Worker.Classifier.{classifier_lossless}
use bark_detector.Worker.Verdicts.{Publishes, classify-Publishes}
use bark_detector.Worker.Trace.{
  Log, Run, begin, go, log_all, notified_of, empty_log, AllFlagged, published_events,
}

abbrev kitchen : SourceConfig ℕ
kitchen = record {
  name = "kitchen";
  type = "rtsp";
  path = "rtsp://camera/audio";
  listen = "bark" ∷ [];
  detection_thresholds = ("bark", 600) ∷ [];
  notify_thresholds = ("bark", 800) ∷ [];
  min_volume = 500000;
  pre_capture = 0;
  post_capture = 1950;
  input_args = [];
  id = "0123456789ab";
}

abbrev worker : SourceWorker ℕ
worker = record {
  source = kitchen;
  recorder = record {
    source_name = "kitchen";
    snippet_dir = "/media";
    pre_chunks_max = 1;
    post_chunks_needed = 2;
    pre_buffer = [];
    active = none;
  };
  last_chunk_at = none;
  last_near_miss_log = [];
}

kitchen-InRange : InRange kitchen
unfolding detection_threshold_for lookup
kitchen-InRange label c = elim (contains_cases label "bark" [] c) [
  | inl e ↦ rw (← e) (refl, refl)
  | inr n ↦ absurd (not-contains-nil label n)
]

-- The classifier's raw detections, by falling score.
abbrev raw : List (String × ℕ)
raw = ("speech", 950) ∷ ("bark", 850) ∷ ("howl", 100) ∷ []

abbrev name_of : String → String
name_of s = s

abbrev input : Input ℕ
input = record {
  rms = 900000;
  detect = λ threshold. detect name_of threshold raw;
  received_at = 1000;
  triggered_at = 1010;
  notified_at = 1020;
  monotonic = λ i. 5000;
  fresh_id = "a1";
  writable = true;
}

abbrev chunk : List ℕ
chunk = 1 ∷ 2 ∷ []

program : Unit {0}
unfolding min_threshold near_floor least detection_threshold_for notify_threshold_for lookup detect
    scan act verdict fire trigger notify add_chunk report classify process_chunk round contains
    active_label log_near_miss
program = tt

-- 0.6 - 0.2
min_threshold_test : min_threshold kitchen ≡ 400
unfolding program
min_threshold_test = refl

-- A loud bark is announced at once, and nothing is stored before the capture ends.
announce_test :
    (round worker input chunk).1
    ≡ publish_trigger
        (record { id = "a1"; source = "kitchen"; label = "bark"; score = 850; timestamp = 1020 })
      ∷ []
unfolding program
announce_test = refl

-- A detection threshold below 0.01 is allowed, but the classifier is asked for no score below
-- 0.01, so a bark at 0.007 is not acted on; the loop itself would have acted on it.
abbrev quiet : SourceWorker ℕ
quiet = record worker {
  source = record kitchen {
    detection_thresholds = ("bark", 5) ∷ [];
    notify_thresholds = ("bark", 6) ∷ [];
  };
}

abbrev faint : List (String × ℕ)
faint = ("bark", 7) ∷ []

prefilter_loses :
    ((scan quiet input 0 (detect name_of (min_threshold quiet.source) faint)).1 ≡ [])
    × ((scan quiet input 0 (reported name_of input faint)).1
        ≡ publish_trigger
            (record { id = "a1"; source = "kitchen"; label = "bark"; score = 7; timestamp = 1020 })
          ∷ [])
unfolding program reported
prefilter_loses = (refl, refl)

-- The scores of 22 classes and their names.
abbrev scores : List ℕ
scores =
    0 ∷ 850 ∷ 0 ∷ 950 ∷ 100 ∷ 1 ∷ 2 ∷ 3 ∷ 4 ∷ 5 ∷ 6 ∷ 7 ∷ 8 ∷ 9 ∷ 10 ∷ 11 ∷ 12 ∷ 13 ∷ 14 ∷ 15 ∷ 16
    ∷ 17 ∷ []

abbrev class_name : ℕ → String
class_name c = if c == 1 then "bark" else "speech"

classifier_lossless_example :
    (rows : List (ℕ × ℕ)) × (detect_raw by_insertion scores ≡ some rows)
    × (scan worker input 0 (detect class_name (min_threshold kitchen) rows)
        ≡ scan worker input 0 (reported class_name input rows))
classifier_lossless_example =
    classifier_lossless by_insertion class_name input worker scores kitchen-InRange (omega arith)
      (all_numbers scores)

classify-Publishes_example :
    ((classify worker input).1 ≡ [])
    ⊎ ((leb kitchen.min_volume input.rms ≡ true)
        × Publishes kitchen (input.detect (min_threshold kitchen)) (classify worker input).1)
classify-Publishes_example = classify-Publishes worker input

abbrev second_worker : SourceWorker ℕ
second_worker = (round worker input chunk).0

abbrev second_log : Log ℕ
second_log = log_all empty_log (round worker input chunk).1

second-Run : Run worker second_worker second_log ("a1" ∷ [])
unfolding contains
second-Run = go begin input chunk refl

published_events_example :
    Distinct second_log.announced
    × (second_log.published ≡ notified_of second_log.stored)
    × AllFlagged second_log.announced second_log.stored
published_events_example = published_events refl second-Run
