-- ===== src/Worker/Classifier.antt =====
-- The loop of worker.py on what detector.py makes of the scores of the model.
use bark_detector.Prelude.{ℕ, ◌<◌, ◌≡◌, String, some, List, length}
use bark_detector.Float.{Float}
use bark_detector.Detector.{detect}
use bark_detector.Detector.Raw.{Sorter, AllNumbers, top_classes, detect_raw}
use bark_detector.Detector.Ranking.{detect_raw-IsRanking}
use bark_detector.Worker.{SourceWorker, Input, min_threshold, scan}
use bark_detector.Worker.Prefilter.{InRange, reported, prefilter_lossless}

module _ {F : Type 0} ⦃fl : Float F⦄ (np : Sorter F) (labels : ℕ → String) (input : Input F) where
  -- Where the scores of the model are numbers for more than 20 classes and every detection
  -- threshold lies between 0.01 and 1, there are raw detections, and the loop does the same on what
  -- the classifier reports above `min_threshold` as on all of the raw detections: the same triggers,
  -- notices, state and near-miss log.
  pub classifier_lossless :
      (w : SourceWorker F) (res : List F)
      → InRange w.source
      → top_classes < length res
      → AllNumbers res
      → (rows : List (ℕ × F)) × (detect_raw np res ≡ some rows)
        × (scan w input 0 (detect labels (min_threshold w.source) rows)
            ≡ scan w input 0 (reported labels input rows))
  classifier_lossless w res ok many numbers =
      let (rows, e, ranking) = detect_raw-IsRanking np res many numbers in
      (rows, e, prefilter_lossless labels input w rows ok ranking.descending)
