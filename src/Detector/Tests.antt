-- ===== src/Detector/Tests.antt =====
-- Runs of detector.py, and its theorems at concrete inputs.
use bark_detector.Prelude.{ℕ, ◌≡◌, refl, some, List, [], ◌∷◌, arith}
use bark_detector.Float.Milli.{milli}
use bark_detector.Config.Source.{is_space}
use bark_detector.Detector.Labels.{load_labels}
use bark_detector.Detector.Raw.{detect_raw}
use bark_detector.Detector.Ranking.{IsRanking, detect_raw-IsRanking}
use bark_detector.Detector.Sorting.{by_insertion, all_numbers}

-- The scores of 22 classes.
abbrev scores : List ℕ
scores =
    0 ∷ 850 ∷ 0 ∷ 950 ∷ 100 ∷ 1 ∷ 2 ∷ 3 ∷ 4 ∷ 5 ∷ 6 ∷ 7 ∷ 8 ∷ 9 ∷ 10 ∷ 11 ∷ 12 ∷ 13 ∷ 14 ∷ 15 ∷ 16
    ∷ 17 ∷ []

detect_raw-IsRanking_example :
    (rows : List (ℕ × ℕ)) × (detect_raw by_insertion scores ≡ some rows) × IsRanking scores rows
detect_raw-IsRanking_example =
    detect_raw-IsRanking by_insertion scores (omega arith) (all_numbers scores)

-- The labels of a file with a line of spaces and one that ends with them.
labels_loaded :
    load_labels ("speech\n" ∷ " bark \n" ∷ " \n" ∷ []) ≡ (0, "speech") ∷ (1, "bark") ∷ (2, "") ∷ []
unfolding load_labels is_space
labels_loaded = refl
