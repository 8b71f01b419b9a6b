-- ===== src/Detector.antt =====
-- detector.py: what `AudioTfl` makes of the label file and of the scores of the model, and
-- `pcm_chunk_to_waveform`. The model and its tensors are outside: its scores are an argument.
pub mod Labels
pub mod Raw
pub mod Indices
pub mod Ranking
pub mod Sorting
pub mod Pcm
mod Tests
use bark_detector.Prelude.{◌≡◌, String, true, List, [], ◌∷◌, if◌then◌else◌}
use bark_detector.Float.{Float}

module _ {F : Type 0} ⦃fl : Float F⦄ where
  -- `labels` names a class; the loop ends at the first score below the threshold.
  unfoldable pub detect : {C : Type 0} → (C → String) → F → List (C × F) → List (String × F)
  detect labels threshold [] = []
  detect labels threshold ((class_id, score) ∷ raw) =
      if fl.lt score threshold then [] else (labels class_id, score) ∷ detect labels threshold raw

  abbrev pub AtMost : {C : Type 0} → F → List (C × F) → Type 0
  AtMost top [] = Unit
  AtMost top ((c, score) ∷ raw) = (fl.le score top ≡ true) × AtMost top raw

  -- The scores fall.
  abbrev pub Descending : {C : Type 0} → List (C × F) → Type 0
  Descending [] = Unit
  Descending ((c, score) ∷ raw) = AtMost score raw × Descending raw
