-- ===== src/Detector/Labels.antt =====
-- `load_labels` of detector.py, on the lines of the label file.
use Prim.Native.Char.{code}
use bark_detector.Prelude.{ℕ, suc, String, Bool, true, List, [], ◌∷◌, if◌then◌else◌}
use bark_detector.Config.Source.{is_space}

unfoldable pub strip_start : String → String
strip_start String.[] = String.[]
strip_start (String.◌∷◌ c s) =
    let rest = strip_start s in if is_space (code c) then rest else String.◌∷◌ c s

-- Nothing is left of a text of spaces.
is_blank : String → Bool
is_blank String.[] = true
is_blank (String.◌∷◌ c s) = if is_space (code c) then is_blank s else Bool.false

unfoldable pub strip_end : String → String
unfolding is_blank
strip_end String.[] = String.[]
strip_end (String.◌∷◌ c s) =
    let rest = strip_end s in if is_blank (String.◌∷◌ c s) then String.[] else String.◌∷◌ c rest

enumerated : ℕ → List String → List (ℕ × String)
unfolding strip_start strip_end
enumerated i [] = []
enumerated i (line ∷ lines) = (i, strip_end (strip_start line)) ∷ enumerated (suc i) lines

-- The dictionary from the index of a line to its text.
unfoldable pub load_labels : List String → List (ℕ × String)
unfolding enumerated
load_labels lines = enumerated 0 lines
