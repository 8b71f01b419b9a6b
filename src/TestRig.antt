-- ===== src/TestRig.antt =====
-- test-rig/stream/download_audioset.py: the bark and not-bark clips of the local test rig. pandas,
-- which reads the index of AudioSet and draws the samples, and yt-dlp are outside: they are
-- arguments, with the documented behaviour of `DataFrame.sample` and of a saved table.
pub mod Run
pub mod Index
pub mod Pools
pub mod Fetching
pub mod Numbering
pub mod Labels
pub mod Order
pub mod Settled
mod Tests
use Prim.Native.Char.{code}
use Prim.Native.Nat.{min}
use mathlib.Core.List.{Permᴰ}
use bark_detector.Prelude.{
  ℕ, ◌*◌, ◌≤◌, ◌≡◌, String, Bool, true, false, not, ◌&&◌, ◌||◌, Option, none, some, List, [], ◌∷◌,
  ◌++◌, length, ◌==◌, if◌then◌else◌,
}

-- `positive_labels` may be a missing value.
pub record Segment (F : Type 0) : Type 0 where
  pub ytid : String
  pub start_seconds : F
  pub end_seconds : F
  pub positive_labels : Option String

abbrev pub bark_label_id : String
bark_label_id = "/m/05tny_"

abbrev pub dog_label_ids : List String
dog_label_ids =
    "/m/0bt9lr" ∷ "/m/05tny_" ∷ "/m/07r_k2n" ∷ "/m/07qf0zm" ∷ "/m/07rc7d9" ∷ "/m/0ghcn6"
    ∷ "/t/dd00136" ∷ "/m/07srf8z" ∷ []

unfoldable pub starts_with : String → String → Bool
starts_with String.[] s = true
starts_with (String.◌∷◌ c p) String.[] = false
starts_with (String.◌∷◌ c p) (String.◌∷◌ d s) = code c == code d && starts_with p s

-- `str.contains` of one text; no label has a character with a meaning in a pattern.
unfoldable pub str_contains : String → String → Bool
unfolding starts_with
str_contains p String.[] = starts_with p String.[]
str_contains p (String.◌∷◌ c s) = starts_with p (String.◌∷◌ c s) || str_contains p s

-- The alternation of the texts.
unfoldable pub contains_any : List String → String → Bool
unfolding str_contains
contains_any [] s = false
contains_any (p ∷ ps) s = str_contains p s || contains_any ps s

-- with `na=False`
unfoldable pub labelled : List String → Option String → Bool
unfolding contains_any
labelled ids none = false
labelled ids (some s) = contains_any ids s

-- `df.sample(n=, random_state=)`: that many rows of the table, no row twice. A count below zero,
-- which it refuses, is left out.
pub record Sampler (F : Type 0) : Type 0 where
  pub sample : ℕ → ℕ → List (Segment F) → List (Segment F)
  pub length-sample :
      (n seed : ℕ) (rows : List (Segment F)) → n ≤ length rows → length (sample n seed rows) ≡ n
  pub sample_of :
      (n seed : ℕ) (rows : List (Segment F))
      → n ≤ length rows
      → (rest : List (Segment F)) × Permᴰ (sample n seed rows ++ rest) rows

module _ {F : Type 0} where
  abbrev pub is_bark : Segment F → Bool
  is_bark s = labelled (bark_label_id ∷ []) s.positive_labels

  abbrev pub contains_dog : Segment F → Bool
  contains_dog s = labelled dog_label_ids s.positive_labels

  unfoldable pub pool : Bool → List (Segment F) → List (Segment F)
  unfolding labelled
  pool want_bark [] = []
  pool want_bark (s ∷ index) =
      let rest = pool want_bark index in
      let wanted = if want_bark then is_bark s else not (contains_dog s) in
      if wanted then s ∷ rest else rest

  unfoldable pub select_candidates : Sampler F → List (Segment F) → Bool → ℕ → ℕ → List (Segment F)
  unfolding pool
  select_candidates sampler index want_bark count seed =
      let rows = pool want_bark index in sampler.sample (min (length rows) (count * 5)) seed rows
