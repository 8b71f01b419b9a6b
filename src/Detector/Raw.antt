-- ===== src/Detector/Raw.antt =====
-- `_detect_raw` of detector.py. numpy is outside: its sorting of the negated scores is an argument,
-- with the documented behaviour of `argpartition` and `argsort`.
use mathlib.Core.List.{Permᴰ}
use bark_detector.Prelude.{
  ℕ, zero, suc, ◌-◌, ◌<◌, ◌≡◌, true, Option, none, some, List, [], ◌∷◌, ◌++◌, length, take, drop,
  leb, if◌then◌else◌,
}
use bark_detector.Float.{Float}

-- 0, 1, ..., n - 1
abbrev pub from_to : ℕ → ℕ → List ℕ
from_to i zero = []
from_to i (suc n) = i ∷ from_to (suc i) n

abbrev pub indices : ℕ → List ℕ
indices n = from_to 0 n

-- `xs[i]`; no index of numpy's is out of range.
unfoldable pub item {ℓ} : {A : Type ℓ} → A → List A → ℕ → A
item other [] i = other
item other (x ∷ xs) zero = x
item other (x ∷ xs) (suc i) = item other xs i

-- `xs[ids]` with an array of indices
unfoldable pub gather {ℓ} : {A : Type ℓ} → A → List A → List ℕ → List A
unfolding item
gather other xs [] = []
gather other xs (i ∷ ids) = item other xs i ∷ gather other xs ids

module _ {F : Type 0} ⦃fl : Float F⦄ where
  abbrev pub score_of : List F → ℕ → F
  score_of xs i = item (fl.decimal 0 0) xs i

  abbrev pub AllNumbers : List F → Type 0
  AllNumbers [] = Unit
  AllNumbers (x ∷ xs) = (fl.le x x ≡ true) × AllNumbers xs

  -- The score is at most that of each of the indices.
  abbrev pub AllOver : List F → F → List ℕ → Type 0
  AllOver xs low [] = Unit
  AllOver xs low (i ∷ ids) = (fl.le low (score_of xs i) ≡ true) × AllOver xs low ids

  -- The scores of the indices, in this order, fall.
  abbrev pub AllUnder : List F → F → List ℕ → Type 0
  AllUnder xs top [] = Unit
  AllUnder xs top (i ∷ ids) = (fl.le (score_of xs i) top ≡ true) × AllUnder xs top ids

  abbrev pub Falls : List F → List ℕ → Type 0
  Falls xs [] = Unit
  Falls xs (i ∷ ids) = AllUnder xs (score_of xs i) ids × Falls xs ids

  -- The scores of the first indices are at least those of the others.
  abbrev pub AllOverAll : List F → List ℕ → List ℕ → Type 0
  AllOverAll xs first [] = Unit
  AllOverAll xs first (j ∷ rest) = AllOver xs (score_of xs j) first × AllOverAll xs first rest

-- `argpartition xs k` is `np.argpartition(-xs, k)` and `argsort xs` is `np.argsort(-xs)`.
pub record Sorter (F : Type 0) ⦃fl : Float F⦄ : Type 0 where
  pub argpartition : List F → ℕ → List ℕ
  pub argsort : List F → List ℕ
  pub argpartition_perm :
      (xs : List F) (k : ℕ) → k < length xs → Permᴰ (argpartition xs k) (indices (length xs))
  pub argpartition_split :
      (xs : List F) (k : ℕ)
      → k < length xs
      → AllNumbers xs
      → AllOverAll xs (take k (argpartition xs k)) (drop k (argpartition xs k))
  pub argsort_perm : (xs : List F) → Permᴰ (argsort xs) (indices (length xs))
  pub argsort_sorted : (xs : List F) → AllNumbers xs → Falls xs (argsort xs)

abbrev pub top_classes : ℕ
top_classes = 20

module _ {F : Type 0} ⦃fl : Float F⦄ where
  -- `class_ids[non_zero_indices[class_ids]]`
  unfoldable pub positive : List F → List ℕ → List ℕ
  positive res [] = []
  positive res (c ∷ ids) =
      let rest = positive res ids in
      if fl.lt (fl.decimal 0 0) (score_of res c) then c ∷ rest else rest

  -- The rows of the classes.
  abbrev pub rows_of : List F → List ℕ → List (ℕ × F)
  rows_of res [] = []
  rows_of res (c ∷ ids) = (c, score_of res c) ∷ rows_of res ids

  -- Rows of zeros.
  abbrev pub zeros : ℕ → List (ℕ × F)
  zeros zero = []
  zeros (suc n) = (0, fl.decimal 0 0) ∷ zeros n

  module _ (np : Sorter F) where
    unfoldable pub best_classes : List F → List ℕ
    unfolding gather positive
    best_classes res =
        let class_ids = take top_classes (np.argpartition res top_classes) in
        let ordered = np.argsort (gather (fl.decimal 0 0) res class_ids) in
        positive res (gather 0 class_ids ordered)

    -- The scores of the classes to rows; `argpartition` raises where there are too few of them.
    unfoldable pub detect_raw : List F → Option (List (ℕ × F))
    unfolding best_classes
    detect_raw res =
        let ids = best_classes res in
        if leb (length res) top_classes
        then none
        else some (rows_of res ids ++ zeros (top_classes - length ids))
