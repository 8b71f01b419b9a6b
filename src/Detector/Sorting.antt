-- ===== src/Detector/Sorting.antt =====
-- A sorting of scores as numpy's for detector.py, at which the examples run: by insertion.
use mathlib.Core.List.{Permᴰ}
use mathlib.Core.List.Permᴰ
use bark_detector.Prelude.{
  ℕ, zero, suc, ◌≡◌, refl, true, false, List, [], ◌∷◌, length, take, drop, leb, arith,
  if◌then◌else◌, Bool-cases, inl, inr,
}
use bark_detector.Float.Milli.{milli}
use bark_detector.Detector.Raw.{indices, score_of, AllNumbers, AllUnder, Falls, AllOverAll, Sorter}

module _ (xs : List ℕ) where
  unfoldable pub insert_id : ℕ → List ℕ → List ℕ
  insert_id i [] = i ∷ []
  insert_id i (j ∷ ids) =
      let rest = insert_id i ids in
      if leb (score_of xs j) (score_of xs i) then i ∷ j ∷ ids else j ∷ rest

  unfoldable pub sort_ids : List ℕ → List ℕ
  unfolding insert_id
  sort_ids [] = []
  sort_ids (i ∷ ids) = insert_id i (sort_ids ids)

  insert_id-perm : (i : ℕ) (ids : List ℕ) → Permᴰ (insert_id i ids) (i ∷ ids)
  unfolding insert_id
  insert_id-perm i [] = Permᴰ.refl (i ∷ [])
  insert_id-perm i (j ∷ ids) = elim (Bool-cases (leb (score_of xs j) (score_of xs i))) [
    | inl e ↦ rw e (Permᴰ.refl (i ∷ j ∷ ids))
    | inr e ↦ rw e (Permᴰ.trans (Permᴰ.cons refl (insert_id-perm i ids)) (Permᴰ.swap refl refl))
  ]

  pub sort_ids-perm : (ids : List ℕ) → Permᴰ (sort_ids ids) ids
  unfolding sort_ids
  sort_ids-perm [] = Permᴰ.nil
  sort_ids-perm (i ∷ ids) =
      Permᴰ.trans (insert_id-perm i (sort_ids ids)) (Permᴰ.cons refl (sort_ids-perm ids))

  AllUnder-trans :
      (low top : ℕ) (ids : List ℕ) → leb low top ≡ true → AllUnder xs low ids → AllUnder xs top ids
  AllUnder-trans low top [] h a = tt
  AllUnder-trans low top (i ∷ ids) h a =
      (milli.le_trans (score_of xs i) low top a.0 h, AllUnder-trans low top ids h a.1)

  AllUnder-insert :
      (top i : ℕ) (ids : List ℕ)
      → leb (score_of xs i) top ≡ true
      → AllUnder xs top ids
      → AllUnder xs top (insert_id i ids)
  unfolding insert_id
  AllUnder-insert top i [] h a = (h, tt)
  AllUnder-insert top i (j ∷ ids) h a = elim (Bool-cases (leb (score_of xs j) (score_of xs i))) [
    | inl e ↦ rw e (h, a)
    | inr e ↦ rw e (a.0, AllUnder-insert top i ids h a.1)
  ]

  insert_id-Falls : (i : ℕ) (ids : List ℕ) → Falls xs ids → Falls xs (insert_id i ids)
  unfolding insert_id
  insert_id-Falls i [] f = (tt, tt)
  insert_id-Falls i (j ∷ ids) f = elim (Bool-cases (leb (score_of xs j) (score_of xs i))) [
    | inl e ↦ rw e ((e, AllUnder-trans (score_of xs j) (score_of xs i) ids e f.0), f)
    | inr e ↦ rw e (
      AllUnder-insert (score_of xs j) i ids (swapped (score_of xs j) (score_of xs i) e) f.0,
      insert_id-Falls i ids f.1,
    )
  ]
    where
      swapped : (a b : ℕ) → leb a b ≡ false → leb b a ≡ true
      swapped a b h = ground arith

  pub sort_ids-Falls : (ids : List ℕ) → Falls xs (sort_ids ids)
  unfolding sort_ids
  sort_ids-Falls [] = tt
  sort_ids-Falls (i ∷ ids) = insert_id-Falls i (sort_ids ids) (sort_ids-Falls ids)

  over_nil : (rest : List ℕ) → AllOverAll xs [] rest
  over_nil [] = tt
  over_nil (j ∷ rest) = (tt, over_nil rest)

  over_cons :
      (i : ℕ) (first rest : List ℕ)
      → AllUnder xs (score_of xs i) rest
      → AllOverAll xs first rest
      → AllOverAll xs (i ∷ first) rest
  over_cons i first [] u a = tt
  over_cons i first (j ∷ rest) u a = ((u.0, a.0), over_cons i first rest u.1 a.1)

  drop-AllUnder : (k top : ℕ) (ids : List ℕ) → AllUnder xs top ids → AllUnder xs top (drop k ids)
  drop-AllUnder zero top ids u = u
  drop-AllUnder (suc k) top [] u = tt
  drop-AllUnder (suc k) top (i ∷ ids) u = drop-AllUnder k top ids u.1

  -- Each of the first ones is at least each of the others.
  pub split_Falls : (k : ℕ) (ids : List ℕ) → Falls xs ids → AllOverAll xs (take k ids) (drop k ids)
  split_Falls zero ids f = over_nil ids
  split_Falls (suc k) [] f = tt
  split_Falls (suc k) (i ∷ ids) f =
      over_cons i (take k ids) (drop k ids) (drop-AllUnder k (score_of xs i) ids f.0)
        (split_Falls k ids f.1)

abbrev pub by_insertion : Sorter ℕ
by_insertion = record {
  argpartition = λ xs k. sort_ids xs (indices (length xs));
  argsort = λ xs. sort_ids xs (indices (length xs));
  argpartition_perm = λ xs k h. sort_ids-perm xs (indices (length xs));
  argpartition_split = λ xs k h n. split_Falls xs k _ (sort_ids-Falls xs (indices (length xs)));
  argsort_perm = λ xs. sort_ids-perm xs (indices (length xs));
  argsort_sorted = λ xs n. sort_ids-Falls xs (indices (length xs));
}

pub all_numbers : (xs : List ℕ) → AllNumbers xs
all_numbers [] = tt
all_numbers (x ∷ xs) = (ground arith, all_numbers xs)
