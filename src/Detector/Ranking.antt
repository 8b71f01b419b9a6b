-- ===== src/Detector/Ranking.antt =====
-- The raw detections of detector.py rank the classes by their scores.
use mathlib.Core.List.{Permᴰ}
use mathlib.Core.List.Permᴰ.{nil, cons, swap, trans}
use bark_detector.Prelude.{
  ℕ, zero, suc, ◌-◌, ◌≤◌, ◌<◌, ◌≡◌, ◌⊎◌, refl, sym, ap, ◌∙◌, true, false, some, List, [], ◌∷◌, ◌++◌,
  length, take, drop, take-append-drop, length-append, leb, ◌==◌, arith, Bool-cases, inl, inr,
}
use bark_detector.Float.{Float}
use bark_detector.EventStore.{has_id}
use bark_detector.Detector.{AtMost, Descending}
use bark_detector.Detector.Raw.{
  indices, item, gather, score_of, AllNumbers, AllOver, AllUnder, Falls, AllOverAll, Sorter,
  top_classes, positive, rows_of, zeros, best_classes, detect_raw,
}
use bark_detector.Detector.Indices.{
  AllBelow, AllBelow-from_to, AllBelow-perm, has_id-perm, has_id-append, has_id-from_to,
  item-gather, length-gather, length-perm, length-from_to, length-take, gather_perm, NoRepeats,
  NoRepeats-from_to, NoRepeats-perm, NoRepeats-take,
}

eq_of : (a b : ℕ) → (a == b) ≡ true → a ≡ b
eq_of a b h = ground arith

zeros-AtMost :
    {F : Type 0} ⦃fl : Float F⦄ (top : F) (n : ℕ)
    → fl.le (fl.decimal 0 0) top ≡ true
    → AtMost top (zeros n)
zeros-AtMost top zero h = tt
zeros-AtMost top (suc n) h = (h, zeros-AtMost top n h)

zeros-Descending : (F : Type 0) ⦃fl : Float F⦄ (n : ℕ) → Descending {F = F} (zeros n)
zeros-Descending F zero = tt
zeros-Descending F ⦃fl⦄ (suc n) =
    (zeros-AtMost _ n (fl.decimal-le 0 0 0 0 (omega arith)), zeros-Descending F n)

length-zeros : (F : Type 0) ⦃fl : Float F⦄ (n : ℕ) → length (zeros {F = F} n) ≡ n
length-zeros F zero = refl
length-zeros F (suc n) = ap suc (length-zeros F n)

module _ {F : Type 0} ⦃fl : Float F⦄ where
  abbrev zero_F : F
  zero_F = fl.decimal 0 0

  score_IsNumber :
      (res : List F) (i : ℕ) → AllNumbers res → fl.le (score_of res i) (score_of res i) ≡ true
  unfolding item
  score_IsNumber [] i h = fl.decimal-le 0 0 0 0 (omega arith)
  score_IsNumber (x ∷ res) zero h = h.0
  score_IsNumber (x ∷ res) (suc i) h = score_IsNumber res i h.1

  gather-AllNumbers :
      (res : List F) (ids : List ℕ) → AllNumbers res → AllNumbers (gather zero_F res ids)
  unfolding gather
  gather-AllNumbers res [] h = tt
  gather-AllNumbers res (i ∷ ids) h = (score_IsNumber res i h, gather-AllNumbers res ids h)

  -- What falls along a selection of the scores falls along the selected classes.
  AllUnder-gather :
      (res : List F) (ids ps : List ℕ) (top : F)
      → AllBelow (length ids) ps
      → AllUnder (gather zero_F res ids) top ps
      → AllUnder res top (gather 0 ids ps)
  unfolding gather
  AllUnder-gather res ids [] top b h = tt
  AllUnder-gather res ids (p ∷ ps) top b h =
      (rw (item-gather zero_F res ids p b.0) at (h.0), AllUnder-gather res ids ps top b.1 h.1)

  Falls-gather :
      (res : List F) (ids ps : List ℕ)
      → AllBelow (length ids) ps
      → Falls (gather zero_F res ids) ps
      → Falls res (gather 0 ids ps)
  unfolding gather
  Falls-gather res ids [] b h = tt
  Falls-gather res ids (p ∷ ps) b h = (
    AllUnder-gather res ids ps (score_of res (item 0 ids p)) b.1
        (rw (item-gather zero_F res ids p b.0) at (h.0)),
    Falls-gather res ids ps b.1 h.1,
  )

  positive-AllUnder :
      (res : List F) (top : F) (ids : List ℕ)
      → AllUnder res top ids
      → AllUnder res top (positive res ids)
  unfolding positive
  positive-AllUnder res top [] h = tt
  positive-AllUnder res top (c ∷ ids) h = elim (Bool-cases (fl.lt zero_F (score_of res c))) [
    | inl e ↦ rw e (h.0, positive-AllUnder res top ids h.1)
    | inr e ↦ rw e (positive-AllUnder res top ids h.1)
  ]

  positive-Falls : (res : List F) (ids : List ℕ) → Falls res ids → Falls res (positive res ids)
  unfolding positive
  positive-Falls res [] h = tt
  positive-Falls res (c ∷ ids) h = elim (Bool-cases (fl.lt zero_F (score_of res c))) [
    | inl e ↦ rw e (positive-AllUnder res _ ids h.0, positive-Falls res ids h.1)
    | inr e ↦ rw e (positive-Falls res ids h.1)
  ]

  -- The scores are above 0.
  abbrev pub AllPositive : List F → List ℕ → Type 0
  AllPositive res [] = Unit
  AllPositive res (c ∷ ids) = (fl.lt zero_F (score_of res c) ≡ true) × AllPositive res ids

  positive-AllPositive : (res : List F) (ids : List ℕ) → AllPositive res (positive res ids)
  unfolding positive
  positive-AllPositive res [] = tt
  positive-AllPositive res (c ∷ ids) = elim (Bool-cases (fl.lt zero_F (score_of res c))) [
    | inl e ↦ rw e (e, positive-AllPositive res ids)
    | inr e ↦ rw e (positive-AllPositive res ids)
  ]

  length-positive : (res : List F) (ids : List ℕ) → length (positive res ids) ≤ length ids
  unfolding positive
  length-positive res [] = omega arith
  length-positive res (c ∷ ids) = ground (arith, length-positive res ids)

  positive_all_of :
      (res : List F) (low : F) (ids : List ℕ)
      → fl.lt zero_F low ≡ true
      → AllOver res low ids
      → positive res ids ≡ ids
  unfolding positive
  positive_all_of res low [] h a = refl
  positive_all_of res low (c ∷ ids) h a =
      rw (fl.lt-le_trans zero_F low (score_of res c) h a.0)
        (ap (◌∷◌ c) (positive_all_of res low ids h a.1))

  has_id-positive :
      (res : List F) (ids : List ℕ) (c : ℕ)
      → fl.lt zero_F (score_of res c) ≡ true
      → has_id ids c ≡ true
      → has_id (positive res ids) c ≡ true
  unfolding positive has_id
  has_id-positive res [] c h m = cc
  has_id-positive res (d ∷ ids) c h m = elim (Bool-cases (d == c)) [
    | inl e ↦ rw (ap (λ i. fl.lt zero_F (score_of res i)) (eq_of d c e) ∙ h) (rw e refl)
    | inr e ↦
        let rest : has_id (positive res ids) c ≡ true = has_id-positive res ids c h (rw e at m) in
        elim (Bool-cases (fl.lt zero_F (score_of res d))) [
          | inl p ↦ rw p (rw e rest)
          | inr p ↦ rw p rest
        ]
  ]

  unlisted-positive :
      (res : List F) (ids : List ℕ) (c : ℕ)
      → has_id ids c ≡ false
      → has_id (positive res ids) c ≡ false
  unfolding positive has_id
  unlisted-positive res [] c h = refl
  unlisted-positive res (d ∷ ids) c h = ground (arith, unlisted-positive res ids c)

  positive-NoRepeats : (res : List F) (ids : List ℕ) → NoRepeats ids → NoRepeats (positive res ids)
  unfolding positive
  positive-NoRepeats res [] d = tt
  positive-NoRepeats res (c ∷ ids) d = elim (Bool-cases (fl.lt zero_F (score_of res c))) [
    | inl e ↦ rw e (unlisted-positive res ids c d.0, positive-NoRepeats res ids d.1)
    | inr e ↦ rw e (positive-NoRepeats res ids d.1)
  ]

  AllOver-perm :
      {xs ys : List ℕ} (res : List F) (low : F)
      → Permᴰ xs ys
      → AllOver res low ys
      → AllOver res low xs
  AllOver-perm res low nil h = h
  AllOver-perm res low (cons e p) h = (rw (sym e) at (h.0), AllOver-perm res low p h.1)
  AllOver-perm res low (swap e f) h = (rw (sym e) at (h.1.0), (rw (sym f) at (h.0), h.1.1))
  AllOver-perm res low (trans p q) h = AllOver-perm res low p (AllOver-perm res low q h)

  AllOver-of :
      (res : List F) (first rest : List ℕ) (c : ℕ)
      → AllOverAll res first rest
      → has_id rest c ≡ true
      → AllOver res (score_of res c) first
  unfolding has_id
  AllOver-of res first [] c h m = cc
  AllOver-of res first (j ∷ rest) c h m = elim (Bool-cases (j == c)) [
    | inl e ↦ rw (eq_of j c e) at (h.0)
    | inr e ↦ AllOver-of res first rest c h.1 (rw e at m)
  ]

  -- Rows by falling scores, then zeros.
  rows-AtMost :
      (res : List F) (top : F) (ids : List ℕ) (n : ℕ)
      → fl.le zero_F top ≡ true
      → AllUnder res top ids
      → AtMost top (rows_of res ids ++ zeros n)
  rows-AtMost res top [] n z h = zeros-AtMost top n z
  rows-AtMost res top (c ∷ ids) n z h = (h.0, rows-AtMost res top ids n z h.1)

  rows-Descending :
      (res : List F) (ids : List ℕ) (n : ℕ)
      → AllPositive res ids
      → Falls res ids
      → Descending (rows_of res ids ++ zeros n)
  rows-Descending res [] n p h = zeros-Descending F n
  rows-Descending res (c ∷ ids) n p h =
      (rows-AtMost res _ ids n (fl.lt→le _ _ p.0) h.0, rows-Descending res ids n p.1 h.1)

  -- The rows rank the classes: there are 20, with falling scores, the first ones of different classes
  -- that score above 0 and the others zeros, and a class that is left out scores 0 or less, or there
  -- are 20 different ones that score at least as much.
  pub record IsRanking (res : List F) (rows : List (ℕ × F)) : Type 0 where
    pub ids : List ℕ
    pub scored : rows ≡ rows_of res ids ++ zeros (top_classes - length ids)
    pub size : length rows ≡ top_classes
    pub descending : Descending rows
    pub distinct : NoRepeats ids
    pub positive_all : AllPositive res ids
    pub complete :
        (c : ℕ)
        → c < length res
        → fl.lt zero_F (score_of res c) ≡ true
        → (has_id ids c ≡ true) ⊎ ((length ids ≡ top_classes) × AllOver res (score_of res c) ids)

  length-rows_of : (res : List F) (ids : List ℕ) → length (rows_of res ids) ≡ length ids
  length-rows_of res [] = refl
  length-rows_of res (c ∷ ids) = ap suc (length-rows_of res ids)

  length-rows :
      (res : List F) (ids : List ℕ)
      → length ids ≤ top_classes
      → length (rows_of res ids ++ zeros (top_classes - length ids)) ≡ top_classes
  length-rows res ids h = omega (
    arith,
    h,
    length-append (rows_of res ids) (zeros (top_classes - length ids)),
    length-rows_of res ids,
    length-zeros F (top_classes - length ids),
  )

  module _ (np : Sorter F) (res : List F) (many : top_classes < length res)
      (numbers : AllNumbers res) where
    -- The 20 classes, before and after they are put in order, and the others.
    abbrev parted : List ℕ
    parted = np.argpartition res top_classes

    abbrev chosen : List ℕ
    chosen = take top_classes parted

    abbrev ordered : List ℕ
    ordered = gather 0 chosen (np.argsort (gather zero_F res chosen))

    order_perm : Permᴰ (np.argsort (gather zero_F res chosen)) (indices (length chosen))
    order_perm =
        rw (length-gather zero_F res chosen) at (np.argsort_perm (gather zero_F res chosen))

    ordered_perm : Permᴰ ordered chosen
    ordered_perm = gather_perm chosen _ order_perm

    ordered_Falls : Falls res ordered
    ordered_Falls =
        Falls-gather res chosen _
          (AllBelow-perm (length chosen) order_perm
            (AllBelow-from_to 0 (length chosen) (length chosen) (omega arith)))
          (np.argsort_sorted _ (gather-AllNumbers res chosen numbers))

    ordered_NoRepeats : NoRepeats ordered
    ordered_NoRepeats = NoRepeats-perm ordered_perm (
        NoRepeats-take top_classes parted (
          NoRepeats-perm (np.argpartition_perm res top_classes many)
            (NoRepeats-from_to 0 (length res))))

    length-chosen : length chosen ≡ top_classes
    length-chosen = length-take top_classes parted (
        let n = length-perm (np.argpartition_perm res top_classes many) in
        let m = length-from_to 0 (length res) in omega (arith, many))

    in_parted : (c : ℕ) → c < length res → has_id parted c ≡ true
    in_parted c h =
        has_id-perm c (np.argpartition_perm res top_classes many)
        ∙ has_id-from_to 0 (length res) c (omega arith) (omega arith)

    -- Where the scores are numbers and there are more than 20 classes, `_detect_raw` raises nothing
    -- and its rows rank the classes.
    pub detect_raw-IsRanking :
        (rows : List (ℕ × F)) × (detect_raw np res ≡ some rows) × IsRanking res rows
    unfolding detect_raw best_classes
    detect_raw-IsRanking =
        let ids = positive res ordered in
        let few : leb (length res) top_classes ≡ false = ground arith in
        let size = length-positive res ordered in
        let all = length-perm ordered_perm in
        (
          rows_of res ids ++ zeros (top_classes - length ids),
          rw few refl,
          record {
            ids = ids;
            scored = refl;
            size = length-rows res ids (omega (arith, length-chosen, size, all));
            distinct = positive-NoRepeats res ordered ordered_NoRepeats;
            descending =
                rows-Descending res ids _ (positive-AllPositive res ordered)
                  (positive-Falls res ordered ordered_Falls);
            positive_all = positive-AllPositive res ordered;
            complete = λ c h above. complete_of c above (in_parted c h);
          },
        )
      where
        complete_of :
            (c : ℕ)
            → fl.lt zero_F (score_of res c) ≡ true
            → has_id parted c ≡ true
            → (has_id (positive res ordered) c ≡ true)
              ⊎ ((length (positive res ordered) ≡ top_classes)
                  × AllOver res (score_of res c) (positive res ordered))
        complete_of c above m = elim (Bool-cases (has_id chosen c)) [
          | inl e ↦ inl (has_id-positive res ordered c above (has_id-perm c ordered_perm ∙ e))
          | inr e ↦
              let split = ap (λ l. has_id l c) (take-append-drop top_classes parted) ∙ m in
              let both = has_id-append chosen (drop top_classes parted) c in
              let rest : has_id (drop top_classes parted) c ≡ true = ground (arith, split, both) in
              let over = AllOver-perm res _ ordered_perm (
                AllOver-of res chosen _ c (np.argpartition_split res top_classes many numbers)
                  rest) in
              let whole = positive_all_of res _ ordered above over in
              inr (rw whole (length-perm ordered_perm ∙ length-chosen, over))
        ]
