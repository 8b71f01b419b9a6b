-- ===== src/Worker/Prefilter.antt =====
-- The threshold that worker.py gives the classifier loses no detection that the loop would act on.
use bark_detector.Prelude.{
  ℕ, ◌+◌, ◌≡◌, refl, sym, ◌∙◌, ◌⊎◌, inl, inr, String, true, List, [], ◌∷◌, contains, contains_cases,
  not-contains-nil, arith, Bool-cases, if◌then◌else◌,
}
use bark_detector.Float.{Float}
use bark_detector.Config.{SourceConfig, detection_threshold_for}
use bark_detector.Detector.{detect, AtMost, Descending}
use bark_detector.Detector.Raw.{AllNumbers}
use bark_detector.Worker.{
  SourceWorker, Input, Verdict, skip, below, near_miss, hit, near_floor, least, floors,
  min_threshold_of, min_threshold, verdict, log_near_miss, scan, act, Attempt,
}

module _ {F : Type 0} ⦃fl : Float F⦄ where
  abbrev IsNumber : F → Type 0
  IsNumber x = fl.le x x ≡ true

  abbrev AllAbove : F → List F → Type 0
  AllAbove m [] = Unit
  AllAbove m (x ∷ xs) = (fl.le m x ≡ true) × AllAbove m xs

  abbrev lesser : F → F → F
  lesser x y = if fl.lt y x then y else x

  lesser-le :
      (x y : F)
      → IsNumber x
      → IsNumber y
      → IsNumber (lesser x y) × (fl.le (lesser x y) x ≡ true) × (fl.le (lesser x y) y ≡ true)
  lesser-le x y nx ny = elim (Bool-cases (fl.lt y x)) [
    | inl e ↦ rw e (ny, fl.lt→le y x e, ny)
    | inr e ↦ rw e (nx, nx, fl.not_lt→le y x ny nx e)
  ]

  least-le :
      (x : F) (ys : List F)
      → IsNumber x
      → AllNumbers ys
      → (fl.le (least x ys) x ≡ true) × AllAbove (least x ys) ys
  unfolding least
  least-le x [] nx ns = (nx, tt)
  least-le x (y ∷ ys) nx ns =
      let m = lesser x y in
      let (nm, mx, my) = lesser-le x y nx ns.0 in
      let (small, above) = least-le m ys nm ns.1 in
      (fl.le_trans _ m x small mx, (fl.le_trans _ m y small my, above))

  floor-IsNumber : (s : SourceConfig F) (label : String) → IsNumber (near_floor s label)
  unfolding near_floor
  floor-IsNumber s label =
      let reduced = fl.sub (detection_threshold_for s label) (fl.decimal 2 1) in
      elim (Bool-cases (fl.lt (fl.decimal 1 2) reduced)) [
        | inl e ↦ rw e (fl.lt-refl_right _ _ e)
        | inr e ↦ rw e (fl.decimal-le 1 2 1 2 (omega arith))
      ]

  floors-AllNumbers : (s : SourceConfig F) (labels : List String) → AllNumbers (floors s labels)
  unfolding floors
  floors-AllNumbers s [] = tt
  floors-AllNumbers s (label ∷ labels) = (floor-IsNumber s label, floors-AllNumbers s labels)

  above_floor :
      (s : SourceConfig F) (m : F) (label : String) (labels : List String)
      → AllAbove m (floors s labels)
      → contains labels label ≡ true
      → fl.le m (near_floor s label) ≡ true
  unfolding floors
  above_floor s m label [] a c = absurd (not-contains-nil label c)
  above_floor s m label (l ∷ labels) a c = elim (contains_cases label l labels c) [
    | inl e ↦ rw e at (a.0)
    | inr c' ↦ above_floor s m label labels a.1 c'
  ]

  -- the classifier's threshold is below the near-miss floor of every label that is listened to
  min_threshold-le_floor :
      (s : SourceConfig F) (label : String)
      → contains s.listen label ≡ true
      → fl.le (min_threshold s) (near_floor s label) ≡ true
  unfolding min_threshold
  min_threshold-le_floor s label c = of_labels s.listen c
    where
      of_labels :
          (labels : List String)
          → contains labels label ≡ true
          → fl.le (min_threshold_of s labels) (near_floor s label) ≡ true
      of_labels [] c' = absurd (not-contains-nil label c')
      of_labels (l ∷ labels) c' =
          let (small, above) =
            least-le (near_floor s l) (floors s labels) (floor-IsNumber s l)
              (floors-AllNumbers s labels) in
          above_floor s _ label (l ∷ labels) (small, above) c'

  -- Every detection threshold lies between the floor of the near misses and 1.
  abbrev pub InRange : SourceConfig F → Type 0
  InRange s =
      (label : String)
      → contains s.listen label ≡ true
      → (fl.le (fl.decimal 1 2) (detection_threshold_for s label) ≡ true)
        × (fl.le (detection_threshold_for s label) (fl.decimal 1 0) ≡ true)

  floor-le_threshold :
      (s : SourceConfig F) (label : String)
      → fl.le (fl.decimal 1 2) (detection_threshold_for s label) ≡ true
      → fl.le (detection_threshold_for s label) (fl.decimal 1 0) ≡ true
      → fl.le (near_floor s label) (detection_threshold_for s label) ≡ true
  unfolding near_floor
  floor-le_threshold s label low high =
      let reduced = fl.sub (detection_threshold_for s label) (fl.decimal 2 1) in
      elim (Bool-cases (fl.lt (fl.decimal 1 2) reduced)) [
        | inl e ↦ rw e (fl.sub-le _ _ (fl.decimal-le 0 0 2 1 (omega arith)) high)
        | inr e ↦ rw e low
      ]

  verdict_low :
      (w : SourceWorker F) (label : String) (score : F)
      → InRange w.source
      → fl.lt score (min_threshold w.source) ≡ true
      → (verdict w label score ≡ skip) ⊎ (verdict w label score ≡ below)
  unfolding verdict
  verdict_low w label score ok low = elim (Bool-cases (contains w.source.listen label)) [
    | inr e ↦ inl (rw e)
    | inl e ↦
        let (l, h) = ok label e in
        let under = fl.lt-le_trans score _ _ low (min_threshold-le_floor w.source label e) in
        let missed = fl.lt→not_le score (near_floor w.source label) under in
        let small = fl.lt-le_trans score _ _ under (floor-le_threshold w.source label l h) in
        ground arith
  ]

  pub log_near_miss-source :
      (w : SourceWorker F) (label : String) (now : F)
      → (log_near_miss w label now).source ≡ w.source
  unfolding log_near_miss
  log_near_miss-source w label now = ground arith

  -- Two ways to go on that agree on workers with this source agree after one detection.
  act_cong :
      (v : Verdict) (s : SourceConfig F) (w : SourceWorker F) (input : Input F) (i : ℕ)
      (label : String) (score : F) (f g : SourceWorker F → SourceWorker F × List (Attempt F))
      → w.source ≡ s
      → ((w' : SourceWorker F) → w'.source ≡ s → f w' ≡ g w')
      → act v w input i label score f ≡ act v w input i label score g
  unfolding act
  act_cong skip s w input i label score f g e h = h w e
  act_cong below s w input i label score f g e h = h w e
  act_cong near_miss s w input i label score f g e h = h _ (log_near_miss-source w label _ ∙ e)
  act_cong hit s w input i label score f g e h = refl

  module _ {C : Type 0} (labels : C → String) (input : Input F) where
    -- every raw detection, whatever its score
    unfoldable pub reported : List (C × F) → List (String × F)
    reported [] = []
    reported ((c, score) ∷ raw) = (labels c, score) ∷ reported raw

    abbrev Below : F → List (C × F) → Type 0
    Below limit [] = Unit
    Below limit ((c, score) ∷ raw) = (fl.lt score limit ≡ true) × Below limit raw

    Below-of_AtMost :
        (limit top : F) (raw : List (C × F))
        → fl.lt top limit ≡ true
        → AtMost top raw
        → Below limit raw
    Below-of_AtMost limit top [] h a = tt
    Below-of_AtMost limit top ((c, score) ∷ raw) h a =
        (fl.le-lt_trans score top limit a.0 h, Below-of_AtMost limit top raw h a.1)

    scan_low :
        (s : SourceConfig F) (w : SourceWorker F) (i : ℕ) (raw : List (C × F))
        → w.source ≡ s
        → InRange s
        → Below (min_threshold s) raw
        → scan w input i (reported raw) ≡ (w, [])
    unfolding scan reported
    scan_low s w i [] e ok b = refl
    scan_low s w i ((c, score) ∷ raw) e ok b =
        elim (verdict_low w (labels c) score (rw e ok) (rw e (b.0))) [
          | inl v ↦ rw (v, scan) (scan_low s w (i + 1) raw e ok b.1)
          | inr v ↦ rw (v, scan) (scan_low s w (i + 1) raw e ok b.1)
        ]

    lossless :
        (s : SourceConfig F) (w : SourceWorker F) (i : ℕ) (raw : List (C × F))
        → w.source ≡ s
        → InRange s
        → Descending raw
        → scan w input i (detect labels (min_threshold s) raw) ≡ scan w input i (reported raw)
    unfolding detect scan reported
    lossless s w i [] e ok d = refl
    lossless s w i ((c, score) ∷ raw) e ok d = elim (Bool-cases (fl.lt score (min_threshold s))) [
      | inl low ↦ rw low (
          sym (
            scan_low s w i ((c, score) ∷ raw) e ok
              (low, Below-of_AtMost (min_threshold s) score raw low d.0)))
      | inr high ↦ rw high (
          act_cong (verdict w (labels c) score) s w input i (labels c) score _ _ e
            (λ w' e'. lossless s w' (i + 1) raw e' ok d.1))
    ]

    -- With every detection threshold between 0.01 and 1 and the raw detections by falling score,
    -- the loop does the same on what the classifier reports above `min_threshold` as on all of the
    -- raw detections: the same triggers, notices, state and near-miss log.
    pub prefilter_lossless :
        (w : SourceWorker F) (raw : List (C × F))
        → InRange w.source
        → Descending raw
        → scan w input 0 (detect labels (min_threshold w.source) raw)
          ≡ scan w input 0 (reported raw)
    prefilter_lossless w raw ok d = lossless w.source w 0 raw refl ok d
