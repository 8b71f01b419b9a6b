-- ===== src/TestRig/Pools.antt =====
-- The pools of download_audioset.py and the samples that are drawn from them.
use mathlib.Core.List.{Permᴰ}
use mathlib.Core.List.Permᴰ
use mathlib.Core.List.Permᴰ.{nil, cons, swap, trans}
use bark_detector.Prelude.{
  ℕ, ◌≡◌, refl, sym, ap, ◌∙◌, String, Bool, true, false, not, Option, none, some, List, [], ◌∷◌,
  ◌++◌, if◌then◌else◌, contains, eq_iff, arith, ◌⊎◌, Bool-cases, inl, inr,
}
use bark_detector.Snippet.Notices.{Distinct}
use bark_detector.TestRig.{
  Segment, Sampler, pool, is_bark, contains_dog, labelled, contains_any, select_candidates,
  bark_label_id, dog_label_ids,
}

-- The label of a bark is among those of dogs.
bark_label_dog :
    (labels : Option String)
    → labelled (bark_label_id ∷ []) labels ≡ true
    → labelled dog_label_ids labels ≡ true
unfolding labelled contains_any
bark_label_dog none h = cc
bark_label_dog (some s) h = ground arith

module _ {F : Type 0} where
  abbrev pub ytids : List (Segment F) → List String
  ytids [] = []
  ytids (s ∷ rows) = s.ytid ∷ ytids rows

  -- What the suffix of a clip's name says of its segment.
  abbrev pub IsTrue : Bool → Segment F → Type 0
  IsTrue true s = is_bark s ≡ true
  IsTrue false s = contains_dog s ≡ false

  -- The segment, with its labels, is a row of the index.
  abbrev pub IsRow : List (Segment F) → Segment F → Type 0
  IsRow [] s = ⊥
  IsRow (row ∷ index) s = (s ≡ row) ⊎ IsRow index s

  -- The segments are rows of the index, of which that is true.
  abbrev pub AllTrue : List (Segment F) → Bool → List (Segment F) → Type 0
  AllTrue index flag [] = Unit
  AllTrue index flag (s ∷ rows) = (IsTrue flag s × IsRow index s) × AllTrue index flag rows

  pub bark_dog : (s : Segment F) → is_bark s ≡ true → contains_dog s ≡ true
  bark_dog s h = bark_label_dog s.positive_labels h

  pub contains-pool :
      (want : Bool) (index : List (Segment F)) (x : String)
      → contains (ytids index) x ≡ false
      → contains (ytids (pool want index)) x ≡ false
  unfolding pool contains
  contains-pool want [] x h = refl
  contains-pool want (s ∷ index) x h = ground (arith, contains-pool want index x)

  pub pool-Distinct :
      (want : Bool) (index : List (Segment F))
      → Distinct (ytids index)
      → Distinct (ytids (pool want index))
  unfolding pool
  pool-Distinct want [] d = tt
  pool-Distinct want (s ∷ index) d =
      elim (Bool-cases (if want then is_bark s else not (contains_dog s))) [
        | inl e ↦ rw e (contains-pool want index s.ytid d.0, pool-Distinct want index d.1)
        | inr e ↦ rw e (pool-Distinct want index d.1)
      ]

  pool-AllTrue_from :
      (whole : List (Segment F)) (want : Bool) (index : List (Segment F))
      → ((s : Segment F) → IsRow index s → IsRow whole s)
      → AllTrue whole want (pool want index)
  unfolding pool
  pool-AllTrue_from whole want [] sub = tt
  pool-AllTrue_from whole true (s ∷ index) sub =
      let rest = pool-AllTrue_from whole true index (λ x r. sub x (inr r)) in
      elim (Bool-cases (is_bark s)) [
        | inl e ↦ rw e ((e, sub s (inl refl)), rest)
        | inr e ↦ rw e rest
      ]
  pool-AllTrue_from whole false (s ∷ index) sub =
      let rest = pool-AllTrue_from whole false index (λ x r. sub x (inr r)) in
      elim (Bool-cases (contains_dog s)) [
        | inl e ↦ rw e rest
        | inr e ↦ rw e ((e, sub s (inl refl)), rest)
      ]

  pub pool-AllTrue : (want : Bool) (index : List (Segment F)) → AllTrue index want (pool want index)
  pool-AllTrue want index = pool-AllTrue_from index want index (λ s r. r)

  pub pools_apart :
      (index : List (Segment F)) (x : String)
      → Distinct (ytids index)
      → contains (ytids (pool true index)) x ≡ true
      → contains (ytids (pool false index)) x ≡ false
  unfolding pool contains
  pools_apart [] x d h = refl
  pools_apart (s ∷ index) x d h = ground (
    arith,
    pools_apart index x d.1,
    bark_dog s,
    eq_iff s.ytid x,
    contains-pool true index s.ytid d.0,
    contains-pool false index s.ytid d.0,
  )

  -- What holds of a table holds of a sample.
  pub contains-perm :
      {xs ys : List (Segment F)} (x : String)
      → Permᴰ xs ys
      → contains (ytids xs) x ≡ contains (ytids ys) x
  unfolding contains
  contains-perm x nil = refl
  contains-perm x (cons {a} {b} e p) =
      ground (arith, contains-perm x p, ap (λ (s : Segment F). s.ytid) e)
  contains-perm x (swap {a} {b} {a'} {b'} {l} e f) =
      ground (arith, ap (λ (s : Segment F). s.ytid) e, ap (λ (s : Segment F). s.ytid) f)
  contains-perm x (trans p q) = contains-perm x p ∙ contains-perm x q

  pub Distinct-perm :
      {xs ys : List (Segment F)} → Permᴰ xs ys → Distinct (ytids xs) → Distinct (ytids ys)
  unfolding contains
  Distinct-perm nil d = d
  Distinct-perm (cons {a} {b} {l₁} e p) d = (
    sym (contains-perm b.ytid p) ∙ ap (λ (s : Segment F). contains (ytids l₁) s.ytid) (sym e) ∙ d.0,
    Distinct-perm p d.1,
  )
  Distinct-perm (swap {a} {b} {a'} {b'} {l} e f) d = (
    ground (
      arith,
      d.0,
      d.1.0,
      eq_iff b.ytid a.ytid,
      eq_iff b'.ytid a'.ytid,
      ap (λ (s : Segment F). s.ytid) e,
      ap (λ (s : Segment F). s.ytid) f,
    ),
    (
      ground
          (arith, d.0, d.1.0, ap (λ (s : Segment F). s.ytid) e, ap (λ (s : Segment F). s.ytid) f),
      d.1.1,
    ),
  )
  Distinct-perm (trans p q) d = Distinct-perm q (Distinct-perm p d)

  pub AllTrue-perm :
      {xs ys : List (Segment F)} (index : List (Segment F)) (flag : Bool)
      → Permᴰ xs ys
      → AllTrue index flag xs
      → AllTrue index flag ys
  AllTrue-perm index flag nil h = h
  AllTrue-perm index flag (cons e p) h = (rw e at (h.0), AllTrue-perm index flag p h.1)
  AllTrue-perm index flag (swap e f) h = (rw f at (h.1.0), (rw e at (h.0), h.1.1))
  AllTrue-perm index flag (trans p q) h = AllTrue-perm index flag q (AllTrue-perm index flag p h)

  contains-append :
      (xs ys : List (Segment F)) (x : String)
      → contains (ytids (xs ++ ys)) x ≡ false
      → contains (ytids xs) x ≡ false
  unfolding contains
  contains-append [] ys x h = refl
  contains-append (s ∷ xs) ys x h = ground (arith, contains-append xs ys x)

  Distinct-append : (xs ys : List (Segment F)) → Distinct (ytids (xs ++ ys)) → Distinct (ytids xs)
  Distinct-append [] ys d = tt
  Distinct-append (s ∷ xs) ys d = (contains-append xs ys s.ytid d.0, Distinct-append xs ys d.1)

  AllTrue-append :
      (index : List (Segment F)) (flag : Bool) (xs ys : List (Segment F))
      → AllTrue index flag (xs ++ ys)
      → AllTrue index flag xs
  AllTrue-append index flag [] ys h = tt
  AllTrue-append index flag (s ∷ xs) ys h = (h.0, AllTrue-append index flag xs ys h.1)

  module _ (sampler : Sampler F) (index : List (Segment F)) (want : Bool) (count seed : ℕ) where
    -- The candidates with the rest of their pool.
    candidates_of :
        (rest : List (Segment F)) × Permᴰ
          (select_candidates sampler index want count seed ++ rest)
          (pool want index)
    unfolding select_candidates
    candidates_of = sampler.sample_of _ seed (pool want index) (omega arith)

    pub candidates-Distinct :
        Distinct (ytids index) → Distinct (ytids (select_candidates sampler index want count seed))
    candidates-Distinct d =
        let (rest, p) = candidates_of in
        Distinct-append _ rest (Distinct-perm (Permᴰ.symm p) (pool-Distinct want index d))

    pub candidates-AllTrue : AllTrue index want (select_candidates sampler index want count seed)
    candidates-AllTrue =
        let (rest, p) = candidates_of in
        AllTrue-append index want _ rest
          (AllTrue-perm index want (Permᴰ.symm p) (pool-AllTrue want index))

    pub contains-candidates :
        (x : String)
        → contains (ytids (pool want index)) x ≡ false
        → contains (ytids (select_candidates sampler index want count seed)) x ≡ false
    contains-candidates x h =
        let (rest, p) = candidates_of in contains-append _ rest x (contains-perm x p ∙ h)

  -- A segment that may be drawn for a bark is not drawn for a negative.
  pub candidates_apart :
      (sampler : Sampler F) (index : List (Segment F)) (barks negatives seed : ℕ) (x : String)
      → Distinct (ytids index)
      → contains (ytids (select_candidates sampler index true barks seed)) x ≡ true
      → contains (ytids (select_candidates sampler index false negatives seed)) x ≡ false
  candidates_apart sampler index barks negatives seed x d h =
      contains-candidates sampler index false negatives seed x
        (elim (Bool-cases (contains (ytids (pool true index)) x)) [
          | inl e ↦ pools_apart index x d e
          | inr e ↦ absurd (let f = contains-candidates sampler index true barks seed x e in cc)
        ])
