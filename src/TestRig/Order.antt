-- ===== src/TestRig/Order.antt =====
-- The seconds that download_audioset.py asks for, and the order of its clips.
use Prim.Native.Nat.{min}
use bark_detector.Prelude.{
  ℕ, zero, suc, ◌-◌, ◌≤◌, ◌≡◌, refl, sym, ap, append-nil, ◌∙◌, Bool, true, false, List, [], ◌∷◌,
  ◌++◌, length, arith, Bool-cases, inl, inr,
}
use bark_detector.Prelude.Int.{ℤ, pos, negsuc, max_one}
use bark_detector.Float.{Float}
use bark_detector.TestRig.{Segment}
use bark_detector.TestRig.Run.{request_for, duration_of, add_ℕ, only, interleave}

max_one-pos : (z : ℤ) → 1 ≤ max_one z
max_one-pos (pos zero) = omega arith
max_one-pos (pos (suc n)) = omega arith
max_one-pos (negsuc n) = omega arith

module _ {F : Type 0} ⦃fl : Float F⦄ where
  -- Where the length of a segment is a number, what is asked for are one to ten whole seconds from
  -- its start, whatever its end.
  pub request_for-seconds :
      (s : Segment F)
      → (let d = fl.sub s.end_seconds s.start_seconds in fl.le d d ≡ true)
      → (n : ℕ) × (1 ≤ n) × (n ≤ 10) × ((request_for s).to ≡ add_ℕ (request_for s).from n)
  unfolding request_for duration_of
  request_for-seconds s h =
      let long = fl.sub s.end_seconds s.start_seconds in
      let ten : F = fl.decimal 10 0 in
      let ten_ok : fl.le ten ten ≡ true = fl.decimal-le 10 0 10 0 (omega arith) in
      elim (Bool-cases (fl.lt ten long)) [
        | inl e ↦ rw e (_, max_one-pos _, fl.round-le ten 10 (omega arith) ten_ok, refl)
        | inr e ↦ rw e (
          _,
          max_one-pos _,
          fl.round-le long 10 (omega arith) (fl.not_lt→le ten long ten_ok h e),
          refl,
        )
      ]

-- The flags in their order.
abbrev pub flags {ℓ} : {A : Type ℓ} → List (A × Bool) → List Bool
flags [] = []
flags (p ∷ ordered) = p.1 ∷ flags ordered

abbrev pub turns : ℕ → List Bool
turns zero = []
turns (suc n) = true ∷ false ∷ turns n

abbrev pub repeat : ℕ → Bool → List Bool
repeat zero flag = []
repeat (suc n) flag = flag ∷ repeat n flag

-- As many turns of a bark and a negative as both can take, then what is left of the one.
abbrev pub pattern_of : ℕ → ℕ → List Bool
pattern_of b n = turns (min b n) ++ repeat (b - n) true ++ repeat (n - b) false

pattern_of_zero : (n : ℕ) → pattern_of 0 n ≡ repeat n false
pattern_of_zero n =
    let a : min 0 n ≡ 0 = omega arith in
    let b : 0 - n ≡ 0 = omega arith in let c : n - 0 ≡ n = omega arith in rw (a, b, c) refl

pattern_of-barks : (b : ℕ) → pattern_of b 0 ≡ repeat b true
pattern_of-barks b =
    let x : min b 0 ≡ 0 = omega arith in
    let y : 0 - b ≡ 0 = omega arith in
    let z : b - 0 ≡ b = omega arith in rw (x, y, z) (append-nil (repeat b true))

pattern_of-suc : (b n : ℕ) → pattern_of (suc b) (suc n) ≡ true ∷ false ∷ pattern_of b n
pattern_of-suc b n =
    let x : min (suc b) (suc n) ≡ suc (min b n) = omega arith in
    let y : suc b - suc n ≡ b - n = omega arith in
    let z : suc n - suc b ≡ n - b = omega arith in rw (x, y, z) refl

flags-negatives : {A : Type 0} (ns : List A) → flags (interleave [] ns) ≡ repeat (length ns) false
unfolding interleave
flags-negatives [] = refl
flags-negatives (n ∷ ns) = ap (◌∷◌ false) (flags-negatives ns)

flags-barks : {A : Type 0} (bs : List A) → flags (interleave bs []) ≡ repeat (length bs) true
unfolding interleave
flags-barks [] = refl
flags-barks (b ∷ bs) = ap (◌∷◌ true) (flags-barks bs)

flags-interleave :
    {A : Type 0} (bs ns : List A) → flags (interleave bs ns) ≡ pattern_of (length bs) (length ns)
unfolding interleave
flags-interleave [] ns = flags-negatives ns ∙ sym (pattern_of_zero (length ns))
flags-interleave (b ∷ bs) [] = flags-barks (b ∷ bs) ∙ sym (pattern_of-barks (suc (length bs)))
flags-interleave (b ∷ bs) (n ∷ ns) =
    ap (λ l. true ∷ false ∷ l) (flags-interleave bs ns)
    ∙ sym (pattern_of-suc (length bs) (length ns))

only-interleave :
    {A : Type 0} (bs ns : List A)
    → (only true (interleave bs ns) ≡ bs) × (only false (interleave bs ns) ≡ ns)
unfolding only interleave
only-interleave [] [] = (refl, refl)
only-interleave [] (n ∷ ns) = let r = only-interleave [] ns in (r.0, ap (◌∷◌ n) r.1)
only-interleave (b ∷ bs) [] = let r = only-interleave bs [] in (ap (◌∷◌ b) r.0, r.1)
only-interleave (b ∷ bs) (n ∷ ns) =
    let r = only-interleave bs ns in (ap (◌∷◌ b) r.0, ap (◌∷◌ n) r.1)

-- The order of the samples keeps that of the barks and that of the negatives and loses none, and it
-- takes one of each by turns as long as there are both.
pub interleave_lem :
    {A : Type 0} (bs ns : List A)
    → (only true (interleave bs ns) ≡ bs)
      × (only false (interleave bs ns) ≡ ns)
      × (flags (interleave bs ns) ≡ pattern_of (length bs) (length ns))
interleave_lem bs ns = let (b, n) = only-interleave bs ns in (b, n, flags-interleave bs ns)
