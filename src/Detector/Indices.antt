-- ===== src/Detector/Indices.antt =====
-- Indices as numpy takes them, which detector.py orders and filters.
use mathlib.Core.List.{Permᴰ}
use mathlib.Core.List.Permᴰ.{nil, cons, swap, trans}
use bark_detector.Prelude.{
  ℕ, zero, suc, ◌+◌, ◌≤◌, ◌<◌, ◌≡◌, refl, sym, ap, ◌∙◌, true, false, ◌||◌, List, [], ◌∷◌, ◌++◌,
  length, take, ◌==◌, arith, Bool-cases, inl, inr,
}
use bark_detector.EventStore.{has_id}
use bark_detector.Detector.Raw.{from_to, indices, item, gather}

-- Permutations of indices.
pub length-perm : {xs ys : List ℕ} → Permᴰ xs ys → length xs ≡ length ys
length-perm nil = refl
length-perm (cons e p) = ap suc (length-perm p)
length-perm (swap e f) = refl
length-perm (trans p q) = length-perm p ∙ length-perm q

pub has_id-perm : {xs ys : List ℕ} (i : ℕ) → Permᴰ xs ys → has_id xs i ≡ has_id ys i
unfolding has_id
has_id-perm i nil = refl
has_id-perm i (cons e p) = ground (arith, has_id-perm i p, e)
has_id-perm i (swap e f) = ground (arith, e, f)
has_id-perm i (trans p q) = has_id-perm i p ∙ has_id-perm i q

pub length-from_to : (i n : ℕ) → length (from_to i n) ≡ n
length-from_to i zero = refl
length-from_to i (suc n) = ap suc (length-from_to (suc i) n)

pub has_id-from_to : (i n c : ℕ) → i ≤ c → c < i + n → has_id (from_to i n) c ≡ true
unfolding has_id
has_id-from_to i zero c h k = absurd (omega arith)
has_id-from_to i (suc n) c h k = elim (Bool-cases (i == c)) [
  | inl e ↦ rw e refl
  | inr e ↦ rw e (has_id-from_to (suc i) n c (ground arith) (omega arith))
]

abbrev pub AllBelow : ℕ → List ℕ → Type 0
AllBelow n [] = Unit
AllBelow n (i ∷ ids) = (i < n) × AllBelow n ids

pub AllBelow-from_to : (i n m : ℕ) → i + n ≤ m → AllBelow m (from_to i n)
AllBelow-from_to i zero m h = tt
AllBelow-from_to i (suc n) m h = (omega arith, AllBelow-from_to (suc i) n m (omega arith))

pub AllBelow-perm : {xs ys : List ℕ} (n : ℕ) → Permᴰ xs ys → AllBelow n ys → AllBelow n xs
AllBelow-perm n nil h = h
AllBelow-perm n (cons e p) h = (rw (sym e) at (h.0), AllBelow-perm n p h.1)
AllBelow-perm n (swap e f) h = (rw (sym e) at (h.1.0), (rw (sym f) at (h.0), h.1.1))
AllBelow-perm n (trans p q) h = AllBelow-perm n p (AllBelow-perm n q h)

-- What `gather` does with indices.
pub item-gather :
    {A : Type 0} (a : A) (xs : List A) (ids : List ℕ) (p : ℕ)
    → p < length ids
    → item a (gather a xs ids) p ≡ item a xs (item 0 ids p)
unfolding item gather
item-gather a xs [] p h = absurd (omega arith)
item-gather a xs (i ∷ ids) zero h = refl
item-gather a xs (i ∷ ids) (suc p) h = item-gather a xs ids p (omega arith)

pub length-gather :
    {A : Type 0} (a : A) (xs : List A) (ids : List ℕ) → length (gather a xs ids) ≡ length ids
unfolding gather
length-gather a xs [] = refl
length-gather a xs (i ∷ ids) = ap suc (length-gather a xs ids)

gather-perm : {ps qs : List ℕ} (xs : List ℕ) → Permᴰ ps qs → Permᴰ (gather 0 xs ps) (gather 0 xs qs)
unfolding gather
gather-perm xs nil = nil
gather-perm xs (cons e p) = cons (ap (item 0 xs) e) (gather-perm xs p)
gather-perm xs (swap e f) = swap (ap (item 0 xs) e) (ap (item 0 xs) f)
gather-perm xs (trans p q) = trans (gather-perm xs p) (gather-perm xs q)

gather-shift :
    (x : ℕ) (xs : List ℕ) (i n : ℕ)
    → gather 0 (x ∷ xs) (from_to (suc i) n) ≡ gather 0 xs (from_to i n)
unfolding gather item
gather-shift x xs i zero = refl
gather-shift x xs i (suc n) = ap (◌∷◌ (item 0 xs i)) (gather-shift x xs (suc i) n)

gather-indices : (xs : List ℕ) → gather 0 xs (indices (length xs)) ≡ xs
unfolding gather item
gather-indices [] = refl
gather-indices (x ∷ xs) = ap (◌∷◌ x) (gather-shift x xs 0 (length xs) ∙ gather-indices xs)

pub gather_perm : (xs ps : List ℕ) → Permᴰ ps (indices (length xs)) → Permᴰ (gather 0 xs ps) xs
gather_perm xs ps p = rw (gather-indices xs) at (gather-perm xs p)

pub length-take : {A : Type 0} (n : ℕ) (xs : List A) → n ≤ length xs → length (take n xs) ≡ n
length-take zero xs h = refl
length-take (suc n) [] h = absurd (omega arith)
length-take (suc n) (x ∷ xs) h = omega (arith, length-take n xs (omega arith))

pub has_id-append : (xs ys : List ℕ) (c : ℕ) → has_id (xs ++ ys) c ≡ (has_id xs c || has_id ys c)
unfolding has_id
has_id-append [] ys c = refl
has_id-append (x ∷ xs) ys c = ground (arith, has_id-append xs ys c)

-- No index stands twice.
abbrev pub NoRepeats : List ℕ → Type 0
NoRepeats [] = Unit
NoRepeats (i ∷ ids) = (has_id ids i ≡ false) × NoRepeats ids

unlisted : (i n c : ℕ) → c < i → has_id (from_to i n) c ≡ false
unfolding has_id
unlisted i zero c h = refl
unlisted i (suc n) c h = ground (arith, unlisted (suc i) n c (omega arith))

pub NoRepeats-from_to : (i n : ℕ) → NoRepeats (from_to i n)
NoRepeats-from_to i zero = tt
NoRepeats-from_to i (suc n) = (unlisted (suc i) n i (omega arith), NoRepeats-from_to (suc i) n)

pub NoRepeats-perm : {xs ys : List ℕ} → Permᴰ xs ys → NoRepeats ys → NoRepeats xs
unfolding has_id
NoRepeats-perm nil d = d
NoRepeats-perm (cons {a} {b} e p) d = (has_id-perm a p ∙ rw (sym e) at (d.0), NoRepeats-perm p d.1)
NoRepeats-perm (swap {a} {b} {a'} {b'} {l} e f) d =
    (ground (arith, d.0, d.1.0, e, f), (ground (arith, d.0, d.1.0, e, f), d.1.1))
NoRepeats-perm (trans p q) d = NoRepeats-perm p (NoRepeats-perm q d)

has_id-take : (n : ℕ) (xs : List ℕ) (c : ℕ) → has_id xs c ≡ false → has_id (take n xs) c ≡ false
unfolding has_id
has_id-take zero xs c h = refl
has_id-take (suc n) [] c h = refl
has_id-take (suc n) (x ∷ xs) c h = ground (arith, has_id-take n xs c)

pub NoRepeats-take : (n : ℕ) (xs : List ℕ) → NoRepeats xs → NoRepeats (take n xs)
NoRepeats-take zero xs d = tt
NoRepeats-take (suc n) [] d = tt
NoRepeats-take (suc n) (x ∷ xs) d = (has_id-take n xs x d.0, NoRepeats-take n xs d.1)
