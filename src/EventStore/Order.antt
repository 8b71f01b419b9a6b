-- ===== src/EventStore/Order.antt =====
-- What does not depend on the order of the rows of event_store.py.
use mathlib.Core.List.{Permᴰ}
use mathlib.Core.List.Permᴰ.{nil, cons, swap, trans}
use bark_detector.Prelude.{
  ℕ, ◌+◌, ◌≡◌, refl, ap, sym, ◌∙◌, true, false, List, [], ◌∷◌, ◌++◌, arith, if◌then◌else◌,
}
use bark_detector.EventStore.{Row, EventStore, has_id, ids_of, without, delete_ids}
use bark_detector.EventStore.Table.{DistinctIds}

module _ {F : Type 0} where
  pub has_id-perm :
      {xs ys : List (Row F)} (i : ℕ) → Permᴰ xs ys → has_id (ids_of xs) i ≡ has_id (ids_of ys) i
  unfolding has_id
  has_id-perm i nil = refl
  has_id-perm i (cons {a} {b} e p) = ground (arith, has_id-perm i p, ap (λ (r : Row F). r.id) e)
  has_id-perm i (swap {a} {b} {a'} {b'} {l} e f) =
      ground (arith, ap (λ (r : Row F). r.id) e, ap (λ (r : Row F). r.id) f)
  has_id-perm i (trans p q) = has_id-perm i p ∙ has_id-perm i q

  pub DistinctIds-perm :
      {xs ys : List (Row F)} → Permᴰ xs ys → DistinctIds (ids_of xs) → DistinctIds (ids_of ys)
  unfolding has_id
  DistinctIds-perm nil d = d
  DistinctIds-perm (cons {a} {b} {l₁} e p) d = (
    sym (has_id-perm b.id p) ∙ ap (λ (r : Row F). has_id (ids_of l₁) r.id) (sym e) ∙ d.0,
    DistinctIds-perm p d.1,
  )
  DistinctIds-perm (swap {a} {b} {a'} {b'} {l} e f) d = (
    ground (arith, d.0, d.1.0, ap (λ (r : Row F). r.id) e, ap (λ (r : Row F). r.id) f),
    (ground (arith, d.0, d.1.0, ap (λ (r : Row F). r.id) e, ap (λ (r : Row F). r.id) f), d.1.1),
  )
  DistinctIds-perm (trans p q) d = DistinctIds-perm q (DistinctIds-perm p d)

  -- A sum over the rows that stay does not depend on the order.
  unfoldable pub sum_without : (Row F → ℕ) → List ℕ → List (Row F) → ℕ
  sum_without f ids [] = 0
  sum_without f ids (row ∷ rows) = (if has_id ids row.id then 0 else f row) + sum_without f ids rows

  pub sum_without-perm :
      {xs ys : List (Row F)} (f : Row F → ℕ) (ids : List ℕ)
      → Permᴰ xs ys
      → sum_without f ids xs ≡ sum_without f ids ys
  unfolding sum_without
  sum_without-perm f ids nil = refl
  sum_without-perm f ids (cons {a} {b} {l₁} e p) =
      ap (λ (r : Row F). (if has_id ids r.id then 0 else f r) + sum_without f ids l₁) e
      ∙ ap (λ n. (if has_id ids b.id then 0 else f b) + n) (sum_without-perm f ids p)
  sum_without-perm f ids (swap {a} {b} {a'} {b'} {l} e f') =
      let g : Row F → ℕ = λ r. if has_id ids r.id then 0 else f r in omega (arith, ap g e, ap g f')
  sum_without-perm f ids (trans p q) = sum_without-perm f ids p ∙ sum_without-perm f ids q

  -- no row has a key of the list
  abbrev pub AllOut : List ℕ → List (Row F) → Type 0
  AllOut ids [] = Unit
  AllOut ids (row ∷ rows) = (has_id ids row.id ≡ false) × AllOut ids rows

  pub without_out : (ids : List ℕ) (rows : List (Row F)) → AllOut ids rows → without ids rows ≡ rows
  unfolding without
  without_out ids [] h = refl
  without_out ids (row ∷ rows) h = rw (h.0, without_out ids rows h.1)

  AllOut-cons :
      (v : Row F) (ids : List ℕ) (vs kept : List (Row F))
      → has_id (ids_of (vs ++ kept)) v.id ≡ false
      → AllOut ids kept
      → AllOut (v.id ∷ ids) kept
  unfolding has_id
  AllOut-cons v ids [] [] h o = tt
  AllOut-cons v ids [] (k ∷ kept) h o =
      (ground (arith, o.0), AllOut-cons v ids [] kept (ground arith) o.1)
  AllOut-cons v ids (u ∷ vs) kept h o = AllOut-cons v ids vs kept (ground arith) o

  pub AllOut-nil : (rows : List (Row F)) → AllOut [] rows
  unfolding has_id
  AllOut-nil [] = tt
  AllOut-nil (r ∷ rows) = (refl, AllOut-nil rows)

  pub AllOut-of_distinct :
      (vs kept : List (Row F)) → DistinctIds (ids_of (vs ++ kept)) → AllOut (ids_of vs) kept
  unfolding has_id
  AllOut-of_distinct [] kept d = AllOut-nil kept
  AllOut-of_distinct (v ∷ vs) kept d =
      AllOut-cons v (ids_of vs) vs kept d.0 (AllOut-of_distinct vs kept d.1)

  -- every key of the rows is listed
  abbrev Covers : List ℕ → List (Row F) → Type 0
  Covers ids rows = (i : ℕ) → has_id (ids_of rows) i ≡ true → has_id ids i ≡ true

  sum_without_covered :
      (f : Row F → ℕ) (ids : List ℕ) (vs kept : List (Row F))
      → Covers ids vs
      → sum_without f ids (vs ++ kept) ≡ sum_without f ids kept
  unfolding sum_without has_id
  sum_without_covered f ids [] kept c = refl
  sum_without_covered f ids (v ∷ vs) kept c =
      rw (c v.id (ground arith))
        (omega (arith, sum_without_covered f ids vs kept (λ i h. c i (ground (arith, h)))))

  unfoldable pub sum_all : (Row F → ℕ) → List (Row F) → ℕ
  sum_all f [] = 0
  sum_all f (row ∷ rows) = f row + sum_all f rows

  sum_without_out :
      (f : Row F → ℕ) (ids : List ℕ) (kept : List (Row F))
      → AllOut ids kept
      → sum_without f ids kept ≡ sum_all f kept
  unfolding sum_without sum_all
  sum_without_out f ids [] o = refl
  sum_without_out f ids (k ∷ kept) o = rw (o.0) (ap (λ n. f k + n) (sum_without_out f ids kept o.1))

  -- In any order of the rows, deleting the keys of a prefix leaves the sum over the rest.
  pub sum_without-prefix :
      {rows : List (Row F)} (f : Row F → ℕ) (vs kept : List (Row F))
      → Permᴰ rows (vs ++ kept)
      → DistinctIds (ids_of rows)
      → sum_without f (ids_of vs) rows ≡ sum_all f kept
  sum_without-prefix f vs kept p d =
      sum_without-perm f (ids_of vs) p
      ∙ sum_without_covered f (ids_of vs) vs kept (λ i h. h)
      ∙ sum_without_out f (ids_of vs) kept (AllOut-of_distinct vs kept (DistinctIds-perm p d))

  -- `delete_ids` with no keys skips the statement, which would change nothing.
  pub delete_ids-rows :
      (store : EventStore F) (ids : List ℕ) → (delete_ids store ids).rows ≡ without ids store.rows
  unfolding delete_ids
  delete_ids-rows store [] = sym (without_out [] store.rows (AllOut-nil store.rows))
  delete_ids-rows store (i ∷ ids) = refl
