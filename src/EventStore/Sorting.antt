-- ===== src/EventStore/Sorting.antt =====
-- An order of the rows of event_store.py as SQLite gives it, at which the examples run: by
-- insertion.
use mathlib.Core.List.{Permᴰ, reverse, reverse-reverse}
use mathlib.Core.List.Permᴰ
use bark_detector.Prelude.{
  ℕ, ◌≡◌, refl, inl, inr, true, List, [], ◌∷◌, leb, arith, Bool-cases, if◌then◌else◌,
}
use bark_detector.Float.Milli.{milli}
use bark_detector.EventStore.{Row, OrderBy, NoneEarlier, Ascending, Dated}

unfoldable pub insert_row : Row ℕ → List (Row ℕ) → List (Row ℕ)
insert_row r [] = r ∷ []
insert_row r (x ∷ xs) =
    let rest = insert_row r xs in if leb r.timestamp x.timestamp then r ∷ x ∷ xs else x ∷ rest

unfoldable pub sort_rows : List (Row ℕ) → List (Row ℕ)
unfolding insert_row
sort_rows [] = []
sort_rows (x ∷ xs) = insert_row x (sort_rows xs)

insert_row-perm : (r : Row ℕ) (xs : List (Row ℕ)) → Permᴰ (r ∷ xs) (insert_row r xs)
unfolding insert_row
insert_row-perm r [] = Permᴰ.refl (r ∷ [])
insert_row-perm r (x ∷ xs) = elim (Bool-cases (leb r.timestamp x.timestamp)) [
  | inl e ↦ rw e (Permᴰ.refl (r ∷ x ∷ xs))
  | inr e ↦ rw e (Permᴰ.trans (Permᴰ.swap refl refl) (Permᴰ.cons refl (insert_row-perm r xs)))
]

pub sort_rows-perm : (xs : List (Row ℕ)) → Permᴰ xs (sort_rows xs)
unfolding sort_rows
sort_rows-perm [] = Permᴰ.nil
sort_rows-perm (x ∷ xs) =
    Permᴰ.trans (Permᴰ.cons refl (sort_rows-perm xs)) (insert_row-perm x (sort_rows xs))

NoneEarlier-trans :
    (t u : ℕ) (xs : List (Row ℕ)) → leb t u ≡ true → NoneEarlier milli u xs → NoneEarlier milli t xs
NoneEarlier-trans t u [] h n = tt
NoneEarlier-trans t u (x ∷ xs) h n =
    (milli.le_trans t u x.timestamp h (n.0), NoneEarlier-trans t u xs h n.1)

NoneEarlier-insert :
    (t : ℕ) (r : Row ℕ) (xs : List (Row ℕ))
    → leb t r.timestamp ≡ true
    → NoneEarlier milli t xs
    → NoneEarlier milli t (insert_row r xs)
unfolding insert_row
NoneEarlier-insert t r [] h n = (h, tt)
NoneEarlier-insert t r (x ∷ xs) h n = elim (Bool-cases (leb r.timestamp x.timestamp)) [
  | inl e ↦ rw e (h, n)
  | inr e ↦ rw e (n.0, NoneEarlier-insert t r xs h n.1)
]

Ascending-insert :
    (r : Row ℕ) (xs : List (Row ℕ)) → Ascending milli xs → Ascending milli (insert_row r xs)
unfolding insert_row
Ascending-insert r [] a = (tt, tt)
Ascending-insert r (x ∷ xs) a = elim (Bool-cases (leb r.timestamp x.timestamp)) [
  | inl e ↦ rw e ((e, NoneEarlier-trans r.timestamp x.timestamp xs e a.0), a)
  | inr e ↦ rw e (NoneEarlier-insert x.timestamp r xs (ground arith) a.0, Ascending-insert r xs a.1)
]

pub sort_rows-Ascending : (xs : List (Row ℕ)) → Dated milli xs → Ascending milli (sort_rows xs)
unfolding sort_rows
sort_rows-Ascending [] d = tt
sort_rows-Ascending (x ∷ xs) d = Ascending-insert x (sort_rows xs) (sort_rows-Ascending xs d.1)

pub reverse_sort-perm : (xs : List (Row ℕ)) → Permᴰ xs (reverse (sort_rows xs))
reverse_sort-perm xs = Permᴰ.trans (sort_rows-perm xs) (Permᴰ.symm (Permᴰ.reverse (sort_rows xs)))

pub reverse_sort-Ascending :
    (xs : List (Row ℕ)) → Dated milli xs → Ascending milli (reverse (reverse (sort_rows xs)))
reverse_sort-Ascending xs d = rw reverse-reverse (sort_rows-Ascending xs d)

abbrev pub by_insertion : OrderBy milli
by_insertion = record {
  asc = sort_rows;
  desc = λ rows. reverse (sort_rows rows);
  asc_perm = sort_rows-perm;
  asc_sorted = sort_rows-Ascending;
  desc_perm = reverse_sort-perm;
  desc_sorted = reverse_sort-Ascending;
}
