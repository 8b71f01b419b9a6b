-- ===== src/EventStore/Table.antt =====
-- The keys of the table of event_store.py.
use bark_detector.Prelude.{
  ℕ, suc, ◌≤◌, ◌≡◌, refl, false, List, [], ◌∷◌, ◌++◌, arith, inl, inr, Bool-cases, ◌==◌, ◌||◌, ◌&&◌,
  not, ◌∙◌,
}
use bark_detector.Snippet.{DetectionEvent}
use bark_detector.EventStore.{Row, EventStore, has_id, ids_of, without, add, delete_ids}

-- No key stands twice.
abbrev pub DistinctIds : List ℕ → Type 0
DistinctIds [] = Unit
DistinctIds (i ∷ ids) = (has_id ids i ≡ false) × DistinctIds ids

abbrev AllUpTo : ℕ → List ℕ → Type 0
AllUpTo n [] = Unit
AllUpTo n (i ∷ ids) = (i ≤ n) × AllUpTo n ids

module _ {F : Type 0} where
  -- The keys are distinct, and none is above the sequence.
  pub record IsTable (store : EventStore F) : Type 0 where
    pub distinct : DistinctIds (ids_of store.rows)
    pub bounded : AllUpTo store.last_id (ids_of store.rows)

  -- a key above all others is new
  has_id_above :
      (n : ℕ) (rows : List (Row F)) → AllUpTo n (ids_of rows) → has_id (ids_of rows) (suc n) ≡ false
  unfolding has_id
  has_id_above n [] b = refl
  has_id_above n (row ∷ rows) b = ground (arith, has_id_above n rows b.1, b.0)

  has_id-append :
      (rows : List (Row F)) (row : Row F) (i : ℕ)
      → has_id (ids_of (rows ++ row ∷ [])) i ≡ (has_id (ids_of rows) i || row.id == i)
  unfolding has_id
  has_id-append [] row i = ground arith
  has_id-append (r ∷ rows) row i = ground (arith, has_id-append rows row i)

  distinct_append :
      (n : ℕ) (rows : List (Row F)) (row : Row F)
      → row.id ≡ suc n
      → DistinctIds (ids_of rows)
      → AllUpTo n (ids_of rows)
      → DistinctIds (ids_of (rows ++ row ∷ []))
  distinct_append n [] row e d b = (unfold has_id in refl, tt)
  distinct_append n (r ∷ rows) row e d b =
      (has_id-append rows row r.id ∙ ground (arith, d.0, b.0), distinct_append n rows row e d.1 b.1)

  bounded_append :
      (n : ℕ) (rows : List (Row F)) (row : Row F)
      → row.id ≡ suc n
      → AllUpTo n (ids_of rows)
      → AllUpTo (suc n) (ids_of (rows ++ row ∷ []))
  bounded_append n [] row e b = (omega arith, tt)
  bounded_append n (r ∷ rows) row e b = (omega (arith, b.0), bounded_append n rows row e b.1)

  -- deleting rows brings no key back
  pub has_id-without :
      (ids : List ℕ) (rows : List (Row F)) (i : ℕ)
      → has_id (ids_of (without ids rows)) i ≡ (has_id (ids_of rows) i && not (has_id ids i))
  unfolding without
  has_id-without ids [] i = refl
  has_id-without ids (row ∷ rows) i = elim (Bool-cases (has_id ids row.id)) [
    | inl e ↦ rw e (ground (arith, has_id-without ids rows i))
    | inr e ↦ rw e (ground (arith, has_id-without ids rows i))
  ]

  distinct_without :
      (ids : List ℕ) (rows : List (Row F))
      → DistinctIds (ids_of rows)
      → DistinctIds (ids_of (without ids rows))
  unfolding without
  distinct_without ids [] d = tt
  distinct_without ids (row ∷ rows) d = elim (Bool-cases (has_id ids row.id)) [
    | inl e ↦ rw e (distinct_without ids rows d.1)
    | inr e ↦
        rw e (has_id-without ids rows row.id ∙ ground (arith, d.0), distinct_without ids rows d.1)
  ]

  bounded_without :
      (n : ℕ) (ids : List ℕ) (rows : List (Row F))
      → AllUpTo n (ids_of rows)
      → AllUpTo n (ids_of (without ids rows))
  unfolding without
  bounded_without n ids [] b = tt
  bounded_without n ids (row ∷ rows) b = elim (Bool-cases (has_id ids row.id)) [
    | inl e ↦ rw e (bounded_without n ids rows b.1)
    | inr e ↦ rw e (b.0, bounded_without n ids rows b.1)
  ]

  -- An insertion into a table whose keys are distinct and at most its sequence keeps them so, under
  -- a key that no row has.
  pub add-IsTable :
      (store : EventStore F) (event : DetectionEvent F)
      → IsTable store
      → IsTable (add store event).0 × (has_id (ids_of store.rows) (add store event).1 ≡ false)
  unfolding add
  add-IsTable store event t = (
    record {
      distinct = distinct_append store.last_id store.rows _ refl t.distinct t.bounded;
      bounded = bounded_append store.last_id store.rows _ refl t.bounded;
    },
    has_id_above store.last_id store.rows t.bounded,
  )

  -- A deletion from a table whose keys are distinct and at most its sequence keeps them so and the
  -- sequence as it is, and removes exactly the rows whose keys are listed.
  pub delete_ids-IsTable :
      (store : EventStore F) (ids : List ℕ)
      → IsTable store
      → IsTable (delete_ids store ids)
        × ((delete_ids store ids).last_id ≡ store.last_id)
        × ((i : ℕ)
            → has_id (ids_of (delete_ids store ids).rows) i
              ≡ (has_id (ids_of store.rows) i && not (has_id ids i)))
  unfolding delete_ids
  delete_ids-IsTable store [] t = (t, refl, λ i. unfold has_id in ground arith)
  delete_ids-IsTable store (j ∷ ids) t = (
    record {
      distinct = distinct_without (j ∷ ids) store.rows t.distinct;
      bounded = bounded_without store.last_id (j ∷ ids) store.rows t.bounded;
    },
    refl,
    has_id-without (j ∷ ids) store.rows,
  )
