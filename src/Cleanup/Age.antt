-- ===== src/Cleanup/Age.antt =====
-- The pass of cleanup.py that deletes what is older than `max_age_days`.
use mathlib.Core.List.{Permᴰ}
use mathlib.Core.List.Permᴰ.{nil, cons, swap, trans}
use bark_detector.Prelude.{
  ℕ, ◌≡◌, refl, ap, sym, ◌∙◌, inl, inr, false, ◌&&◌, ◌||◌, ◌==◌, some, List, [], ◌∷◌, arith,
  Bool-cases, if◌then◌else◌,
}
use bark_detector.Float.{Float}
use bark_detector.Config.{CleanupConfig}
use bark_detector.EventStore.{Row, OrderBy, has_id, ids_of, without, list_all_ordered_by_age_asc}
use bark_detector.EventStore.Table.{DistinctIds, IsTable}
use bark_detector.Cleanup.{Storage, delete_rows, is_off, older_than, cleanup_by_age}
use bark_detector.EventStore.Order.{delete_ids-rows}

module _ {F : Type 0} ⦃fl : Float F⦄ where
  -- The rows that are not older than the cutoff.
  unfoldable pub newer_than : F → List (Row F) → List (Row F)
  newer_than cutoff [] = []
  newer_than cutoff (row ∷ rows) =
      let rest = newer_than cutoff rows in if fl.lt row.timestamp cutoff then rest else row ∷ rest

  module _ (cutoff : F) where
    has_id-older :
        (row : Row F) (rows : List (Row F)) (i : ℕ)
        → has_id (ids_of (older_than cutoff (row ∷ rows))) i ≡ (
            (fl.lt row.timestamp cutoff && row.id == i)
            || has_id (ids_of (older_than cutoff rows)) i)
    unfolding older_than has_id
    has_id-older row rows i = ground arith

    older-perm :
        {xs ys : List (Row F)} (i : ℕ)
        → Permᴰ xs ys
        → has_id (ids_of (older_than cutoff xs)) i ≡ has_id (ids_of (older_than cutoff ys)) i
    older-perm i nil = refl
    older-perm i (cons {a} {b} {l₁} {l₂} e p) =
        has_id-older a l₁ i
        ∙ ground
            (arith, older-perm i p, ap (λ (r : Row F). (fl.lt r.timestamp cutoff && r.id == i)) e)
        ∙ sym (has_id-older b l₂ i)
    older-perm i (swap {a} {b} {a'} {b'} {l} e f) = ground (
      arith,
      has_id-older a (b ∷ l) i,
      has_id-older b l i,
      has_id-older a' (b' ∷ l) i,
      has_id-older b' l i,
      ap (λ (r : Row F). (fl.lt r.timestamp cutoff && r.id == i)) e,
      ap (λ (r : Row F). (fl.lt r.timestamp cutoff && r.id == i)) f,
    )
    older-perm i (trans p q) = older-perm i p ∙ older-perm i q

    -- the list has the keys of exactly the old rows
    abbrev Agree : List ℕ → List (Row F) → Type 0
    Agree ids [] = Unit
    Agree ids (row ∷ rows) = (has_id ids row.id ≡ fl.lt row.timestamp cutoff) × Agree ids rows

    without-Agree :
        (ids : List ℕ) (rows : List (Row F))
        → Agree ids rows
        → without ids rows ≡ newer_than cutoff rows
    unfolding without newer_than
    without-Agree ids [] a = refl
    without-Agree ids (row ∷ rows) a = rw (a.0, without-Agree ids rows a.1)

    Agree-eq :
        (ids js : List ℕ) (rows : List (Row F))
        → ((i : ℕ) → has_id ids i ≡ has_id js i)
        → Agree ids rows
        → Agree js rows
    Agree-eq ids js [] h a = tt
    Agree-eq ids js (row ∷ rows) h a = (sym (h row.id) ∙ a.0, Agree-eq ids js rows h a.1)

    -- an old row has its key among all keys
    older_absent :
        (rows : List (Row F)) (i : ℕ)
        → has_id (ids_of rows) i ≡ false
        → has_id (ids_of (older_than cutoff rows)) i ≡ false
    unfolding has_id
    older_absent [] i h = unfold older_than in refl
    older_absent (row ∷ rows) i h =
        has_id-older row rows i ∙ ground (arith, older_absent rows i (ground arith))

    Agree-cons :
        (row : Row F) (all rows : List (Row F))
        → has_id (ids_of rows) row.id ≡ false
        → Agree (ids_of (older_than cutoff all)) rows
        → Agree (ids_of (older_than cutoff (row ∷ all))) rows
    unfolding has_id
    Agree-cons row all [] h a = tt
    Agree-cons row all (k ∷ rows) h a = (
      has_id-older row all k.id ∙ ground (arith, a.0),
      Agree-cons row all rows (ground arith) a.1,
    )

    Agree-older :
        (rows : List (Row F))
        → DistinctIds (ids_of rows)
        → Agree (ids_of (older_than cutoff rows)) rows
    Agree-older [] d = tt
    Agree-older (row ∷ rows) d = (
      has_id-older row rows row.id ∙ ground (arith, older_absent rows row.id d.0),
      Agree-cons row rows rows d.0 (Agree-older rows d.1),
    )

  -- On a table with distinct keys, and with a maximal age of `days`: the pass leaves exactly the
  -- rows that are not older than `now - days * 86400`, in the table's order, and all rows if
  -- `days` is 0, whichever way SQLite orders equal timestamps.
  pub cleanup_by_age_exact :
      (sql : OrderBy fl) (s : Storage F) (config : CleanupConfig F) (now days : F)
      → IsTable s.store
      → config.max_age_days ≡ some days
      → (cleanup_by_age sql s config now).store.rows ≡ (
          if is_off (some days)
          then s.store.rows
          else newer_than (fl.sub now (fl.mul days (fl.decimal 86400 0))) s.store.rows)
  unfolding cleanup_by_age delete_rows list_all_ordered_by_age_asc
  cleanup_by_age_exact sql s config now days t set = elim (Bool-cases (is_off (some days))) [
    | inl off ↦ rw (set, off)
    | inr on ↦
        let cutoff = fl.sub now (fl.mul days (fl.decimal 86400 0)) in
        let rows = s.store.rows in
        rw (set, on)
          (delete_ids-rows s.store (ids_of (older_than cutoff (sql.asc rows)))
            ∙ without-Agree cutoff _ rows (
                Agree-eq cutoff (ids_of (older_than cutoff rows)) _ rows
                  (λ i. older-perm cutoff i (sql.asc_perm rows))
                  (Agree-older cutoff rows t.distinct)))
  ]
