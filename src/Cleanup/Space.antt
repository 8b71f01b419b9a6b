-- ===== src/Cleanup/Space.antt =====
-- The pass of cleanup.py that keeps the files of the events within `max_space_mb`.
use mathlib.Core.List.{Permᴰ}
use bark_detector.Prelude.{
  ℕ, ◌+◌, ◌≤◌, ◌≡◌, refl, ap, sym, ◌∙◌, ◌⊎◌, inl, inr, String, Bool-cases, true, false, Bool, ◌&&◌,
  ◌||◌, Option, none, some, contains, str_eq, eq_iff, eq_refl, if◌then◌else◌, List, [], ◌∷◌, ◌++◌,
  arith, length,
}
use bark_detector.Float.{Float}
use bark_detector.Config.{CleanupConfig}
use bark_detector.EventStore.{
  Row, OrderBy, Ascending, Dated, ids_of, without, list_all_ordered_by_age_asc,
}
use bark_detector.EventStore.Table.{IsTable}
use bark_detector.EventStore.Order.{sum_without, sum_all, sum_without-prefix, delete_ids-rows}
use bark_detector.Cleanup.{
  Disk, Storage, SpaceAlert, remove_file, remove_files, safe_size, delete_rows, total_size, is_off,
  evict, cleanup_by_space,
}
use bark_detector.Cleanup.Evict.{Needed, evict-Evicts}

remove_file-le : (d : Disk) (path q : String) → safe_size (remove_file d path) q ≤ safe_size d q
unfolding safe_size remove_file
remove_file-le d path q = ground arith

removable-remove_file :
    (d : Disk) (path q : String) → (remove_file d path).removable q ≡ d.removable q
unfolding remove_file
removable-remove_file d path q = elim (Bool-cases (d.removable path)) [
  | inl e ↦ rw e refl
  | inr e ↦ rw e refl
]

size-remove_file :
    (d : Disk) (path q : String)
    → (remove_file d path).size q ≡ (if str_eq path q && d.removable q then none else d.size q)
unfolding remove_file
size-remove_file d path q = elim (Bool-cases (str_eq path q)) [
  | inl e ↦ rw (← (eq_iff path q).0 e) (elim (Bool-cases (d.removable path)) [
    | inl can ↦ rw (can, eq_refl path) refl
    | inr cannot ↦ rw (cannot, eq_refl path) refl
  ])
  | inr e ↦ elim (Bool-cases (d.removable path)) [
    | inl can ↦ rw (can, e) refl
    | inr cannot ↦ rw (cannot, e) refl
  ]
]

gone_twice :
    (later now can : Bool) (size : Option ℕ)
    → (if later && can then none else if now && can then none else size)
      ≡ (if (now || later) && can then none else size)
gone_twice true true true size = refl
gone_twice true true false size = refl
gone_twice true false true size = refl
gone_twice true false false size = refl
gone_twice false true true size = refl
gone_twice false true false size = refl
gone_twice false false true size = refl
gone_twice false false false size = refl

module _ {F : Type 0} where
  abbrev pub files_of : List (Row F) → List String
  files_of [] = []
  files_of (row ∷ rows) = row.file ∷ files_of rows

  -- The files of the rows that can be removed are gone, and no other.
  size-remove_files :
      (d : Disk) (rows : List (Row F)) (path : String)
      → (remove_files d rows).size path
        ≡ (if contains (files_of rows) path && d.removable path then none else d.size path)
  unfolding remove_files contains
  size-remove_files d [] path = refl
  size-remove_files d (row ∷ rows) path =
      size-remove_files (remove_file d row.file) rows path
      ∙ rw (removable-remove_file d row.file path, size-remove_file d row.file path)
          (gone_twice (contains (files_of rows) path) (str_eq row.file path) (d.removable path)
            (d.size path))

  remove_files-le :
      (d : Disk) (rows : List (Row F)) (q : String)
      → safe_size (remove_files d rows) q ≤ safe_size d q
  unfolding remove_files
  remove_files-le d [] q = omega arith
  remove_files-le d (row ∷ rows) q =
      omega (arith, remove_files-le (remove_file d row.file) rows q, remove_file-le d row.file q)

  total_size-le :
      (d e : Disk) (rows : List (Row F))
      → ((q : String) → safe_size e q ≤ safe_size d q)
      → total_size e rows ≤ total_size d rows
  unfolding total_size
  total_size-le d e [] h = omega arith
  total_size-le d e (row ∷ rows) h = omega (arith, h row.file, total_size-le d e rows h)

  total_size-sum_all :
      (d : Disk) (rows : List (Row F)) → total_size d rows ≡ sum_all (λ r. safe_size d r.file) rows
  unfolding total_size sum_all
  total_size-sum_all d [] = refl
  total_size-sum_all d (row ∷ rows) = ap (λ n. safe_size d row.file + n) (total_size-sum_all d rows)

  total_size-without :
      (d : Disk) (ids : List ℕ) (rows : List (Row F))
      → total_size d (without ids rows) ≡ sum_without (λ r. safe_size d r.file) ids rows
  unfolding total_size without sum_without
  total_size-without d ids [] = refl
  total_size-without d ids (row ∷ rows) = ground (arith, total_size-without d ids rows)

  length-without :
      (ids : List ℕ) (rows : List (Row F))
      → length (without ids rows) ≡ sum_without (λ r. 1) ids rows
  unfolding without sum_without
  length-without ids [] = refl
  length-without ids (row ∷ rows) = ground (arith, length-without ids rows)

  nil_of_length : (rows : List (Row F)) → length rows ≡ 0 → rows ≡ []
  nil_of_length [] h = refl
  nil_of_length (r ∷ rows) h = absurd (omega arith)

module _ {F : Type 0} ⦃fl : Float F⦄ (sql : OrderBy fl) where
  -- What the pass did: `victims` were deleted and `kept` were not.
  pub record Trims (limit : F) (before after : Storage F) (alerts : List SpaceAlert) : Type 0 where
    pub victims : List (Row F)
    pub kept : List (Row F)
    pub split : Permᴰ before.store.rows (victims ++ kept)
    pub by_age : Dated fl before.store.rows → Ascending fl (victims ++ kept)
    pub deleted : after.store.rows ≡ without (ids_of victims) before.store.rows
    pub fits :
        (fl.of_ℕ_le (total_size after.disk after.store.rows) limit ≡ true) ⊎ (after.store.rows ≡ [])
    pub needed : Needed before.disk limit victims kept
    pub erased :
        (path : String)
        → after.disk.size path ≡ (
            if contains (files_of victims) path && before.disk.removable path
            then none
            else before.disk.size path)
    pub alert : alerts ≡ (
        if fl.is_finite limit
        then record {
          used_bytes = total_size before.disk (victims ++ kept);
          max_bytes = fl.trunc limit;
          deleted_count = length victims;
        }
          ∷ []
        else [])

  nil_of_none_left :
      (ids : List ℕ) (rows : List (Row F))
      → sum_without (λ r. 1) ids rows ≡ 0
      → without ids rows ≡ []
  nil_of_none_left ids rows e = nil_of_length (without ids rows) (length-without ids rows ∙ e)

  delete_rows-fits :
      (limit : F) (s : Storage F) (victims kept : List (Row F))
      → IsTable s.store
      → Permᴰ s.store.rows (victims ++ kept)
      → (fl.of_ℕ_le (total_size s.disk kept) limit ≡ true) ⊎ (kept ≡ [])
      → (fl.of_ℕ_le
            (total_size (delete_rows s victims).disk (delete_rows s victims).store.rows)
            limit
          ≡ true)
        ⊎ ((delete_rows s victims).store.rows ≡ [])
  unfolding delete_rows
  delete_rows-fits limit s victims kept t p (inl fits) =
      let left = without (ids_of victims) s.store.rows in
      let same : total_size s.disk left ≡ total_size s.disk kept =
        total_size-without s.disk (ids_of victims) s.store.rows
        ∙ sum_without-prefix (λ r. safe_size s.disk r.file) victims kept p t.distinct
        ∙ sym (total_size-sum_all s.disk kept) in
      let shrunk =
        total_size-le s.disk (remove_files s.disk victims) left (remove_files-le s.disk victims) in
      inl (
        rw (delete_ids-rows s.store (ids_of victims))
          (fl.of_ℕ_le_mono _ _ limit shrunk (rw same fits)))
  delete_rows-fits limit s victims kept t p (inr none_kept) = inr (
      delete_ids-rows s.store (ids_of victims)
      ∙ nil_of_none_left (ids_of victims) s.store.rows (
          sum_without-prefix (λ r. 1) victims kept p t.distinct
          ∙ ap (sum_all (λ r. 1)) none_kept
          ∙ (unfold sum_all in refl)))

  -- On a table with distinct keys, with a limit set and exceeded: the victims are the oldest events
  -- and as few as are enough; their rows go and no other; of the files on the disk, those of victims
  -- that can be removed go and no other; afterwards the files of the events that are left fit the
  -- limit, or no event is left; and one alert says how much was used and how many events went, or none
  -- does where the limit is infinite or no number.
  pub cleanup_by_space-Trims :
      (s : Storage F) (config : CleanupConfig F) (mb : F)
      → IsTable s.store
      → config.max_space_mb ≡ some mb
      → is_off (some mb) ≡ false
      → fl.of_ℕ_le
          (total_size s.disk (list_all_ordered_by_age_asc sql s.store))
          (fl.mul mb (fl.decimal 1000000 0))
        ≡ false
      → Trims
          (fl.mul mb (fl.decimal 1000000 0))
          s
          (cleanup_by_space sql s config).0
          (cleanup_by_space sql s config).1
  unfolding cleanup_by_space list_all_ordered_by_age_asc
  cleanup_by_space-Trims s config mb t set on over =
      let rows = sql.asc s.store.rows in
      let limit = fl.mul mb (fl.decimal 1000000 0) in
      let total = total_size s.disk rows in
      let victims = evict s.disk limit total rows in
      let e = evict-Evicts s.disk limit total rows refl in
      let split : Permᴰ s.store.rows (victims ++ e.kept) =
        rw e.joined (sql.asc_perm s.store.rows) in
      rw (set, on, over)
        (record {
          victims = victims;
          kept = e.kept;
          split = split;
          by_age = λ d. rw e.joined (sql.asc_sorted s.store.rows d);
          deleted = unfold delete_rows in delete_ids-rows s.store (ids_of victims);
          fits = delete_rows-fits limit s victims e.kept t split e.enough;
          needed = e.needed;
          erased = λ path. unfold delete_rows in size-remove_files s.disk victims path;
          alert = rw e.joined;
        })
