-- ===== src/Cleanup.antt =====
-- cleanup.py: the passes that delete old events and keep the files within a size. The disk is a
-- map from paths to sizes, with the files that can be removed; what is sent to MQTT comes out.
pub mod Evict
pub mod Age
pub mod Space
mod Tests
use bark_detector.Prelude.{
  ℕ, ◌+◌, ◌-◌, ◌*◌, String, Bool, true, false, not, ◌&&◌, Option, none, some, List, [], ◌∷◌, length,
  str_eq, if◌then◌else◌,
}
use bark_detector.Prelude.Int.{ℤ}
use bark_detector.Float.{Float}
use bark_detector.Config.{CleanupConfig}
use bark_detector.EventStore.{
  Row, EventStore, OrderBy, ids_of, count, delete_ids, list_all_ordered_by_age_asc,
}

pub record Disk : Type 0 where
  -- `none` where there is no file
  pub size : String → Option ℕ
  pub removable : String → Bool

pub record Storage (F : Type 0) : Type 0 where
  pub store : EventStore F
  pub disk : Disk

-- The arguments of `publish_space_alert`.
pub record SpaceAlert : Type 0 where
  pub used_bytes : ℕ
  pub max_bytes : ℤ
  pub deleted_count : ℕ

-- `os.remove`, whose failures are logged
unfoldable pub remove_file : Disk → String → Disk
remove_file d path =
    if d.removable path
    then record d { size = λ p. if str_eq path p then none else d.size p }
    else d

-- `os.path.getsize`, or 0 where it raises
unfoldable pub safe_size : Disk → String → ℕ
safe_size d path = elim (d.size path) [ none ↦ 0 | some n ↦ n ]

module _ {F : Type 0} where
  remove_files : Disk → List (Row F) → Disk
  remove_files d [] = d
  remove_files d (row ∷ rows) = remove_files (remove_file d row.file) rows

  unfoldable pub delete_rows : Storage F → List (Row F) → Storage F
  unfolding remove_files
  delete_rows s rows = record {
    store = delete_ids s.store (ids_of rows);
    disk = remove_files s.disk rows;
  }

  -- `sum(sizes.values())`, with one entry for each row
  unfoldable pub total_size : Disk → List (Row F) → ℕ
  total_size d [] = 0
  total_size d (row ∷ rows) = safe_size d row.file + total_size d rows

module _ {F : Type 0} ⦃fl : Float F⦄ where
  -- `not limit`, where a limit is None or a number
  pub is_off : Option F → Bool
  is_off none = true
  is_off (some x) = fl.le x (fl.decimal 0 0) && fl.le (fl.decimal 0 0) x

  unfoldable pub older_than : F → List (Row F) → List (Row F)
  older_than cutoff [] = []
  older_than cutoff (row ∷ rows) =
      let rest = older_than cutoff rows in if fl.lt row.timestamp cutoff then row ∷ rest else rest

  -- The rows that are deleted to bring the total down, oldest first.
  unfoldable pub evict : Disk → F → ℕ → List (Row F) → List (Row F)
  evict d max_bytes total [] = []
  evict d max_bytes total (row ∷ rows) =
      let rest = evict d max_bytes (total - safe_size d row.file) rows in
      if fl.of_ℕ_le total max_bytes then [] else row ∷ rest

  module _ (sql : OrderBy fl) where
    unfoldable pub cleanup_by_age : Storage F → CleanupConfig F → F → Storage F
    unfolding is_off
    cleanup_by_age s config now = elim config.max_age_days [
      | none ↦ s
      | some days ↦
          if is_off (some days)
          then s
          else let cutoff = fl.sub now (fl.mul days (fl.decimal 86400 0)) in
            delete_rows s (older_than cutoff (list_all_ordered_by_age_asc sql s.store))
    ]

    -- No alert is sent where `int(max_bytes)` raises, which is logged.
    unfoldable pub cleanup_by_space : Storage F → CleanupConfig F → Storage F × List SpaceAlert
    unfolding is_off
    cleanup_by_space s config = elim config.max_space_mb [
      | none ↦ (s, [])
      | some mb ↦
          if is_off (some mb)
          then (s, [])
          else let max_bytes = fl.mul mb (fl.decimal 1000000 0) in
            let rows = list_all_ordered_by_age_asc sql s.store in
            let total = total_size s.disk rows in
            if fl.of_ℕ_le total max_bytes
            then (s, [])
            else let victims = evict s.disk max_bytes total rows in
              (
                delete_rows s victims,
                if fl.is_finite max_bytes
                    then record {
                      used_bytes = total;
                      max_bytes = fl.trunc max_bytes;
                      deleted_count = length victims;
                    }
                      ∷ []
                    else [],
              )
    ]

    unfoldable pub run_cleanup : Storage F → CleanupConfig F → F → Storage F × List SpaceAlert
    unfolding cleanup_by_age cleanup_by_space
    run_cleanup s config now = cleanup_by_space (cleanup_by_age s config now) config

pub record Stats : Type 0 where
  pub recordings : ℕ
  pub space_used_bytes : ℕ
  pub space_available_bytes : Option ℕ

sum : List ℕ → ℕ
sum [] = 0
sum (size ∷ sizes) = size + sum sizes

-- The sizes are those of the WAV files that the directory lists; the free space is none where
-- `shutil.disk_usage` raises.
unfoldable pub compute_stats : {F : Type 0} → EventStore F → List ℕ → Option ℕ → Stats
unfolding sum
compute_stats store sizes free = record {
  recordings = count store;
  space_used_bytes = sum sizes;
  space_available_bytes = free;
}
