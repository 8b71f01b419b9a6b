-- ===== src/Cleanup/Tests.antt =====
-- Runs of the passes of cleanup.py, and their theorems at concrete inputs.
use bark_detector.Prelude.{
  ℕ, ◌≡◌, refl, String, true, false, none, some, [], ◌∷◌, arith, if◌then◌else◌,
}
use bark_detector.Prelude.Int.{pos}
use bark_detector.Float.Milli.{milli}
use bark_detector.Config.{CleanupConfig}
use bark_detector.EventStore.{Row, ids_of, count, delete_ids, list_all_ordered_by_age_asc, has_id}
use bark_detector.EventStore.Table.{IsTable}
use bark_detector.EventStore.Sorting.{by_insertion, sort_rows}
use bark_detector.Cleanup.{
  Storage, safe_size, remove_file, delete_rows, total_size, is_off, older_than, evict,
  cleanup_by_age, cleanup_by_space, run_cleanup, compute_stats,
}
use bark_detector.Cleanup.Age.{newer_than, cleanup_by_age_exact}
use bark_detector.Cleanup.Space.{Trims, cleanup_by_space-Trims}

abbrev row : ℕ → ℕ → String → Row ℕ
row id timestamp file = record {
  id = id;
  source = "kitchen";
  label = "bark";
  score = 800;
  timestamp = timestamp;
  duration = 1000;
  file = file;
}

-- Three files of 1000 bytes, not stored by age.
abbrev three : Storage ℕ
three = record {
  store = record {
    rows = row 1 1000 "1.wav" ∷ row 2 0 "0.wav" ∷ row 3 200000000 "2.wav" ∷ [];
    last_id = 3;
  };
  disk = record { size = λ path. some 1000; removable = λ path. true };
}

-- 2000 bytes and one day
abbrev limits : CleanupConfig ℕ
limits = record { max_age_days = some 1000; max_space_mb = some 2; check_interval_minutes = 15000 }

program : Unit {0}
unfolding cleanup_by_age cleanup_by_space run_cleanup delete_rows remove_file safe_size total_size
    older_than evict list_all_ordered_by_age_asc sort_rows delete_ids has_id newer_than
program = tt

-- the test of the repository on space: the oldest file goes, and the alert says 3000, 2000 and 1
space_test :
    (ids_of (cleanup_by_space by_insertion three limits).0.store.rows ≡ 1 ∷ 3 ∷ [])
    × ((cleanup_by_space by_insertion three limits).0.disk.size "0.wav" ≡ none)
    × ((cleanup_by_space by_insertion three limits).1
        ≡ record { used_bytes = 3000; max_bytes = pos 2000; deleted_count = 1 } ∷ [])
unfolding program
space_test = (refl, refl, refl)

-- a day later than the newest, less a second: only the newest is left
age_test :
    (ids_of (run_cleanup by_insertion three limits 286399000).0.store.rows ≡ 3 ∷ [])
    × ((run_cleanup by_insertion three limits 286399000).1 ≡ [])
unfolding program
age_test = (refl, refl)

three-IsTable : IsTable three.store
unfolding has_id
three-IsTable = record { distinct = (refl, (refl, (refl, tt))); bounded = omega arith }

on_test : is_off {F = ℕ} (some 2) ≡ false
unfolding is_off
on_test = refl

over_test :
    milli.of_ℕ_le
      (total_size three.disk (list_all_ordered_by_age_asc by_insertion three.store))
      (milli.mul 2 (milli.decimal 1000000 0))
    ≡ false
unfolding program
over_test = refl

cleanup_by_space-Trims_example :
    Trims by_insertion
      (milli.mul 2 (milli.decimal 1000000 0))
      three
      (cleanup_by_space by_insertion three limits).0
      (cleanup_by_space by_insertion three limits).1
cleanup_by_space-Trims_example =
    cleanup_by_space-Trims by_insertion three limits 2 three-IsTable refl on_test over_test

cleanup_by_age_exact_example : (cleanup_by_age by_insertion three limits 286399000).store.rows ≡ (
    if is_off {F = ℕ} (some 1000)
    then three.store.rows
    else newer_than (milli.sub 286399000 (milli.mul 1000 (milli.decimal 86400 0))) three.store.rows)
cleanup_by_age_exact_example =
    cleanup_by_age_exact by_insertion three limits 286399000 1000 three-IsTable refl

stats_test :
    compute_stats three.store (96 ∷ 4 ∷ []) none
    ≡ record { recordings = 3; space_used_bytes = 100; space_available_bytes = none }
unfolding compute_stats count
stats_test = refl
