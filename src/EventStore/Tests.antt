-- ===== src/EventStore/Tests.antt =====
-- Runs of the table of event_store.py, and its theorems at concrete inputs.
use bark_detector.Prelude.{ℕ, ◌≡◌, refl, false, none, some, [], ◌∷◌, map}
use bark_detector.Prelude.Int.{pos}
use bark_detector.Float.Milli.{milli}
use bark_detector.Snippet.{DetectionEvent}
use bark_detector.EventStore.{Row, EventStore, empty_store, add, delete_ids, list_recent, count}
use bark_detector.EventStore.Table.{IsTable, add-IsTable}
use bark_detector.EventStore.Sorting.{by_insertion, sort_rows}

abbrev event : ℕ → DetectionEvent ℕ
event t = record {
  id = "a1";
  source = "kitchen";
  label = "bark";
  score = 800;
  timestamp = t;
  file = "/media/kitchen_bark.wav";
  duration = 1950;
  notified = false;
}

abbrev three : EventStore ℕ
three = (add (add (add empty_store (event 0)).0 (event 1000)).0 (event 2000)).0

-- the test of the repository on ordering, paging and deleting
paging_test :
    (count three ≡ 3)
    × (map (λ (r : Row ℕ). r.timestamp) (list_recent by_insertion three (pos 2) none)
        ≡ 2000 ∷ 1000 ∷ [])
    × (map (λ (r : Row ℕ). r.timestamp) (list_recent by_insertion three (pos 50) (some 2000))
        ≡ 1000 ∷ 0 ∷ [])
    × (count (delete_ids three (1 ∷ [])) ≡ 2)
unfolding add count list_recent delete_ids sort_rows
paging_test = (refl, refl, refl, refl)

three-IsTable : IsTable three
three-IsTable =
    let t0 : IsTable {F = ℕ} empty_store = record { distinct = tt; bounded = tt } in
    let t1 = add-IsTable empty_store (event 0) t0 in
    let t2 = add-IsTable _ (event 1000) t1.0 in (add-IsTable _ (event 2000) t2.0).0
