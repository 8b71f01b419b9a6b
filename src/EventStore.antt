-- ===== src/EventStore.antt =====
-- event_store.py: the table of events. SQLite is outside: its order of rows with equal timestamps
-- is an argument, with the documented behaviour of ORDER BY.
pub mod Table
pub mod Order
pub mod Sorting
mod Tests
use mathlib.Core.List.{Permᴰ, reverse}
use bark_detector.Prelude.{
  ℕ, suc, ◌+◌, ◌≡◌, String, Bool, true, false, Option, none, some, List, [], ◌∷◌, ◌++◌, length,
  take, ltb, ◌==◌, ◌||◌, if◌then◌else◌,
}
use bark_detector.Prelude.Int.{ℤ, pos, negsuc}
use bark_detector.Float.{Float}
use bark_detector.Snippet.{DetectionEvent}

pub record Row (F : Type 0) : Type 0 where
  pub id : ℕ
  pub source : String
  pub label : String
  pub score : F
  pub timestamp : F
  pub duration : F
  pub file : String

-- The table `events`; `last_id` is the sequence of its AUTOINCREMENT key.
pub record EventStore (F : Type 0) : Type 0 where
  pub rows : List (Row F)
  pub last_id : ℕ

abbrev pub empty_store : {F : Type 0} → EventStore F
empty_store = record { rows = []; last_id = 0 }

unfoldable pub has_id : List ℕ → ℕ → Bool
has_id [] i = false
has_id (j ∷ ids) i = j == i || has_id ids i

module _ {F : Type 0} where
  abbrev pub ids_of : List (Row F) → List ℕ
  ids_of [] = []
  ids_of (row ∷ rows) = row.id ∷ ids_of rows

  -- The rows whose identifier is not in the list.
  unfoldable pub without : List ℕ → List (Row F) → List (Row F)
  unfolding has_id
  without ids [] = []
  without ids (row ∷ rows) =
      let rest = without ids rows in if has_id ids row.id then rest else row ∷ rest

  -- The new row and `cur.lastrowid`.
  unfoldable pub add : EventStore F → DetectionEvent F → EventStore F × ℕ
  add store event =
      let id = suc store.last_id in
      (
        record {
          rows =
              store.rows
              ++ record {
                id = id;
                source = event.source;
                label = event.label;
                score = event.score;
                timestamp = event.timestamp;
                duration = event.duration;
                file = event.file;
              }
                ∷ [];
          last_id = id;
        },
        id,
      )

  unfoldable pub count : EventStore F → ℕ
  count store = length store.rows

  unfoldable pub delete_ids : EventStore F → List ℕ → EventStore F
  unfolding without
  delete_ids store [] = store
  delete_ids store (i ∷ ids) = record store { rows = without (i ∷ ids) store.rows }

module _ {F : Type 0} (fl : Float F) where
  abbrev pub NoneEarlier : F → List (Row F) → Type 0
  NoneEarlier t [] = Unit
  NoneEarlier t (row ∷ rows) = (fl.le t row.timestamp ≡ true) × NoneEarlier t rows

  -- by rising timestamps
  abbrev pub Ascending : List (Row F) → Type 0
  Ascending [] = Unit
  Ascending (row ∷ rows) = NoneEarlier row.timestamp rows × Ascending rows

  -- No timestamp is a NaN, which SQLite stores as a NULL that the schema refuses.
  abbrev pub Dated : List (Row F) → Type 0
  Dated [] = Unit
  Dated (row ∷ rows) = (fl.le row.timestamp row.timestamp ≡ true) × Dated rows

  -- `ORDER BY timestamp ASC` gives the same rows by rising timestamps, and DESC the same rows by
  -- falling ones.
  pub record OrderBy : Type 0 where
    pub asc : List (Row F) → List (Row F)
    pub desc : List (Row F) → List (Row F)
    pub asc_perm : (rows : List (Row F)) → Permᴰ rows (asc rows)
    pub asc_sorted : (rows : List (Row F)) → Dated rows → Ascending (asc rows)
    pub desc_perm : (rows : List (Row F)) → Permᴰ rows (desc rows)
    pub desc_sorted : (rows : List (Row F)) → Dated rows → Ascending (reverse (desc rows))

module _ {F : Type 0} ⦃fl : Float F⦄ where
  unfoldable pub before : Option F → List (Row F) → List (Row F)
  before none rows = rows
  before (some t) [] = []
  before (some t) (row ∷ rows) =
      let rest = before (some t) rows in if fl.lt row.timestamp t then row ∷ rest else rest

module _ {F : Type 0} where
  -- SQLite reads a limit below 0 as none at all.
  unfoldable pub limited : ℤ → List (Row F) → List (Row F)
  limited (pos n) rows = take n rows
  limited (negsuc n) rows = rows

module _ {F : Type 0} ⦃fl : Float F⦄ (sql : OrderBy fl) where
  unfoldable pub list_all_ordered_by_age_asc : EventStore F → List (Row F)
  list_all_ordered_by_age_asc store = sql.asc store.rows

  unfoldable pub list_recent : EventStore F → ℤ → Option F → List (Row F)
  unfolding before limited
  list_recent store limit t = limited limit (sql.desc (before t store.rows))
