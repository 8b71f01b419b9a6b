-- ===== src/Controller/OnDisk/Tests.antt =====
-- Requests of controller.py with their files, and the theorem at them.
use bark_detector.Prelude.{ℕ, ◌≡◌, refl, some, List, [], ◌∷◌, lookup}
use bark_detector.Float.Milli.{milli}
use bark_detector.Config.Source.{RawSource}
use bark_detector.Config.Files.{Directory}
use bark_detector.Config.Files.Kept.{content_of}
use bark_detector.Controller.{AppController, no_defaults, find_source}
use bark_detector.Controller.Synced.{IsSynced}
use bark_detector.Controller.OnDisk.{Change, adding, updating, deleting, IsSaved, change_all}
use bark_detector.Controller.OnDisk.Requests.{change_all-IsSaved}

abbrev empty : AppController ℕ
empty = record { sources = []; workers = []; source_status = [] }

abbrev yard : RawSource ℕ
yard = record no_defaults {
  name = some "yard";
  type = some "rtsp";
  path = some "rtsp://camera/audio";
}

-- The yard is added twice, renamed to the hall, and a source that there is not is deleted.
abbrev changes : List (Change ℕ)
changes =
    adding yard "f0f0f0f0f0f0"
    ∷ adding yard "0123456789ab"
    ∷ updating "yard" (record yard { name = some "hall" }) "abababababab"
    ∷ deleting "yard"
    ∷ []

empty-IsSynced : IsSynced empty
unfolding lookup find_source
empty-IsSynced = record { distinct = tt; running = λ name. refl }

empty-IsSaved : IsSaved empty.sources []
unfolding content_of find_source
empty-IsSaved = record { kept = tt; contents = λ name. refl }

change_all-IsSaved_example :
    (new : Directory ℕ) × ((change_all empty (some []) changes).1 ≡ some new)
    × IsSynced (change_all empty (some []) changes).0
    × IsSaved (change_all empty (some []) changes).0.sources new
change_all-IsSaved_example = change_all-IsSaved empty [] changes empty-IsSynced empty-IsSaved
