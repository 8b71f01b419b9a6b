-- ===== src/Controller/Tests.antt =====
-- Requests to the controller of controller.py, and its theorems at them.
use bark_detector.Prelude.{ℕ, ◌≡◌, refl, String, Option, none, some, List, [], ◌∷◌, lookup, insert}
use bark_detector.Float.Milli.{milli}
use bark_detector.Config.{SourceConfig}
use bark_detector.Config.Source.{RawSource}
use bark_detector.Controller.{
  no_defaults, poll, status_of, poll_one, broadcast_status, publish_status,
}
use bark_detector.Controller.Watchdog.{
  last_of, changes_of, but_connecting, told_of, published_of, seen, poll_lem,
}

abbrev yard_source : SourceConfig ℕ
yard_source = record {
  name = "yard";
  type = "rtsp";
  path = "rtsp://camera/audio";
  listen = "bark" ∷ [];
  detection_thresholds = [];
  notify_thresholds = [];
  min_volume = 500000;
  pre_capture = 5000;
  post_capture = 5000;
  input_args = [];
  id = "f0f0f0f0f0f0";
}

abbrev hall : RawSource ℕ
hall = record no_defaults { name = some "hall"; type = some "device"; path = some "hw:1,0" }

-- A source that has been silent for five seconds is told of once.
silent_test :
    poll {F = ℕ}
      (("yard", "connected") ∷ [])
      (("yard", some 1000, 6000) ∷ ("yard", some 1000, 8000) ∷ [])
    ≡ (
      ("yard", "disconnected") ∷ [],
      broadcast_status "yard" "disconnected" ∷ publish_status "yard" "disconnected" ∷ [],
    )
unfolding poll poll_one status_of lookup insert
silent_test = refl

-- Of another worker nothing is told meanwhile.
abbrev looks : List (String × Option ℕ × ℕ)
looks =
    ("yard", some 1000, 6000)
    ∷ ("hall", none, 6000)
    ∷ ("yard", some 1000, 8000)
    ∷ ("yard", some 7000, 9000)
    ∷ []

poll_lem_example :
    (lookup "yard" (poll {F = ℕ} (("yard", "connected") ∷ []) looks).0
      ≡ last_of (some "connected") (seen "yard" looks))
    × (told_of "yard" (poll {F = ℕ} (("yard", "connected") ∷ []) looks).1
        ≡ changes_of (some "connected") (seen "yard" looks))
    × (published_of "yard" (poll {F = ℕ} (("yard", "connected") ∷ []) looks).1
        ≡ but_connecting (changes_of (some "connected") (seen "yard" looks)))
unfolding lookup
poll_lem_example = poll_lem (("yard", "connected") ∷ []) looks "yard"

-- The yard is lost and comes back.
seen_test : changes_of (some "connected") (seen "yard" looks) ≡ "disconnected" ∷ "connected" ∷ []
seen_test = refl
