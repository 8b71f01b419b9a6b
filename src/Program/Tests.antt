-- ===== src/Program/Tests.antt =====
-- A run of main.py, and its theorem at it.
use bark_detector.Prelude.{Bool, List, [], false, refl, some, true, ℕ, ◌∷◌, ◌≡◌}
use bark_detector.Float.Milli.{milli}
use bark_detector.Config.{SourceConfig, default_mqtt}
use bark_detector.Config.Settings.{default_web}
use bark_detector.Snippet.{init as init_recorder}
use bark_detector.Mqtt.Publisher.{init, stop as stop_publisher}
use bark_detector.Controller.{no_defaults}
use bark_detector.Controller.OnDisk.{Change, adding, deleting}
use bark_detector.Program.{Config, config_path}

abbrev yard : SourceConfig ℕ
yard = record {
  name = "yard";
  type = "rtsp";
  path = "rtsp://camera/audio";
  listen = "bark" ∷ [];
  detection_thresholds = [];
  notify_thresholds = [];
  min_volume = 500000;
  pre_capture = 5000;
  post_capture = 5000;
  input_args = [];
  id = "f0f0f0f0f0f0";
}

abbrev config : Config ℕ
config = record {
  mqtt = default_mqtt;
  web = default_web;
  sources = yard ∷ record yard { name = "hall" } ∷ [];
}

-- A deletion, a deletion that is refused, and an addition.
abbrev changes : List (Change ℕ × Bool)
changes =
    (deleting "yard", true)
    ∷ (deleting "attic", true)
    ∷ (adding (record no_defaults { name = some "attic" }) "a1", false)
    ∷ []

-- An argument goes before the environment.
config_paths : (config_path (some "/a.yaml") ("/b.yaml" ∷ []) ≡ "/b.yaml")
unfolding config_path
config_paths = refl
