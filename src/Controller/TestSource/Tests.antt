-- ===== src/Controller/TestSource/Tests.antt =====
-- A request of controller.py to test a source.
use bark_detector.Prelude.{ℕ, ◌≡◌, refl, String, false, none, some, List, [], ◌∷◌, lookup, contains}
use bark_detector.Float.Milli.{milli}
use bark_detector.Config.{SourceConfig}
use bark_detector.Config.Source.{
  RawSource, ok, build_source_config, built_source, misordered, check_source, check_thresholds,
  is_blank_or_padded, has_slash, has_control,
}
use bark_detector.AudioSource.{build_command}
use bark_detector.Probe.{Launch, launched, report}
use bark_detector.Controller.{no_defaults}
use bark_detector.Controller.TestSource.{probed, test_source, test_source_command}

abbrev yard : RawSource ℕ
yard = record no_defaults {
  name = some "yard";
  type = some "rtsp";
  path = some "rtsp://camera/audio";
}

abbrev yard_source : SourceConfig ℕ
yard_source = record {
  name = "yard";
  type = "rtsp";
  path = "rtsp://camera/audio";
  listen = "bark" ∷ "bow-wow" ∷ "howl" ∷ "yip" ∷ [];
  detection_thresholds = [];
  notify_thresholds = [];
  min_volume = 500000;
  pre_capture = 5000;
  post_capture = 5000;
  input_args = [];
  id = "f0f0f0f0f0f0";
}

abbrev silence : List String → Launch
silence command = launched none ""

yard_test : build_source_config yard no_defaults "f0f0f0f0f0f0" ≡ ok yard_source
unfolding build_source_config built_source misordered check_source check_thresholds
    is_blank_or_padded has_slash has_control contains lookup
yard_test = refl

test_source_command_example :
    test_source false "ffmpeg" silence yard "0123456789ab"
    ≡ probed (report (silence (build_command false yard_source "ffmpeg")))
test_source_command_example =
    test_source_command false "ffmpeg" silence yard "f0f0f0f0f0f0" "0123456789ab" yard_source
      yard_test
