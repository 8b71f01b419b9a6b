-- ===== src/Probe/Tests.antt =====
-- Outputs of ffmpeg that probe.py reads, and its theorem at one of them.
use bark_detector.Prelude.{◌≤◌, ◌≡◌, refl, String, true, false, none, some, [], ◌∷◌, str_eq, show_ℕ}
use bark_detector.Probe.{
  launched, characters, last_characters, strip_ffmpeg_banner, failure, report, splitlines,
  error_lines, join_lines, strip,
}
use bark_detector.Probe.Report.{has_audio, report_lem}

abbrev banner : String
banner =
    "ffmpeg version 7\r\n  built with gcc\n  configuration: --x\n  libavutil 59\n\nhw:9: No such device \n"

banner_test : report (launched none banner) ≡ (false, "hw:9: No such device")
unfolding report failure last_characters strip_ffmpeg_banner splitlines error_lines join_lines strip
banner_test = refl

silent_test : report (launched (some []) "") ≡ (false, "no audio received before timeout")
unfolding report failure last_characters strip_ffmpeg_banner splitlines error_lines join_lines strip
silent_test = refl

heard_test : report (launched (some (1 ∷ 0 ∷ [])) banner) ≡ (true, "received 2 bytes of audio")
unfolding report show_ℕ
heard_test = refl

report_lem_example :
    ((report (launched none banner)).0 ≡ false)
    × (has_audio none ≡ false
        → (str_eq (report (launched none banner)).1 "" ≡ false)
          × (characters (report (launched none banner)).1 ≤ 500))
report_lem_example = report_lem none banner
