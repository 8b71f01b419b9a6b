-- ===== src/Probe/Report.antt =====
-- What a probe of probe.py reports.
use bark_detector.Prelude.{
  ℕ, ◌≤◌, ◌≡◌, refl, String, Bool, true, false, Option, none, some, [], ◌∷◌, str_eq, arith,
  Bool-cases, inl, inr,
}
use bark_detector.AudioFormat.{Bytes}
use bark_detector.Probe.{
  launched, characters, last_characters, strip_ffmpeg_banner, failure, report,
}

characters-last_characters : (n : ℕ) (s : String) → characters (last_characters n s) ≤ n
unfolding last_characters
characters-last_characters n String.[] = omega arith
characters-last_characters n (String.◌∷◌ c s) = ground (arith, characters-last_characters n s)

-- Some bytes arrived.
abbrev pub has_audio : Option Bytes → Bool
has_audio none = false
has_audio (some []) = false
has_audio (some (byte ∷ bytes)) = true

failure_lem :
    (stderr : String)
    → ((failure stderr).0 ≡ false)
      × (str_eq (failure stderr).1 "" ≡ false)
      × (characters (failure stderr).1 ≤ 500)
unfolding failure
failure_lem stderr =
    let message = last_characters 500 (strip_ffmpeg_banner stderr) in
    let most = characters-last_characters 500 (strip_ffmpeg_banner stderr) in
    elim (Bool-cases (str_eq message "")) [
      | inl e ↦ rw e (refl, refl, omega arith)
      | inr e ↦ rw e (refl, e, most)
    ]

-- Once ffmpeg was started, a probe reports success exactly where bytes arrived in time; otherwise
-- its message is not empty and has at most 500 characters, whatever ffmpeg wrote.
pub report_lem :
    (chunk : Option Bytes) (stderr : String)
    → ((report (launched chunk stderr)).0 ≡ has_audio chunk)
      × (has_audio chunk ≡ false
          → (str_eq (report (launched chunk stderr)).1 "" ≡ false)
            × (characters (report (launched chunk stderr)).1 ≤ 500))
unfolding report
report_lem none stderr = let f = failure_lem stderr in (f.0, (λ quiet. (f.1, f.2)))
report_lem (some []) stderr = let f = failure_lem stderr in (f.0, (λ quiet. (f.1, f.2)))
report_lem (some (byte ∷ bytes)) stderr = (refl, (λ quiet. absurd (let c = quiet in cc)))
