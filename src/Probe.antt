-- ===== src/Probe.antt =====
-- probe.py: trying a source once, for the settings page. What ffmpeg and its threads give for a
-- command comes in.
pub mod Report
mod Tests
use Prim.Native.Char.{Char, code}
use bark_detector.Prelude.{
  ℕ, suc, ◌+◌, String, Bool, true, false, not, ◌&&◌, ◌||◌, Option, none, some, List, [], ◌∷◌, ◌==◌,
  length, ltb, concat, show_ℕ, str_eq, if◌then◌else◌,
}
use bark_detector.AudioFormat.{Bytes}
use bark_detector.AudioSource.{build_ffmpeg_command}
use bark_detector.Config.Source.{is_space}

-- What comes of a command: Popen's error, or the bytes that were read, `none` if none came in time,
-- and what ffmpeg wrote to its error stream.
pub data Launch : Type 0 where
  failed : String → Launch
  launched : Option Bytes → String → Launch

-- `str.splitlines`: the ends of lines; a return before a newline is no end of its own.
is_line_end : ℕ → Bool
is_line_end c =
    c == 10
    || c == 11
    || c == 12
    || c == 13
    || c == 28
    || c == 29
    || c == 30
    || c == 133
    || c == 8232
    || c == 8233

starts_with_newline : String → Bool
starts_with_newline String.[] = false
starts_with_newline (String.◌∷◌ c s) = code c == 10

add_char : Char → List String → List String
add_char c [] = String.◌∷◌ c String.[] ∷ []
add_char c (line ∷ lines) = String.◌∷◌ c line ∷ lines

unfoldable pub splitlines : String → List String
unfolding is_line_end starts_with_newline add_char
splitlines String.[] = []
splitlines (String.◌∷◌ c s) =
    let rest = splitlines s in
    if code c == 13 && starts_with_newline s
    then rest
    else if is_line_end (code c)
    then "" ∷ rest
    else add_char c rest

-- `str.strip`
strip_left : String → String
strip_left String.[] = String.[]
strip_left (String.◌∷◌ c s) =
    let rest = strip_left s in if is_space (code c) then rest else String.◌∷◌ c s

strip_right : String → String
strip_right String.[] = String.[]
strip_right (String.◌∷◌ c s) =
    let rest = strip_right s in
    if str_eq rest "" && is_space (code c) then String.[] else String.◌∷◌ c rest

unfoldable pub strip : String → String
unfolding strip_left strip_right is_space
strip s = strip_right (strip_left s)

starts_with : String → String → Bool
starts_with String.[] s = true
starts_with (String.◌∷◌ c prefix) String.[] = false
starts_with (String.◌∷◌ c prefix) (String.◌∷◌ d s) = code c == code d && starts_with prefix s

is_banner : String → Bool
unfolding starts_with
is_banner line =
    starts_with "ffmpeg version" line
    || starts_with "built with" line
    || starts_with "configuration:" line
    || starts_with "lib" line

unfoldable pub error_lines : List String → List String
unfolding is_banner strip
error_lines [] = []
error_lines (line ∷ lines) =
    let rest = error_lines lines in
    if not (str_eq (strip line) "") && not (is_banner (strip line)) then line ∷ rest else rest

-- `"\n".join`
unfoldable pub join_lines : List String → String
join_lines [] = ""
join_lines (line ∷ []) = line
join_lines (line ∷ next ∷ lines) = concat (line ∷ "\n" ∷ join_lines (next ∷ lines) ∷ [])

unfoldable pub strip_ffmpeg_banner : String → String
unfolding splitlines error_lines join_lines strip
strip_ffmpeg_banner stderr = strip (join_lines (error_lines (splitlines stderr)))

abbrev pub characters : String → ℕ
characters String.[] = 0
characters (String.◌∷◌ c s) = suc (characters s)

-- `s[-n:]`, for an n above 0
unfoldable pub last_characters : ℕ → String → String
last_characters n String.[] = String.[]
last_characters n (String.◌∷◌ c s) =
    let rest = last_characters n s in if ltb n (suc (characters s)) then rest else String.◌∷◌ c s

unfoldable pub failure : String → Bool × String
unfolding last_characters strip_ffmpeg_banner
failure stderr =
    let message = last_characters 500 (strip_ffmpeg_banner stderr) in
    (false, if str_eq message "" then "no audio received before timeout" else message)

unfoldable pub report : Launch → Bool × String
unfolding failure
report (failed text) = (false, concat ("failed to start ffmpeg: " ∷ text ∷ []))
report (launched none stderr) = failure stderr
report (launched (some []) stderr) = failure stderr
report (launched (some (byte ∷ bytes)) stderr) =
    (true, concat ("received " ∷ show_ℕ (length (byte ∷ bytes)) ∷ " bytes of audio" ∷ []))

-- `launch` is what running a command gives.
unfoldable pub probe_source :
    Bool → String → String → List String → String → (List String → Launch) → Bool × String
unfolding report
probe_source windows type path input_args ffmpeg_path launch =
    report (launch (build_ffmpeg_command windows type path input_args ffmpeg_path))
