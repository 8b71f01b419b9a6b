-- ===== src/AudioSource.antt =====
-- audio_source.py: ffmpeg as a source of chunks, with the thread that reads from it, `run` of
-- worker.py, and the controller that stops it. A Popen object is a number; `stop` leaves its process
-- ended, and one that ends by itself counts as running until then.
pub mod Processes
pub mod Stopping
pub mod Chunks
mod Tests
use bark_detector.Prelude.{
  ℕ, suc, String, Bool, true, false, Option, none, some, List, [], ◌∷◌, ◌++◌, ◌==◌, length, ltb,
  show_ℕ, str_eq, if◌then◌else◌,
}
use bark_detector.AudioFormat.{Bytes, audio_sample_rate, chunk_bytes}
use bark_detector.Config.{SourceConfig}
use bark_detector.WsHub.{discard}

-- What ffmpeg is told of the input, by the type of the source.
abbrev pub input_format : Bool → String → List String
input_format windows type =
    if str_eq type "device"
    then "-f" ∷ (if windows then "dshow" else "alsa") ∷ []
    else if str_eq type "rtsp"
    then "-rtsp_transport" ∷ "tcp" ∷ []
    else if str_eq type "esphome_tcp"
    then "-f" ∷ "s16le" ∷ "-ar" ∷ show_ℕ audio_sample_rate ∷ "-ac" ∷ "1" ∷ []
    else []

abbrev pub output_format : List String
output_format =
    "-threads"
    ∷ "1"
    ∷ "-f"
    ∷ "s16le"
    ∷ "-ar"
    ∷ show_ℕ audio_sample_rate
    ∷ "-ac"
    ∷ "1"
    ∷ "-y"
    ∷ "pipe:"
    ∷ []

-- The command for a type, a path, input arguments and the path of ffmpeg.
unfoldable pub build_ffmpeg_command : Bool → String → String → List String → String → List String
build_ffmpeg_command windows type path input_args ffmpeg_path =
    (ffmpeg_path ∷ "-vn" ∷ "-threads" ∷ "1" ∷ [])
    ++ (input_format windows type ++ (input_args ++ ("-i" ∷ path ∷ output_format)))

-- `_build_command`
unfoldable pub build_command : {F : Type 0} → Bool → SourceConfig F → String → List String
build_command windows source ffmpeg_path =
    build_ffmpeg_command windows source.type source.path source.input_args ffmpeg_path

-- Where the thread of the worker stands: at `start`, at the loop's test, at the two looks that
-- `read_chunk` takes at `self.process`, at the read from a process, with a chunk, in `_restart`
-- before its `stop`, its test and its `start`, at the last `stop`, or at its end, which is a crash if
-- something raised.
pub data Place : Type 0 where
  launching looping fetching refetching : Place
  waiting : ℕ → Place
  handling : Bytes → Place
  restarting resuming retrying finishing finished crashed : Place

pub record FfmpegAudioSource : Type 0 where
  pub process : Option ℕ
  pub stop_event : Bool
  pub place : Place
  -- the processes that were started and not ended, and the next object that Popen makes
  pub running : List ℕ
  pub next_process : ℕ

-- What the outside gives in a step of the thread: whether Popen starts a process, what the read
-- gives, `none` if it raises, whether `poll` finds that the process has exited, and whether
-- `_process_chunk` returns.
pub record Turn : Type 0 where
  pub starts : Bool
  pub read : Option Bytes
  pub exited : Bool
  pub handles : Bool

pub init : FfmpegAudioSource
init = record {
  process = none;
  stop_event = false;
  place = launching;
  running = [];
  next_process = 0;
}

abbrev pub move : FfmpegAudioSource → Place → FfmpegAudioSource
move a place = record a { place = place }

-- `start`, and where the thread goes after it
unfoldable pub start : FfmpegAudioSource → Bool → Place → FfmpegAudioSource
start a starts place =
    if starts
    then record a {
      process = some a.next_process;
      place = place;
      running = a.next_process ∷ a.running;
      next_process = suc a.next_process;
    }
    else move a crashed

unfoldable pub stop_held : FfmpegAudioSource → Option ℕ → FfmpegAudioSource
stop_held a none = a
stop_held a (some p) = record a { process = none; running = discard p a.running }

unfoldable pub stop : FfmpegAudioSource → FfmpegAudioSource
unfolding stop_held
stop a = stop_held a a.process

-- The two looks at `self.process`: where there is one, it is read from.
unfoldable pub fetch : FfmpegAudioSource → Bool → Option ℕ → FfmpegAudioSource
fetch a starts none = start a starts refetching
fetch a starts (some p) = move a (waiting p)

unfoldable pub refetch : Option ℕ → Place
refetch none = looping
refetch (some p) = waiting p

-- Where `read_chunk` goes on after the read.
unfoldable pub after_read : Option Bytes → Bool → Place
after_read none exited = restarting
after_read (some chunk) exited =
    if ltb (length chunk) chunk_bytes
    then if exited then restarting else looping
    else handling chunk

-- A step of the thread.
unfoldable pub step_at : FfmpegAudioSource → Turn → Place → FfmpegAudioSource
unfolding start stop fetch refetch after_read
step_at a turn launching = start a turn.starts looping
step_at a turn looping = move a (if a.stop_event then finishing else fetching)
step_at a turn fetching = fetch a turn.starts a.process
step_at a turn refetching = move a (refetch a.process)
step_at a turn (waiting p) = move a (after_read turn.read turn.exited)
step_at a turn (handling chunk) = move a (if turn.handles then looping else crashed)
step_at a turn restarting = move (stop a) resuming
step_at a turn resuming = move a (if a.stop_event then looping else retrying)
step_at a turn retrying = start a turn.starts looping
step_at a turn finishing = move (stop a) finished
step_at a turn finished = a
step_at a turn crashed = a

unfoldable pub step : FfmpegAudioSource → Turn → FfmpegAudioSource
unfolding step_at
step a turn = step_at a turn a.place

-- What happens to a source: a step of its thread, or one of the controller's calls.
pub data Action : Type 0 where
  run : Turn → Action
  set_stop_event force_stop : Action

unfoldable pub perform : FfmpegAudioSource → Action → FfmpegAudioSource
unfolding step
perform a (run turn) = step a turn
perform a set_stop_event = record a { stop_event = true }
perform a force_stop = stop a

unfoldable pub perform_all : FfmpegAudioSource → List Action → FfmpegAudioSource
perform_all a [] = a
perform_all a (action ∷ actions) = perform_all (perform a action) actions
