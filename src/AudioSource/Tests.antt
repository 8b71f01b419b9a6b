-- ===== src/AudioSource/Tests.antt =====
-- Runs of a source of audio_source.py, and its theorems at them.
use bark_detector.Prelude.{
  ℕ, suc, ◌≤◌, ◌≡◌, refl, ap, sym, ◌∙◌, ◌⊎◌, inl, inr, Bool, true, false, Option, none, some, List,
  [], ◌∷◌, arith, if◌then◌else◌, ltb, length, ◌++◌, ◌==◌,
}
use bark_detector.AudioFormat.{Bytes, chunk_bytes}
use bark_detector.WsHub.{discard}
use bark_detector.AudioSource.{
  build_ffmpeg_command, finished, crashed, handling, FfmpegAudioSource, Turn, init, start, stop,
  step, fetch, refetch, after_read, Action, run, set_stop_event, force_stop, perform, perform_all,
}
use bark_detector.AudioSource.Processes.{held, held_only}
use bark_detector.AudioSource.Stopping.{stops_soon}
use bark_detector.AudioSource.Chunks.{handled_whole}

command_test :
    build_ffmpeg_command false "device" "hw:1" ("-thread_queue_size" ∷ "64" ∷ []) "ffmpeg"
    ≡ "ffmpeg" ∷ "-vn" ∷ "-threads" ∷ "1" ∷ "-f" ∷ "alsa" ∷ "-thread_queue_size" ∷ "64" ∷ "-i"
      ∷ "hw:1" ∷ "-threads" ∷ "1" ∷ "-f" ∷ "s16le" ∷ "-ar" ∷ "16000" ∷ "-ac" ∷ "1" ∷ "-y" ∷ "pipe:"
      ∷ []
unfolding build_ffmpeg_command bark_detector.Prelude.Texts.show_ℕ
command_test = refl

-- ffmpeg starts, and exits at once.
abbrev exits : Turn
exits = record { starts = true; read = some []; exited = true; handles = true }

-- The thread sleeps before it starts ffmpeg again when the controller stops it.
abbrev stopped_late : List Action
stopped_late =
    run exits
    ∷ run exits
    ∷ run exits
    ∷ run exits
    ∷ run exits
    ∷ run exits
    ∷ set_stop_event
    ∷ force_stop
    ∷ []

abbrev late : FfmpegAudioSource
unfolding init perform_all perform step start stop fetch refetch after_read
late = perform_all init stopped_late

abbrev more : List Action
more =
    run exits
    ∷ run exits
    ∷ force_stop
    ∷ run exits
    ∷ run exits
    ∷ run exits
    ∷ run exits
    ∷ run exits
    ∷ []

-- It starts ffmpeg once more, comes to its end, and no process is left.
late_test :
    perform_all init (stopped_late ++ more)
    ≡ record { process = none; stop_event = true; place = finished; running = []; next_process = 2 }
unfolding init perform_all perform step start stop fetch refetch after_read discard
late_test = refl

held_only_example :
    let a = perform_all init stopped_late in
    (a.running ≡ held a.process) × (a.place ≡ finished → a.running ≡ [])
held_only_example = held_only stopped_late

late_set : late.stop_event ≡ true
unfolding init perform_all perform step start stop fetch refetch after_read
late_set = refl

stops_soon_example :
    let b = perform_all late more in
    ((b.place ≡ finished) ⊎ (b.place ≡ crashed)) × (b.next_process ≤ suc late.next_process)
stops_soon_example = stops_soon late more late_set (omega arith)

-- A chunk of zeros.
zeros : ℕ → Bytes
zeros ℕ.zero = []
zeros (suc n) = 0 ∷ zeros n

length-zeros : (n : ℕ) → length (zeros n) ≡ n
unfolding zeros
length-zeros ℕ.zero = refl
length-zeros (suc n) = ap suc (length-zeros n)

abbrev reads : Turn
reads = record exits { read = some (zeros chunk_bytes); exited = false }

abbrev reading : List Action
reading = run reads ∷ run reads ∷ run reads ∷ run reads ∷ []

some_eq : {A : Type 0} (a b : A) → some a ≡ some b → a ≡ b
some_eq a b e = cc

reads_most : (chunk : Bytes) → reads.read ≡ some chunk → length chunk ≤ chunk_bytes
reads_most chunk e =
    let same : zeros chunk_bytes ≡ chunk = some_eq (zeros chunk_bytes) chunk e in
    let n : length chunk ≡ chunk_bytes = ap length (sym same) ∙ length-zeros chunk_bytes in
    omega arith

full_read :
    (chunk : Bytes) → length chunk ≡ chunk_bytes → after_read (some chunk) false ≡ handling chunk
unfolding after_read
full_read chunk e = let full : ltb (length chunk) chunk_bytes ≡ false = ground arith in rw full

reading_test : (perform_all init reading).place ≡ handling (zeros chunk_bytes)
unfolding init perform_all perform step start stop fetch refetch
reading_test = full_read (zeros chunk_bytes) (length-zeros chunk_bytes)

handled_whole_example : length (zeros chunk_bytes) ≡ chunk_bytes
handled_whole_example =
    handled_whole reading (zeros chunk_bytes)
      (reads_most, (reads_most, (reads_most, (reads_most, tt)))) reading_test
