-- ===== src/Snippet/Tests.antt =====
-- Runs of a recorder of snippet.py, and its theorems at concrete inputs.
use bark_detector.Prelude.{
  ℕ, ◌≡◌, refl, true, false, none, some, [], ◌∷◌, last, contains, join_path,
}
use bark_detector.Prelude.Int.{pos, show_ℤ}
use bark_detector.Float.Milli.{milli}
use bark_detector.AudioFormat.{Bytes}
use bark_detector.Snippet.{
  SnippetRecorder, ActiveCapture, DetectionEvent, WavFile, returned, raised, init, trigger,
  add_chunk, snippet_path,
}
use bark_detector.Snippet.History.{
  History, step, Reach, here, next, trigger_call, notify_call, chunk_call,
}
use bark_detector.Snippet.Audio.{AllPieces, saved-IsPiece}
use bark_detector.Snippet.Notices.{Distinct, Subset, Flagged, announced_once}
use bark_detector.Snippet.Capture.{
  feed, AllQuiet, Saves, trigger_completes, retrigger_completes, write_failure_keeps,
}

abbrev idle : SnippetRecorder ℕ
idle = record {
  source_name = "kitchen";
  snippet_dir = "/media/bark_snippets";
  pre_chunks_max = 2;
  post_chunks_needed = 2;
  pre_buffer = [];
  active = none;
}

abbrev chunk : ℕ → Bytes
chunk n = n ∷ n ∷ []

abbrev capture : ActiveCapture ℕ
capture = record {
  id = "a1";
  label = "bark";
  score = 810;
  timestamp = 12500;
  pre_chunks = chunk 1 ∷ [];
  post_chunks = chunk 2 ∷ [];
  chunks_remaining = pos 2;
  notified = false;
}

abbrev busy : SnippetRecorder ℕ
busy = record idle { pre_buffer = chunk 1 ∷ chunk 2 ∷ []; active = some capture }

-- 1.5 seconds before and 1.95 after are two chunks each
init_test : init "kitchen" "/media/bark_snippets" 1500 1950 ≡ some idle
unfolding init
init_test = refl

path_test : snippet_path busy capture ≡ "/media/bark_snippets/kitchen_bark_12.wav"
unfolding snippet_path join_path show_ℤ
path_test = refl

abbrev start : History ℕ
start = record { recorder = idle; heard = []; used = []; notices = []; saved = [] }

abbrev triggered : History ℕ
triggered = step (step start (chunk_call (chunk 1) true)) (trigger_call "bark" 810 12500 "a1")

abbrev finished : History ℕ
finished =
    step (step (step triggered (notify_call "bark" 810 12600)) (chunk_call (chunk 2) true))
      (chunk_call (chunk 3) true)

fresh_test : contains (step start (chunk_call (chunk 1) true)).used "a1" ≡ false
unfolding step contains
fresh_test = refl

finished_reached : Reach idle finished
finished_reached =
    next
      (next
        (next
          (next (next here (chunk_call (chunk 1) true) tt) (trigger_call "bark" 810 12500 "a1")
            fresh_test)
          (notify_call "bark" 810 12600) tt)
        (chunk_call (chunk 2) true) tt)
      (chunk_call (chunk 3) true) tt

saved-IsPiece_example :
    AllPieces finished.heard finished.saved
    × (finished.recorder.pre_buffer ≡ last idle.pre_chunks_max finished.heard)
saved-IsPiece_example = saved-IsPiece refl refl finished_reached

announced_once_example :
    Distinct finished.notices
    × Subset finished.notices finished.used
    × Flagged finished.notices finished.saved
announced_once_example = announced_once refl finished_reached

abbrev started : SnippetRecorder ℕ
started = (trigger idle "bark" 810 12500 "a1").0

trigger_completes_example :
    ((trigger idle "bark" 810 12500 "a1").1
      ≡ some (record {
        id = "a1";
        source = "kitchen";
        label = "bark";
        score = 810;
        timestamp = 12500;
      }))
    × AllQuiet started (chunk 1 ∷ [])
    × ((add_chunk (feed started (chunk 1 ∷ [])) (chunk 2) true).0.active ≡ none)
    × ((e : DetectionEvent ℕ) × (w : WavFile) × ((add_chunk
            (feed started (chunk 1 ∷ []))
            (chunk 2)
            true).1
          ≡ returned (some (e, w)))
        × Saves e w "a1" "bark" 810 12500 false (chunk 1 ∷ chunk 2 ∷ []))
trigger_completes_example =
    trigger_completes idle "bark" 810 12500 "a1" (chunk 1 ∷ []) (chunk 2) refl refl

abbrev extended : SnippetRecorder ℕ
extended = (trigger busy "howl" 900 13000 "b2").0

retrigger_completes_example :
    ((trigger busy "howl" 900 13000 "b2").1 ≡ none)
    × AllQuiet extended (chunk 3 ∷ [])
    × ((add_chunk (feed extended (chunk 3 ∷ [])) (chunk 4) true).0.active ≡ none)
    × ((e : DetectionEvent ℕ) × (w : WavFile) × ((add_chunk
            (feed extended (chunk 3 ∷ []))
            (chunk 4)
            true).1
          ≡ returned (some (e, w)))
        × Saves e w "a1" "bark" 900 12500 false (chunk 1 ∷ chunk 2 ∷ chunk 3 ∷ chunk 4 ∷ []))
retrigger_completes_example =
    retrigger_completes busy capture "howl" 900 13000 "b2" (chunk 3 ∷ []) (chunk 4) refl refl

abbrev last_wait : ActiveCapture ℕ
last_wait = record capture { chunks_remaining = pos 1 }

abbrev nearly : SnippetRecorder ℕ
nearly = record busy { active = some last_wait }

write_failure_keeps_example :
    ((add_chunk nearly (chunk 3) false).1 ≡ raised)
    × ((add_chunk (add_chunk nearly (chunk 3) false).0 (chunk 4) true).0.active ≡ none)
    × ((e : DetectionEvent ℕ) × (w : WavFile) × ((add_chunk
            (add_chunk nearly (chunk 3) false).0
            (chunk 4)
            true).1
          ≡ returned (some (e, w)))
        × Saves e w "a1" "bark" 810 12500 false (chunk 1 ∷ chunk 2 ∷ chunk 3 ∷ chunk 4 ∷ []))
write_failure_keeps_example = write_failure_keeps nearly last_wait (chunk 3) (chunk 4) refl refl
