-- ===== src/Snippet.antt =====
-- snippet.py: the ring buffer and the capture of one source, and the WAV file that a capture
-- becomes. The clock, the fresh identifiers and whether a file can be written are arguments.
pub mod Ring
pub mod History
pub mod Notices
pub mod Audio
pub mod Capture
mod Tests
use mathlib.Core.List.{flatten}
use bark_detector.Prelude.{
  ℕ, ◌-◌, String, Bool, true, false, not, ◌||◌, Option, none, some, List, [], ◌∷◌, ◌++◌, length,
  drop, concat, join_path, str_eq, if◌then◌else◌,
}
use bark_detector.Prelude.Int.{ℤ, pos, sub_one, is_pos, max_one, show_ℤ}
use bark_detector.Float.{Float}
use bark_detector.AudioFormat.{Bytes, audio_duration, audio_sample_rate}

pub record DetectionTrigger (F : Type 0) : Type 0 where
  pub id : String
  pub source : String
  pub label : String
  pub score : F
  pub timestamp : F

pub record DetectionEvent (F : Type 0) : Type 0 where
  pub id : String
  pub source : String
  pub label : String
  pub score : F
  pub timestamp : F
  pub file : String
  pub duration : F
  pub notified : Bool

pub record ActiveCapture (F : Type 0) : Type 0 where
  pub id : String
  pub label : String
  pub score : F
  pub timestamp : F
  pub pre_chunks : List Bytes
  pub post_chunks : List Bytes
  pub chunks_remaining : ℤ
  pub notified : Bool

pub record SnippetRecorder (F : Type 0) : Type 0 where
  pub source_name : String
  pub snippet_dir : String
  pub pre_chunks_max : ℕ
  pub post_chunks_needed : ℕ
  pub pre_buffer : List Bytes
  pub active : Option (ActiveCapture F)

-- The file that `wave` writes: one channel of 16-bit samples at the sample rate.
pub record WavFile : Type 0 where
  pub path : String
  pub channels : ℕ
  pub sample_width : ℕ
  pub frame_rate : ℕ
  pub frames : Bytes

-- What a method that writes a file does: it returns, or raises what the write raised.
pub data Outcome (A : Type 0) : Type 0 where
  returned : A → Outcome A
  raised : Outcome A

-- `append` of a `deque(maxlen=n)`: the oldest items go.
unfoldable pub append_bounded {ℓ} : {A : Type ℓ} → ℕ → List A → A → List A
append_bounded n xs x = let ys = xs ++ x ∷ [] in drop (length ys - n) ys

unfoldable pub is_capturing : {F : Type 0} → SnippetRecorder F → Bool
is_capturing r = elim r.active [ none ↦ false | some capture ↦ true ]

unfoldable pub active_label : {F : Type 0} → SnippetRecorder F → Option String
active_label r = elim r.active [ none ↦ none | some capture ↦ some capture.label ]

module _ {F : Type 0} ⦃fl : Float F⦄ where
  -- `max(1, math.ceil(seconds / AUDIO_DURATION))`
  pub chunks_for : F → Option ℕ
  chunks_for seconds = elim (fl.ceil (fl.div seconds (audio_duration fl))) [
    | none ↦ none
    | some z ↦ some (max_one z)
  ]

  -- `none` where `math.ceil` raises
  unfoldable pub init : String → String → F → F → Option (SnippetRecorder F)
  unfolding chunks_for
  init source_name snippet_dir pre_capture post_capture = elim (chunks_for pre_capture) [
    | none ↦ none
    | some pre ↦ elim (chunks_for post_capture) [
      | none ↦ none
      | some post ↦ some (record {
        source_name = source_name;
        snippet_dir = snippet_dir;
        pre_chunks_max = pre;
        post_chunks_needed = post;
        pre_buffer = [];
        active = none;
      })
    ]
  ]

  start_capture : SnippetRecorder F → String → F → F → String → ActiveCapture F
  start_capture r label score now fresh_id = record {
    id = fresh_id;
    label = label;
    score = score;
    timestamp = now;
    pre_chunks = r.pre_buffer;
    post_chunks = [];
    chunks_remaining = pos r.post_chunks_needed;
    notified = false;
  }

  -- `now` and `fresh_id` are what `time.time()` and `uuid.uuid4().hex` return in this call.
  unfoldable pub trigger :
      SnippetRecorder F → String → F → F → String → SnippetRecorder F × Option (DetectionTrigger F)
  unfolding start_capture
  trigger r label score now fresh_id = elim r.active [
    | none ↦ (
      record r { active = some (start_capture r label score now fresh_id) },
      some (record {
        id = fresh_id;
        source = r.source_name;
        label = label;
        score = score;
        timestamp = now;
      }),
    )
    | some capture ↦ (
      record r {
        active = some (record capture {
          chunks_remaining = pos r.post_chunks_needed;
          score = if fl.lt capture.score score then score else capture.score;
        });
      },
      none,
    )
  ]

  unfoldable pub notify :
      SnippetRecorder F → String → F → F → SnippetRecorder F × Option (DetectionTrigger F)
  notify r label score now = elim r.active [
    | none ↦ (r, none)
    | some capture ↦ if capture.notified || not (str_eq capture.label label) then (r, none) else (
      record r { active = some (record capture { notified = true }) },
      some (record {
        id = capture.id;
        source = r.source_name;
        label = capture.label;
        score = score;
        timestamp = now;
      }),
    )
  ]

  -- The name of a capture's file holds its label and its start in whole seconds.
  unfoldable pub snippet_path : SnippetRecorder F → ActiveCapture F → String
  snippet_path r capture = join_path r.snippet_dir (
      concat (
        r.source_name
        ∷ "_"
        ∷ capture.label
        ∷ "_"
        ∷ show_ℤ (fl.trunc capture.timestamp)
        ∷ ".wav"
        ∷ []))

  -- The WAV file and the event of a finished capture.
  unfoldable pub finalize : SnippetRecorder F → ActiveCapture F → DetectionEvent F × WavFile
  finalize r capture =
      let all_chunks = capture.pre_chunks ++ capture.post_chunks in
      (
        record {
          id = capture.id;
          source = r.source_name;
          label = capture.label;
          score = capture.score;
          timestamp = capture.timestamp;
          file = snippet_path r capture;
          duration = fl.mul (fl.of_ℕ (length all_chunks)) (audio_duration fl);
          notified = capture.notified;
        },
        record {
          path = snippet_path r capture;
          channels = 1;
          sample_width = 2;
          frame_rate = audio_sample_rate;
          frames = flatten all_chunks;
        },
      )

  -- The capture with one more chunk; it is closed when no chunk remains to be waited for, and stays
  -- open if its file cannot be written.
  extend_capture :
      SnippetRecorder F
      → ActiveCapture F
      → Bool
      → SnippetRecorder F × Outcome (Option (DetectionEvent F × WavFile))
  extend_capture r capture writable =
      if is_pos capture.chunks_remaining
      then (record r { active = some capture }, returned none)
      else if writable
      then (record r { active = none }, returned (some (finalize r capture)))
      else (record r { active = some capture }, raised)

  unfoldable pub add_chunk :
      SnippetRecorder F
      → Bytes
      → Bool
      → SnippetRecorder F × Outcome (Option (DetectionEvent F × WavFile))
  unfolding append_bounded extend_capture
  add_chunk r chunk writable =
      let r' = record r { pre_buffer = append_bounded r.pre_chunks_max r.pre_buffer chunk } in
      elim r.active [
        | none ↦ (r', returned none)
        | some capture ↦
            extend_capture r'
              (record capture {
                post_chunks = capture.post_chunks ++ chunk ∷ [];
                chunks_remaining = sub_one capture.chunks_remaining;
              })
              writable
      ]
