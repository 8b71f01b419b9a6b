-- ===== src/Snippet/History.antt =====
-- Histories of calls of one `SnippetRecorder` of snippet.py, with what the callers have seen of it:
-- the chunks fed in, the identifiers handed out, the notices returned and the events saved.
use bark_detector.Prelude.{
  ◌≡◌, String, Bool, false, Option, none, some, List, [], ◌∷◌, ◌++◌, contains,
}
use bark_detector.Float.{Float}
use bark_detector.AudioFormat.{Bytes}
use bark_detector.Snippet.{
  SnippetRecorder, ActiveCapture, DetectionTrigger, DetectionEvent, WavFile, Outcome, returned,
  raised, trigger, notify, add_chunk,
}

pub data Call (F : Type 0) : Type 0 where
  -- label, score, the time, and the identifier that `uuid4` would give
  trigger_call : String → F → F → String → Call F
  notify_call : String → F → F → Call F
  -- a chunk, and whether a file can be written in this call
  chunk_call : Bytes → Bool → Call F

pub record History (F : Type 0) : Type 0 where
  pub recorder : SnippetRecorder F
  pub heard : List Bytes
  pub used : List String
  pub notices : List String
  pub saved : List (DetectionEvent F × WavFile)

abbrev pub note : {F : Type 0} → Option (DetectionTrigger F) → List String → List String
note none ids = ids
note (some t) ids = t.id ∷ ids

abbrev pub keep :
    {F : Type 0}
    → Outcome (Option (DetectionEvent F × WavFile))
    → List (DetectionEvent F × WavFile)
    → List (DetectionEvent F × WavFile)
keep (returned (some e)) es = e ∷ es
keep (returned none) es = es
keep raised es = es

module _ {F : Type 0} ⦃fl : Float F⦄ where
  unfoldable pub step : History F → Call F → History F
  step h (trigger_call label score now id) =
      let (r, t) = trigger h.recorder label score now id in
      record h { recorder = r; used = note t h.used }
  step h (notify_call label score now) =
      let (r, t) = notify h.recorder label score now in
      record h { recorder = r; notices = note t h.notices }
  step h (chunk_call chunk writable) =
      let (r, o) = add_chunk h.recorder chunk writable in
      record h { recorder = r; heard = h.heard ++ chunk ∷ []; saved = keep o h.saved }

  -- An identifier of `uuid4` was not handed out before.
  abbrev pub IsFresh : History F → Call F → Type 0
  IsFresh h (trigger_call label score now id) = contains h.used id ≡ false
  IsFresh h _ = Unit

  pub data Reach (start : SnippetRecorder F) : History F → Type 0 where
    here :
        Reach start (record { recorder = start; heard = []; used = []; notices = []; saved = [] })
    next : {h : History F} → Reach start h → (c : Call F) → IsFresh h c → Reach start (step h c)

  -- The history whose recorder has the capture `a`. Every history is of this form.
  abbrev pub with_active : History F → Option (ActiveCapture F) → History F
  with_active h a = record h { recorder = record (h.recorder) { active = a } }
