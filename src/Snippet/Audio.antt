-- ===== src/Snippet/Audio.antt =====
-- What the saved files of snippet.py hold: an unbroken piece of the stream, pre-roll included.
use mathlib.Core.List.{flatten}
use bark_detector.Prelude.{
  ℕ, ◌-◌, ◌≤◌, ◌≡◌, refl, sym, ap, str_eq, not, ◌||◌, ◌∙◌, String, Bool, Option, none, some, List,
  [], ◌∷◌, ◌++◌, append_assoc, append-nil, length, last, drop-nil, take, append-last,
  length-last-le, inl, inr, Bool-cases,
}
use bark_detector.Prelude.Int.{is_pos}
use bark_detector.Float.{Float}
use bark_detector.AudioFormat.{Bytes, audio_duration}
use bark_detector.Snippet.{
  SnippetRecorder, ActiveCapture, DetectionEvent, WavFile, trigger, notify, add_chunk, finalize,
  extend_capture,
}
use bark_detector.Snippet.Ring.{append_bounded-last}
use bark_detector.Snippet.History.{
  Call, trigger_call, notify_call, chunk_call, History, step, Reach, here, next, keep, with_active,
}

list_shift :
    (a b c : List Bytes) (x : Bytes) → a ++ (b ++ (c ++ x ∷ [])) ≡ (a ++ (b ++ c)) ++ x ∷ []
list_shift a b c x = simp append_assoc

module _ {F : Type 0} ⦃fl : Float F⦄ where
  -- The capture's audio ends where the stream ends, and its pre-roll fits the buffer.
  record IsTail (cap : ℕ) (heard : List Bytes) (c : ActiveCapture F) : Type 0 where
    older : List Bytes
    joined : older ++ (c.pre_chunks ++ c.post_chunks) ≡ heard
    fits : length c.pre_chunks ≤ cap

  -- The file holds the chunks `clip`, which follow one another in the stream.
  pub record IsPiece (heard : List Bytes) (e : DetectionEvent F) (w : WavFile) : Type 0 where
    pub older : List Bytes
    pub clip : List Bytes
    pub newer : List Bytes
    pub joined : older ++ (clip ++ newer) ≡ heard
    pub frames : w.frames ≡ flatten clip
    pub duration : e.duration ≡ fl.mul (fl.of_ℕ (length clip)) (audio_duration fl)

  abbrev Active : ℕ → List Bytes → Option (ActiveCapture F) → Type 0
  Active cap heard none = Unit
  Active cap heard (some c) = IsTail cap heard c

  abbrev pub AllPieces : List Bytes → List (DetectionEvent F × WavFile) → Type 0
  AllPieces heard [] = Unit
  AllPieces heard ((e, w) ∷ es) = IsPiece heard e w × AllPieces heard es

  record Tracks (cap : ℕ) (h : History F) : Type 0 where
    same_cap : h.recorder.pre_chunks_max ≡ cap
    buffer : h.recorder.pre_buffer ≡ last cap h.heard
    active : Active cap h.heard h.recorder.active
    pieces : AllPieces h.heard h.saved

  AllPieces-append :
      (heard : List Bytes) (x : Bytes) (es : List (DetectionEvent F × WavFile))
      → AllPieces heard es
      → AllPieces (heard ++ x ∷ []) es
  AllPieces-append heard x [] p = tt
  AllPieces-append heard x ((e, w) ∷ es) p = (
    record {
      older = p.0.older;
      clip = p.0.clip;
      newer = p.0.newer ++ x ∷ [];
      joined = list_shift p.0.older p.0.clip p.0.newer x ∙ ap (λ l. l ++ x ∷ []) p.0.joined;
      frames = p.0.frames;
      duration = p.0.duration;
    },
    AllPieces-append heard x es p.1,
  )

  Tracks-trigger :
      (cap : ℕ) (h : History F) (a : Option (ActiveCapture F)) (label : String) (score now : F)
      (id : String)
      → Tracks cap (with_active h a)
      → Tracks cap (step (with_active h a) (trigger_call label score now id))
  unfolding step trigger
  Tracks-trigger cap h none label score now id t = record {
    same_cap = t.same_cap;
    buffer = t.buffer;
    active = record {
      older = take (length h.heard - cap) h.heard;
      joined =
          ap (λ l. take (length h.heard - cap) h.heard ++ l) (append-nil _ ∙ t.buffer)
          ∙ append-last cap h.heard;
      fits = rw (t.buffer) (length-last-le cap h.heard);
    };
    pieces = t.pieces;
  }
  Tracks-trigger cap h (some c) label score now id t = record {
    same_cap = t.same_cap;
    buffer = t.buffer;
    active = record { older = t.active.older; joined = t.active.joined; fits = t.active.fits };
    pieces = t.pieces;
  }

  Tracks-notify :
      (cap : ℕ) (h : History F) (a : Option (ActiveCapture F)) (label : String) (score now : F)
      → Tracks cap (with_active h a)
      → Tracks cap (step (with_active h a) (notify_call label score now))
  unfolding step notify
  Tracks-notify cap h none label score now t = t
  Tracks-notify cap h (some c) label score now t =
      elim (Bool-cases (c.notified || not (str_eq c.label label))) [
        | inl e ↦ rw e t
        | inr e ↦ rw e (record {
          same_cap = t.same_cap;
          buffer = t.buffer;
          active = record {
            older = t.active.older;
            joined = t.active.joined;
            fits = t.active.fits;
          };
          pieces = t.pieces;
        })
      ]

  IsTail-chunk :
      (cap : ℕ) (heard : List Bytes) (c d : ActiveCapture F) (x : Bytes)
      → d.pre_chunks ≡ c.pre_chunks
      → d.post_chunks ≡ c.post_chunks ++ x ∷ []
      → IsTail cap heard c
      → IsTail cap (heard ++ x ∷ []) d
  IsTail-chunk cap heard c d x pre post t = record {
    older = t.older;
    joined =
        rw (pre, post)
          (list_shift t.older c.pre_chunks c.post_chunks x ∙ ap (λ l. l ++ x ∷ []) t.joined);
    fits = rw pre t.fits;
  }

  -- a finished capture is a piece of the stream
  finalize-IsPiece :
      (cap : ℕ) (heard : List Bytes) (r : SnippetRecorder F) (c : ActiveCapture F)
      → IsTail cap heard c
      → IsPiece heard (finalize r c).0 (finalize r c).1
  unfolding finalize
  finalize-IsPiece cap heard r c t = record {
    older = t.older;
    clip = c.pre_chunks ++ c.post_chunks;
    newer = [];
    joined = ap (λ l. t.older ++ l) (append-nil _) ∙ t.joined;
    frames = refl;
    duration = refl;
  }

  Tracks-extend :
      (cap : ℕ) (h : History F) (heard : List Bytes) (r : SnippetRecorder F) (c : ActiveCapture F)
      (writable : Bool)
      → r.pre_chunks_max ≡ cap
      → r.pre_buffer ≡ last cap heard
      → IsTail cap heard c
      → AllPieces heard h.saved
      → Tracks cap (record h {
        recorder = (extend_capture r c writable).0;
        heard = heard;
        saved = keep (extend_capture r c writable).1 h.saved;
      })
  unfolding extend_capture
  Tracks-extend cap h heard r c writable e b t ps = elim (Bool-cases (is_pos c.chunks_remaining)) [
    | inl more ↦ rw more (record { same_cap = e; buffer = b; active = t; pieces = ps })
    | inr done ↦ elim (Bool-cases writable) [
      | inl saves ↦
          rw (done, saves)
            (record {
              same_cap = e;
              buffer = b;
              active = tt;
              pieces = (finalize-IsPiece cap heard r c t, ps);
            })
      | inr fails ↦ rw (done, fails) (record { same_cap = e; buffer = b; active = t; pieces = ps })
    ]
  ]

  Tracks-chunk :
      (cap : ℕ) (h : History F) (a : Option (ActiveCapture F)) (x : Bytes) (writable : Bool)
      → Tracks cap (with_active h a)
      → Tracks cap (step (with_active h a) (chunk_call x writable))
  unfolding step add_chunk extend_capture
  Tracks-chunk cap h none x writable t = record {
    same_cap = t.same_cap;
    buffer = rw (t.same_cap, t.buffer) (append_bounded-last cap h.heard x);
    active = tt;
    pieces = AllPieces-append h.heard x h.saved t.pieces;
  }
  Tracks-chunk cap h (some c) x writable t =
      Tracks-extend cap (with_active h (some c)) (h.heard ++ x ∷ []) _ _ writable t.same_cap
        (rw (t.same_cap, t.buffer) (append_bounded-last cap h.heard x))
        (IsTail-chunk cap h.heard c _ x refl refl t.active)
        (AllPieces-append h.heard x h.saved t.pieces)

  Tracks-step : (cap : ℕ) (h : History F) (c : Call F) → Tracks cap h → Tracks cap (step h c)
  Tracks-step cap h (trigger_call label score now id) =
      Tracks-trigger cap h h.recorder.active label score now id
  Tracks-step cap h (notify_call label score now) =
      Tracks-notify cap h h.recorder.active label score now
  Tracks-step cap h (chunk_call x writable) = Tracks-chunk cap h h.recorder.active x writable

  Reach-Tracks :
      {start : SnippetRecorder F} {h : History F}
      → start.pre_buffer ≡ []
      → start.active ≡ none
      → Reach start h
      → Tracks start.pre_chunks_max h
  Reach-Tracks {start} empty idle here = record {
    same_cap = refl;
    buffer = empty ∙ sym (drop-nil (0 - start.pre_chunks_max));
    active = rw idle tt;
    pieces = tt;
  }
  Reach-Tracks {start} empty idle (next {h} r c f) =
      Tracks-step start.pre_chunks_max h c (Reach-Tracks empty idle r)

  -- Whatever is called on a fresh recorder, and whichever writes fail, every saved file holds
  -- chunks that follow one another in the stream, with the duration of those chunks, and the
  -- pre-roll buffer holds the last `pre_chunks_max` chunks of the stream.
  pub saved-IsPiece :
      {start : SnippetRecorder F} {h : History F}
      → start.pre_buffer ≡ []
      → start.active ≡ none
      → Reach start h
      → AllPieces h.heard h.saved × (h.recorder.pre_buffer ≡ last start.pre_chunks_max h.heard)
  saved-IsPiece empty idle r = let t = Reach-Tracks empty idle r in (t.pieces, t.buffer)
