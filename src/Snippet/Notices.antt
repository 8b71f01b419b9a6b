-- ===== src/Snippet/Notices.antt =====
-- Which captures of snippet.py are announced: at most once each, and the saved event says so.
use bark_detector.Prelude.{
  ◌≡◌, ◌∙◌, String, Bool, true, false, not, ◌||◌, Option, none, some, List, [], ◌∷◌, ◌++◌, arith,
  contains, contains_self, contains-cons, contains_cases, str_eq, eq_iff, Bool-cases, inl, inr,
}
use bark_detector.Prelude.Int.{is_pos}
use bark_detector.Float.{Float}
use bark_detector.AudioFormat.{Bytes}
use bark_detector.Snippet.{
  SnippetRecorder, ActiveCapture, DetectionEvent, WavFile, trigger, notify, add_chunk, finalize,
  extend_capture,
}
use bark_detector.Snippet.History.{
  Call, trigger_call, notify_call, chunk_call, History, step, Reach, here, next, with_active, keep,
  IsFresh,
}

-- No text stands twice in the list.
abbrev pub Distinct : List String → Type 0
Distinct [] = Unit
Distinct (x ∷ xs) = (contains xs x ≡ false) × Distinct xs

abbrev pub Subset : List String → List String → Type 0
Subset xs ys = (k : String) → contains xs k ≡ true → contains ys k ≡ true

pub fresh_notice :
    (id : String) (used notices : List String)
    → Subset notices used
    → contains used id ≡ false
    → contains notices id ≡ false
fresh_notice id used notices s f = ground (arith, s id)

Subset-cons :
    (id : String) (used notices : List String)
    → Subset notices used
    → contains used id ≡ true
    → Subset (id ∷ notices) used
Subset-cons id used notices s u k e = elim (contains_cases k id notices e) [
  | inl p ↦ rw p at u
  | inr m ↦ s k m
]

module _ {F : Type 0} ⦃fl : Float F⦄ where
  -- An event is marked as notified exactly if a notice with its identifier was returned.
  abbrev pub Flagged : List String → List (DetectionEvent F × WavFile) → Type 0
  Flagged notices [] = Unit
  Flagged notices ((e, w) ∷ es) = (contains notices e.id ≡ e.notified) × Flagged notices es

  abbrev AllUsed : List String → List (DetectionEvent F × WavFile) → Type 0
  AllUsed used [] = Unit
  AllUsed used ((e, w) ∷ es) = (contains used e.id ≡ true) × AllUsed used es

  abbrev Absent : String → List (DetectionEvent F × WavFile) → Type 0
  Absent id [] = Unit
  Absent id ((e, w) ∷ es) = (str_eq id e.id ≡ false) × Absent id es

  record Open (h : History F) (c : ActiveCapture F) : Type 0 where
    known : contains h.used c.id ≡ true
    flag : contains h.notices c.id ≡ c.notified
    unsaved : Absent c.id h.saved

  abbrev Active : History F → Option (ActiveCapture F) → Type 0
  Active h none = Unit
  Active h (some c) = Open h c

  record Announced (h : History F) : Type 0 where
    active : Active h h.recorder.active
    flags : Flagged h.notices h.saved
    events : AllUsed h.used h.saved
    notices : Subset h.notices h.used
    once : Distinct h.notices

  -- an identifier that was never handed out is in no saved event
  Absent-of_fresh :
      (id : String) (used : List String) (es : List (DetectionEvent F × WavFile))
      → contains used id ≡ false
      → AllUsed used es
      → Absent id es
  Absent-of_fresh id used [] f u = tt
  Absent-of_fresh id used ((e, w) ∷ es) f u =
      (ground (arith, eq_iff id e.id, u.0), Absent-of_fresh id used es f u.1)

  AllUsed-cons :
      (id : String) (used : List String) (es : List (DetectionEvent F × WavFile))
      → AllUsed used es
      → AllUsed (id ∷ used) es
  unfolding contains
  AllUsed-cons id used [] u = tt
  AllUsed-cons id used ((e, w) ∷ es) u = (ground (arith, u.0), AllUsed-cons id used es u.1)

  Flagged-cons :
      (id : String) (notices : List String) (es : List (DetectionEvent F × WavFile))
      → Absent id es
      → Flagged notices es
      → Flagged (id ∷ notices) es
  unfolding contains
  Flagged-cons id notices [] a f = tt
  Flagged-cons id notices ((e, w) ∷ es) a f =
      (ground (arith, a.0, f.0), Flagged-cons id notices es a.1 f.1)

  Announced-trigger :
      (h : History F) (a : Option (ActiveCapture F)) (label : String) (score now : F) (id : String)
      → contains h.used id ≡ false
      → Announced (with_active h a)
      → Announced (step (with_active h a) (trigger_call label score now id))
  unfolding step trigger
  Announced-trigger h none label score now id f v = record {
    active = record {
      known = contains_self id h.used;
      flag = fresh_notice id h.used h.notices v.notices f;
      unsaved = Absent-of_fresh id h.used h.saved f v.events;
    };
    flags = v.flags;
    events = AllUsed-cons id h.used h.saved v.events;
    notices = λ k e. contains-cons k id h.used (v.notices k e);
    once = v.once;
  }
  Announced-trigger h (some c) label score now id f v = record {
    active = record { known = v.active.known; flag = v.active.flag; unsaved = v.active.unsaved };
    flags = v.flags;
    events = v.events;
    notices = v.notices;
    once = v.once;
  }

  Announced-notify :
      (h : History F) (a : Option (ActiveCapture F)) (label : String) (score now : F)
      → Announced (with_active h a)
      → Announced (step (with_active h a) (notify_call label score now))
  unfolding step notify
  Announced-notify h none label score now v = v
  Announced-notify h (some c) label score now v =
      elim (Bool-cases (c.notified || not (str_eq c.label label))) [
        | inl e ↦ rw e v
        | inr e ↦
            let quiet : c.notified ≡ false = ground arith in
            rw e (record {
              active = record {
                known = v.active.known;
                flag = contains_self c.id h.notices;
                unsaved = v.active.unsaved;
              };
              flags = Flagged-cons c.id h.notices h.saved v.active.unsaved v.flags;
              events = v.events;
              notices = Subset-cons c.id h.used h.notices v.notices v.active.known;
              once = (v.active.flag ∙ quiet, v.once);
            })
      ]

  Announced-extend :
      (h : History F) (heard : List Bytes) (r : SnippetRecorder F) (c : ActiveCapture F)
      (writable : Bool)
      → Open h c
      → Announced (with_active h none)
      → Announced (record h {
        recorder = (extend_capture r c writable).0;
        heard = heard;
        saved = keep (extend_capture r c writable).1 h.saved;
      })
  unfolding extend_capture finalize
  Announced-extend h heard r c writable o v = elim (Bool-cases (is_pos c.chunks_remaining)) [
    | inl more ↦ rw more (still_open o)
    | inr done ↦ elim (Bool-cases writable) [
      | inl saves ↦
          rw (done, saves)
            (record {
              active = tt;
              flags = (o.flag, v.flags);
              events = (o.known, v.events);
              notices = v.notices;
              once = v.once;
            })
      | inr fails ↦ rw (done, fails) (still_open o)
    ]
  ]
    where
      still_open :
          Open h c → Announced (record h { recorder = record r { active = some c }; heard = heard })
      still_open o' = record {
        active = record { known = o'.known; flag = o'.flag; unsaved = o'.unsaved };
        flags = v.flags;
        events = v.events;
        notices = v.notices;
        once = v.once;
      }

  Announced-chunk :
      (h : History F) (a : Option (ActiveCapture F)) (x : Bytes) (writable : Bool)
      → Announced (with_active h a)
      → Announced (step (with_active h a) (chunk_call x writable))
  unfolding step add_chunk
  Announced-chunk h none x writable v = record {
    active = tt;
    flags = v.flags;
    events = v.events;
    notices = v.notices;
    once = v.once;
  }
  Announced-chunk h (some c) x writable v =
      Announced-extend (with_active h (some c)) (h.heard ++ x ∷ []) _ _ writable
        (record { known = v.active.known; flag = v.active.flag; unsaved = v.active.unsaved })
        (record {
          active = tt;
          flags = v.flags;
          events = v.events;
          notices = v.notices;
          once = v.once;
        })

  Announced-step : (h : History F) (c : Call F) → IsFresh h c → Announced h → Announced (step h c)
  Announced-step h (trigger_call label score now id) f =
      Announced-trigger h h.recorder.active label score now id f
  Announced-step h (notify_call label score now) f =
      Announced-notify h h.recorder.active label score now
  Announced-step h (chunk_call x writable) f = Announced-chunk h h.recorder.active x writable

  Reach-Announced :
      {start : SnippetRecorder F} {h : History F}
      → start.active ≡ none
      → Reach start h
      → Announced h
  Reach-Announced {start} idle here = record {
    active = rw idle tt;
    flags = tt;
    events = tt;
    notices = λ k e. e;
    once = tt;
  }
  Reach-Announced idle (next {h} r c f) = Announced-step h c f (Reach-Announced idle r)

  -- Where fresh identifiers are new, whatever is called on an idle recorder: no capture is
  -- announced twice, only identifiers that were handed out are announced, and an event is marked
  -- as notified exactly if its identifier was announced.
  pub announced_once :
      {start : SnippetRecorder F} {h : History F}
      → start.active ≡ none
      → Reach start h
      → Distinct h.notices × Subset h.notices h.used × Flagged h.notices h.saved
  announced_once idle r = let v = Reach-Announced idle r in (v.once, v.notices, v.flags)
