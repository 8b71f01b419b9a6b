-- ===== src/Snippet/Capture.antt =====
-- The life of one capture of snippet.py: how many chunks it waits for, what ends it, and what a
-- failing write does to it.
use mathlib.Core.List.{flatten}
use bark_detector.Prelude.{
  ℕ, ◌+◌, suc, ◌≡◌, refl, ap, ◌∙◌, String, Bool, true, false, none, some, List, [], ◌∷◌, ◌++◌,
  append_assoc, append-nil, length, arith, if◌then◌else◌,
}
use bark_detector.Prelude.Int.{pos}
use bark_detector.Float.{Float}
use bark_detector.AudioFormat.{Bytes}
use bark_detector.Snippet.{
  SnippetRecorder, ActiveCapture, DetectionEvent, WavFile, returned, raised, add_chunk, finalize,
  trigger, extend_capture, append_bounded, start_capture, snippet_path,
}

module _ {F : Type 0} ⦃fl : Float F⦄ where
  -- the chunks `xs`, none of which ends a capture, and then `x`
  pub feed : SnippetRecorder F → List Bytes → SnippetRecorder F
  feed r [] = r
  feed r (x ∷ xs) = feed (add_chunk r x true).0 xs

  abbrev pub AllQuiet : SnippetRecorder F → List Bytes → Type 0
  AllQuiet r [] = Unit
  AllQuiet r (x ∷ xs) =
      ((add_chunk r x true).1 ≡ returned none) × AllQuiet (add_chunk r x true).0 xs

  -- While more than one chunk remains, a chunk is only collected.
  add_chunk-more :
      (r : SnippetRecorder F) (c : ActiveCapture F) (n : ℕ) (x : Bytes) (writable : Bool)
      → r.active ≡ some c
      → c.chunks_remaining ≡ pos (suc (suc n))
      → add_chunk r x writable ≡ (
        record r {
          pre_buffer = append_bounded r.pre_chunks_max r.pre_buffer x;
          active =
              some (record c {
                post_chunks = c.post_chunks ++ x ∷ [];
                chunks_remaining = pos (suc n);
              });
        },
        returned none,
      )
  unfolding add_chunk extend_capture
  add_chunk-more r c n x writable e m = ground arith

  -- The last chunk closes the capture and gives its event, if the file can be written.
  add_chunk-done :
      (r : SnippetRecorder F) (c : ActiveCapture F) (x : Bytes)
      → r.active ≡ some c
      → c.chunks_remaining ≡ pos 1
      → ((add_chunk r x true).0.active ≡ none)
        × ((add_chunk r x true).1
            ≡ returned (
                some (
                  finalize r (record c {
                    post_chunks = c.post_chunks ++ x ∷ [];
                    chunks_remaining = pos 0;
                  }))))
  unfolding add_chunk extend_capture finalize snippet_path
  add_chunk-done r c x e m = (ground arith, ground arith)

  collected : ActiveCapture F → List Bytes → ℕ → ActiveCapture F
  collected c xs n = record c { post_chunks = c.post_chunks ++ xs; chunks_remaining = pos (suc n) }

  feed-collected :
      (r : SnippetRecorder F) (c : ActiveCapture F) (xs : List Bytes) (n : ℕ)
      → r.active ≡ some c
      → c.chunks_remaining ≡ pos (suc (length xs + n))
      → AllQuiet r xs
        × ((feed r xs).active ≡ some (collected c xs n))
        × ((feed r xs).source_name ≡ r.source_name)
        × ((feed r xs).snippet_dir ≡ r.snippet_dir)
  unfolding feed collected
  feed-collected r c [] n e m = (tt, ground (arith, append-nil c.post_chunks), refl, refl)
  feed-collected r c (x ∷ xs) n e m =
      let k : ℕ = length xs + n in
      let more = add_chunk-more r c k x true e (m ∙ ap pos (omega arith)) in
      let d = record c { post_chunks = c.post_chunks ++ x ∷ []; chunks_remaining = pos (suc k) } in
      let next = feed-collected (add_chunk r x true).0 d xs n (ap (λ p. p.0.active) more) refl in
      (
        (ap (λ p. p.1) more, next.0),
        next.1
            ∙ ap (λ l. some (record c { post_chunks = l; chunks_remaining = pos (suc n) }))
                (append_assoc c.post_chunks (x ∷ []) xs),
        next.2 ∙ ap (λ p. p.0.source_name) more,
        next.3 ∙ ap (λ p. p.0.snippet_dir) more,
      )

  finalize-of_names :
      (r s : SnippetRecorder F) (c : ActiveCapture F)
      → r.source_name ≡ s.source_name
      → r.snippet_dir ≡ s.snippet_dir
      → finalize r c ≡ finalize s c
  unfolding finalize snippet_path
  finalize-of_names r s c e f = rw (e, f)

  -- A capture that waits for `n + 1` chunks collects the next `n` in silence; the chunk after
  -- them closes it, and its event and file hold all of its chunks.
  pub capture_completes :
      (r : SnippetRecorder F) (c : ActiveCapture F) (xs : List Bytes) (x : Bytes)
      → r.active ≡ some c
      → c.chunks_remaining ≡ pos (suc (length xs))
      → AllQuiet r xs
        × ((add_chunk (feed r xs) x true).0.active ≡ none)
        × ((add_chunk (feed r xs) x true).1
            ≡ returned (
                some (
                  finalize r (record c {
                    post_chunks = c.post_chunks ++ (xs ++ x ∷ []);
                    chunks_remaining = pos 0;
                  }))))
  unfolding collected
  capture_completes r c xs x e m =
      let all = feed-collected r c xs 0 e (m ∙ ap pos (omega arith)) in
      let done = add_chunk-done (feed r xs) (collected c xs 0) x all.1 refl in
      let c' = record c {
        post_chunks = c.post_chunks ++ (xs ++ x ∷ []);
        chunks_remaining = pos 0;
      } in
      (
        all.0,
        done.0,
        done.1
            ∙ ap
                (λ l. returned (
                  some (
                    finalize (feed r xs) (record c { post_chunks = l; chunks_remaining = pos 0 }))))
                (append_assoc c.post_chunks xs (x ∷ []))
            ∙ ap (λ f. returned (some f)) (finalize-of_names (feed r xs) r c' all.2 all.3),
      )

  -- What a finished capture becomes.
  pub record Saves (e : DetectionEvent F) (w : WavFile) (id label : String) (score timestamp : F)
      (notified : Bool) (chunks : List Bytes) : Type 0 where
    pub same_id : e.id ≡ id
    pub same_label : e.label ≡ label
    pub same_score : e.score ≡ score
    pub same_time : e.timestamp ≡ timestamp
    pub same_flag : e.notified ≡ notified
    pub same_file : e.file ≡ w.path
    pub audio : w.frames ≡ flatten chunks

  finalize-Saves :
      (r : SnippetRecorder F) (c : ActiveCapture F)
      → Saves
          (finalize r c).0
          (finalize r c).1
          c.id
          c.label
          c.score
          c.timestamp
          c.notified
          (c.pre_chunks ++ c.post_chunks)
  unfolding finalize
  finalize-Saves r c = record {
    same_id = refl;
    same_label = refl;
    same_score = refl;
    same_time = refl;
    same_flag = refl;
    same_file = refl;
    audio = refl;
  }

  trigger-idle :
      (r : SnippetRecorder F) (label : String) (score now : F) (id : String)
      → r.active ≡ none
      → trigger r label score now id ≡ (
        record r { active = some (start_capture r label score now id) },
        some (record {
          id = id;
          source = r.source_name;
          label = label;
          score = score;
          timestamp = now;
        }),
      )
  unfolding trigger
  trigger-idle r label score now id idle = ground arith

  -- the higher of a capture's score and a new one
  abbrev pub peak : F → F → F
  peak old new = if fl.lt old new then new else old

  trigger-active :
      (r : SnippetRecorder F) (c : ActiveCapture F) (label : String) (score now : F) (id : String)
      → r.active ≡ some c
      → trigger r label score now id ≡ (
        record r {
          active = some (record c {
            chunks_remaining = pos r.post_chunks_needed;
            score = peak c.score score;
          });
        },
        none,
      )
  unfolding trigger
  trigger-active r c label score now id e = ground arith

  -- On an idle recorder a trigger starts a capture, returns its notice, and exactly
  -- `post_chunks_needed` chunks later, if nothing else happens and the file can be written, gives
  -- an event with the identifier, the label, the score and the time of the trigger, whose file
  -- holds the pre-roll buffer of that moment and then the chunks; the recorder is idle again.
  pub trigger_completes :
      (r : SnippetRecorder F) (label : String) (score now : F) (id : String) (xs : List Bytes)
      (x : Bytes)
      → r.active ≡ none
      → r.post_chunks_needed ≡ suc (length xs)
      → ((trigger r label score now id).1
          ≡ some (record {
            id = id;
            source = r.source_name;
            label = label;
            score = score;
            timestamp = now;
          }))
        × AllQuiet (trigger r label score now id).0 xs
        × ((add_chunk (feed (trigger r label score now id).0 xs) x true).0.active ≡ none)
        × ((e : DetectionEvent F) × (w : WavFile) × ((add_chunk
                (feed (trigger r label score now id).0 xs)
                x
                true).1
              ≡ returned (some (e, w)))
            × Saves e w id label score now false (r.pre_buffer ++ (xs ++ x ∷ [])))
  unfolding start_capture
  trigger_completes r label score now id xs x idle n =
      let r' = (trigger r label score now id).0 in
      let started = trigger-idle r label score now id idle in
      let all =
        capture_completes r' (start_capture r label score now id) xs x
          (ap (λ p. p.0.active) started) (ap pos n) in
      (ap (λ p. p.1) started, all.0, all.1, (_, _, all.2, finalize-Saves r' _))

  -- A trigger during a capture returns no notice and changes neither its label, its identifier nor
  -- its time: it makes the capture wait for `post_chunks_needed` chunks from here on, none of which
  -- gives anything but the last, at which, if the file can be written, the event carries the highest
  -- score and the file holds all chunks from the pre-roll on.
  pub retrigger_completes :
      (r : SnippetRecorder F) (c : ActiveCapture F) (label : String) (score now : F) (id : String)
      (xs : List Bytes) (x : Bytes)
      → r.active ≡ some c
      → r.post_chunks_needed ≡ suc (length xs)
      → ((trigger r label score now id).1 ≡ none)
        × AllQuiet (trigger r label score now id).0 xs
        × ((add_chunk (feed (trigger r label score now id).0 xs) x true).0.active ≡ none)
        × ((e : DetectionEvent F) × (w : WavFile) × ((add_chunk
                (feed (trigger r label score now id).0 xs)
                x
                true).1
              ≡ returned (some (e, w)))
            × Saves e w c.id c.label
                (peak c.score score)
                c.timestamp
                c.notified
                (c.pre_chunks ++ (c.post_chunks ++ (xs ++ x ∷ []))))
  retrigger_completes r c label score now id xs x active n =
      let r' = (trigger r label score now id).0 in
      let extended = trigger-active r c label score now id active in
      let all =
        capture_completes r'
          (record c { chunks_remaining = pos r.post_chunks_needed; score = peak c.score score }) xs
          x (ap (λ p. p.0.active) extended) (ap pos n) in
      (ap (λ p. p.1) extended, all.0, all.1, (_, _, all.2, finalize-Saves r' _))

  -- Where the file of a finished capture cannot be written, the call raises and the capture stays
  -- open, so the next chunk, if its write succeeds, saves the whole capture with that chunk too.
  pub write_failure_keeps :
      (r : SnippetRecorder F) (c : ActiveCapture F) (x y : Bytes)
      → r.active ≡ some c
      → c.chunks_remaining ≡ pos 1
      → ((add_chunk r x false).1 ≡ raised)
        × ((add_chunk (add_chunk r x false).0 y true).0.active ≡ none)
        × ((e : DetectionEvent F) × (w : WavFile) × ((add_chunk (add_chunk r x false).0 y true).1
              ≡ returned (some (e, w)))
            × Saves e w c.id c.label c.score c.timestamp c.notified
                (c.pre_chunks ++ ((c.post_chunks ++ x ∷ []) ++ y ∷ [])))
  unfolding add_chunk extend_capture finalize snippet_path
  write_failure_keeps r c x y active one = (
    ground arith,
    ground arith,
    (
      _,
      _,
      ground arith,
      finalize-Saves (record r { active = none })
          (record c { post_chunks = (c.post_chunks ++ x ∷ []) ++ y ∷ [] }),
    ),
  )
