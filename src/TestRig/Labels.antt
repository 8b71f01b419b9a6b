-- ===== src/TestRig/Labels.antt =====
-- What the data set of download_audioset.py says of its clips is true.
use bark_detector.Prelude.{
  ℕ, suc, ◌+◌, ◌≤◌, ◌≡◌, refl, sym, ap, ◌∙◌, String, Bool, true, false, ◌||◌, List, [], ◌∷◌, ◌++◌,
  length, Option, contains, contains_self, contains-cons, eq_refl, arith, Bool-cases, inl, inr,
}
use bark_detector.Float.{Float}
use bark_detector.Snippet.Notices.{Distinct}
use bark_detector.TestRig.{Segment, Sampler, select_candidates}
use bark_detector.TestRig.Pools.{
  ytids, IsTrue, IsRow, AllTrue, candidates-Distinct, candidates-AllTrue, candidates_apart,
}
use bark_detector.TestRig.Run.{
  Request, Ran, Directory, tmp_path, fetch, only, interleave, flagged, number, wrote, result_of,
  fetch_dataset,
}
use bark_detector.TestRig.Fetching.{
  Clip, IsDownloaded, AllDownloaded, Held, Held-kept, Fetches, segments, ids, paths_of,
  contains-tmp_paths, fetch-Fetches, length-fetch,
}
use bark_detector.TestRig.Numbering.{Named, clips_of, entries, number-Numbers}

only-true : (bs ns : List String) → only true (flagged true bs ++ flagged false ns) ≡ bs
unfolding only
only-true [] [] = refl
only-true [] (n ∷ ns) = only-true [] ns
only-true (b ∷ bs) ns = ap (◌∷◌ b) (only-true bs ns)

only-false : (bs ns : List String) → only false (flagged true bs ++ flagged false ns) ≡ ns
unfolding only
only-false [] [] = refl
only-false [] (n ∷ ns) = ap (◌∷◌ n) (only-false [] ns)
only-false (b ∷ bs) ns = only-false bs ns

length-interleave : (bs ns : List String) → length (interleave bs ns) ≡ length bs + length ns
unfolding interleave
length-interleave [] [] = refl
length-interleave [] (n ∷ ns) = omega (arith, length-interleave [] ns)
length-interleave (b ∷ bs) [] = omega (arith, length-interleave bs [])
length-interleave (b ∷ bs) (n ∷ ns) = omega (arith, length-interleave bs ns)

module _ {F A : Type 0} where
  interleave-entries :
      (bs ns : List (Clip F A))
      → interleave (paths_of bs) (paths_of ns) ≡ entries (interleave bs ns)
  unfolding interleave
  interleave-entries [] [] = refl
  interleave-entries [] (n ∷ ns) = rw (interleave-entries [] ns) refl
  interleave-entries (b ∷ bs) [] = rw (interleave-entries bs []) refl
  interleave-entries (b ∷ bs) (n ∷ ns) = rw (interleave-entries bs ns) refl

  length-entries : (ordered : List (Clip F A × Bool)) → length (entries ordered) ≡ length ordered
  length-entries [] = refl
  length-entries (c ∷ ordered) = ap suc (length-entries ordered)

  contains-interleave :
      (bs ns : List (Clip F A)) (x : String)
      → contains (ids (clips_of (interleave bs ns))) x
        ≡ (contains (ids bs) x || contains (ids ns) x)
  unfolding interleave contains
  contains-interleave [] [] x = refl
  contains-interleave [] (n ∷ ns) x = ground (arith, contains-interleave [] ns x)
  contains-interleave (b ∷ bs) [] x = ground (arith, contains-interleave bs [] x)
  contains-interleave (b ∷ bs) (n ∷ ns) x = ground (arith, contains-interleave bs ns x)

  Held-interleave :
      (dir : Directory A) (bs ns : List (Clip F A))
      → Held dir bs
      → Held dir ns
      → Held dir (clips_of (interleave bs ns))
  unfolding interleave
  Held-interleave dir [] [] h k = tt
  Held-interleave dir [] (n ∷ ns) h k = (k.0, Held-interleave dir [] ns h k.1)
  Held-interleave dir (b ∷ bs) [] h k = (h.0, Held-interleave dir bs [] h.1 k)
  Held-interleave dir (b ∷ bs) (n ∷ ns) h k = (h.0, (k.0, Held-interleave dir bs ns h.1 k.1))

  -- No identifier stands in both lists.
  abbrev Apart : List (Clip F A) → List (Clip F A) → Type 0
  Apart bs ns = (x : String) → contains (ids bs) x ≡ true → contains (ids ns) x ≡ false

  Distinct-interleave :
      (bs ns : List (Clip F A))
      → Distinct (ids bs)
      → Distinct (ids ns)
      → Apart bs ns
      → Distinct (ids (clips_of (interleave bs ns)))
  unfolding interleave contains
  Distinct-interleave [] [] d e a = tt
  Distinct-interleave [] (n ∷ ns) d e a = (
    ground (arith, contains-interleave [] ns n.segment.ytid, e.0),
    Distinct-interleave [] ns d e.1 (λ x h. absurd (cc)),
  )
  Distinct-interleave (b ∷ bs) [] d e a = (
    ground (arith, contains-interleave bs [] b.segment.ytid, d.0),
    Distinct-interleave bs [] d.1 e (λ x h. refl),
  )
  Distinct-interleave (b ∷ bs) (n ∷ ns) d e a = (
    ground (
      arith,
      contains-interleave bs ns b.segment.ytid,
      d.0,
      a b.segment.ytid (contains_self _ (ids bs)),
    ),
    (
      ground (
        arith,
        contains-interleave bs ns n.segment.ytid,
        e.0,
        eq_refl n.segment.ytid,
        a n.segment.ytid,
      ),
      Distinct-interleave bs ns d.1 e.1 (λ x h. ground (arith, a x (contains-cons x _ (ids bs) h))),
    ),
  )

module _ {F A : Type 0} ⦃fl : Float F⦄ (yt_dlp : Request → Option A → Ran A) where
  -- The suffix of each clip says what the labels of its segment say, the segment is a row of the
  -- index with these labels, and the clip is that segment's.
  abbrev pub AllLabelled : List (Segment F) → List (Clip F A × Bool) → Type 0
  AllLabelled index [] = Unit
  AllLabelled index ((c, is_bark) ∷ ordered) =
      (IsTrue is_bark c.segment × IsRow index c.segment)
      × IsDownloaded yt_dlp c
      × AllLabelled index ordered

  AllLabelled-interleave :
      (index : List (Segment F)) (bs ns : List (Clip F A))
      → AllTrue index true (segments bs)
      → AllTrue index false (segments ns)
      → AllDownloaded yt_dlp bs
      → AllDownloaded yt_dlp ns
      → AllLabelled index (interleave bs ns)
  unfolding interleave
  AllLabelled-interleave index [] [] h k d e = tt
  AllLabelled-interleave index [] (n ∷ ns) h k d e =
      (k.0, e.0, AllLabelled-interleave index [] ns h k.1 d e.1)
  AllLabelled-interleave index (b ∷ bs) [] h k d e =
      (h.0, d.0, AllLabelled-interleave index bs [] h.1 k d.1 e)
  AllLabelled-interleave index (b ∷ bs) (n ∷ ns) h k d e =
      (h.0, d.0, (k.0, e.0, AllLabelled-interleave index bs ns h.1 k.1 d.1 e.1))

-- A directory with `n` samples: the i-th of them is the file `NN_bark.wav` or `NN_negative.wav`
-- with the number i, a clip of a segment of the index with what the name says, and no segment has
-- two. What else the directory holds is left open.
pub record IsDataset (F : Type 0) {A : Type 0} ⦃fl : Float F⦄ (yt_dlp : Request → Option A → Ran A)
    (index : List (Segment F)) (n : ℕ) (dir : Directory A) : Type 0 where
  pub samples : List (Clip F A × Bool)
  pub size : length samples ≡ n
  pub named : Named 1 samples dir
  pub labelled : AllLabelled yt_dlp index samples
  pub distinct : Distinct (ids (clips_of samples))

module _ {F A : Type 0} ⦃fl : Float F⦄ (yt_dlp : Request → Option A → Ran A) where
  -- What the two loops have fetched is numbered.
  ordered-IsDataset :
      (index : List (Segment F)) (bs ns : List (Clip F A)) (dir : Directory A)
      (ordered : List (String × Bool))
      → ordered ≡ interleave (paths_of bs) (paths_of ns)
      → Held dir bs
      → Held dir ns
      → Distinct (ids bs)
      → Distinct (ids ns)
      → Apart bs ns
      → AllLabelled yt_dlp index (interleave bs ns)
      → (out : Directory A) × (result_of (length ordered) (number 1 ordered dir)
          ≡ wrote (length ordered) out)
        × IsDataset F yt_dlp index (length ordered) out
  unfolding result_of
  ordered-IsDataset index bs ns dir ordered e h k d f a l =
      let all = interleave bs ns in
      let same : ordered ≡ entries all = e ∙ interleave-entries bs ns in
      let numbers =
        number-Numbers 1 all dir (omega arith) (Held-interleave dir bs ns h k)
          (Distinct-interleave bs ns d f a) in
      (
        numbers.out,
        rw (same, numbers.ends) refl,
        record {
          samples = all;
          size = sym (length-entries all) ∙ ap length (sym same);
          named = numbers.named;
          labelled = l;
          distinct = Distinct-interleave bs ns d f a;
        },
      )

  -- Two runs of the loop, on candidates for barks and then for negatives.
  fetched-IsDataset :
      (index barks negatives : List (Segment F)) (dir dir1 dir2 : Directory A) (ps qs : List String)
      → Fetches yt_dlp barks dir dir1 ps
      → Fetches yt_dlp negatives dir1 dir2 qs
      → AllTrue index true barks
      → AllTrue index false negatives
      → ((x : String) → contains (ytids barks) x ≡ true → contains (ytids negatives) x ≡ false)
      → (ordered : List (String × Bool)) → ordered ≡ interleave ps qs
      → (out : Directory A) × (result_of (length ordered) (number 1 ordered dir2)
          ≡ wrote (length ordered) out)
        × IsDataset F yt_dlp index (length ordered) out
  fetched-IsDataset index barks negatives dir dir1 dir2 ps qs f g t u apart ordered e =
      ordered-IsDataset index f.clips g.clips dir2 ordered (e ∙ rw (f.named, g.named) refl)
        (Held-kept dir1 dir2 f.clips
          (λ x m. g.kept (tmp_path x) (contains-tmp_paths _ x (apart x (in_barks x m)))) f.held)
        g.held f.distinct g.distinct (λ x m. g.drawn x (apart x (in_barks x m)))
        (AllLabelled-interleave yt_dlp index f.clips g.clips (f.true_of index true t)
          (g.true_of index false u) f.downloaded g.downloaded)
    where
      in_barks : (x : String) → contains (ids f.clips) x ≡ true → contains (ytids barks) x ≡ true
      in_barks x m = elim (Bool-cases (contains (ytids barks) x)) [
        | inl e ↦ e
        | inr e ↦ absurd (let n = f.drawn x e in cc)
      ]

module _ {F A : Type 0} ⦃fl : Float F⦄ (sampler : Sampler F)
    (yt_dlp : Request → Option A → Ran A) where
  -- Where ffmpeg is there and no identifier stands twice in the index, `fetch_dataset` ends without
  -- an error and leaves no more samples than the two counts together, numbered from 1: of these,
  -- each `NN_bark.wav` is a clip of a segment that the index gives the label Bark, each
  -- `NN_negative.wav` a clip of one that the index gives no label of a dog, and no segment has two.
  pub fetch_dataset-IsDataset :
      (index : List (Segment F)) (bark_count negative_count seed : ℕ) (dir : Directory A)
      → Distinct (ytids index)
      → (n : ℕ) × (out : Directory A) × (fetch_dataset sampler yt_dlp true index bark_count
            negative_count seed dir
          ≡ wrote n out)
        × IsDataset F yt_dlp index n out
        × (n ≤ bark_count + negative_count)
  unfolding fetch_dataset
  fetch_dataset-IsDataset index bark_count negative_count seed dir d =
      let barks = select_candidates sampler index true bark_count seed in
      let negatives = select_candidates sampler index false negative_count seed in
      let first = fetch yt_dlp bark_count 0 barks dir in
      let second = fetch yt_dlp negative_count 0 negatives first.0 in
      let paths = flagged true first.1 ++ flagged false second.1 in
      let ordered = interleave (only true paths) (only false paths) in
      let same : ordered ≡ interleave first.1 second.1 =
        rw (only-true first.1 second.1, only-false first.1 second.1) refl in
      let (out, e, data_set) =
        fetched-IsDataset yt_dlp index barks negatives dir first.0 second.0 first.1 second.1
          (fetch-Fetches yt_dlp bark_count 0 barks dir
            (candidates-Distinct sampler index true bark_count seed d))
          (fetch-Fetches yt_dlp negative_count 0 negatives first.0
            (candidates-Distinct sampler index false negative_count seed d))
          (candidates-AllTrue sampler index true bark_count seed)
          (candidates-AllTrue sampler index false negative_count seed)
          (λ x m. candidates_apart sampler index bark_count negative_count seed x d m) ordered
          same in
      let few = length-fetch yt_dlp bark_count 0 barks dir (omega arith) in
      let more = length-fetch yt_dlp negative_count 0 negatives first.0 (omega arith) in
      let sum = length-interleave first.1 second.1 in
      let total = ap length same in
      (length ordered, out, e, data_set, omega (arith, few, more, sum, total))
