-- ===== src/TestRig/Settled.antt =====
-- The data set of download_audioset.py is fetched once.
use text.Mathlib.TextLemmas.{nil-append, cons-append, append-nil}
use Prim.Native.Char.{Char}
use Prim.Native.String.{◌++◌ as append}
use bark_detector.Prelude.{
  ℕ, suc, ◌≡◌, refl, sym, ap, ◌∙◌, String, Bool, true, false, Option, none, some, List, [], ◌∷◌,
  str_eq, eq_iff, length, lookup, ltb, show_ℕ, arith, if◌then◌else◌, Bool-cases, inl, inr,
}
use bark_detector.Float.{Float}
use bark_detector.Snippet.Notices.{Distinct}
use bark_detector.TestRig.{Segment, Sampler}
use bark_detector.TestRig.Pools.{ytids}
use bark_detector.TestRig.Run.{
  Request, Ran, Directory, Fetched, wrote, fetch_dataset, main, any_wav, ends_with, sample_name,
}
use bark_detector.TestRig.Fetching.{Clip}
use bark_detector.TestRig.Numbering.{Named}
use bark_detector.TestRig.Labels.{fetch_dataset-IsDataset}

ends_with-append :
    (suffix s t : String) → ends_with suffix t ≡ true → ends_with suffix (append s t) ≡ true
unfolding ends_with
ends_with-append suffix String.[] t h = rw (nil-append t) h
ends_with-append suffix (String.◌∷◌ c s) t h =
    rw (cons-append c s t) (ends_with-cons suffix c (append s t) (ends_with-append suffix s t h))
  where
    ends_with-cons :
        (suffix' : String) (c' : Char) (u : String)
        → ends_with suffix' u ≡ true
        → ends_with suffix' (String.◌∷◌ c' u) ≡ true
    ends_with-cons suffix' c' u k = ground (arith, k)

suffix-wav : (b : Bool) → ends_with ".wav" (if b then "_bark.wav" else "_negative.wav") ≡ true
unfolding ends_with
suffix-wav true = refl
suffix-wav false = refl

ends_with-sample_name : (i : ℕ) (b : Bool) → ends_with ".wav" (sample_name i b) ≡ true
unfolding sample_name
ends_with-sample_name i b =
    ends_with-append ".wav" (if ltb i 10 then "0" else "") _
      (ends_with-append ".wav" (show_ℕ i) _ (rw (append-nil _) (suffix-wav b)))

any_wav-lookup :
    {A : Type 0} (name : String) (audio : A) (dir : Directory A)
    → ends_with ".wav" name ≡ true
    → lookup name dir ≡ some audio
    → any_wav dir ≡ true
unfolding any_wav lookup
any_wav-lookup name audio [] w h = cc
any_wav-lookup name audio ((other, a) ∷ dir) w h = elim (Bool-cases (str_eq other name)) [
  | inl e ↦
      let same : ends_with ".wav" other ≡ true =
        ap (ends_with ".wav") ((eq_iff other name).0 e) ∙ w in
      rw same refl
  | inr e ↦ rw (any_wav-lookup name audio dir w (rw e at h)) (ground arith)
]

any_wav-Named :
    {F A : Type 0} (samples : List (Clip F A × Bool)) (n : ℕ) (dir : Directory A)
    → Named 1 samples dir
    → length samples ≡ suc n
    → any_wav dir ≡ true
any_wav-Named [] n dir h k = absurd (omega arith)
any_wav-Named ((c, is_bark) ∷ samples) n dir h k =
    any_wav-lookup (sample_name 1 is_bark) c.audio dir (ends_with-sample_name 1 is_bark) h.0

module _ {F A : Type 0} ⦃fl : Float F⦄ (sampler : Sampler F)
    (yt_dlp : Request → Option A → Ran A) where
  -- Where no identifier stands twice in the index and `fetch_dataset` has left a sample, `main`
  -- without `--force` leaves the directory alone, however it would fetch.
  pub main-settled :
      (index : List (Segment F)) (bark_count negative_count seed n : ℕ) (dir out : Directory A)
      (again : Directory A → Fetched A)
      → Distinct (ytids index)
      → fetch_dataset sampler yt_dlp true index bark_count negative_count seed dir
        ≡ wrote (suc n) out
      → main false out again ≡ none
  unfolding main
  main-settled index bark_count negative_count seed n dir out again d e =
      let (m, made, f, data_set, few) =
        fetch_dataset-IsDataset sampler yt_dlp index bark_count negative_count seed dir d in
      let same : wrote m made ≡ wrote (suc n) out = sym f ∙ e in
      let size : m ≡ suc n = cc in
      let there : made ≡ out = cc in
      rw (← there, any_wav-Named data_set.samples n made data_set.named (data_set.size ∙ size)) refl
