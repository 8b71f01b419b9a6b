-- ===== src/TestRig/Run.antt =====
-- download_audioset.py: `download_segment`, `fetch_dataset` and `main`. The directory of the data
-- set is a table from file names to clips, and a directory that is not there has none.
use bark_detector.Prelude.{
  ℕ, zero, suc, ◌+◌, String, Bool, true, false, not, ◌&&◌, ◌||◌, Option, none, some, List, [], ◌∷◌,
  ◌++◌, map, length, ltb, leb, ◌>>=◌, if◌then◌else◌, str_eq, concat, show_ℕ, lookup, rename, insert,
  remove,
}
use bark_detector.Prelude.Int.{ℤ, pos, negsuc, max_one}
use bark_detector.Float.{Float}
use bark_detector.TestRig.{Segment, Sampler, select_candidates}

-- `z + n`
unfoldable pub add_ℕ : ℤ → ℕ → ℤ
add_ℕ (pos m) n = pos (m + n)
add_ℕ (negsuc m) zero = negsuc m
add_ℕ (negsuc zero) (suc n) = pos n
add_ℕ (negsuc (suc m)) (suc n) = add_ℕ (negsuc m) n

abbrev pub target_sample_rate : ℕ
target_sample_rate = 16000

-- What yt-dlp is asked for; the other options are constants.
pub record Request : Type 0 where
  pub url : String
  pub outtmpl : String
  pub from : ℤ
  pub to : ℤ
  pub extractaudio : List String

-- What a download does: whether it raised, and what is at the path of the clip afterwards.
pub record Ran (A : Type 0) : Type 0 where
  pub raised : Bool
  pub at_path : Option A

abbrev pub Directory : Type 0 → Type 0
Directory A = List (String × A)

abbrev pub tmp_stem : String → String
tmp_stem ytid = concat ("_tmp_" ∷ ytid ∷ [])

abbrev pub tmp_path : String → String
tmp_path ytid = concat ("_tmp_" ∷ ytid ∷ ".wav" ∷ [])

-- The table of files after a write to the path.
unfoldable pub put {ℓ} : {A : Type ℓ} → String → Option A → List (String × A) → List (String × A)
put path none dir = remove path dir
put path (some audio) dir = insert path audio dir

unfoldable pub exists {ℓ} : {A : Type ℓ} → Option A → Bool
exists none = false
exists (some audio) = true

module _ {F : Type 0} ⦃fl : Float F⦄ where
  -- The seconds of the clip; the numbers of a segment are finite.
  unfoldable pub duration_of : Segment F → ℕ
  duration_of s =
      let length_of = fl.sub s.end_seconds s.start_seconds in
      let duration = if fl.lt (fl.decimal 10 0) length_of then fl.decimal 10 0 else length_of in
      max_one (fl.trunc (fl.round duration 0))

  unfoldable pub request_for : Segment F → Request
  unfolding duration_of add_ℕ
  request_for s = record {
    url = concat ("https://youtube.com/watch?v=" ∷ s.ytid ∷ []);
    outtmpl = concat (tmp_stem s.ytid ∷ ".%(ext)s" ∷ []);
    from = fl.trunc s.start_seconds;
    to = add_ℕ (fl.trunc s.start_seconds) (duration_of s);
    extractaudio = "-ar" ∷ show_ℕ target_sample_rate ∷ "-ac" ∷ "1" ∷ [];
  }

  module _ {A : Type 0} (yt_dlp : Request → Option A → Ran A) where
    -- The request at the clip's path, where there may be a file already.
    unfoldable pub ran : Segment F → Directory A → Ran A
    unfolding request_for
    ran s dir = yt_dlp (request_for s) (lookup (tmp_path s.ytid) dir)

    unfoldable pub download_segment : Segment F → Directory A → Directory A × Bool
    unfolding ran put exists
    download_segment s dir =
        let r = ran s dir in (put (tmp_path s.ytid) r.at_path dir, not r.raised && exists r.at_path)

    -- The loop over the candidates: the directory and the paths that were fetched.
    unfoldable pub fetch : ℕ → ℕ → List (Segment F) → Directory A → Directory A × List String
    unfolding download_segment
    fetch target fetched [] dir = (dir, [])
    fetch target fetched (row ∷ rows) dir =
        let (next, ok) = download_segment row dir in
        let (end, paths) = fetch target (if ok then suc fetched else fetched) rows next in
        if leb target fetched
        then (dir, [])
        else (end, (if ok then tmp_path row.ytid ∷ paths else paths))

-- `[p for p, is_bark in fetched_paths if is_bark]`, and those with `not is_bark`
unfoldable pub only {ℓ} : {A : Type ℓ} → Bool → List (A × Bool) → List A
only flag [] = []
only true ((p, true) ∷ fetched) = p ∷ only true fetched
only true ((p, false) ∷ fetched) = only true fetched
only false ((p, true) ∷ fetched) = only false fetched
only false ((p, false) ∷ fetched) = p ∷ only false fetched

-- The `while` loop: a bark and a negative by turns, until both lists are empty.
unfoldable pub interleave {ℓ} : {A : Type ℓ} → List A → List A → List (A × Bool)
interleave [] [] = []
interleave [] (n ∷ negatives) = (n, false) ∷ interleave [] negatives
interleave (b ∷ barks) [] = (b, true) ∷ interleave barks []
interleave (b ∷ barks) (n ∷ negatives) = (b, true) ∷ (n, false) ∷ interleave barks negatives

-- `f"{i:02d}_{suffix}.wav"`
unfoldable pub sample_name : ℕ → Bool → String
sample_name i is_bark = concat (
    (if ltb i 10 then "0" else "")
    ∷ show_ℕ i
    ∷ (if is_bark then "_bark.wav" else "_negative.wav")
    ∷ [])

-- The last loop, with numbers from `i`.
unfoldable pub number :
    {A : Type 0} → ℕ → List (String × Bool) → List (String × A) → Option (List (String × A))
unfolding rename
number i [] dir = some dir
number i ((path, is_bark) ∷ ordered) dir = do
  next ← rename path (sample_name i is_bark) dir
  number (suc i) ordered next

-- How `fetch_dataset` ends: the program exits, a rename raises, or the samples are there.
pub data Fetched (A : Type 0) : Type 0 where
  no_ffmpeg : Fetched A
  not_found : Fetched A
  wrote : ℕ → Directory A → Fetched A

unfoldable pub result_of : {A : Type 0} → ℕ → Option (Directory A) → Fetched A
result_of n none = not_found
result_of n (some dir) = wrote n dir

-- `[(p, flag) for p in paths]`
abbrev pub flagged : Bool → List String → List (String × Bool)
flagged flag paths = map (λ p. (p, flag)) paths

module _ {F A : Type 0} ⦃fl : Float F⦄ (sampler : Sampler F)
    (yt_dlp : Request → Option A → Ran A) where
  unfoldable pub fetch_dataset : Bool → List (Segment F) → ℕ → ℕ → ℕ → Directory A → Fetched A
  unfolding fetch only interleave number result_of select_candidates
  fetch_dataset has_ffmpeg index bark_count negative_count seed dir =
      let bark_candidates = select_candidates sampler index true bark_count seed in
      let negative_candidates = select_candidates sampler index false negative_count seed in
      let (dir1, bark_paths) = fetch yt_dlp bark_count 0 bark_candidates dir in
      let (dir2, negative_paths) = fetch yt_dlp negative_count 0 negative_candidates dir1 in
      let fetched_paths = flagged true bark_paths ++ flagged false negative_paths in
      let ordered = interleave (only true fetched_paths) (only false fetched_paths) in
      let result = result_of (length ordered) (number 1 ordered dir2) in
      if has_ffmpeg then result else no_ffmpeg

-- `any(out_dir.glob("*.wav"))`
unfoldable pub ends_with : String → String → Bool
ends_with suffix String.[] = str_eq suffix String.[]
ends_with suffix (String.◌∷◌ c s) = str_eq suffix (String.◌∷◌ c s) || ends_with suffix s

unfoldable pub any_wav {ℓ} : {A : Type ℓ} → List (String × A) → Bool
unfolding ends_with
any_wav [] = false
any_wav ((name, audio) ∷ dir) = ends_with ".wav" name || any_wav dir

-- What `main` does with the directory: nothing, or `fetch_dataset`.
unfoldable pub main :
    {A : Type 0} → Bool → Directory A → (Directory A → Fetched A) → Option (Fetched A)
unfolding any_wav
main force dir fetch_into = if not force && any_wav dir then none else some (fetch_into dir)
