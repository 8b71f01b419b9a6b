-- ===== src/TestRig/Fetching.antt =====
-- What the loop of `fetch_dataset` of download_audioset.py fetches.
use text.Mathlib.TextLemmas.{append_cancel_left, append_cancel_right}
use bark_detector.Prelude.{
  ℕ, suc, ◌+◌, ◌≤◌, ◌≡◌, refl, ap, ◌∙◌, String, Bool, true, false, not, ◌&&◌, Option, none, some,
  List, [], ◌∷◌, length, leb, if◌then◌else◌, contains, contains_self, contains-cons, str_eq, eq_iff,
  eq_refl, concat, lookup, lookup-insert, lookup-remove, arith, Bool-cases, inl, inr,
}
use bark_detector.Float.{Float}
use bark_detector.Snippet.Notices.{Distinct}
use bark_detector.TestRig.{Segment}
use bark_detector.TestRig.Pools.{ytids, AllTrue}
use bark_detector.TestRig.Run.{
  Request, Ran, Directory, tmp_path, put, exists, request_for, ran, download_segment, fetch,
}

pub tmp_path_inj : (x y : String) → tmp_path x ≡ tmp_path y → x ≡ y
tmp_path_inj x y e =
    append_cancel_right x y (concat (".wav" ∷ [])) (append_cancel_left "_tmp_" _ _ e)

pub tmp_path_apart : (x y : String) → str_eq x y ≡ false → str_eq (tmp_path x) (tmp_path y) ≡ false
tmp_path_apart x y h = elim (Bool-cases (str_eq (tmp_path x) (tmp_path y))) [
  | inl e ↦
      let same = tmp_path_inj x y ((eq_iff (tmp_path x) (tmp_path y)).0 e) in
      absurd (ground (arith, eq_iff x y))
  | inr e ↦ e
]

abbrev pub tmp_paths : List String → List String
tmp_paths [] = []
tmp_paths (x ∷ xs) = tmp_path x ∷ tmp_paths xs

pub contains-tmp_paths :
    (xs : List String) (x : String)
    → contains xs x ≡ false
    → contains (tmp_paths xs) (tmp_path x) ≡ false
unfolding contains
contains-tmp_paths [] x h = refl
contains-tmp_paths (y ∷ ys) x h = ground (arith, tmp_path_apart y x, contains-tmp_paths ys x)

lookup-put :
    {A : Type 0} (path other : String) (new : Option A) (dir : Directory A)
    → lookup other (put path new dir) ≡ (if str_eq path other then new else lookup other dir)
unfolding put
lookup-put path other none dir = lookup-remove path other dir
lookup-put path other (some audio) dir = lookup-insert path other audio dir

-- A clip: the segment and what was downloaded of it.
pub record Clip (F A : Type 0) : Type 0 where
  pub segment : Segment F
  pub audio : A

module _ {F A : Type 0} where
  abbrev pub segments : List (Clip F A) → List (Segment F)
  segments [] = []
  segments (c ∷ clips) = c.segment ∷ segments clips

  abbrev pub ids : List (Clip F A) → List String
  ids clips = ytids (segments clips)

  abbrev pub paths_of : List (Clip F A) → List String
  paths_of clips = tmp_paths (ids clips)

  -- Each clip is at its path.
  abbrev pub Held : Directory A → List (Clip F A) → Type 0
  Held dir [] = Unit
  Held dir (c ∷ clips) = (lookup (tmp_path c.segment.ytid) dir ≡ some c.audio) × Held dir clips

  pub Held-kept :
      (dir dir' : Directory A) (clips : List (Clip F A))
      → ((x : String)
          → contains (ids clips) x ≡ true
          → lookup (tmp_path x) dir' ≡ lookup (tmp_path x) dir)
      → Held dir clips
      → Held dir' clips
  Held-kept dir dir' [] k h = tt
  Held-kept dir dir' (c ∷ clips) k h = (
    k c.segment.ytid (contains_self _ (ids clips)) ∙ h.0,
    Held-kept dir dir' clips (λ x m. k x (contains-cons x _ (ids clips) m)) h.1,
  )

ran_ok :
    {A : Type 0} (raised : Bool) (at_path : Option A)
    → (not raised && exists at_path) ≡ true
    → (audio : A) × (◌≡◌ {A = Ran A}
        (record { raised = raised; at_path = at_path })
        (record { raised = false; at_path = some audio }))
unfolding exists
ran_ok true at_path h = cc
ran_ok false none h = cc
ran_ok false (some audio) h = (audio, refl)

module _ {F A : Type 0} ⦃fl : Float F⦄ (yt_dlp : Request → Option A → Ran A) where
  -- yt-dlp left that for that segment, and did not raise.
  abbrev pub IsDownloaded : Clip F A → Type 0
  IsDownloaded c =
      (before : Option A) × (yt_dlp (request_for c.segment) before
        ≡ record { raised = false; at_path = some c.audio })

  abbrev pub AllDownloaded : List (Clip F A) → Type 0
  AllDownloaded [] = Unit
  AllDownloaded (c ∷ clips) = IsDownloaded c × AllDownloaded clips

  -- What a run of the loop from `dir` to `out` with these paths has fetched of the candidates.
  pub record Fetches (rows : List (Segment F)) (dir out : Directory A) (paths : List String)
      : Type 0 where
    pub clips : List (Clip F A)
    pub named : paths ≡ paths_of clips
    pub held : Held out clips
    pub downloaded : AllDownloaded clips
    pub drawn : (x : String) → contains (ytids rows) x ≡ false → contains (ids clips) x ≡ false
    pub distinct : Distinct (ids clips)
    pub true_of :
        (index : List (Segment F)) (flag : Bool)
        → AllTrue index flag rows
        → AllTrue index flag (segments clips)
    pub kept :
        (path : String)
        → contains (tmp_paths (ytids rows)) path ≡ false
        → lookup path out ≡ lookup path dir

  none_fetched : (rows : List (Segment F)) (dir : Directory A) → Fetches rows dir dir []
  unfolding contains
  none_fetched rows dir = record {
    clips = [];
    named = refl;
    held = tt;
    downloaded = tt;
    drawn = λ x h. refl;
    distinct = tt;
    true_of = λ index flag h. tt;
    kept = λ path h. refl;
  }

  -- After a candidate that failed.
  skipped :
      (row : Segment F) (rows : List (Segment F)) (dir next out : Directory A) (paths : List String)
      → ((path : String)
          → str_eq (tmp_path row.ytid) path ≡ false
          → lookup path next ≡ lookup path dir)
      → Fetches rows next out paths
      → Fetches (row ∷ rows) dir out paths
  unfolding contains
  skipped row rows dir next out paths keep f = record {
    clips = f.clips;
    named = f.named;
    held = f.held;
    downloaded = f.downloaded;
    drawn = λ x h. f.drawn x (ground arith);
    distinct = f.distinct;
    true_of = λ index flag h. f.true_of index flag h.1;
    kept = λ path h. f.kept path (ground arith) ∙ keep path (ground arith);
  }

  -- After a candidate whose clip is there.
  fetched :
      (row : Segment F) (rows : List (Segment F)) (dir next out : Directory A) (paths : List String)
      (audio : A)
      → contains (ytids rows) row.ytid ≡ false
      → lookup (tmp_path row.ytid) next ≡ some audio
      → IsDownloaded (record { segment = row; audio = audio })
      → ((path : String)
          → str_eq (tmp_path row.ytid) path ≡ false
          → lookup path next ≡ lookup path dir)
      → Fetches rows next out paths
      → Fetches (row ∷ rows) dir out (tmp_path row.ytid ∷ paths)
  unfolding contains
  fetched row rows dir next out paths audio new there loaded keep f = record {
    clips = record { segment = row; audio = audio } ∷ f.clips;
    named = ap (◌∷◌ (tmp_path row.ytid)) f.named;
    held = (f.kept _ (contains-tmp_paths (ytids rows) row.ytid new) ∙ there, f.held);
    downloaded = (loaded, f.downloaded);
    drawn = λ x h. ground (arith, f.drawn x);
    distinct = (f.drawn row.ytid new, f.distinct);
    true_of = λ index flag h. (h.0, f.true_of index flag h.1);
    kept = λ path h. f.kept path (ground arith) ∙ keep path (ground arith);
  }

  download-keeps :
      (row : Segment F) (dir : Directory A) (path : String)
      → str_eq (tmp_path row.ytid) path ≡ false
      → lookup path (download_segment yt_dlp row dir).0 ≡ lookup path dir
  unfolding download_segment
  download-keeps row dir path h =
      lookup-put (tmp_path row.ytid) path (ran yt_dlp row dir).at_path dir ∙ rw h refl

  download_ok :
      (row : Segment F) (dir : Directory A)
      → (download_segment yt_dlp row dir).1 ≡ true
      → (audio : A) × IsDownloaded (record { segment = row; audio = audio })
        × (lookup (tmp_path row.ytid) (download_segment yt_dlp row dir).0 ≡ some audio)
  unfolding download_segment ran
  download_ok row dir h =
      let r = ran yt_dlp row dir in
      let (audio, e) = ran_ok r.raised r.at_path h in
      (
        audio,
        (_, e),
        lookup-put (tmp_path row.ytid) (tmp_path row.ytid) (ran yt_dlp row dir).at_path dir
            ∙ rw (eq_refl (tmp_path row.ytid)) (ap (λ (r : Ran A). r.at_path) e),
      )

  pub fetch-Fetches :
      (target n : ℕ) (rows : List (Segment F)) (dir : Directory A)
      → Distinct (ytids rows)
      → Fetches rows dir (fetch yt_dlp target n rows dir).0 (fetch yt_dlp target n rows dir).1
  unfolding fetch
  fetch-Fetches target n [] dir d = none_fetched [] dir
  fetch-Fetches target n (row ∷ rows) dir d = elim (Bool-cases (leb target n)) [
    | inl enough ↦ rw enough (none_fetched (row ∷ rows) dir)
    | inr more ↦ elim (Bool-cases (download_segment yt_dlp row dir).1) [
      | inl ok ↦
          let (audio, loaded, there) = download_ok row dir ok in
          rw (more, ok)
            (fetched row rows dir _ _ _ audio d.0 there loaded (download-keeps row dir)
              (fetch-Fetches target (suc n) rows _ d.1))
      | inr failed ↦
          rw (more, failed)
            (skipped row rows dir _ _ _ (download-keeps row dir)
              (fetch-Fetches target n rows _ d.1))
    ]
  ]

  pub length-fetch :
      (target n : ℕ) (rows : List (Segment F)) (dir : Directory A)
      → n ≤ target
      → n + length (fetch yt_dlp target n rows dir).1 ≤ target
  unfolding fetch
  length-fetch target n [] dir h = omega arith
  length-fetch target n (row ∷ rows) dir h = elim (Bool-cases (leb target n)) [
    | inl enough ↦ rw enough (omega arith)
    | inr more ↦ elim (Bool-cases (download_segment yt_dlp row dir).1) [
      | inl ok ↦
          let next = (download_segment yt_dlp row dir).0 in
          let rest = length-fetch target (suc n) rows next (ground arith) in
          rw (more, ok) (omega (arith, rest))
      | inr failed ↦ rw (more, failed) (length-fetch target n rows _ h)
    ]
  ]
