-- ===== src/TestRig/Index.antt =====
-- `load_segments_index` of download_audioset.py: the two tables of AudioSet and their cache.
use bark_detector.Prelude.{
  ◌≡◌, refl, sym, ap, ◌∙◌, String, false, Option, none, some, List, ◌++◌, ◌>>=◌, bind_cases, str_eq,
  lookup, insert, lookup-insert, eq_refl,
}
use bark_detector.TestRig.{Segment}

abbrev pub eval_segments_url : String
eval_segments_url =
    "https://storage.googleapis.com/us_audioset/youtube_corpus/v1/csv/eval_segments.csv"

abbrev pub balanced_segments_url : String
balanced_segments_url =
    "https://storage.googleapis.com/us_audioset/youtube_corpus/v1/csv/balanced_train_segments.csv"

-- A saved table is read as it was: `to_csv` and `read_csv`, with texts of type `T`.
pub record Tables (F T : Type 0) : Type 0 where
  pub to_csv : List (Segment F) → T
  pub read_csv : T → List (Segment F)
  pub read_csv-to_csv : (rows : List (Segment F)) → read_csv (to_csv rows) ≡ rows

module _ {F T : Type 0} (tables : Tables F T) where
  -- One turn of the loop, given what is cached under the name and what a download would give: the
  -- table and the cache. A download that fails raises.
  unfoldable pub frame_of :
      String
      → List (String × T)
      → Option T
      → Option (List (Segment F))
      → Option (List (Segment F) × List (String × T))
  frame_of name cache (some text) downloaded = some (tables.read_csv text, cache)
  frame_of name cache none none = none
  frame_of name cache none (some rows) = some (rows, insert name (tables.to_csv rows) cache)

  unfoldable pub load_table :
      (String → Option (List (Segment F)))
      → String
      → String
      → List (String × T)
      → Option (List (Segment F) × List (String × T))
  unfolding frame_of
  load_table download url name cache = frame_of name cache (lookup name cache) (download url)

  unfoldable pub load_segments_index :
      (String → Option (List (Segment F)))
      → List (String × T)
      → Option (List (Segment F) × List (String × T))
  unfolding load_table
  load_segments_index download cache = do
    eval ← load_table download eval_segments_url "eval_segments.csv" cache
    balanced ← load_table download balanced_segments_url "balanced_train_segments.csv" eval.1
    some (eval.0 ++ balanced.0, balanced.1)

  -- A table that was loaded is in the cache, and the other names are as they were.
  record IsCached (name : String) (rows : List (Segment F)) (cache next : List (String × T))
      : Type 0 where
    text : T
    cached : lookup name next ≡ some text
    read : tables.read_csv text ≡ rows
    kept : (other : String) → str_eq name other ≡ false → lookup other next ≡ lookup other cache

  frame_of-IsCached :
      (name : String) (cache next : List (String × T)) (o : Option T)
      (r : Option (List (Segment F))) (rows : List (Segment F))
      → lookup name cache ≡ o
      → frame_of name cache o r ≡ some (rows, next)
      → IsCached name rows cache next
  unfolding frame_of
  frame_of-IsCached name cache next none none rows o e = cc
  frame_of-IsCached name cache next (some text) r rows o e =
      let same : ◌≡◌ {A = List (Segment F) × List (String × T)} (tables.read_csv text, cache)
          (rows, next) =
        cc in
      let unchanged : cache ≡ next = ap (λ x. x.1) same in
      record {
        text = text;
        cached = ap (lookup name) (sym unchanged) ∙ o;
        read = ap (λ x. x.0) same;
        kept = λ other d. ap (lookup other) (sym unchanged);
      }
  frame_of-IsCached name cache next none (some found) rows o e =
      let text = tables.to_csv found in
      let same : ◌≡◌ {A = List (Segment F) × List (String × T)} (found, insert name text cache)
          (rows, next) =
        cc in
      let saved : insert name text cache ≡ next = ap (λ x. x.1) same in
      record {
        text = text;
        cached =
            ap (lookup name) (sym saved)
            ∙ (lookup-insert name name text cache ∙ rw (eq_refl name) refl);
        read = tables.read_csv-to_csv found ∙ ap (λ x. x.0) same;
        kept = λ other d.
            ap (lookup other) (sym saved) ∙ (lookup-insert name other text cache ∙ rw d refl);
      }

  load_table-IsCached :
      (download : String → Option (List (Segment F))) (url name : String)
      (cache : List (String × T)) (loaded : List (Segment F) × List (String × T))
      → load_table download url name cache ≡ some loaded
      → IsCached name loaded.0 cache loaded.1
  unfolding load_table
  load_table-IsCached download url name cache loaded e =
      frame_of-IsCached name cache loaded.1 (lookup name cache) (download url) loaded.0 refl e

  load_table-cached :
      (download : String → Option (List (Segment F))) (url name : String) (rows : List (Segment F))
      (cache next later : List (String × T)) (c : IsCached name rows cache next)
      → lookup name later ≡ lookup name next
      → load_table download url name later ≡ some (rows, later)
  unfolding load_table frame_of
  load_table-cached download url name rows cache next later c same =
      rw (same ∙ c.cached) (ap (λ r. some (r, later)) c.read)

  -- Where the index was loaded, it is loaded again from the cache that this left as it was, the
  -- cache stays as it is, and nothing depends on what a download would give.
  pub load_segments_index-cached :
      (download again : String → Option (List (Segment F))) (cache next : List (String × T))
      (index : List (Segment F))
      → load_segments_index download cache ≡ some (index, next)
      → load_segments_index again next ≡ some (index, next)
  unfolding load_segments_index
  load_segments_index-cached download again cache next index e =
      let (eval, f, e1) = bind_cases _ _ e in
      let (balanced, g, e2) = bind_cases _ _ e1 in
      let first = load_table-IsCached download eval_segments_url "eval_segments.csv" cache eval f in
      let second =
        load_table-IsCached download balanced_segments_url "balanced_train_segments.csv" eval.1
          balanced g in
      let same : ◌≡◌ {A = List (Segment F) × List (String × T)} (eval.0 ++ balanced.0, balanced.1)
          (index, next) =
        cc in
      let main : load_segments_index again balanced.1 ≡ some (eval.0 ++ balanced.0, balanced.1) =
        rw
          (
            load_table-cached again eval_segments_url "eval_segments.csv" eval.0 cache eval.1
                balanced.1 first (second.kept "eval_segments.csv" refl),
            load_table-cached again balanced_segments_url "balanced_train_segments.csv" balanced.0
                eval.1 balanced.1 balanced.1 second refl,
          )
          refl in
      ap (λ x. load_segments_index again x.1) (sym same) ∙ (main ∙ ap some same)
