-- ===== src/TestRig/Tests.antt =====
-- Runs of download_audioset.py, and its theorems at concrete inputs.
use mathlib.Core.List.{Permᴰ}
use mathlib.Core.List.Permᴰ
use bark_detector.Prelude.{
  ℕ, zero, suc, ◌+◌, ◌≤◌, ◌≡◌, refl, String, true, false, Option, none, some, List, [], ◌∷◌, ◌++◌,
  length, take, drop, take-append-drop, contains, lookup, rename, moved, insert, remove, str_eq,
  arith, show_ℕ,
}
use bark_detector.Float.Milli.{milli}
use bark_detector.Snippet.Notices.{Distinct}
use bark_detector.TestRig.{
  Segment, Sampler, select_candidates, pool, labelled, contains_any, str_contains, starts_with,
}
use bark_detector.TestRig.Pools.{ytids}
use bark_detector.TestRig.Run.{
  Request, Ran, Directory, Fetched, no_ffmpeg, wrote, fetch_dataset, main, request_for, sample_name,
  fetch, only, interleave, number, result_of, download_segment, ran, put, exists,
}
use bark_detector.TestRig.Index.{Tables, load_segments_index, load_table, frame_of}
use bark_detector.TestRig.Labels.{IsDataset, fetch_dataset-IsDataset}
use bark_detector.TestRig.Order.{flags, pattern_of, interleave_lem}
use bark_detector.TestRig.Settled.{main-settled}

length-take : {A : Type 0} (n : ℕ) (xs : List A) → n ≤ length xs → length (take n xs) ≡ n
length-take zero xs h = refl
length-take (suc n) [] h = absurd (omega arith)
length-take (suc n) (x ∷ xs) h = omega (arith, length-take n xs (omega arith))

perm_of : {xs ys : List (Segment ℕ)} → xs ≡ ys → Permᴰ xs ys
perm_of {xs} e = rw (← e) (Permᴰ.refl xs)

abbrev first_rows : Sampler ℕ
first_rows = record {
  sample = λ n seed rows. take n rows;
  length-sample = λ n seed rows h. length-take n rows h;
  sample_of = λ n seed rows h. (drop n rows, perm_of (take-append-drop n rows));
}

abbrev segment : String → Option String → Segment ℕ
segment id labels = record {
  ytid = id;
  start_seconds = 30000;
  end_seconds = 42500;
  positive_labels = labels;
}

abbrev index : List (Segment ℕ)
index =
    segment "aaa" (some "/m/0bt9lr,/m/05tny_")
    ∷ segment "bbb" (some "/m/09x0r")
    ∷ segment "ccc" (some "/m/07r_k2n")
    ∷ segment "ddd" (some "/m/05tny_")
    ∷ segment "eee" none
    ∷ []

index-Distinct : Distinct (ytids index)
unfolding contains
index-Distinct = (refl, (refl, (refl, (refl, (refl, tt)))))

-- The video `aaa` is gone; a clip is the text of its address.
abbrev yt_dlp : Request → Option String → Ran String
yt_dlp r before = record {
  raised = str_eq r.url "https://youtube.com/watch?v=aaa";
  at_path = some r.url;
}

abbrev run : Fetched String
run = fetch_dataset first_rows yt_dlp true index 2 2 0 []

abbrev result : Directory String
result =
    ("_tmp_aaa.wav", "https://youtube.com/watch?v=aaa")
    ∷ ("01_bark.wav", "https://youtube.com/watch?v=ddd")
    ∷ ("02_negative.wav", "https://youtube.com/watch?v=bbb")
    ∷ ("03_negative.wav", "https://youtube.com/watch?v=eee")
    ∷ []

run-result : run ≡ wrote 3 result
unfolding fetch_dataset fetch only interleave number result_of select_candidates download_segment
    ran put exists rename moved pool labelled contains_any str_contains starts_with request_for
    sample_name lookup insert remove show_ℕ
run-result = refl

fetch_dataset-IsDataset_example :
    (n : ℕ) × (out : Directory String) × (fetch_dataset first_rows yt_dlp true index 2 2 0 []
      ≡ wrote n out)
    × IsDataset ℕ yt_dlp index n out
    × (n ≤ 2 + 2)
fetch_dataset-IsDataset_example =
    fetch_dataset-IsDataset first_rows yt_dlp index 2 2 0 [] index-Distinct

main-settled_example : main false result (λ dir. no_ffmpeg) ≡ none
main-settled_example =
    main-settled first_rows yt_dlp index 2 2 0 2 [] result (λ dir. no_ffmpeg) index-Distinct
      run-result

abbrev tables : Tables ℕ (List (Segment ℕ))
tables = record { to_csv = λ rows. rows; read_csv = λ text. text; read_csv-to_csv = λ rows. refl }

abbrev remote : String → Option (List (Segment ℕ))
remote url = some (segment url none ∷ [])

abbrev cache : List (String × List (Segment ℕ))
cache = ("eval_segments.csv", index) ∷ []

abbrev cache_after : List (String × List (Segment ℕ))
cache_after =
    ("eval_segments.csv", index)
    ∷ (
      "balanced_train_segments.csv",
      segment
            "https://storage.googleapis.com/us_audioset/youtube_corpus/v1/csv/balanced_train_segments.csv"
            none
          ∷ [],
    )
    ∷ []

abbrev loaded : List (Segment ℕ)
loaded =
    index
    ++ segment
        "https://storage.googleapis.com/us_audioset/youtube_corpus/v1/csv/balanced_train_segments.csv"
        none
      ∷ []

loads : load_segments_index tables remote cache ≡ some (loaded, cache_after)
unfolding load_segments_index load_table frame_of lookup insert
loads = refl

abbrev barks : List String
barks = "a" ∷ "b" ∷ []

abbrev negatives : List String
negatives = "n" ∷ []

interleave_lem_example :
    (only true (interleave barks negatives) ≡ barks)
    × (only false (interleave barks negatives) ≡ negatives)
    × (flags (interleave barks negatives) ≡ pattern_of 2 1)
interleave_lem_example = interleave_lem barks negatives
