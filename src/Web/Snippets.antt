-- ===== src/Web/Snippets.antt =====
-- Which file web.py sends for the name of a snippet, and how many events it lists.
use Prim.Native.Char.{code}
use bark_detector.Prelude.{
  ℕ, zero, suc, ◌≤◌, ◌≡◌, refl, sym, ap, String, Bool, true, false, Option, none, some, List, [],
  ◌∷◌, str_eq, eq_iff, eq_refl, join_path, length, ltb, ◌==◌, take, arith, Bool-cases, inl, inr,
  ◌↔◌,
}
use bark_detector.Prelude.Int.{pos}
use bark_detector.Float.{Float}
use bark_detector.Config.Source.{has_slash}
use bark_detector.EventStore.{Row, EventStore, OrderBy, before, list_recent, limited}
use bark_detector.Web.{send_file, basename, get_snippet, limit_of, list_events, with_urls}

-- A name without a slash is its own last part, and a last part has no slash.
basename_same : (s : String) → has_slash s ≡ false → basename s ≡ s
unfolding basename has_slash
basename_same String.[] e = refl
basename_same (String.◌∷◌ c s) e = ground (arith, basename_same s)

basename-has_slash : (s : String) → has_slash (basename s) ≡ false
unfolding basename has_slash
basename-has_slash String.[] = refl
basename-has_slash (String.◌∷◌ c s) = elim (Bool-cases (has_slash s)) [
  | inl later ↦ rw later (basename-has_slash s)
  | inr last ↦ rw last (elim (Bool-cases (code c == b'/')) [
    | inl here ↦ rw here last
    | inr other ↦ rw other (rw (other, last))
  ])
]

sent :
    (is_file : String → Bool) (snippet_dir filename path : String)
    → get_snippet is_file snippet_dir filename ≡ send_file path
    → (path ≡ join_path snippet_dir filename)
      × (has_slash filename ≡ false)
      × (str_eq filename "" ≡ false)
      × (is_file path ≡ true)
unfolding get_snippet
sent is_file snippet_dir filename path e =
    let name = basename filename in
    let no_slash = basename-has_slash filename in
    elim (Bool-cases (str_eq name "")) [
      | inl empty ↦ absurd (let e' = (rw empty at e) in cc)
      | inr full ↦ elim (Bool-cases (str_eq name filename)) [
        | inr differs ↦ absurd (let e' = (rw (full, differs) at e) in cc)
        | inl same ↦ elim (Bool-cases (is_file (join_path snippet_dir name))) [
          | inr missing ↦ absurd (let e' = (rw (full, same, missing) at e) in cc)
          | inl there ↦
              let path_same : join_path snippet_dir name ≡ path =
                (let e' = (rw (full, same, there) at e) in cc) in
              let name_same : name ≡ filename = (eq_iff name filename).0 same in
              (
                rw (← name_same) (sym path_same),
                rw (← name_same) no_slash,
                rw (← name_same) full,
                rw (← path_same) there,
              )
        ]
      ]
    ]

-- A file is sent exactly for the names that are not empty, have no slash and name a file of the
-- directory of snippets, and it is that file.
pub get_snippet_exact :
    (is_file : String → Bool) (snippet_dir filename path : String)
    → (get_snippet is_file snippet_dir filename ≡ send_file path) ↔ (
        (path ≡ join_path snippet_dir filename)
        × (has_slash filename ≡ false)
        × (str_eq filename "" ≡ false)
        × (is_file path ≡ true))
unfolding get_snippet
get_snippet_exact is_file snippet_dir filename path = (
  sent is_file snippet_dir filename path,
  (λ (same, plain, full, there).
      let name = basename_same filename plain in
      let there' : is_file (join_path snippet_dir filename) ≡ true = (rw same at there) in
      rw (name, full, eq_refl filename, there') (ap send_file (sym same))),
)

limit_most : (n : ℕ) → (m : ℕ) × (limit_of (some (pos n)) ≡ pos m) × (m ≤ 200)
unfolding limit_of
limit_most n = elim (Bool-cases (n == 0)) [
  | inl none' ↦ (50, (rw none'), (omega arith))
  | inr some' ↦ elim (Bool-cases (ltb 200 n)) [
    | inl large ↦ (200, (rw (some', large)), (omega arith))
    | inr small ↦ (n, (rw (some', small)), (ground arith))
  ]
]

limit_fewer : (n : ℕ) → (m : ℕ) × (limit_of (some (pos (suc n))) ≡ pos m) × (m ≤ 200) × (m ≤ suc n)
unfolding limit_of
limit_fewer n =
    let some' : (suc n == 0) ≡ false = ground arith in
    elim (Bool-cases (ltb 200 (suc n))) [
      | inl large ↦ (200, (rw (some', large)), (omega arith), (ground arith))
      | inr small ↦ (suc n, (rw (some', small)), (ground arith), (omega arith))
    ]

length-take_most : {A : Type 0} (n : ℕ) (xs : List A) → length (take n xs) ≤ n
length-take_most zero xs = omega arith
length-take_most (suc n) [] = omega arith
length-take_most (suc n) (x ∷ xs) = let rest = length-take_most n xs in omega arith

module _ {F : Type 0} where
  length-with_urls : (rows : List (Row F)) → length (with_urls rows) ≡ length rows
  unfolding with_urls
  length-with_urls [] = refl
  length-with_urls (row ∷ rows) = ap suc (length-with_urls rows)

module _ {F : Type 0} ⦃fl : Float F⦄ (sql : OrderBy fl) where
  -- With a limit that is not below zero, or none, at most 200 events are listed, and no more than the
  -- limit where it is not zero.
  pub list_events-le :
      (store : EventStore F) (n : ℕ) (t : Option F)
      → (length (list_events sql store none t) ≤ 50)
        × (length (list_events sql store (some (pos n)) t) ≤ 200)
        × (length (list_events sql store (some (pos (suc n))) t) ≤ suc n)
  unfolding list_events list_recent limited limit_of
  list_events-le store n t =
      let first = sql.desc (before t store.rows) in
      let (m, e, most) = limit_most n in
      let (k, e', most', fewer) = limit_fewer n in
      (
        rw (length-with_urls (take 50 first)) (length-take_most 50 first),
        rw e (
            rw (length-with_urls (take m first)) (let l = length-take_most m first in omega arith)),
        rw e' (
            rw (length-with_urls (take k first)) (let l = length-take_most k first in omega arith)),
      )
