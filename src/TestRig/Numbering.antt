-- ===== src/TestRig/Numbering.antt =====
-- The final names that download_audioset.py gives its clips.
use text.Mathlib.TextLemmas.{nil-append, cons-append}
use bark_detector.Prelude.{
  ℕ, suc, ◌≤◌, ◌<◌, ◌≡◌, refl, sym, ap, ◌∙◌, String, Bool, true, false, none, some, List, [], ◌∷◌,
  ltb, if◌then◌else◌, contains, str_eq, eq_iff, eq_refl, concat, show_ℕ, lookup, rename, moved,
  insert, remove, lookup-insert, lookup-remove, arith, Bool-cases, inl, inr,
}
use bark_detector.Prelude.Texts.Numerals.{read, read_zero, read-show_ℕ}
use bark_detector.Snippet.Notices.{Distinct}
use bark_detector.TestRig.Run.{Directory, tmp_path, sample_name, number}
use bark_detector.TestRig.Fetching.{Clip, Held, Held-kept, ids, tmp_paths, tmp_path_apart}

read-suffix :
    (i : ℕ) (is_bark : Bool)
    → read i (concat ((if is_bark then "_bark.wav" else "_negative.wav") ∷ [])) ≡ i
unfolding read
read-suffix i true = refl
read-suffix i false = refl

-- A name starts with its number.
read-sample_name : (i : ℕ) (is_bark : Bool) → read 0 (sample_name i is_bark) ≡ i
unfolding sample_name
read-sample_name i is_bark =
    let suffix = if is_bark then "_bark.wav" else "_negative.wav" in
    let numeral : read 0 (concat (show_ℕ i ∷ suffix ∷ [])) ≡ i =
      read-show_ℕ i (concat (suffix ∷ [])) ∙ read-suffix i is_bark in
    elim (Bool-cases (ltb i 10)) [
      | inl e ↦ rw e (read_zero _ ∙ numeral)
      | inr e ↦ rw e (ap (read 0) (nil-append _) ∙ numeral)
    ]

read-tmp_path : (x : String) → read 0 (tmp_path x) ≡ 0
unfolding read
read-tmp_path x = ap (read 0) (cons-append "_" "tmp_" (concat (x ∷ ".wav" ∷ [])))

apart_of_read : (x y : String) → (read 0 x ≡ read 0 y → ⊥) → str_eq x y ≡ false
apart_of_read x y h = elim (Bool-cases (str_eq x y)) [
  | inl e ↦ absurd (h (ap (read 0) ((eq_iff x y).0 e)))
  | inr e ↦ e
]

sample_name-tmp_path :
    (i : ℕ) (is_bark : Bool) (x : String)
    → 0 < i
    → str_eq (sample_name i is_bark) (tmp_path x) ≡ false
sample_name-tmp_path i is_bark x h = apart_of_read _ _ λ e.
    let same : i ≡ 0 = sym (read-sample_name i is_bark) ∙ (e ∙ read-tmp_path x) in
    absurd (omega arith)

tmp_path-sample_name :
    (x : String) (i : ℕ) (is_bark : Bool)
    → 0 < i
    → str_eq (tmp_path x) (sample_name i is_bark) ≡ false
tmp_path-sample_name x i is_bark h = apart_of_read _ _ λ e.
    let same : i ≡ 0 = sym (read-sample_name i is_bark) ∙ (sym e ∙ read-tmp_path x) in
    absurd (omega arith)

sample_name_apart :
    (i j : ℕ) (b c : Bool) → i < j → str_eq (sample_name j c) (sample_name i b) ≡ false
sample_name_apart i j b c h = apart_of_read _ _ λ e.
    let same : j ≡ i = sym (read-sample_name j c) ∙ (e ∙ read-sample_name i b) in
    absurd (omega arith)

apart_of_contains :
    (xs : List String) (x y : String)
    → contains xs x ≡ false
    → contains xs y ≡ true
    → str_eq x y ≡ false
apart_of_contains xs x y h k = elim (Bool-cases (str_eq x y)) [
  | inl e ↦
      let same : contains xs x ≡ contains xs y = ap (contains xs) ((eq_iff x y).0 e) in absurd (cc)
  | inr e ↦ e
]

not-contains-head :
    (x y : String) (xs : List String) → contains (x ∷ xs) y ≡ false → str_eq x y ≡ false
unfolding contains
not-contains-head x y xs h = ground arith

not-contains-tail :
    (x y : String) (xs : List String) → contains (x ∷ xs) y ≡ false → contains xs y ≡ false
unfolding contains
not-contains-tail x y xs h = ground arith

contains-sample_name :
    (xs : List String) (i : ℕ) (is_bark : Bool)
    → 0 < i
    → contains (tmp_paths xs) (sample_name i is_bark) ≡ false
unfolding contains
contains-sample_name [] i is_bark h = refl
contains-sample_name (x ∷ xs) i is_bark h =
    rw (tmp_path-sample_name x i is_bark h) (contains-sample_name xs i is_bark h)

module _ {A : Type 0} where
  abbrev renamed : String → String → A → Directory A → Directory A
  renamed path target audio dir = insert target audio (remove path dir)

  lookup-renamed :
      (path target other : String) (audio : A) (dir : Directory A)
      → lookup other (renamed path target audio dir) ≡ (
          if str_eq target other
          then some audio
          else if str_eq path other
          then none
          else lookup other dir)
  lookup-renamed path target other audio dir =
      lookup-insert target other audio (remove path dir)
      ∙ ap (λ o. if str_eq target other then some audio else o) (lookup-remove path other dir)

module _ {F A : Type 0} where
  abbrev pub clips_of : List (Clip F A × Bool) → List (Clip F A)
  clips_of [] = []
  clips_of ((c, is_bark) ∷ ordered) = c ∷ clips_of ordered

  -- What the last loop is given of these clips.
  abbrev pub entries : List (Clip F A × Bool) → List (String × Bool)
  entries [] = []
  entries ((c, is_bark) ∷ ordered) = (tmp_path c.segment.ytid, is_bark) ∷ entries ordered

  -- Each clip is under its number and its suffix.
  abbrev pub Named : ℕ → List (Clip F A × Bool) → Directory A → Type 0
  Named i [] dir = Unit
  Named i ((c, is_bark) ∷ ordered) dir =
      (lookup (sample_name i is_bark) dir ≡ some c.audio) × Named (suc i) ordered dir

  -- What the loop from `i` does: it ends, and touches only the new names and the old paths.
  pub record Numbers (i : ℕ) (ordered : List (Clip F A × Bool)) (dir : Directory A) : Type 0 where
    pub out : Directory A
    pub ends : number i (entries ordered) dir ≡ some out
    pub named : Named i ordered out
    pub kept :
        (path : String)
        → ((j : ℕ) (b : Bool) → i ≤ j → str_eq (sample_name j b) path ≡ false)
        → contains (tmp_paths (ids (clips_of ordered))) path ≡ false
        → lookup path out ≡ lookup path dir

  pub number-Numbers :
      (i : ℕ) (ordered : List (Clip F A × Bool)) (dir : Directory A)
      → 0 < i
      → Held dir (clips_of ordered)
      → Distinct (ids (clips_of ordered))
      → Numbers i ordered dir
  unfolding number rename moved contains
  number-Numbers i [] dir pos h d = record {
    out = dir;
    ends = refl;
    named = tt;
    kept = λ path a b. refl;
  }
  number-Numbers i ((c, is_bark) ∷ ordered) dir pos h d =
      let path = tmp_path c.segment.ytid in
      let name = sample_name i is_bark in
      let next = renamed path name c.audio dir in
      let look : (other : String)
          → lookup other next ≡ (
              if str_eq name other
              then some c.audio
              else if str_eq path other
              then none
              else lookup other dir) =
        λ other. lookup-renamed path name other c.audio dir in
      let held : Held next (clips_of ordered) =
        Held-kept dir next (clips_of ordered)
          (λ x m.
            let apart = apart_of_contains (ids (clips_of ordered)) c.segment.ytid x d.0 m in
            look (tmp_path x)
            ∙ rw (sample_name-tmp_path i is_bark x pos, tmp_path_apart _ x apart) refl)
          h.1 in
      let rest = number-Numbers (suc i) ordered next (omega arith) held d.1 in
      record {
        out = rest.out;
        ends = rw (h.0) (rest.ends);
        named = (
          rest.kept name (λ j b le. sample_name_apart i j is_bark b (omega arith))
                (contains-sample_name (ids (clips_of ordered)) i is_bark pos)
              ∙ look name
              ∙ rw (eq_refl name) refl,
          rest.named,
        );
        kept = λ other a b.
            rest.kept other (λ j flag le. a j flag (omega arith)) (not-contains-tail path other _ b)
            ∙ look other
            ∙ rw (a i is_bark (omega arith), not-contains-head path other _ b) refl;
      }
