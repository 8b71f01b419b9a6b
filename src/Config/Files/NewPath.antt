-- ===== src/Config/Files/NewPath.antt =====
-- The loop of `_new_source_path` of config.py ends.
use bark_detector.Prelude.{
  ℕ, zero, suc, ◌<◌, ◌≡◌, refl, ◌∙◌, sym, ap, String, true, false, ◌||◌, some, [], ◌∷◌, length,
  str_eq, eq_iff, concat, arith, if◌then◌else◌, Bool-cases, inl, inr,
}
use bark_detector.Prelude.Texts.Numerals.{read, read-show_ℕ}
use text.Mathlib.TextLemmas.{append_cancel_left}
use bark_detector.Config.Files.{Directory, exists, numbered, next_free, new_source_path, slugify}

-- Different numbers make different paths.
numbered_inj : (slug : String) (m n : ℕ) → numbered slug m ≡ numbered slug n → m ≡ n
unfolding read
numbered_inj slug m n e =
    let same = append_cancel_left "-" _ _ (append_cancel_left slug _ _ e) in
    sym (read-show_ℕ m (concat (".yaml" ∷ [])))
    ∙ (ap (read 0) same ∙ read-show_ℕ n (concat (".yaml" ∷ [])))

numbered_apart :
    (slug : String) (m n : ℕ) → m < n → str_eq (numbered slug m) (numbered slug n) ≡ false
numbered_apart slug m n h = elim (Bool-cases (str_eq (numbered slug m) (numbered slug n))) [
  | inl same ↦
      let e = numbered_inj slug m n ((eq_iff (numbered slug m) (numbered slug n)).0 same) in
      absurd (omega arith)
  | inr apart ↦ apart
]

module _ {F : Type 0} where
  -- The files less the first one at a path.
  abbrev without_path : String → Directory F → Directory F
  without_path path [] = []
  without_path path (file ∷ dir) =
      let rest = without_path path dir in if str_eq file.0 path then dir else file ∷ rest

  length-without_path :
      (path : String) (dir : Directory F)
      → exists path dir ≡ true
      → length dir ≡ suc (length (without_path path dir))
  unfolding exists
  length-without_path path [] e = cc
  length-without_path path (file ∷ dir) e = elim (Bool-cases (str_eq file.0 path)) [
    | inl here ↦ rw here refl
    | inr there ↦ rw there (ap suc (length-without_path path dir (rw there at e)))
  ]

  exists-without_path :
      (path other : String) (dir : Directory F)
      → str_eq path other ≡ false
      → exists other (without_path path dir) ≡ exists other dir
  unfolding exists
  exists-without_path path other [] d = refl
  exists-without_path path other (file ∷ dir) d = elim (Bool-cases (str_eq file.0 path)) [
    | inl here ↦ rw here (rw ((eq_iff file.0 path).0 here) (rw d refl))
    | inr there ↦
        rw there (ap (λ b. str_eq file.0 other || b) (exists-without_path path other dir d))
  ]

  -- A path that is never tried again may as well not be there.
  next_free-without_path :
      (fuel : ℕ) (slug : String) (m n : ℕ) (dir : Directory F)
      → m < n
      → next_free fuel slug n (without_path (numbered slug m) dir) ≡ next_free fuel slug n dir
  unfolding next_free
  next_free-without_path zero slug m n dir h = refl
  next_free-without_path (suc fuel) slug m n dir h =
      let apart : str_eq (numbered slug m) (numbered slug n) ≡ false = numbered_apart slug m n h in
      rw (
        exists-without_path (numbered slug m) (numbered slug n) dir apart,
        next_free-without_path fuel slug m (suc n) dir (omega arith),
      )

  next_free_found :
      (fuel : ℕ) (slug : String) (n : ℕ) (dir : Directory F)
      → length dir < fuel
      → (path : String) × (next_free fuel slug n dir ≡ some path)
  unfolding next_free
  next_free_found zero slug n dir h = absurd (omega arith)
  next_free_found (suc fuel) slug n dir h = elim (Bool-cases (exists (numbered slug n) dir)) [
    | inl taken ↦
        let fewer = length-without_path (numbered slug n) dir taken in
        let (path, found) =
          next_free_found fuel slug (suc n) (without_path (numbered slug n) dir) (omega arith) in
        (
          path,
          rw taken (sym (next_free-without_path fuel slug n (suc n) dir (omega arith)) ∙ found),
        )
    | inr free ↦ (numbered slug n, rw free)
  ]

  next_free_free :
      (fuel : ℕ) (slug : String) (n : ℕ) (dir : Directory F) (path : String)
      → next_free fuel slug n dir ≡ some path
      → exists path dir ≡ false
  unfolding next_free
  next_free_free zero slug n dir path e = cc
  next_free_free (suc fuel) slug n dir path e = elim (Bool-cases (exists (numbered slug n) dir)) [
    | inl taken ↦ next_free_free fuel slug (suc n) dir path (rw taken at e)
    | inr free ↦
        let same : numbered slug n ≡ path = (let e' = (rw free at e) in cc) in rw (← same) free
  ]

  -- The search for a new file's path always ends, within one try more than there are files, and
  -- with a path at which there is no file.
  pub new_source_path_free :
      (name : String) (dir : Directory F)
      → (path : String) × (new_source_path name dir ≡ some path) × (exists path dir ≡ false)
  unfolding new_source_path
  new_source_path_free name dir =
      let slug = slugify name in
      elim (Bool-cases (exists (concat (slug ∷ ".yaml" ∷ [])) dir)) [
        | inl taken ↦
            let (path, found) = next_free_found (suc (length dir)) slug 2 dir (omega arith) in
            (path, rw taken found, next_free_free (suc (length dir)) slug 2 dir path found)
        | inr free ↦ (concat (slug ∷ ".yaml" ∷ []), rw free, free)
      ]
