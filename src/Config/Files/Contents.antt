-- ===== src/Config/Files/Contents.antt =====
-- What saving and deleting a source do to what the directory says of every source.
use bark_detector.Prelude.{
  ℕ, zero, suc, ◌≡◌, refl, String, true, none, some, [], ◌∷◌, length, concat, show_ℕ, str_eq,
  eq_iff, if◌then◌else◌, Bool-cases, Option-cases, inl, inr, insert,
}
use bark_detector.Config.{SourceConfig}
use bark_detector.Config.Files.{
  Directory, exists, is_yaml, find_source_path, new_source_path, dump_source, source_path,
  write_source, save_source, remove_path, delete_source_file, next_free, numbered, slugify,
}
use bark_detector.Config.Files.NewPath.{new_source_path_free}
use bark_detector.Config.Files.Kept.{content_of, IsKept, is_yaml-append, content_of-not_found}
use bark_detector.Config.Files.Saving.{
  IsKept-overwrite, IsKept-insert_fresh, IsKept-remove, content_of-overwrite,
  content_of-insert_fresh, content_of-remove,
}

numbered-is_yaml : (slug : String) (n : ℕ) → is_yaml (numbered slug n) ≡ true
unfolding is_yaml
numbered-is_yaml slug n =
    let after : is_yaml (concat (show_ℕ n ∷ ".yaml" ∷ [])) ≡ true =
      is_yaml-append (show_ℕ n) (concat (".yaml" ∷ [])) refl in
    is_yaml-append slug (concat ("-" ∷ show_ℕ n ∷ ".yaml" ∷ []))
      (is_yaml-append "-" (concat (show_ℕ n ∷ ".yaml" ∷ [])) after)

module _ {F : Type 0} where
  next_free-is_yaml :
      (fuel : ℕ) (slug : String) (n : ℕ) (dir : Directory F) (path : String)
      → next_free fuel slug n dir ≡ some path
      → is_yaml path ≡ true
  unfolding next_free
  next_free-is_yaml zero slug n dir path e = cc
  next_free-is_yaml (suc fuel) slug n dir path e =
      elim (Bool-cases (exists (numbered slug n) dir)) [
        | inl taken ↦ next_free-is_yaml fuel slug (suc n) dir path (rw taken at e)
        | inr free ↦
            let same : numbered slug n ≡ path = (let e' = (rw free at e) in cc) in
            rw (← same) (numbered-is_yaml slug n)
      ]

  new_source_path-is_yaml :
      (name : String) (dir : Directory F) (path : String)
      → new_source_path name dir ≡ some path
      → is_yaml path ≡ true
  unfolding new_source_path is_yaml
  new_source_path-is_yaml name dir path e =
      let slug = slugify name in
      elim (Bool-cases (exists (concat (slug ∷ ".yaml" ∷ [])) dir)) [
        | inl taken ↦ next_free-is_yaml (suc (length dir)) slug 2 dir path (rw taken at e)
        | inr free ↦
            let same : concat (slug ∷ ".yaml" ∷ []) ≡ path = (let e' = (rw free at e) in cc) in
            rw (← same) (is_yaml-append slug (concat (".yaml" ∷ [])) refl)
      ]

  -- In a directory where no two files have one path or name one source, saving a source succeeds,
  -- overwrites or makes exactly that source's file, leaves what the directory says of every other
  -- source, and keeps the directory in that form.
  pub save_source-content_of :
      (s : SourceConfig F) (dir : Directory F)
      → IsKept dir
      → (new : Directory F) × (save_source s dir ≡ some new)
        × IsKept new
        × ((name : String)
            → content_of name new
              ≡ (if str_eq s.name name then some (dump_source s) else content_of name dir))
  unfolding save_source write_source source_path
  save_source-content_of s dir kept = elim (Option-cases (find_source_path s.name dir)) [
    | inl missing ↦
        let (path, found, free) = new_source_path_free s.name dir in
        let yaml = new_source_path-is_yaml s.name dir path found in
        (
          insert path (dump_source s) dir,
          rw (missing, found) refl,
          IsKept-insert_fresh s path dir kept free yaml missing,
          (λ name. content_of-insert_fresh s path name dir free yaml missing),
        )
    | inr (path, found) ↦ (
      insert path (dump_source s) dir,
      rw found refl,
      IsKept-overwrite s path dir kept found,
      (λ name. content_of-overwrite s path name dir kept found),
    )
  ]

  -- In such a directory, deleting a source's file leaves no file of that source and what the
  -- directory says of every other source, and keeps the directory in that form.
  pub delete_source_file-content_of :
      (name : String) (dir : Directory F)
      → IsKept dir
      → IsKept (delete_source_file name dir)
        × ((other : String)
            → content_of other (delete_source_file name dir)
              ≡ (if str_eq name other then none else content_of other dir))
  unfolding delete_source_file remove_path
  delete_source_file-content_of name dir kept = elim (Option-cases (find_source_path name dir)) [
    | inl missing ↦ rw missing (
      kept,
      (λ other. elim (Bool-cases (str_eq name other)) [
        | inl e ↦
            let gone = content_of-not_found name dir missing in
            let gone' : content_of other dir ≡ none = (rw ((eq_iff name other).0 e) at gone) in
            rw (e, gone')
        | inr e ↦ rw e
      ]),
    )
    | inr (path, found) ↦ rw found (
      IsKept-remove name path dir kept found,
      (λ other. content_of-remove name path other dir kept found),
    )
  ]
