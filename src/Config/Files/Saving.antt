-- ===== src/Config/Files/Saving.antt =====
-- Saving and deleting the files of sources, as operations on the dictionary that a directory is.
use bark_detector.Prelude.{
  ◌≡◌, refl, ◌∙◌, String, Bool, true, false, ◌&&◌, Option, none, some, [], ◌∷◌, str_eq, eq_iff,
  insert, remove, arith, if◌then◌else◌, Bool-cases, inl, inr,
}
use bark_detector.Config.{SourceConfig}
use bark_detector.Config.Source.{RawSource}
use bark_detector.Config.Files.{Directory, exists, is_yaml, has_name, find_source_path, dump_source}
use bark_detector.Config.Files.Kept.{
  is_file_of, content_of, IsKept, exists-insert, exists_found, other_file, other_path, past,
  overwritten, found_here, remove_absent,
}

and_right : (a b : Bool) → (a && b) ≡ true → b ≡ true
and_right a b e = ground arith

module _ {F : Type 0} where
  pub content_of-overwrite :
      (s : SourceConfig F) (path k : String) (dir : Directory F)
      → IsKept dir
      → find_source_path s.name dir ≡ some path
      → content_of k (insert path (dump_source s) dir)
        ≡ (if str_eq s.name k then some (dump_source s) else content_of k dir)
  unfolding find_source_path content_of insert dump_source
  content_of-overwrite s path k [] kept e = cc
  content_of-overwrite s path k (file ∷ dir) kept e = elim (Bool-cases (is_file_of s.name file)) [
    | inl here ↦
        rw (found_here s.name path file dir here e)
          (overwritten s.name k file (dump_source s) (content_of k dir) here)
    | inr there ↦
        let found : find_source_path s.name dir ≡ some path = (rw there at e) in
        let apart = other_path file.0 path dir kept.0 (exists_found s.name path dir found) in
        rw apart (
          rw (content_of-overwrite s path k dir kept.2 found)
            (past s.name k file (dump_source s) (content_of k dir) there))
  ]

  pub content_of-insert_fresh :
      (s : SourceConfig F) (path k : String) (dir : Directory F)
      → exists path dir ≡ false
      → is_yaml path ≡ true
      → find_source_path s.name dir ≡ none
      → content_of k (insert path (dump_source s) dir)
        ≡ (if str_eq s.name k then some (dump_source s) else content_of k dir)
  unfolding find_source_path content_of insert dump_source exists has_name
  content_of-insert_fresh s path k [] free yaml e = rw yaml
  content_of-insert_fresh s path k (file ∷ dir) free yaml e =
      elim (Bool-cases (is_file_of s.name file)) [
        | inl here ↦ absurd (let e' = (rw here at e) in cc)
        | inr there ↦
            let found : find_source_path s.name dir ≡ none = (rw there at e) in
            let apart : str_eq file.0 path ≡ false = ground arith in
            rw apart (
              rw (content_of-insert_fresh s path k dir (ground arith) yaml found)
                (past s.name k file (dump_source s) (content_of k dir) there))
      ]

  past_removed :
      (name k : String) (file : String × RawSource F) (rest : Option (RawSource F))
      → is_file_of name file ≡ false
      → (if is_file_of k file then some file.1 else if str_eq name k then none else rest)
        ≡ (if str_eq name k then none else if is_file_of k file then some file.1 else rest)
  past_removed name k file rest other = elim (Bool-cases (str_eq name k)) [
    | inl e ↦ let o : is_file_of k file ≡ false = (rw ((eq_iff name k).0 e) at other) in rw (e, o)
    | inr e ↦ rw e
  ]

  -- At the file that is removed.
  removed :
      (name k : String) (file : String × RawSource F) (dir : Directory F)
      → is_file_of name file ≡ true
      → content_of name dir ≡ none
      → content_of k dir ≡ (
          if str_eq name k
          then none
          else if is_file_of k file
          then some file.1
          else content_of k dir)
  removed name k file dir here gone = elim (Bool-cases (str_eq name k)) [
    | inl e ↦ let g : content_of k dir ≡ none = (rw ((eq_iff name k).0 e) at gone) in rw (e, g)
    | inr e ↦ rw (e, other_file name k file here e)
  ]

  pub content_of-remove :
      (name path k : String) (dir : Directory F)
      → IsKept dir
      → find_source_path name dir ≡ some path
      → content_of k (remove path dir) ≡ (if str_eq name k then none else content_of k dir)
  unfolding find_source_path content_of remove
  content_of-remove name path k [] kept e = cc
  content_of-remove name path k (file ∷ dir) kept e = elim (Bool-cases (is_file_of name file)) [
    | inl here ↦
        let same : file.0 ≡ path = (eq_iff file.0 path).0 (found_here name path file dir here e) in
        let absent : exists path dir ≡ false = (rw same at kept.0) in
        rw (found_here name path file dir here e)
          (rw (remove_absent path dir absent) (removed name k file dir here (kept.1 name here)))
    | inr there ↦
        let found : find_source_path name dir ≡ some path = (rw there at e) in
        let apart = other_path file.0 path dir kept.0 (exists_found name path dir found) in
        rw apart (
          rw (content_of-remove name path k dir kept.2 found)
            (past_removed name k file (content_of k dir) there))
  ]

  IsKept-past :
      (file : String × RawSource F) (s : SourceConfig F) (path : String) (dir : Directory F)
      → IsKept (file ∷ dir)
      → str_eq file.0 path ≡ false
      → is_file_of s.name file ≡ false
      → ((k : String)
          → content_of k (insert path (dump_source s) dir)
            ≡ (if str_eq s.name k then some (dump_source s) else content_of k dir))
      → IsKept (insert path (dump_source s) dir)
      → IsKept (file ∷ insert path (dump_source s) dir)
  IsKept-past file s path dir kept apart other contents rest =
      let alone : exists file.0 (insert path (dump_source s) dir) ≡ false =
        (let a = kept.0 in
          ground (
            arith,
            exists-insert path file.0 (dump_source s) dir,
            eq_iff file.0 path,
            eq_iff path file.0,
          )) in
      (
        alone,
        (λ name here. contents name ∙ elim (Bool-cases (str_eq s.name name)) [
          | inl e ↦ absurd (let o = (rw ((eq_iff s.name name).0 e) at other) in cc)
          | inr e ↦ rw e (kept.1 name here)
        ]),
        rest,
      )

  pub IsKept-overwrite :
      (s : SourceConfig F) (path : String) (dir : Directory F)
      → IsKept dir
      → find_source_path s.name dir ≡ some path
      → IsKept (insert path (dump_source s) dir)
  unfolding find_source_path insert dump_source has_name
  IsKept-overwrite s path [] kept e = cc
  IsKept-overwrite s path (file ∷ dir) kept e = elim (Bool-cases (is_file_of s.name file)) [
    | inl here ↦ rw (found_here s.name path file dir here e) (
      kept.0,
      (λ name same.
          let eq : s.name ≡ name = (eq_iff s.name name).0 (and_right _ _ same) in
          rw (← eq) (kept.1 s.name here)),
      kept.2,
    )
    | inr there ↦
        let found : find_source_path s.name dir ≡ some path = (rw there at e) in
        let apart = other_path file.0 path dir kept.0 (exists_found s.name path dir found) in
        rw apart (
          IsKept-past file s path dir kept apart there
            (λ k. content_of-overwrite s path k dir kept.2 found)
            (IsKept-overwrite s path dir kept.2 found))
  ]

  pub IsKept-insert_fresh :
      (s : SourceConfig F) (path : String) (dir : Directory F)
      → IsKept dir
      → exists path dir ≡ false
      → is_yaml path ≡ true
      → find_source_path s.name dir ≡ none
      → IsKept (insert path (dump_source s) dir)
  unfolding find_source_path insert exists content_of
  IsKept-insert_fresh s path [] kept free yaml e = (refl, (λ name here. refl), kept)
  IsKept-insert_fresh s path (file ∷ dir) kept free yaml e =
      elim (Bool-cases (is_file_of s.name file)) [
        | inl here ↦ absurd (let e' = (rw here at e) in cc)
        | inr there ↦
            let found : find_source_path s.name dir ≡ none = (rw there at e) in
            let apart : str_eq file.0 path ≡ false = ground arith in
            let free' : exists path dir ≡ false = ground arith in
            rw apart (
              IsKept-past file s path dir kept apart there
                (λ k. content_of-insert_fresh s path k dir free' yaml found)
                (IsKept-insert_fresh s path dir kept.2 free' yaml found))
      ]

  exists-remove :
      (path other : String) (dir : Directory F)
      → exists other dir ≡ false
      → exists other (remove path dir) ≡ false
  unfolding exists remove
  exists-remove path other [] free = refl
  exists-remove path other (file ∷ dir) free = ground (arith, exists-remove path other dir)

  pub IsKept-remove :
      (name path : String) (dir : Directory F)
      → IsKept dir
      → find_source_path name dir ≡ some path
      → IsKept (remove path dir)
  unfolding find_source_path remove
  IsKept-remove name path [] kept e = kept
  IsKept-remove name path (file ∷ dir) kept e = elim (Bool-cases (is_file_of name file)) [
    | inl here ↦
        let same : file.0 ≡ path = (eq_iff file.0 path).0 (found_here name path file dir here e) in
        let absent : exists path dir ≡ false = (rw same at kept.0) in
        rw (found_here name path file dir here e) (rw (remove_absent path dir absent) kept.2)
    | inr there ↦
        let found : find_source_path name dir ≡ some path = (rw there at e) in
        let apart = other_path file.0 path dir kept.0 (exists_found name path dir found) in
        rw apart (
          exists-remove path file.0 dir kept.0,
          (λ other here.
              content_of-remove name path other dir kept.2 found
              ∙ elim (Bool-cases (str_eq name other)) [
                | inl same ↦ rw same
                | inr differs ↦ rw differs (kept.1 other here)
              ]),
          IsKept-remove name path dir kept.2 found,
        )
  ]
