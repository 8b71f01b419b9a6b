-- ===== src/Config/Files/Kept.antt =====
-- The directory of sources of config.py as a dictionary from names of sources to their files.
use text.Mathlib.TextLemmas.{nil-append, cons-append}
use Prim.Native.String.{◌++◌ as append}
use bark_detector.Prelude.{
  ◌≡◌, refl, String, Bool, true, false, ◌&&◌, ◌||◌, Option, none, some, [], ◌∷◌, str_eq, eq_iff,
  insert, remove, arith, if◌then◌else◌, Bool-cases, inl, inr,
}
use bark_detector.Config.Source.{RawSource}
use bark_detector.Config.Files.{Directory, exists, is_yaml, has_name, find_source_path}

pub is_yaml-append : (a s : String) → is_yaml s ≡ true → is_yaml (append a s) ≡ true
unfolding is_yaml
is_yaml-append String.[] s e = rw (nil-append s) e
is_yaml-append (String.◌∷◌ c a) s e =
    rw (cons-append c a s) (rw (is_yaml-append a s e) (ground arith))

pub has_name_other :
    (o : Option String) (a b : String)
    → has_name o a ≡ true
    → str_eq a b ≡ false
    → has_name o b ≡ false
unfolding has_name
has_name_other none a b h d = refl
has_name_other (some c) a b h d = rw ((eq_iff c a).0 h) d

module _ {F : Type 0} where
  -- The file is a YAML file of the source with this name.
  abbrev pub is_file_of : String → String × RawSource F → Bool
  is_file_of name file = is_yaml file.0 && has_name file.1.name name

  -- What the directory says of a source.
  unfoldable pub content_of : String → Directory F → Option (RawSource F)
  content_of name [] = none
  content_of name (file ∷ dir) = if is_file_of name file then some file.1 else content_of name dir

  -- No two files have one path, and no two YAML files name one source.
  abbrev pub IsKept : Directory F → Type 0
  IsKept [] = Unit {0}
  IsKept (file ∷ dir) =
      (exists file.0 dir ≡ false)
      × ((name : String) → is_file_of name file ≡ true → content_of name dir ≡ none)
      × IsKept dir

  pub exists-insert :
      (path other : String) (new : RawSource F) (dir : Directory F)
      → exists other (insert path new dir) ≡ (exists other dir || str_eq path other)
  unfolding exists insert
  exists-insert path other new [] = ground arith
  exists-insert path other new (file ∷ dir) = ground (
    arith,
    exists-insert path other new dir,
    eq_iff file.0 path,
    eq_iff file.0 other,
    eq_iff path other,
  )

  pub exists_found :
      (name path : String) (dir : Directory F)
      → find_source_path name dir ≡ some path
      → exists path dir ≡ true
  unfolding exists find_source_path
  exists_found name path [] e = cc
  exists_found name path (file ∷ dir) e = elim (Bool-cases (is_file_of name file)) [
    | inl here ↦
        let same : file.0 ≡ path = (let e' = (rw here at e) in cc) in
        ground (arith, eq_iff file.0 path)
    | inr there ↦ ground (arith, exists_found name path dir (rw there at e))
  ]

  pub content_of-not_found :
      (name : String) (dir : Directory F)
      → find_source_path name dir ≡ none
      → content_of name dir ≡ none
  unfolding find_source_path content_of
  content_of-not_found name [] e = refl
  content_of-not_found name (file ∷ dir) e = ground (arith, content_of-not_found name dir)

  pub other_file :
      (a b : String) (file : String × RawSource F)
      → is_file_of a file ≡ true
      → str_eq a b ≡ false
      → is_file_of b file ≡ false
  other_file a b file h d = ground (arith, has_name_other file.1.name a b)

  pub other_path :
      (a path : String) (dir : Directory F)
      → exists a dir ≡ false
      → exists path dir ≡ true
      → str_eq a path ≡ false
  other_path a path dir absent present = elim (Bool-cases (str_eq a path)) [
    | inl same ↦
        let e : a ≡ path = (eq_iff a path).0 same in absurd (let c = (rw e at absent) in cc)
    | inr apart ↦ apart
  ]

  -- Past a file of another source.
  pub past :
      (name k : String) (file : String × RawSource F) (new : RawSource F)
      (rest : Option (RawSource F))
      → is_file_of name file ≡ false
      → (if is_file_of k file then some file.1 else if str_eq name k then some new else rest)
        ≡ (if str_eq name k then some new else if is_file_of k file then some file.1 else rest)
  past name k file new rest other = elim (Bool-cases (str_eq name k)) [
    | inl e ↦ let o : is_file_of k file ≡ false = (rw ((eq_iff name k).0 e) at other) in rw (e, o)
    | inr e ↦ rw e
  ]

  -- At the file that is overwritten.
  pub overwritten :
      (name k : String) (file : String × RawSource F) (new : RawSource F)
      (rest : Option (RawSource F))
      → is_file_of name file ≡ true
      → (if is_yaml file.0 && str_eq name k then some new else rest)
        ≡ (if str_eq name k then some new else if is_file_of k file then some file.1 else rest)
  overwritten name k file new rest here =
      let yaml : is_yaml file.0 ≡ true = ground arith in
      elim (Bool-cases (str_eq name k)) [
        | inl e ↦ rw (yaml, e)
        | inr e ↦ let o = other_file name k file here e in rw (o, yaml) (rw e)
      ]

  pub found_here :
      (name path : String) (file : String × RawSource F) (dir : Directory F)
      → is_file_of name file ≡ true
      → find_source_path name (file ∷ dir) ≡ some path
      → str_eq file.0 path ≡ true
  unfolding find_source_path
  found_here name path file dir here e =
      let same : file.0 ≡ path = (let e' = (rw here at e) in cc) in (eq_iff file.0 path).1 same

  pub remove_absent :
      (path : String) (dir : Directory F) → exists path dir ≡ false → remove path dir ≡ dir
  unfolding exists remove
  remove_absent path [] e = refl
  remove_absent path (file ∷ dir) e = ground (arith, remove_absent path dir)
