-- ===== src/Config/Files.antt =====
-- config.py: the directory with one file for each source. A directory is the list of its files, by
-- name, with the dictionaries that YAML reads from them; reading a missing directory is reading an
-- empty one. A dictionary is saved as it is read.
pub mod Slug
pub mod NewPath
pub mod RoundTrip
pub mod Kept
pub mod Saving
pub mod Contents
mod Tests
use Prim.Native.Char.{Char, code}
use bark_detector.Prelude.{
  ℕ, zero, suc, ◌+◌, String, Bool, true, false, not, ◌&&◌, ◌||◌, Option, none, some, List, [], ◌∷◌,
  ◌++◌, length, ◌==◌, str_eq, contains, concat, lookup, insert, remove, if◌then◌else◌, show_ℕ,
}
use bark_detector.Float.{Float}
use bark_detector.Config.{SourceConfig}
use bark_detector.Config.Source.{
  RawSource, ConfigError, duplicate_source, Result, ok, error, build_source_config, in_range,
}

-- `[A-Za-z0-9_-]`
unfoldable pub is_slug_code : ℕ → Bool
is_slug_code c =
    in_range b'A' b'Z' c || in_range b'a' b'z' c || in_range b'0' b'9' c || c == b'_' || c == b'-'

-- `re.sub(r"[^A-Za-z0-9_-]+", "_", name)`; the flag is set within a run of other characters.
unfoldable pub underscored : Bool → String → String
unfolding is_slug_code
underscored run String.[] = String.[]
underscored run (String.◌∷◌ c s) =
    let fits = is_slug_code (code c) in
    let rest = underscored (not fits) s in
    if fits then String.◌∷◌ c rest else if run then rest else String.◌∷◌ "_" rest

is_edge : Char → Bool
is_edge c = code c == b'_' || code c == b'-'

-- `strip("_-")`, from the left and from the right
unfoldable pub strip_left : String → String
unfolding is_edge
strip_left String.[] = String.[]
strip_left (String.◌∷◌ c s) = let rest = strip_left s in if is_edge c then rest else String.◌∷◌ c s

unfoldable pub strip_right : String → String
unfolding is_edge
strip_right String.[] = String.[]
strip_right (String.◌∷◌ c s) =
    let rest = strip_right s in if str_eq rest "" && is_edge c then String.[] else String.◌∷◌ c rest

unfoldable pub slugify : String → String
unfolding underscored strip_left strip_right
slugify name =
    let slug = strip_right (strip_left (underscored false name)) in
    if str_eq slug "" then "source" else slug

-- `filename.endswith(".yaml")`
unfoldable pub is_yaml : String → Bool
is_yaml String.[] = false
is_yaml (String.◌∷◌ c s) = str_eq (String.◌∷◌ c s) ".yaml" || is_yaml s

unfoldable pub has_name : Option String → String → Bool
has_name none name = false
has_name (some given) name = str_eq given name

-- The n-th path that `_new_source_path` tries after the first.
abbrev pub numbered : String → ℕ → String
numbered slug n = concat (slug ∷ "-" ∷ show_ℕ n ∷ ".yaml" ∷ [])

abbrev pub Directory : Type 0 → Type 0
Directory F = List (String × RawSource F)

module _ {F : Type 0} where
  -- `os.path.exists`
  unfoldable pub exists : String → Directory F → Bool
  exists path [] = false
  exists path (file ∷ dir) = str_eq file.0 path || exists path dir

  -- `_find_source_path`
  unfoldable pub find_source_path : String → Directory F → Option String
  unfolding has_name
  find_source_path name [] = none
  find_source_path name (file ∷ dir) =
      if is_yaml file.0 && has_name file.1.name name then some file.0 else find_source_path name dir

  -- The loop of `_new_source_path`; `none` if the fuel runs out.
  unfoldable pub next_free : ℕ → String → ℕ → Directory F → Option String
  next_free zero slug n dir = none
  next_free (suc fuel) slug n dir =
      let next = next_free fuel slug (suc n) dir in
      if exists (numbered slug n) dir then next else some (numbered slug n)

  unfoldable pub new_source_path : String → Directory F → Option String
  unfolding next_free slugify
  new_source_path name dir =
      let path = concat (slugify name ∷ ".yaml" ∷ []) in
      let next = next_free (suc (length dir)) (slugify name) 2 dir in
      if exists path dir then next else some path

  -- `_dump_source`
  unfoldable pub dump_source : SourceConfig F → RawSource F
  dump_source source = record {
    name = some source.name;
    type = some source.type;
    path = some source.path;
    id = some source.id;
    listen = some source.listen;
    thresholds = none;
    notify_thresholds = some source.notify_thresholds;
    detection_thresholds = some source.detection_thresholds;
    min_volume = some source.min_volume;
    pre_capture = some source.pre_capture;
    post_capture = some source.post_capture;
    input_args = some source.input_args;
  }

  -- The path that `save_source` writes to.
  unfoldable pub source_path : Option String → SourceConfig F → Directory F → Option String
  source_path none source dir = new_source_path source.name dir
  source_path (some path) source dir = some path

  unfoldable pub write_source : Option String → SourceConfig F → Directory F → Option (Directory F)
  unfolding dump_source
  write_source none source dir = none
  write_source (some path) source dir = some (insert path (dump_source source) dir)

  unfoldable pub save_source : SourceConfig F → Directory F → Option (Directory F)
  unfolding source_path write_source
  save_source source dir =
      write_source (source_path (find_source_path source.name dir) source dir) source dir

  unfoldable pub remove_path : Option String → Directory F → Directory F
  remove_path none dir = dir
  remove_path (some path) dir = remove path dir

  unfoldable pub delete_source_file : String → Directory F → Directory F
  unfolding remove_path
  delete_source_file name dir = remove_path (find_source_path name dir) dir

has_key : Option String → Bool
has_key none = false
has_key (some a) = true

-- What loading gives: the sources, or the error that ends it, and the sources that are saved on
-- the way because their files have no identifier.
abbrev pub Loaded : Type 0 → Type 0
Loaded F = Result (List (SourceConfig F)) × List (SourceConfig F)

module _ {F : Type 0} where
  unfoldable pub add_loaded : SourceConfig F → Loaded F → Loaded F
  add_loaded source (error e, saved) = (error e, saved)
  add_loaded source (ok sources, saved) = (ok (source ∷ sources), saved)

  unfoldable pub migrate : Bool → SourceConfig F → Loaded F → Loaded F
  migrate true source loaded = loaded
  migrate false source loaded = (loaded.0, source ∷ loaded.1)

  -- What becomes of a file that was read, where `next` goes on with the names that were seen.
  unfoldable pub load_built :
      List String → Option String → Result (SourceConfig F) → (List String → Loaded F) → Loaded F
  unfolding has_key add_loaded migrate
  load_built seen id (error e) next = (error e, [])
  load_built seen id (ok source) next =
      if contains seen source.name
      then (error duplicate_source, [])
      else migrate (has_key id) source (add_loaded source (next (source.name ∷ seen)))

module _ {F : Type 0} ⦃fl : Float F⦄ (defaults : RawSource F) (fresh_id : String → String) where
  -- The loop of `load_sources` over the files in the order of their names; `fresh_id` is what
  -- `uuid4` gives at a file.
  unfoldable pub load_sources : List String → Directory F → Loaded F
  unfolding load_built
  load_sources seen [] = (ok [], [])
  load_sources seen (file ∷ dir) =
      let skipped = load_sources seen dir in
      if is_yaml file.0
      then load_built seen file.1.id (build_source_config file.1 defaults (fresh_id file.0))
          (λ seen'. load_sources seen' dir)
      else skipped
