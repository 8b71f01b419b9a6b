-- ===== src/Config/Source.antt =====
-- config.py: `build_source_config`, which checks what a file or a request says of a source. The
-- values have the types that their fields want: what YAML or JSON may hold besides, which the code
-- refuses or raises on, is left out.
use Prim.Native.Char.{code}
use bark_detector.Prelude.{
  ℕ, String, Bool, false, not, ◌&&◌, ◌||◌, Option, none, some, List, [], ◌∷◌, lookup, contains,
  str_eq, if◌then◌else◌, ltb, leb, ◌==◌,
}
use bark_detector.Float.{Float}
use bark_detector.Config.{
  SourceConfig, default_listen, default_threshold, default_min_volume, default_capture,
  valid_source_types, get,
}

-- The dictionary `raw`, and `defaults`, of which only some fields are read; a missing key is `none`.
pub record RawSource (F : Type 0) : Type 0 where
  pub name : Option String
  pub type : Option String
  pub path : Option String
  pub id : Option String
  pub listen : Option (List String)
  pub thresholds : Option (List (String × F))
  pub notify_thresholds : Option (List (String × F))
  pub detection_thresholds : Option (List (String × F))
  pub min_volume : Option F
  pub pre_capture : Option F
  pub post_capture : Option F
  pub input_args : Option (List String)

-- The reasons for a `ConfigError`.
pub data ConfigError : Type 0 where
  missing_name missing_type missing_path : ConfigError
  blank_name slash_in_name control_in_name : ConfigError
  invalid_type : ConfigError
  threshold_order : String → ConfigError
  source_exists source_not_found duplicate_source : ConfigError

pub data Result (A : Type 0) : Type 0 where
  ok : A → Result A
  error : ConfigError → Result A

abbrev pub in_range : ℕ → ℕ → ℕ → Bool
in_range low high c = leb low c && leb c high

-- What `str.strip` takes away.
unfoldable pub is_space : ℕ → Bool
is_space c =
    in_range 9 13 c
    || in_range 28 32 c
    || c == 133
    || c == 160
    || c == 5760
    || in_range 8192 8202 c
    || in_range 8232 8233 c
    || c == 8239
    || c == 8287
    || c == 12288

starts_with_space : String → Bool
unfolding is_space
starts_with_space String.[] = false
starts_with_space (String.◌∷◌ c s) = is_space (code c)

ends_with_space : String → Bool
unfolding is_space
ends_with_space String.[] = false
ends_with_space (String.◌∷◌ c String.[]) = is_space (code c)
ends_with_space (String.◌∷◌ c (String.◌∷◌ d s)) = ends_with_space (String.◌∷◌ d s)

-- `not name or name != name.strip()`
unfoldable pub is_blank_or_padded : String → Bool
unfolding starts_with_space ends_with_space
is_blank_or_padded name = str_eq name "" || starts_with_space name || ends_with_space name

unfoldable pub has_slash : String → Bool
has_slash String.[] = false
has_slash (String.◌∷◌ c s) = code c == b'/' || has_slash s

unfoldable pub has_control : String → Bool
has_control String.[] = false
has_control (String.◌∷◌ c s) = ltb (code c) 32 || has_control s

-- `first.get(key, second)`, where the second may be missing too
abbrev pub or_else : {A : Type 0} → Option A → Option A → Option A
or_else none b = b
or_else (some a) b = some a

-- `raw["id"] if raw.get("id")`, and otherwise a fresh one
unfoldable pub id_of : Option String → String → String
id_of none fresh_id = fresh_id
id_of (some id) fresh_id = if str_eq id "" then fresh_id else id

module _ {F : Type 0} ⦃fl : Float F⦄ where
  -- `0 < detection <= notify <= 1`
  abbrev pub in_order : F → F → Bool
  in_order detection notify =
      fl.lt (fl.decimal 0 0) detection && fl.le detection notify && fl.le notify (fl.decimal 10 1)

  -- The first listened label whose thresholds are not in order.
  unfoldable pub misordered : List (String × F) → List (String × F) → List String → Option String
  misordered detections notifies [] = none
  misordered detections notifies (label ∷ labels) =
      let notify = get (lookup label notifies) (default_threshold fl) in
      let detection = get (lookup label detections) notify in
      let rest = misordered detections notifies labels in
      if in_order detection notify then rest else some label

  -- The last part of the function, with the required fields at hand.
  unfoldable pub built_source :
      RawSource F → RawSource F → String → String → String → String → SourceConfig F
  unfolding id_of
  built_source raw defaults fresh_id name type path = record {
    name = name;
    type = type;
    path = path;
    listen = get (or_else raw.listen defaults.listen) default_listen;
    detection_thresholds = get (or_else raw.detection_thresholds defaults.detection_thresholds) [];
    notify_thresholds =
        get
          (or_else raw.notify_thresholds
            (or_else raw.thresholds (or_else defaults.notify_thresholds defaults.thresholds)))
          [];
    min_volume = get (or_else raw.min_volume defaults.min_volume) (default_min_volume fl);
    pre_capture = get (or_else raw.pre_capture defaults.pre_capture) (default_capture fl);
    post_capture = get (or_else raw.post_capture defaults.post_capture) (default_capture fl);
    input_args = get raw.input_args [];
    id = id_of raw.id fresh_id;
  }

  unfoldable pub check_thresholds : SourceConfig F → Result (SourceConfig F)
  unfolding misordered
  check_thresholds source =
      elim (misordered source.detection_thresholds source.notify_thresholds source.listen) [
        | none ↦ ok source
        | some label ↦ error (threshold_order label)
      ]

  unfoldable pub check_source : SourceConfig F → Result (SourceConfig F)
  unfolding check_thresholds
  check_source source =
      if is_blank_or_padded source.name
      then error blank_name
      else if has_slash source.name
      then error slash_in_name
      else if has_control source.name
      then error control_in_name
      else if not (contains valid_source_types source.type)
      then error invalid_type
      else check_thresholds source

  unfoldable pub build_source_config : RawSource F → RawSource F → String → Result (SourceConfig F)
  unfolding built_source check_source
  build_source_config raw defaults fresh_id = elim raw.name [
    | none ↦ error missing_name
    | some name ↦ elim raw.type [
      | none ↦ error missing_type
      | some type ↦ elim raw.path [
        | none ↦ error missing_path
        | some path ↦ check_source (built_source raw defaults fresh_id name type path)
      ]
    ]
  ]
