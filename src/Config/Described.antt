-- ===== src/Config/Described.antt =====
-- The sources that `build_source_config` of config.py gives, field by field.
use bark_detector.Prelude.{
  ◌≡◌, refl, sym, ap, ◌∙◌, String, true, false, Option, none, some, List, [], ◌∷◌, str_eq, ◌⊎◌, inl,
  inr,
}
use bark_detector.Float.{Float}
use bark_detector.Config.{SourceConfig, default_listen, default_min_volume, default_capture, get}
use bark_detector.Config.Source.{
  RawSource, ok, or_else, id_of, build_source_config, built_source, check_source,
}
use bark_detector.Config.Valid.{IsValid, check_source_complete}

-- The first value that is given, and `other` where none is.
abbrev pub IsFirst : {A : Type 0} → A → List (Option A) → A → Type 0
IsFirst other [] x = x ≡ other
IsFirst other (none ∷ given) x = IsFirst other given x
IsFirst other (some a ∷ given) x = x ≡ a

-- The identifier that is given, and the fresh one where none or an empty one is.
abbrev pub IsId : Option String → String → String → Type 0
IsId none fresh_id x = x ≡ fresh_id
IsId (some id) fresh_id x =
    ((str_eq id "" ≡ false) × (x ≡ id)) ⊎ ((str_eq id "" ≡ true) × (x ≡ fresh_id))

-- The source is what the request and the defaults say.
pub record Describes {F : Type 0} ⦃fl : Float F⦄ (raw defaults : RawSource F) (fresh_id : String)
    (s : SourceConfig F) : Type 0 where
  pub name : raw.name ≡ some s.name
  pub type : raw.type ≡ some s.type
  pub path : raw.path ≡ some s.path
  pub id : IsId raw.id fresh_id s.id
  pub listen :
      IsFirst
        ("bark" ∷ "bow-wow" ∷ "howl" ∷ "yip" ∷ [])
        (raw.listen ∷ defaults.listen ∷ [])
        s.listen
  pub detection_thresholds :
      IsFirst []
        (raw.detection_thresholds ∷ defaults.detection_thresholds ∷ [])
        s.detection_thresholds
  pub notify_thresholds :
      IsFirst []
        (raw.notify_thresholds ∷ raw.thresholds ∷ defaults.notify_thresholds ∷ defaults.thresholds
          ∷ [])
        s.notify_thresholds
  pub min_volume :
      IsFirst (fl.decimal 500 0) (raw.min_volume ∷ defaults.min_volume ∷ []) s.min_volume
  pub pre_capture :
      IsFirst (fl.decimal 50 1) (raw.pre_capture ∷ defaults.pre_capture ∷ []) s.pre_capture
  pub post_capture :
      IsFirst (fl.decimal 50 1) (raw.post_capture ∷ defaults.post_capture ∷ []) s.post_capture
  pub input_args : IsFirst [] (raw.input_args ∷ []) s.input_args

first_of_one :
    {A : Type 0} (a : Option A) (other x : A) → IsFirst other (a ∷ []) x → get a other ≡ x
first_of_one none other x h = sym h
first_of_one (some a) other x h = sym h

first_of_two :
    {A : Type 0} (a b : Option A) (other x : A)
    → IsFirst other (a ∷ b ∷ []) x
    → get (or_else a b) other ≡ x
first_of_two none b other x h = first_of_one b other x h
first_of_two (some a) b other x h = sym h

first_of_four :
    {A : Type 0} (a b c d : Option A) (other x : A)
    → IsFirst other (a ∷ b ∷ c ∷ d ∷ []) x
    → get (or_else a (or_else b (or_else c d))) other ≡ x
first_of_four none none c d other x h = first_of_two c d other x h
first_of_four none (some b) c d other x h = sym h
first_of_four (some a) b c d other x h = sym h

identified : (id : Option String) (fresh_id x : String) → IsId id fresh_id x → id_of id fresh_id ≡ x
unfolding id_of
identified none fresh_id x h = sym h
identified (some id) fresh_id x (inl (e, h)) = rw e (sym h)
identified (some id) fresh_id x (inr (e, h)) = rw e (sym h)

module _ {F : Type 0} ⦃fl : Float F⦄ where
  built_source-Describes :
      (raw defaults : RawSource F) (fresh_id : String) (s : SourceConfig F)
      → Describes raw defaults fresh_id s
      → built_source raw defaults fresh_id s.name s.type s.path ≡ s
  unfolding built_source
  built_source-Describes raw defaults fresh_id s d =
      rw
        (
          first_of_two raw.listen defaults.listen default_listen s.listen d.listen,
          first_of_two raw.detection_thresholds defaults.detection_thresholds []
              s.detection_thresholds d.detection_thresholds,
          first_of_four raw.notify_thresholds raw.thresholds defaults.notify_thresholds
              defaults.thresholds [] s.notify_thresholds d.notify_thresholds,
          first_of_two raw.min_volume defaults.min_volume (default_min_volume fl) s.min_volume
              d.min_volume,
          first_of_two raw.pre_capture defaults.pre_capture (default_capture fl) s.pre_capture
              d.pre_capture,
          first_of_two raw.post_capture defaults.post_capture (default_capture fl) s.post_capture
              d.post_capture,
          first_of_one raw.input_args [] s.input_args d.input_args,
          identified raw.id fresh_id s.id d.id,
        )
        refl

  -- A request is accepted with exactly the source that it and the defaults describe, where that
  -- source is valid: the request's name, type and path, each other field as the request says, and
  -- where it does not as the defaults say (the input arguments never), and otherwise the program's
  -- default; `thresholds` stands for `notify_thresholds` where these are missing, before the defaults
  -- are asked; and the identifier is the request's unless it is empty or missing.
  pub build_source_config_complete :
      (raw defaults : RawSource F) (fresh_id : String) (s : SourceConfig F)
      → Describes raw defaults fresh_id s
      → IsValid s
      → build_source_config raw defaults fresh_id ≡ ok s
  unfolding build_source_config
  build_source_config_complete raw defaults fresh_id s d valid =
      rw (d.name, d.type, d.path)
        (ap check_source (built_source-Describes raw defaults fresh_id s d)
          ∙ check_source_complete s valid)
