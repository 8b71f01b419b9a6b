-- ===== src/Config/Valid.antt =====
-- What `build_source_config` of config.py promises of the sources that it returns.
use mathlib.Core.Path.{subst}
use bark_detector.Prelude.{
  sym, arith, ◌≡◌, refl, ◌∙◌, ap, String, true, false, none, some, List, [], ◌∷◌, lookup, contains,
  contains_cases, contains_self, contains-cons, not-contains-nil, Bool-cases, Option-cases, inl,
  inr,
}
use bark_detector.Float.{Float}
use bark_detector.Config.{
  SourceConfig, default_threshold, valid_source_types, get, detection_threshold_for,
  notify_threshold_for,
}
use bark_detector.Config.Source.{
  RawSource, ok, is_blank_or_padded, has_slash, has_control, in_order, misordered,
  build_source_config, check_source, check_thresholds, built_source,
}

module _ {F : Type 0} ⦃fl : Float F⦄ where
  -- A source that every part of the program can work with.
  pub record IsValid (s : SourceConfig F) : Type 0 where
    pub trimmed : is_blank_or_padded s.name ≡ false
    pub no_slash : has_slash s.name ≡ false
    pub no_control : has_control s.name ≡ false
    pub typed : contains valid_source_types s.type ≡ true
    pub ordered :
        (label : String)
        → contains s.listen label ≡ true
        → in_order (detection_threshold_for s label) (notify_threshold_for s label) ≡ true

  ordered_of :
      (detections notifies : List (String × F)) (labels : List String)
      → misordered detections notifies labels ≡ none
      → (label : String) → contains labels label ≡ true
      → in_order
          (get (lookup label detections) (get (lookup label notifies) (default_threshold fl)))
          (get (lookup label notifies) (default_threshold fl))
        ≡ true
  unfolding misordered
  ordered_of detections notifies [] e label c = absurd (not-contains-nil label c)
  ordered_of detections notifies (first ∷ labels) e label c =
      let notify = get (lookup first notifies) (default_threshold fl) in
      elim (Bool-cases (in_order (get (lookup first detections) notify) notify)) [
        | inl good ↦ elim (contains_cases label first labels c) [
          | inl same ↦ rw (← same) good
          | inr more ↦ ordered_of detections notifies labels (rw good at e) label more
        ]
        | inr bad ↦ absurd (let e' = (rw bad at e) in cc)
      ]

  check_thresholds-ok :
      (built s : SourceConfig F)
      → check_thresholds built ≡ ok s
      → (misordered built.detection_thresholds built.notify_thresholds built.listen ≡ none)
        × (built ≡ s)
  unfolding check_thresholds
  check_thresholds-ok built s e =
      elim (Option-cases
        (misordered built.detection_thresholds built.notify_thresholds built.listen)) [
          | inl none_bad ↦ (none_bad, (let e' = (rw (none_bad, check_thresholds) at e) in cc))
          | inr (label, bad) ↦ absurd (let e' = (rw (bad, check_thresholds) at e) in cc)
        ]

  check_source-ok :
      (built s : SourceConfig F)
      → check_source built ≡ ok s
      → (is_blank_or_padded built.name ≡ false)
        × (has_slash built.name ≡ false)
        × (has_control built.name ≡ false)
        × (contains valid_source_types built.type ≡ true)
        × (check_thresholds built ≡ ok s)
  unfolding check_source
  check_source-ok built s e = ground arith

  check_source-IsValid :
      (built s : SourceConfig F) → check_source built ≡ ok s → IsValid built × (built ≡ s)
  unfolding notify_threshold_for detection_threshold_for
  check_source-IsValid built s e =
      let (blank, slash, control, typed, rest) = check_source-ok built s e in
      let (ordered, same) = check_thresholds-ok built s rest in
      (
        record {
          trimmed = blank;
          no_slash = slash;
          no_control = control;
          typed = typed;
          ordered =
              ordered_of built.detection_thresholds built.notify_thresholds built.listen ordered;
        },
        same,
      )

  parts_of :
      (raw defaults : RawSource F) (fresh_id : String) (s : SourceConfig F)
      → build_source_config raw defaults fresh_id ≡ ok s
      → (name : String) × (type : String) × (path : String) × (raw.name ≡ some name)
        × (raw.type ≡ some type)
        × (raw.path ≡ some path)
        × (check_source (built_source raw defaults fresh_id name type path) ≡ ok s)
  unfolding build_source_config
  parts_of raw defaults fresh_id s e = elim (Option-cases raw.name) [
    | inl n ↦ absurd (let e' = (rw n at e) in cc)
    | inr (name, n) ↦ elim (Option-cases raw.type) [
      | inl t ↦ absurd (let e' = (rw (n, t) at e) in cc)
      | inr (type, t) ↦ elim (Option-cases raw.path) [
        | inl p ↦ absurd (let e' = (rw (n, t, p) at e) in cc)
        | inr (path, p) ↦ (name, type, path, n, t, p, (rw (n, t, p) at e))
      ]
    ]
  ]

  -- A source that is returned has a name that is not empty, has no space around it, no slash and no
  -- control character, one of the known types, and for every label it listens to a detection
  -- threshold above 0 and at most the notify threshold, which is at most 1, as its own lookups give
  -- them; its name, type and path are those of the request.
  pub build_source_config-IsValid :
      (raw defaults : RawSource F) (fresh_id : String) (s : SourceConfig F)
      → build_source_config raw defaults fresh_id ≡ ok s
      → IsValid s × (raw.name ≡ some s.name) × (raw.type ≡ some s.type) × (raw.path ≡ some s.path)
  unfolding build_source_config built_source
  build_source_config-IsValid raw defaults fresh_id s e =
      let (name, type, path, n, t, p, built) = parts_of raw defaults fresh_id s e in
      let (valid, same) =
        check_source-IsValid (built_source raw defaults fresh_id name type path) s built in
      (
        subst IsValid same valid,
        n ∙ ap (λ b. some b.name) same,
        t ∙ ap (λ b. some b.type) same,
        p ∙ ap (λ b. some b.path) same,
      )

  pub build_source_config_built :
      (raw defaults : RawSource F) (fresh_id : String) (s : SourceConfig F)
      → build_source_config raw defaults fresh_id ≡ ok s
      → built_source raw defaults fresh_id s.name s.type s.path ≡ s
  unfolding built_source
  build_source_config_built raw defaults fresh_id s e =
      let (name, type, path, n, t, p, built) = parts_of raw defaults fresh_id s e in
      let (valid, same) =
        check_source-IsValid (built_source raw defaults fresh_id name type path) s built in
      ap (λ b. built_source raw defaults fresh_id b.name b.type b.path) (sym same) ∙ same

  misordered-none :
      (detections notifies : List (String × F)) (labels : List String)
      → ((label : String)
          → contains labels label ≡ true
          → in_order
              (get (lookup label detections) (get (lookup label notifies) (default_threshold fl)))
              (get (lookup label notifies) (default_threshold fl))
            ≡ true)
      → misordered detections notifies labels ≡ none
  unfolding misordered
  misordered-none detections notifies [] good = refl
  misordered-none detections notifies (first ∷ labels) good =
      rw (good first (contains_self first labels)) (
        misordered-none detections notifies labels
          (λ label c. good label (contains-cons label first labels c)))

  pub check_source_complete : (s : SourceConfig F) → IsValid s → check_source s ≡ ok s
  unfolding check_source check_thresholds notify_threshold_for detection_threshold_for
  check_source_complete s valid =
      rw (valid.trimmed, valid.no_slash, valid.no_control, valid.typed)
        (rw (
          check_thresholds,
          misordered-none s.detection_thresholds s.notify_thresholds s.listen valid.ordered,
        ))

  pub build_source_config-built :
      (raw defaults : RawSource F) (fresh_id name type path : String)
      → raw.name ≡ some name
      → raw.type ≡ some type
      → raw.path ≡ some path
      → IsValid (built_source raw defaults fresh_id name type path)
      → build_source_config raw defaults fresh_id
        ≡ ok (built_source raw defaults fresh_id name type path)
  unfolding build_source_config built_source
  build_source_config-built raw defaults fresh_id name type path n t p valid =
      rw (n, t, p) (check_source_complete (built_source raw defaults fresh_id name type path) valid)
