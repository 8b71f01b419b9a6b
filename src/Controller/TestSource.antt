-- ===== src/Controller/TestSource.antt =====
-- controller.py: `test_source`, which tries what a worker would run.
mod Tests
use mathlib.Core.Path.{subst}
use bark_detector.Prelude.{
  ◌≡◌, refl, ◌∙◌, ap, sym, String, Bool, true, false, Option, none, some, List, str_eq, eq_iff,
  Bool-cases, inl, inr, if◌then◌else◌,
}
use bark_detector.Float.{Float}
use bark_detector.Config.{SourceConfig, detection_threshold_for, notify_threshold_for}
use bark_detector.Config.Source.{
  RawSource, ConfigError, Result, ok, error, build_source_config, built_source, id_of,
  is_blank_or_padded,
}
use bark_detector.Config.Valid.{
  IsValid, build_source_config-IsValid, build_source_config-built, build_source_config_built,
}
use bark_detector.AudioSource.{build_command}
use bark_detector.Probe.{Launch, probe_source, report}
use bark_detector.Controller.{no_defaults}

-- Refused, or the result of a probe.
pub data TestResult : Type 0 where
  bad_source : ConfigError → TestResult
  probed : Bool × String → TestResult

-- `raw.get("name") or "test"`
unfoldable pub name_or_test : Option String → String
name_or_test none = "test"
name_or_test (some name) = if str_eq name "" then "test" else name

full_name : (name : String) → is_blank_or_padded name ≡ false → str_eq name "" ≡ false
unfolding is_blank_or_padded
full_name name e = elim (Bool-cases (str_eq name "")) [
  | inl same ↦ absurd (let e' = (rw ((eq_iff name "").0 same) at e) in cc)
  | inr full ↦ full
]

module _ {F : Type 0} ⦃fl : Float F⦄ where
  unfoldable pub test_built :
      Bool → String → (List String → Launch) → Result (SourceConfig F) → TestResult
  test_built windows ffmpeg_path launch (error e) = bad_source e
  test_built windows ffmpeg_path launch (ok s) =
      probed (probe_source windows s.type s.path s.input_args ffmpeg_path launch)

  unfoldable pub test_source :
      Bool → String → (List String → Launch) → RawSource F → String → TestResult
  unfolding name_or_test test_built
  test_source windows ffmpeg_path launch raw fresh_id = test_built windows ffmpeg_path launch (
      build_source_config (record raw { name = some (name_or_test raw.name) }) no_defaults fresh_id)

  -- A request that gives a source, with the identifier that one call gets, is tested with the command
  -- that the source's worker runs, whatever identifier the test gets.
  pub test_source_command :
      (windows : Bool) (ffmpeg_path : String) (launch : List String → Launch) (raw : RawSource F)
      (id fresh_id : String) (s : SourceConfig F)
      → build_source_config raw no_defaults id ≡ ok s
      → test_source windows ffmpeg_path launch raw fresh_id
        ≡ probed (report (launch (build_command windows s ffmpeg_path)))
  unfolding test_source probe_source build_command name_or_test test_built built_source
      detection_threshold_for notify_threshold_for
  test_source_command windows ffmpeg_path launch raw id fresh_id s e =
      let (valid, name, type, path) = build_source_config-IsValid raw no_defaults id s e in
      let same = build_source_config_built raw no_defaults id s e in
      let new_id = id_of raw.id fresh_id in
      let given : name_or_test raw.name ≡ s.name =
        (rw name (rw (full_name s.name valid.trimmed))) in
      let tested = record raw { name = some (name_or_test raw.name) } in
      let built : built_source tested no_defaults fresh_id s.name s.type s.path
          ≡ record s { id = new_id } =
        ap {A = SourceConfig F} {B = SourceConfig F} (λ b. record b { id = new_id }) same in
      let fit : IsValid (record s { id = new_id }) = (record {
        trimmed = valid.trimmed;
        no_slash = valid.no_slash;
        no_control = valid.no_control;
        typed = valid.typed;
        ordered = valid.ordered;
      }) in
      ap (test_built windows ffmpeg_path launch) (
        build_source_config-built tested no_defaults fresh_id s.name s.type s.path (ap some given)
          type path (subst IsValid (sym built) fit)
        ∙ ap ok built)
