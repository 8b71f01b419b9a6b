-- ===== src/Config/Files/RoundTrip.antt =====
-- A source's file is read back as the source, as config.py writes and reads it.
use bark_detector.Prelude.{◌≡◌, refl, ◌∙◌, ap, String, false, str_eq}
use mathlib.Core.Path.{subst, sym}
use bark_detector.Float.{Float}
use bark_detector.Config.{SourceConfig}
use bark_detector.Config.Source.{RawSource, ok, build_source_config, built_source, id_of}
use bark_detector.Config.Valid.{IsValid, build_source_config-built}
use bark_detector.Config.Files.{dump_source}

module _ {F : Type 0} ⦃fl : Float F⦄ (defaults : RawSource F) (fresh_id : String) where
  built_source-dump_source :
      (s : SourceConfig F)
      → str_eq s.id "" ≡ false
      → built_source (dump_source s) defaults fresh_id s.name s.type s.path ≡ s
  unfolding built_source dump_source id_of
  built_source-dump_source s named = rw named

  -- A source with an identifier that passes the checks is read back from its file as it is, with
  -- whatever defaults the program has for sources and without a new identifier.
  pub build_source_config-dump_source :
      (s : SourceConfig F)
      → IsValid s
      → str_eq s.id "" ≡ false
      → build_source_config (dump_source s) defaults fresh_id ≡ ok s
  unfolding dump_source
  build_source_config-dump_source s valid named =
      let same = built_source-dump_source s named in
      build_source_config-built (dump_source s) defaults fresh_id s.name s.type s.path refl refl
        refl (subst IsValid (sym same) valid)
      ∙ ap ok same
