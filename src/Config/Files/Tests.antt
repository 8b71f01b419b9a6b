-- ===== src/Config/Files/Tests.antt =====
-- Directories of sources, and the theorems of config.py's files at them.
use bark_detector.Prelude.{
  ℕ, ◌≡◌, refl, String, false, none, some, [], ◌∷◌, str_eq, if◌then◌else◌, insert, show_ℕ, contains,
  lookup,
}
use bark_detector.Float.Milli.{milli}
use bark_detector.Config.{SourceConfig}
use bark_detector.Config.Source.{
  RawSource, ok, build_source_config, built_source, misordered, check_source, check_thresholds,
  is_blank_or_padded, has_slash, has_control,
}
use bark_detector.Config.Valid.{build_source_config-IsValid}
use bark_detector.Config.Files.{
  Directory, slugify, exists, is_yaml, has_name, new_source_path, dump_source, save_source,
  delete_source_file, load_sources, underscored, strip_left, strip_right, find_source_path,
  source_path, write_source, next_free, load_built, add_loaded, migrate,
}
use bark_detector.Config.Files.NewPath.{new_source_path_free}
use bark_detector.Config.Files.RoundTrip.{build_source_config-dump_source}
use bark_detector.Config.Files.Kept.{content_of, IsKept}
use bark_detector.Config.Files.Contents.{save_source-content_of, delete_source_file-content_of}

abbrev yard : SourceConfig ℕ
yard = record {
  name = "back yard: 2";
  type = "rtsp";
  path = "rtsp://camera/audio";
  listen = "bark" ∷ [];
  detection_thresholds = ("bark", 600) ∷ [];
  notify_thresholds = ("bark", 700) ∷ [];
  min_volume = 500000;
  pre_capture = 5000;
  post_capture = 5000;
  input_args = [];
  id = "f0f0f0f0f0f0";
}

abbrev gate : SourceConfig ℕ
gate = record yard { name = "gate" }

-- A file of another source stands where that of the yard would go.
abbrev files : Directory ℕ
files = ("back_yard_2.yaml", dump_source gate) ∷ ("notes.txt", dump_source yard) ∷ []

slug_test : slugify "_back yard: 2!" ≡ "back_yard_2"
unfolding slugify underscored strip_left strip_right
slug_test = refl

empty_slug_test : slugify "- ?! _" ≡ "source"
unfolding slugify underscored strip_left strip_right
empty_slug_test = refl

save_test :
    save_source yard files
    ≡ some (
        ("back_yard_2.yaml", dump_source gate)
        ∷ ("notes.txt", dump_source yard)
        ∷ ("back_yard_2-2.yaml", dump_source yard)
        ∷ [])
unfolding save_source source_path write_source find_source_path has_name is_yaml new_source_path
    next_free exists slugify underscored strip_left strip_right dump_source insert show_ℕ
save_test = refl

new_source_path_free_example :
    (path : String) × (new_source_path yard.name files ≡ some path) × (exists path files ≡ false)
new_source_path_free_example = new_source_path_free yard.name files

files-IsKept : IsKept files
unfolding exists content_of is_yaml has_name dump_source
files-IsKept = (refl, (λ name here. refl), (refl, (λ name here. refl), tt))

save_source-content_of_example :
    (new : Directory ℕ) × (save_source yard files ≡ some new)
    × IsKept new
    × ((name : String)
        → content_of name new
          ≡ (if str_eq yard.name name then some (dump_source yard) else content_of name files))
save_source-content_of_example = save_source-content_of yard files files-IsKept

delete_source_file-content_of_example :
    IsKept (delete_source_file "gate" files)
    × ((other : String)
        → content_of other (delete_source_file "gate" files)
          ≡ (if str_eq "gate" other then none else content_of other files))
delete_source_file-content_of_example = delete_source_file-content_of "gate" files files-IsKept

abbrev unnamed : RawSource ℕ
unfolding dump_source
unnamed = record (dump_source gate) { id = none }

gate_test : build_source_config unnamed unnamed "f0f0f0f0f0f0" ≡ ok gate
unfolding build_source_config built_source misordered check_source check_thresholds
    is_blank_or_padded has_slash has_control contains lookup dump_source
gate_test = refl

build_source_config-dump_source_example :
    build_source_config (dump_source gate) unnamed "0123456789ab" ≡ ok gate
build_source_config-dump_source_example =
    build_source_config-dump_source unnamed "0123456789ab" gate
      (build_source_config-IsValid unnamed unnamed "f0f0f0f0f0f0" gate gate_test).0 refl

-- A file without an identifier is saved with the one that it gets; a file that is not YAML is
-- passed over.
load_test :
    load_sources unnamed (λ path. "f0f0f0f0f0f0") [] (("a.yaml", unnamed) ∷ ("b", unnamed) ∷ [])
    ≡ (ok (gate ∷ []), gate ∷ [])
unfolding build_source_config built_source misordered check_source check_thresholds
    is_blank_or_padded has_slash has_control contains lookup dump_source load_sources load_built
    add_loaded migrate is_yaml
load_test = refl
