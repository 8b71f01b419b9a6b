-- ===== src/Config/Files/Slug.antt =====
-- The characters of the file names that config.py makes up.
use Prim.Native.Char.{code}
use bark_detector.Prelude.{
  ◌≡◌, refl, String, Bool, true, false, ◌&&◌, str_eq, if◌then◌else◌, Bool-cases, inl, inr,
}
use bark_detector.Config.Files.{
  is_slug_code, underscored, is_edge, strip_left, strip_right, slugify,
}

-- Every character is a letter or digit of ASCII, an underscore or a dash.
abbrev pub IsSafe : String → Type 0
IsSafe String.[] = Unit {0}
IsSafe (String.◌∷◌ c s) = (is_slug_code (code c) ≡ true) × IsSafe s

underscored-IsSafe : (run : Bool) (s : String) → IsSafe (underscored run s)
unfolding underscored
underscored-IsSafe run String.[] = tt
underscored-IsSafe run (String.◌∷◌ c s) = elim (Bool-cases (is_slug_code (code c))) [
  | inl fits ↦ rw fits (fits, underscored-IsSafe false s)
  | inr other ↦ rw other (underscore run (underscored true s) (underscored-IsSafe true s))
]
  where
    underscore :
        (run : Bool) (rest : String)
        → IsSafe rest
        → IsSafe (if run then rest else String.◌∷◌ "_" rest)
    underscore true rest safe = safe
    underscore false rest safe = (refl, safe)

strip_left-IsSafe : (s : String) → IsSafe s → IsSafe (strip_left s)
unfolding strip_left
strip_left-IsSafe String.[] safe = tt
strip_left-IsSafe (String.◌∷◌ c s) safe = elim (Bool-cases (is_edge c)) [
  | inl edge ↦ rw edge (strip_left-IsSafe s safe.1)
  | inr other ↦ rw other safe
]

strip_right-IsSafe : (s : String) → IsSafe s → IsSafe (strip_right s)
unfolding strip_right
strip_right-IsSafe String.[] safe = tt
strip_right-IsSafe (String.◌∷◌ c s) safe =
    elim (Bool-cases (str_eq (strip_right s) "" && is_edge c)) [
      | inl gone ↦ rw gone tt
      | inr kept ↦ rw kept (safe.0, strip_right-IsSafe s safe.1)
    ]

-- Whatever the name of a source, the stem of its new file's name is not empty and has only letters
-- and digits of ASCII, underscores and dashes: it has no slash, no dot and no space.
pub slugify-IsSafe : (name : String) → IsSafe (slugify name) × (str_eq (slugify name) "" ≡ false)
unfolding slugify
slugify-IsSafe name =
    let slug = strip_right (strip_left (underscored false name)) in
    elim (Bool-cases (str_eq slug "")) [
      | inl empty ↦ rw empty ((refl, (refl, (refl, (refl, (refl, (refl, tt)))))), refl)
      | inr full ↦ rw full (
        strip_right-IsSafe (strip_left (underscored false name))
            (strip_left-IsSafe (underscored false name) (underscored-IsSafe false name)),
        full,
      )
    ]
