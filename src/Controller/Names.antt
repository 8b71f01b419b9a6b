-- ===== src/Controller/Names.antt =====
-- Looking for a source by its name in the list of controller.py after a change of the list.
use bark_detector.Prelude.{
  ◌≡◌, refl, ◌∙◌, sym, String, true, false, not, ◌&&◌, ◌||◌, Option, none, some, List, [], ◌∷◌,
  ◌++◌, str_eq, eq_iff, arith, if◌then◌else◌, Bool-cases, inl, inr,
}
use bark_detector.Config.{SourceConfig}
use bark_detector.Controller.{find_source, is_taken, replace_source, without_source}

module _ {F : Type 0} where
  abbrev pub HaveDistinctNames : List (SourceConfig F) → Type 0
  HaveDistinctNames [] = Unit {0}
  HaveDistinctNames (source ∷ sources) =
      (is_taken (some source.name) sources ≡ false) × HaveDistinctNames sources

  pub is_taken-append :
      (k : String) (sources : List (SourceConfig F)) (s : SourceConfig F)
      → is_taken (some k) (sources ++ s ∷ []) ≡ (is_taken (some k) sources || str_eq s.name k)
  unfolding is_taken
  is_taken-append k [] s = ground arith
  is_taken-append k (x ∷ sources) s = ground (arith, is_taken-append k sources s)

  pub find_source-untaken :
      (k : String) (sources : List (SourceConfig F))
      → is_taken (some k) sources ≡ false
      → find_source k sources ≡ none
  unfolding is_taken find_source
  find_source-untaken k [] e = refl
  find_source-untaken k (x ∷ sources) e = ground (arith, find_source-untaken k sources)

  pub find_source-append :
      (k : String) (sources : List (SourceConfig F)) (s : SourceConfig F)
      → is_taken (some s.name) sources ≡ false
      → find_source k (sources ++ s ∷ [])
        ≡ (if str_eq s.name k then some s else find_source k sources)
  unfolding is_taken find_source
  find_source-append k [] s e = refl
  find_source-append k (x ∷ sources) s e = ground (
    arith,
    find_source-append k sources s,
    eq_iff x.name k,
    eq_iff s.name k,
    eq_iff x.name s.name,
  )

  pub distinct-append :
      (sources : List (SourceConfig F)) (s : SourceConfig F)
      → HaveDistinctNames sources
      → is_taken (some s.name) sources ≡ false
      → HaveDistinctNames (sources ++ s ∷ [])
  unfolding is_taken
  distinct-append [] s d e = (refl, tt)
  distinct-append (x ∷ sources) s d e = (
    is_taken-append x.name sources s
        ∙ ground (arith, d.0, eq_iff s.name x.name, eq_iff x.name s.name),
    distinct-append sources s d.1 (ground arith),
  )

  pub is_taken-without :
      (k name : String) (sources : List (SourceConfig F))
      → is_taken (some k) sources ≡ false
      → is_taken (some k) (without_source name sources) ≡ false
  unfolding is_taken without_source
  is_taken-without k name [] e = refl
  is_taken-without k name (x ∷ sources) e = ground (arith, is_taken-without k name sources)

  pub find_source-without :
      (k name : String) (sources : List (SourceConfig F))
      → find_source k (without_source name sources)
        ≡ (if str_eq name k then none else find_source k sources)
  unfolding find_source without_source
  find_source-without k name [] = ground arith
  find_source-without k name (x ∷ sources) = ground (
    arith,
    find_source-without k name sources,
    eq_iff x.name k,
    eq_iff x.name name,
    eq_iff name k,
  )

  pub distinct-without :
      (name : String) (sources : List (SourceConfig F))
      → HaveDistinctNames sources
      → HaveDistinctNames (without_source name sources)
  unfolding without_source
  distinct-without name [] d = tt
  distinct-without name (x ∷ sources) d = elim (Bool-cases (str_eq x.name name)) [
    | inl e ↦ rw e (distinct-without name sources d.1)
    | inr e ↦ rw e (is_taken-without x.name name sources d.0, distinct-without name sources d.1)
  ]

  pub is_taken-replace :
      (k name : String) (new : SourceConfig F) (sources : List (SourceConfig F))
      → is_taken (some k) sources ≡ false
      → str_eq new.name k ≡ false
      → is_taken (some k) (replace_source name new sources) ≡ false
  unfolding is_taken replace_source
  is_taken-replace k name new [] e n = refl
  is_taken-replace k name new (x ∷ sources) e n =
      ground (arith, is_taken-replace k name new sources)

  -- At the source that is replaced.
  pub find_source-replaced :
      (k name : String) (new x : SourceConfig F) (sources : List (SourceConfig F))
      → is_taken (some x.name) sources ≡ false
      → x.name ≡ name
      → (if str_eq new.name k then some new else find_source k sources) ≡ (
          if str_eq new.name k
          then some new
          else if str_eq name k
          then none
          else if str_eq x.name k
          then some x
          else find_source k sources)
  find_source-replaced k name new x sources d same = elim (Bool-cases (str_eq name k)) [
    | inl e ↦ rw (e, find_source-untaken k sources (rw ((eq_iff name k).0 e) at (rw same at d)))
    | inr e ↦ rw (e, same) (rw e)
  ]

  -- At a source that is passed over.
  pub find_source-kept :
      (k name : String) (new x : SourceConfig F) (rest : Option (SourceConfig F))
      → str_eq x.name name ≡ false
      → str_eq x.name new.name ≡ false
      → (if str_eq x.name k
          then some x
          else if str_eq new.name k
          then some new
          else if str_eq name k
          then none
          else rest)
        ≡ (if str_eq new.name k
            then some new
            else if str_eq name k
            then none
            else if str_eq x.name k
            then some x
            else rest)
  find_source-kept k name new x rest other apart = elim (Bool-cases (str_eq x.name k)) [
    | inl e ↦
        let same = (eq_iff x.name k).0 e in
        let not_name : str_eq name k ≡ false = ground (arith, eq_iff x.name name, eq_iff name k) in
        let not_new : str_eq new.name k ≡ false =
          ground (arith, eq_iff x.name new.name, eq_iff new.name k) in
        rw (e, not_name, not_new)
    | inr e ↦ rw e
  ]

  pub apart_of :
      (name : String) (new x : SourceConfig F) (sources : List (SourceConfig F))
      → str_eq x.name name ≡ false
      → (not (str_eq new.name name) && is_taken (some new.name) (x ∷ sources)) ≡ false
      → str_eq x.name new.name ≡ false
  unfolding is_taken
  apart_of name new x sources other e =
      ground (arith, other, e, eq_iff x.name name, eq_iff new.name name, eq_iff x.name new.name)

  pub find_source-replace :
      (k name : String) (new : SourceConfig F) (sources : List (SourceConfig F))
      → HaveDistinctNames sources
      → is_taken (some name) sources ≡ true
      → (not (str_eq new.name name) && is_taken (some new.name) sources) ≡ false
      → find_source k (replace_source name new sources) ≡ (
          if str_eq new.name k
          then some new
          else if str_eq name k
          then none
          else find_source k sources)
  unfolding find_source replace_source is_taken
  find_source-replace k name new [] d t e = cc
  find_source-replace k name new (x ∷ sources) d t e = elim (Bool-cases (str_eq x.name name)) [
    | inl same ↦
        rw same (find_source-replaced k name new x sources d.0 ((eq_iff x.name name).0 same))
    | inr other ↦ rw other (
        rw (find_source-replace k name new sources d.1 (rw other at t) (ground arith)) (
          find_source-kept k name new x (find_source k sources) other
            (apart_of name new x sources other e)))
  ]

  pub new_untaken :
      (name : String) (new x : SourceConfig F) (sources : List (SourceConfig F))
      → is_taken (some x.name) sources ≡ false
      → x.name ≡ name
      → (not (str_eq new.name name) && is_taken (some new.name) (x ∷ sources)) ≡ false
      → is_taken (some new.name) sources ≡ false
  unfolding is_taken
  new_untaken name new x sources d same e = elim (Bool-cases (str_eq new.name name)) [
    | inl n ↦ rw ((eq_iff new.name name).0 n ∙ sym same) d
    | inr n ↦ ground arith
  ]

  pub distinct-replace :
      (name : String) (new : SourceConfig F) (sources : List (SourceConfig F))
      → HaveDistinctNames sources
      → (not (str_eq new.name name) && is_taken (some new.name) sources) ≡ false
      → HaveDistinctNames (replace_source name new sources)
  unfolding replace_source is_taken
  distinct-replace name new [] d e = tt
  distinct-replace name new (x ∷ sources) d e = elim (Bool-cases (str_eq x.name name)) [
    | inl same ↦ rw same (new_untaken name new x sources d.0 ((eq_iff x.name name).0 same) e, d.1)
    | inr other ↦
        let apart = apart_of name new x sources other e in
        rw other (
          is_taken-replace x.name name new sources d.0
              (ground (arith, eq_iff x.name new.name, eq_iff new.name x.name)),
          distinct-replace name new sources d.1 (ground arith),
        )
  ]

  pub is_taken-found :
      (name : String) (sources : List (SourceConfig F)) (old : SourceConfig F)
      → find_source name sources ≡ some old
      → is_taken (some name) sources ≡ true
  unfolding find_source is_taken
  is_taken-found name [] old e = cc
  is_taken-found name (x ∷ sources) old e = elim (Bool-cases (str_eq x.name name)) [
    | inl same ↦ rw same
    | inr other ↦ rw other (is_taken-found name sources old (rw other at e))
  ]
