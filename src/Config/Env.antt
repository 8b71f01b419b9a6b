-- ===== src/Config/Env.antt =====
-- config.py: environment variables, which win over the file, and what a saved file leaves out.
use Prim.Native.Char.{code}
use bark_detector.Prelude.{
  ℕ, ◌+◌, ◌≡◌, ap, String, Bool, true, false, ◌&&◌, ◌||◌, Option, none, some, List, [], ◌∷◌, ◌==◌,
  if◌then◌else◌, Bool-cases, inl, inr, sym,
}
use bark_detector.Prelude.Int.{ℤ}
use bark_detector.Config.{get}
use bark_detector.Config.Source.{is_space, in_range}

-- `os.environ`, and what `int(text)` and `float(text)` make of a text, `none` where they raise.
pub record Env (F : Type 0) : Type 0 where
  pub var : String → Option String
  pub int_of : String → Option ℤ
  pub float_of : String → Option F

codes : String → List ℕ
codes String.[] = []
codes (String.◌∷◌ c s) = code c ∷ codes s

skip_spaces : List ℕ → List ℕ
skip_spaces [] = []
skip_spaces (c ∷ cs) = if is_space c then skip_spaces cs else c ∷ cs

reversed : List ℕ → List ℕ → List ℕ
reversed [] done = done
reversed (c ∷ cs) done = reversed cs (c ∷ done)

-- `lower`, on the letters that the words below are made of
lowered : List ℕ → List ℕ
lowered [] = []
lowered (c ∷ cs) = (if in_range b'A' b'Z' c then c + 32 else c) ∷ lowered cs

same_codes : List ℕ → List ℕ → Bool
same_codes [] [] = true
same_codes [] (d ∷ ds) = false
same_codes (c ∷ cs) [] = false
same_codes (c ∷ cs) (d ∷ ds) = c == d && same_codes cs ds

one_of : List ℕ → List String → Bool
unfolding codes same_codes
one_of text [] = false
one_of text (word ∷ words) = same_codes text (codes word) || one_of text words

-- `text.strip().lower()` is one of the words
unfoldable pub is_word : List String → String → Bool
unfolding codes skip_spaces reversed lowered one_of is_space
is_word words text =
    one_of (lowered (reversed (skip_spaces (reversed (skip_spaces (codes text)) [])) [])) words

module _ {A : Type 0} where
  -- The value of the file, or what the variable's text is cast to.
  unfoldable pub from_var : (String → Option A) → Option String → A → Option A
  from_var cast none current = some current
  from_var cast (some text) current = cast text

  -- A field whose variable is set is left out, and so is one at its default.
  unfoldable pub persisted : (A → A → Bool) → Option String → A → A → Option A
  persisted same none current default = if same current default then none else some current
  persisted same (some text) current default = none

  -- What was saved of a field gives the field again.
  pub from_var-persisted :
      (cast : String → Option A) (same : A → A → Bool) (var : Option String) (raw : Option A)
      (default v : A)
      → (same v default ≡ true → v ≡ default)
      → from_var cast var (get raw default) ≡ some v
      → from_var cast var (get (persisted same var v default) default) ≡ some v
  unfolding from_var persisted
  from_var-persisted cast same (some text) raw default v sound e = e
  from_var-persisted cast same none raw default v sound e = elim (Bool-cases (same v default)) [
    | inl s ↦ rw s (ap some (sym (sound s)))
    | inr s ↦ rw s
  ]

module _ {F : Type 0} (env : Env F) where
  unfoldable pub env_override : {A : Type 0} → (String → Option A) → String → A → Option A
  unfolding from_var
  env_override cast key current = from_var cast (env.var key) current

  -- The casts: by the type of `current`, and for the values that may be None.
  unfoldable pub to_bool : String → Option Bool
  unfolding is_word
  to_bool text = some (is_word ("1" ∷ "true" ∷ "yes" ∷ "on" ∷ []) text)

  unfoldable pub to_optional_float : String → Option (Option F)
  unfolding is_word
  to_optional_float text =
      if is_word ("none" ∷ "null" ∷ "" ∷ []) text
      then some none
      else elim (env.float_of text) [ none ↦ none | some x ↦ some (some x) ]

  unfoldable pub variable_of : Option String → Option String
  variable_of none = none
  variable_of (some key) = env.var key

  unfoldable pub persisted_value : {A : Type 0} → (A → A → Bool) → A → A → Option String → Option A
  unfolding persisted variable_of
  persisted_value same current default env_key =
      persisted same (variable_of env_key) current default
