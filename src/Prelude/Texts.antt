-- ===== src/Prelude/Texts.antt =====
-- Texts: native strings, joined and compared; decimal numerals; dictionaries with text keys.
pub mod Numerals
use Prim.Native.Nat.{ℕ, zero, suc, ◌/◌, ◌%◌}
use Prim.Native.Char.{code}
use Prim.Native.String.{String, ◌++◌ as append}
use mathlib.Core.Path.{◌≡◌, refl}
use mathlib.Core.Bool.{Bool, true, false, ◌||◌}
use mathlib.Core.Logic.{◌⊎◌}
use mathlib.Core.Option.{Option, none, some}
use mathlib.Core.List.{List, [], ◌∷◌}
use text.Mathlib.Text.{◌==◌ as eq}
use text.Mathlib.TextPositions.{eq_refl}
use text.Mathlib.TextEquality.{eq_iff}
use native.Mathlib.Omega.{arith}
use bark_detector.Prelude.Tests.{ltb, ◌==◌, if◌then◌else◌}

-- Equality of texts, Python's `==` on `str`.
abbrev pub str_eq : String → String → Bool
str_eq = eq

-- A formatted string is the concatenation of its pieces.
abbrev pub concat : List String → String
concat [] = ""
concat (s ∷ rest) = append s (concat rest)

digit : ℕ → String
digit n =
    if ltb n 5
    then (if ltb n 1
        then "0"
        else if ltb n 2
        then "1"
        else if ltb n 3
        then "2"
        else if ltb n 4
        then "3"
        else "4")
    else (if ltb n 6
        then "5"
        else if ltb n 7
        then "6"
        else if ltb n 8
        then "7"
        else if ltb n 9
        then "8"
        else "9")

-- The decimal numeral of `n` before `rest`; `n` has fewer digits than the fuel.
decimals : ℕ → ℕ → String → String
decimals zero n rest = rest
decimals (suc fuel) n rest =
    let more = decimals fuel (n / 10) (append (digit (n % 10)) rest) in
    if ltb n 10 then append (digit n) rest else more

-- `str(n)`
unfoldable pub show_ℕ : ℕ → String
unfolding decimals digit
show_ℕ n = decimals (suc n) n ""

starts_with_slash : String → Bool
starts_with_slash String.[] = false
starts_with_slash (String.◌∷◌ c s) = code c == b'/'

ends_with_slash : String → Bool
ends_with_slash String.[] = false
ends_with_slash (String.◌∷◌ c String.[]) = code c == b'/'
ends_with_slash (String.◌∷◌ c (String.◌∷◌ d s)) = ends_with_slash (String.◌∷◌ d s)

-- `os.path.join(a, b)` on a POSIX system
unfoldable pub join_path : String → String → String
unfolding starts_with_slash ends_with_slash
join_path a b =
    if starts_with_slash b
    then b
    else if str_eq a "" || ends_with_slash a
    then append a b
    else append a (append "/" b)

-- `x in xs` for a list of texts.
unfoldable pub contains : List String → String → Bool
contains [] x = false
contains (y ∷ ys) x = str_eq y x || contains ys x

pub not-contains-nil : (x : String) → contains [] x ≡ true → ⊥
unfolding contains
not-contains-nil x h = cc

pub contains_self : (x : String) (xs : List String) → contains (x ∷ xs) x ≡ true
unfolding contains
contains_self x xs = rw (eq_refl x)

pub contains-cons :
    (x y : String) (ys : List String) → contains ys x ≡ true → contains (y ∷ ys) x ≡ true
unfolding contains
contains-cons x y ys h = ground arith

pub contains_cases :
    (x y : String) (ys : List String)
    → contains (y ∷ ys) x ≡ true
    → (y ≡ x) ⊎ (contains ys x ≡ true)
unfolding contains
contains_cases x y ys h = ground (arith, eq_iff y x)

-- A dictionary in insertion order. `dict.pop(key, None)`, `dict.get(key)`, `dict[key] = value`.
module _ {ℓ} {Value : Type ℓ} where
  unfoldable pub remove : String → List (String × Value) → List (String × Value)
  remove key [] = []
  remove key (entry ∷ dict) =
      let rest = remove key dict in if str_eq entry.0 key then rest else entry ∷ rest

  unfoldable pub lookup : String → List (String × Value) → Option Value
  lookup key [] = none
  lookup key (entry ∷ dict) = if str_eq entry.0 key then some entry.1 else lookup key dict

  unfoldable pub insert : String → Value → List (String × Value) → List (String × Value)
  insert key new [] = (key, new) ∷ []
  insert key new (entry ∷ dict) =
      if str_eq entry.0 key then (entry.0, new) ∷ dict else entry ∷ insert key new dict

  unfoldable pub moved :
      String → String → List (String × Value) → Option Value → Option (List (String × Value))
  moved key target dict none = none
  moved key target dict (some value) = some (insert target value (remove key dict))

  -- A file, with its name for a key, is renamed, over what has the new name; it must be there.
  unfoldable pub rename : String → String → List (String × Value) → Option (List (String × Value))
  unfolding moved
  rename key target dict = moved key target dict (lookup key dict)

  pub lookup-remove :
      (key other : String) (dict : List (String × Value))
      → lookup other (remove key dict) ≡ (if str_eq key other then none else lookup other dict)
  unfolding remove lookup
  lookup-remove key other [] = ground arith
  lookup-remove key other (entry ∷ dict) = ground (
    arith,
    lookup-remove key other dict,
    eq_iff entry.0 other,
    eq_iff entry.0 key,
    eq_iff key other,
  )

  pub lookup-insert :
      (key other : String) (new : Value) (dict : List (String × Value))
      → lookup other (insert key new dict)
        ≡ (if str_eq key other then some new else lookup other dict)
  unfolding insert lookup
  lookup-insert key other new [] = refl
  lookup-insert key other new (entry ∷ dict) = ground (
    arith,
    lookup-insert key other new dict,
    eq_iff entry.0 other,
    eq_iff entry.0 key,
    eq_iff key other,
  )
