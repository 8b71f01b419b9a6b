-- ===== src/Prelude/Texts/Numerals.antt =====
-- A decimal numeral is read back as its number.
use Prim.Native.Nat.{ℕ, zero, suc, ◌+◌, ◌-◌, ◌*◌, ◌/◌, ◌%◌, ◌<◌}
use Prim.Native.Char.{Char, code}
use Prim.Native.String.{String, ◌++◌ as append}
use mathlib.Core.Path.{◌≡◌, refl, ap, ◌∙◌}
use mathlib.Core.Bool.{◌&&◌}
use mathlib.Core.Logic.{inl, inr}
use text.Mathlib.TextLemmas.{nil-append, cons-append, append_assoc}
use native.Mathlib.Omega.{arith}
use bark_detector.Prelude.Tests.{ltb, leb, if◌then◌else◌, Bool-cases}
use bark_detector.Prelude.Texts.{digit, decimals, show_ℕ}

-- The number that the digits at the front of a text add to `n`.
unfoldable pub read : ℕ → String → ℕ
read n String.[] = n
read n (String.◌∷◌ c s) =
    let more = read (n * 10 + (code c - 48)) s in
    if leb 48 (code c) && leb (code c) 57 then more else n

single : (c : Char) (rest : String) → append (String.◌∷◌ c String.[]) rest ≡ String.◌∷◌ c rest
single c rest = cons-append c String.[] rest ∙ ap (String.◌∷◌ c) (nil-append rest)

read-digit :
    (n d : ℕ) → d < 10 → (rest : String) → read n (append (digit d) rest) ≡ read (n * 10 + d) rest
unfolding read digit
read-digit n zero h rest = ap (read n) (single "0" rest)
read-digit n (suc zero) h rest = ap (read n) (single "1" rest)
read-digit n (suc (suc zero)) h rest = ap (read n) (single "2" rest)
read-digit n (suc (suc (suc zero))) h rest = ap (read n) (single "3" rest)
read-digit n (suc (suc (suc (suc zero)))) h rest = ap (read n) (single "4" rest)
read-digit n (suc (suc (suc (suc (suc zero))))) h rest = ap (read n) (single "5" rest)
read-digit n (suc (suc (suc (suc (suc (suc zero)))))) h rest = ap (read n) (single "6" rest)
read-digit n (suc (suc (suc (suc (suc (suc (suc zero))))))) h rest = ap (read n) (single "7" rest)
read-digit n (suc (suc (suc (suc (suc (suc (suc (suc zero)))))))) h rest =
    ap (read n) (single "8" rest)
read-digit n (suc (suc (suc (suc (suc (suc (suc (suc (suc zero))))))))) h rest =
    ap (read n) (single "9" rest)
read-digit n (suc (suc (suc (suc (suc (suc (suc (suc (suc (suc d)))))))))) h rest =
    absurd (omega arith)

read-decimals :
    (fuel n : ℕ) (rest : String) → n < fuel → read 0 (decimals fuel n rest) ≡ read n rest
unfolding decimals
read-decimals zero n rest h = absurd (omega arith)
read-decimals (suc fuel) n rest h = elim (Bool-cases (ltb n 10)) [
  | inl small ↦ rw small (read-digit 0 n (ground arith) rest ∙ ap (λ k. read k rest) (omega arith))
  | inr large ↦ rw large (
      read-decimals fuel (n / 10) (append (digit (n % 10)) rest) (ground arith)
      ∙ (read-digit (n / 10) (n % 10) (omega arith) rest ∙ ap (λ k. read k rest) (omega arith)))
]

append-decimals :
    (fuel n : ℕ) (rest more : String)
    → append (decimals fuel n rest) more ≡ decimals fuel n (append rest more)
unfolding decimals
append-decimals zero n rest more = refl
append-decimals (suc fuel) n rest more = elim (Bool-cases (ltb n 10)) [
  | inl small ↦ rw small (append_assoc (digit n) rest more)
  | inr large ↦ rw large (
      append-decimals fuel (n / 10) (append (digit (n % 10)) rest) more
      ∙ ap (decimals fuel (n / 10)) (append_assoc (digit (n % 10)) rest more))
]

-- Whatever follows the numeral of a number, reading goes on with that number.
pub read-show_ℕ : (n : ℕ) (rest : String) → read 0 (append (show_ℕ n) rest) ≡ read n rest
unfolding show_ℕ
read-show_ℕ n rest =
    ap (read 0) (append-decimals (suc n) n "" rest)
    ∙ (ap (λ more. read 0 (decimals (suc n) n more)) (nil-append rest)
        ∙ read-decimals (suc n) n rest (omega arith))

-- A zero at the front changes nothing.
pub read_zero : (rest : String) → read 0 (append "0" rest) ≡ read 0 rest
unfolding read
read_zero rest = ap (read 0) (single "0" rest)
