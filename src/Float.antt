-- ===== src/Float.antt =====
-- The floating-point numbers of the program, which has no arithmetic of its own: an interface of
-- the operations that the code calls, with laws that hold for IEEE 754 doubles, NaN included.
pub mod Milli
use Prim.Native.Nat.{◌^◌}
use bark_detector.Prelude.{ℕ, ◌*◌, ◌≤◌, ◌<◌, ◌≡◌, Bool, true, false, Option}
use bark_detector.Prelude.Int.{ℤ, max_one}

pub record Float (F : Type 0) : Type 0 where
  -- `a < b` and `a <= b`; both are false at a NaN
  pub lt : F → F → Bool
  pub le : F → F → Bool
  -- `decimal m k` is the literal `m / 10 ** k`, rounded
  pub decimal : ℕ → ℕ → F
  pub sub : F → F → F
  pub mul : F → F → F
  pub div : F → F → F
  -- `len(xs) * x`, `int <= float` (exact)
  pub of_ℕ : ℕ → F
  pub of_ℕ_le : ℕ → F → Bool
  -- `int(x)`, which raises where `x` is not finite
  pub is_finite : F → Bool
  pub trunc : F → ℤ
  -- `round(x, n)`
  pub round : F → ℕ → F
  -- `math.ceil`, which raises at an infinity or a NaN
  pub ceil : F → Option ℤ
  -- a numeral's rounding keeps the order
  pub decimal-le : (m k n l : ℕ) → m * 10 ^ l ≤ n * 10 ^ k → le (decimal m k) (decimal n l) ≡ true
  -- what is smaller than something, or larger, is no NaN
  pub lt-refl_left : (a b : F) → lt a b ≡ true → le a a ≡ true
  pub lt-refl_right : (a b : F) → lt a b ≡ true → le b b ≡ true
  pub not_lt→le : (a b : F) → le a a ≡ true → le b b ≡ true → lt a b ≡ false → le b a ≡ true
  pub sub-le :
      (a b : F) → le (decimal 0 0) b ≡ true → le a (decimal 1 0) ≡ true → le (sub a b) a ≡ true
  pub of_ℕ_le_mono : (m n : ℕ) (x : F) → m ≤ n → of_ℕ_le n x ≡ true → of_ℕ_le m x ≡ true
  -- what is at most a positive integer rounds to at most that integer
  pub round-le :
      (x : F) (n : ℕ) → 0 < n → le x (decimal n 0) ≡ true → max_one (trunc (round x 0)) ≤ n
  -- a number other than 0 has one representation (`10 ** -300` is no subnormal number)
  pub eq_decimal :
      (a : F) (m k : ℕ)
      → 0 < m
      → k ≤ 300
      → le a (decimal m k) ≡ true
      → le (decimal m k) a ≡ true
      → a ≡ decimal m k
  pub lt→le : (a b : F) → lt a b ≡ true → le a b ≡ true
  pub lt→not_le : (a b : F) → lt a b ≡ true → le b a ≡ false
  pub le_trans : (a b c : F) → le a b ≡ true → le b c ≡ true → le a c ≡ true
  pub lt-le_trans : (a b c : F) → lt a b ≡ true → le b c ≡ true → lt a c ≡ true
  pub le-lt_trans : (a b c : F) → le a b ≡ true → lt b c ≡ true → lt a c ≡ true
