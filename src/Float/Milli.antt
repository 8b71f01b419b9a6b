-- ===== src/Float/Milli.antt =====
-- Non-negative fixed-point numbers with three decimals: an instance of the interface, at which the
-- examples run. It shows that the laws can hold.
use Prim.Native.Nat.{◌^◌}
use native.Mathlib.Nat.{
  div-mul-le_self, mul-le-mul_right, le_of_mul-le-mul_right, one-le-pow, le-div_iff_mul-le,
}
use bark_detector.Prelude.{
  ℕ, zero, suc, ◌+◌, ◌-◌, ◌*◌, ◌/◌, ◌≤◌, ◌<◌, ◌≡◌, true, false, some, arith, ltb, leb,
}
use bark_detector.Prelude.Int.{pos, max_one}
use bark_detector.Float.{Float}

pub lt→le : (a b : ℕ) → ltb a b ≡ true → leb a b ≡ true
lt→le a b h = ground arith

pub lt→not_le : (a b : ℕ) → ltb a b ≡ true → leb b a ≡ false
lt→not_le a b h = ground arith

pub le_trans : (a b c : ℕ) → leb a b ≡ true → leb b c ≡ true → leb a c ≡ true
le_trans a b c h k = ground arith

pub lt-le_trans : (a b c : ℕ) → ltb a b ≡ true → leb b c ≡ true → ltb a c ≡ true
lt-le_trans a b c h k = ground arith

pub le-lt_trans : (a b c : ℕ) → leb a b ≡ true → ltb b c ≡ true → ltb a c ≡ true
le-lt_trans a b c h k = ground arith

pub lt-refl_left : (a b : ℕ) → ltb a b ≡ true → leb a a ≡ true
lt-refl_left a b h = ground arith

pub lt-refl_right : (a b : ℕ) → ltb a b ≡ true → leb b b ≡ true
lt-refl_right a b h = ground arith

pub not_lt→le : (a b : ℕ) → leb a a ≡ true → leb b b ≡ true → ltb a b ≡ false → leb b a ≡ true
not_lt→le a b h k e = ground arith

pub sub-le :
    (a b : ℕ)
    → leb (0 * 1000 / 10 ^ 0) b ≡ true
    → leb a (1 * 1000 / 10 ^ 0) ≡ true
    → leb (a - b) a ≡ true
sub-le a b h k = ground arith

le_antisym : (a b : ℕ) → leb a b ≡ true → leb b a ≡ true → a ≡ b
le_antisym a b x y = ground arith

leb_of_le : (a b : ℕ) → a ≤ b → leb a b ≡ true
leb_of_le a b h = ground arith

scaled_le : (a b m n : ℕ) → 0 < a → 0 < b → m * b ≤ n * a → m * 1000 / a ≤ n * 1000 / b
scaled_le a b m n pa pb h =
    let x = m * 1000 / a in
    let e : x * a ≤ m * 1000 = div-mul-le_self (m * 1000) a in
    let f : x * a * b ≤ m * 1000 * b = mul-le-mul_right b e in
    (le-div_iff_mul-le pb).1 (le_of_mul-le-mul_right {k = a} (omega (arith, f, h)) pa)

pub decimal-le :
    (m k n l : ℕ) → m * 10 ^ l ≤ n * 10 ^ k → leb (m * 1000 / 10 ^ k) (n * 1000 / 10 ^ l) ≡ true
decimal-le m k n l h = leb_of_le _ _ (
    scaled_le (10 ^ k) (10 ^ l) m n (one-le-pow k 10 (omega arith)) (one-le-pow l 10 (omega arith))
      h)

pub of_ℕ_le_mono : (m n x : ℕ) → m ≤ n → leb (n * 1000) x ≡ true → leb (m * 1000) x ≡ true
of_ℕ_le_mono m n x h k = ground arith

pub eq_decimal :
    (a m k : ℕ)
    → 0 < m
    → k ≤ 300
    → leb a (m * 1000 / 10 ^ k) ≡ true
    → leb (m * 1000 / 10 ^ k) a ≡ true
    → a ≡ m * 1000 / 10 ^ k
eq_decimal a m k p q x y = le_antisym a (m * 1000 / 10 ^ k) x y

max_one-le : (m n : ℕ) → 0 < n → m ≤ n → max_one (pos m) ≤ n
max_one-le zero n p h = p
max_one-le (suc m) n p h = h

pub round-le :
    (x n : ℕ)
    → 0 < n
    → leb x (n * 1000 / 10 ^ 0) ≡ true
    → max_one (pos (x / 10 ^ (3 - 0) * 10 ^ (3 - 0) / 1000)) ≤ n
round-le x n p h =
    max_one-le (x / 1000 * 1000 / 1000) n p
      (let h' : leb x (n * 1000) ≡ true = ground (arith, h) in ground arith)

instance abbrev pub milli : Float ℕ
milli = record {
  lt = ltb;
  le = leb;
  decimal = λ m k. m * 1000 / 10 ^ k;
  sub = λ a b. a - b;
  mul = λ a b. a * b / 1000;
  div = λ a b. a * 1000 / b;
  of_ℕ = λ n. n * 1000;
  of_ℕ_le = λ n a. leb (n * 1000) a;
  is_finite = λ a. true;
  trunc = λ a. pos (a / 1000);
  round = λ a n. a / 10 ^ (3 - n) * 10 ^ (3 - n);
  ceil = λ a. some (pos ((a + 999) / 1000));
  decimal-le = decimal-le;
  lt-refl_left = lt-refl_left;
  lt-refl_right = lt-refl_right;
  not_lt→le = not_lt→le;
  sub-le = sub-le;
  of_ℕ_le_mono = of_ℕ_le_mono;
  round-le = round-le;
  eq_decimal = eq_decimal;
  lt→le = lt→le;
  lt→not_le = lt→not_le;
  le_trans = le_trans;
  lt-le_trans = lt-le_trans;
  le-lt_trans = le-lt_trans;
}
