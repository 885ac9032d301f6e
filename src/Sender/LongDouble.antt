-- ===== src/Sender/LongDouble.antt =====
-- The floating point that the controllers of Assign_3 use: an ordered type of numbers with the
-- operations of the code, `long double` and `double` alike.
use internet_course.Base.{
  ℕ, ◌+◌, ◌*◌, ◌-◌, ◌/◌, ◌<◌, ◌≤◌, ◌≡◌, ◌^◌, refl, Bool, false, arith, ltb, leb,
}

pub record LongDouble (W : Type 0) : Type 1 where
  pub of_nat : ℕ → W
  -- The literal that stands for a fraction.
  pub of_ratio : ℕ → ℕ → W
  pub add : W → W → W
  pub sub : W → W → W
  pub mul : W → W → W
  pub div : W → W → W
  pub lt : W → W → Bool
  pub le : W → W → Bool
  -- The conversion to `unsigned int`, to `uint64_t`, and to `long int` and back.
  pub to_uint : W → ℕ
  pub to_uint64 : W → ℕ
  pub to_long : W → W
  -- A number, not NaN, in the range of `unsigned int`.
  pub Fits : W → Type 0
  pub to_uint_nat : (n : ℕ) → n < 2 ^ 32 → to_uint (of_nat n) ≡ n
  pub lt_nat : (m n : ℕ) → m < 2 ^ 32 → n < 2 ^ 32 → lt (of_nat m) (of_nat n) ≡ ltb m n
  pub le_nat : (m n : ℕ) → m < 2 ^ 32 → n < 2 ^ 32 → le (of_nat m) (of_nat n) ≡ leb m n
  pub add_nat : (m n : ℕ) → m + n < 2 ^ 32 → add (of_nat m) (of_nat n) ≡ of_nat (m + n)
  -- A number that is not below 1 keeps at least 1.
  pub to_uint_positive : (w : W) → Fits w → lt w (of_nat 1) ≡ false → 1 ≤ to_uint w

abbrev WholeFits : ℕ → Type 0
WholeFits w = w < 2 ^ 32

pub whole_positive : (w : ℕ) → WholeFits w → ltb w 1 ≡ false → 1 ≤ w
whole_positive w f h = ground arith

-- The laws can be met: whole numbers, rounded down.
abbrev pub whole : LongDouble ℕ
whole = record {
  of_nat = λ n. n;
  of_ratio = λ m n. m / n;
  add = λ a b. a + b;
  sub = λ a b. a - b;
  mul = λ a b. a * b;
  div = λ a b. a / b;
  lt = ltb;
  le = leb;
  to_uint = λ w. w;
  to_uint64 = λ w. w;
  to_long = λ w. w;
  Fits = λ w. w < 2 ^ 32;
  to_uint_nat = λ n h. refl;
  lt_nat = λ m n h k. refl;
  le_nat = λ m n h k. refl;
  add_nat = λ m n h. refl;
  to_uint_positive = whole_positive;
}
