-- ===== src/Checksum/Bits.antt =====
-- `|` of a high and a low byte and `&` with `0xffff`, as arithmetic.
use Prim.Native.Nat.{
  ℕ, zero, suc, ◌+◌, ◌*◌, ◌/◌, ◌%◌, ◌^◌, ◌≤◌, ◌<◌, min, max, bit_and, bit_or, digits, bitwise,
  bit_and-bitwise, bit_or-bitwise,
}
use native.Mathlib.Nat.{pow-suc}
use internet_course.Base.{◌-◌, ◌≡◌, refl, ap, subst, arith}

-- The native operations stand for a recursion on binary digits with fuel: any enough fuel gives
-- the same digits.
module _ (z : ℕ → ℕ) (f : ℕ → ℕ → ℕ) where
  digits_enough : (n m a b : ℕ) → a ≤ n → a ≤ m → digits z f n a b ≡ digits z f m a b
  digits_enough zero zero a b p q = refl
  digits_enough zero (suc m) zero b p q = refl
  digits_enough zero (suc m) (suc a) b p q = absurd (omega arith)
  digits_enough (suc n) zero zero b p q = refl
  digits_enough (suc n) zero (suc a) b p q = absurd (omega arith)
  digits_enough (suc n) (suc m) zero b p q = refl
  digits_enough (suc n) (suc m) (suc a) b p q =
      rw (digits_enough n m (suc a / 2) (b / 2) (omega arith) (omega arith))

  lowest_digit :
      (a b : ℕ)
      → bitwise z f (suc a) b ≡ bitwise z f (suc a / 2) (b / 2) * 2 + f (suc a % 2) (b % 2)
  lowest_digit a b =
      omega (arith, digits_enough a (suc a / 2) (suc a / 2) (b / 2) (omega arith) (omega arith))

or_digit : (a b : ℕ) → bit_or a b ≡ bit_or (a / 2) (b / 2) * 2 + max (a % 2) (b % 2)
or_digit zero b = simp bit_or-bitwise (omega arith)
or_digit (suc a) b = simp bit_or-bitwise (lowest_digit (λ y. y) max a b)

and_digit : (a b : ℕ) → bit_and a b ≡ bit_and (a / 2) (b / 2) * 2 + min (a % 2) (b % 2)
and_digit zero b = simp bit_and-bitwise (omega arith)
and_digit (suc a) b = simp bit_and-bitwise (lowest_digit (λ y. 0) min a b)

or_zero_below : (n a : ℕ) → a ≤ n → bit_or a 0 ≡ a
or_zero_below n zero h = refl
or_zero_below zero (suc a) h = absurd (omega arith)
or_zero_below (suc n) (suc a) h =
    omega (arith, or_digit (suc a) 0, or_zero_below n (suc a / 2) (omega arith))

and_zero_below : (n a : ℕ) → a ≤ n → bit_and a 0 ≡ 0
and_zero_below n zero h = refl
and_zero_below zero (suc a) h = absurd (omega arith)
and_zero_below (suc n) (suc a) h =
    omega (arith, and_digit (suc a) 0, and_zero_below n (suc a / 2) (omega arith))

shift_up : (q k : ℕ) → q * 2 ^ suc k ≡ 2 * (q * 2 ^ k)
shift_up q k = omega (arith, ap (λ (t : ℕ). q * t) (pow-suc 2 k))

-- A `|` whose parts share no digit is a sum.
or_disjoint : (k q r : ℕ) → r < 2 ^ k → bit_or (q * 2 ^ k) r ≡ q * 2 ^ k + r
or_disjoint zero q r h = ground (arith, or_zero_below q q)
or_disjoint (suc k) q r h = ground (
  arith,
  shift_up q k,
  or_digit (q * 2 ^ suc k) r,
  or_disjoint k q (r / 2) (omega (arith, pow-suc 2 k)),
)

-- A mask of low digits cuts off the others.
and_low : (k q r : ℕ) → r < 2 ^ k → bit_and (q * 2 ^ k + r) (2 ^ k - 1) ≡ r
and_low zero q r h = rw (and_zero_below (q * 2 ^ 0 + r) (q * 2 ^ 0 + r) (omega arith)) (omega arith)
and_low (suc k) q r h = ground (
  arith,
  shift_up q k,
  pow-suc 2 k,
  and_digit (q * 2 ^ suc k + r) (2 ^ suc k - 1),
  and_low k q (r / 2) (omega (arith, pow-suc 2 k)),
)

-- `data[0] << 8 | data[1]`
pub bit_or_byte : (a b : ℕ) → b < 256 → bit_or (a * 2 ^ 8) b ≡ a * 256 + b
bit_or_byte a b h = or_disjoint 8 a b h

-- `sum & 0xffff`
pub bit_and_word : (a : ℕ) → bit_and a 0xffff ≡ a % 65536
bit_and_word a =
    subst (λ x. bit_and x 0xffff ≡ a % 65536) (omega arith)
      (and_low 16 (a / 65536) (a % 65536) (omega arith))
