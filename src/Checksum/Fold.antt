-- ===== src/Checksum/Fold.antt =====
-- The second loop of `cksum` (20100117_RouterAssign_1/router/sr_utils.c): adding the carries back
-- in until the sum fits 16 bits.
use Prim.Native.Nat.{bit_and}
use mathlib.Core.WellFounded.{Acc}
use mathlib.Core.Logic.{dite}
use native.Mathlib.Decide.{dec_lt}
use internet_course.Base.{ℕ, zero, suc, ◌+◌, ◌/◌, ◌%◌, ◌^◌, ◌≤◌, ◌<◌, ◌≡◌, arith}
use internet_course.Checksum.Bits.{bit_and_word}

Acc-below : (k n : ℕ) → n < k → Acc ◌<◌ n
Acc-below zero n h = elim h [ ]
Acc-below (suc k) n h = Acc.intro n (λ m hm. Acc-below k m (omega arith))

-- `sum = (sum >> 16) + (sum & 0xffff)`
abbrev carry : ℕ → ℕ
carry sum = sum / 2 ^ 16 + bit_and sum 0xffff

pub carry-lt : (sum : ℕ) → 0xffff < sum → carry sum < sum
carry-lt sum h = omega (arith, bit_and_word sum)

-- Each round makes the sum smaller, so the loop ends.
fold_acc : (sum : ℕ) → Acc ◌<◌ sum → ℕ
fold_acc sum (Acc.intro _ smaller) =
    dite (dec_lt 0xffff sum) (λ h. fold_acc (carry sum) (smaller (carry sum) (carry-lt sum h)))
      (λ _. sum)

all_acc : (n : ℕ) → Acc ◌<◌ n
unfolding Acc-below
all_acc n = Acc-below (suc n) n (omega arith)

unfoldable pub fold_carry : ℕ → ℕ
unfolding fold_acc all_acc dec_lt
fold_carry sum = fold_acc sum (all_acc sum)

abbrev Folded : ℕ → ℕ → Type 0
Folded sum r = (r ≤ 0xffff) × (r % 65535 ≡ sum % 65535) × (0 < sum → 0 < r) × (sum ≡ 0 → r ≡ 0)

fold_acc-Folded : (sum : ℕ) (w : Acc ◌<◌ sum) → Folded sum (fold_acc sum w)
unfolding fold_acc
fold_acc-Folded sum (Acc.intro _ smaller) = grind (
  arith,
  bit_and_word sum,
  λ (p : carry sum < sum). fold_acc-Folded (carry sum) (smaller (carry sum) p),
)

-- The loop ends with a 16-bit sum that is the same modulo 65535, and 0 only for 0.
pub fold_carry-Folded : (sum : ℕ) → Folded sum (fold_carry sum)
unfolding fold_carry
fold_carry-Folded sum = fold_acc-Folded sum (all_acc sum)
