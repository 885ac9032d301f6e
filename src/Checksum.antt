-- ===== src/Checksum.antt =====
-- `cksum` of 20100117_RouterAssign_1/router/sr_utils.c: the Internet checksum of a block. The
-- `int` length is the length of the list.
pub mod Bits
pub mod Fold
pub mod Sum
pub mod Valid
mod Tests
use Prim.Native.Nat.{bit_or}
use internet_course.Base.{ℕ, ◌+◌, ◌-◌, ◌*◌, ◌%◌, ◌^◌, List, [], ◌∷◌, if◌then◌else◌, ◌==◌}
use internet_course.Bytes.{htons}
use Fold.{fold_carry}

-- The loop over the 16-bit words, and the odd byte behind them. The sum is a `uint32_t`.
unfoldable pub sum_words : ℕ → List ℕ → ℕ
sum_words sum [] = sum
sum_words sum (a ∷ []) = (sum + a * 2 ^ 8) % 2 ^ 32
sum_words sum (a ∷ b ∷ rest) = sum_words ((sum + bit_or (a * 2 ^ 8) b) % 2 ^ 32) rest

-- `htons (~sum)`, and `0xffff` in place of 0.
unfoldable pub finish : ℕ → ℕ
finish sum = let r = htons (2 ^ 32 - 1 - sum) in if r == 0 then 0xffff else r

unfoldable pub cksum : List ℕ → ℕ
unfolding sum_words fold_carry finish
cksum bytes = finish (fold_carry (sum_words 0 bytes))
