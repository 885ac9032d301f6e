-- ===== src/Checksum/Sum.antt =====
-- What `cksum` computes: the one's complement of the one's complement sum of RFC 1071, described
-- by the plain sum of the big-endian 16-bit words modulo 65535.
use internet_course.Base.{ℕ, ◌+◌, ◌*◌, ◌%◌, ◌^◌, ◌≤◌, ◌<◌, ◌≡◌, List, [], ◌∷◌, length, arith}
use internet_course.Bytes.{IsBytes, ntohs}
use internet_course.Checksum.{sum_words, finish, cksum}
use internet_course.Checksum.Bits.{bit_or_byte}
use internet_course.Checksum.Fold.{fold_carry, fold_carry-Folded}

-- The sum of the 16-bit words in network order, an odd byte at the end padded with 0.
abbrev pub word_sum : List ℕ → ℕ
word_sum [] = 0
word_sum (a ∷ []) = a * 256
word_sum (a ∷ b ∷ rest) = a * 256 + b + word_sum rest

pub word_sum_bound : (bs : List ℕ) → IsBytes bs → 2 * word_sum bs ≤ 65535 * (length bs + 1)
word_sum_bound [] v = omega arith
word_sum_bound (a ∷ []) v = omega arith
word_sum_bound (a ∷ b ∷ rest) v = omega (arith, word_sum_bound rest v.1.1)

-- Below 2 ^ 32 the sum of the loop does not wrap.
sum_words-word_sum :
    (acc : ℕ) (bs : List ℕ)
    → IsBytes bs
    → acc + word_sum bs < 2 ^ 32
    → sum_words acc bs ≡ acc + word_sum bs
unfolding sum_words
sum_words-word_sum acc [] v h = omega arith
sum_words-word_sum acc (a ∷ []) v h = omega arith
sum_words-word_sum acc (a ∷ b ∷ rest) v h =
    rw (bit_or_byte a b v.1.0)
      (omega (arith, sum_words-word_sum ((acc + (a * 256 + b)) % 2 ^ 32) rest v.1.1 (omega arith)))

abbrev pub Complements : ℕ → ℕ → Type 0
Complements sum c = (0 < c) × (c < 65536) × ((sum + ntohs c) % 65535 ≡ 0)

finish-Complements : (sum : ℕ) → sum ≤ 0xffff → Complements sum (finish sum)
unfolding finish
finish-Complements sum h = ground arith

-- On a block of bytes shorter than 128 KiB, `cksum` gives a 16-bit number other than 0 that,
-- read in network order and added to the words of the block, makes a multiple of 65535.
pub cksum-Complements :
    (bs : List ℕ) → IsBytes bs → length bs < 131072 → Complements (word_sum bs) (cksum bs)
unfolding cksum
cksum-Complements bs v h =
    let total : sum_words 0 bs ≡ word_sum bs = omega (
      arith,
      word_sum_bound bs v,
      sum_words-word_sum 0 bs v (omega (arith, word_sum_bound bs v)),
    ) in
    let folded = fold_carry-Folded (sum_words 0 bs) in
    let done = finish-Complements (fold_carry (sum_words 0 bs)) folded.0 in
    (done.0, done.1, omega (arith, done.2, folded.1, total))

-- There is one such number for each sum.
pub Complements-unique : (sum : ℕ) {c d : ℕ} → Complements sum c → Complements sum d → c ≡ d
Complements-unique sum p q = omega arith
