-- ===== src/Bytes.antt =====
-- Memory blocks as lists of bytes: `memcpy` into and out of a block, and the host's
-- little-endian reading of `uint16_t` and `uint32_t` (the build sets _LINUX_, for which
-- 20100117_RouterAssign_1/router/sr_protocol.h takes __LITTLE_ENDIAN).
pub mod Laws
use internet_course.Base.{ℕ, zero, suc, ◌+◌, ◌*◌, ◌/◌, ◌%◌, ◌<◌, List, [], ◌∷◌, take, drop, All}

-- What `memcpy(dst, p + o, n)` reads.
abbrev pub slice : List ℕ → ℕ → ℕ → List ℕ
slice p o n = take n (drop o p)

unfoldable pub overlay : List ℕ → List ℕ → List ℕ
overlay p [] = p
overlay [] (b ∷ bs) = []
overlay (x ∷ p) (b ∷ bs) = b ∷ overlay p bs

-- The block after `memcpy(p + o, bs, n)`. What would fall outside is dropped; the commands that
-- write check the bounds first.
unfoldable pub splice : List ℕ → ℕ → List ℕ → List ℕ
unfolding overlay
splice p zero bs = overlay p bs
splice [] (suc o) bs = []
splice (x ∷ p) (suc o) bs = x ∷ splice p o bs

-- The number that the host reads at a field of these bytes.
abbrev pub word_le : List ℕ → ℕ
word_le [] = 0
word_le (b ∷ bs) = b + 256 * word_le bs

-- The bytes that the host writes for a number in a field of `n` bytes.
abbrev pub bytes_le : ℕ → ℕ → List ℕ
bytes_le zero v = []
bytes_le (suc n) v = (v % 256) ∷ bytes_le n (v / 256)

-- Every member is a `uint8_t`.
abbrev pub IsBytes : List ℕ → Type 0
IsBytes = All (λ b. b < 256)

-- `htons` and `ntohs` on a little-endian host: the low two bytes change places.
abbrev pub htons : ℕ → ℕ
htons x = x % 256 * 256 + x / 256 % 256

abbrev pub ntohs : ℕ → ℕ
ntohs = htons

-- `htonl` and `ntohl` on a little-endian host.
abbrev pub htonl : ℕ → ℕ
htonl x = x % 256 * 16777216 + x / 256 % 256 * 65536 + x / 65536 % 256 * 256 + x / 16777216 % 256

abbrev pub ntohl : ℕ → ℕ
ntohl = htonl
