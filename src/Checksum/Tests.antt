-- ===== src/Checksum/Tests.antt =====
-- The checksum of a header from RFC 1071's literature, and of an odd number of bytes.
use internet_course.Base.{◌≡◌, refl, [], ◌∷◌}
use internet_course.Checksum.{cksum}

-- A header whose checksum is 0xb861, read by the host as 0x61b8.
cksum_header :
    cksum (
      0x45 ∷ 0x00 ∷ 0x00 ∷ 0x73 ∷ 0x00 ∷ 0x00 ∷ 0x40 ∷ 0x00 ∷ 0x40 ∷ 0x11 ∷ 0x00 ∷ 0x00 ∷ 0xc0
      ∷ 0xa8 ∷ 0x00 ∷ 0x01 ∷ 0xc0 ∷ 0xa8 ∷ 0x00 ∷ 0xc7 ∷ [])
    ≡ 0x61b8
unfolding cksum
cksum_header = refl

cksum_odd : cksum (0xff ∷ 0xff ∷ 0x01 ∷ []) ≡ 0xfffe
unfolding cksum
cksum_odd = refl
