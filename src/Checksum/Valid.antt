-- ===== src/Checksum/Valid.antt =====
-- The checksum field of an IP header: what the sender stores and what the receiver accepts.
use internet_course.Base.{ℕ, ◌+◌, ◌%◌, ◌<◌, ◌≡◌, ◌↔◌, refl, arith}
use internet_course.Bytes.{ntohs}
use internet_course.Checksum.{cksum}
use internet_course.Checksum.Sum.{word_sum, Complements, cksum-Complements, Complements-unique}
use internet_course.Protocol.Ip.{IpHdr, IpFits, write_ip, length-write, write-IsBytes}

-- The checksum that the code computes for a header: that of the bytes with the field cleared.
abbrev pub header_cksum : IpHdr → ℕ
header_cksum h = cksum (write_ip (record h { ip_sum = 0 }))

-- RFC 791: the one's complement sum of the words of the header, the checksum included, is all
-- ones.
abbrev pub SumHolds : IpHdr → Type 0
SumHolds h = (word_sum (write_ip h) % 65535 ≡ 0) × (0 < word_sum (write_ip h))

-- The sum holds, and the field is not 0, which the RFC does not ask for.
abbrev pub ChecksumHolds : IpHdr → Type 0
ChecksumHolds h = SumHolds h × (0 < h.ip_sum)

module _ (h : IpHdr) (f : IpFits h) where
  cleared : IpFits (record h { ip_sum = 0 })
  cleared = omega arith

  -- Clearing the field takes its value, in network order, out of the sum.
  word_sum_cleared :
      word_sum (write_ip (record h { ip_sum = 0 })) + ntohs h.ip_sum ≡ word_sum (write_ip h)
  unfolding write_ip
  word_sum_cleared = omega arith

  pub header_cksum-Complements :
      Complements (word_sum (write_ip (record h { ip_sum = 0 }))) (header_cksum h)
  header_cksum-Complements =
      cksum-Complements _ (write-IsBytes _ cleared) (omega (arith, length-write _ cleared))

  -- Recomputing the checksum finds the stored one exactly if the sum holds and the
  -- stored one is not 0.
  pub header_cksum_iff : (header_cksum h ≡ h.ip_sum) ↔ ChecksumHolds h
  header_cksum_iff = (
    λ e. omega (arith, e, word_sum_cleared, header_cksum-Complements),
    λ c.
        Complements-unique _ header_cksum-Complements
          (c.1, f.sum_fits, omega (arith, c.0.0, word_sum_cleared)),
  )

-- A header that has been given the checksum that the code computes for it.
abbrev pub checksummed : IpHdr → IpHdr
checksummed h = record h { ip_sum = header_cksum h }

pub checksummed-Fits : (h : IpHdr) → IpFits h → IpFits (checksummed h)
checksummed-Fits h f = omega (arith, header_cksum-Complements h f)

pub checksummed-ChecksumHolds : (h : IpHdr) → IpFits h → ChecksumHolds (checksummed h)
checksummed-ChecksumHolds h f = (header_cksum_iff (checksummed h) (checksummed-Fits h f)).0 refl
