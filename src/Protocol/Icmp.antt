-- ===== src/Protocol/Icmp.antt =====
-- `struct sr_icmp_hdr` of 20100117_RouterAssign_1/router/sr_protocol.h.
use internet_course.Base.{ℕ, ◌+◌, ◌*◌, ◌<◌, ◌≡◌, refl, List, [], ◌∷◌, length, arith, get_or}
use internet_course.Bytes.{bytes_le, IsBytes}
use internet_course.Protocol.Struct.{Struct}

pub record IcmpHdr : Type 0 where
  pub icmp_type : ℕ
  pub icmp_code : ℕ
  pub icmp_sum : ℕ

unfoldable pub read_icmp : List ℕ → IcmpHdr
read_icmp bs = record {
  icmp_type = get_or bs 0 0;
  icmp_code = get_or bs 1 0;
  icmp_sum = get_or bs 2 0 + 256 * get_or bs 3 0;
}

unfoldable pub write_icmp : IcmpHdr → List ℕ
write_icmp h = h.icmp_type ∷ h.icmp_code ∷ bytes_le 2 h.icmp_sum

pub record IcmpFits (h : IcmpHdr) : Type 0 where
  pub type_fits : h.icmp_type < 256
  pub code_fits : h.icmp_code < 256
  pub sum_fits : h.icmp_sum < 65536

pub length-write : (h : IcmpHdr) → IcmpFits h → length (write_icmp h) ≡ 4
unfolding write_icmp
length-write h f = refl

pub read-write : (h : IcmpHdr) → IcmpFits h → read_icmp (write_icmp h) ≡ h
unfolding read_icmp write_icmp
read-write h f = ground arith

pub write-read : (bs : List ℕ) → length bs ≡ 4 → IsBytes bs → write_icmp (read_icmp bs) ≡ bs
unfolding read_icmp write_icmp
write-read (a ∷ b ∷ c ∷ d ∷ []) e v = ground arith
write-read _ h v = absurd (omega arith)

pub read-Fits : (bs : List ℕ) → length bs ≡ 4 → IsBytes bs → IcmpFits (read_icmp bs)
unfolding read_icmp
read-Fits (a ∷ b ∷ c ∷ d ∷ []) e v = omega arith
read-Fits _ h v = absurd (omega arith)

pub write-IsBytes : (h : IcmpHdr) → IcmpFits h → IsBytes (write_icmp h)
unfolding write_icmp
write-IsBytes h f = omega arith

abbrev pub icmp_hdr : Struct IcmpHdr
icmp_hdr = record {
  size = 4;
  read = read_icmp;
  write = write_icmp;
  Fits = IcmpFits;
  length_write = length-write;
  read_write = read-write;
  write_read = write-read;
  read_fits = read-Fits;
  write_bytes = write-IsBytes;
}
