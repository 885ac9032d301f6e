-- ===== src/Protocol/IcmpT3.antt =====
-- `struct sr_icmp_t3_hdr` of 20100117_RouterAssign_1/router/sr_protocol.h.
use internet_course.Base.{
  ℕ, ◌+◌, ◌*◌, ◌<◌, ◌≡◌, List, ◌∷◌, ◌++◌, length, arith, get_or, take_all, ap, sym, subst,
}
use internet_course.Bytes.{bytes_le, slice, IsBytes}
use internet_course.Protocol.Struct.{Struct}

pub record IcmpT3Hdr : Type 0 where
  pub icmp_type : ℕ
  pub icmp_code : ℕ
  pub icmp_sum : ℕ
  pub unused : ℕ
  pub next_mtu : ℕ
  pub icmp_data : List ℕ

unfoldable pub read_icmp_t3 : List ℕ → IcmpT3Hdr
read_icmp_t3 bs = record {
  icmp_type = get_or bs 0 0;
  icmp_code = get_or bs 1 0;
  icmp_sum = get_or bs 2 0 + 256 * get_or bs 3 0;
  unused = get_or bs 4 0 + 256 * get_or bs 5 0;
  next_mtu = get_or bs 6 0 + 256 * get_or bs 7 0;
  icmp_data = slice bs 8 28;
}

unfoldable pub write_icmp_t3 : IcmpT3Hdr → List ℕ
write_icmp_t3 h =
    (h.icmp_type ∷ h.icmp_code ∷ bytes_le 2 h.icmp_sum)
    ++ (bytes_le 2 h.unused ++ (bytes_le 2 h.next_mtu ++ h.icmp_data))

pub record IcmpT3Fits (h : IcmpT3Hdr) : Type 0 where
  pub type_fits : h.icmp_type < 256
  pub code_fits : h.icmp_code < 256
  pub sum_fits : h.icmp_sum < 65536
  pub unused_fits : h.unused < 65536
  pub mtu_fits : h.next_mtu < 65536
  pub data_size : length h.icmp_data ≡ 28
  pub data_bytes : IsBytes h.icmp_data

pub length-write : (h : IcmpT3Hdr) → IcmpT3Fits h → length (write_icmp_t3 h) ≡ 36
unfolding write_icmp_t3
length-write h f = omega arith

pub read-write : (h : IcmpT3Hdr) → IcmpT3Fits h → read_icmp_t3 (write_icmp_t3 h) ≡ h
unfolding read_icmp_t3 write_icmp_t3
read-write h f = ground (arith, take_all 28 h.icmp_data)

pub write-read : (bs : List ℕ) → length bs ≡ 36 → IsBytes bs → write_icmp_t3 (read_icmp_t3 bs) ≡ bs
unfolding read_icmp_t3 write_icmp_t3
write-read (a ∷ b ∷ c ∷ d ∷ e ∷ f ∷ g ∷ h ∷ rest) l v = ground (arith, take_all 28 rest)
write-read _ h v = absurd (omega arith)

pub read-Fits : (bs : List ℕ) → length bs ≡ 36 → IsBytes bs → IcmpT3Fits (read_icmp_t3 bs)
unfolding read_icmp_t3
read-Fits (a ∷ b ∷ c ∷ d ∷ e ∷ f ∷ g ∷ h ∷ rest) l v = record {
  type_fits = omega arith;
  code_fits = omega arith;
  sum_fits = omega arith;
  unused_fits = omega arith;
  mtu_fits = omega arith;
  data_size = omega (arith, ap (length {0}) (take_all 28 rest (omega arith)));
  data_bytes = subst IsBytes (sym (take_all 28 rest (omega arith))) v.1.1.1.1.1.1.1.1;
}
read-Fits _ h v = absurd (omega arith)

pub write-IsBytes : (h : IcmpT3Hdr) → IcmpT3Fits h → IsBytes (write_icmp_t3 h)
unfolding write_icmp_t3
write-IsBytes h f = ground arith

abbrev pub icmp_t3_hdr : Struct IcmpT3Hdr
icmp_t3_hdr = record {
  size = 36;
  read = read_icmp_t3;
  write = write_icmp_t3;
  Fits = IcmpT3Fits;
  length_write = length-write;
  read_write = read-write;
  write_read = write-read;
  read_fits = read-Fits;
  write_bytes = write-IsBytes;
}
