-- ===== src/Protocol/Ip.antt =====
-- `struct sr_ip_hdr` of 20100117_RouterAssign_1/router/sr_protocol.h. The bit fields share one
-- byte, `ip_hl` in its low half (little-endian).
use internet_course.Base.{
  ℕ, ◌+◌, ◌*◌, ◌/◌, ◌%◌, ◌<◌, ◌≡◌, refl, List, [], ◌∷◌, ◌++◌, length, arith, get_or,
}
use internet_course.Bytes.{bytes_le, IsBytes}
use internet_course.Protocol.Struct.{Struct}

pub record IpHdr : Type 0 where
  pub ip_hl : ℕ
  pub ip_v : ℕ
  pub ip_tos : ℕ
  pub ip_len : ℕ
  pub ip_id : ℕ
  pub ip_off : ℕ
  pub ip_ttl : ℕ
  pub ip_p : ℕ
  pub ip_sum : ℕ
  pub ip_src : ℕ
  pub ip_dst : ℕ

abbrev at : List ℕ → ℕ → ℕ
at bs i = get_or bs i 0

abbrev at₂ : List ℕ → ℕ → ℕ
at₂ bs i = at bs i + 256 * at bs (i + 1)

abbrev at₄ : List ℕ → ℕ → ℕ
at₄ bs i = at bs i + 256 * at bs (i + 1) + 65536 * at bs (i + 2) + 16777216 * at bs (i + 3)

unfoldable pub read_ip : List ℕ → IpHdr
read_ip bs = record {
  ip_hl = at bs 0 % 16;
  ip_v = at bs 0 / 16;
  ip_tos = at bs 1;
  ip_len = at₂ bs 2;
  ip_id = at₂ bs 4;
  ip_off = at₂ bs 6;
  ip_ttl = at bs 8;
  ip_p = at bs 9;
  ip_sum = at₂ bs 10;
  ip_src = at₄ bs 12;
  ip_dst = at₄ bs 16;
}

unfoldable pub write_ip : IpHdr → List ℕ
write_ip h =
    (h.ip_hl + 16 * h.ip_v) ∷ h.ip_tos ∷ bytes_le 2 h.ip_len
    ++ (bytes_le 2 h.ip_id
        ++ (bytes_le 2 h.ip_off
            ++ (h.ip_ttl ∷ h.ip_p ∷ bytes_le 2 h.ip_sum
                ++ (bytes_le 4 h.ip_src ++ bytes_le 4 h.ip_dst))))

pub record IpFits (h : IpHdr) : Type 0 where
  pub hl_fits : h.ip_hl < 16
  pub v_fits : h.ip_v < 16
  pub tos_fits : h.ip_tos < 256
  pub len_fits : h.ip_len < 65536
  pub id_fits : h.ip_id < 65536
  pub off_fits : h.ip_off < 65536
  pub ttl_fits : h.ip_ttl < 256
  pub p_fits : h.ip_p < 256
  pub sum_fits : h.ip_sum < 65536
  pub src_fits : h.ip_src < 4294967296
  pub dst_fits : h.ip_dst < 4294967296

pub length-write : (h : IpHdr) → IpFits h → length (write_ip h) ≡ 20
unfolding write_ip
length-write h f = refl

pub read-write : (h : IpHdr) → IpFits h → read_ip (write_ip h) ≡ h
unfolding read_ip write_ip
read-write h f = ground arith

pub write-read : (bs : List ℕ) → length bs ≡ 20 → IsBytes bs → write_ip (read_ip bs) ≡ bs
unfolding read_ip write_ip
write-read (a ∷ b ∷ c ∷ d ∷ e ∷ f ∷ g ∷ h ∷ i ∷ j ∷ k ∷ l ∷ m ∷ n ∷ o ∷ p ∷ q ∷ r ∷ s ∷ t ∷ []) e1
      v =
    ground arith
write-read _ h v = absurd (omega arith)

pub read-Fits : (bs : List ℕ) → length bs ≡ 20 → IsBytes bs → IpFits (read_ip bs)
unfolding read_ip
read-Fits (a ∷ b ∷ c ∷ d ∷ e ∷ f ∷ g ∷ h ∷ i ∷ j ∷ k ∷ l ∷ m ∷ n ∷ o ∷ p ∷ q ∷ r ∷ s ∷ t ∷ []) e1
      v =
    omega arith
read-Fits _ h v = absurd (omega arith)

pub write-IsBytes : (h : IpHdr) → IpFits h → IsBytes (write_ip h)
unfolding write_ip
write-IsBytes h f = omega arith

abbrev pub ip_hdr : Struct IpHdr
ip_hdr = record {
  size = 20;
  read = read_ip;
  write = write_ip;
  Fits = IpFits;
  length_write = length-write;
  read_write = read-write;
  write_read = write-read;
  read_fits = read-Fits;
  write_bytes = write-IsBytes;
}
