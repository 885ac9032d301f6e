-- ===== src/Protocol/Arp.antt =====
-- `struct sr_arp_hdr` of 20100117_RouterAssign_1/router/sr_protocol.h.
use internet_course.Base.{
  ℕ, ◌<◌, ◌≡◌, ap, ◌∙◌, List, [], ◌∷◌, ◌++◌, length, arith, get_or, All-append, length-append,
}
use internet_course.Bytes.{slice, word_le, bytes_le, IsBytes}
use internet_course.Bytes.Laws.{bytes_le-IsBytes, slice-append_left, slice-append_right}
use internet_course.Protocol.Struct.{Struct}

pub record ArpHdr : Type 0 where
  pub ar_hrd : ℕ
  pub ar_pro : ℕ
  pub ar_hln : ℕ
  pub ar_pln : ℕ
  pub ar_op : ℕ
  pub ar_sha : List ℕ
  pub ar_sip : ℕ
  pub ar_tha : List ℕ
  pub ar_tip : ℕ

unfoldable pub read_arp : List ℕ → ArpHdr
read_arp bs = record {
  ar_hrd = word_le (slice bs 0 2);
  ar_pro = word_le (slice bs 2 2);
  ar_hln = get_or bs 4 0;
  ar_pln = get_or bs 5 0;
  ar_op = word_le (slice bs 6 2);
  ar_sha = slice bs 8 6;
  ar_sip = word_le (slice bs 14 4);
  ar_tha = slice bs 18 6;
  ar_tip = word_le (slice bs 24 4);
}

-- The bytes in front of the addresses.
abbrev arp_head : ArpHdr → List ℕ
arp_head h =
    bytes_le 2 h.ar_hrd ++ (bytes_le 2 h.ar_pro ++ (h.ar_hln ∷ h.ar_pln ∷ bytes_le 2 h.ar_op))

unfoldable pub write_arp : ArpHdr → List ℕ
write_arp h = arp_head h ++ (h.ar_sha ++ (bytes_le 4 h.ar_sip ++ (h.ar_tha ++ bytes_le 4 h.ar_tip)))

pub record ArpFits (h : ArpHdr) : Type 0 where
  pub hrd_fits : h.ar_hrd < 65536
  pub pro_fits : h.ar_pro < 65536
  pub hln_fits : h.ar_hln < 256
  pub pln_fits : h.ar_pln < 256
  pub op_fits : h.ar_op < 65536
  pub sha_size : length h.ar_sha ≡ 6
  pub sha_bytes : IsBytes h.ar_sha
  pub sip_fits : h.ar_sip < 4294967296
  pub tha_size : length h.ar_tha ≡ 6
  pub tha_bytes : IsBytes h.ar_tha
  pub tip_fits : h.ar_tip < 4294967296

pub length-write : (h : ArpHdr) → ArpFits h → length (write_arp h) ≡ 28
unfolding write_arp
length-write h f = omega (
  arith,
  length-append h.ar_sha (bytes_le 4 h.ar_sip ++ (h.ar_tha ++ bytes_le 4 h.ar_tip)),
  length-append h.ar_tha (bytes_le 4 h.ar_tip),
)

module _ (h : ArpHdr) (f : ArpFits h) where
  abbrev behind_sha : List ℕ
  behind_sha = bytes_le 4 h.ar_sip ++ (h.ar_tha ++ bytes_le 4 h.ar_tip)

  read_sha : slice (write_arp h) 8 6 ≡ h.ar_sha
  unfolding write_arp
  read_sha = slice-append_left h.ar_sha behind_sha 6 f.sha_size

  read_sip : word_le (slice (write_arp h) 14 4) ≡ h.ar_sip
  unfolding write_arp
  read_sip =
      ap word_le (slice-append_right h.ar_sha behind_sha 6 0 4 (omega (arith, f.sha_size)))
      ∙ omega (arith, f.sip_fits)

  read_tha : slice (write_arp h) 18 6 ≡ h.ar_tha
  unfolding write_arp
  read_tha =
      slice-append_right h.ar_sha behind_sha 10 4 6 (omega (arith, f.sha_size))
      ∙ slice-append_left h.ar_tha (bytes_le 4 h.ar_tip) 6 f.tha_size

  read_tip : word_le (slice (write_arp h) 24 4) ≡ h.ar_tip
  unfolding write_arp
  read_tip =
      ap word_le (
        slice-append_right h.ar_sha behind_sha 16 10 4 (omega (arith, f.sha_size))
        ∙ slice-append_right h.ar_tha (bytes_le 4 h.ar_tip) 6 0 4 (omega (arith, f.tha_size)))
      ∙ omega (arith, f.tip_fits)

  pub read-write : read_arp (write_arp h) ≡ h
  unfolding read_arp
  read-write = λ i. record {
    ar_hrd = front.0 i;
    ar_pro = front.1 i;
    ar_hln = front.2 i;
    ar_pln = front.3 i;
    ar_op = front.4 i;
    ar_sha = read_sha i;
    ar_sip = read_sip i;
    ar_tha = read_tha i;
    ar_tip = read_tip i;
  }
    where
      front :
          (word_le (slice (write_arp h) 0 2) ≡ h.ar_hrd)
          × (word_le (slice (write_arp h) 2 2) ≡ h.ar_pro)
          × (get_or (write_arp h) 4 0 ≡ h.ar_hln)
          × (get_or (write_arp h) 5 0 ≡ h.ar_pln)
          × (word_le (slice (write_arp h) 6 2) ≡ h.ar_op)
      front = unfold write_arp in omega (arith, f)

pub write-read : (bs : List ℕ) → length bs ≡ 28 → IsBytes bs → write_arp (read_arp bs) ≡ bs
unfolding read_arp write_arp
write-read
      (a ∷ b ∷ c ∷ d ∷ e ∷ f ∷ g ∷ h ∷ i ∷ j ∷ k ∷ l ∷ m ∷ n ∷ o ∷ p ∷ q ∷ r ∷ s ∷ t ∷ u ∷ v ∷ w ∷ x
        ∷ y ∷ z ∷ a' ∷ b' ∷ [])
      e1 w1 =
    ground arith
write-read _ h v = absurd (omega arith)

pub read-Fits : (bs : List ℕ) → length bs ≡ 28 → IsBytes bs → ArpFits (read_arp bs)
unfolding read_arp
read-Fits
      (a ∷ b ∷ c ∷ d ∷ e ∷ f ∷ g ∷ h ∷ i ∷ j ∷ k ∷ l ∷ m ∷ n ∷ o ∷ p ∷ q ∷ r ∷ s ∷ t ∷ u ∷ v ∷ w ∷ x
        ∷ y ∷ z ∷ a' ∷ b' ∷ [])
      e1 w1 =
    omega arith
read-Fits _ h v = absurd (omega arith)

pub write-IsBytes : (h : ArpHdr) → ArpFits h → IsBytes (write_arp h)
unfolding write_arp
write-IsBytes h f = All-append _ (arp_head h) _ (omega arith) (
    All-append _ h.ar_sha _ f.sha_bytes (
      All-append _ (bytes_le 4 h.ar_sip) _ (bytes_le-IsBytes 4 h.ar_sip)
        (All-append _ h.ar_tha _ f.tha_bytes (bytes_le-IsBytes 4 h.ar_tip))))

abbrev pub arp_hdr : Struct ArpHdr
arp_hdr = record {
  size = 28;
  read = read_arp;
  write = write_arp;
  Fits = ArpFits;
  length_write = length-write;
  read_write = read-write;
  write_read = write-read;
  read_fits = read-Fits;
  write_bytes = write-IsBytes;
}
