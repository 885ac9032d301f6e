-- ===== src/Protocol/Ether.antt =====
-- `struct sr_ethernet_hdr` of 20100117_RouterAssign_1/router/sr_protocol.h.
use internet_course.Base.{
  ℕ, ◌<◌, ◌≡◌, sym, ap, ◌∙◌, List, [], ◌∷◌, ◌++◌, length, arith, All-append, length-append,
}
use internet_course.Bytes.{slice, word_le, bytes_le, IsBytes}
use internet_course.Bytes.Laws.{
  bytes_le-IsBytes, slice-append_left, slice-append_right, slice-append_middle,
}
use internet_course.Protocol.Struct.{Struct}

pub record EthernetHdr : Type 0 where
  pub ether_dhost : List ℕ
  pub ether_shost : List ℕ
  pub ether_type : ℕ

unfoldable pub read_ethernet : List ℕ → EthernetHdr
read_ethernet bs = record {
  ether_dhost = slice bs 0 6;
  ether_shost = slice bs 6 6;
  ether_type = word_le (slice bs 12 2);
}

unfoldable pub write_ethernet : EthernetHdr → List ℕ
write_ethernet h = h.ether_dhost ++ (h.ether_shost ++ bytes_le 2 h.ether_type)

pub record EthernetFits (h : EthernetHdr) : Type 0 where
  pub dhost_size : length h.ether_dhost ≡ 6
  pub shost_size : length h.ether_shost ≡ 6
  pub dhost_bytes : IsBytes h.ether_dhost
  pub shost_bytes : IsBytes h.ether_shost
  pub type_fits : h.ether_type < 65536

pub read-write : (h : EthernetHdr) → EthernetFits h → read_ethernet (write_ethernet h) ≡ h
unfolding read_ethernet write_ethernet
read-write h f = λ i. record { ether_dhost = d i; ether_shost = s i; ether_type = t i }
  where
    tail : List ℕ
    tail = bytes_le 2 h.ether_type

    d : slice (h.ether_dhost ++ (h.ether_shost ++ tail)) 0 6 ≡ h.ether_dhost
    d = slice-append_left h.ether_dhost _ 6 f.dhost_size

    s : slice (h.ether_dhost ++ (h.ether_shost ++ tail)) 6 6 ≡ h.ether_shost
    s = slice-append_middle h.ether_dhost h.ether_shost tail 6 6 (sym f.dhost_size) f.shost_size

    t : word_le (slice (h.ether_dhost ++ (h.ether_shost ++ tail)) 12 2) ≡ h.ether_type
    t =
        ap word_le (
          slice-append_right h.ether_dhost (h.ether_shost ++ tail) 12 6 2 (omega arith)
          ∙ slice-append_right h.ether_shost tail 6 0 2 (omega arith))
        ∙ omega arith

pub length-write : (h : EthernetHdr) → EthernetFits h → length (write_ethernet h) ≡ 14
unfolding write_ethernet
length-write h f = omega (
  arith,
  length-append h.ether_dhost (h.ether_shost ++ bytes_le 2 h.ether_type),
  length-append h.ether_shost (bytes_le 2 h.ether_type),
)

pub write-read :
    (bs : List ℕ) → length bs ≡ 14 → IsBytes bs → write_ethernet (read_ethernet bs) ≡ bs
unfolding read_ethernet write_ethernet
write-read (a ∷ b ∷ c ∷ d ∷ e ∷ f ∷ g ∷ h ∷ i ∷ j ∷ k ∷ l ∷ m ∷ n ∷ []) e1 v = ground arith
write-read _ h v = absurd (omega arith)

pub read-Fits : (bs : List ℕ) → length bs ≡ 14 → IsBytes bs → EthernetFits (read_ethernet bs)
unfolding read_ethernet
read-Fits (a ∷ b ∷ c ∷ d ∷ e ∷ f ∷ g ∷ h ∷ i ∷ j ∷ k ∷ l ∷ m ∷ n ∷ []) e1 v = omega arith
read-Fits _ h v = absurd (omega arith)

pub write-IsBytes : (h : EthernetHdr) → EthernetFits h → IsBytes (write_ethernet h)
unfolding write_ethernet
write-IsBytes h f =
    All-append _ h.ether_dhost _ f.dhost_bytes
      (All-append _ h.ether_shost _ f.shost_bytes (bytes_le-IsBytes 2 h.ether_type))

abbrev pub ethernet_hdr : Struct EthernetHdr
ethernet_hdr = record {
  size = 14;
  read = read_ethernet;
  write = write_ethernet;
  Fits = EthernetFits;
  length_write = length-write;
  read_write = read-write;
  write_read = write-read;
  read_fits = read-Fits;
  write_bytes = write-IsBytes;
}
