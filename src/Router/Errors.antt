-- ===== src/Router/Errors.antt =====
-- The messages of 20100117_RouterAssign_1/router/sr_icmp.c, field by field: the echo reply and the
-- error messages.
use internet_course.Base.{ℕ, ◌%◌, ◌<◌, ◌≤◌, ◌≡◌, ◌∙◌, ap, List, length, arith, sym}
use internet_course.Bytes.{IsBytes, slice, htons}
use internet_course.Bytes.Laws.{slice-splice_self, slice-IsBytes, length-slice}
use internet_course.Checksum.{cksum}
use internet_course.Checksum.Sum.{word_sum, cksum-Complements}
use internet_course.Checksum.Valid.{
  ChecksumHolds, checksummed, checksummed-Fits, checksummed-ChecksumHolds,
}
use internet_course.Protocol.Struct.{get, put, get-put, get-Fits, length-put, slice-put_before}
use internet_course.Protocol.Ether.{EthernetHdr, EthernetFits, ethernet_hdr}
use internet_course.Protocol.Ip.{IpHdr, IpFits, ip_hdr}
use internet_course.Protocol.IcmpT3.{IcmpT3Hdr, IcmpT3Fits, icmp_t3_hdr, write_icmp_t3}
use internet_course.Protocol.IcmpT3
use internet_course.Iface.{SrIf}
use internet_course.Router.{Env}
use internet_course.Router.Icmp.{ErrorKind, error_packet}
use internet_course.Router.Rewriting.{
  IsMac, IsMac-slice, with_headers, get_ethernet-headers, get_ip-headers, length-headers,
}

-- An ICMP error header whose checksum has been computed sums to all ones.
abbrev pub icmp_checksummed : IcmpT3Hdr → IcmpT3Hdr
icmp_checksummed h =
    let cleared : IcmpT3Hdr = record h { icmp_sum = 0 } in
    record h { icmp_sum = cksum (write_icmp_t3 cleared) }

module _ (h : IcmpT3Hdr) (f : IcmpT3Fits h) where
  abbrev cleared : IcmpT3Hdr
  cleared = record h { icmp_sum = 0 }

  cleared-Fits : IcmpT3Fits cleared
  cleared-Fits = record {
    type_fits = f.type_fits;
    code_fits = f.code_fits;
    sum_fits = omega arith;
    unused_fits = f.unused_fits;
    mtu_fits = f.mtu_fits;
    data_size = f.data_size;
    data_bytes = f.data_bytes;
  }

  icmp_checksummed-Fits : IcmpT3Fits (icmp_checksummed h)
  icmp_checksummed-Fits = record {
    type_fits = f.type_fits;
    code_fits = f.code_fits;
    sum_fits =
        (cksum-Complements (write_icmp_t3 cleared) (IcmpT3.write-IsBytes cleared cleared-Fits)
          (omega (arith, IcmpT3.length-write cleared cleared-Fits))).1;
    unused_fits = f.unused_fits;
    mtu_fits = f.mtu_fits;
    data_size = f.data_size;
    data_bytes = f.data_bytes;
  }

  icmp_checksummed_sum : word_sum (write_icmp_t3 (icmp_checksummed h)) % 65535 ≡ 0
  icmp_checksummed_sum =
      let c =
        cksum-Complements (write_icmp_t3 cleared) (IcmpT3.write-IsBytes cleared cleared-Fits)
          (omega (arith, IcmpT3.length-write cleared cleared-Fits)) in
      unfold write_icmp_t3 in omega (arith, c)

-- A block of at least 70 bytes with an Ethernet header, an IP header and an ICMP error header, both
-- with their checksums.
module _ (packet : List ℕ) (room : 70 ≤ length packet) (e : EthernetHdr) (ether : EthernetFits e)
    (h : IpHdr) (ip : IpFits h) (m : IcmpT3Hdr) (icmp : IcmpT3Fits m) where
  abbrev pub t3_message : List ℕ
  t3_message =
      put icmp_t3_hdr (put ip_hdr (put ethernet_hdr packet 0 e) 14 (checksummed h)) 34
        (icmp_checksummed m)

  pub t3_message_lem :
      (get ethernet_hdr t3_message 0 ≡ e)
      × (get ip_hdr t3_message 14 ≡ checksummed h)
      × ChecksumHolds (get ip_hdr t3_message 14)
      × (get icmp_t3_hdr t3_message 34 ≡ icmp_checksummed m)
      × (word_sum (slice t3_message 34 36) % 65535 ≡ 0)
      × (length t3_message ≡ length packet)
  t3_message_lem =
      let long : 34 ≤ length packet = omega arith in
      let done = checksummed h in
      let fits = checksummed-Fits h ip in
      let inner = with_headers packet long e ether done fits in
      let set = icmp_checksummed m in
      let set_fits = icmp_checksummed-Fits m icmp in
      let size : length inner ≡ length packet = length-headers packet long e ether done fits in
      let stored =
        ap ip_hdr.read (slice-put_before icmp_t3_hdr inner 34 14 20 set (omega arith))
        ∙ get_ip-headers packet long e ether done fits in
      (
        ap ethernet_hdr.read (slice-put_before icmp_t3_hdr inner 34 0 14 set (omega arith))
            ∙ get_ethernet-headers packet long e ether done fits,
        stored,
        rw stored (checksummed-ChecksumHolds h ip),
        get-put icmp_t3_hdr inner 34 set set_fits (omega (arith, size)),
        ap (λ b. word_sum b % 65535)
              (slice-splice_self inner 34 36 (write_icmp_t3 set)
                (sym (IcmpT3.length-write set set_fits)) (omega (arith, size)))
            ∙ icmp_checksummed_sum m icmp,
        length-put icmp_t3_hdr inner 34 set ∙ size,
      )

module _ (env : Env) (kind : ErrorKind) (small : (kind.icmp_type < 256) × (kind.icmp_code < 256))
    (ttl : (t : ℕ) → t < 256 → kind.new_ttl t < 256) (i : SrIf) (mac : IsMac i.addr)
    (ip_fits : i.ip < 4294967296) (packet : List ℕ) (bytes : IsBytes packet)
    (long : 42 ≤ length packet) where
  abbrev pub old_ether : EthernetHdr
  old_ether = get ethernet_hdr packet 0

  abbrev pub old_ip : IpHdr
  old_ip = get ip_hdr packet 14

  abbrev pub answer_ether : EthernetHdr
  answer_ether = record {
    ether_dhost = old_ether.ether_shost;
    ether_shost = slice i.addr 0 6;
    ether_type = old_ether.ether_type;
  }

  abbrev pub answer_ip : IpHdr
  answer_ip = record {
    ip_hl = 5;
    ip_v = 4;
    ip_tos = old_ip.ip_tos;
    ip_len = htons 56;
    ip_id = old_ip.ip_id;
    ip_off = old_ip.ip_off;
    ip_ttl = kind.new_ttl old_ip.ip_ttl;
    ip_p = 1;
    ip_sum = 0;
    ip_src = i.ip;
    ip_dst = old_ip.ip_src;
  }

  abbrev pub answer_icmp : IcmpT3Hdr
  answer_icmp = record {
    icmp_type = kind.icmp_type;
    icmp_code = kind.icmp_code;
    icmp_sum = 0;
    unused = 0;
    next_mtu = (get icmp_t3_hdr (env.fresh 70) 34).next_mtu;
    icmp_data = slice packet 14 28;
  }

  ether-Fits : EthernetFits answer_ether
  ether-Fits =
      let old = get-Fits ethernet_hdr packet 0 bytes (omega arith) in
      record {
        dhost_size = old.shost_size;
        shost_size = (IsMac-slice i.addr mac).six;
        dhost_bytes = old.shost_bytes;
        shost_bytes = (IsMac-slice i.addr mac).octets;
        type_fits = old.type_fits;
      }

  answer_ip-Fits : IpFits answer_ip
  answer_ip-Fits =
      let old = get-Fits ip_hdr packet 14 bytes (omega arith) in
      omega (arith, old, ttl old_ip.ip_ttl old.ttl_fits)

  answer_icmp-Fits : IcmpT3Fits answer_icmp
  answer_icmp-Fits = record {
    type_fits = small.0;
    code_fits = small.1;
    sum_fits = omega arith;
    unused_fits = omega arith;
    mtu_fits =
        (get-Fits icmp_t3_hdr (env.fresh 70) 34 (env.fresh_bytes 70)
          (omega (arith, env.fresh_size 70))).mtu_fits;
    data_size = length-slice packet 14 28 long;
    data_bytes = slice-IsBytes packet 14 28 bytes;
  }

  -- An error message for a packet of at least 42 bytes, of a type and code below 256, from an
  -- interface with an Ethernet address of six bytes, goes back to the sender of the packet: an IP
  -- header with a checksum that holds, and an ICMP header of the given type and code with the
  -- first 28 bytes of the packet's IP part, whose checksum holds for all of its 36 bytes.
  pub error_packet_lem :
      let sent = error_packet env kind i packet in
      (get ethernet_hdr sent 0 ≡ answer_ether)
      × (get ip_hdr sent 14 ≡ checksummed answer_ip)
      × ChecksumHolds (get ip_hdr sent 14)
      × (get icmp_t3_hdr sent 34 ≡ icmp_checksummed answer_icmp)
      × (word_sum (slice sent 34 36) % 65535 ≡ 0)
      × (length sent ≡ 70)
  unfolding error_packet
  error_packet_lem =
      let (outer, inner, holds, icmp, sum, size) =
        t3_message_lem (env.fresh 70) (omega (arith, env.fresh_size 70)) answer_ether ether-Fits
          answer_ip answer_ip-Fits answer_icmp answer_icmp-Fits in
      (outer, inner, holds, icmp, sum, size ∙ env.fresh_size 70)

-- The block of an error message has 70 bytes, whatever the packet.
pub length-error_packet :
    (env : Env) (kind : ErrorKind) (i : SrIf) (packet : List ℕ)
    → length (error_packet env kind i packet) ≡ 70
unfolding error_packet
length-error_packet env kind i packet =
    length-put icmp_t3_hdr _ 34 _
    ∙ (length-put ip_hdr _ 14 _ ∙ (length-put ethernet_hdr _ 0 _ ∙ env.fresh_size 70))
