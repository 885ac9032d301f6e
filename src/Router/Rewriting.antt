-- ===== src/Router/Rewriting.antt =====
-- What the router writes into a packet that it forwards (`packet_to_other_dest` of
-- 20100117_RouterAssign_1/router/sr_ip.c), field by field.
use internet_course.Base.{ℕ, ◌+◌, ◌%◌, ◌≤◌, ◌≡◌, ◌∙◌, ap, List, length, drop, arith}
use internet_course.Bytes.{IsBytes, slice}
use internet_course.Bytes.Laws.{drop-splice, slice-IsBytes, length-slice}
use internet_course.Checksum.Valid.{
  ChecksumHolds, checksummed, checksummed-Fits, checksummed-ChecksumHolds,
}
use internet_course.Protocol.Struct.{get, put, get-put, get-Fits, length-put, slice-put_before}
use internet_course.Protocol.Ether.{EthernetHdr, EthernetFits, ethernet_hdr}
use internet_course.Protocol.Ip.{IpHdr, IpFits, ip_hdr}
use internet_course.Iface.{SrIf}
use internet_course.Cache.{ArpEntry}
use internet_course.Router.Forward.{forward_packet}

-- An Ethernet address as the code stores it.
pub record IsMac (m : List ℕ) : Type 0 where
  pub six : length m ≡ 6
  pub octets : IsBytes m

pub IsMac-slice : (m : List ℕ) → IsMac m → IsMac (slice m 0 6)
IsMac-slice m h = record {
  six = length-slice m 0 6 (omega (arith, h.six));
  octets = slice-IsBytes m 0 6 h.octets;
}

-- The two headers of a packet, put one after the other.
module _ (packet : List ℕ) (long : 34 ≤ length packet) (e : EthernetHdr) (f : EthernetFits e)
    (h : IpHdr) (g : IpFits h) where
  abbrev pub with_headers : List ℕ
  with_headers = put ip_hdr (put ethernet_hdr packet 0 e) 14 h

  pub get_ethernet-headers : get ethernet_hdr with_headers 0 ≡ e
  get_ethernet-headers =
      ap ethernet_hdr.read
        (slice-put_before ip_hdr (put ethernet_hdr packet 0 e) 14 0 14 h (omega arith))
      ∙ get-put ethernet_hdr packet 0 e f (omega arith)

  pub get_ip-headers : get ip_hdr with_headers 14 ≡ h
  get_ip-headers =
      get-put ip_hdr (put ethernet_hdr packet 0 e) 14 h g
        (omega (arith, length-put ethernet_hdr packet 0 e))

  pub drop-headers : (j : ℕ) → 34 ≤ j → drop j with_headers ≡ drop j packet
  drop-headers j behind =
      drop-splice (put ethernet_hdr packet 0 e) 14 j (ip_hdr.write h)
        (omega (arith, ip_hdr.length_write h g))
      ∙ drop-splice packet 0 j (ethernet_hdr.write e) (omega (arith, ethernet_hdr.length_write e f))

  pub length-headers : length with_headers ≡ length packet
  length-headers =
      length-put ip_hdr (put ethernet_hdr packet 0 e) 14 h ∙ length-put ethernet_hdr packet 0 e

module _ (i : SrIf) (mac : IsMac i.addr) (entry : ArpEntry) (mac' : IsMac entry.mac)
    (packet : List ℕ) (bytes : IsBytes packet) (long : 34 ≤ length packet) where
  abbrev old_ether : EthernetHdr
  old_ether = get ethernet_hdr packet 0

  abbrev old_ip : IpHdr
  old_ip = get ip_hdr packet 14

  abbrev pub new_ether : EthernetHdr
  new_ether = record old_ether { ether_shost = slice i.addr 0 6; ether_dhost = slice entry.mac 0 6 }

  abbrev pub lowered : IpHdr
  lowered = record old_ip { ip_ttl = (old_ip.ip_ttl + 255) % 256 }

  ether-Fits : EthernetFits new_ether
  ether-Fits = record {
    dhost_size = (IsMac-slice entry.mac mac').six;
    shost_size = (IsMac-slice i.addr mac).six;
    dhost_bytes = (IsMac-slice entry.mac mac').octets;
    shost_bytes = (IsMac-slice i.addr mac).octets;
    type_fits = (get-Fits ethernet_hdr packet 0 bytes (omega arith)).type_fits;
  }

  lowered-Fits : IpFits lowered
  lowered-Fits = omega (arith, get-Fits ip_hdr packet 14 bytes long)

  -- A forwarded packet of at least 34 bytes, with Ethernet addresses of six bytes for the
  -- interface and the next hop: new Ethernet addresses, the TTL one
  -- lower (modulo 256), a checksum that holds;
  -- the other fields of the two headers, the bytes behind them and the length are as before.
  pub forward_packet_lem :
      let sent = forward_packet i entry packet in
      (get ethernet_hdr sent 0 ≡ new_ether)
      × (get ip_hdr sent 14 ≡ checksummed lowered)
      × ChecksumHolds (get ip_hdr sent 14)
      × (drop 34 sent ≡ drop 34 packet)
      × (length sent ≡ length packet)
  unfolding forward_packet
  forward_packet_lem =
      let done = checksummed lowered in
      let fits = checksummed-Fits lowered lowered-Fits in
      let stored = get_ip-headers packet long new_ether ether-Fits done fits in
      (
        get_ethernet-headers packet long new_ether ether-Fits done fits,
        stored,
        rw stored (checksummed-ChecksumHolds lowered lowered-Fits),
        drop-headers packet long new_ether ether-Fits done fits 34 (omega arith),
        length-headers packet long new_ether ether-Fits done fits,
      )
