-- ===== src/Router/Unused.antt =====
-- 20100117_RouterAssign_1/router/dest_unreach_code.c, an older form of the error messages, which are
-- made in the packet itself. Nothing builds it or calls it.
use internet_course.Base.{ℕ, ◌+◌, ◌%◌, ◌<◌, ◌≤◌, ◌≡◌, List, length, if◌then◌else◌, ◌==◌, leb, arith}
use internet_course.Base.Result.{Cmd, pure, guard, out_of_bounds, ◌>>=◌, ◌>>◌}
use internet_course.Bytes.{IsBytes, slice}
use internet_course.Bytes.Laws.{slice-IsBytes, length-slice}
use internet_course.Checksum.{cksum}
use internet_course.Checksum.Sum.{word_sum}
use internet_course.Checksum.Valid.{ChecksumHolds, checksummed}
use internet_course.Protocol.Struct.{get, put, get-Fits}
use internet_course.Protocol.Ether.{EthernetHdr, EthernetFits, ethernet_hdr}
use internet_course.Protocol.Ip.{IpHdr, IpFits, ip_hdr, write_ip}
use internet_course.Protocol.IcmpT3.{IcmpT3Hdr, IcmpT3Fits, icmp_t3_hdr, write_icmp_t3}
use internet_course.Iface.{SrIf}
use internet_course.Router.{SrInstance, Env}
use internet_course.Router.Send.{sr_send_packet}
use internet_course.Router.Icmp.{deref_interface}
use internet_course.Router.Ip.{ethertype, ethertype_ip, compare_checksum}
use internet_course.Router.Rewriting.{IsMac, IsMac-slice}
use internet_course.Router.Errors.{icmp_checksummed, t3_message_lem}

-- The edits of `dest_host_unreach` and `Dest_net_unreach`, which differ in the ICMP code.
unfoldable pub old_unreach_packet : ℕ → SrIf → List ℕ → List ℕ
old_unreach_packet icmp_code get_interface packet =
    let ehdr = get ethernet_hdr packet 0 in
    let iphdr = get ip_hdr packet 14 in
    let ehdr' : EthernetHdr = record ehdr {
      ether_shost = slice get_interface.addr 0 6;
      ether_dhost = ehdr.ether_shost;
    } in
    let iphdr' : IpHdr = record iphdr {
      ip_dst = iphdr.ip_src;
      ip_src = get_interface.ip;
      ip_sum = 0;
    } in
    let iphdr_done : IpHdr = record iphdr' { ip_sum = cksum (write_ip iphdr') } in
    let icmp' : IcmpT3Hdr = record (get icmp_t3_hdr packet 34) {
      icmp_type = 3;
      icmp_code = icmp_code;
      icmp_data = slice packet 14 28;
      icmp_sum = 0;
    } in
    let icmp_done : IcmpT3Hdr = record icmp' { icmp_sum = cksum (write_icmp_t3 icmp') } in
    put icmp_t3_hdr (put ip_hdr (put ethernet_hdr packet 0 ehdr') 14 iphdr_done) 34 icmp_done

-- The data reach to byte 70 of the packet.
unfoldable pub old_dest_host_unreach : Env → List ℕ → List ℕ → ℕ → Cmd SrInstance (Unit {0})
old_dest_host_unreach env packet interface len = do
  guard (leb 70 (length packet)) out_of_bounds
  get_interface ← deref_interface interface
  success ← sr_send_packet env (old_unreach_packet 0 get_interface packet) len interface
  pure tt

unfoldable pub old_dest_net_unreach : Env → List ℕ → List ℕ → ℕ → Cmd SrInstance (Unit {0})
old_dest_net_unreach env packet interface len = do
  guard (leb 70 (length packet)) out_of_bounds
  get_interface ← deref_interface interface
  success ← sr_send_packet env (old_unreach_packet 1 get_interface packet) len interface
  pure tt

-- What `validate_checksum` does to a packet, its value not used.
unfoldable pub after_validate : List ℕ → List ℕ
after_validate packet =
    if ethertype packet == ethertype_ip then (compare_checksum packet).1 else packet

-- The edits of `Time_Exceeded` between the two validations. The addresses of the IP header change
-- places, and the ICMP code stays.
unfoldable pub old_time_exceeded_packet : SrIf → List ℕ → List ℕ
old_time_exceeded_packet get_interface packet =
    let ehdr = get ethernet_hdr packet 0 in
    let iphdr = get ip_hdr packet 14 in
    let ehdr' : EthernetHdr = record ehdr {
      ether_shost = slice get_interface.addr 0 6;
      ether_dhost = ehdr.ether_shost;
    } in
    let iphdr' : IpHdr = record iphdr {
      ip_dst = iphdr.ip_src;
      ip_src = iphdr.ip_dst;
      ip_ttl = (iphdr.ip_ttl + 255) % 256;
      ip_sum = 0;
    } in
    let iphdr_done : IpHdr = record iphdr' { ip_sum = cksum (write_ip iphdr') } in
    let icmp' : IcmpT3Hdr = record (get icmp_t3_hdr packet 34) {
      icmp_type = 11;
      icmp_data = slice packet 14 28;
      icmp_sum = 0;
    } in
    let icmp_done : IcmpT3Hdr = record icmp' { icmp_sum = cksum (write_icmp_t3 icmp') } in
    put icmp_t3_hdr (put ip_hdr (put ethernet_hdr packet 0 ehdr') 14 iphdr_done) 34 icmp_done

unfoldable pub old_time_exceeded : Env → List ℕ → List ℕ → ℕ → Cmd SrInstance (Unit {0})
old_time_exceeded env packet interface len = do
  guard (leb 70 (length packet)) out_of_bounds
  get_interface ← deref_interface interface
  let sent = after_validate (old_time_exceeded_packet get_interface (after_validate packet))
  success ← sr_send_packet env sent len interface
  pure tt

module _ (i : SrIf) (mac : IsMac i.addr) (ip_fits : i.ip < 4294967296) (packet : List ℕ)
    (bytes : IsBytes packet) (long : 70 ≤ length packet) where
  abbrev pub back : EthernetHdr
  back = record (get ethernet_hdr packet 0) {
    ether_shost = slice i.addr 0 6;
    ether_dhost = (get ethernet_hdr packet 0).ether_shost;
  }

  back-Fits : EthernetFits back
  back-Fits =
      let old = get-Fits ethernet_hdr packet 0 bytes (omega arith) in
      record {
        dhost_size = old.shost_size;
        shost_size = (IsMac-slice i.addr mac).six;
        dhost_bytes = old.shost_bytes;
        shost_bytes = (IsMac-slice i.addr mac).octets;
        type_fits = old.type_fits;
      }

  abbrev pub kept_ip : IpHdr
  kept_ip = record (get ip_hdr packet 14) { ip_dst = (get ip_hdr packet 14).ip_src; ip_src = i.ip }

  kept_ip-Fits : IpFits kept_ip
  kept_ip-Fits = omega (arith, get-Fits ip_hdr packet 14 bytes (omega arith), ip_fits)

  module _ (icmp_code : ℕ) (small : icmp_code < 256) where
    abbrev pub kept_icmp : IcmpT3Hdr
    kept_icmp = record (get icmp_t3_hdr packet 34) {
      icmp_type = 3;
      icmp_code = icmp_code;
      icmp_data = slice packet 14 28;
    }

    kept_icmp-Fits : IcmpT3Fits kept_icmp
    kept_icmp-Fits =
        let old = get-Fits icmp_t3_hdr packet 34 bytes (omega arith) in
        record {
          type_fits = omega arith;
          code_fits = small;
          sum_fits = old.sum_fits;
          unused_fits = old.unused_fits;
          mtu_fits = old.mtu_fits;
          data_size = length-slice packet 14 28 (omega arith);
          data_bytes = slice-IsBytes packet 14 28 bytes;
        }

    -- In a packet of at least 70 bytes: both checksums hold, the ICMP header carries the first 28 bytes
    -- of the IP part as they came, and the IP header keeps its length, TTL and protocol.
    pub old_unreach_packet_lem :
        let sent = old_unreach_packet icmp_code i packet in
        (get ethernet_hdr sent 0 ≡ back)
        × (get ip_hdr sent 14 ≡ checksummed kept_ip)
        × ChecksumHolds (get ip_hdr sent 14)
        × (get icmp_t3_hdr sent 34 ≡ icmp_checksummed kept_icmp)
        × (word_sum (slice sent 34 36) % 65535 ≡ 0)
        × (length sent ≡ length packet)
    unfolding old_unreach_packet
    old_unreach_packet_lem =
        t3_message_lem packet long back back-Fits kept_ip kept_ip-Fits kept_icmp kept_icmp-Fits
