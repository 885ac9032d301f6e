-- ===== src/Router/Icmp.antt =====
-- 20100117_RouterAssign_1/router/sr_icmp.c: the echo reply, which is made in the packet itself,
-- and the error messages, which are made in a new block.
use internet_course.Base.{ℕ, ◌+◌, ◌%◌, List, length, leb}
use internet_course.Base.Result.{
  Cmd, pure, need, guard, get_state, null_deref, out_of_bounds, ◌>>=◌, ◌>>◌,
}
use internet_course.Bytes.{slice, htons}
use internet_course.Checksum.{cksum}
use internet_course.Protocol.Struct.{get, put}
use internet_course.Protocol.Ether.{EthernetHdr, ethernet_hdr}
use internet_course.Protocol.Ip.{IpHdr, ip_hdr, write_ip}
use internet_course.Protocol.Icmp.{IcmpHdr, icmp_hdr, write_icmp}
use internet_course.Protocol.IcmpT3.{IcmpT3Hdr, icmp_t3_hdr, write_icmp_t3}
use internet_course.Iface.{SrIf, sr_get_interface}
use internet_course.Router.{SrInstance, Env}
use internet_course.Router.Send.{sr_send_packet}

-- The interface whose fields the code reads; the null pointer is a fault.
unfoldable pub deref_interface : List ℕ → Cmd SrInstance SrIf
deref_interface name = do sr ← get_state; need (sr_get_interface sr.if_list name) null_deref

-- The edits of `Echo_Reply` to the packet.
unfoldable pub echo_reply_packet : SrIf → List ℕ → List ℕ
echo_reply_packet get_interface packet =
    let ehdr = get ethernet_hdr packet 0 in
    let iphdr = get ip_hdr packet 14 in
    let icmp = get icmp_hdr packet 34 in
    let ehdr' : EthernetHdr = record ehdr {
      ether_shost = slice get_interface.addr 0 6;
      ether_dhost = ehdr.ether_shost;
    } in
    let iphdr' : IpHdr = record iphdr {
      ip_dst = iphdr.ip_src;
      ip_src = get_interface.ip;
      ip_sum = 0;
    } in
    let iphdr_done : IpHdr = record iphdr' { ip_sum = cksum (write_ip iphdr') } in
    let icmp' : IcmpHdr = record icmp { icmp_type = 0; icmp_sum = 0 } in
    let icmp_done : IcmpHdr = record icmp' { icmp_sum = cksum (write_icmp icmp') } in
    put icmp_hdr (put ip_hdr (put ethernet_hdr packet 0 ehdr') 14 iphdr_done) 34 icmp_done

unfoldable pub echo_reply : Env → List ℕ → List ℕ → ℕ → Cmd SrInstance (Unit {0})
echo_reply env packet interface len = do
  guard (leb 38 (length packet)) out_of_bounds
  get_interface ← deref_interface interface
  success ← sr_send_packet env (echo_reply_packet get_interface packet) len interface
  pure tt

-- What the three functions that make an error message differ in.
pub record ErrorKind : Type 0 where
  pub icmp_type : ℕ
  pub icmp_code : ℕ
  pub new_ttl : ℕ → ℕ

-- The block `buff`: what `malloc` left in it, and the fields that are set. `next_mtu` is not.
unfoldable pub error_packet : Env → ErrorKind → SrIf → List ℕ → List ℕ
error_packet env kind get_interface packet =
    let buff = env.fresh 70 in
    let ehdr_old = get ethernet_hdr packet 0 in
    let iphdr_old = get ip_hdr packet 14 in
    let ehdr_new : EthernetHdr = record {
      ether_shost = slice get_interface.addr 0 6;
      ether_dhost = ehdr_old.ether_shost;
      ether_type = ehdr_old.ether_type;
    } in
    let iphdr_new : IpHdr = record {
      ip_dst = iphdr_old.ip_src;
      ip_src = get_interface.ip;
      ip_v = 4;
      ip_hl = 5;
      ip_tos = iphdr_old.ip_tos;
      ip_len = htons 56;
      ip_id = iphdr_old.ip_id;
      ip_off = iphdr_old.ip_off;
      ip_ttl = kind.new_ttl iphdr_old.ip_ttl;
      ip_p = 1;
      ip_sum = 0;
    } in
    let icmp_new : IcmpT3Hdr = record {
      icmp_type = kind.icmp_type;
      icmp_code = kind.icmp_code;
      unused = 0;
      next_mtu = (get icmp_t3_hdr buff 34).next_mtu;
      icmp_data = slice packet 14 28;
      icmp_sum = 0;
    } in
    let iphdr_done : IpHdr = record iphdr_new { ip_sum = cksum (write_ip iphdr_new) } in
    let icmp_done : IcmpT3Hdr = record icmp_new { icmp_sum = cksum (write_icmp_t3 icmp_new) } in
    put icmp_t3_hdr (put ip_hdr (put ethernet_hdr buff 0 ehdr_new) 14 iphdr_done) 34 icmp_done

-- The body that the three functions share. The block of 70 bytes is sent with the length of the
-- packet that is answered.
unfoldable pub send_error : Env → ErrorKind → List ℕ → List ℕ → ℕ → Cmd SrInstance (Unit {0})
send_error env kind packet interface len = do
  guard (leb 42 (length packet)) out_of_bounds
  get_interface ← deref_interface interface
  success ← sr_send_packet env (error_packet env kind get_interface packet) len interface
  pure tt

-- `iphdr_new->ip_ttl--` on a `uint8_t`.
unfoldable pub time_exceeded : Env → List ℕ → List ℕ → ℕ → Cmd SrInstance (Unit {0})
time_exceeded env packet interface len =
    send_error env (record { icmp_type = 11; icmp_code = 0; new_ttl = λ ttl. (ttl + 255) % 256 })
      packet interface len

unfoldable pub dest_host_unreach : Env → List ℕ → List ℕ → ℕ → Cmd SrInstance (Unit {0})
dest_host_unreach env packet interface len =
    send_error env (record { icmp_type = 3; icmp_code = 1; new_ttl = λ ttl. ttl }) packet interface
      len

unfoldable pub port_unreach : Env → List ℕ → List ℕ → ℕ → Cmd SrInstance (Unit {0})
port_unreach env packet interface len =
    send_error env (record { icmp_type = 3; icmp_code = 3; new_ttl = λ ttl. ttl }) packet interface
      len

-- The edits of `Dest_net_unreach` to the packet itself. The length, the protocol and the TTL of the IP
-- header stay.
unfoldable pub net_unreach_packet : SrIf → List ℕ → List ℕ
net_unreach_packet get_interface packet =
    let ehdr = get ethernet_hdr packet 0 in
    let iphdr = get ip_hdr packet 14 in
    let ehdr' : EthernetHdr = record ehdr {
      ether_shost = slice get_interface.addr 0 6;
      ether_dhost = ehdr.ether_shost;
    } in
    let iphdr' : IpHdr = record iphdr {
      ip_dst = iphdr.ip_src;
      ip_src = get_interface.ip;
      ip_sum = 0;
    } in
    let iphdr_done : IpHdr = record iphdr' { ip_sum = cksum (write_ip iphdr') } in
    let icmp' : IcmpT3Hdr = record (get icmp_t3_hdr packet 34) {
      icmp_type = 3;
      icmp_code = 0;
      icmp_data = slice packet 14 28;
      icmp_sum = 0;
    } in
    let icmp_done : IcmpT3Hdr = record icmp' { icmp_sum = cksum (write_icmp_t3 icmp') } in
    put icmp_t3_hdr (put ip_hdr (put ethernet_hdr packet 0 ehdr') 14 iphdr_done) 34 icmp_done

-- No one calls it. The ICMP header and its data reach to byte 70 of the packet.
unfoldable pub dest_net_unreach : Env → List ℕ → List ℕ → ℕ → Cmd SrInstance (Unit {0})
dest_net_unreach env packet interface len = do
  guard (leb 70 (length packet)) out_of_bounds
  get_interface ← deref_interface interface
  success ← sr_send_packet env (net_unreach_packet get_interface packet) len interface
  pure tt
