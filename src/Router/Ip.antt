-- ===== src/Router/Ip.antt =====
-- `IP_packet` of 20100117_RouterAssign_1/router/sr_ip.c, with the two validations.
use internet_course.Base.{
  ℕ, Bool, true, false, Option, none, some, List, [], ◌∷◌, ◌||◌, length, if◌then◌else◌, ◌==◌, leb,
}
use internet_course.Base.Result.{Cmd, pure, guard, get_state, out_of_bounds, no_value, ◌>>=◌, ◌>>◌}
use internet_course.Bytes.{ntohs}
use internet_course.Checksum.{cksum}
use internet_course.Protocol.Struct.{get, put}
use internet_course.Protocol.Ether.{ethernet_hdr}
use internet_course.Protocol.Ip.{IpHdr, ip_hdr, write_ip}
use internet_course.Iface.{SrIf}
use internet_course.Router.{SrInstance, Env}
use internet_course.Router.Icmp.{echo_reply, port_unreach}
use internet_course.Router.Forward.{packet_to_other_dest}

-- `ethertype` of 20100117_RouterAssign_1/router/sr_utils.c.
abbrev pub ethertype : List ℕ → ℕ
ethertype buf = ntohs (get ethernet_hdr buf 0).ether_type

abbrev pub ethertype_ip : ℕ
ethertype_ip = 0x0800

abbrev pub ethertype_arp : ℕ
ethertype_arp = 0x0806

-- `true` is the return value 0.
unfoldable pub validate_ip : ℕ → Bool
validate_ip len = leb 34 len

-- The checksum of an IP header is compared with a fresh one. The packet is as the code leaves it:
-- with the field put back, or with the field 0. `true` is the return value 0.
unfoldable pub compare_checksum : List ℕ → Bool × List ℕ
compare_checksum packet =
    let hdr = get ip_hdr packet 14 in
    let cleared : IpHdr = record hdr { ip_sum = 0 } in
    let packet' = put ip_hdr packet 14 cleared in
    if cksum (write_ip cleared) == hdr.ip_sum
    then (true, put ip_hdr packet' 14 hdr)
    else (false, packet')

-- For packets that are not IP the code reaches the end of the function without a value.
unfoldable pub validate_checksum : List ℕ → Cmd SrInstance (Bool × List ℕ)
validate_checksum packet = do
  guard (leb 34 (length packet)) out_of_bounds
  guard (ethertype packet == ethertype_ip) no_value
  pure (compare_checksum packet)

-- Is the packet for one of the router's own addresses?
unfoldable pub ip_packet_router_check : List SrIf → ℕ → Option SrIf
ip_packet_router_check [] ip_dst = none
ip_packet_router_check (i ∷ rest) ip_dst =
    if i.ip == ip_dst then some i else ip_packet_router_check rest ip_dst

-- A packet for the router: an echo is answered, UDP and TCP have no port here.
unfoldable pub local_packet : Env → List ℕ → List ℕ → ℕ → Cmd SrInstance (Unit {0})
local_packet env packet interface len =
    let ip_p = (get ip_hdr packet 14).ip_p in
    if ip_p == 1
    then echo_reply env packet interface len
    else if (ip_p == 17) || (ip_p == 6)
    then port_unreach env packet interface len
    else pure tt

-- What follows a good checksum.
unfoldable pub dispatch_ip :
    Env → ℕ → ℕ → List ℕ → List ℕ → ℕ → Option SrIf → Cmd SrInstance (Unit {0})
dispatch_ip env fuel now packet interface len (some rt) = local_packet env packet interface len
dispatch_ip env fuel now packet interface len none = do
  again ← validate_checksum packet
  packet_to_other_dest env fuel now again.1 interface len

-- The code returns where the checksum is wrong.
unfoldable pub after_checksum : Env → ℕ → ℕ → List ℕ → ℕ → Bool × List ℕ → Cmd SrInstance (Unit {0})
after_checksum env fuel now interface len (false, packet) = pure tt
after_checksum env fuel now interface len (true, packet) = do
  sr ← get_state
  dispatch_ip env fuel now packet interface len
      (ip_packet_router_check sr.if_list (get ip_hdr packet 14).ip_dst)

unfoldable pub ip_packet : Env → ℕ → ℕ → List ℕ → List ℕ → ℕ → Cmd SrInstance (Unit {0})
ip_packet env fuel now packet interface len =
    if validate_ip len
    then (validate_checksum packet >>= after_checksum env fuel now interface len)
    else pure tt
