-- ===== src/Router/Forward.antt =====
-- `packet_to_other_dest` of 20100117_RouterAssign_1/router/sr_ip.c.
use internet_course.Base.{ℕ, ◌+◌, ◌%◌, Option, none, some, List, length, if◌then◌else◌, leb}
use internet_course.Base.Result.{Cmd, pure, guard, get_state, out_of_bounds, ◌>>=◌, ◌>>◌}
use internet_course.Bytes.{slice}
use internet_course.Checksum.{cksum}
use internet_course.Protocol.Struct.{get, put}
use internet_course.Protocol.Ether.{EthernetHdr, ethernet_hdr}
use internet_course.Protocol.Ip.{IpHdr, ip_hdr, write_ip}
use internet_course.Iface.{SrIf}
use internet_course.Route.{SrRt, longest_prefix_sum}
use internet_course.Cache.{ArpEntry, sr_arpcache_lookup, sr_arpcache_queuereq}
use internet_course.Router.{SrInstance, Env, on_cache}
use internet_course.Router.Send.{sr_send_packet}
use internet_course.Router.Icmp.{deref_interface, dest_host_unreach, time_exceeded}
use internet_course.Router.Request.{handle_arpreq}

-- The edits to a packet whose next hop is known.
unfoldable pub forward_packet : SrIf → ArpEntry → List ℕ → List ℕ
forward_packet get_interface entry packet =
    let ehdr = get ethernet_hdr packet 0 in
    let iphdr = get ip_hdr packet 14 in
    let ehdr' : EthernetHdr = record ehdr {
      ether_shost = slice get_interface.addr 0 6;
      ether_dhost = slice entry.mac 0 6;
    } in
    let iphdr' : IpHdr = record iphdr { ip_ttl = (iphdr.ip_ttl + 255) % 256; ip_sum = 0 } in
    let iphdr_done : IpHdr = record iphdr' { ip_sum = cksum (write_ip iphdr') } in
    put ip_hdr (put ethernet_hdr packet 0 ehdr') 14 iphdr_done

-- With the Ethernet address at hand the packet is sent, else it waits for an ARP reply.
unfoldable pub forward_or_queue :
    Env → ℕ → ℕ → List ℕ → List ℕ → ℕ → SrRt → Option ArpEntry → Cmd SrInstance (Unit {0})
forward_or_queue env fuel now packet interface len dest_rt (some entry) = do
  get_interface ← deref_interface dest_rt.interface
  success ← sr_send_packet env (forward_packet get_interface entry packet) len get_interface.name
  pure tt
forward_or_queue env fuel now packet interface len dest_rt none = do
  guard (leb len (length packet)) out_of_bounds
  req ← on_cache (λ c. sr_arpcache_queuereq c (get ip_hdr packet 14).ip_dst packet len interface)
  handle_arpreq env fuel now req (some dest_rt)

-- The route, and the ARP cache where there is one.
unfoldable pub route_packet :
    Env → ℕ → ℕ → List ℕ → List ℕ → ℕ → Option SrRt → Cmd SrInstance (Unit {0})
route_packet env fuel now packet interface len none = dest_host_unreach env packet interface len
route_packet env fuel now packet interface len (some dest_rt) = do
  sr ← get_state
  forward_or_queue env fuel now packet interface len dest_rt
      (sr_arpcache_lookup sr.cache (get ip_hdr packet 14).ip_dst)

-- The returned `int` is not used by any caller.
unfoldable pub packet_to_other_dest : Env → ℕ → ℕ → List ℕ → List ℕ → ℕ → Cmd SrInstance (Unit {0})
packet_to_other_dest env fuel now packet interface len = do
  guard (leb 34 (length packet)) out_of_bounds
  sr ← get_state
  if leb (get ip_hdr packet 14).ip_ttl 1
      then time_exceeded env packet interface len
      else route_packet env fuel now packet interface len
          (longest_prefix_sum sr.routing_table (get ip_hdr packet 14).ip_dst)
