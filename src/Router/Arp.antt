-- ===== src/Router/Arp.antt =====
-- `arp_packet` of 20100117_RouterAssign_1/router/sr_arp.c. The length of the packet is not checked
-- by the code: an access beyond its end is a fault.
use internet_course.Base.{ℕ, Option, none, some, List, [], ◌∷◌, length, if◌then◌else◌, ◌==◌, leb}
use internet_course.Base.Result.{Cmd, pure, guard, out_of_bounds, ◌>>=◌, ◌>>◌}
use internet_course.Bytes.{slice, htons, ntohs}
use internet_course.Protocol.Struct.{get, put}
use internet_course.Protocol.Ether.{EthernetHdr, ethernet_hdr}
use internet_course.Protocol.Arp.{ArpHdr, arp_hdr}
use internet_course.Iface.{SrIf}
use internet_course.Cache.{SrPacket, ArpReq, sr_arpcache_insert, sr_arpreq_destroy}
use internet_course.Router.{SrInstance, Env, on_cache}
use internet_course.Router.Send.{sr_send_packet}
use internet_course.Router.Icmp.{deref_interface}
use internet_course.Router.Forward.{packet_to_other_dest}

-- The edits that turn a request into the reply.
unfoldable pub arp_reply_packet : SrIf → List ℕ → List ℕ
arp_reply_packet get_interface buf =
    let ahdr = get arp_hdr buf 14 in
    let ehdr = get ethernet_hdr buf 0 in
    let mac_address_sender = slice get_interface.addr 0 6 in
    let mac_address_target = ahdr.ar_sha in
    let ahdr' : ArpHdr = record ahdr {
      ar_op = htons 2;
      ar_sip = get_interface.ip;
      ar_tip = ahdr.ar_sip;
      ar_sha = mac_address_sender;
      ar_tha = mac_address_target;
    } in
    let ehdr' : EthernetHdr = record ehdr {
      ether_dhost = mac_address_target;
      ether_shost = mac_address_sender;
    } in
    put ethernet_hdr (put arp_hdr buf 14 ahdr') 0 ehdr'

-- The packets that waited, one after the other.
unfoldable pub send_waiting : Env → ℕ → ℕ → List ℕ → List SrPacket → Cmd SrInstance (Unit {0})
send_waiting env fuel now interface [] = pure tt
send_waiting env fuel now interface (p ∷ rest) = do
  packet_to_other_dest env fuel now p.buf interface p.len
  send_waiting env fuel now interface rest

-- The request is out of the queue when its packets are sent, and is freed behind them.
unfoldable pub finish_request : Env → ℕ → ℕ → List ℕ → Option ArpReq → Cmd SrInstance (Unit {0})
finish_request env fuel now interface none = pure tt
finish_request env fuel now interface (some request) = do
  send_waiting env fuel now interface request.packets
  on_cache (λ c. (tt, sr_arpreq_destroy c request.address))

unfoldable pub arp_packet : Env → ℕ → ℕ → List ℕ → List ℕ → ℕ → Cmd SrInstance (Unit {0})
arp_packet env fuel now buf interface len = do
  get_interface ← deref_interface interface
  guard (leb 42 (length buf)) out_of_bounds
  let ahdr = get arp_hdr buf 14
  if ahdr.ar_tip == get_interface.ip
      then (if ntohs ahdr.ar_op == 1
          then (sr_send_packet env (arp_reply_packet get_interface buf) len interface >> pure tt)
          else (if ntohs ahdr.ar_op == 2
              then (on_cache (λ c. sr_arpcache_insert c ahdr.ar_sha ahdr.ar_sip now)
                  >>= finish_request env fuel now interface)
              else pure tt))
      else pure tt
