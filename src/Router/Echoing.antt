-- ===== src/Router/Echoing.antt =====
-- From an ICMP frame for the router to its answer on the wire: `sr_handlepacket` of
-- 20100117_RouterAssign_1/router/sr_router.c with `Echo_Reply` of sr_icmp.c.
use internet_course.Base.{ℕ, ◌<◌, ◌≤◌, ◌≡◌, ◌∙◌, ap, some, List, length, drop, take_all, arith}
use internet_course.Base.Result.{ok}
use internet_course.Bytes.{IsBytes}
use internet_course.Checksum.Valid.{ChecksumHolds, checksummed}
use internet_course.Protocol.Struct.{get}
use internet_course.Protocol.Ether.{ethernet_hdr}
use internet_course.Protocol.Ip.{ip_hdr}
use internet_course.Protocol.Icmp.{icmp_hdr}
use internet_course.Iface.{SrIf, sr_get_interface}
use internet_course.Router.{SrInstance, Env}
use internet_course.Router.Icmp.{deref_interface, echo_reply, echo_reply_packet}
use internet_course.Router.Ip.{ethertype, ethertype_ip, ip_packet_router_check}
use internet_course.Router.Handle.{sr_handlepacket}
use internet_course.Router.Rewriting.{IsMac}
use internet_course.Router.Sending.{sr_send_packet_lem, sent_on}
use internet_course.Router.Answering.{echo_ether, echo_ip, echo_icmp, echo_reply_packet_lem}
use internet_course.Router.Dispatch.{handlepacket-local}

module _ (env : Env) (fuel now : ℕ) (packet interface : List ℕ) (sr : SrInstance) (own i : SrIf)
    (bytes : IsBytes packet) (long : 38 ≤ length packet) where
  -- The answer is sent whole, by the interface that the packet came in by.
  echo_reply_sends :
      sr_get_interface sr.if_list interface ≡ some i
      → IsMac i.addr
      → i.ip < 4294967296
      → echo_reply env packet interface (length packet) sr
        ≡ ok (tt, sent_on env sr (echo_reply_packet i packet) (length packet) interface)
  unfolding echo_reply deref_interface
  echo_reply_sends iface mac ip_fits =
      let made = echo_reply_packet_lem i mac ip_fits packet bytes long in
      let out =
        sr_send_packet_lem env (echo_reply_packet i packet) (length packet) interface sr i iface
          (ap (λ e. e.ether_shost) made.0 ∙ take_all 6 i.addr (omega (arith, mac.six)))
          (omega arith) (omega (arith, made.5)) in
      ground (arith, out)

  -- An IP frame of at least 38 bytes with ICMP in it, whatever its ICMP type, for an address of any
  -- of the router's interfaces, with a header checksum that holds and is not 0, that came by an
  -- interface with an Ethernet address of six bytes and an IP address of 32 bits: one frame of the
  -- same length is sent by that interface, and besides the log nothing else changes. It goes from
  -- the interface's Ethernet and IP addresses, which need not be the IP address that was asked, to
  -- those of the sender; its IP header has a checksum that holds, its ICMP type is 0, and the bytes
  -- behind the four of the ICMP header are those that came.
  pub handlepacket-echoes :
      ethertype packet ≡ ethertype_ip
      → ChecksumHolds (get ip_hdr packet 14)
      → ip_packet_router_check sr.if_list (get ip_hdr packet 14).ip_dst ≡ some own
      → (get ip_hdr packet 14).ip_p ≡ 1
      → sr_get_interface sr.if_list interface ≡ some i
      → (mac : IsMac i.addr) → (ip_fits : i.ip < 4294967296)
      → let sent = echo_reply_packet i packet in
        (sr_handlepacket env fuel now packet (length packet) interface sr
          ≡ ok (tt, sent_on env sr sent (length packet) interface))
        × (get ethernet_hdr sent 0 ≡ echo_ether i mac ip_fits packet bytes long)
        × (get ip_hdr sent 14 ≡ checksummed (echo_ip i mac ip_fits packet bytes long))
        × ChecksumHolds (get ip_hdr sent 14)
        × (get icmp_hdr sent 34 ≡ echo_icmp i mac ip_fits packet bytes long)
        × (drop 38 sent ≡ drop 38 packet)
        × (length sent ≡ length packet)
  handlepacket-echoes ip holds here icmp iface mac ip_fits =
      let made = echo_reply_packet_lem i mac ip_fits packet bytes long in
      (
        handlepacket-local env fuel now packet interface (length packet) sr bytes (omega arith) ip
              own (omega arith) holds here icmp
            ∙ echo_reply_sends iface mac ip_fits,
        made.0,
        made.1,
        made.2,
        made.3,
        made.4,
        made.5,
      )
