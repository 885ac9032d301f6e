-- ===== src/Router/Examples/Dispatching.antt =====
-- The theorems on what `sr_handlepacket` does with a frame, at the network.
use internet_course.Base.{ℕ, ◌≡◌, refl, none, some, List, [], ◌∷◌, arith}
use internet_course.Base.Result.{ok}
use internet_course.Bytes.{IsBytes}
use internet_course.Checksum.Valid.{ChecksumHolds, checksummed}
use internet_course.Protocol.Struct.{get}
use internet_course.Protocol.Ip.{ip_hdr, read_ip, write_ip}
use internet_course.Protocol.Ether.{ethernet_hdr, read_ethernet}
use internet_course.Protocol.Icmp.{icmp_hdr}
use internet_course.Router.Icmp.{echo_reply_packet}
use internet_course.Router.Ip.{ip_packet_router_check, ethertype, ethertype_ip}
use internet_course.Router.Handle.{sr_handlepacket}
use internet_course.Router.Dispatch.{handlepacket-bad_checksum, handlepacket-forwards}
use internet_course.Base.{◌∙◌, length, drop}
use internet_course.Cache.Requests.{IsQueue}
use internet_course.Router.{SrInstance}
use internet_course.Router.Forward.{forward_packet}
use internet_course.Router.Sending.{sent_on, packet_to_other_dest_forwards}
use internet_course.Router.Echoing.{handlepacket-echoes}
use internet_course.Router.Answering.{echo_ether, echo_ip, echo_icmp}
use internet_course.Router.Invariant.{sr_handlepacket_keeps}
use internet_course.Router.Examples.Network.{
  octets-IsBytes, env, eth0, frame, frame-IsBytes, router, host_route, host_entry, eth0-IsMac,
  host-IsMac, found_route, found_hop, found_eth0, pending-IsQueue,
}

frame-Ip : ethertype frame ≡ ethertype_ip
unfolding read_ethernet
frame-Ip = refl

frame-ChecksumHolds : ChecksumHolds (get ip_hdr frame 14)
unfolding read_ip write_ip
frame-ChecksumHolds = ((refl, omega arith), omega arith)

frame-elsewhere : ip_packet_router_check router.if_list (get ip_hdr frame 14).ip_dst ≡ none
unfolding ip_packet_router_check read_ip
frame-elsewhere = refl

-- The same packet with another checksum.
abbrev bad : List ℕ
bad =
    2 ∷ 0 ∷ 0 ∷ 0 ∷ 0 ∷ 1 ∷ 2 ∷ 0 ∷ 0 ∷ 0 ∷ 0 ∷ 5 ∷ 8 ∷ 0 ∷ 69 ∷ 0 ∷ 0 ∷ 28 ∷ 0 ∷ 1 ∷ 0 ∷ 0 ∷ 64 ∷ 1
    ∷ 102 ∷ 217 ∷ 10 ∷ 0 ∷ 0 ∷ 2 ∷ 10 ∷ 0 ∷ 0 ∷ 7 ∷ []

bad-IsBytes : IsBytes bad
bad-IsBytes = octets-IsBytes bad refl

bad-Ip : ethertype bad ≡ ethertype_ip
unfolding read_ethernet
bad-Ip = refl

bad-no_checksum : ChecksumHolds (get ip_hdr bad 14) → ⊥
unfolding read_ip write_ip
bad-no_checksum h = omega (arith, h.0.0)

handlepacket-bad_checksum_example :
    sr_handlepacket env 0 0 bad 34 eth0.name router ≡ ok (tt, router)
handlepacket-bad_checksum_example =
    handlepacket-bad_checksum env 0 0 bad eth0.name 34 router bad-IsBytes (omega arith) bad-Ip
      bad-no_checksum

-- An echo request for 192.168.2.1.
abbrev ping : List ℕ
ping =
    2 ∷ 0 ∷ 0 ∷ 0 ∷ 0 ∷ 1 ∷ 2 ∷ 0 ∷ 0 ∷ 0 ∷ 0 ∷ 5 ∷ 8 ∷ 0 ∷ 69 ∷ 0 ∷ 0 ∷ 28 ∷ 0 ∷ 1 ∷ 0 ∷ 0 ∷ 64 ∷ 1
    ∷ 174 ∷ 53 ∷ 10 ∷ 0 ∷ 0 ∷ 2 ∷ 192 ∷ 168 ∷ 2 ∷ 1 ∷ 8 ∷ 0 ∷ 247 ∷ 255 ∷ 0 ∷ 0 ∷ 0 ∷ 0 ∷ []

ping-IsBytes : IsBytes ping
ping-IsBytes = octets-IsBytes ping refl

ping-Ip : ethertype ping ≡ ethertype_ip
unfolding read_ethernet
ping-Ip = refl

ping-ChecksumHolds : ChecksumHolds (get ip_hdr ping 14)
unfolding read_ip write_ip
ping-ChecksumHolds = ((refl, omega arith), omega arith)

ping-here : ip_packet_router_check router.if_list (get ip_hdr ping 14).ip_dst ≡ some eth0
unfolding ip_packet_router_check read_ip
ping-here = refl

ping-icmp : (get ip_hdr ping 14).ip_p ≡ 1
unfolding read_ip
ping-icmp = refl

handlepacket-echoes_example :
    let sent = echo_reply_packet eth0 ping in
    (sr_handlepacket env 0 0 ping 42 eth0.name router
      ≡ ok (tt, sent_on env router sent 42 eth0.name))
    × (get ethernet_hdr sent 0
        ≡ echo_ether eth0 eth0-IsMac (omega arith) ping ping-IsBytes (omega arith))
    × (get ip_hdr sent 14
        ≡ checksummed (echo_ip eth0 eth0-IsMac (omega arith) ping ping-IsBytes (omega arith)))
    × ChecksumHolds (get ip_hdr sent 14)
    × (get icmp_hdr sent 34
        ≡ echo_icmp eth0 eth0-IsMac (omega arith) ping ping-IsBytes (omega arith))
    × (drop 38 sent ≡ drop 38 ping)
    × (length sent ≡ 42)
handlepacket-echoes_example =
    handlepacket-echoes env 0 0 ping eth0.name router eth0 eth0 ping-IsBytes (omega arith) ping-Ip
      ping-ChecksumHolds ping-here ping-icmp found_eth0 eth0-IsMac (omega arith)

frame-forwarded :
    sr_handlepacket env 0 0 frame 42 eth0.name router
    ≡ ok (tt, sent_on env router (forward_packet eth0 host_entry frame) 42 eth0.name)
unfolding read_ip
frame-forwarded =
    handlepacket-forwards env 0 0 frame eth0.name 42 router frame-IsBytes (omega arith) frame-Ip
      (omega arith) frame-ChecksumHolds frame-elsewhere
    ∙ packet_to_other_dest_forwards env 0 0 frame eth0.name router host_route host_entry eth0
        frame-IsBytes (omega arith) (omega arith) found_route found_hop found_eth0 eth0-IsMac
        host-IsMac

-- The router after the forwarding.
abbrev forwarded : SrInstance
forwarded = sent_on env router (forward_packet eth0 host_entry frame) 42 eth0.name

sr_handlepacket_keeps_example :
    (forwarded.if_list ≡ router.if_list)
    × (forwarded.routing_table ≡ router.routing_table)
    × (length forwarded.cache.entries ≡ length router.cache.entries)
    × IsQueue forwarded.cache.next_address forwarded.cache.requests
sr_handlepacket_keeps_example =
    sr_handlepacket_keeps env 0 0 frame 42 eth0.name router forwarded pending-IsQueue
      frame-forwarded
