-- ===== src/Router/Examples/Answers.antt =====
-- The theorems on echo and ARP replies, at the network.
use internet_course.Base.{ℕ, ◌%◌, ◌≡◌, refl, List, [], ◌∷◌, length, drop, arith}
use internet_course.Base.Result.{ok}
use internet_course.Bytes.{IsBytes}
use internet_course.Checksum.Sum.{word_sum}
use internet_course.Checksum.Valid.{ChecksumHolds, checksummed}
use internet_course.Protocol.Struct.{get}
use internet_course.Protocol.Ether.{ethernet_hdr}
use internet_course.Protocol.Ip.{ip_hdr}
use internet_course.Protocol.Icmp.{icmp_hdr}
use internet_course.Protocol.Arp.{arp_hdr, read_arp}
use internet_course.Router.Examples.Network.{
  octets-IsBytes, env, eth0, eth0-IsMac, frame, frame-IsBytes, router, found_eth0,
}
use internet_course.Router.Icmp.{echo_reply_packet}
use internet_course.Router.Arp.{arp_reply_packet, arp_packet}
use internet_course.Router.Sending.{sent_on}
use internet_course.Router.Answering.{
  echo_ether, echo_ip, echo_icmp, echo_reply_packet_lem, echo_reply_checksum, arp_packet_answers,
  reply_ether, reply_arp,
}

-- A request of 192.168.2.2 for the address of the interface.
abbrev asking : List ℕ
asking =
    255 ∷ 255 ∷ 255 ∷ 255 ∷ 255 ∷ 255 ∷ 2 ∷ 0 ∷ 0 ∷ 0 ∷ 0 ∷ 9 ∷ 8 ∷ 6 ∷ 0 ∷ 1 ∷ 8 ∷ 0 ∷ 6 ∷ 4 ∷ 0
    ∷ 1 ∷ 2 ∷ 0 ∷ 0 ∷ 0 ∷ 0 ∷ 9 ∷ 192 ∷ 168 ∷ 2 ∷ 2 ∷ 0 ∷ 0 ∷ 0 ∷ 0 ∷ 0 ∷ 0 ∷ 192 ∷ 168 ∷ 2 ∷ 1 ∷ []

asking-IsBytes : IsBytes asking
asking-IsBytes = octets-IsBytes asking refl

echo_reply_packet_lem_example :
    let sent = echo_reply_packet eth0 frame in
    (get ethernet_hdr sent 0
      ≡ echo_ether eth0 eth0-IsMac (omega arith) frame frame-IsBytes (omega arith))
    × (get ip_hdr sent 14
        ≡ checksummed (echo_ip eth0 eth0-IsMac (omega arith) frame frame-IsBytes (omega arith)))
    × ChecksumHolds (get ip_hdr sent 14)
    × (get icmp_hdr sent 34
        ≡ echo_icmp eth0 eth0-IsMac (omega arith) frame frame-IsBytes (omega arith))
    × (drop 38 sent ≡ drop 38 frame)
    × (length sent ≡ length frame)
echo_reply_packet_lem_example =
    echo_reply_packet_lem eth0 eth0-IsMac (omega arith) frame frame-IsBytes (omega arith)

echo_reply_checksum_example :
    word_sum (drop 34 (echo_reply_packet eth0 frame)) % 65535 ≡ word_sum (drop 38 frame) % 65535
echo_reply_checksum_example =
    echo_reply_checksum eth0 eth0-IsMac (omega arith) frame frame-IsBytes (omega arith)

arp_packet_answers_example :
    let sent = arp_reply_packet eth0 asking in
    (arp_packet env 0 0 asking eth0.name 42 router ≡ ok (tt, sent_on env router sent 42 eth0.name))
    × (get ethernet_hdr sent 0
        ≡ reply_ether eth0 eth0-IsMac (omega arith) asking asking-IsBytes (omega arith))
    × (get arp_hdr sent 14
        ≡ reply_arp eth0 eth0-IsMac (omega arith) asking asking-IsBytes (omega arith))
    × (length sent ≡ 42)
unfolding read_arp
arp_packet_answers_example =
    arp_packet_answers env 0 0 asking eth0.name router eth0 asking-IsBytes (omega arith) found_eth0
      eth0-IsMac (omega arith) refl refl
