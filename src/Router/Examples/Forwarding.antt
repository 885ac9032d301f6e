-- ===== src/Router/Examples/Forwarding.antt =====
-- The theorems on forwarding, at the packet of the network.
use internet_course.Base.{
  ℕ, ◌+◌, ◌<◌, ◌%◌, ◌≡◌, ◌↔◌, true, refl, List, [], ◌∷◌, length, drop, arith,
}
use internet_course.Base.Result.{fault, out_of_bounds}
use internet_course.Bytes.{slice}
use internet_course.Checksum.Sum.{word_sum}
use internet_course.Checksum.Valid.{SumHolds, ChecksumHolds, checksummed}
use internet_course.Protocol.Struct.{get}
use internet_course.Protocol.Ether.{ethernet_hdr}
use internet_course.Protocol.Ip.{ip_hdr, read_ip, write_ip}
use internet_course.Protocol.IcmpT3.{icmp_t3_hdr}
use internet_course.Router.Examples.Network.{
  octets-IsBytes, env, eth0, eth0-IsMac, host-IsMac, frame, frame-IsBytes, host_entry, router,
  found_eth0,
}
use internet_course.Router.Forward.{forward_packet}
use internet_course.Router.Ip.{compare_checksum}
use internet_course.Router.Icmp.{error_packet, send_error, ErrorKind}
use internet_course.Router.Rewriting.{new_ether, lowered, forward_packet_lem}
use internet_course.Router.Checked.{hdr_of, compare_checksum_iff}
use internet_course.Router.Errors.{
  icmp_checksummed, answer_ether, answer_ip, answer_icmp, error_packet_lem,
}
use internet_course.Router.Sending.{send_error_overrun}

forward_packet_lem_example :
    let sent = forward_packet eth0 host_entry frame in
    (get ethernet_hdr sent 0
      ≡ new_ether eth0 eth0-IsMac host_entry host-IsMac frame frame-IsBytes (omega arith))
    × (get ip_hdr sent 14
        ≡ checksummed
            (lowered eth0 eth0-IsMac host_entry host-IsMac frame frame-IsBytes (omega arith)))
    × ChecksumHolds (get ip_hdr sent 14)
    × (drop 34 sent ≡ drop 34 frame)
    × (length sent ≡ length frame)
forward_packet_lem_example =
    forward_packet_lem eth0 eth0-IsMac host_entry host-IsMac frame frame-IsBytes (omega arith)

compare_checksum_iff_example : ((compare_checksum frame).0 ≡ true) ↔ (
    SumHolds (hdr_of frame frame-IsBytes (omega arith))
    × (0 < (hdr_of frame frame-IsBytes (omega arith)).ip_sum))
compare_checksum_iff_example = compare_checksum_iff frame frame-IsBytes (omega arith)

-- A header that adds up with a checksum of 0, in a frame that the code drops.
abbrev zero_sum : List ℕ
zero_sum =
    2 ∷ 0 ∷ 0 ∷ 0 ∷ 0 ∷ 1 ∷ 2 ∷ 0 ∷ 0 ∷ 0 ∷ 0 ∷ 5 ∷ 8 ∷ 0 ∷ 69 ∷ 0 ∷ 0 ∷ 28 ∷ 102 ∷ 217 ∷ 0 ∷ 0 ∷ 64
    ∷ 1 ∷ 0 ∷ 0 ∷ 10 ∷ 0 ∷ 0 ∷ 2 ∷ 10 ∷ 0 ∷ 0 ∷ 7 ∷ []

zero_sum-SumHolds : SumHolds (get ip_hdr zero_sum 14)
unfolding read_ip write_ip
zero_sum-SumHolds = (refl, omega arith)

zero_sum-refused : (compare_checksum zero_sum).0 ≡ true → ⊥
unfolding read_ip
zero_sum-refused h =
    omega
      (arith, ((compare_checksum_iff zero_sum (octets-IsBytes zero_sum refl) (omega arith)).0 h).1)

-- The time-exceeded message.
abbrev kind : ErrorKind
kind = record { icmp_type = 11; icmp_code = 0; new_ttl = λ ttl. (ttl + 255) % 256 }

kind-small : (kind.icmp_type < 256) × (kind.icmp_code < 256)
kind-small = (omega arith, omega arith)

kind-ttl : (t : ℕ) → t < 256 → kind.new_ttl t < 256
kind-ttl t h = omega arith

error_packet_lem_example :
    let sent = error_packet env kind eth0 frame in
    (get ethernet_hdr sent 0
      ≡ answer_ether env kind kind-small kind-ttl eth0 eth0-IsMac
          (omega arith)
          frame
          frame-IsBytes
          (omega arith))
    × (get ip_hdr sent 14
        ≡ checksummed (
            answer_ip env kind kind-small kind-ttl eth0 eth0-IsMac
              (omega arith)
              frame
              frame-IsBytes
              (omega arith)))
    × ChecksumHolds (get ip_hdr sent 14)
    × (get icmp_t3_hdr sent 34
        ≡ icmp_checksummed (
            answer_icmp env kind kind-small kind-ttl eth0 eth0-IsMac
              (omega arith)
              frame
              frame-IsBytes
              (omega arith)))
    × (word_sum (slice sent 34 36) % 65535 ≡ 0)
    × (length sent ≡ 70)
error_packet_lem_example =
    error_packet_lem env kind kind-small kind-ttl eth0 eth0-IsMac (omega arith) frame frame-IsBytes
      (omega arith)

-- The packet came with a length of 71.
send_error_overrun_example : send_error env kind frame eth0.name 71 router ≡ fault out_of_bounds
send_error_overrun_example =
    send_error_overrun env kind frame eth0.name 71 router eth0 (omega arith) (omega arith)
      found_eth0
