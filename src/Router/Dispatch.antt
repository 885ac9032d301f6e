-- ===== src/Router/Dispatch.antt =====
-- Which frames `sr_handlepacket` drops, forwards and answers.
use internet_course.Base.{ℕ, ◌≤◌, ◌≡◌, true, Bool-cases, inl, inr, none, some, List, length, arith}
use internet_course.Base.Result.{ok}
use internet_course.Bytes.{IsBytes}
use internet_course.Checksum.Valid.{ChecksumHolds}
use internet_course.Protocol.Struct.{get}
use internet_course.Protocol.Ip.{ip_hdr}
use internet_course.Iface.{SrIf}
use internet_course.Router.{SrInstance, Env}
use internet_course.Router.Icmp.{echo_reply}
use internet_course.Router.Forward.{packet_to_other_dest}
use internet_course.Router.Ip.{
  ethertype, ethertype_ip, validate_ip, compare_checksum, validate_checksum, ip_packet_router_check,
  local_packet, dispatch_ip, after_checksum, ip_packet,
}
use internet_course.Router.Handle.{sr_handlepacket}
use internet_course.Router.Checked.{compare_checksum_iff, compare_checksum_restores}

passed :
    (packet : List ℕ) (bytes : IsBytes packet) (long : 34 ≤ length packet)
    → ChecksumHolds (get ip_hdr packet 14)
    → compare_checksum packet ≡ (true, packet)
passed packet bytes long holds =
    let yes = (compare_checksum_iff packet bytes long).1 holds in
    λ i. (yes i, compare_checksum_restores packet bytes long yes i)

module _ (env : Env) (fuel now : ℕ) (packet interface : List ℕ) (len : ℕ) (sr : SrInstance)
    (bytes : IsBytes packet) (long : 34 ≤ length packet)
    (ip : ethertype packet ≡ ethertype_ip) where
  -- An IP frame of at least 34 bytes whose header checksum does not hold, or is 0, changes
  -- nothing.
  pub handlepacket-bad_checksum :
      (ChecksumHolds (get ip_hdr packet 14) → ⊥)
      → sr_handlepacket env fuel now packet len interface sr ≡ ok (tt, sr)
  unfolding sr_handlepacket ip_packet validate_ip validate_checksum after_checksum
  handlepacket-bad_checksum bad = elim (Bool-cases (compare_checksum packet).0) [
    | inl e ↦ absurd (bad ((compare_checksum_iff packet bytes long).0 e))
    | inr e ↦ ground arith
  ]

  -- An IP frame of at least 34 bytes, whose checksum holds and is not 0, and that is for none of the router's own
  -- addresses, is handed to `packet_to_other_dest` as it came.
  pub handlepacket-forwards :
      34 ≤ len
      → ChecksumHolds (get ip_hdr packet 14)
      → ip_packet_router_check sr.if_list (get ip_hdr packet 14).ip_dst ≡ none
      → sr_handlepacket env fuel now packet len interface sr
        ≡ packet_to_other_dest env fuel now packet interface len sr
  unfolding sr_handlepacket ip_packet validate_ip validate_checksum after_checksum dispatch_ip
  handlepacket-forwards enough holds other = ground (arith, passed packet bytes long holds)

  -- An IP frame of at least 34 bytes with a checksum that holds and is not 0, for an address of the
  -- router and with ICMP in it, is handed to `echo_reply` as it came.
  pub handlepacket-local :
      (own : SrIf)
      → 34 ≤ len
      → ChecksumHolds (get ip_hdr packet 14)
      → ip_packet_router_check sr.if_list (get ip_hdr packet 14).ip_dst ≡ some own
      → (get ip_hdr packet 14).ip_p ≡ 1
      → sr_handlepacket env fuel now packet len interface sr
        ≡ echo_reply env packet interface len sr
  unfolding sr_handlepacket ip_packet validate_ip validate_checksum after_checksum dispatch_ip
      local_packet
  handlepacket-local own enough holds here icmp = ground (arith, passed packet bytes long holds)
