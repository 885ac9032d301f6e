-- ===== src/Router/Filter.antt =====
-- `sr_arp_req_not_for_us` of 20100117_RouterAssign_1/router/sr_vns_comm.c, by which the reader drops
-- ARP requests for other hosts before `sr_handlepacket` sees them.
use internet_course.Base.{
  ℕ, ◌≡◌, Bool, true, false, Option-cases, inl, inr, ◌&&◌, Option, none, some, List, length, arith,
  if◌then◌else◌, ◌==◌, ltb,
}
use internet_course.Base.Result.{Result, ok, fault, out_of_bounds, assertion}
use internet_course.Bytes.{htons}
use internet_course.Protocol.Struct.{get}
use internet_course.Protocol.Ether.{ethernet_hdr}
use internet_course.Protocol.Arp.{arp_hdr}
use internet_course.Iface.{SrIf, sr_get_interface}
use internet_course.Router.{SrInstance, Env}
use internet_course.Router.Icmp.{deref_interface}
use internet_course.Router.Arp.{arp_packet}
use internet_course.Router.Ip.{ethertype_arp}
use internet_course.Router.Handle.{sr_handlepacket}

-- The test behind the `assert`; `true` is the return value 1. A block shorter than the headers is a
-- fault.
unfoldable pub request_for_other : Option SrIf → List ℕ → Result Bool
request_for_other none packet = fault assertion
request_for_other (some iface) packet =
    let ahdr = get arp_hdr packet 14 in
    if ltb (length packet) 42
    then fault out_of_bounds
    else if ((get ethernet_hdr packet 0).ether_type == htons ethertype_arp)
        && (ahdr.ar_op == htons 1)
    then ok (if ahdr.ar_tip == iface.ip then false else true)
    else ok false

unfoldable pub sr_arp_req_not_for_us : SrInstance → List ℕ → ℕ → List ℕ → Result Bool
sr_arp_req_not_for_us sr packet len interface =
    if ltb len 42
    then ok false
    else request_for_other (sr_get_interface sr.if_list interface) packet

-- A frame that the reader drops would have changed nothing in `sr_handlepacket`.
pub handlepacket-not_for_us :
    (env : Env) (fuel now : ℕ) (packet : List ℕ) (len : ℕ) (interface : List ℕ) (sr : SrInstance)
    → sr_arp_req_not_for_us sr packet len interface ≡ ok true
    → sr_handlepacket env fuel now packet len interface sr ≡ ok (tt, sr)
unfolding sr_arp_req_not_for_us request_for_other sr_handlepacket arp_packet deref_interface
handlepacket-not_for_us env fuel now packet len interface sr h =
    elim (Option-cases (sr_get_interface sr.if_list interface)) [
      | inl e ↦ ground arith
      | inr (i, e) ↦ ground arith
    ]
