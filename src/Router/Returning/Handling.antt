-- ===== src/Router/Returning/Handling.antt =====
-- From the packets that waited to `sr_handlepacket`.
use internet_course.Base.{
  ℕ, ◌≡◌, ◌∙◌, refl, inl, inr, Bool-cases, Option-cases, Option, none, some, true, false, List, [],
  ◌∷◌, ◌||◌, All, length, arith, ◌==◌, leb,
}
use internet_course.Bytes.{IsBytes, ntohs}
use internet_course.Protocol.Struct.{get, length-put}
use internet_course.Protocol.Ether.{ethernet_hdr}
use internet_course.Protocol.Ip.{ip_hdr}
use internet_course.Protocol.Arp.{arp_hdr}
use internet_course.Iface.{SrIf}
use internet_course.Cache.{SrPacket, ArpReq, sr_arpcache_insert, sr_arpreq_destroy, find_request}
use internet_course.Cache.Requests.{insert-IsQueue}
use internet_course.Router.{SrInstance, Env}
use internet_course.Router.Icmp.{deref_interface}
use internet_course.Router.Arp.{arp_reply_packet, send_waiting, finish_request, arp_packet}
use internet_course.Router.Ip.{
  ethertype, ethertype_ip, ethertype_arp, validate_ip, compare_checksum, validate_checksum,
  ip_packet_router_check, local_packet, dispatch_ip, after_checksum, ip_packet,
}
use internet_course.Router.Handle.{sr_handlepacket}
use internet_course.Router.Checked.{compare_checksum_restores}
use internet_course.Router.Invariant.{handlepacket-Keeping}
use internet_course.Router.Returning.{output, send-Outputs, port_unreach-Outputs, echo-Outputs}
use internet_course.Router.Returning.Queue.{
  Short, Fine, unlink_ip-Sound, unlink_address-Sound, find_request-Sound,
}
use internet_course.Router.Returning.Frames.{
  Able, Ends, Handles, Ends-Handles, other-Ends, other-Handles,
}

module _ (env : Env) (fuel now : ℕ) (interface : List ℕ) where
  waiting-Handles :
      (ps : List SrPacket) (sr : SrInstance)
      → All Fine ps
      → Able now interface sr
      → Handles now interface (send_waiting env fuel now interface ps) sr
  unfolding send_waiting
  waiting-Handles [] sr fine able = (sr, refl, refl, able)
  waiting-Handles (p ∷ ps) sr fine able =
      let (t, first, ifs, able') = other-Handles env fuel now p.buf interface fine.0.1 sr able in
      let (u, others, ifs', able'') = waiting-Handles ps t fine.1 able' in
      (u, rw (fine.0.0, first) others, ifs' ∙ ifs, able'')

  finish-Ends :
      (r : Option ArpReq) (sr : SrInstance)
      → ((req : ArpReq) → r ≡ some req → All Fine req.packets)
      → Able now interface sr
      → Ends now (finish_request env fuel now interface r) sr
  unfolding finish_request sr_arpreq_destroy
  finish-Ends none sr fine able = (sr, refl, able.sound)
  finish-Ends (some r) sr fine able =
      let (t, sent, ifs, able') = waiting-Handles r.packets sr (fine r refl) able in
      (
        record t { cache = sr_arpreq_destroy t.cache r.address },
        rw sent refl,
        unlink_address-Sound now r.address t.cache.requests able'.sound,
      )

  module _ (packet : List ℕ) (short : Short packet) (sr : SrInstance)
      (able : Able now interface sr) where
    length-reply : (i : SrIf) → length (arp_reply_packet i packet) ≡ length packet
    unfolding arp_reply_packet
    length-reply i = length-put ethernet_hdr _ 0 _ ∙ length-put arp_hdr packet 14 _

    learnt-Ends :
        (mac : List ℕ) (ip : ℕ)
        → let (req, cache') = sr_arpcache_insert sr.cache mac ip now in
          Ends now (finish_request env fuel now interface req) (record sr { cache = cache' })
    unfolding sr_arpcache_insert
    learnt-Ends mac ip =
        finish-Ends (find_request sr.cache.requests ip)
          (record sr { cache = (sr_arpcache_insert sr.cache mac ip now).1 })
          (λ req e. (find_request-Sound now sr.cache.requests ip {r = req} able.sound e).1)
          (record {
            way = able.way;
            verified = able.verified;
            queue = insert-IsQueue sr.cache mac ip now able.queue;
            sound = unlink_ip-Sound now ip sr.cache.requests able.sound;
          })

    arp-Ends : Ends now (arp_packet env fuel now packet interface (length packet)) sr
    unfolding arp_packet deref_interface
    arp-Ends =
        let (i, way) = able.way in
        let enough : leb 42 (length packet) ≡ true = ground arith in
        let ahdr = get arp_hdr packet 14 in
        elim (Bool-cases (ahdr.ar_tip == i.ip)) [
          | inr other ↦ (sr, rw (way, enough, other) refl, able.sound)
          | inl ours ↦ elim (Bool-cases (ntohs ahdr.ar_op == 1)) [
            | inl asks ↦
                let (sent, wire, logfile, e) =
                  send-Outputs env (arp_reply_packet i packet) (length packet) interface sr
                    (omega (arith, length-reply i)) in
                (output sr wire logfile, rw (way, enough, ours, asks, e) refl, able.sound)
            | inr quiet ↦ elim (Bool-cases (ntohs ahdr.ar_op == 2)) [
              | inr neither ↦ (sr, rw (way, enough, ours, quiet, neither) refl, able.sound)
              | inl replies ↦
                  let (t, e, sound) = learnt-Ends ahdr.ar_sha ahdr.ar_sip in
                  (t, rw (way, enough, ours, quiet, replies) e, sound)
            ]
          ]
        ]

    local-Ends : Ends now (local_packet env packet interface (length packet)) sr
    unfolding local_packet
    local-Ends =
        let (i, way) = able.way in
        let ip_p = (get ip_hdr packet 14).ip_p in
        elim (Bool-cases (ip_p == 1)) [
          | inl icmp ↦
              let (a, wire, logfile, e) = echo-Outputs env sr packet interface i way short in
              (output sr wire logfile, rw icmp e, able.sound)
          | inr other ↦ elim (Bool-cases ((ip_p == 17) || (ip_p == 6))) [
            | inl port ↦
                let (a, wire, logfile, e) =
                  port_unreach-Outputs env sr packet interface i way short in
                (output sr wire logfile, rw (other, port) e, able.sound)
            | inr unknown ↦ (sr, rw (other, unknown) refl, able.sound)
          ]
        ]

    ip-Ends :
        IsBytes packet
        → ethertype packet ≡ ethertype_ip
        → Ends now (ip_packet env fuel now packet interface (length packet)) sr
    unfolding ip_packet validate_ip validate_checksum after_checksum dispatch_ip
    ip-Ends bytes ip =
        let long : leb 34 (length packet) ≡ true = ground arith in
        let is_ip : (ethertype packet == ethertype_ip) ≡ true = ground arith in
        elim (Bool-cases (compare_checksum packet).0) [
          | inr bad ↦
              let failed : compare_checksum packet ≡ (false, (compare_checksum packet).1) =
                λ i. (bad i, (compare_checksum packet).1) in
              (sr, rw (long, is_ip, failed) refl, able.sound)
          | inl good ↦
              let passed : compare_checksum packet ≡ (true, packet) =
                λ i. (good i, compare_checksum_restores packet bytes (omega arith) good i) in
              elim (Option-cases
                (ip_packet_router_check sr.if_list (get ip_hdr packet 14).ip_dst)) [
                  | inl elsewhere ↦
                      let (t, e, sound) = other-Ends env fuel now packet interface short sr able in
                      (
                        t,
                        rw (long, is_ip, passed, elsewhere, dispatch_ip, long, is_ip, passed) e,
                        sound,
                      )
                  | inr (own, here) ↦
                      let (t, e, sound) = local-Ends in (t, rw (long, is_ip, passed, here) e, sound)
                ]
        ]

    handlepacket-Ends :
        IsBytes packet → Ends now (sr_handlepacket env fuel now packet (length packet) interface) sr
    unfolding sr_handlepacket
    handlepacket-Ends bytes =
        let enough : leb 14 (length packet) ≡ true = ground arith in
        elim (Bool-cases (ethertype packet == ethertype_arp)) [
          | inl arp ↦ let (t, e, sound) = arp-Ends in (t, rw (enough, arp) e, sound)
          | inr no_arp ↦ elim (Bool-cases (ethertype packet == ethertype_ip)) [
            | inl ip ↦
                let (t, e, sound) = ip-Ends bytes (ground arith) in
                (t, rw (enough, no_arp, ip) e, sound)
            | inr other ↦ (sr, rw (enough, no_arp, other) refl, able.sound)
          ]
        ]

    -- A frame of 42 to 70 bytes, whatever they are, that comes with its length by an interface of the
    -- router; the routing table is checked, the queue of requests is in order, each request was sent
    -- within the last second or fewer than five times, and its packets have their lengths, 42 to 70
    -- bytes. Then `sr_handlepacket` returns without a fault, and behind it the same holds of the
    -- router, for frames in the same second.
    pub handlepacket-Handles :
        IsBytes packet
        → Handles now interface (sr_handlepacket env fuel now packet (length packet) interface) sr
    handlepacket-Handles bytes =
        Ends-Handles now interface _ sr
          (handlepacket-Keeping env fuel now packet (length packet) interface) able
          (handlepacket-Ends bytes)
