-- ===== src/Router/Invariant.antt =====
-- `sr_handlepacket`, and one round of the time-out thread, keep what `Keeping` names.
use internet_course.Base.{
  ℕ, ◌≡◌, refl, Bool, true, false, Bool-cases, inl, inr, Option, none, some, List, [], ◌∷◌, length,
  subst, ◌==◌, ◌||◌, leb,
}
use internet_course.Base.Result.{ok, out_of_bounds, no_value}
use internet_course.Bytes.{ntohs}
use internet_course.Protocol.Struct.{get}
use internet_course.Protocol.Ip.{ip_hdr}
use internet_course.Protocol.Arp.{arp_hdr}
use internet_course.Iface.{SrIf}
use internet_course.Route.{SrRt}
use internet_course.Cache.{
  SrPacket, ArpReq, ArpEntry, ArpCache, sr_arpcache_queuereq, sr_arpcache_insert, find_or_add,
  add_if_missing, find_request,
}
use internet_course.Cache.Requests.{IsQueue, insert-IsQueue, queuereq-IsQueue}
use internet_course.Router.{SrInstance, Env}
use internet_course.Router.Icmp.{time_exceeded, port_unreach}
use internet_course.Router.Forward.{forward_or_queue, route_packet, packet_to_other_dest}
use internet_course.Router.Arp.{send_waiting, finish_request, arp_packet}
use internet_course.Router.Ip.{
  validate_ip, validate_checksum, compare_checksum, local_packet, dispatch_ip, after_checksum,
  ip_packet, ethertype, ethertype_ip, ethertype_arp,
}
use internet_course.Router.Handle.{sr_handlepacket}
use internet_course.Base.Keep.{
  Keeping, After, keep_bind, keep_then, keep_pure, keep_if, keep_guard, keep_state,
}
use internet_course.Router.Keeping.{CacheKeeps, Keeps, router_order, keep_cache, length-fill_slot}
use internet_course.Router.Keepers.{
  send-Keeping, deref-Keeping, echo-Keeping, error-Keeping, destroy-Keeping, unreach-Keeping,
  handle_arpreq-Keeping,
}

add-slots :
    (cache : ArpCache) (ip : ℕ) (o : Option ArpReq)
    → length (add_if_missing cache ip o).1.entries ≡ length cache.entries
unfolding add_if_missing
add-slots cache ip none = refl
add-slots cache ip (some r) = refl

queuereq-slots :
    (cache : ArpCache) (ip : ℕ) (packet : List ℕ) (len : ℕ) (iface : List ℕ)
    → length (sr_arpcache_queuereq cache ip packet len iface).1.entries ≡ length cache.entries
unfolding sr_arpcache_queuereq find_or_add
queuereq-slots cache ip packet len iface =
    let added = add-slots cache ip (find_request cache.requests ip) in
    elim (Bool-cases (len == 0)) [ inl e ↦ rw e added | inr e ↦ rw e added ]

queuereq-CacheKeeps :
    (cache : ArpCache) (ip : ℕ) (packet : List ℕ) (len : ℕ) (iface : List ℕ)
    → CacheKeeps cache (sr_arpcache_queuereq cache ip packet len iface).1
queuereq-CacheKeeps cache ip packet len iface = record {
  slots = queuereq-slots cache ip packet len iface;
  queue = queuereq-IsQueue cache ip packet len iface;
}

insert-CacheKeeps :
    (cache : ArpCache) (mac : List ℕ) (ip now : ℕ)
    → CacheKeeps cache (sr_arpcache_insert cache mac ip now).1
unfolding sr_arpcache_insert
insert-CacheKeeps cache mac ip now = record {
  slots = length-fill_slot cache.entries mac ip now;
  queue = insert-IsQueue cache mac ip now;
}

module _ (env : Env) where
  expired-Keeping :
      (packet interface : List ℕ) (len : ℕ)
      → Keeping router_order (time_exceeded env packet interface len)
  unfolding time_exceeded
  expired-Keeping packet interface len = error-Keeping env _ packet interface len

  port-Keeping :
      (packet interface : List ℕ) (len : ℕ)
      → Keeping router_order (port_unreach env packet interface len)
  unfolding port_unreach
  port-Keeping packet interface len = error-Keeping env _ packet interface len

  forward-Keeping :
      (fuel now : ℕ) (packet interface : List ℕ) (len : ℕ) (rt : SrRt) (entry : Option ArpEntry)
      → Keeping router_order (forward_or_queue env fuel now packet interface len rt entry)
  unfolding forward_or_queue
  forward-Keeping fuel now packet interface len rt none =
      keep_then router_order _ _ (keep_guard router_order _ _) (
        keep_bind router_order _ _
          (keep_cache _ (λ c. queuereq-CacheKeeps c _ packet len interface))
          λ req. handle_arpreq-Keeping env fuel now req (some rt))
  forward-Keeping fuel now packet interface len rt (some entry) =
      keep_bind router_order _ _ (deref-Keeping env rt.interface) λ i.
        keep_bind router_order _ _ (send-Keeping env _ len i.name) (λ _. keep_pure router_order tt)

  route-Keeping :
      (fuel now : ℕ) (packet interface : List ℕ) (len : ℕ) (rt : Option SrRt)
      → Keeping router_order (route_packet env fuel now packet interface len rt)
  unfolding route_packet
  route-Keeping fuel now packet interface len none = unreach-Keeping env packet interface len
  route-Keeping fuel now packet interface len (some rt) =
      keep_bind router_order _ _ (keep_state router_order)
        (λ sr. forward-Keeping fuel now packet interface len rt _)

  pub other-Keeping :
      (fuel now : ℕ) (packet interface : List ℕ) (len : ℕ)
      → Keeping router_order (packet_to_other_dest env fuel now packet interface len)
  unfolding packet_to_other_dest
  other-Keeping fuel now packet interface len =
      keep_then router_order _ _ (keep_guard router_order _ _) (
        keep_bind router_order _ _ (keep_state router_order) λ sr.
          keep_if router_order (leb (get ip_hdr packet 14).ip_ttl 1) _ _
            (expired-Keeping packet interface len) (route-Keeping fuel now packet interface len _))

  waiting-Keeping :
      (fuel now : ℕ) (interface : List ℕ) (ps : List SrPacket)
      → Keeping router_order (send_waiting env fuel now interface ps)
  unfolding send_waiting
  waiting-Keeping fuel now interface [] = keep_pure router_order tt
  waiting-Keeping fuel now interface (p ∷ rest) =
      keep_then router_order _ _ (other-Keeping fuel now p.buf interface p.len)
        (waiting-Keeping fuel now interface rest)

  finish-Keeping :
      (fuel now : ℕ) (interface : List ℕ) (o : Option ArpReq)
      → Keeping router_order (finish_request env fuel now interface o)
  unfolding finish_request
  finish-Keeping fuel now interface none = keep_pure router_order tt
  finish-Keeping fuel now interface (some r) =
      keep_then router_order _ _ (waiting-Keeping fuel now interface r.packets)
        (destroy-Keeping env r.address)

  pub arp-Keeping :
      (fuel now : ℕ) (buf interface : List ℕ) (len : ℕ)
      → Keeping router_order (arp_packet env fuel now buf interface len)
  unfolding arp_packet
  arp-Keeping fuel now buf interface len =
      keep_bind router_order _ _ (deref-Keeping env interface) λ i.
        keep_then router_order _ _ (keep_guard router_order _ _) (
          keep_if router_order ((get arp_hdr buf 14).ar_tip == i.ip) _ _
            (keep_if router_order (ntohs (get arp_hdr buf 14).ar_op == 1) _ _
              (keep_then router_order _ _ (send-Keeping env _ len interface)
                (keep_pure router_order tt))
              (keep_if router_order (ntohs (get arp_hdr buf 14).ar_op == 2) _ _
                (keep_bind router_order _ _ (keep_cache _ (λ c. insert-CacheKeeps c _ _ now))
                  (finish-Keeping fuel now interface))
                (keep_pure router_order tt)))
            (keep_pure router_order tt))

  local-Keeping :
      (packet interface : List ℕ) (len : ℕ)
      → Keeping router_order (local_packet env packet interface len)
  unfolding local_packet
  local-Keeping packet interface len =
      let ip_p = (get ip_hdr packet 14).ip_p in
      keep_if router_order (ip_p == 1) _ _ (echo-Keeping env packet interface len) (
        keep_if router_order ((ip_p == 17) || (ip_p == 6)) _ _ (port-Keeping packet interface len)
          (keep_pure router_order tt))

  validate-Keeping : (packet : List ℕ) → Keeping router_order (validate_checksum packet)
  unfolding validate_checksum
  validate-Keeping packet =
      keep_then router_order _ _ (keep_guard router_order (leb 34 (length packet)) out_of_bounds) (
        keep_then router_order _ _
          (keep_guard router_order (ethertype packet == ethertype_ip) no_value)
          (keep_pure router_order (compare_checksum packet)))

  dispatch-Keeping :
      (fuel now : ℕ) (packet interface : List ℕ) (len : ℕ) (o : Option SrIf)
      → Keeping router_order (dispatch_ip env fuel now packet interface len o)
  unfolding dispatch_ip
  dispatch-Keeping fuel now packet interface len (some i) = local-Keeping packet interface len
  dispatch-Keeping fuel now packet interface len none =
      keep_bind router_order _ _ (validate-Keeping packet)
        λ again. other-Keeping fuel now again.1 interface len

  after-Keeping :
      (fuel now : ℕ) (interface : List ℕ) (len : ℕ) (r : Bool × List ℕ)
      → Keeping router_order (after_checksum env fuel now interface len r)
  unfolding after_checksum
  after-Keeping fuel now interface len (false, packet) = keep_pure router_order tt
  after-Keeping fuel now interface len (true, packet) =
      keep_bind router_order _ _ (keep_state router_order)
        (λ sr. dispatch-Keeping fuel now packet interface len _)

  ip-Keeping :
      (fuel now : ℕ) (packet interface : List ℕ) (len : ℕ)
      → Keeping router_order (ip_packet env fuel now packet interface len)
  unfolding ip_packet
  ip-Keeping fuel now packet interface len =
      keep_if router_order (validate_ip len) _ _
        (keep_bind router_order _ _ (validate-Keeping packet)
          (after-Keeping fuel now interface len))
        (keep_pure router_order tt)

  pub handlepacket-Keeping :
      (fuel now : ℕ) (packet : List ℕ) (len : ℕ) (interface : List ℕ)
      → Keeping router_order (sr_handlepacket env fuel now packet len interface)
  unfolding sr_handlepacket
  handlepacket-Keeping fuel now packet len interface =
      keep_then router_order _ _ (keep_guard router_order _ _) (
        keep_if router_order (ethertype packet == ethertype_arp) _ _
          (arp-Keeping fuel now packet interface len)
          (keep_if router_order (ethertype packet == ethertype_ip) _ _
            (ip-Keeping fuel now packet interface len) (keep_pure router_order tt)))

  -- Whatever frame comes in on whatever interface, while the queue of requests is in order: where
  -- `sr_handlepacket` returns, the interfaces, the routing table and the number of cache slots are
  -- as before, and the queue is in order.
  pub sr_handlepacket_keeps :
      (fuel now : ℕ) (packet : List ℕ) (len : ℕ) (interface : List ℕ) (sr t : SrInstance)
      → IsQueue sr.cache.next_address sr.cache.requests
      → sr_handlepacket env fuel now packet len interface sr ≡ ok (tt, t)
      → (t.if_list ≡ sr.if_list)
        × (t.routing_table ≡ sr.routing_table)
        × (length t.cache.entries ≡ length sr.cache.entries)
        × IsQueue t.cache.next_address t.cache.requests
  sr_handlepacket_keeps fuel now packet len interface sr t q returned =
      let kept : Keeps sr t =
        subst (After router_order sr) returned
          ((handlepacket-Keeping fuel now packet len interface).run sr) in
      (kept.interfaces, kept.routes, kept.cached.slots, kept.cached.queue q)
