-- ===== src/Router/Resolving.antt =====
-- From an unknown next hop to the forwarded packet: the request that a packet makes, and the reply
-- that sets the packet free.
use internet_course.Base.{
  ℕ, suc, ◌<◌, ◌≤◌, ◌≡◌, refl, ◌∙◌, none, some, List, [], ◌∷◌, length, true, arith, leb, ◌==◌,
  false,
}
use internet_course.Base.Result.{ok}
use internet_course.Bytes.{IsBytes, slice, ntohs}
use internet_course.CString.{strncpy}
use internet_course.Protocol.Struct.{get, get-Fits}
use internet_course.Protocol.Ip.{ip_hdr}
use internet_course.Iface.{SrIf, sr_get_interface, sr_iface_namelen}
use internet_course.Route.{SrRt, longest_prefix_sum}
use internet_course.Cache.{
  SrPacket, ArpReq, ArpCache, sr_arpcache_lookup, sr_arpcache_queuereq, find_request, find_or_add,
  add_if_missing, add_packet, update_request,
}
use internet_course.Router.{SrInstance, Env}
use internet_course.Router.Request.{arp_request_packet, find_address}
use internet_course.Router.Forward.{forward_or_queue, route_packet, packet_to_other_dest}
use internet_course.Router.Rewriting.{IsMac}
use internet_course.Router.Retrying.{handle_arpreq_sends}
use internet_course.Router.Sending.{sent_on}
use internet_course.Base.{take_all}
use internet_course.Base.Result.{◌>>◌}
use internet_course.Checksum.Valid.{ChecksumHolds}
use internet_course.Protocol.Arp.{arp_hdr}
use internet_course.Cache.{fill_slot, sr_arpcache_insert, unlink_ip}
use internet_course.Cache.Entries.{Free, mapping}
use internet_course.Cache.Requests.{IsQueue, find-Absent}
use internet_course.Router.Ip.{ethertype, ethertype_ip, ethertype_arp, ip_packet_router_check}
use internet_course.Router.Forward.{forward_packet}
use internet_course.Router.Handle.{sr_handlepacket}
use internet_course.Router.Dispatch.{handlepacket-forwards}
use internet_course.Router.Arp.{arp_packet}
use internet_course.Router.Release.{Waits, arp_packet_releases}

-- The copy of a packet that waits.
abbrev pub waiting_copy : List ℕ → ℕ → List ℕ → SrPacket
waiting_copy packet len iface = record {
  buf = slice packet 0 len;
  len = len;
  iface = strncpy iface sr_iface_namelen;
}

-- The request for an address that no packet waited for.
abbrev pub first_request : ArpCache → ℕ → SrPacket → ArpReq
first_request cache ip p = record {
  address = cache.next_address;
  ip = ip;
  sent = 0;
  times_sent = 0;
  packets = p ∷ [];
}

-- The cache with one request more.
abbrev pub with_request : ArpCache → ArpReq → ArpCache
with_request cache r = record cache {
  requests = r ∷ cache.requests;
  next_address = suc cache.next_address;
}

queuereq_first :
    (cache : ArpCache) (ip : ℕ) (packet : List ℕ) (len : ℕ) (iface : List ℕ)
    → find_request cache.requests ip ≡ none
    → 0 < len
    → sr_arpcache_queuereq cache ip packet len iface ≡ (
      cache.next_address,
      with_request cache (first_request cache ip (waiting_copy packet len iface)),
    )
unfolding sr_arpcache_queuereq find_or_add add_if_missing add_packet update_request
queuereq_first cache ip packet len iface unasked some_bytes =
    let nonempty : (len == 0) ≡ false = ground arith in
    let here : (cache.next_address == cache.next_address) ≡ true = ground arith in
    rw (unasked, nonempty, here) refl

-- The destination of a packet.
abbrev pub wanted : List ℕ → ℕ
wanted packet = (get ip_hdr packet 14).ip_dst

abbrev pub held_packet : List ℕ → List ℕ → SrPacket
held_packet packet interface = waiting_copy packet (length packet) interface

-- The router after the first ARP request for the destination of the packet.
abbrev pub asked : Env → ℕ → List ℕ → List ℕ → SrInstance → SrIf → SrInstance
asked env now packet interface sr i =
    record (sent_on env sr (arp_request_packet env i (wanted packet)) 42 i.name) {
      cache =
          with_request sr.cache
            (record (first_request sr.cache (wanted packet) (held_packet packet interface)) {
              sent = now;
              times_sent = 1;
            });
    }

module _ (env : Env) (fuel now : ℕ) (packet interface : List ℕ) (sr : SrInstance) (rt : SrRt)
    (i : SrIf) where
  -- A packet of at least 34 bytes with a TTL above 1 and a route, to an address that the cache does
  -- not know and that no packet waits for, in second 2 or later: a copy of the packet waits in a new
  -- request, and one ARP request for the address goes out on the route's interface, which is known and
  -- has an Ethernet address of six bytes; nothing else changes.
  pub packet_to_other_dest_asks :
      IsBytes packet
      → 34 ≤ length packet
      → 1 < (get ip_hdr packet 14).ip_ttl
      → longest_prefix_sum sr.routing_table (wanted packet) ≡ some rt
      → sr_arpcache_lookup sr.cache (wanted packet) ≡ none
      → find_request sr.cache.requests (wanted packet) ≡ none
      → 1 < now
      → sr_get_interface sr.if_list rt.interface ≡ some i
      → IsMac i.addr
      → i.ip < 4294967296
      → packet_to_other_dest env fuel now packet interface (length packet) sr
        ≡ ok (tt, asked env now packet interface sr i)
  unfolding packet_to_other_dest route_packet forward_or_queue find_address update_request
  packet_to_other_dest_asks bytes long ttl route unknown unasked late iface mac ip_fits =
      let queued =
        queuereq_first sr.cache (wanted packet) packet (length packet) interface unasked
          (omega arith) in
      let new = first_request sr.cache (wanted packet) (held_packet packet interface) in
      let here : (sr.cache.next_address == sr.cache.next_address) ≡ true = ground arith in
      let sends =
        handle_arpreq_sends env fuel now sr.cache.next_address
          (record sr { cache = with_request sr.cache new }) new (rw here refl) rt i late
          (omega arith) iface mac ip_fits
          (get-Fits ip_hdr packet 14 bytes (omega arith)).dst_fits in
      let enough : leb 34 (length packet) ≡ true = ground arith in
      let alive : leb (get ip_hdr packet 14).ip_ttl 1 ≡ false = ground arith in
      let whole : leb (length packet) (length packet) ≡ true = ground arith in
      rw (enough, alive, route, unknown, whole, queued) (sends ∙ rw here refl)

-- A frame that the router forwards by this route, out of this interface: an IP packet, with a header
-- checksum that holds and is not 0 and a TTL above 1, for none of the addresses of the router.
pub record IsForwarded (sr : SrInstance) (packet : List ℕ) (rt : SrRt) (i : SrIf) : Type 0 where
  pub octets : IsBytes packet
  pub long : 34 ≤ length packet
  pub is_ip : ethertype packet ≡ ethertype_ip
  pub holds : ChecksumHolds (get ip_hdr packet 14)
  pub elsewhere : ip_packet_router_check sr.if_list (get ip_hdr packet 14).ip_dst ≡ none
  pub alive : 1 < (get ip_hdr packet 14).ip_ttl
  pub route : longest_prefix_sum sr.routing_table (get ip_hdr packet 14).ip_dst ≡ some rt
  pub out : sr_get_interface sr.if_list rt.interface ≡ some i
  pub mac : IsMac i.addr
  pub ip_fits : i.ip < 4294967296

-- An ARP reply for this address that comes in by this interface and is sent to it.
pub record IsReply (sr : SrInstance) (reply interface : List ℕ) (ip : ℕ) (i : SrIf) : Type 0 where
  pub octets : IsBytes reply
  pub long : 42 ≤ length reply
  pub is_arp : ethertype reply ≡ ethertype_arp
  pub way : sr_get_interface sr.if_list interface ≡ some i
  pub ours : (get arp_hdr reply 14).ar_tip ≡ i.ip
  pub replies : ntohs (get arp_hdr reply 14).ar_op ≡ 2
  pub names : (get arp_hdr reply 14).ar_sip ≡ ip

handlepacket-arp :
    (env : Env) (fuel now : ℕ) (packet : List ℕ) (len : ℕ) (interface : List ℕ) (sr : SrInstance)
    → 14 ≤ length packet
    → ethertype packet ≡ ethertype_arp
    → sr_handlepacket env fuel now packet len interface sr
      ≡ arp_packet env fuel now packet interface len sr
unfolding sr_handlepacket
handlepacket-arp env fuel now packet len interface sr long arp = ground arith

-- The router after the ARP request, which has learnt the address of the packet from the reply and has
-- no new request left.
abbrev pub settled : Env → ℕ → ℕ → List ℕ → List ℕ → List ℕ → SrInstance → SrIf → SrInstance
settled env now now' packet interface reply sr i = record (asked env now packet interface sr i) {
  cache = record sr.cache {
    entries = fill_slot sr.cache.entries (get arp_hdr reply 14).ar_sha (wanted packet) now';
    next_address = suc sr.cache.next_address;
  };
}

module _ (env : Env) (fuel now now' : ℕ) (packet interface reply interface' : List ℕ)
    (sr : SrInstance) (rt : SrRt) (i i' : SrIf) where
  held-Waits : IsForwarded sr packet rt i → Waits (wanted packet) (held_packet packet interface)
  held-Waits f =
      let whole : slice packet 0 (length packet) ≡ packet =
        take_all (length packet) packet (omega arith) in
      record {
        octets = rw whole f.octets;
        whole = rw whole refl;
        long = rw whole f.long;
        alive = rw whole f.alive;
        bound_for = rw whole refl;
      }

  asked-releases :
      IsForwarded sr packet rt i
      → IsReply sr reply interface' (wanted packet) i'
      → IsQueue sr.cache.next_address sr.cache.requests
      → Free sr.cache.entries
      → sr_arpcache_lookup sr.cache (wanted packet) ≡ none
      → find_request sr.cache.requests (wanted packet) ≡ none
      → arp_packet env fuel now' reply interface'
          (length reply)
          (asked env now packet interface sr i)
        ≡ ok (
          tt,
          sent_on env
              (settled env now now' packet interface reply sr i)
              (forward_packet i (mapping (get arp_hdr reply 14).ar_sha (wanted packet) now') packet)
              (length packet)
              i.name,
        )
  unfolding find_request sr_arpcache_lookup sr_arpcache_insert unlink_ip
  asked-releases f r queue free unknown unasked =
      let whole : slice packet 0 (length packet) ≡ packet =
        take_all (length packet) packet (omega arith) in
      let same : (get arp_hdr reply 14).ar_sip ≡ (wanted packet) = r.names in
      let here : ((wanted packet) == (wanted packet)) ≡ true = ground arith in
      let new : ArpReq =
        record (first_request sr.cache (wanted packet) (held_packet packet interface)) {
          sent = now;
          times_sent = 1;
        } in
      let queue' : IsQueue (suc sr.cache.next_address) (new ∷ sr.cache.requests) =
        (omega arith, find-Absent (wanted packet) sr.cache.requests unasked, queue) in
      arp_packet_releases env fuel now' reply interface' (asked env now packet interface sr i) i' i
        rt new r.octets r.long r.way r.ours r.replies queue' (rw (same, here) refl) free
        (rw same unknown) (rw same (held-Waits f), tt) (rw same f.route) f.out f.mac
      ∙ rw (same, whole, here) refl

  -- A frame that is to be forwarded, to an address that the cache does not know and that no packet
  -- waits for, in second 2 or later, with the queue in order and a free slot in the cache; and later,
  -- with nothing between them, the ARP reply for that address to the address of the interface that it
  -- comes in by. The two calls of `sr_handlepacket` return, and what they did is this: an ARP request
  -- for the address went out, then the frame, rewritten as `forward_packet` says for the Ethernet
  -- address of the reply; both on the interface of the route, and both are logged; the cache knows the
  -- address and the queue is as before.
  pub handlepacket-resolves :
      IsForwarded sr packet rt i
      → IsReply sr reply interface' (wanted packet) i'
      → IsQueue sr.cache.next_address sr.cache.requests
      → Free sr.cache.entries
      → sr_arpcache_lookup sr.cache (wanted packet) ≡ none
      → find_request sr.cache.requests (wanted packet) ≡ none
      → 1 < now
      → (sr_handlepacket env fuel now packet (length packet) interface
            >> sr_handlepacket env fuel now' reply (length reply) interface')
          sr
        ≡ ok (
          tt,
          sent_on env
              (settled env now now' packet interface reply sr i)
              (forward_packet i (mapping (get arp_hdr reply 14).ar_sha (wanted packet) now') packet)
              (length packet)
              i.name,
        )
  handlepacket-resolves f r queue free unknown unasked late =
      let forwards =
        handlepacket-forwards env fuel now packet interface (length packet) sr f.octets f.long
          f.is_ip f.long f.holds f.elsewhere in
      let asks =
        packet_to_other_dest_asks env fuel now packet interface sr rt i f.octets f.long f.alive
          f.route unknown unasked late f.out f.mac f.ip_fits in
      let arp =
        handlepacket-arp env fuel now' reply (length reply) interface'
          (asked env now packet interface sr i) (omega (arith, r.long)) r.is_arp in
      rw (forwards ∙ asks) (arp ∙ asked-releases f r queue free unknown unasked)
