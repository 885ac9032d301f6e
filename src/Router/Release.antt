-- ===== src/Router/Release.antt =====
-- An ARP reply sets free the packets that waited for it.
use internet_course.Base.{
  ℕ, ◌<◌, ◌≤◌, ◌≡◌, refl, ap, none, some, List, [], ◌∷◌, All, length, arith, true, false, leb, ◌==◌,
}
use internet_course.Base.Result.{ok}
use internet_course.Bytes.{IsBytes, slice, ntohs}
use internet_course.Bytes.Laws.{length-slice, slice-IsBytes}
use internet_course.Protocol.Struct.{get}
use internet_course.Protocol.Ip.{ip_hdr}
use internet_course.Protocol.Arp.{arp_hdr, read_arp}
use internet_course.Iface.{SrIf, sr_get_interface}
use internet_course.Route.{SrRt, longest_prefix_sum}
use internet_course.Cache.{
  SrPacket, ArpReq, ArpEntry, sr_arpcache_lookup, sr_arpcache_insert, sr_arpreq_destroy,
  find_request,
}
use internet_course.Cache.Entries.{Free, mapping, lookup-insert_self}
use internet_course.Cache.Requests.{IsQueue}
use internet_course.Cache.Requests.Unlinked.{unlink_address-unlink_ip}
use internet_course.Router.{SrInstance, Env}
use internet_course.Router.Icmp.{deref_interface}
use internet_course.Router.Forward.{forward_packet}
use internet_course.Router.Arp.{send_waiting, finish_request, arp_packet}
use internet_course.Router.Rewriting.{IsMac, IsMac-slice}
use internet_course.Router.Sending.{sent_on, packet_to_other_dest_forwards}

-- A packet that may be forwarded to the address.
pub record Waits (ip : ℕ) (p : SrPacket) : Type 0 where
  pub octets : IsBytes p.buf
  pub whole : p.len ≡ length p.buf
  pub long : 34 ≤ length p.buf
  pub alive : 1 < (get ip_hdr p.buf 14).ip_ttl
  pub bound_for : (get ip_hdr p.buf 14).ip_dst ≡ ip

module _ (j : SrIf) (entry : ArpEntry) where
  -- The router after these packets were sent, one after the other.
  abbrev pub released : Env → List SrPacket → SrInstance → SrInstance
  released env [] sr = sr
  released env (p ∷ ps) sr =
      released env ps (sent_on env sr (forward_packet j entry p.buf) (length p.buf) j.name)

  released-destroy :
      (env : Env) (ps : List SrPacket) (address : ℕ) (sr : SrInstance)
      → sr_arpreq_destroy sr.cache address ≡ sr.cache
      → record (released env ps sr) { cache = sr_arpreq_destroy (released env ps sr).cache address }
        ≡ released env ps sr
  released-destroy env [] address sr gone = ap (λ c. record sr { cache = c }) gone
  released-destroy env (p ∷ ps) address sr gone =
      released-destroy env ps address
        (sent_on env sr (forward_packet j entry p.buf) (length p.buf) j.name) gone

  module _ (env : Env) (fuel now : ℕ) (interface : List ℕ) (rt : SrRt) (ip : ℕ) (mac : IsMac j.addr)
      (mac' : IsMac entry.mac) where
    send_waiting_lem :
        (ps : List SrPacket) (sr : SrInstance)
        → All (Waits ip) ps
        → longest_prefix_sum sr.routing_table ip ≡ some rt
        → sr_arpcache_lookup sr.cache ip ≡ some entry
        → sr_get_interface sr.if_list rt.interface ≡ some j
        → send_waiting env fuel now interface ps sr ≡ ok (tt, released env ps sr)
    unfolding send_waiting
    send_waiting_lem [] sr waits route hop iface = refl
    send_waiting_lem (p ∷ ps) sr (w, waits) route hop iface =
        let first =
          packet_to_other_dest_forwards env fuel now p.buf interface sr rt entry j w.octets w.long
            w.alive (rw w.bound_for route) (rw w.bound_for hop) iface mac mac' in
        rw (w.whole, first)
          (send_waiting_lem ps (sent_on env sr (forward_packet j entry p.buf) (length p.buf) j.name)
            waits route hop iface)

module _ (env : Env) (fuel now : ℕ) (buf interface : List ℕ) (sr : SrInstance) (i j : SrIf)
    (rt : SrRt) (req : ArpReq) where
  -- The address that the reply names, and its mapping.
  abbrev pub answered : ℕ
  answered = (get arp_hdr buf 14).ar_sip

  abbrev pub learnt : ArpEntry
  learnt = mapping (get arp_hdr buf 14).ar_sha answered now

  sender-IsMac : IsBytes buf → 42 ≤ length buf → IsMac (get arp_hdr buf 14).ar_sha
  unfolding read_arp
  sender-IsMac bytes long = record {
    six = length-slice (slice buf 14 28) 8 6 (omega (arith, length-slice buf 14 28 (omega arith)));
    octets = slice-IsBytes (slice buf 14 28) 8 6 (slice-IsBytes buf 14 28 bytes);
  }

  -- An ARP reply of at least 42 bytes to the address of the interface that it came in by, for an
  -- address that packets wait for, with the queue in order, a free slot, no mapping of the address
  -- yet, a route to it and an interface with an Ethernet address of six bytes: the address is learnt,
  -- the request leaves the queue, and all the packets that waited, if each can be forwarded, are sent
  -- to the Ethernet address of the reply, rewritten as `forward_packet` says, in the order in which
  -- they lie in the queue; nothing else changes.
  pub arp_packet_releases :
      IsBytes buf
      → 42 ≤ length buf
      → sr_get_interface sr.if_list interface ≡ some i
      → (get arp_hdr buf 14).ar_tip ≡ i.ip
      → ntohs (get arp_hdr buf 14).ar_op ≡ 2
      → IsQueue sr.cache.next_address sr.cache.requests
      → find_request sr.cache.requests answered ≡ some req
      → Free sr.cache.entries
      → sr_arpcache_lookup sr.cache answered ≡ none
      → All (Waits answered) req.packets
      → longest_prefix_sum sr.routing_table answered ≡ some rt
      → sr_get_interface sr.if_list rt.interface ≡ some j
      → IsMac j.addr
      → arp_packet env fuel now buf interface (length buf) sr
        ≡ ok (
          tt,
          released j learnt env req.packets (record sr {
            cache = (sr_arpcache_insert sr.cache (get arp_hdr buf 14).ar_sha answered now).1;
          }),
        )
  unfolding arp_packet deref_interface finish_request sr_arpreq_destroy sr_arpcache_insert
  arp_packet_releases bytes long iface us replies queue waiting free unknown waits route out mac =
      let ahdr = get arp_hdr buf 14 in
      let cache' = (sr_arpcache_insert sr.cache ahdr.ar_sha answered now).1 in
      let enough : leb 42 (length buf) ≡ true = ground arith in
      let ours : (ahdr.ar_tip == i.ip) ≡ true = ground arith in
      let no_request : (ntohs ahdr.ar_op == 1) ≡ false = ground arith in
      let reply : (ntohs ahdr.ar_op == 2) ≡ true = ground arith in
      let hop = lookup-insert_self ahdr.ar_sha answered now sr.cache free unknown in
      let sent =
        send_waiting_lem j learnt env fuel now interface rt answered mac
          (IsMac-slice ahdr.ar_sha (sender-IsMac bytes long)) req.packets
          (record sr { cache = cache' }) waits route hop out in
      let gone =
        unlink_address-unlink_ip sr.cache.next_address answered sr.cache.requests {r = req} queue
          waiting in
      let out =
        released-destroy j learnt env req.packets req.address (record sr { cache = cache' })
          (ap (λ rs. record cache' { requests = rs }) gone) in
      rw (iface, enough, ours, no_request, reply, waiting, sent) (ap (λ s. ok (tt, s)) out)
