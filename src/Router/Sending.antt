-- ===== src/Router/Sending.antt =====
-- What goes out on the wire: a forwarded packet and the ICMP error messages.
use internet_course.Base.{
  ℕ, ◌<◌, ◌≤◌, ◌≡◌, ◌∙◌, ap, some, List, ◌∷◌, length, take_all, arith, bytes_eq, bytes_eq_refl,
}
use internet_course.Base.Result.{ok, fault, out_of_bounds}
use internet_course.Bytes.{IsBytes}
use internet_course.Protocol.Struct.{get}
use internet_course.Protocol.Ether.{ethernet_hdr}
use internet_course.Protocol.Ip.{ip_hdr}
use internet_course.Iface.{SrIf, sr_get_interface}
use internet_course.Iface.Laws.{sr_get_interface_again}
use internet_course.Dump.Appending.{appended, sr_log_packet_lem}
use internet_course.Route.{SrRt, longest_prefix_sum}
use internet_course.Cache.{ArpEntry, sr_arpcache_lookup}
use internet_course.Router.{SrInstance, Env}
use internet_course.Router.Send.{
  sr_send_packet, packet_message, log_packet, set_log, write_message,
  sr_ether_addrs_match_interface,
}
use internet_course.Router.Icmp.{ErrorKind, deref_interface, error_packet, send_error}
use internet_course.Router.Forward.{
  forward_packet, forward_or_queue, route_packet, packet_to_other_dest,
}
use internet_course.Router.Rewriting.{IsMac, forward_packet_lem}
use internet_course.Router.Errors.{length-error_packet}

-- The router after one more message, and one more record in its log.
abbrev pub sent_on : Env → SrInstance → List ℕ → ℕ → List ℕ → SrInstance
sent_on env sr buf len name = record sr {
  wire = packet_message buf len name ∷ sr.wire;
  logfile = appended env.gettimeofday sr.logfile buf len;
}

-- A frame with the source address of its interface goes out whole.
pub sr_send_packet_lem :
    (env : Env) (buf : List ℕ) (len : ℕ) (name : List ℕ) (sr : SrInstance) (i : SrIf)
    → sr_get_interface sr.if_list name ≡ some i
    → (get ethernet_hdr buf 0).ether_shost ≡ i.addr
    → 14 ≤ len
    → len ≤ length buf
    → sr_send_packet env buf len name sr ≡ ok (env.write_whole sr.wire, sent_on env sr buf len name)
unfolding sr_send_packet sr_ether_addrs_match_interface log_packet set_log write_message
sr_send_packet_lem env buf len name sr i found own long fits = ground (
  arith,
  ap (λ a. bytes_eq a i.addr) own,
  bytes_eq_refl i.addr,
  sr_log_packet_lem env.gettimeofday sr.logfile buf len fits,
)

-- More bytes than the block holds cannot be sent.
pub sr_send_packet_overrun :
    (env : Env) (buf : List ℕ) (len : ℕ) (name : List ℕ) (sr : SrInstance)
    → 14 ≤ len
    → length buf < len
    → sr_send_packet env buf len name sr ≡ fault out_of_bounds
unfolding sr_send_packet
sr_send_packet_overrun env buf len name sr long over = ground arith

module _ (env : Env) (fuel now : ℕ) (packet interface : List ℕ) (sr : SrInstance) (rt : SrRt)
    (entry : ArpEntry) (i : SrIf) where
  -- A packet of at least 34 bytes with a TTL above 1, a route, a known next hop and a known
  -- interface, both with Ethernet addresses of six bytes, is sent on that interface, rewritten as
  -- `forward_packet` says; nothing else changes.
  pub packet_to_other_dest_forwards :
      IsBytes packet
      → 34 ≤ length packet
      → 1 < (get ip_hdr packet 14).ip_ttl
      → longest_prefix_sum sr.routing_table (get ip_hdr packet 14).ip_dst ≡ some rt
      → sr_arpcache_lookup sr.cache (get ip_hdr packet 14).ip_dst ≡ some entry
      → sr_get_interface sr.if_list rt.interface ≡ some i
      → IsMac i.addr
      → IsMac entry.mac
      → packet_to_other_dest env fuel now packet interface (length packet) sr
        ≡ ok (tt, sent_on env sr (forward_packet i entry packet) (length packet) i.name)
  unfolding packet_to_other_dest route_packet forward_or_queue deref_interface
  packet_to_other_dest_forwards bytes long ttl route hop iface mac mac' =
      let made = forward_packet_lem i mac entry mac' packet bytes long in
      let out =
        sr_send_packet_lem env (forward_packet i entry packet) (length packet) i.name sr i
          (sr_get_interface_again sr.if_list rt.interface iface)
          (ap (λ e. e.ether_shost) made.0 ∙ take_all 6 i.addr (omega (arith, mac.six)))
          (omega arith) (omega (arith, made.4)) in
      ground (arith, out)

module _ (env : Env) (kind : ErrorKind) (packet interface : List ℕ) (len : ℕ) (sr : SrInstance)
    (i : SrIf) where
  -- A packet of at least 42 bytes that came with a length above 70, by a known interface, makes
  -- the sender of an error message read past the end of its block of 70 bytes.
  pub send_error_overrun :
      42 ≤ length packet
      → 70 < len
      → sr_get_interface sr.if_list interface ≡ some i
      → send_error env kind packet interface len sr ≡ fault out_of_bounds
  unfolding send_error deref_interface
  send_error_overrun long over iface = ground (
    arith,
    length-error_packet env kind i packet,
    sr_send_packet_overrun env (error_packet env kind i packet) len interface sr,
  )
