-- ===== src/Router/Returning/Frames.antt =====
-- What every short frame leaves behind.
use internet_course.Base.{
  ℕ, ◌≡◌, ◌∙◌, refl, ap, subst, inl, inr, Bool-cases, Option-cases, Option, none, some, true, List,
  All, length, arith, leb,
}
use internet_course.Base.Result.{Cmd, ok}
use internet_course.Base.Keep.{Keeping, After}
use internet_course.Protocol.Struct.{get, length-put}
use internet_course.Protocol.Ether.{ethernet_hdr}
use internet_course.Protocol.Ip.{ip_hdr}
use internet_course.Iface.{SrIf, sr_get_interface}
use internet_course.Route.{SrRt, sr_verify_routing_table, longest_prefix_sum}
use internet_course.Route.Laws.{HasInterface, longest_prefix_sum-HasInterface}
use internet_course.Cache.{ArpEntry, sr_arpcache_lookup, sr_arpcache_queuereq}
use internet_course.Cache.Requests.{IsQueue}
use internet_course.Router.{SrInstance, Env}
use internet_course.Router.Icmp.{deref_interface}
use internet_course.Router.Forward.{
  forward_packet, forward_or_queue, route_packet, packet_to_other_dest,
}
use internet_course.Router.Keeping.{Keeps, router_order}
use internet_course.Router.Invariant.{other-Keeping}
use internet_course.Router.Returning.{
  output, Outputs, send-Outputs, time_exceeded-Outputs, dest_host_unreach-Outputs,
  handle_arpreq-Asks,
}
use internet_course.Router.Returning.Queue.{Short, Sound, queuereq-Sound}

-- The interface that the frame came in by is there, the routing table is checked, and the queue is in
-- order and sound.
pub record Able (now : ℕ) (interface : List ℕ) (s : SrInstance) : Type 0 where
  pub way : (i : SrIf) × (sr_get_interface s.if_list interface ≡ some i)
  pub verified : sr_verify_routing_table s.if_list s.routing_table ≡ 0
  pub queue : IsQueue s.cache.next_address s.cache.requests
  pub sound : All (Sound now) s.cache.requests

-- The command returns, and the queue is sound behind it.
abbrev pub Ends : ℕ → Cmd SrInstance (Unit {0}) → SrInstance → Type 0
Ends now m s = (t : SrInstance) × (m s ≡ ok (tt, t)) × All (Sound now) t.cache.requests

abbrev pub Handles : ℕ → List ℕ → Cmd SrInstance (Unit {0}) → SrInstance → Type 0
Handles now interface m s =
    (t : SrInstance) × (m s ≡ ok (tt, t)) × (t.if_list ≡ s.if_list) × Able now interface t

Able-Keeps :
    (now : ℕ) (interface : List ℕ) (s t : SrInstance)
    → Able now interface s
    → Keeps s t
    → All (Sound now) t.cache.requests
    → Able now interface t
Able-Keeps now interface s t a k sound = record {
  way = (a.way.0, ap (λ l. sr_get_interface l interface) k.interfaces ∙ a.way.1);
  verified = rw (k.interfaces, k.routes) a.verified;
  queue = k.cached.queue a.queue;
  sound = sound;
}

pub Ends-Handles :
    (now : ℕ) (interface : List ℕ) (m : Cmd SrInstance (Unit {0})) (s : SrInstance)
    → Keeping router_order m
    → Able now interface s
    → Ends now m s
    → Handles now interface m s
Ends-Handles now interface m s kept a (t, e, sound) =
    let k : Keeps s t = subst (After router_order s) e (kept.run s) in
    (t, e, k.interfaces, Able-Keeps now interface s t a k sound)

Outputs-Ends :
    (now : ℕ) (m : Cmd SrInstance (Unit {0})) (s : SrInstance)
    → All (Sound now) s.cache.requests
    → Outputs m s
    → Ends now m s
Outputs-Ends now m s sound (a, wire, logfile, e) = (output s wire logfile, e, sound)

module _ (env : Env) (fuel now : ℕ) (packet interface : List ℕ) (short : Short packet)
    (sr : SrInstance) (able : Able now interface sr) where
  length-forward :
      (i : SrIf) (entry : ArpEntry) → length (forward_packet i entry packet) ≡ length packet
  unfolding forward_packet
  length-forward i entry = length-put ip_hdr _ 14 _ ∙ length-put ethernet_hdr packet 0 _

  forward-Ends :
      (rt : SrRt) (entry : Option ArpEntry)
      → HasInterface sr.if_list rt
      → Ends now (forward_or_queue env fuel now packet interface (length packet) rt entry) sr
  unfolding forward_or_queue deref_interface
  forward-Ends rt (some entry) (i, known) =
      let (sent, wire, logfile, e) =
        send-Outputs env (forward_packet i entry packet) (length packet) i.name sr
          (omega (arith, length-forward i entry)) in
      (output sr wire logfile, rw (known, e) refl, able.sound)
  forward-Ends rt none known =
      let whole : leb (length packet) (length packet) ≡ true = ground arith in
      let ip = (get ip_hdr packet 14).ip_dst in
      let queued = sr_arpcache_queuereq sr.cache ip packet (length packet) interface in
      let (r, found, sound) =
        queuereq-Sound now sr.cache ip packet interface able.queue able.sound short in
      let (wire, logfile, requests, e, after) =
        handle_arpreq-Asks env fuel now queued.0 rt (record sr { cache = queued.1 }) r found sound
          known in
      (
        record (output sr wire logfile) { cache = record queued.1 { requests = requests } },
        rw whole e,
        after,
      )

  pub other-Ends : Ends now (packet_to_other_dest env fuel now packet interface (length packet)) sr
  unfolding packet_to_other_dest route_packet
  other-Ends =
      let long : leb 34 (length packet) ≡ true = ground arith in
      let ip = (get ip_hdr packet 14).ip_dst in
      let (i, way) = able.way in
      elim (Bool-cases (leb (get ip_hdr packet 14).ip_ttl 1)) [
        | inl dead ↦
            let (a, wire, logfile, e) = time_exceeded-Outputs env sr packet interface i way short in
            (output sr wire logfile, rw (long, dead) e, able.sound)
        | inr alive ↦ elim (Option-cases (longest_prefix_sum sr.routing_table ip)) [
          | inl lost ↦
              let (a, wire, logfile, e) =
                dest_host_unreach-Outputs env sr packet interface i way short in
              (output sr wire logfile, rw (long, alive, lost) e, able.sound)
          | inr (rt, route) ↦
              let (t, e, sound) = forward-Ends rt (sr_arpcache_lookup sr.cache ip) (
                longest_prefix_sum-HasInterface sr.if_list sr.routing_table ip {r = rt}
                  able.verified route) in
              (t, rw (long, alive, route) e, sound)
        ]
      ]

  pub other-Handles :
      Handles now interface (packet_to_other_dest env fuel now packet interface (length packet)) sr
  other-Handles =
      Ends-Handles now interface _ sr (other-Keeping env fuel now packet interface (length packet))
        able other-Ends
