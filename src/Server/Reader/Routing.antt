-- ===== src/Server/Reader/Routing.antt =====
-- From the stream to the wire: a frame that comes in a message leaves in another.
use internet_course.Base.{
  ℕ, ◌+◌, ◌≤◌, ◌≡◌, refl, ap, ◌∙◌, Bool-cases, inl, inr, false, some, List, ◌++◌, length, arith,
  ◌==◌,
}
use internet_course.Base.Result.{ok, pure, Cmd, ◌>>◌}
use internet_course.Bytes.{ntohs, htons}
use internet_course.Protocol.Struct.{get}
use internet_course.Protocol.Ether.{ethernet_hdr}
use internet_course.Dump.Appending.{appended, sr_log_packet_lem}
use internet_course.Iface.{SrIf, sr_get_interface}
use internet_course.Route.{SrRt}
use internet_course.Cache.{ArpEntry, sr_arpcache_lookup}
use internet_course.Router.{SrInstance, Env}
use internet_course.Router.Send.{packet_message, log_packet, set_log}
use internet_course.Router.Forward.{forward_packet}
use internet_course.Router.Filter.{request_for_other, sr_arp_req_not_for_us}
use internet_course.Router.Ip.{ethertype, ethertype_ip, ethertype_arp}
use internet_course.Router.Handle.{sr_handlepacket}
use internet_course.Router.Rewriting.{IsMac}
use internet_course.Router.Dispatch.{handlepacket-forwards}
use internet_course.Router.Sending.{sent_on, packet_to_other_dest_forwards}
use internet_course.Router.Resolving.{IsForwarded, wanted}
use internet_course.Server.Socket.{Event}
use internet_course.Server.Socket.Stream.{content, Reliable}
use internet_course.Server.Session.{Session, World, one, on_router}
use internet_course.Server.Reader.{sr_read_from_server}
use internet_course.Server.Reader.Delivery.{named, delivered, sr_read_from_server-frame}

-- The filter of ARP requests lets IP packets pass.
not_for_us-ip :
    (sr : SrInstance) (packet interface : List ℕ) (k : SrIf)
    → ethertype packet ≡ ethertype_ip
    → sr_get_interface sr.if_list interface ≡ some k
    → sr_arp_req_not_for_us sr packet (length packet) interface ≡ ok false
unfolding sr_arp_req_not_for_us request_for_other
not_for_us-ip sr packet interface k ip known =
    elim (Bool-cases ((get ethernet_hdr packet 0).ether_type == htons ethertype_arp)) [
      | inl e ↦
          let arp : (get ethernet_hdr packet 0).ether_type ≡ htons ethertype_arp = ground arith in
          absurd (omega (arith, ap ntohs arp, ip))
      | inr e ↦ ground arith
    ]

pub log_packet_lem :
    (env : Env) (buf : List ℕ) (sr : SrInstance)
    → log_packet env buf (length buf) sr
      ≡ ok (tt, record sr { logfile = appended env.gettimeofday sr.logfile buf (length buf) })
unfolding log_packet set_log
log_packet_lem env buf sr =
    rw (sr_log_packet_lem env.gettimeofday sr.logfile buf (length buf) (omega arith)) refl

pub on_router_lem :
    (m : Cmd SrInstance (Unit {0})) (s : Session) (r : SrInstance)
    → m s.router ≡ ok (tt, r)
    → (on_router m >> pure one) s ≡ ok (one, record s { router = r })
on_router_lem m s r h = rw (on_router, h) refl

module _ (w : World) (fuel now : ℕ) (frame name more : List ℕ) (small : 24 + length frame ≤ 10000)
    (s : Session) (rt : SrRt) (entry : ArpEntry) (i k : SrIf) where
  -- The router when the frame is in its log.
  abbrev pub logged : SrInstance
  logged = record s.router {
    logfile = appended w.env.gettimeofday s.router.logfile frame (length frame);
  }

  frame-delivered :
      (rest : List Event)
      → IsForwarded s.router frame rt i
      → sr_arpcache_lookup s.router.cache (wanted frame) ≡ some entry
      → IsMac entry.mac
      → delivered w fuel now frame (named frame name small) false (record s { input = rest })
        ≡ ok (
          one,
          record s {
            input = rest;
            router = sent_on w.env logged (forward_packet i entry frame) (length frame) i.name;
          },
        )
  frame-delivered rest f hop mac' =
      let interface = named frame name small in
      let forwards =
        handlepacket-forwards w.env fuel now frame interface (length frame) logged f.octets f.long
          f.is_ip f.long f.holds f.elsewhere in
      let sent =
        packet_to_other_dest_forwards w.env fuel now frame interface logged rt entry i f.octets
          f.long f.alive f.route hop f.out f.mac mac' in
      on_router_lem
        (log_packet w.env frame (length frame)
          >> sr_handlepacket w.env fuel now frame (length frame) interface)
        (record s { input = rest })
        (sent_on w.env logged (forward_packet i entry frame) (length frame) i.name)
        (rw (log_packet_lem w.env frame s.router) (forwards ∙ sent))

  -- The message for a frame of at most 9976 bytes, from an interface of the router, at the front of
  -- the stream and cut into pieces anyhow, of which there are at most as many as the fuel; the frame is
  -- an IP packet that is to be forwarded, and its next hop is in the cache. `sr_read_from_server` takes
  -- the message off the stream and returns 1; the router has written one message, which carries the
  -- frame as `forward_packet` rewrites it, for the interface of the route; the frame as it came and the
  -- frame that was sent are in its log, in this order; nothing else changes.
  pub sr_read_from_server-forwards :
      Reliable s.input
      → length s.input ≤ fuel
      → content s.input ≡ packet_message frame (length frame) name ++ more
      → sr_get_interface s.router.if_list (named frame name small) ≡ some k
      → IsForwarded s.router frame rt i
      → sr_arpcache_lookup s.router.cache (wanted frame) ≡ some entry
      → IsMac entry.mac
      → (rest : List Event) × (content rest ≡ more)
        × (sr_read_from_server w fuel now s
            ≡ ok (
              one,
              record s {
                input = rest;
                router = sent_on w.env logged (forward_packet i entry frame) (length frame) i.name;
              },
            ))
  sr_read_from_server-forwards reliable enough arrived known f hop mac' =
      let passes = not_for_us-ip s.router frame (named frame name small) k f.is_ip known in
      let (rest, behind, ran) =
        sr_read_from_server-frame frame name small w fuel now more s false reliable enough arrived
          passes in
      (rest, behind, ran ∙ frame-delivered rest f hop mac')
