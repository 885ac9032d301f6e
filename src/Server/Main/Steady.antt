-- ===== src/Server/Main/Steady.antt =====
-- A read of a short frame by the main loop, whatever the frame holds.
use internet_course.Base.{
  ℕ, ◌≤◌, ◌≡◌, ◌∙◌, refl, ap, inl, inr, Bool-cases, Bool, true, false, ◌&&◌, some, List, ◌++◌, All,
  length, arith, ◌==◌, ltb, if◌then◌else◌,
}
use internet_course.Base.Result.{ok, ◌>>◌}
use internet_course.Bytes.{IsBytes, htons}
use internet_course.CString.{strncpy}
use internet_course.Protocol.Struct.{get}
use internet_course.Protocol.Ether.{ethernet_hdr}
use internet_course.Protocol.Arp.{arp_hdr}
use internet_course.Dump.Appending.{appended}
use internet_course.Iface.{SrIf, sr_get_interface}
use internet_course.Route.{SrRt, sr_verify_routing_table}
use internet_course.Cache.Requests.{IsQueue}
use internet_course.Router.{SrInstance}
use internet_course.Router.Send.{packet_message, log_packet}
use internet_course.Router.Ip.{ethertype_arp}
use internet_course.Router.Handle.{sr_handlepacket}
use internet_course.Router.Invariant.{sr_handlepacket_keeps}
use internet_course.Router.Filter.{request_for_other, sr_arp_req_not_for_us}
use internet_course.Router.Returning.Queue.{Short, Sound}
use internet_course.Router.Returning.Frames.{Able}
use internet_course.Router.Returning.Handling.{handlepacket-Handles}
use internet_course.Server.Socket.Stream.{content, Reliable}
use internet_course.Server.Session.{Session, World, one}
use internet_course.Server.Reader.{sr_read_from_server}
use internet_course.Server.Reader.Delivery.{delivered, frame-taken}
use internet_course.Server.Reader.Routing.{log_packet_lem, on_router_lem}

-- A frame with the name of the interface that it is for.
pub record Carried : Type 0 where
  pub frame : List ℕ
  pub name : List ℕ

-- The frame has 42 to 70 bytes and is for one of these interfaces.
pub record IsHandled (ifs : List SrIf) (m : Carried) : Type 0 where
  pub octets : IsBytes m.frame
  pub short : Short m.frame
  pub way : (i : SrIf) × (sr_get_interface ifs (strncpy m.name 16 ++ m.frame) ≡ some i)

-- The router is ready for frames in this second, and the socket for calls with this fuel.
pub record IsSteady (fuel now : ℕ) (ifs : List SrIf) (table : List SrRt) (s : Session)
    : Type 0 where
  pub interfaces : s.router.if_list ≡ ifs
  pub routes : s.router.routing_table ≡ table
  pub verified : sr_verify_routing_table s.router.if_list s.router.routing_table ≡ 0
  pub queue : IsQueue s.router.cache.next_address s.router.cache.requests
  pub sound : All (Sound now) s.router.cache.requests
  pub reliable : Reliable s.input
  pub enough : length s.input ≤ fuel

filter_ends :
    (sr : SrInstance) (frame interface : List ℕ) (i : SrIf)
    → Short frame
    → sr_get_interface sr.if_list interface ≡ some i
    → (b : Bool) × (sr_arp_req_not_for_us sr frame (length frame) interface ≡ ok b)
unfolding sr_arp_req_not_for_us request_for_other
filter_ends sr frame interface i short way =
    let long : ltb (length frame) 42 ≡ false = ground arith in
    let asks =
      ((get ethernet_hdr frame 0).ether_type == htons ethertype_arp)
      && ((get arp_hdr frame 14).ar_op == htons 1) in
    elim (Bool-cases asks) [
      | inl e ↦ (
        if (get arp_hdr frame 14).ar_tip == i.ip then false else true,
        rw (long, way, long, e) refl,
      )
      | inr e ↦ (false, rw (long, way, long, e) refl)
    ]

module _ (w : World) (fuel now : ℕ) (ifs : List SrIf) (table : List SrRt) where
  -- What happens to a frame that was taken off the stream.
  delivered_ends :
      (m : Carried) (s : Session) (b : Bool)
      → IsHandled ifs m
      → IsSteady fuel now ifs table s
      → (t : Session) × (delivered w fuel now m.frame (strncpy m.name 16 ++ m.frame) b s
          ≡ ok (one, t))
        × (t.input ≡ s.input)
        × IsSteady fuel now ifs table t
  delivered_ends m s true h steady = (s, refl, refl, steady)
  delivered_ends m s false h steady =
      let interface = strncpy m.name 16 ++ m.frame in
      let logged : SrInstance = record s.router {
        logfile = appended w.env.gettimeofday s.router.logfile m.frame (length m.frame);
      } in
      let able : Able now interface logged = record {
        way = (h.way.0, ap (λ l. sr_get_interface l interface) steady.interfaces ∙ h.way.1);
        verified = steady.verified;
        queue = steady.queue;
        sound = steady.sound;
      } in
      let (r, handled, same, able') =
        handlepacket-Handles w.env fuel now interface m.frame h.short logged able h.octets in
      (
        record s { router = r },
        on_router_lem
            (log_packet w.env m.frame (length m.frame)
              >> sr_handlepacket w.env fuel now m.frame (length m.frame) interface)
            s r (rw (log_packet_lem w.env m.frame s.router) handled),
        refl,
        record {
          interfaces = same ∙ steady.interfaces;
          routes =
              (sr_handlepacket_keeps w.env fuel now m.frame (length m.frame) interface logged r
                steady.queue handled).1
              ∙ steady.routes;
          verified = able'.verified;
          queue = able'.queue;
          sound = able'.sound;
          reliable = steady.reliable;
          enough = steady.enough;
        },
      )

  pub read_ends :
      (m : Carried) (more : List ℕ) (s : Session)
      → IsHandled ifs m
      → IsSteady fuel now ifs table s
      → content s.input ≡ packet_message m.frame (length m.frame) m.name ++ more
      → (t : Session) × (sr_read_from_server w fuel now s ≡ ok (one, t))
        × (content t.input ≡ more)
        × IsSteady fuel now ifs table t
  read_ends m more s h steady arrived =
      let interface = strncpy m.name 16 ++ m.frame in
      let (b, filtered) =
        filter_ends s.router m.frame interface h.way.0 h.short
          (ap (λ l. sr_get_interface l interface) steady.interfaces ∙ h.way.1) in
      let (rest, behind, still, shorter, ran) =
        frame-taken m.frame m.name (omega (arith, h.short.1)) w fuel now more s b steady.reliable
          steady.enough arrived filtered in
      let steady' : IsSteady fuel now ifs table (record s { input = rest }) = record {
        interfaces = steady.interfaces;
        routes = steady.routes;
        verified = steady.verified;
        queue = steady.queue;
        sound = steady.sound;
        reliable = still;
        enough = omega (arith, shorter, steady.enough);
      } in
      let (t, done, same, steady'') = delivered_ends m (record s { input = rest }) b h steady' in
      (t, ran ∙ done, ap content same ∙ behind, steady'')
