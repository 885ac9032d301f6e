-- ===== src/Router/Returning.antt =====
-- The handling of a frame comes to an end.
pub mod Queue
pub mod Frames
pub mod Handling
pub mod Sweeping
use internet_course.Base.{
  ℕ, suc, ap, ◌+◌, ◌<◌, ◌≤◌, ◌≡◌, refl, sym, subst, inl, inr, Bool-cases, Option-cases, Bool,
  Option, none, some, true, false, List, [], ◌∷◌, All, length, arith, if◌then◌else◌, ◌==◌, leb, ltb,
}
use internet_course.Base.Result.{Cmd, ok}
use internet_course.Protocol.Struct.{get}
use internet_course.Dump.Appending.{appended, sr_log_packet_lem}
use internet_course.Iface.{SrIf, sr_get_interface}
use internet_course.Router.{SrInstance, Env}
use internet_course.Router.Send.{
  packet_message, sr_send_packet, log_packet, set_log, write_message,
  sr_ether_addrs_match_interface,
}
use internet_course.Router.Icmp.{
  ErrorKind, deref_interface, error_packet, send_error, time_exceeded, dest_host_unreach,
  port_unreach, echo_reply,
}
use internet_course.Router.Errors.{length-error_packet}
use internet_course.Protocol.Ether.{ethernet_hdr}
use internet_course.Protocol.Ip.{ip_hdr}
use internet_course.Protocol.Icmp.{icmp_hdr}
use internet_course.Protocol.Arp.{arp_hdr}
use internet_course.Protocol.Struct.{length-put}
use internet_course.Base.{◌∙◌, ◌%◌, ◌^◌}
use internet_course.Route.{SrRt}
use internet_course.Route.Laws.{HasInterface}
use internet_course.Cache.{ArpReq, update_request}
use internet_course.Router.Icmp.{echo_reply_packet}
use internet_course.Router.Request.{
  find_address, arp_request_packet, arp_request_send, read_request, write_request, retry,
  handle_arpreq,
}
use internet_course.Router.Returning.Queue.{Short, Calm, Sound, update-Sound, find_address-Sound}

-- The router with this output.
abbrev pub output : SrInstance → List (List ℕ) → Option (List ℕ) → SrInstance
output sr wire logfile = record sr { wire = wire; logfile = logfile }

-- A command that returns, and changes the output at most.
abbrev pub Outputs : {A : Type 0} → Cmd SrInstance A → SrInstance → Type 0
Outputs {A} m sr =
    (a : A) × (wire : List (List ℕ)) × (logfile : Option (List ℕ)) × (m sr
      ≡ ok (a, output sr wire logfile))

pub send-Outputs :
    (env : Env) (buf : List ℕ) (len : ℕ) (name : List ℕ) (sr : SrInstance)
    → len ≤ length buf
    → Outputs (sr_send_packet env buf len name) sr
unfolding sr_send_packet log_packet set_log write_message
send-Outputs env buf len name sr fits =
    let whole : leb len (length buf) ≡ true = ground arith in
    let log = sr_log_packet_lem env.gettimeofday sr.logfile buf len fits in
    let kept = appended env.gettimeofday sr.logfile buf len in
    elim (Bool-cases (ltb len 14)) [
      | inl e ↦ (false, sr.wire, sr.logfile, rw e refl)
      | inr e ↦
          elim (Bool-cases
            (sr_ether_addrs_match_interface (record sr { logfile = kept }) buf name)) [
              | inl own ↦ (
                env.write_whole sr.wire,
                packet_message buf len name ∷ sr.wire,
                kept,
                rw (e, whole, log, own) refl,
              )
              | inr other ↦ (false, sr.wire, kept, rw (e, whole, log, other) refl)
            ]
    ]

module _ (env : Env) (sr : SrInstance) (packet interface : List ℕ) (i : SrIf)
    (way : sr_get_interface sr.if_list interface ≡ some i) where
  pub error-Outputs :
      (kind : ErrorKind)
      → Short packet
      → Outputs (send_error env kind packet interface (length packet)) sr
  unfolding send_error deref_interface
  error-Outputs kind short =
      let enough : leb 42 (length packet) ≡ true = ground arith in
      let (sent, wire, logfile, e) =
        send-Outputs env (error_packet env kind i packet) (length packet) interface sr
          (omega (arith, length-error_packet env kind i packet, short.1)) in
      (tt, wire, logfile, rw (enough, way, e) refl)

  pub time_exceeded-Outputs :
      Short packet → Outputs (time_exceeded env packet interface (length packet)) sr
  unfolding time_exceeded
  time_exceeded-Outputs =
      error-Outputs (record { icmp_type = 11; icmp_code = 0; new_ttl = λ ttl. (ttl + 255) % 256 })

  pub dest_host_unreach-Outputs :
      Short packet → Outputs (dest_host_unreach env packet interface (length packet)) sr
  unfolding dest_host_unreach
  dest_host_unreach-Outputs =
      error-Outputs (record { icmp_type = 3; icmp_code = 1; new_ttl = λ ttl. ttl })

  pub port_unreach-Outputs :
      Short packet → Outputs (port_unreach env packet interface (length packet)) sr
  unfolding port_unreach
  port_unreach-Outputs =
      error-Outputs (record { icmp_type = 3; icmp_code = 3; new_ttl = λ ttl. ttl })

  pub echo-Outputs : Short packet → Outputs (echo_reply env packet interface (length packet)) sr
  unfolding echo_reply deref_interface echo_reply_packet
  echo-Outputs short =
      let enough : leb 38 (length packet) ≡ true = ground arith in
      let size : length (echo_reply_packet i packet) ≡ length packet =
        length-put icmp_hdr _ 34 _
        ∙ (length-put ip_hdr _ 14 _ ∙ length-put ethernet_hdr packet 0 _) in
      let (sent, wire, logfile, e) =
        send-Outputs env (echo_reply_packet i packet) (length packet) interface sr
          (omega (arith, size)) in
      (tt, wire, logfile, rw (enough, way, e) refl)

-- A command that returns, and changes the output and the requests at most, which stay sound.
abbrev pub Asks : ℕ → Cmd SrInstance (Unit {0}) → SrInstance → Type 0
Asks now m sr =
    (wire : List (List ℕ)) × (logfile : Option (List ℕ)) × (requests : List ArpReq) × (m sr
      ≡ ok
          (tt, record (output sr wire logfile) { cache = record sr.cache { requests = requests } }))
    × All (Sound now) requests

-- A command that returns, and changes the output and one request at most, which stays sound.
abbrev pub Turns : ℕ → ℕ → Cmd SrInstance (Unit {0}) → SrInstance → Type 0
Turns now address m sr =
    (wire : List (List ℕ)) × (logfile : Option (List ℕ)) × (f : ArpReq → ArpReq) × ((x : ArpReq)
      → (f x).address ≡ x.address)
    × ((x : ArpReq) → (f x).ip ≡ x.ip)
    × ((x : ArpReq) → Sound now x → Sound now (f x))
    × (m sr
        ≡ ok (
          tt,
          record (output sr wire logfile) {
            cache = record sr.cache { requests = update_request address f sr.cache.requests };
          },
        ))

update_same : (address : ℕ) (rs : List ArpReq) → update_request address (λ x. x) rs ≡ rs
unfolding update_request
update_same address [] = refl
update_same address (r ∷ rs) = elim (Bool-cases (r.address == address)) [
  | inl e ↦ rw e refl
  | inr e ↦ rw e (ap (◌∷◌ r) (update_same address rs))
]

module _ (env : Env) (fuel now address : ℕ) (rt : SrRt) (sr : SrInstance) (r : ArpReq)
    (found : find_address sr.cache.requests address ≡ some r)
    (sound : All (Sound now) sr.cache.requests) where
  abbrev counted : ArpReq → ArpReq
  counted x = record x { sent = now; times_sent = (x.times_sent + 1) % 2 ^ 32 }

  -- What happens to the request at the address, and to no other.
  pub handle_arpreq-Turns :
      HasInterface sr.if_list rt
      → Turns now address (handle_arpreq env fuel now address (some rt)) sr
  unfolding handle_arpreq read_request retry arp_request_send deref_interface write_request
      arp_request_packet
  handle_arpreq-Turns (i, known) =
      let calm = (find_address-Sound now sr.cache.requests address {r = r} sound found).0 in
      let size : length (arp_request_packet env i r.ip) ≡ 42 =
        length-put arp_hdr _ 14 _ ∙ (length-put ethernet_hdr _ 0 _ ∙ env.fresh_size 42) in
      let (sent, wire, logfile, e) =
        send-Outputs env (arp_request_packet env i r.ip) 42 i.name sr (omega (arith, size)) in
      elim (Bool-cases (ltb (r.sent + 1) now)) [
        | inr recent ↦ (
          sr.wire,
          sr.logfile,
          λ x. x,
          λ x. refl,
          λ x. refl,
          λ x s. s,
          rw (found, recent, update_same address sr.cache.requests) refl,
        )
        | inl due ↦
            let few : leb 5 r.times_sent ≡ false = elim calm [
              | inl h ↦ ground arith
              | inr h ↦ ground arith
            ] in
            (
              wire,
              logfile,
              counted,
              λ x. refl,
              λ x. refl,
              λ x s. (inl (omega arith), s.1),
              rw (found, due, few, known, e, found) refl,
            )
      ]

  pub handle_arpreq-Asks :
      HasInterface sr.if_list rt → Asks now (handle_arpreq env fuel now address (some rt)) sr
  handle_arpreq-Asks known =
      let (wire, logfile, f, at, ip, keeps, e) = handle_arpreq-Turns known in
      (wire, logfile, _, e, update-Sound now address f sr.cache.requests keeps sound)
