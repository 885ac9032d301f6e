-- ===== src/Router/Retrying.antt =====
-- When `handle_arpreq` of 20100117_RouterAssign_1/router/sr_arp.c sends again, waits, and gives up.
use internet_course.Base.{
  ℕ, zero, suc, ◌+◌, ◌%◌, ◌^◌, ◌<◌, ◌≤◌, ◌≡◌, ◌∙◌, ap, sym, subst, refl, none, some, Option, List,
  [], ◌∷◌, length, replicate, take_all, arith,
}
use internet_course.Base.Result.{Cmd, Result, ok, fault, and_then, NotOk, NotOk-then, ◌>>◌}
use internet_course.Bytes.{slice, htons}
use internet_course.Protocol.Struct.{get, put, get-put, length-put, slice-put_before}
use internet_course.Protocol.Ether.{EthernetHdr, EthernetFits, ethernet_hdr}
use internet_course.Protocol.Arp.{ArpHdr, ArpFits, arp_hdr}
use internet_course.Iface.{SrIf, sr_get_interface}
use internet_course.Iface.Laws.{sr_get_interface_again}
use internet_course.Route.{SrRt}
use internet_course.Cache.{SrPacket, ArpReq, update_request, unlink_address, sr_arpreq_destroy}
use internet_course.Cache.Requests.{IsQueue}
use internet_course.Router.{SrInstance, Env, on_cache}
use internet_course.Router.Icmp.{deref_interface}
use internet_course.Router.Request.{
  arp_request_packet, arp_request_send, find_address, read_request, write_request, give_up_round,
  give_up, retry, handle_arpreq,
}
use internet_course.Router.Rewriting.{IsMac, IsMac-slice}
use internet_course.Router.Sending.{sr_send_packet_lem, sent_on}

module _ (env : Env) (i : SrIf) (mac : IsMac i.addr) (ip_fits : i.ip < 4294967296) (ip : ℕ)
    (fits : ip < 4294967296) where
  abbrev pub asking_ether : EthernetHdr
  asking_ether = record {
    ether_dhost = replicate 6 255;
    ether_shost = slice i.addr 0 6;
    ether_type = htons 0x0806;
  }

  abbrev pub asking_arp : ArpHdr
  asking_arp = record {
    ar_hrd = htons 1;
    ar_pro = htons 0x0800;
    ar_hln = 6;
    ar_pln = 4;
    ar_op = htons 1;
    ar_sha = slice i.addr 0 6;
    ar_sip = i.ip;
    ar_tha = replicate 6 255;
    ar_tip = ip;
  }

  asking_ether-Fits : EthernetFits asking_ether
  asking_ether-Fits = record {
    dhost_size = refl;
    shost_size = (IsMac-slice i.addr mac).six;
    dhost_bytes = omega arith;
    shost_bytes = (IsMac-slice i.addr mac).octets;
    type_fits = omega arith;
  }

  asking_arp-Fits : ArpFits asking_arp
  asking_arp-Fits = record {
    hrd_fits = omega arith;
    pro_fits = omega arith;
    hln_fits = omega arith;
    pln_fits = omega arith;
    op_fits = omega arith;
    sha_size = (IsMac-slice i.addr mac).six;
    sha_bytes = (IsMac-slice i.addr mac).octets;
    sip_fits = ip_fits;
    tha_size = refl;
    tha_bytes = omega arith;
    tip_fits = fits;
  }

  -- The block that `arp_request_send` sends from an interface with an Ethernet address of six
  -- bytes holds exactly an Ethernet broadcast and an ARP request for the address, from the
  -- interface's addresses.
  pub arp_request_packet_lem :
      let sent = arp_request_packet env i ip in
      (get ethernet_hdr sent 0 ≡ asking_ether)
      × (get arp_hdr sent 14 ≡ asking_arp)
      × (length sent ≡ 42)
  unfolding arp_request_packet
  arp_request_packet_lem =
      let outer = put ethernet_hdr (env.fresh 42) 0 asking_ether in
      let size : length outer ≡ 42 =
        length-put ethernet_hdr (env.fresh 42) 0 asking_ether ∙ env.fresh_size 42 in
      (
        ap ethernet_hdr.read (slice-put_before arp_hdr outer 14 0 14 asking_arp (omega arith))
            ∙ get-put ethernet_hdr (env.fresh 42) 0 asking_ether asking_ether-Fits
                (omega (arith, env.fresh_size 42)),
        get-put arp_hdr outer 14 asking_arp asking_arp-Fits (omega (arith, size)),
        length-put arp_hdr outer 14 asking_arp ∙ size,
      )

module _ (env : Env) (fuel now address : ℕ) (sr : SrInstance) (req : ArpReq)
    (queued : find_address sr.cache.requests address ≡ some req) where
  -- For a request in the queue nothing happens within a second of the last sending.
  pub handle_arpreq_waits :
      (dest_rt : Option SrRt)
      → now ≤ req.sent + 1
      → handle_arpreq env fuel now address dest_rt sr ≡ ok (tt, sr)
  unfolding handle_arpreq read_request
  handle_arpreq_waits dest_rt recent = ground arith

  -- The request after a sending.
  abbrev pub counted : ArpReq → ArpReq
  counted r = record r { sent = now; times_sent = (r.times_sent + 1) % 2 ^ 32 }

  -- For a request in the queue, more than a second after the last sending and before the fifth,
  -- one ARP request goes out on the route's interface, which is known and has an Ethernet address
  -- of six bytes; the time and the count are written, and nothing else changes.
  pub handle_arpreq_sends :
      (rt : SrRt) (i : SrIf)
      → req.sent + 1 < now
      → req.times_sent < 5
      → sr_get_interface sr.if_list rt.interface ≡ some i
      → IsMac i.addr
      → i.ip < 4294967296
      → req.ip < 4294967296
      → let sent = sent_on env sr (arp_request_packet env i req.ip) 42 i.name in
        handle_arpreq env fuel now address (some rt) sr
        ≡ ok (
          tt,
          record sent {
            cache = record sr.cache { requests = update_request address counted sr.cache.requests };
          },
        )
  unfolding handle_arpreq read_request write_request retry arp_request_send deref_interface
  handle_arpreq_sends rt i old few iface mac ip_fits fits =
      let made = arp_request_packet_lem env i mac ip_fits req.ip fits in
      let out =
        sr_send_packet_lem env (arp_request_packet env i req.ip) 42 i.name sr i
          (sr_get_interface_again sr.if_list rt.interface iface)
          (ap (λ e. e.ether_shost) made.0 ∙ take_all 6 i.addr (omega (arith, mac.six)))
          (omega arith) (omega (arith, made.2)) in
      ground (arith, out)

find_above :
    (bound : ℕ) (rs : List ArpReq) (address : ℕ)
    → IsQueue bound rs
    → bound ≤ address
    → find_address rs address ≡ none
unfolding find_address
find_above bound [] address q h = refl
find_above bound (r ∷ rs) address q h = ground (arith, find_above r.address rs address q.2)

-- A destroyed request is not in the queue.
find-unlink :
    (bound : ℕ) (rs : List ArpReq) (address : ℕ)
    → IsQueue bound rs
    → find_address (unlink_address rs address) address ≡ none
unfolding find_address unlink_address
find-unlink bound [] address q = refl
find-unlink bound (r ∷ rs) address q =
    ground (arith, find-unlink r.address rs address q.2, find_above r.address rs address q.2)

find_address-address :
    (rs : List ArpReq) (address : ℕ) {r : ArpReq}
    → find_address rs address ≡ some r
    → r.address ≡ address
unfolding find_address
find_address-address [] address h = cc
find_address-address (x ∷ rs) address {r} h =
    ground (arith, find_address-address rs address {r = r})

-- With two or more packets the loop never comes back: it does not move on.
give_up_stuck :
    (env : Env) (fuel ip : ℕ) (p q : SrPacket) (rest : List SrPacket) (sr : SrInstance)
    → NotOk (give_up env fuel ip (p ∷ q ∷ rest) sr)
unfolding give_up
give_up_stuck env zero ip p q rest sr = tt
give_up_stuck env (suc fuel) ip p q rest sr =
    NotOk-then (give_up_round env ip p) (give_up env fuel ip (p ∷ q ∷ rest)) sr
      (give_up_stuck env fuel ip p q rest)

module _ (env : Env) (fuel ip address : ℕ) (f : ArpReq → ArpReq) (sr : SrInstance)
    (q : IsQueue sr.cache.next_address sr.cache.requests) where
  abbrev give_up_all : List SrPacket → Cmd SrInstance (Unit {0})
  give_up_all packets =
      (give_up env fuel ip packets >> on_cache (λ c. (tt, sr_arpreq_destroy c address)))
      >> write_request address f

  give_up_all_stuck : (packets : List SrPacket) → NotOk (give_up_all packets sr)
  unfolding give_up write_request read_request sr_arpreq_destroy
  give_up_all_stuck [] = rw (find-unlink sr.cache.next_address sr.cache.requests address q) tt
  give_up_all_stuck (p ∷ []) = rw (find-unlink sr.cache.next_address sr.cache.requests address q) tt
  give_up_all_stuck (p ∷ p' ∷ rest) =
      stuck_front (give_up env fuel ip (p ∷ p' ∷ rest) sr) (give_up_stuck env fuel ip p p' rest sr)
    where
      stuck_front :
          (r : Result (Unit {0} × SrInstance))
          → NotOk r
          → NotOk (
              and_then
                (and_then r (λ _. on_cache (λ c. (tt {0}, sr_arpreq_destroy c address))))
                (λ _. write_request address f))
      stuck_front (ok a) h = absurd h
      stuck_front (fault e) h = tt

-- For a request in a queue in order that was sent five times, the last time more than a second
-- ago, the call never returns, whatever the fuel and the memory at the made-up address.
pub handle_arpreq_never_gives_up :
    (env : Env) (fuel now address : ℕ) (dest_rt : Option SrRt) (sr : SrInstance) (req : ArpReq)
    → IsQueue sr.cache.next_address sr.cache.requests
    → find_address sr.cache.requests address ≡ some req
    → req.sent + 1 < now
    → 5 ≤ req.times_sent
    → NotOk (handle_arpreq env fuel now address dest_rt sr)
handle_arpreq_never_gives_up env fuel now address dest_rt sr req q queued old many =
    subst NotOk (sym enters) (give_up_all_stuck env fuel req.ip address mark sr q req.packets)
  where
    mark : ArpReq → ArpReq
    mark r = record r { sent = now; times_sent = (r.times_sent + 1) % 2 ^ 32 }

    at : req.address ≡ address
    at = find_address-address sr.cache.requests address {r = req} queued

    enters :
        handle_arpreq env fuel now address dest_rt sr
        ≡ give_up_all env fuel req.ip address mark sr q req.packets sr
    enters = unfold handle_arpreq retry read_request in ground (arith, at)
