-- ===== src/Router/Keepers.antt =====
-- The messages and the retries of the router keep what `Keeping` names.
pub mod Output
use internet_course.Router.{SrInstance}
use internet_course.Router.Keepers.Output.{
  log-Keeping_of, send-Keeping_of, deref-Keeping_of, request-Keeping_of,
}
use internet_course.Base.{
  ℕ, zero, suc, ◌+◌, ◌≡◌, refl, false, Option, List, [], ◌∷◌, length, leb, ltb,
}
use internet_course.Route.{SrRt}
use internet_course.Cache.{SrPacket, ArpReq, sr_arpreq_destroy}
use internet_course.Cache.Requests.{unlink_address-IsQueue, update-IsQueue}
use internet_course.Router.{Env, on_cache}
use internet_course.Base.Result.{Result, ok, fault, out_of_bounds}
use internet_course.Router.Send.{
  set_log, log_packet, write_message, sr_send_packet, sr_ether_addrs_match_interface,
}
use internet_course.Router.Icmp.{
  ErrorKind, deref_interface, echo_reply, send_error, dest_host_unreach,
}
use internet_course.Router.Request.{
  arp_request_packet, arp_request_send, read_request, write_request, wild_lookup, give_up_round,
  give_up, retry, handle_arpreq,
}
use internet_course.Base.Keep.{
  Keeping, keep_bind, keep_then, keep_pure, keep_raise, keep_need, keep_if, keep_guard, keep_state,
}
use internet_course.Router.Keeping.{router_order, keep_cache}

module _ (env : Env) where
  output-Keeps :
      (s : SrInstance) (wire : List (List ℕ)) (logfile : Option (List ℕ))
      → router_order.Keeps s (record s { wire = wire; logfile = logfile })
  output-Keeps s wire logfile = record {
    interfaces = refl;
    routes = refl;
    cached = record { slots = refl; queue = λ q. q };
  }

  pub log-Keeping : (buf : List ℕ) (len : ℕ) → Keeping router_order (log_packet env buf len)
  log-Keeping = log-Keeping_of router_order output-Keeps env

  pub send-Keeping :
      (buf : List ℕ) (len : ℕ) (iface : List ℕ)
      → Keeping router_order (sr_send_packet env buf len iface)
  send-Keeping = send-Keeping_of router_order output-Keeps env

  pub deref-Keeping : (name : List ℕ) → Keeping router_order (deref_interface name)
  deref-Keeping = deref-Keeping_of router_order output-Keeps env

  pub echo-Keeping :
      (packet interface : List ℕ) (len : ℕ)
      → Keeping router_order (echo_reply env packet interface len)
  unfolding echo_reply
  echo-Keeping packet interface len = keep_then router_order _ _ (keep_guard router_order _ _) (
      keep_bind router_order _ _ (deref-Keeping interface) λ i.
        keep_bind router_order _ _ (send-Keeping _ len interface) (λ _. keep_pure router_order tt))

  pub error-Keeping :
      (kind : ErrorKind) (packet interface : List ℕ) (len : ℕ)
      → Keeping router_order (send_error env kind packet interface len)
  unfolding send_error
  error-Keeping kind packet interface len =
      keep_then router_order _ _ (keep_guard router_order _ _) (
        keep_bind router_order _ _ (deref-Keeping interface) λ i.
          keep_bind router_order _ _ (send-Keeping _ len interface)
            (λ _. keep_pure router_order tt))

  read-Keeping : (address : ℕ) → Keeping router_order (read_request address)
  unfolding read_request
  read-Keeping address =
      keep_bind router_order _ _ (keep_state router_order) (λ sr. keep_need router_order _ _)

  write-Keeping :
      (address : ℕ) (f : ArpReq → ArpReq)
      → ((r : ArpReq) → (f r).ip ≡ r.ip)
      → ((r : ArpReq) → (f r).address ≡ r.address)
      → Keeping router_order (write_request address f)
  unfolding write_request
  write-Keeping address f same_ip same_address =
      keep_bind router_order _ _ (read-Keeping address) λ req. keep_cache _ λ c. record {
        slots = refl;
        queue = update-IsQueue c.next_address address f c.requests same_ip same_address;
      }

  pub destroy-Keeping :
      (address : ℕ) → Keeping router_order (on_cache (λ c. (tt, sr_arpreq_destroy c address)))
  unfolding sr_arpreq_destroy
  destroy-Keeping address =
      keep_cache _ λ c. record {
        slots = refl;
        queue = unlink_address-IsQueue c.next_address address c.requests;
      }

  pub unreach-Keeping :
      (packet interface : List ℕ) (len : ℕ)
      → Keeping router_order (dest_host_unreach env packet interface len)
  unfolding dest_host_unreach
  unreach-Keeping packet interface len = error-Keeping _ packet interface len

  pub wild-Keeping : (ip : ℕ) → Keeping router_order (wild_lookup env ip)
  unfolding wild_lookup
  wild-Keeping ip = keep_bind router_order _ _ (keep_need router_order _ _) (λ ip_dst.
      keep_bind router_order _ _ (keep_state router_order) (λ sr. keep_pure router_order _))

  round-Keeping : (ip : ℕ) (p : SrPacket) → Keeping router_order (give_up_round env ip p)
  unfolding give_up_round
  round-Keeping ip p = keep_bind router_order _ _ (wild-Keeping ip) λ dest_rt.
      keep_bind router_order _ _ (keep_need router_order _ _)
        (λ rt. unreach-Keeping p.buf rt.interface p.len)

  give_up-Keeping :
      (fuel ip : ℕ) (ps : List SrPacket) → Keeping router_order (give_up env fuel ip ps)
  unfolding give_up
  give_up-Keeping zero ip [] = keep_pure router_order tt
  give_up-Keeping (suc fuel) ip [] = keep_pure router_order tt
  give_up-Keeping zero ip (p ∷ []) = keep_pure router_order tt
  give_up-Keeping (suc fuel) ip (p ∷ []) = keep_pure router_order tt
  give_up-Keeping zero ip (p ∷ q ∷ rest) = keep_raise router_order _
  give_up-Keeping (suc fuel) ip (p ∷ q ∷ rest) =
      keep_then router_order _ _ (round-Keeping ip p) (give_up-Keeping fuel ip (p ∷ q ∷ rest))

  request-Keeping :
      (ip : ℕ) (dest : Option SrRt) → Keeping router_order (arp_request_send env ip dest)
  request-Keeping = request-Keeping_of router_order output-Keeps env

  retry-Keeping :
      (fuel : ℕ) (req : ArpReq) (dest_rt : Option SrRt)
      → Keeping router_order (retry env fuel req dest_rt)
  unfolding retry
  retry-Keeping fuel req dest_rt =
      keep_if router_order (leb 5 req.times_sent) _ _
        (keep_then router_order _ _ (give_up-Keeping fuel req.ip req.packets)
          (destroy-Keeping req.address))
        (keep_then router_order _ _ (request-Keeping req.ip dest_rt) (keep_pure router_order tt))

  pub handle_arpreq-Keeping :
      (fuel now address : ℕ) (dest_rt : Option SrRt)
      → Keeping router_order (handle_arpreq env fuel now address dest_rt)
  unfolding handle_arpreq
  handle_arpreq-Keeping fuel now address dest_rt =
      keep_bind router_order _ _ (read-Keeping address) λ req.
        keep_if router_order (ltb (req.sent + 1) now) _ _
          (keep_then router_order _ _ (retry-Keeping fuel req dest_rt)
            (write-Keeping address _ (λ r. refl) (λ r. refl)))
          (keep_pure router_order tt)
