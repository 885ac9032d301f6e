-- ===== src/Router/Keepers/Output.antt =====
-- What sends and logs keeps every order that looks at neither.
use internet_course.Base.{ℕ, false, Option, List, ◌∷◌, length, leb, ltb}
use internet_course.Base.Result.{Result, ok, fault, out_of_bounds}
use internet_course.Base.Keep.{
  Order, Keeping, keep_bind, keep_then, keep_pure, keep_need, keep_if, keep_guard, keep_state,
}
use internet_course.Route.{SrRt}
use internet_course.Router.{SrInstance, Env}
use internet_course.Router.Send.{
  set_log, log_packet, write_message, sr_send_packet, sr_ether_addrs_match_interface,
}
use internet_course.Router.Icmp.{deref_interface}
use internet_course.Router.Request.{arp_request_packet, arp_request_send}

module _ (o : Order SrInstance)
    (quiet : (s : SrInstance) (wire : List (List ℕ)) (logfile : Option (List ℕ))
      → o.Keeps s (record s { wire = wire; logfile = logfile }))
    (env : Env) where
  set_log-Keeping_of : (r : Result (Option (List ℕ))) → Keeping o (set_log r)
  unfolding set_log
  set_log-Keeping_of (ok logfile) = record { run = λ s. quiet s s.wire logfile }
  set_log-Keeping_of (fault e) = record { run = λ s. tt }

  pub log-Keeping_of : (buf : List ℕ) (len : ℕ) → Keeping o (log_packet env buf len)
  unfolding log_packet
  log-Keeping_of buf len = record { run = λ s. (set_log-Keeping_of _).run s }

  message-Keeping_of : (message : List ℕ) → Keeping o (write_message env message)
  unfolding write_message
  message-Keeping_of message = record { run = λ s. quiet s (message ∷ s.wire) s.logfile }

  pub send-Keeping_of :
      (buf : List ℕ) (len : ℕ) (iface : List ℕ) → Keeping o (sr_send_packet env buf len iface)
  unfolding sr_send_packet
  send-Keeping_of buf len iface = keep_if o (ltb len 14) _ _ (keep_pure o false) (
      keep_then o _ _ (keep_guard o (leb len (length buf)) out_of_bounds) (
        keep_then o _ _ (log-Keeping_of buf len) (
          keep_bind o _ _ (keep_state o) λ sr.
            keep_if o (sr_ether_addrs_match_interface sr buf iface) _ _ (message-Keeping_of _)
              (keep_pure o false))))

  pub deref-Keeping_of : (name : List ℕ) → Keeping o (deref_interface name)
  unfolding deref_interface
  deref-Keeping_of name = keep_bind o _ _ (keep_state o) (λ sr. keep_need o _ _)

  pub request-Keeping_of : (ip : ℕ) (dest : Option SrRt) → Keeping o (arp_request_send env ip dest)
  unfolding arp_request_send
  request-Keeping_of ip dest = keep_bind o _ _ (keep_need o _ _) λ rt.
      keep_bind o _ _ (deref-Keeping_of rt.interface)
        λ i. send-Keeping_of (arp_request_packet env i ip) 42 i.name
