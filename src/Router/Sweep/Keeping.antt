-- ===== src/Router/Sweep/Keeping.antt =====
-- A round of the time-out thread keeps what `Router.Keeping` names.
use internet_course.Base.{ℕ, zero, suc, Option, List, [], ◌∷◌}
use internet_course.Base.Keep.{
  Keeping, keep_bind, keep_then, keep_pure, keep_raise, keep_need, keep_state,
}
use internet_course.Route.{SrRt}
use internet_course.Cache.{ArpReq, expire_entries}
use internet_course.Router.{SrInstance, Env}
use internet_course.Base.Result.{Cmd}
use internet_course.Router.Keeping.{router_order, keep_cache, length-expire}
use internet_course.Router.Keepers.{wild-Keeping, handle_arpreq-Keeping}
use internet_course.Router.Sweep.{
  first_address, step_on, sweep_from, sweep_requests, sr_arpcache_sweepreqs, sr_arpcache_timeout,
}

first-Keeping : (rs : List ArpReq) → Keeping router_order (first_address rs)
unfolding first_address
first-Keeping [] = keep_raise router_order _
first-Keeping (r ∷ rest) = keep_pure router_order _

step-Keeping :
    (loop : ℕ → Cmd SrInstance (Unit {0})) (address : ℕ) (rs : List ArpReq)
    → ((a : ℕ) → Keeping router_order (loop a))
    → Keeping router_order (step_on loop address rs)
unfolding step_on
step-Keeping loop address [] h = keep_pure router_order tt
step-Keeping loop address (r ∷ rest) h = keep_bind router_order _ _ (keep_state router_order) λ sr.
    keep_bind router_order _ _ (keep_need router_order _ _)
      λ next. keep_bind router_order _ _ (first-Keeping next) h

module _ (env : Env) where
  from-Keeping :
      (fuel now : ℕ) (dest_rt : Option SrRt) (rounds address : ℕ)
      → Keeping router_order (sweep_from env fuel now dest_rt rounds address)
  unfolding sweep_from
  from-Keeping fuel now dest_rt zero address = keep_raise router_order _
  from-Keeping fuel now dest_rt (suc rounds) address =
      keep_bind router_order _ _ (keep_state router_order) λ sr.
        keep_bind router_order _ _ (keep_need router_order _ _) λ tested.
          keep_then router_order _ _ (handle_arpreq-Keeping env fuel now address dest_rt)
            (step-Keeping _ address tested (λ a. from-Keeping fuel now dest_rt rounds a))

  requests-Keeping :
      (fuel rounds now : ℕ) (rs : List ArpReq)
      → Keeping router_order (sweep_requests env fuel rounds now rs)
  unfolding sweep_requests
  requests-Keeping fuel rounds now [] = keep_pure router_order tt
  requests-Keeping fuel rounds now (r ∷ rest) =
      keep_bind router_order _ _ (wild-Keeping env r.ip)
        λ dest_rt. from-Keeping fuel now dest_rt rounds r.address

  -- Whatever is in the queue: where the round returns, the interfaces, the routing table and the
  -- number of cache slots are as before, and a queue that was in order still is.
  pub timeout-Keeping :
      (fuel rounds curtime : ℕ) → Keeping router_order (sr_arpcache_timeout env fuel rounds curtime)
  unfolding sr_arpcache_timeout sr_arpcache_sweepreqs expire_entries
  timeout-Keeping fuel rounds curtime =
      keep_then router_order _ _
        (keep_cache (λ c. (tt, expire_entries c curtime))
          λ c. record { slots = length-expire curtime c.entries; queue = λ q. q })
        (keep_bind router_order _ _ (keep_state router_order)
          λ sr. requests-Keeping fuel rounds curtime sr.cache.requests)
