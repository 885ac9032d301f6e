-- ===== src/Router/Examples/Racing.antt =====
-- The theorem on a round of the thread behind the queueing of a packet, at the network.
use internet_course.Base.{◌≡◌, refl, some, arith}
use internet_course.Base.Result.{ok}
use internet_course.Cache.{
  ArpReq, sr_arpcache_queuereq, find_or_add, add_if_missing, add_packet, update_request,
  find_request, expire, expire_entries,
}
use internet_course.Route.{longest_prefix_sum}
use internet_course.Router.{SrInstance, Env}
use internet_course.Router.Request.{find_address, read_request, wild_lookup, handle_arpreq}
use internet_course.Router.Sweep.{
  next_requests, first_address, step_on, sweep_from, sweep_requests, sr_arpcache_sweepreqs,
  sr_arpcache_timeout,
}
use internet_course.Router.Sweep.Pointers.{queuereq-timeout}
use internet_course.Router.Examples.Network.{env, eth0, frame, host_ip, router, pending-IsQueue}

-- The memory at every address holds 10.0.0.7.
abbrev mapped_env : Env
mapped_env = record env { peek = λ address. some host_ip }

abbrev queued : SrInstance
queued = record router { cache = (sr_arpcache_queuereq router.cache host_ip frame 42 eth0.name).1 }

ran : sr_arpcache_timeout mapped_env 3 5 1 queued ≡ ok (tt, queued)
unfolding sr_arpcache_timeout expire expire_entries sr_arpcache_sweepreqs sweep_requests wild_lookup
    sweep_from step_on first_address next_requests handle_arpreq read_request find_address
    longest_prefix_sum sr_arpcache_queuereq find_or_add add_if_missing add_packet update_request
    find_request
ran = refl

queuereq-timeout_example :
    (r : ArpReq) × (read_request
        (sr_arpcache_queuereq router.cache host_ip frame 42 eth0.name).0
        queued
      ≡ ok (r, queued))
queuereq-timeout_example =
    queuereq-timeout mapped_env 3 5 1 host_ip frame eth0.name 42 router queued pending-IsQueue
      (omega arith) ran
