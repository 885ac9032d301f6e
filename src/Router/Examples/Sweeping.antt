-- ===== src/Router/Examples/Sweeping.antt =====
-- The theorem on the sweep, at the network, while two requests wait and one of them is due.
use internet_course.Base.{◌≡◌, refl, some, [], ◌∷◌, arith}
use internet_course.Base.Result.{ok}
use internet_course.Route.{longest_prefix_sum}
use internet_course.Cache.{ArpReq}
use internet_course.Router.{SrInstance, Env}
use internet_course.Router.Send.{packet_message}
use internet_course.Router.Request.{arp_request_packet}
use internet_course.Router.Sweep.{sr_arpcache_sweepreqs}
use internet_course.Router.Sweep.Queue.{sr_arpcache_sweepreqs_lem}
use internet_course.Router.Examples.Network.{
  env, eth0, eth0-IsMac, host_ip, host_route, pending, router, found_eth0,
}

-- The memory at every address holds 10.0.0.7.
abbrev mapped_env : Env
mapped_env = record env { peek = λ address. some host_ip }

-- Behind it lies the older request, which was sent in second 10.
abbrev recent : ArpReq
recent = record { address = 3; ip = host_ip; sent = 14; times_sent = 2; packets = [] }

abbrev crowded : SrInstance
crowded = record router {
  cache = record { entries = []; requests = recent ∷ pending ∷ []; next_address = 4 };
}

routed : longest_prefix_sum crowded.routing_table host_ip ≡ some host_route
unfolding longest_prefix_sum
routed = refl

sr_arpcache_sweepreqs_lem_example :
    sr_arpcache_sweepreqs mapped_env 0 2 15 crowded
    ≡ ok (
      tt,
      record crowded {
        wire = packet_message (arp_request_packet mapped_env eth0 pending.ip) 42 eth0.name ∷ [];
        cache = record crowded.cache {
          requests = recent ∷ record pending { sent = 15; times_sent = 2 } ∷ [];
        };
      },
    )
sr_arpcache_sweepreqs_lem_example =
    sr_arpcache_sweepreqs_lem mapped_env 15 eth0 0 2 host_ip crowded host_route recent
      (pending ∷ []) refl (omega arith, ((λ e. absurd (omega arith)), tt), (omega arith, tt, tt))
      ((omega arith, omega arith), ((omega arith, omega arith), tt)) (omega arith) refl routed
      found_eth0 eth0-IsMac (omega arith)
