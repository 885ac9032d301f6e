-- ===== src/Router/Examples/Retries.antt =====
-- The theorems on `handle_arpreq`, at the request of the network and at one that was sent five times.
use internet_course.Base.{◌≡◌, refl, none, some, List, [], ◌∷◌, arith}
use internet_course.Base.Result.{ok, NotOk}
use internet_course.Cache.{SrPacket, ArpReq, update_request}
use internet_course.Router.{SrInstance}
use internet_course.Router.Examples.Network.{
  env, eth0, eth0-IsMac, frame, host_ip, host_route, pending, router, found_eth0, found_pending,
}
use internet_course.Router.Request.{arp_request_packet, handle_arpreq, find_address}
use internet_course.Router.Sending.{sent_on}
use internet_course.Router.Retrying.{counted, handle_arpreq_sends, handle_arpreq_never_gives_up}

handle_arpreq_sends_example :
    let sent = sent_on env router (arp_request_packet env eth0 pending.ip) 42 eth0.name in
    handle_arpreq env 0 12 1 (some host_route) router
    ≡ ok (
      tt,
      record sent {
        cache = record router.cache {
          requests =
              update_request 1
                (counted env 0 12 1 router pending found_pending)
                router.cache.requests;
        };
      },
    )
handle_arpreq_sends_example =
    handle_arpreq_sends env 0 12 1 router pending found_pending host_route eth0 (omega arith)
      (omega arith) found_eth0 eth0-IsMac (omega arith) (omega arith)

-- Two packets wait behind a request that was sent five times.
abbrev two_packets : List SrPacket
two_packets =
    record { buf = frame; len = 42; iface = eth0.name }
    ∷ record { buf = frame; len = 42; iface = eth0.name }
    ∷ []

abbrev tired : ArpReq
tired = record { address = 1; ip = host_ip; sent = 10; times_sent = 5; packets = two_packets }

abbrev tired_router : SrInstance
tired_router = record router {
  cache = record { entries = []; requests = tired ∷ []; next_address = 2 };
}

found_tired : find_address tired_router.cache.requests 1 ≡ some tired
unfolding find_address
found_tired = refl

handle_arpreq_never_gives_up_example : NotOk (handle_arpreq env 7 12 1 none tired_router)
handle_arpreq_never_gives_up_example =
    handle_arpreq_never_gives_up env 7 12 1 none tired_router tired (omega arith, tt, tt)
      found_tired (omega arith) (omega arith)
