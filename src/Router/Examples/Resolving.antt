-- ===== src/Router/Examples/Resolving.antt =====
-- The theorem on a packet that waits for its next hop, at the network, while the cache knows nothing.
use internet_course.Base.{◌≡◌, refl, none, some, [], ◌∷◌, arith}
use internet_course.Base.Result.{ok, ◌>>◌}
use internet_course.Protocol.Ip.{read_ip}
use internet_course.Protocol.Arp.{read_arp}
use internet_course.Protocol.Ether.{read_ethernet}
use internet_course.Cache.{empty_entry, sr_arpcache_lookup, lookup_from, find_request, fill_slot}
use internet_course.Router.{SrInstance}
use internet_course.Router.Forward.{forward_packet}
use internet_course.Router.Handle.{sr_handlepacket}
use internet_course.Router.Sending.{sent_on}
use internet_course.Router.Resolving.{IsReply, asked, handlepacket-resolves}
use internet_course.Router.Examples.Network.{
  env, eth0, host_ip, host_route, pending, frame, frame-IsForwarded, router, found_eth0,
  pending-IsQueue,
}
use internet_course.Router.Examples.Releasing.{reply, reply-IsBytes, brought}

-- The router keeps a log, which holds nothing yet.
abbrev unknowing : SrInstance
unknowing = record router {
  cache = record {
    entries = empty_entry ∷ empty_entry ∷ [];
    requests = pending ∷ [];
    next_address = 2;
  };
  logfile = some [];
}

reply-IsReply : IsReply unknowing reply eth0.name host_ip eth0
unfolding read_ethernet read_arp
reply-IsReply = record {
  octets = reply-IsBytes;
  long = omega arith;
  is_arp = refl;
  way = found_eth0;
  ours = refl;
  replies = refl;
  names = refl;
}

not_known : sr_arpcache_lookup unknowing.cache host_ip ≡ none
unfolding sr_arpcache_lookup lookup_from
not_known = refl

not_asked : find_request unknowing.cache.requests host_ip ≡ none
unfolding find_request
not_asked = refl

handlepacket-resolves_example :
    (sr_handlepacket env 0 11 frame 42 eth0.name >> sr_handlepacket env 0 12 reply 42 eth0.name)
      unknowing
    ≡ ok (
      tt,
      sent_on env
          (record (asked env 11 frame eth0.name unknowing eth0) {
            cache = record {
              entries = brought ∷ empty_entry ∷ [];
              requests = pending ∷ [];
              next_address = 3;
            };
          })
          (forward_packet eth0 brought frame)
          42
          eth0.name,
    )
unfolding read_ip read_arp fill_slot
handlepacket-resolves_example =
    handlepacket-resolves env 0 11 12 frame eth0.name reply eth0.name unknowing host_route eth0 eth0
      (frame-IsForwarded unknowing.cache (some [])) reply-IsReply pending-IsQueue tt not_known
      not_asked (omega arith)
