-- ===== src/Router/Examples/Releasing.antt =====
-- The theorem on ARP replies, at the network, while two packets for 10.0.0.7 wait.
use internet_course.Base.{ℕ, ◌≡◌, refl, true, none, some, List, [], ◌∷◌, arith}
use internet_course.Base.Result.{ok}
use internet_course.Bytes.{IsBytes}
use internet_course.Protocol.Ip.{read_ip}
use internet_course.Protocol.Arp.{read_arp}
use internet_course.Route.{longest_prefix_sum}
use internet_course.Cache.{
  SrPacket, ArpReq, ArpEntry, empty_entry, sr_arpcache_lookup, lookup_from, fill_slot, find_request,
  unlink_ip, sr_arpcache_insert,
}
use internet_course.Router.{SrInstance}
use internet_course.Router.Arp.{arp_packet}
use internet_course.Router.Release.{Waits, released, arp_packet_releases}
use internet_course.Router.Examples.Network.{
  octets-IsBytes, env, eth0, eth0-IsMac, host_mac, host_ip, host_route, pending, frame,
  frame-IsBytes, router, found_eth0,
}

-- The reply of 10.0.0.7 to the interface.
abbrev pub reply : List ℕ
reply =
    2 ∷ 0 ∷ 0 ∷ 0 ∷ 0 ∷ 1 ∷ 2 ∷ 0 ∷ 0 ∷ 0 ∷ 0 ∷ 9 ∷ 8 ∷ 6 ∷ 0 ∷ 1 ∷ 8 ∷ 0 ∷ 6 ∷ 4 ∷ 0 ∷ 2 ∷ 2 ∷ 0
    ∷ 0 ∷ 0 ∷ 0 ∷ 9 ∷ 10 ∷ 0 ∷ 0 ∷ 7 ∷ 2 ∷ 0 ∷ 0 ∷ 0 ∷ 0 ∷ 1 ∷ 192 ∷ 168 ∷ 2 ∷ 1 ∷ []

pub reply-IsBytes : IsBytes reply
reply-IsBytes = octets-IsBytes reply refl

abbrev held : SrPacket
held = record { buf = frame; len = 42; iface = eth0.name }

abbrev asked : ArpReq
asked = record { address = 3; ip = host_ip; sent = 10; times_sent = 1; packets = held ∷ held ∷ [] }

abbrev expecting : SrInstance
expecting = record router {
  cache = record {
    entries = empty_entry ∷ empty_entry ∷ [];
    requests = asked ∷ pending ∷ [];
    next_address = 4;
  };
}

held-Waits : Waits host_ip held
unfolding read_ip
held-Waits = record {
  octets = frame-IsBytes;
  whole = refl;
  long = omega arith;
  alive = omega arith;
  bound_for = refl;
}

found_asked : find_request expecting.cache.requests host_ip ≡ some asked
unfolding find_request
found_asked = refl

not_cached : sr_arpcache_lookup expecting.cache host_ip ≡ none
unfolding sr_arpcache_lookup lookup_from
not_cached = refl

found_host_route : longest_prefix_sum expecting.routing_table host_ip ≡ some host_route
unfolding longest_prefix_sum
found_host_route = refl

-- The mapping that the reply brings.
abbrev pub brought : ArpEntry
brought = record { mac = host_mac; ip = host_ip; added = 12; valid = true }

-- Two messages go out, and only the other request still waits.
arp_packet_releases_example :
    arp_packet env 0 12 reply eth0.name 42 expecting
    ≡ ok (
      tt,
      released eth0 brought env (held ∷ held ∷ []) (record expecting {
        cache = record {
          entries = brought ∷ empty_entry ∷ [];
          requests = pending ∷ [];
          next_address = 4;
        };
      }),
    )
unfolding read_arp sr_arpcache_insert fill_slot unlink_ip
arp_packet_releases_example =
    arp_packet_releases env 0 12 reply eth0.name expecting eth0 eth0 host_route asked reply-IsBytes
      (omega arith) found_eth0 refl refl
      (omega arith, ((λ e. absurd (omega arith)), tt), (omega arith, tt, tt)) found_asked tt
      not_cached (held-Waits, (held-Waits, tt)) found_host_route found_eth0 eth0-IsMac
