-- ===== src/Server/Examples.antt =====
-- The theorems on the connection at concrete streams.
mod Routing
mod Commands
use internet_course.Base.{ℕ, ◌≡◌, refl, true, false, some, List, [], ◌∷◌, ◌++◌, replicate, arith}
use internet_course.Base.Result.{ok, fault, pure, out_of_fuel, ◌>>◌}
use internet_course.Bytes.{overlay, splice}
use internet_course.CString.{strncpy, strncmp_eq}
use internet_course.Iface.{SrIf, sr_get_interface, sr_add_interface}
use internet_course.Iface.Hardware.{
  sr_handle_hwinfo, num_entries, handle_entries, handle_entry, read_hw_entry,
}
use internet_course.Route.{
  longest_prefix_sum, sr_verify_routing_table, count_missing, interface_exists,
}
use internet_course.Route.Laws.{HasInterface}
use internet_course.Cache.{expire, expire_entries}
use internet_course.Router.Sweep.{sweep_requests, sr_arpcache_sweepreqs, sr_arpcache_timeout}
use internet_course.Protocol.Ether.{read_ethernet}
use internet_course.Router.{SrInstance}
use internet_course.Router.Send.{packet_message, log_packet}
use internet_course.Router.Filter.{request_for_other, sr_arp_req_not_for_us}
use internet_course.Router.Handle.{sr_handlepacket}
use internet_course.Router.Examples.Network.{
  env, eth0, frame, router, host_entry, host_route, host_ip,
}
use internet_course.Server.Socket.{Event, arrives, interrupted, recv, read_all}
use internet_course.Server.Socket.Stream.{content, IsRest, read_all_lem}
use internet_course.Server.Session.{Session, World, one, c_string, on_router, send}
use internet_course.Server.Reader.{
  verify_hwinfo, handle_vnshwinfo, key_bytes, auth_reply, digest_bytes, send_digest,
  answer_auth_request, if_key, sr_handle_auth_request, sr_handle_auth_status, handle_command,
  take_command, take_length, read_bytes, sr_read_from_server_expect, sr_read_from_server,
}
use internet_course.Server.Reader.Framing.{sr_read_from_server-closed}
use internet_course.Server.Reader.Delivery.{named, sr_read_from_server-frame}
use internet_course.Server.Reader.Ready.{here, later, reading, sweeping, Reach-HasInterface}
use internet_course.Server.Connect.{
  open_message, if_one, request_topology, authenticate, sr_connect_to_server,
}
use internet_course.Server.Connect.Quiet.{sr_connect_to_server_quiet}

-- The server answers, the key is "key", and every array holds zeros. The digest is the same for all
-- bytes.
abbrev pub world : World
world = record {
  env = env;
  fresh_if = λ n. eth0;
  auth_key = some (some (107 ∷ 101 ∷ 121 ∷ []));
  stack = λ n. replicate n 0;
  sha1 = λ bs. some (1 ∷ 2 ∷ 3 ∷ 4 ∷ 5 ∷ []);
  can_write = λ name. true;
  resolves = true;
  makes_socket = true;
  connects = true;
}

-- "me", on the host "h", with these events to come.
abbrev pub session : List Event → Session
session input = record {
  router = router;
  user = 109 ∷ 101 ∷ 0 ∷ [];
  host = 104 ∷ 0 ∷ [];
  template = 0 ∷ [];
  topo_id = 3;
  input = input;
  files = [];
}

-- Four bytes in two pieces, with a signal between them, and one byte more.
abbrev pieces : List Event
pieces = arrives 7 (8 ∷ []) ∷ interrupted ∷ arrives 9 (10 ∷ 11 ∷ []) ∷ []

read_all_lem_example :
    (rest : List Event) × (read_all 3 4 pieces ≡ ok (some (7 ∷ 8 ∷ 9 ∷ 10 ∷ []), rest))
    × IsRest 4 pieces rest
read_all_lem_example = read_all_lem 3 4 pieces (omega arith) tt (omega arith)

-- Three bytes come, and the connection is closed.
sr_read_from_server-closed_example :
    sr_read_from_server world 100 5 (session (arrives 0 (0 ∷ 0 ∷ []) ∷ [])) ≡ fault out_of_fuel
sr_read_from_server-closed_example =
    sr_read_from_server-closed world 100 5 (session (arrives 0 (0 ∷ 0 ∷ []) ∷ [])) tt (omega arith)

-- The message that carries the frame of 42 bytes for eth0, cut within its length.
abbrev pub carried : List Event
carried =
    arrives 0 (0 ∷ [])
    ∷ interrupted
    ∷ arrives 0 (66 ∷ 0 ∷ 0 ∷ 0 ∷ 4 ∷ (strncpy eth0.name 16 ++ frame))
    ∷ []

pub carried-content : content carried ≡ packet_message frame 42 eth0.name ++ []
unfolding packet_message strncpy
carried-content = refl

-- The server asks for the authentication and accepts it.
abbrev pub accepting : List Event
accepting =
    arrives 0 (0 ∷ 0 ∷ 12 ∷ 0 ∷ 0 ∷ 0 ∷ 128 ∷ 1 ∷ 2 ∷ 3 ∷ 4 ∷ [])
    ∷ arrives 0 (0 ∷ 0 ∷ 9 ∷ 0 ∷ 0 ∷ 2 ∷ 0 ∷ 1 ∷ [])
    ∷ []

-- Afterwards the reply and the opening message are sent.
abbrev opened : Session
opened = record (session []) {
  router = record router {
    wire =
        open_message 3 (104 ∷ 0 ∷ []) (109 ∷ 101 ∷ 0 ∷ [])
        ∷ auth_reply (109 ∷ 101 ∷ []) (digest_bytes (1 ∷ 2 ∷ 3 ∷ 4 ∷ 5 ∷ []))
        ∷ [];
  };
}

connects : sr_connect_to_server world 9 5 (session accepting) ≡ ok (true, opened)
unfolding sr_connect_to_server authenticate request_topology if_one sr_read_from_server_expect
    take_length take_command handle_command read_bytes read_all recv splice overlay
    sr_handle_auth_request if_key answer_auth_request key_bytes send_digest sr_handle_auth_status
    c_string send
connects = refl

sr_connect_to_server_quiet_example :
    (opened.router.if_list ≡ router.if_list)
    × (opened.router.routing_table ≡ router.routing_table)
    × (opened.router.cache ≡ router.cache)
sr_connect_to_server_quiet_example =
    sr_connect_to_server_quiet world 9 5 (session accepting) opened true connects

-- The hardware information with one interface, eth0.
abbrev hardware : List ℕ
hardware = 0 ∷ 0 ∷ 0 ∷ 44 ∷ 0 ∷ 0 ∷ 0 ∷ 16 ∷ 0 ∷ 0 ∷ 0 ∷ 1 ∷ 101 ∷ 116 ∷ 104 ∷ 48 ∷ replicate 28 0

-- A session without interfaces, without requests, and with a banner to come.
abbrev bare : SrInstance
bare = record router {
  if_list = [];
  cache = record { entries = host_entry ∷ []; requests = []; next_address = 2 };
}

abbrev before_hardware : Session
before_hardware = record (session (arrives 0 (0 ∷ 0 ∷ 8 ∷ 0 ∷ 0 ∷ 0 ∷ 8 ∷ []) ∷ [])) {
  router = bare;
}

abbrev named_eth0 : SrIf
named_eth0 = record eth0 { name = 101 ∷ 116 ∷ 104 ∷ 48 ∷ replicate 28 0 }

abbrev ready : Session
ready = record before_hardware { router = record bare { if_list = named_eth0 ∷ [] } }

abbrev banner_read : Session
banner_read = record ready { input = [] }

-- The entry of the cache is from second 3, and is taken out in second 20.
abbrev swept : Session
swept = record banner_read {
  router = record banner_read.router {
    cache = record {
      entries = record host_entry { valid = false } ∷ [];
      requests = [];
      next_address = 2;
    };
  };
}

accepts : handle_vnshwinfo world hardware before_hardware ≡ ok (one, ready)
unfolding handle_vnshwinfo verify_hwinfo sr_handle_hwinfo num_entries handle_entries handle_entry
    read_hw_entry sr_add_interface strncpy sr_verify_routing_table count_missing interface_exists
    strncmp_eq
accepts = refl

reads_banner : sr_read_from_server world 9 5 ready ≡ ok (one, banner_read)
unfolding sr_read_from_server sr_read_from_server_expect take_length take_command handle_command
    read_bytes read_all recv
reads_banner = refl

sweeps : on_router (sr_arpcache_timeout env 9 9 20) banner_read ≡ ok (tt, swept)
unfolding sr_arpcache_timeout sr_arpcache_sweepreqs sweep_requests expire_entries expire
sweeps = refl

route_there : longest_prefix_sum swept.router.routing_table host_ip ≡ some host_route
unfolding longest_prefix_sum
route_there = refl

Reach-HasInterface_example : HasInterface swept.router.if_list host_route
Reach-HasInterface_example =
    Reach-HasInterface world 9 9 hardware before_hardware ready {u = swept} host_ip {r = host_route}
      accepts (later (later here (reading 5 reads_banner)) (sweeping 20 sweeps)) route_there
