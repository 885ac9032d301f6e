-- ===== src/Server/Main/Examples.antt =====
-- The start of the router without a template, at a table file of two lines.
use internet_course.Base.{ℕ, ◌≡◌, refl, true, none, some, Option, List, [], ◌∷◌}
use internet_course.Base.Result.{ok, pure, ◌>>◌}
use internet_course.Bytes.{overlay, splice}
use internet_course.CString.{strncpy}
use internet_course.Route.{SrRt}
use internet_course.Route.Load
use internet_course.Route.Load.{Words, entry, convert, entries_of}
use internet_course.Cache.{sr_arpcache_init}
use internet_course.Router.Examples.Network.{router}
use internet_course.Server.Socket.{recv, read_all}
use internet_course.Server.Session.{Session, c_string, send}
use internet_course.Server.Reader.{
  key_bytes, auth_reply, digest_bytes, send_digest, answer_auth_request, if_key,
  sr_handle_auth_request, sr_handle_auth_status, handle_command, take_command, take_length,
  read_bytes, sr_read_from_server_expect,
}
use internet_course.Server.Connect.{
  open_message, if_one, request_topology, authenticate, sr_connect_to_server,
}
use internet_course.Server.Examples.{world, accepting}
use internet_course.Server.Main.{Host, Options, reads, sr_init_instance, serve, run_main}
use internet_course.Server.Main.Starting.{configured, run_main_starts}

-- A line is its destination; the other words stay as they were. An address is its first number.
abbrev scan : List ℕ → Words → Words
scan line w = record w { dest = line }

abbrev number : List ℕ → Option ℕ
number [] = none
number (c ∷ cs) = some c

abbrev lines : List (List ℕ)
lines = (5 ∷ []) ∷ (6 ∷ []) ∷ []

abbrev host : Host
host = record {
  world = world;
  atoi = λ text. 0;
  sscanf = scan;
  inet_aton = number;
  buffers = record { dest = []; gw = 1 ∷ []; mask = 2 ∷ []; iface = 101 ∷ [] };
  read_file = λ files name. some lines;
  pw_name = none;
  dump_opens = λ name. true;
  raw_cache = router.cache;
}

-- The user "me" on the host "h", with topology 3.
abbrev options : Options
options = record {
  host = 104 ∷ [];
  user = some (109 ∷ 101 ∷ []);
  server = 115 ∷ [];
  rtable = 114 ∷ [];
  template = none;
  port = 8888;
  topo = 3;
  logfile = none;
}

abbrev start : Session
start = sr_init_instance host accepting

abbrev first_route : SrRt
first_route = entry 5 1 2 (101 ∷ [])

abbrev second_route : SrRt
second_route = entry 6 1 2 (101 ∷ [])

abbrev standing : Session
standing = record (configured host options lines (first_route ∷ second_route ∷ []) start) {
  input = [];
  router = record start.router {
    routing_table = first_route ∷ second_route ∷ [];
    wire =
        open_message 3 (strncpy (104 ∷ []) 32) (strncpy (109 ∷ 101 ∷ []) 32)
        ∷ auth_reply (109 ∷ 101 ∷ []) (digest_bytes (1 ∷ 2 ∷ 3 ∷ 4 ∷ 5 ∷ []))
        ∷ [];
  };
}

converts :
    entries_of scan number lines host.buffers ≡ (Load.success, first_route ∷ second_route ∷ [])
unfolding entries_of convert
converts = refl

connects :
    sr_connect_to_server world 9 5
      (configured host options lines (first_route ∷ second_route ∷ []) start)
    ≡ ok (true, standing)
unfolding sr_connect_to_server authenticate request_topology if_one sr_read_from_server_expect
    take_length take_command handle_command read_bytes read_all recv splice overlay
    sr_handle_auth_request if_key answer_auth_request key_bytes send_digest sr_handle_auth_status
    c_string send strncpy sr_init_instance
connects = refl

run_main_starts_example :
    run_main host options 9 9 5 (reads 6 ∷ []) start
    ≡ (serve world 9 9 (reads 6 ∷ []) >> pure 0) (record standing {
      router = record standing.router {
        routing_table = first_route ∷ second_route ∷ [];
        cache = sr_arpcache_init;
      };
    })
run_main_starts_example =
    run_main_starts host options lines 9 9 5 (reads 6 ∷ []) start standing first_route
      (second_route ∷ []) refl refl (λ files. refl) converts connects
