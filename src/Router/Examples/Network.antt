-- ===== src/Router/Examples/Network.antt =====
-- A small network: one interface, one route, one cached neighbour, one request that waits.
use internet_course.Base.{Option}
use internet_course.Protocol.Ip.{read_ip, write_ip}
use internet_course.Protocol.Ether.{read_ethernet}
use internet_course.Cache.{ArpCache}
use internet_course.Router.Ip.{ip_packet_router_check}
use internet_course.Router.Resolving.{IsForwarded}
use internet_course.Base.{
  ℕ, zero, suc, ◌≡◌, refl, Bool, true, ◌&&◌, none, some, List, [], ◌∷◌, replicate, length-replicate,
  arith, ltb,
}
use internet_course.Bytes.{IsBytes}
use internet_course.Protocol.Struct.{get}
use internet_course.Protocol.Ip.{ip_hdr, read_ip}
use internet_course.CString.{strncmp_eq}
use internet_course.Iface.{SrIf, sr_get_interface}
use internet_course.Route.{SrRt, longest_prefix_sum}
use internet_course.Cache.{ArpEntry, ArpReq, sr_arpcache_lookup, lookup_from}
use internet_course.Cache.Requests.{IsQueue}
use internet_course.Router.{SrInstance, Env}
use internet_course.Router.Request.{find_address}
use internet_course.Router.Rewriting.{IsMac}

abbrev pub octets : List ℕ → Bool
octets [] = true
octets (b ∷ bs) = ltb b 256 && octets bs

pub octets-IsBytes : (bs : List ℕ) → octets bs ≡ true → IsBytes bs
octets-IsBytes [] h = tt
octets-IsBytes (b ∷ bs) h = (ground arith, octets-IsBytes bs (ground arith))

pub zeros-IsBytes : (n : ℕ) → IsBytes (replicate n 0)
zeros-IsBytes zero = tt
zeros-IsBytes (suc n) = (omega arith, zeros-IsBytes n)

-- Every message is written whole, new memory holds zeros, and no made-up address is mapped.
abbrev pub env : Env
env = record {
  write_whole = λ messages. true;
  gettimeofday = λ so_far. (1000, 0);
  fresh = λ n. replicate n 0;
  peek = λ address. none;
  fresh_size = λ n. length-replicate n 0;
  fresh_bytes = zeros-IsBytes;
}

abbrev pub eth0_mac : List ℕ
eth0_mac = 2 ∷ 0 ∷ 0 ∷ 0 ∷ 0 ∷ 1 ∷ []

abbrev pub host_mac : List ℕ
host_mac = 2 ∷ 0 ∷ 0 ∷ 0 ∷ 0 ∷ 9 ∷ []

-- "eth0", and the address 192.168.2.1 as the host reads it.
abbrev pub eth0 : SrIf
eth0 = record { name = 101 ∷ 116 ∷ 104 ∷ 48 ∷ 0 ∷ []; addr = eth0_mac; ip = 16951488; speed = 0 }

pub eth0-IsMac : IsMac eth0_mac
eth0-IsMac = record { six = refl; octets = octets-IsBytes eth0_mac refl }

pub host-IsMac : IsMac host_mac
host-IsMac = record { six = refl; octets = octets-IsBytes host_mac refl }

-- An IP packet from 10.0.0.2 to 10.0.0.7 with TTL 64, an echo request.
abbrev pub frame : List ℕ
frame =
    2 ∷ 0 ∷ 0 ∷ 0 ∷ 0 ∷ 1 ∷ 2 ∷ 0 ∷ 0 ∷ 0 ∷ 0 ∷ 5 ∷ 8 ∷ 0 ∷ 69 ∷ 0 ∷ 0 ∷ 28 ∷ 0 ∷ 1 ∷ 0 ∷ 0 ∷ 64 ∷ 1
    ∷ 102 ∷ 216 ∷ 10 ∷ 0 ∷ 0 ∷ 2 ∷ 10 ∷ 0 ∷ 0 ∷ 7 ∷ 8 ∷ 0 ∷ 247 ∷ 255 ∷ 0 ∷ 0 ∷ 0 ∷ 0 ∷ []

pub frame-IsBytes : IsBytes frame
frame-IsBytes = octets-IsBytes frame refl

-- 10.0.0.7
abbrev pub host_ip : ℕ
host_ip = 117440522

abbrev pub host_entry : ArpEntry
host_entry = record { mac = host_mac; ip = host_ip; added = 3; valid = true }

abbrev pub host_route : SrRt
host_route = record { dest = host_ip; gw = 0; mask = 0; interface = eth0.name }

-- One request waits, for 10.0.0.8; it was sent once.
abbrev pub pending : ArpReq
pending = record { address = 1; ip = 134217738; sent = 10; times_sent = 1; packets = [] }

abbrev pub router : SrInstance
router = record {
  if_list = eth0 ∷ [];
  routing_table = host_route ∷ [];
  cache = record { entries = host_entry ∷ []; requests = pending ∷ []; next_address = 2 };
  wire = [];
  logfile = none;
}

pub found_route :
    longest_prefix_sum router.routing_table (get ip_hdr frame 14).ip_dst ≡ some host_route
unfolding longest_prefix_sum read_ip
found_route = refl

pub found_hop : sr_arpcache_lookup router.cache (get ip_hdr frame 14).ip_dst ≡ some host_entry
unfolding sr_arpcache_lookup lookup_from read_ip
found_hop = refl

pub found_eth0 : sr_get_interface router.if_list eth0.name ≡ some eth0
unfolding sr_get_interface strncmp_eq
found_eth0 = refl

pub found_pending : find_address router.cache.requests 1 ≡ some pending
unfolding find_address
found_pending = refl

pub pending-IsQueue : IsQueue router.cache.next_address router.cache.requests
pending-IsQueue = (omega arith, tt, tt)

pub frame-IsForwarded :
    (cache : ArpCache) (logfile : Option (List ℕ))
    → IsForwarded (record router { cache = cache; logfile = logfile }) frame host_route eth0
unfolding read_ethernet read_ip write_ip ip_packet_router_check longest_prefix_sum
frame-IsForwarded cache logfile = record {
  octets = frame-IsBytes;
  long = omega arith;
  is_ip = refl;
  holds = ((refl, omega arith), omega arith);
  elsewhere = refl;
  alive = omega arith;
  route = refl;
  out = found_eth0;
  mac = eth0-IsMac;
  ip_fits = omega arith;
}
