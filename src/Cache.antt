-- ===== src/Cache.antt =====
-- The ARP cache and its queue of requests, 20100117_RouterAssign_1/router/sr_arpcache.c. A request
-- is a node at an address: `sr_arpreq_destroy` tells nodes apart by their addresses. `malloc` and
-- `calloc` do not fail, and give an address that no other node has had. The mutex is not modelled:
-- each operation is one step.
pub mod Entries
pub mod Requests
pub mod Map
mod Examples
use internet_course.Base.{
  ℕ, suc, ◌+◌, ◌≡◌, Bool, true, false, ◌&&◌, Option, none, some, List, [], ◌∷◌, map, replicate,
  if◌then◌else◌, ◌==◌, ltb,
}
use internet_course.Bytes.{slice}
use internet_course.CString.{strncpy}
use internet_course.Iface.{sr_iface_namelen}

-- `struct sr_arpentry`; `time_t` is a number of seconds.
pub record ArpEntry : Type 0 where
  pub mac : List ℕ
  pub ip : ℕ
  pub added : ℕ
  pub valid : Bool

-- `struct sr_packet`
pub record SrPacket : Type 0 where
  pub buf : List ℕ
  pub len : ℕ
  pub iface : List ℕ

-- `struct sr_arpreq`, with the address of the node.
pub record ArpReq : Type 0 where
  pub address : ℕ
  pub ip : ℕ
  pub sent : ℕ
  pub times_sent : ℕ
  pub packets : List SrPacket

-- `struct sr_arpcache`; `next_address` is where the next node will lie.
pub record ArpCache : Type 0 where
  pub entries : List ArpEntry
  pub requests : List ArpReq
  pub next_address : ℕ

abbrev pub sr_arpcache_sz : ℕ
sr_arpcache_sz = 100

abbrev pub sr_arpcache_to : ℕ
sr_arpcache_to = 15

abbrev pub empty_entry : ArpEntry
empty_entry = record { mac = replicate 6 0; ip = 0; added = 0; valid = false }

unfoldable pub sr_arpcache_init : ArpCache
sr_arpcache_init = record {
  entries = replicate sr_arpcache_sz empty_entry;
  requests = [];
  next_address = 1;
}

-- The loop of `sr_arpcache_lookup` goes on after a hit: `entry` is the last one so far.
unfoldable pub lookup_from : Option ArpEntry → List ArpEntry → ℕ → Option ArpEntry
lookup_from entry [] ip = entry
lookup_from entry (e ∷ rest) ip =
    lookup_from (if e.valid && (e.ip == ip) then some e else entry) rest ip

unfoldable pub sr_arpcache_lookup : ArpCache → ℕ → Option ArpEntry
sr_arpcache_lookup cache ip = lookup_from none cache.entries ip

-- The first request for the address.
unfoldable pub find_request : List ArpReq → ℕ → Option ArpReq
find_request [] ip = none
find_request (r ∷ rest) ip = if r.ip == ip then some r else find_request rest ip

-- The first request for the address is changed through its pointer.
unfoldable pub update_request : ℕ → (ArpReq → ArpReq) → List ArpReq → List ArpReq
update_request address f [] = []
update_request address f (r ∷ rest) =
    if r.address == address then f r ∷ rest else r ∷ update_request address f rest

-- `new_pkt`, in front of the packets that wait.
unfoldable pub add_packet : List ℕ → ℕ → List ℕ → ArpReq → ArpReq
add_packet packet packet_len iface req = record req {
  packets =
      record {
        buf = slice packet 0 packet_len;
        len = packet_len;
        iface = strncpy iface sr_iface_namelen;
      }
      ∷ req.packets;
}

-- If the IP was not found, a new request goes in front of the queue.
unfoldable pub add_if_missing : ArpCache → ℕ → Option ArpReq → ℕ × ArpCache
add_if_missing cache ip (some req) = (req.address, cache)
add_if_missing cache ip none = (
  cache.next_address,
  record cache {
    requests =
        record { address = cache.next_address; ip = ip; sent = 0; times_sent = 0; packets = [] }
        ∷ cache.requests;
    next_address = suc cache.next_address;
  },
)

-- The request for the address, looked up or new.
unfoldable pub find_or_add : ArpCache → ℕ → ℕ × ArpCache
find_or_add cache ip = add_if_missing cache ip (find_request cache.requests ip)

-- The pointers `packet` and `iface` are not null; the block of the packet holds `packet_len` bytes.
unfoldable pub sr_arpcache_queuereq : ArpCache → ℕ → List ℕ → ℕ → List ℕ → ℕ × ArpCache
sr_arpcache_queuereq cache ip packet packet_len iface =
    let (address, cache') = find_or_add cache ip in
    if packet_len == 0 then (address, cache') else (
      address,
      record cache' {
        requests = update_request address (add_packet packet packet_len iface) cache'.requests;
      },
    )

-- The first loop of `sr_arpcache_insert`: the first request for the address is taken out.
unfoldable pub unlink_ip : List ArpReq → ℕ → List ArpReq
unlink_ip [] ip = []
unlink_ip (r ∷ rest) ip = if r.ip == ip then rest else r ∷ unlink_ip rest ip

-- The second loop and the writes behind it: the first free slot, if there is one.
unfoldable pub fill_slot : List ArpEntry → List ℕ → ℕ → ℕ → List ArpEntry
fill_slot [] mac ip now = []
fill_slot (e ∷ rest) mac ip now =
    if e.valid
    then e ∷ fill_slot rest mac ip now
    else record { mac = slice mac 0 6; ip = ip; added = now; valid = true } ∷ rest

unfoldable pub sr_arpcache_insert : ArpCache → List ℕ → ℕ → ℕ → Option ArpReq × ArpCache
sr_arpcache_insert cache mac ip now = (
  find_request cache.requests ip,
  record cache {
    requests = unlink_ip cache.requests ip;
    entries = fill_slot cache.entries mac ip now;
  },
)

-- The loop of `sr_arpreq_destroy`: the node at this address leaves the queue.
unfoldable pub unlink_address : List ArpReq → ℕ → List ArpReq
unlink_address [] address = []
unlink_address (r ∷ rest) address =
    if r.address == address then rest else r ∷ unlink_address rest address

unfoldable pub sr_arpreq_destroy : ArpCache → ℕ → ArpCache
sr_arpreq_destroy cache address = record cache { requests = unlink_address cache.requests address }

-- The loop of `sr_arpcache_timeout`: entries older than `SR_ARPCACHE_TO` seconds lose `valid`.
unfoldable pub expire : ℕ → ArpEntry → ArpEntry
expire curtime e =
    if e.valid && ltb (e.added + sr_arpcache_to) curtime then record e { valid = false } else e

unfoldable pub expire_entries : ArpCache → ℕ → ArpCache
expire_entries cache curtime = record cache { entries = map (expire curtime) cache.entries }
