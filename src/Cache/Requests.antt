-- ===== src/Cache/Requests.antt =====
-- The request queue of `sr_arpcache.c`: one request for each address, found by its address.
pub mod Unlinked
use internet_course.Bytes.{slice}
use internet_course.CString.{strncpy}
use internet_course.Iface.{sr_iface_namelen}
use internet_course.Base.{
  Option-cases, false, ap, ℕ, ◌≤◌, ◌<◌, ◌≡◌, ◌≢◌, refl, Bool-cases, inl, inr, Option, none, some,
  List, [], ◌∷◌, All, arith, if◌then◌else◌, ◌==◌,
}
use internet_course.Cache.{
  SrPacket, add_packet, add_if_missing, find_or_add, sr_arpcache_queuereq, unlink_address, ArpReq,
  ArpCache, find_request, update_request, unlink_ip, sr_arpcache_insert,
}

abbrev pub Absent : ℕ → List ArpReq → Type 0
Absent ip = All (λ r. r.ip ≢ ip)

-- The nodes lie at falling addresses under the bound, newest first, and no two are for one IP
-- address.
abbrev pub IsQueue : ℕ → List ArpReq → Type 0
IsQueue bound [] = Unit
IsQueue bound (r ∷ rest) = (r.address < bound) × Absent r.ip rest × IsQueue r.address rest

IsQueue-mono : (m n : ℕ) (rs : List ArpReq) → m ≤ n → IsQueue m rs → IsQueue n rs
IsQueue-mono m n [] h q = tt
IsQueue-mono m n (r ∷ rs) h q = (omega arith, q.1, q.2)

Absent-find : (ip : ℕ) (rs : List ArpReq) → Absent ip rs → find_request rs ip ≡ none
unfolding find_request
Absent-find ip [] h = refl
Absent-find ip (r ∷ rs) h = ground (arith, Absent-find ip rs h.1)

pub find-Absent : (ip : ℕ) (rs : List ArpReq) → find_request rs ip ≡ none → Absent ip rs
unfolding find_request
find-Absent ip [] h = tt
find-Absent ip (r ∷ rs) h = (ground arith, find-Absent ip rs (ground arith))

pub find_request-ip :
    (rs : List ArpReq) (ip : ℕ) {r : ArpReq} → find_request rs ip ≡ some r → r.ip ≡ ip
unfolding find_request
find_request-ip [] ip h = cc
find_request-ip (x ∷ rs) ip {r} h = ground (arith, find_request-ip rs ip {r = r})

pub find_request-address :
    (bound : ℕ) (rs : List ArpReq) (ip : ℕ) {r : ArpReq}
    → IsQueue bound rs
    → find_request rs ip ≡ some r
    → r.address < bound
unfolding find_request
find_request-address bound [] ip q h = cc
find_request-address bound (x ∷ rs) ip {r} q h =
    ground (arith, find_request-address x.address rs ip {r = r} q.2)

-- Taking nodes out keeps the queue in order.
unlink_ip-Absent :
    (ip other : ℕ) (rs : List ArpReq) → Absent other rs → Absent other (unlink_ip rs ip)
unfolding unlink_ip
unlink_ip-Absent ip other [] h = tt
unlink_ip-Absent ip other (r ∷ rs) h = ground (arith, unlink_ip-Absent ip other rs h.1)

unlink_ip-IsQueue :
    (bound ip : ℕ) (rs : List ArpReq) → IsQueue bound rs → IsQueue bound (unlink_ip rs ip)
unfolding unlink_ip
unlink_ip-IsQueue bound ip [] q = tt
unlink_ip-IsQueue bound ip (r ∷ rs) q = ground (
  arith,
  unlink_ip-IsQueue r.address ip rs q.2,
  unlink_ip-Absent ip r.ip rs q.1,
  IsQueue-mono r.address bound rs,
)

-- `sr_arpcache_insert` keeps the queue in order.
pub insert-IsQueue :
    (cache : ArpCache) (mac : List ℕ) (ip now : ℕ)
    → IsQueue cache.next_address cache.requests
    → let cache' = (sr_arpcache_insert cache mac ip now).1 in
      IsQueue cache'.next_address cache'.requests
unfolding sr_arpcache_insert
insert-IsQueue cache mac ip now q = unlink_ip-IsQueue cache.next_address ip cache.requests q

find-unlink_ip :
    (bound ip other : ℕ) (rs : List ArpReq)
    → IsQueue bound rs
    → find_request (unlink_ip rs ip) other ≡ (if ip == other then none else find_request rs other)
unfolding find_request unlink_ip
find-unlink_ip bound ip other [] q = ground arith
find-unlink_ip bound ip other (r ∷ rs) q =
    ground (arith, find-unlink_ip r.address ip other rs q.2, Absent-find r.ip rs q.1)

-- With the queue in order, `sr_arpcache_insert` gives the request that waited for the address;
-- afterwards nothing waits for it, and the other requests stay.
pub insert_takes_request :
    (cache : ArpCache) (mac : List ℕ) (ip now other : ℕ)
    → IsQueue cache.next_address cache.requests
    → let (req, cache') = sr_arpcache_insert cache mac ip now in
      (req ≡ find_request cache.requests ip)
      × (find_request cache'.requests other
          ≡ (if ip == other then none else find_request cache.requests other))
unfolding sr_arpcache_insert
insert_takes_request cache mac ip now other q =
    (refl, find-unlink_ip cache.next_address ip other cache.requests q)

update-Absent :
    (address ip : ℕ) (f : ArpReq → ArpReq) (rs : List ArpReq)
    → ((r : ArpReq) → (f r).ip ≡ r.ip)
    → Absent ip rs
    → Absent ip (update_request address f rs)
unfolding update_request
update-Absent address ip f [] same h = tt
update-Absent address ip f (r ∷ rs) same h =
    ground (arith, same r, update-Absent address ip f rs same h.1)

-- A change of other fields keeps the queue in order.
pub update-IsQueue :
    (bound address : ℕ) (f : ArpReq → ArpReq) (rs : List ArpReq)
    → ((r : ArpReq) → (f r).ip ≡ r.ip)
    → ((r : ArpReq) → (f r).address ≡ r.address)
    → IsQueue bound rs
    → IsQueue bound (update_request address f rs)
unfolding update_request
update-IsQueue bound address f [] same at q = tt
update-IsQueue bound address f (r ∷ rs) same at q = elim (Bool-cases (r.address == address)) [
  | inl e ↦ rw (e, same r, at r) q
  | inr e ↦ rw e (
    q.0,
    update-Absent address r.ip f rs same q.1,
    update-IsQueue r.address address f rs same at q.2,
  )
]

find_or_add-IsQueue :
    (cache : ArpCache) (ip : ℕ)
    → IsQueue cache.next_address cache.requests
    → let cache' = (find_or_add cache ip).1 in IsQueue cache'.next_address cache'.requests
unfolding find_or_add add_if_missing
find_or_add-IsQueue cache ip q = elim (Option-cases (find_request cache.requests ip)) [
  | inl e ↦ rw e (omega arith, find-Absent ip cache.requests e, q)
  | inr (r, e) ↦ rw e q
]

-- `sr_arpcache_queuereq` keeps a queue in order.
pub queuereq-IsQueue :
    (cache : ArpCache) (ip : ℕ) (packet : List ℕ) (packet_len : ℕ) (iface : List ℕ)
    → IsQueue cache.next_address cache.requests
    → let cache' = (sr_arpcache_queuereq cache ip packet packet_len iface).1 in
      IsQueue cache'.next_address cache'.requests
unfolding sr_arpcache_queuereq add_packet
queuereq-IsQueue cache ip packet packet_len iface q =
    let found = find_or_add cache ip in
    let new : SrPacket = record {
      buf = slice packet 0 packet_len;
      len = packet_len;
      iface = strncpy iface sr_iface_namelen;
    } in
    let ordered = find_or_add-IsQueue cache ip q in
    elim (Bool-cases (packet_len == 0)) [
      | inl e ↦ rw e ordered
      | inr e ↦ rw e (
          update-IsQueue found.1.next_address found.0 (add_packet packet packet_len iface)
            found.1.requests (λ r. refl) (λ r. refl) ordered)
    ]

unlink_address-Absent :
    (address ip : ℕ) (rs : List ArpReq) → Absent ip rs → Absent ip (unlink_address rs address)
unfolding unlink_address
unlink_address-Absent address ip [] h = tt
unlink_address-Absent address ip (r ∷ rs) h =
    ground (arith, unlink_address-Absent address ip rs h.1)

-- `sr_arpreq_destroy` keeps the queue in order.
pub unlink_address-IsQueue :
    (bound address : ℕ) (rs : List ArpReq)
    → IsQueue bound rs
    → IsQueue bound (unlink_address rs address)
unfolding unlink_address
unlink_address-IsQueue bound address [] q = tt
unlink_address-IsQueue bound address (r ∷ rs) q = ground (
  arith,
  unlink_address-IsQueue r.address address rs q.2,
  unlink_address-Absent address r.ip rs q.1,
  IsQueue-mono r.address bound rs,
)

find-update :
    (bound address ip : ℕ) (f : ArpReq → ArpReq) (rs : List ArpReq) {r : ArpReq}
    → ((r : ArpReq) → (f r).ip ≡ r.ip)
    → IsQueue bound rs
    → find_request rs ip ≡ some r
    → r.address ≡ address
    → find_request (update_request address f rs) ip ≡ some (f r)
unfolding find_request update_request
find-update bound address ip f [] same q e at = cc
find-update bound address ip f (x ∷ rs) {r} same q e at = ground (
  arith,
  same x,
  find_request-address x.address rs ip {r = r} q.2,
  find-update x.address address ip f rs {r = r} same q.2,
)

-- The packets that wait for an address.
abbrev pub waiting : Option ArpReq → List SrPacket
waiting none = []
waiting (some r) = r.packets

find_or_add-found :
    (cache : ArpCache) (ip : ℕ)
    → let (address, cache') = find_or_add cache ip in
      (r : ArpReq) × (find_request cache'.requests ip ≡ some r)
      × (r.address ≡ address)
      × (r.packets ≡ waiting (find_request cache.requests ip))
unfolding find_or_add add_if_missing find_request
find_or_add-found cache ip = elim (Option-cases (find_request cache.requests ip)) [
  | inl e ↦ rw e (
    record { address = cache.next_address; ip = ip; sent = 0; times_sent = 0; packets = [] },
    ground arith,
    refl,
    refl,
  )
  | inr (r, e) ↦ rw e (r, e, refl, refl)
]

-- With the queue in order, after `sr_arpcache_queuereq` with a packet that is not empty there is a
-- request for the address at the node address that is returned, and its packets are a copy of the
-- packet in front of those that waited before.
pub queuereq_adds :
    (cache : ArpCache) (ip : ℕ) (packet : List ℕ) (packet_len : ℕ) (iface : List ℕ)
    → IsQueue cache.next_address cache.requests
    → 0 < packet_len
    → let (address, cache') = sr_arpcache_queuereq cache ip packet packet_len iface in
      (r : ArpReq) × (find_request cache'.requests ip ≡ some r)
      × (r.address ≡ address)
      × (r.packets
          ≡ record {
            buf = slice packet 0 packet_len;
            len = packet_len;
            iface = strncpy iface sr_iface_namelen;
          }
            ∷ waiting (find_request cache.requests ip))
unfolding sr_arpcache_queuereq add_packet
queuereq_adds cache ip packet packet_len iface q some_bytes =
    let nonempty : (packet_len == 0) ≡ false = ground arith in
    let (r, e, at, ps) = find_or_add-found cache ip in
    let found = find_or_add cache ip in
    let new : SrPacket = record {
      buf = slice packet 0 packet_len;
      len = packet_len;
      iface = strncpy iface sr_iface_namelen;
    } in
    rw nonempty (
      add_packet packet packet_len iface r,
      find-update found.1.next_address found.0 ip (add_packet packet packet_len iface)
          found.1.requests {r = r} (λ s. refl) (find_or_add-IsQueue cache ip q) e at,
      at,
      ap (◌∷◌ new) ps,
    )
