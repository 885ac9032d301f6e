-- ===== src/Router/Returning/Queue.antt =====
-- A queue of requests none of which is to be given up now, with packets that can be sent again.
use internet_course.Base.{
  ℕ, ◌+◌, ◌<◌, ◌≤◌, ◌≡◌, ◌⊎◌, refl, sym, inl, inr, Bool-cases, Option-cases, some, false, List, [],
  ◌∷◌, All, length, take_all, arith, ◌==◌,
}
use internet_course.Bytes.{slice}
use internet_course.Cache.{
  SrPacket, ArpReq, ArpCache, find_request, find_or_add, add_if_missing, add_packet, update_request,
  unlink_ip, unlink_address, sr_arpcache_queuereq,
}
use internet_course.Cache.Requests.{IsQueue, find_request-address}
use internet_course.Router.Request.{find_address}

-- A packet of 42 to 70 bytes with its own length.
abbrev pub Short : List ℕ → Type 0
Short buf = (42 ≤ length buf) × (length buf ≤ 70)

abbrev pub Fine : SrPacket → Type 0
Fine p = (p.len ≡ length p.buf) × Short p.buf

-- A request that was sent within the last second, or fewer than five times.
abbrev pub Calm : ℕ → ArpReq → Type 0
Calm now r = (now ≤ r.sent + 1) ⊎ (r.times_sent < 5)

abbrev pub Sound : ℕ → ArpReq → Type 0
Sound now r = Calm now r × All Fine r.packets

module _ (now : ℕ) where
  pub update-Sound :
      (address : ℕ) (f : ArpReq → ArpReq) (rs : List ArpReq)
      → ((r : ArpReq) → Sound now r → Sound now (f r))
      → All (Sound now) rs
      → All (Sound now) (update_request address f rs)
  unfolding update_request
  update-Sound address f [] h p = tt
  update-Sound address f (r ∷ rs) h p = elim (Bool-cases (r.address == address)) [
    | inl e ↦ rw e (h r p.0, p.1)
    | inr e ↦ rw e (p.0, update-Sound address f rs h p.1)
  ]

  pub unlink_ip-Sound :
      (ip : ℕ) (rs : List ArpReq) → All (Sound now) rs → All (Sound now) (unlink_ip rs ip)
  unfolding unlink_ip
  unlink_ip-Sound ip [] p = tt
  unlink_ip-Sound ip (r ∷ rs) p = elim (Bool-cases (r.ip == ip)) [
    | inl e ↦ rw e p.1
    | inr e ↦ rw e (p.0, unlink_ip-Sound ip rs p.1)
  ]

  pub unlink_address-Sound :
      (address : ℕ) (rs : List ArpReq)
      → All (Sound now) rs
      → All (Sound now) (unlink_address rs address)
  unfolding unlink_address
  unlink_address-Sound address [] p = tt
  unlink_address-Sound address (r ∷ rs) p = elim (Bool-cases (r.address == address)) [
    | inl e ↦ rw e p.1
    | inr e ↦ rw e (p.0, unlink_address-Sound address rs p.1)
  ]

  pub find_request-Sound :
      (rs : List ArpReq) (ip : ℕ) {r : ArpReq}
      → All (Sound now) rs
      → find_request rs ip ≡ some r
      → Sound now r
  unfolding find_request
  find_request-Sound [] ip p e = absurd (cc)
  find_request-Sound (x ∷ rs) ip {r} p e = elim (Bool-cases (x.ip == ip)) [
    | inl h ↦ let same : x ≡ r = cc (rw h at e) in rw (sym same) p.0
    | inr h ↦ find_request-Sound rs ip {r = r} p.1 (rw h at e)
  ]

  pub find_address-Sound :
      (rs : List ArpReq) (address : ℕ) {r : ArpReq}
      → All (Sound now) rs
      → find_address rs address ≡ some r
      → Sound now r
  unfolding find_address
  find_address-Sound [] address p e = absurd (cc)
  find_address-Sound (x ∷ rs) address {r} p e = elim (Bool-cases (x.address == address)) [
    | inl h ↦ let same : x ≡ r = cc (rw h at e) in rw (sym same) p.0
    | inr h ↦ find_address-Sound rs address {r = r} p.1 (rw h at e)
  ]

pub find_address-update :
    (address : ℕ) (f : ArpReq → ArpReq) (rs : List ArpReq) {r : ArpReq}
    → ((x : ArpReq) → (f x).address ≡ x.address)
    → find_address rs address ≡ some r
    → find_address (update_request address f rs) address ≡ some (f r)
unfolding find_address update_request
find_address-update address f [] same e = cc
find_address-update address f (x ∷ rs) {r} same e =
    ground (arith, same x, find_address-update address f rs {r = r} same)

pub find_request-find_address :
    (bound : ℕ) (rs : List ArpReq) (ip : ℕ) {r : ArpReq}
    → IsQueue bound rs
    → find_request rs ip ≡ some r
    → find_address rs r.address ≡ some r
unfolding find_request find_address
find_request-find_address bound [] ip q e = cc
find_request-find_address bound (x ∷ rs) ip {r} q e = elim (Bool-cases (x.ip == ip)) [
  | inl h ↦ ground arith
  | inr h ↦
      let there : find_request rs ip ≡ some r = rw h at e in
      let below = find_request-address x.address rs ip {r = r} q.2 there in
      let other : (x.address == r.address) ≡ false = ground arith in
      rw other (find_request-find_address x.address rs ip {r = r} q.2 there)
]

-- The request that `find_or_add` names is in the queue, which stays sound.
find_or_add-Sound :
    (now : ℕ) (cache : ArpCache) (ip : ℕ)
    → IsQueue cache.next_address cache.requests
    → All (Sound now) cache.requests
    → let (address, cache') = find_or_add cache ip in
      (r : ArpReq) × (find_address cache'.requests address ≡ some r)
      × All (Sound now) cache'.requests
unfolding find_or_add add_if_missing find_address
find_or_add-Sound now cache ip q p = elim (Option-cases (find_request cache.requests ip)) [
  | inl e ↦ rw e (
    record { address = cache.next_address; ip = ip; sent = 0; times_sent = 0; packets = [] },
    ground arith,
    ((inr (omega arith), tt), p),
  )
  | inr (r, e) ↦
      rw e (r, find_request-find_address cache.next_address cache.requests ip {r = r} q e, p)
]

-- After `sr_arpcache_queuereq` with a packet of 42 to 70 bytes the request that it names is in the
-- queue, which stays sound.
pub queuereq-Sound :
    (now : ℕ) (cache : ArpCache) (ip : ℕ) (packet iface : List ℕ)
    → IsQueue cache.next_address cache.requests
    → All (Sound now) cache.requests
    → Short packet
    → let (address, cache') = sr_arpcache_queuereq cache ip packet (length packet) iface in
      (r : ArpReq) × (find_address cache'.requests address ≡ some r)
      × All (Sound now) cache'.requests
unfolding sr_arpcache_queuereq add_packet
queuereq-Sound now cache ip packet iface q p short =
    let nonempty : (length packet == 0) ≡ false = ground arith in
    let whole : slice packet 0 (length packet) ≡ packet =
      take_all (length packet) packet (omega arith) in
    let (address, cache') = find_or_add cache ip in
    let add = add_packet (packet) (length packet) iface in
    let (r, found, sound) = find_or_add-Sound now cache ip q p in
    rw nonempty (
      add r,
      find_address-update (find_or_add cache ip).0 add (find_or_add cache ip).1.requests {r = r}
          (λ x. refl) found,
      update-Sound now (find_or_add cache ip).0 add (find_or_add cache ip).1.requests
          (λ x s. (s.0, ((rw whole refl, rw whole short), s.1))) sound,
    )
