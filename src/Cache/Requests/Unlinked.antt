-- ===== src/Cache/Requests/Unlinked.antt =====
-- A request that `sr_arpcache_insert` took out of the queue is not there for `sr_arpreq_destroy`.
use internet_course.Base.{
  ap, ℕ, ◌≤◌, ◌≡◌, false, refl, Bool-cases, inl, inr, some, List, [], ◌∷◌, arith, ◌==◌,
}
use internet_course.Cache.{ArpReq, find_request, unlink_ip, unlink_address}
use internet_course.Cache.Requests.{IsQueue, find_request-address}

-- A node that lies above all others is not there to be taken out.
unlink_address-above :
    (bound address : ℕ) (rs : List ArpReq)
    → IsQueue bound rs
    → bound ≤ address
    → unlink_address rs address ≡ rs
unfolding unlink_address
unlink_address-above bound address [] q h = refl
unlink_address-above bound address (r ∷ rs) q h =
    ground (arith, unlink_address-above r.address address rs q.2)

-- With the queue in order, the request that an insertion took out is not there a second time.
pub unlink_address-unlink_ip :
    (bound ip : ℕ) (rs : List ArpReq) {r : ArpReq}
    → IsQueue bound rs
    → find_request rs ip ≡ some r
    → unlink_address (unlink_ip rs ip) r.address ≡ unlink_ip rs ip
unfolding find_request unlink_ip unlink_address
unlink_address-unlink_ip bound ip [] {r} q h = refl
unlink_address-unlink_ip bound ip (x ∷ rs) {r} q h = elim (Bool-cases (x.ip == ip)) [
  | inl e ↦
      let same : x ≡ r = cc (rw e at h) in
      rw e
        (unlink_address-above x.address r.address rs q.2 (omega (arith, ap (λ y. y.address) same)))
  | inr e ↦
      let h' : find_request rs ip ≡ some r = rw e at h in
      let below = find_request-address x.address rs ip {r = r} q.2 h' in
      let other : (x.address == r.address) ≡ false = ground (arith, below) in
      rw (e, other) (ap (◌∷◌ x) (unlink_address-unlink_ip x.address ip rs {r = r} q.2 h'))
]
