-- ===== src/Router/Sweep/Pointers.antt =====
-- A pointer to a request outlives a round of the time-out thread.
use internet_course.Base.{
  ℕ, zero, suc, ◌+◌, ◌%◌, ◌^◌, ◌≡◌, ◌<◌, refl, sym, subst, Bool-cases, Option-cases, inl, inr, true,
  false, Option, some, List, [], ◌∷◌, arith, ◌==◌, leb, ltb,
}
use internet_course.Base.Result.{Result, ok, fault, Cmd, NotOk}
use internet_course.Base.Keep.{
  Order, Keeping, After, keep_bind, keep_then, keep_pure, keep_raise, keep_need, keep_state,
}
use internet_course.Route.{SrRt}
use internet_course.Cache.{ArpReq, update_request, expire_entries, sr_arpcache_queuereq}
use internet_course.Cache.Requests.{IsQueue, update-IsQueue, queuereq-IsQueue, queuereq_adds}
use internet_course.Router.{SrInstance, Env, on_cache}
use internet_course.Router.Request.{
  find_address, read_request, write_request, wild_lookup, retry, arp_request_send, handle_arpreq,
}
use internet_course.Router.Keepers.Output.{request-Keeping_of}
use internet_course.Router.Returning.Queue.{find_request-find_address}
use internet_course.Router.Retrying.{handle_arpreq_never_gives_up}
use internet_course.Router.Sweep.{
  first_address, step_on, sweep_from, sweep_requests, sr_arpcache_sweepreqs, sr_arpcache_timeout,
}

-- There is a request at the address.
abbrev pub Present : List ArpReq → ℕ → Type 0
Present rs address = (r : ArpReq) × (find_address rs address ≡ some r)

-- From a queue in order comes a queue in order that still has every request.
pub record Remembers (s t : SrInstance) : Type 0 where
  pub ordered :
      IsQueue s.cache.next_address s.cache.requests → IsQueue t.cache.next_address t.cache.requests
  pub present :
      IsQueue s.cache.next_address s.cache.requests
      → (address : ℕ) → Present s.cache.requests address
      → Present t.cache.requests address

pub Remembers-trans : (s t u : SrInstance) → Remembers s t → Remembers t u → Remembers s u
Remembers-trans s t u p q = record {
  ordered = λ o. q.ordered (p.ordered o);
  present = λ o address h. q.present (p.ordered o) address (p.present o address h);
}

abbrev pub pointers : Order SrInstance
pointers = record {
  Keeps = Remembers;
  keeps_refl = λ s. record { ordered = λ o. o; present = λ o address h. h };
  keeps_trans = Remembers-trans;
}

update-Present :
    (address : ℕ) (f : ArpReq → ArpReq) (rs : List ArpReq) (other : ℕ)
    → ((r : ArpReq) → (f r).address ≡ r.address)
    → Present rs other
    → Present (update_request address f rs) other
unfolding update_request find_address
update-Present address f [] other same (r, e) = absurd (cc)
update-Present address f (x ∷ rs) other same (r, e) = elim (Bool-cases (x.address == address)) [
  | inl at ↦ elim (Bool-cases (x.address == other)) [
    | inl h ↦
        let there : ((f x).address == other) ≡ true = rw (same x) h in rw (at, there) (f x, refl)
    | inr h ↦
        let elsewhere : ((f x).address == other) ≡ false = rw (same x) h in
        rw (at, elsewhere) (r, rw h at e)
  ]
  | inr at ↦ elim (Bool-cases (x.address == other)) [
    | inl h ↦ rw (at, h) (x, refl)
    | inr h ↦ rw (at, h) (update-Present address f rs other same (r, rw h at e))
  ]
]

read-Remembers : (address : ℕ) → Keeping pointers (read_request address)
unfolding read_request
read-Remembers address = keep_bind pointers _ _ (keep_state pointers) (λ sr. keep_need pointers _ _)

write-Remembers :
    (address : ℕ) (f : ArpReq → ArpReq)
    → ((r : ArpReq) → (f r).ip ≡ r.ip)
    → ((r : ArpReq) → (f r).address ≡ r.address)
    → Keeping pointers (write_request address f)
unfolding write_request
write-Remembers address f ip at = keep_bind pointers _ _ (read-Remembers address) λ req. record {
  run = λ s. record {
    ordered = update-IsQueue s.cache.next_address address f s.cache.requests ip at;
    present = λ o other h. update-Present address f s.cache.requests other at h;
  };
}

-- What never returns keeps everything.
stuck-After :
    (s : SrInstance) (r : Result (Unit {0} × SrInstance))
    → (IsQueue s.cache.next_address s.cache.requests → NotOk r)
    → After pointers s r
stuck-After s (ok x) h = record {
  ordered = λ o. absurd (h o);
  present = λ o address p. absurd (h o);
}
stuck-After s (fault e) h = tt

module _ (env : Env) where
  request-Remembers :
      (ip : ℕ) (dest : Option SrRt) → Keeping pointers (arp_request_send env ip dest)
  request-Remembers =
      request-Keeping_of pointers
        (λ s wire logfile. record { ordered = λ o. o; present = λ o address h. h }) env

  arpreq-After :
      (fuel now address : ℕ) (dest_rt : Option SrRt) (s : SrInstance)
      → After pointers s (handle_arpreq env fuel now address dest_rt s)
  unfolding handle_arpreq read_request retry
  arpreq-After fuel now address dest_rt s =
      elim (Option-cases (find_address s.cache.requests address)) [
        | inl gone ↦ rw gone tt
        | inr (r, found) ↦ elim (Bool-cases (ltb (r.sent + 1) now)) [
          | inr recent ↦ rw (found, recent) (pointers.keeps_refl s)
          | inl due ↦ elim (Bool-cases (leb 5 r.times_sent)) [
            | inl spent ↦ stuck-After s (handle_arpreq env fuel now address dest_rt s) (λ q.
                handle_arpreq_never_gives_up env fuel now address dest_rt s r q found (ground arith)
                  (ground arith))
            | inr few ↦
                rw (found, due, few)
                  ((keep_then pointers _ _
                      (keep_then pointers _ _ (request-Remembers r.ip dest_rt)
                        (keep_pure pointers tt))
                      (write-Remembers address
                        (λ x. record x { sent = now; times_sent = (x.times_sent + 1) % 2 ^ 32 })
                        (λ x. refl) (λ x. refl))).run
                    s)
          ]
        ]
      ]

  handle_arpreq-Remembers :
      (fuel now address : ℕ) (dest_rt : Option SrRt)
      → Keeping pointers (handle_arpreq env fuel now address dest_rt)
  handle_arpreq-Remembers fuel now address dest_rt = record {
    run = arpreq-After fuel now address dest_rt;
  }

  wild-Remembers : (ip : ℕ) → Keeping pointers (wild_lookup env ip)
  unfolding wild_lookup
  wild-Remembers ip =
      keep_bind pointers _ _ (keep_need pointers _ _)
        (λ ip_dst. keep_bind pointers _ _ (keep_state pointers) (λ sr. keep_pure pointers _))

  first-Remembers : (rs : List ArpReq) → Keeping pointers (first_address rs)
  unfolding first_address
  first-Remembers [] = keep_raise pointers _
  first-Remembers (r ∷ rest) = keep_pure pointers _

  step-Remembers :
      (loop : ℕ → Cmd SrInstance (Unit {0})) (address : ℕ) (rs : List ArpReq)
      → ((a : ℕ) → Keeping pointers (loop a))
      → Keeping pointers (step_on loop address rs)
  unfolding step_on
  step-Remembers loop address [] h = keep_pure pointers tt
  step-Remembers loop address (r ∷ rest) h = keep_bind pointers _ _ (keep_state pointers) λ sr.
      keep_bind pointers _ _ (keep_need pointers _ _)
        λ next. keep_bind pointers _ _ (first-Remembers next) h

  from-Remembers :
      (fuel now : ℕ) (dest_rt : Option SrRt) (rounds address : ℕ)
      → Keeping pointers (sweep_from env fuel now dest_rt rounds address)
  unfolding sweep_from
  from-Remembers fuel now dest_rt zero address = keep_raise pointers _
  from-Remembers fuel now dest_rt (suc rounds) address =
      keep_bind pointers _ _ (keep_state pointers) λ sr.
        keep_bind pointers _ _ (keep_need pointers _ _) λ tested.
          keep_then pointers _ _ (handle_arpreq-Remembers fuel now address dest_rt)
            (step-Remembers _ address tested (λ a. from-Remembers fuel now dest_rt rounds a))

  requests-Remembers :
      (fuel rounds now : ℕ) (rs : List ArpReq)
      → Keeping pointers (sweep_requests env fuel rounds now rs)
  unfolding sweep_requests
  requests-Remembers fuel rounds now [] = keep_pure pointers tt
  requests-Remembers fuel rounds now (r ∷ rest) =
      keep_bind pointers _ _ (wild-Remembers r.ip)
        λ dest_rt. from-Remembers fuel now dest_rt rounds r.address

  expire-Remembers :
      (curtime : ℕ) → Keeping pointers (on_cache (λ c. (tt {0}, expire_entries c curtime)))
  unfolding expire_entries
  expire-Remembers curtime = record {
    run = λ s. record { ordered = λ o. o; present = λ o address h. h };
  }

  timeout-Remembers :
      (fuel rounds curtime : ℕ) → Keeping pointers (sr_arpcache_timeout env fuel rounds curtime)
  unfolding sr_arpcache_timeout sr_arpcache_sweepreqs
  timeout-Remembers fuel rounds curtime = keep_then pointers _ _ (expire-Remembers curtime) (
      keep_bind pointers _ _ (keep_state pointers)
        λ sr. requests-Remembers fuel rounds curtime sr.cache.requests)

  -- With the queue in order and a packet of at least one byte: the pointer that
  -- `sr_arpcache_queuereq` returns can still be read when the time-out thread has made a round before
  -- it is used, whatever the time, if that round returns.
  pub queuereq-timeout :
      (fuel rounds now ip : ℕ) (packet iface : List ℕ) (len : ℕ) (s t : SrInstance)
      → IsQueue s.cache.next_address s.cache.requests
      → 0 < len
      → sr_arpcache_timeout env fuel rounds now
          (record s { cache = (sr_arpcache_queuereq s.cache ip packet len iface).1 })
        ≡ ok (tt, t)
      → (r : ArpReq) × (read_request (sr_arpcache_queuereq s.cache ip packet len iface).0 t
          ≡ ok (r, t))
  unfolding read_request
  queuereq-timeout fuel rounds now ip packet iface len s t q some_bytes ran =
      let queued = sr_arpcache_queuereq s.cache ip packet len iface in
      let here : SrInstance = record s { cache = queued.1 } in
      let ordered = queuereq-IsQueue s.cache ip packet len iface q in
      let (r, found, at, packets) = queuereq_adds s.cache ip packet len iface q some_bytes in
      let there =
        find_request-find_address queued.1.next_address queued.1.requests ip {r = r} ordered
          found in
      let kept : Remembers here t =
        subst (After pointers here) ran ((timeout-Remembers fuel rounds now).run here) in
      let (r', still) = kept.present ordered queued.0 (r, rw (sym at) there) in (r', rw still refl)
