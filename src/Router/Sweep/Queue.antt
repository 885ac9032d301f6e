-- ===== src/Router/Sweep/Queue.antt =====
-- What a sweep does to the whole queue of requests.
use mathlib.Core.List.{append_assoc}
use internet_course.Base.{
  ℕ, zero, suc, ◌+◌, ◌%◌, ◌^◌, ◌<◌, ◌≤◌, ◌≡◌, ◌≢◌, ◌∙◌, refl, sym, ap, subst, Bool-cases, inl, inr,
  false, some, Option, List, [], ◌∷◌, ◌++◌, map, All, length, arith, if◌then◌else◌, ◌==◌, ltb,
}
use internet_course.Base.Result.{ok}
use internet_course.Iface.{SrIf, sr_get_interface}
use internet_course.Route.{SrRt, longest_prefix_sum}
use internet_course.Cache.{ArpReq, update_request}
use internet_course.Cache.Requests.{IsQueue, update-IsQueue}
use internet_course.Router.{SrInstance, Env}
use internet_course.Router.Send.{packet_message}
use internet_course.Dump.Appending.{appended}
use internet_course.Router.Rewriting.{IsMac}
use internet_course.Router.Request.{arp_request_packet, find_address, handle_arpreq, wild_lookup}
use internet_course.Router.Retrying.{handle_arpreq_waits, handle_arpreq_sends}
use internet_course.Router.Sweep.{
  next_requests, first_address, step_on, sweep_from, sweep_requests, sr_arpcache_sweepreqs,
}

-- In a queue in order, a node lies below those in front of it.
pub front_apart :
    (bound : ℕ) (front : List ArpReq) (r : ArpReq) (rest : List ArpReq)
    → IsQueue bound (front ++ r ∷ rest)
    → (r.address < bound) × All (λ x. x.address ≢ r.address) front
front_apart bound [] r rest q = (q.0, tt)
front_apart bound (x ∷ front) r rest q =
    let (below, apart) = front_apart x.address front r rest q.2 in
    (omega (arith, below, q.0), (omega (arith, below), apart))

module _ (r : ArpReq) (rest : List ArpReq) where
  pub find_at :
      (front : List ArpReq)
      → All (λ x. x.address ≢ r.address) front
      → find_address (front ++ r ∷ rest) r.address ≡ some r
  unfolding find_address
  find_at [] h = ground arith
  find_at (x ∷ front) h = ground (arith, find_at front h.1)

  pub next_at :
      (address : ℕ) (front : List ArpReq)
      → r.address ≡ address
      → All (λ x. x.address ≢ address) front
      → next_requests (front ++ r ∷ rest) address ≡ some rest
  unfolding next_requests
  next_at address [] e h = ground arith
  next_at address (x ∷ front) e h = ground (arith, next_at address front e h.1)

  pub update_at :
      (f : ArpReq → ArpReq) (front : List ArpReq)
      → All (λ x. x.address ≢ r.address) front
      → update_request r.address f (front ++ r ∷ rest) ≡ front ++ f r ∷ rest
  unfolding update_request
  update_at f [] h = ground arith
  update_at f (x ∷ front) h =
      let other : (x.address == r.address) ≡ false = ground arith in
      rw other (ap (◌∷◌ x) (update_at f front h.1))

-- The messages on the wire and the log.
abbrev pub Output : Type 0
Output = List (List ℕ) × Option (List ℕ)

module _ (env : Env) (now : ℕ) (i : SrIf) where
  -- The request after the sweep.
  abbrev pub mark : ArpReq → ArpReq
  mark r =
      if ltb (r.sent + 1) now
      then record r { sent = now; times_sent = (r.times_sent + 1) % 2 ^ 32 }
      else r

  mark-ip : (r : ArpReq) → (mark r).ip ≡ r.ip
  mark-ip r = ground arith

  mark-address : (r : ArpReq) → (mark r).address ≡ r.address
  mark-address r = ground arith

  -- What the router has sent and logged, with the message for the request where it is due.
  abbrev pub ask : ArpReq → Output → Output
  ask r (wire, logfile) =
      if ltb (r.sent + 1) now
      then (
        packet_message (arp_request_packet env i r.ip) 42 i.name ∷ wire,
        appended env.gettimeofday logfile (arp_request_packet env i r.ip) 42,
      )
      else (wire, logfile)

  abbrev pub ask_all : List ArpReq → Output → Output
  ask_all [] out = out
  ask_all (r ∷ rest) out = ask_all rest (ask r out)

  -- A request that was sent fewer than five times.
  abbrev pub Fresh : ArpReq → Type 0
  Fresh r = (r.times_sent < 5) × (r.ip < 4294967296)

  module _ (fuel : ℕ) (sr : SrInstance) (rt : SrRt)
      (iface : sr_get_interface sr.if_list rt.interface ≡ some i) (mac : IsMac i.addr)
      (ip_fits : i.ip < 4294967296) where
    -- The router with this output and these requests.
    abbrev pub with_queue : Output → List ArpReq → SrInstance
    with_queue out rs = record sr {
      wire = out.0;
      logfile = out.1;
      cache = record sr.cache { requests = rs };
    }

    turn :
        (front : List ArpReq) (r : ArpReq) (rest : List ArpReq) (out : Output)
        → All (λ x. x.address ≢ r.address) front
        → Fresh r
        → handle_arpreq env fuel now r.address (some rt) (with_queue out (front ++ r ∷ rest))
          ≡ ok (tt, with_queue (ask r out) (front ++ mark r ∷ rest))
    turn front r rest out apart fresh =
        let found = find_at r rest front apart in
        let here = with_queue out (front ++ r ∷ rest) in
        elim (Bool-cases (ltb (r.sent + 1) now)) [
          | inl due ↦ rw due (
              handle_arpreq_sends env fuel now r.address here r found rt i (ground arith) fresh.0
                iface mac ip_fits fresh.1
              ∙ ap
                  (λ rs. ok (
                    tt,
                    with_queue
                        (
                          packet_message (arp_request_packet env i r.ip) 42 i.name ∷ out.0,
                          appended env.gettimeofday out.1 (arp_request_packet env i r.ip) 42,
                        )
                        rs,
                  ))
                  (update_at r rest _ front apart))
          | inr recent ↦
              rw recent
                (handle_arpreq_waits env fuel now r.address here r found (some rt) (ground arith))
        ]

    sweep_from_lem :
        (front : List ArpReq) (r : ArpReq) (rest : List ArpReq) (out : Output) (rounds : ℕ)
        → length (r ∷ rest) ≤ rounds
        → IsQueue sr.cache.next_address (front ++ r ∷ rest)
        → All Fresh (r ∷ rest)
        → sweep_from env fuel now (some rt) rounds r.address (with_queue out (front ++ r ∷ rest))
          ≡ ok (tt, with_queue (ask_all (r ∷ rest) out) (front ++ map mark (r ∷ rest)))
    unfolding sweep_from step_on first_address
    sweep_from_lem front r rest out zero enough q fresh = absurd (omega arith)
    sweep_from_lem front r [] out (suc rounds) enough q fresh =
        let apart = (front_apart sr.cache.next_address front r [] q).1 in
        rw (next_at r [] r.address front refl apart, turn front r [] out apart fresh.0) refl
    sweep_from_lem front r (r' ∷ rest) out (suc rounds) enough q fresh =
        let apart = (front_apart sr.cache.next_address front r (r' ∷ rest) q).1 in
        let marked = front ++ mark r ∷ [] in
        let joined = append_assoc front (mark r ∷ []) (r' ∷ rest) in
        let q' : IsQueue sr.cache.next_address (marked ++ r' ∷ rest) =
          subst (IsQueue sr.cache.next_address)
            (update_at r (r' ∷ rest) mark front apart ∙ sym joined)
            (update-IsQueue sr.cache.next_address r.address mark (front ++ r ∷ r' ∷ rest) mark-ip
              mark-address q) in
        let others = sweep_from_lem marked r' rest (ask r out) rounds (omega arith) q' fresh.1 in
        rw
          (
            next_at r (r' ∷ rest) r.address front refl apart,
            turn front r (r' ∷ rest) out apart fresh.0,
            next_at (mark r) (r' ∷ rest) r.address front (mark-address r) apart,
          )
          (ap
              (λ rs.
                sweep_from env fuel now (some rt) rounds r'.address (with_queue (ask r out) rs))
              (sym joined)
            ∙ others
            ∙ ap (λ rs. ok (tt, with_queue (ask_all rest (ask r' (ask r out))) rs))
                (append_assoc front (mark r ∷ []) (map mark (r' ∷ rest))))

  -- A sweep ends, with as many rounds as requests wait, for a queue in order whose requests were each
  -- sent fewer than five times, if the memory at the address that the code makes up holds a word and
  -- the table a route for it, whose interface is known and has an Ethernet address of six bytes: for
  -- each request that was last sent more than a second ago an ARP request goes out on that one
  -- interface and is logged, and its time and count are written; the others, and everything else, stay.
  pub sr_arpcache_sweepreqs_lem :
      (fuel rounds word : ℕ) (sr : SrInstance) (rt : SrRt) (r : ArpReq) (rest : List ArpReq)
      → sr.cache.requests ≡ r ∷ rest
      → IsQueue sr.cache.next_address (r ∷ rest)
      → All Fresh (r ∷ rest)
      → length (r ∷ rest) ≤ rounds
      → env.peek (r.ip + 16) ≡ some word
      → longest_prefix_sum sr.routing_table word ≡ some rt
      → sr_get_interface sr.if_list rt.interface ≡ some i
      → IsMac i.addr
      → i.ip < 4294967296
      → sr_arpcache_sweepreqs env fuel rounds now sr
        ≡ ok (
          tt,
          record sr {
            wire = (ask_all (r ∷ rest) (sr.wire, sr.logfile)).0;
            logfile = (ask_all (r ∷ rest) (sr.wire, sr.logfile)).1;
            cache = record sr.cache { requests = map mark (r ∷ rest) };
          },
        )
  unfolding sr_arpcache_sweepreqs sweep_requests wild_lookup
  sr_arpcache_sweepreqs_lem fuel rounds word sr rt r rest queued q fresh enough mapped route iface
        mac ip_fits =
      rw (queued, mapped, route)
        (sweep_from_lem fuel sr rt iface mac ip_fits [] r rest (sr.wire, sr.logfile) rounds enough q
          fresh)
