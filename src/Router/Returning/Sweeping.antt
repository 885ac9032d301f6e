-- ===== src/Router/Returning/Sweeping.antt =====
-- A round of the time-out thread (20100117_RouterAssign_1/router/sr_arpcache.c) comes to an end where
-- the memory at the addresses that the code makes up holds addresses with a route.
use internet_course.Base.{
  ℕ, zero, suc, ◌+◌, Option, ◌≤◌, ◌≡◌, ◌∙◌, refl, sym, ap, subst, some, List, [], ◌∷◌, ◌++◌, All,
  length, arith,
}
use internet_course.Base.Result.{Result, ok}
use mathlib.Core.List.{append_assoc}
use internet_course.Route.{SrRt, sr_verify_routing_table, longest_prefix_sum}
use internet_course.Route.Laws.{HasInterface, longest_prefix_sum-HasInterface}
use internet_course.Cache.{ArpReq, update_request, expire_entries}
use internet_course.Cache.Requests.{IsQueue, update-IsQueue}
use internet_course.Router.{SrInstance, Env}
use internet_course.Router.Returning.{output, handle_arpreq-Turns}
use internet_course.Router.Returning.Queue.{Sound, update-Sound}
use internet_course.Router.Sweep.{
  next_requests, first_address, step_on, sweep_from, sweep_requests, sr_arpcache_sweepreqs,
  sr_arpcache_timeout,
}
use internet_course.Router.Request.{wild_lookup}
use internet_course.Router.Sweep.Queue.{front_apart, find_at, next_at, update_at}

-- The memory at each address that the code makes up holds an address with a route in the table.
abbrev pub Mapped : Env → List SrRt → Type 0
Mapped env table =
    (ip : ℕ)
    → (word : ℕ) × (rt : SrRt) × (env.peek (ip + 16) ≡ some word)
      × (longest_prefix_sum table word ≡ some rt)

-- The state in which the command ends, with a bound on the rounds that it takes.
abbrev pub Rounds : ℕ → (ℕ → SrInstance → Result (Unit {0} × SrInstance)) → SrInstance → ℕ → Type 0
Rounds now m sr bound =
    (t : SrInstance) × ((rounds : ℕ) → bound ≤ rounds → m rounds sr ≡ ok (tt, t))
    × All (Sound now) t.cache.requests

-- The router with this output, and the request at the address changed.
abbrev turned : SrInstance → ℕ → List (List ℕ) → Option (List ℕ) → (ArpReq → ArpReq) → SrInstance
turned sr address wire logfile f = record (output sr wire logfile) {
  cache = record sr.cache { requests = update_request address f sr.cache.requests };
}

from_one :
    (P : ℕ → Type 0) {n : ℕ}
    → ((k : ℕ) → n ≤ k → P (suc k))
    → (rounds : ℕ) → suc n ≤ rounds
    → P rounds
from_one P h zero none_left = absurd (omega arith)
from_one P h (suc k) enough = h k (omega arith)

module _ (env : Env) (fuel now : ℕ) (rt : SrRt) where
  sweep_from-Rounds :
      (sr : SrInstance) (front : List ArpReq) (r : ArpReq) (rest : List ArpReq)
      → sr.cache.requests ≡ front ++ r ∷ rest
      → IsQueue sr.cache.next_address sr.cache.requests
      → All (Sound now) sr.cache.requests
      → HasInterface sr.if_list rt
      → Rounds now
          (λ rounds. sweep_from env fuel now (some rt) rounds r.address)
          sr
          (length (r ∷ rest))
  unfolding sweep_from step_on first_address
  sweep_from-Rounds sr front r [] same queue sound known =
      let apart =
        (front_apart sr.cache.next_address front r []
          (subst (IsQueue sr.cache.next_address) same queue)).1 in
      let here : next_requests sr.cache.requests r.address ≡ some [] =
        rw same (next_at r [] r.address front refl apart) in
      let (wire, logfile, f, at, ip, keeps, e) =
        handle_arpreq-Turns env fuel now r.address rt sr r (rw same (find_at r [] front apart))
          sound known in
      (
        turned sr r.address wire logfile f,
        from_one
            (λ n.
              sweep_from env fuel now (some rt) n r.address sr
              ≡ ok (tt, turned sr r.address wire logfile f))
            (λ k h. rw (here, e) refl),
        update-Sound now r.address f sr.cache.requests keeps sound,
      )
  sweep_from-Rounds sr front r (r' ∷ rest) same queue sound known =
      let apart =
        (front_apart sr.cache.next_address front r (r' ∷ rest)
          (subst (IsQueue sr.cache.next_address) same queue)).1 in
      let here : next_requests sr.cache.requests r.address ≡ some (r' ∷ rest) =
        rw same (next_at r (r' ∷ rest) r.address front refl apart) in
      let (wire, logfile, f, at, ip, keeps, e) =
        handle_arpreq-Turns env fuel now r.address rt sr r
          (rw same (find_at r (r' ∷ rest) front apart)) sound known in
      let after : update_request r.address f sr.cache.requests ≡ front ++ f r ∷ r' ∷ rest =
        ap (update_request r.address f) same ∙ update_at r (r' ∷ rest) f front apart in
      let still : next_requests (update_request r.address f sr.cache.requests) r.address
          ≡ some (r' ∷ rest) =
        rw after (next_at (f r) (r' ∷ rest) r.address front (at r) apart) in
      let (t, ran, sound') =
        sweep_from-Rounds (turned sr r.address wire logfile f) (front ++ f r ∷ []) r' rest
          (after ∙ sym (append_assoc front (f r ∷ []) (r' ∷ rest)))
          (update-IsQueue sr.cache.next_address r.address f sr.cache.requests ip at queue)
          (update-Sound now r.address f sr.cache.requests keeps sound) known in
      (
        t,
        from_one (λ n. sweep_from env fuel now (some rt) n r.address sr ≡ ok (tt, t))
            (λ k h. rw (here, e, still) (ran k h)),
        sound',
      )

module _ (env : Env) (fuel now : ℕ) (sr : SrInstance)
    (verified : sr_verify_routing_table sr.if_list sr.routing_table ≡ 0)
    (mapped : Mapped env sr.routing_table) (queue : IsQueue sr.cache.next_address sr.cache.requests)
    (sound : All (Sound now) sr.cache.requests) where
  sweep-Rounds :
      (rs : List ArpReq)
      → sr.cache.requests ≡ rs
      → Rounds now (λ rounds. sweep_requests env fuel rounds now rs) sr (length rs)
  unfolding sweep_requests wild_lookup
  sweep-Rounds [] same = (sr, λ rounds h. refl, sound)
  sweep-Rounds (r ∷ rest) same =
      let (word, rt, there, route) = mapped r.ip in
      let known =
        longest_prefix_sum-HasInterface sr.if_list sr.routing_table word {r = rt} verified route in
      let (t, ran, sound') =
        sweep_from-Rounds env fuel now rt sr [] r rest same queue sound known in
      (t, λ rounds h. rw (there, route) (ran rounds h), sound')

-- A round of the thread returns, with as many rounds of its loop as there are requests.
pub timeout-Rounds :
    (env : Env) (fuel now : ℕ) (sr : SrInstance)
    → sr_verify_routing_table sr.if_list sr.routing_table ≡ 0
    → Mapped env sr.routing_table
    → IsQueue sr.cache.next_address sr.cache.requests
    → All (Sound now) sr.cache.requests
    → Rounds now (λ rounds. sr_arpcache_timeout env fuel rounds now) sr (length sr.cache.requests)
unfolding sr_arpcache_timeout sr_arpcache_sweepreqs expire_entries
timeout-Rounds env fuel now sr verified mapped queue sound =
    let young : SrInstance = record sr { cache = expire_entries sr.cache now } in
    sweep-Rounds env fuel now young verified mapped queue sound sr.cache.requests refl
