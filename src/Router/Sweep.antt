-- ===== src/Router/Sweep.antt =====
-- `sr_arpcache_sweepreqs` and one round of `sr_arpcache_timeout`, both of
-- 20100117_RouterAssign_1/router/sr_arpcache.c.
pub mod Keeping
pub mod Queue
pub mod Pointers
use internet_course.Base.{ℕ, zero, suc, Option, none, some, List, [], ◌∷◌, if◌then◌else◌, ◌==◌}
use internet_course.Base.Result.{
  Cmd, pure, raise, need, get_state, null_deref, use_after_free, out_of_fuel, ◌>>=◌, ◌>>◌,
}
use internet_course.Route.{SrRt}
use internet_course.Cache.{ArpReq, expire_entries}
use internet_course.Router.{SrInstance, Env, on_cache}
use internet_course.Router.Request.{handle_arpreq, wild_lookup}

-- The nodes behind the one at an address: `req->next` with what it leads to. `none` where the
-- node is gone.
unfoldable pub next_requests : List ArpReq → ℕ → Option (List ArpReq)
next_requests [] address = none
next_requests (r ∷ rest) address =
    if r.address == address then some rest else next_requests rest address

-- `req = req->next`, whose fields the next round reads.
unfoldable pub first_address : List ArpReq → Cmd SrInstance ℕ
first_address [] = raise null_deref
first_address (r ∷ rest) = pure r.address

-- The step to the next node: `req->next` was tested before the call and is read again behind it.
unfoldable pub step_on :
    (ℕ → Cmd SrInstance (Unit {0})) → ℕ → List ArpReq → Cmd SrInstance (Unit {0})
step_on loop address [] = pure tt
step_on loop address (r ∷ rest) = do
  sr ← get_state
  next ← need (next_requests sr.cache.requests address) use_after_free
  following ← first_address next
  loop following

-- The loop, from the node at an address.
unfoldable pub sweep_from : Env → ℕ → ℕ → Option SrRt → ℕ → ℕ → Cmd SrInstance (Unit {0})
sweep_from env fuel now dest_rt zero address = raise out_of_fuel
sweep_from env fuel now dest_rt (suc rounds) address = do
  sr ← get_state
  tested ← need (next_requests sr.cache.requests address) use_after_free
  handle_arpreq env fuel now address dest_rt
  step_on (λ following. sweep_from env fuel now dest_rt rounds following) address tested

-- The route is looked up once, for the first request, and serves all of them.
unfoldable pub sweep_requests : Env → ℕ → ℕ → ℕ → List ArpReq → Cmd SrInstance (Unit {0})
sweep_requests env fuel rounds now [] = pure tt
sweep_requests env fuel rounds now (r ∷ rest) = do
  dest_rt ← wild_lookup env r.ip
  sweep_from env fuel now dest_rt rounds r.address

unfoldable pub sr_arpcache_sweepreqs : Env → ℕ → ℕ → ℕ → Cmd SrInstance (Unit {0})
sr_arpcache_sweepreqs env fuel rounds now = do
  sr ← get_state
  sweep_requests env fuel rounds now sr.cache.requests

-- What the thread does each second.
unfoldable pub sr_arpcache_timeout : Env → ℕ → ℕ → ℕ → Cmd SrInstance (Unit {0})
sr_arpcache_timeout env fuel rounds curtime = do
  on_cache (λ c. (tt, expire_entries c curtime))
  sr_arpcache_sweepreqs env fuel rounds curtime
