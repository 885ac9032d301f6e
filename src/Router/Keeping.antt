-- ===== src/Router/Keeping.antt =====
-- What every command of the router keeps, whatever the packets: the interfaces, the routing table,
-- the number of cache slots and the order of the request queue.
use mathlib.Core.List.{map}
use internet_course.Base.{ℕ, ◌≡◌, ◌∙◌, refl, List, [], ◌∷◌, length, arith}
use internet_course.Base.Keep.{Order, Keeping}
use internet_course.Cache.{ArpEntry, ArpCache, fill_slot, expire}
use internet_course.Cache.Requests.{IsQueue}
use internet_course.Router.{SrInstance, on_cache}

pub record CacheKeeps (c d : ArpCache) : Type 0 where
  pub slots : length d.entries ≡ length c.entries
  pub queue : IsQueue c.next_address c.requests → IsQueue d.next_address d.requests

pub record Keeps (s t : SrInstance) : Type 0 where
  pub interfaces : t.if_list ≡ s.if_list
  pub routes : t.routing_table ≡ s.routing_table
  pub cached : CacheKeeps s.cache t.cache

pub Keeps-refl : (s : SrInstance) → Keeps s s
Keeps-refl s = record {
  interfaces = refl;
  routes = refl;
  cached = record { slots = refl; queue = λ q. q };
}

pub Keeps-trans : (s t u : SrInstance) → Keeps s t → Keeps t u → Keeps s u
Keeps-trans s t u p q = record {
  interfaces = q.interfaces ∙ p.interfaces;
  routes = q.routes ∙ p.routes;
  cached = record {
    slots = q.cached.slots ∙ p.cached.slots;
    queue = λ o. q.cached.queue (p.cached.queue o);
  };
}

abbrev pub router_order : Order SrInstance
router_order = record { Keeps = Keeps; keeps_refl = Keeps-refl; keeps_trans = Keeps-trans }

pub keep_cache :
    {A : Type 0} (f : ArpCache → A × ArpCache)
    → ((c : ArpCache) → CacheKeeps c (f c).1)
    → Keeping router_order (on_cache f)
keep_cache f h = record {
  run = λ s. record { interfaces = refl; routes = refl; cached = h s.cache };
}

pub length-fill_slot :
    (es : List ArpEntry) (mac : List ℕ) (ip now : ℕ) → length (fill_slot es mac ip now) ≡ length es
unfolding fill_slot
length-fill_slot [] mac ip now = refl
length-fill_slot (e ∷ es) mac ip now = ground (arith, length-fill_slot es mac ip now)

pub length-expire :
    (curtime : ℕ) (es : List ArpEntry) → length (map (expire curtime) es) ≡ length es
length-expire curtime [] = refl
length-expire curtime (e ∷ es) = omega (arith, length-expire curtime es)
