-- ===== src/Cache/Examples.antt =====
-- The theorems on the ARP cache, at a table of three slots and a queue of one request.
use internet_course.Base.{ℕ, ◌≡◌, refl, true, none, some, List, [], ◌∷◌, arith}
use internet_course.Bytes.{slice}
use internet_course.CString.{strncpy}
use internet_course.Cache.{
  ArpEntry, ArpCache, ArpReq, SrPacket, lookup_from, sr_arpcache_lookup, sr_arpcache_insert,
  sr_arpcache_init, fill_slot, expire_entries, find_request, sr_arpcache_queuereq, empty_entry,
}
use internet_course.Cache.Entries.{lookup-insert_shadowed, Young, lookup-expire-Young}
use internet_course.Cache.Map.{Op, learns, expires, Orderly, on_cache, view, on_cache-on_table}
use internet_course.Cache.Requests.{IsQueue, waiting, queuereq_adds}

abbrev mac : List ℕ
mac = 2 ∷ 0 ∷ 0 ∷ 0 ∷ 0 ∷ 9 ∷ []

abbrev known : ArpEntry
known = record { mac = mac; ip = 7; added = 3; valid = true }

abbrev packet : SrPacket
packet = record { buf = 1 ∷ 2 ∷ []; len = 2; iface = strncpy (101 ∷ []) 32 }

abbrev request : ArpReq
request = record { address = 1; ip = 8; sent = 0; times_sent = 0; packets = packet ∷ [] }

-- A free slot stands in front of the mapping of 7.
abbrev cache : ArpCache
cache = record {
  entries = empty_entry ∷ known ∷ empty_entry ∷ [];
  requests = request ∷ [];
  next_address = 2;
}

request-IsQueue : IsQueue cache.next_address cache.requests
request-IsQueue = (omega arith, tt, tt)

missing : sr_arpcache_lookup cache 9 ≡ none
unfolding sr_arpcache_lookup lookup_from
missing = refl

present : sr_arpcache_lookup cache 7 ≡ some known
unfolding sr_arpcache_lookup lookup_from
present = refl

behind : lookup_from none (known ∷ empty_entry ∷ []) 7 ≡ some known
unfolding lookup_from
behind = refl

lookup-insert_shadowed_example :
    sr_arpcache_lookup (sr_arpcache_insert cache (1 ∷ []) 7 20).1 7 ≡ some known
lookup-insert_shadowed_example =
    lookup-insert_shadowed (1 ∷ []) 7 20 cache [] (known ∷ empty_entry ∷ []) empty_entry known refl
      tt refl behind

lookup-expire-Young_example : Young 30 (sr_arpcache_lookup (expire_entries cache 30) 7)
lookup-expire-Young_example = lookup-expire-Young 30 7 cache

queuereq_adds_example :
    let (address, cache') = sr_arpcache_queuereq cache 8 (5 ∷ 6 ∷ []) 2 (101 ∷ []) in
    (r : ArpReq) × (find_request cache'.requests 8 ≡ some r)
    × (r.address ≡ address)
    × (r.packets
        ≡ record { buf = slice (5 ∷ 6 ∷ []) 0 2; len = 2; iface = strncpy (101 ∷ []) 32 }
          ∷ waiting (find_request cache.requests 8))
queuereq_adds_example =
    queuereq_adds cache 8 (5 ∷ 6 ∷ []) 2 (101 ∷ []) request-IsQueue (omega arith)

-- 7 is learnt in second 3 and 9 in second 10; in second 20 the first of them is too old.
abbrev history : List Op
history = learns mac 7 3 ∷ learns mac 9 10 ∷ expires 20 ∷ []

history-Orderly : Orderly history sr_arpcache_init
unfolding sr_arpcache_init sr_arpcache_lookup lookup_from sr_arpcache_insert fill_slot
history-Orderly = (tt, refl, (tt, refl, tt))

on_cache-on_table_example : view (on_cache history sr_arpcache_init) 9 ≡ some (mac, 10)
on_cache-on_table_example = on_cache-on_table history 9 history-Orderly
