-- ===== src/Cache/Entries.antt =====
-- The table of `sr_arpcache.c` as a mapping from IP to MAC addresses.
use internet_course.Base.{
  ℕ, ◌+◌, ◌≤◌, ◌≡◌, ◌≢◌, refl, true, false, ◌&&◌, Bool-cases, inl, inr, Option, none, some, List,
  [], ◌∷◌, ◌++◌, map, All, arith, if◌then◌else◌, ◌==◌,
}
use internet_course.Bytes.{slice}
use internet_course.Cache.{
  ArpEntry, ArpCache, sr_arpcache_to, lookup_from, sr_arpcache_lookup, fill_slot,
  sr_arpcache_insert, expire, expire_entries,
}

abbrev pub mapping : List ℕ → ℕ → ℕ → ArpEntry
mapping mac ip now = record { mac = slice mac 0 6; ip = ip; added = now; valid = true }

-- The entry that the loop starts from is what it gives where no later one fits.
abbrev pub or_else : Option ArpEntry → Option ArpEntry → Option ArpEntry
or_else none start = start
or_else (some e) start = some e

pub lookup_from-start :
    (start : Option ArpEntry) (es : List ArpEntry) (ip : ℕ)
    → lookup_from start es ip ≡ or_else (lookup_from none es ip) start
unfolding lookup_from
lookup_from-start start [] ip = refl
lookup_from-start start (e ∷ es) ip =
    ground (arith, lookup_from-start (some e) es ip, lookup_from-start start es ip)

-- A slot that is not valid and one for another address do not show.
abbrev pub Free : List ArpEntry → Type 0
Free [] = ⊥
Free (e ∷ rest) = if e.valid then Free rest else Unit

module _ (mac : List ℕ) (ip now : ℕ) where
  pub fill-lookup_same :
      (es : List ArpEntry)
      → Free es
      → lookup_from none es ip ≡ none
      → lookup_from none (fill_slot es mac ip now) ip ≡ some (mapping mac ip now)
  unfolding lookup_from fill_slot
  fill-lookup_same [] free h = absurd free
  fill-lookup_same (e ∷ es) free h = elim (Bool-cases e.valid) [
    | inl v ↦ ground (arith, lookup_from-start (some e) es ip, fill-lookup_same es)
    | inr v ↦ ground (arith, lookup_from-start (some (mapping mac ip now)) es ip)
  ]

  pub fill-lookup_other :
      (es : List ArpEntry) (start : Option ArpEntry) (other : ℕ)
      → ip ≢ other
      → lookup_from start (fill_slot es mac ip now) other ≡ lookup_from start es other
  unfolding lookup_from fill_slot
  fill-lookup_other [] start other h = refl
  fill-lookup_other (e ∷ es) start other h =
      ground (arith, fill-lookup_other es start other h, fill-lookup_other es (some e) other h)

  -- With a free slot and no mapping of the address yet, an insertion is found by the next lookup.
  pub lookup-insert_self :
      (cache : ArpCache)
      → Free cache.entries
      → sr_arpcache_lookup cache ip ≡ none
      → sr_arpcache_lookup (sr_arpcache_insert cache mac ip now).1 ip ≡ some (mapping mac ip now)
  unfolding sr_arpcache_lookup sr_arpcache_insert
  lookup-insert_self cache free h = fill-lookup_same cache.entries free h

  -- An insertion changes no other address, also when the table is full.
  pub lookup-insert_other :
      (cache : ArpCache) (other : ℕ)
      → ip ≢ other
      → sr_arpcache_lookup (sr_arpcache_insert cache mac ip now).1 other
        ≡ sr_arpcache_lookup cache other
  unfolding sr_arpcache_lookup sr_arpcache_insert
  lookup-insert_other cache other h = fill-lookup_other cache.entries none other h

  -- A full table keeps its entries.
  pub fill_slot_full :
      (es : List ArpEntry) → All (λ e. e.valid ≡ true) es → fill_slot es mac ip now ≡ es
  unfolding fill_slot
  fill_slot_full [] h = refl
  fill_slot_full (e ∷ es) h = ground (arith, fill_slot_full es h.1)

  fill_slot_before :
      (front back : List ArpEntry) (slot old : ArpEntry) (start : Option ArpEntry)
      → All (λ e. e.valid ≡ true) front
      → slot.valid ≡ false
      → lookup_from none back ip ≡ some old
      → lookup_from start (fill_slot (front ++ slot ∷ back) mac ip now) ip ≡ some old
  unfolding lookup_from fill_slot
  fill_slot_before [] back slot old start h v e =
      ground (arith, lookup_from-start (some (mapping mac ip now)) back ip)
  fill_slot_before (f ∷ front) back slot old start h v e = ground (
    arith,
    fill_slot_before front back slot old (if f.valid && (f.ip == ip) then some f else start) h.1 v
        e,
  )

  -- An older mapping of the same address that stands behind the first free slot hides the new
  -- one: the lookup after the insertion still gives the old.
  pub lookup-insert_shadowed :
      (cache : ArpCache) (front back : List ArpEntry) (slot old : ArpEntry)
      → cache.entries ≡ front ++ slot ∷ back
      → All (λ e. e.valid ≡ true) front
      → slot.valid ≡ false
      → lookup_from none back ip ≡ some old
      → sr_arpcache_lookup (sr_arpcache_insert cache mac ip now).1 ip ≡ some old
  unfolding sr_arpcache_lookup sr_arpcache_insert
  lookup-insert_shadowed cache front back slot old s h v e =
      rw s (fill_slot_before front back slot old none h v e)

-- A lookup finds only a valid entry for the address.
abbrev pub Sound : ℕ → Option ArpEntry → Type 0
Sound ip none = Unit
Sound ip (some e) = (e.valid ≡ true) × (e.ip ≡ ip)

lookup_from-Sound :
    (start : Option ArpEntry) (es : List ArpEntry) (ip : ℕ)
    → Sound ip start
    → Sound ip (lookup_from start es ip)
unfolding lookup_from
lookup_from-Sound start [] ip h = h
lookup_from-Sound start (e ∷ es) ip h =
    lookup_from-Sound (if e.valid && (e.ip == ip) then some e else start) es ip (ground arith)

pub lookup-Sound : (cache : ArpCache) (ip : ℕ) → Sound ip (sr_arpcache_lookup cache ip)
unfolding sr_arpcache_lookup
lookup-Sound cache ip = lookup_from-Sound none cache.entries ip tt

-- The entry is not older than the time-out.
abbrev pub Young : ℕ → Option ArpEntry → Type 0
Young curtime none = Unit
Young curtime (some e) = curtime ≤ e.added + sr_arpcache_to

module _ (curtime ip : ℕ) where
  expire-Young :
      (start : Option ArpEntry) (es : List ArpEntry)
      → Young curtime start
      → Young curtime (lookup_from start (map (expire curtime) es) ip)
  unfolding lookup_from expire
  expire-Young start [] h = h
  expire-Young start (e ∷ es) h =
      let e' = expire curtime e in
      expire-Young (if e'.valid && (e'.ip == ip) then some e' else start) es (ground arith)

  -- After the sweep of the time-out thread no lookup gives an entry older than 15 seconds.
  pub lookup-expire-Young :
      (cache : ArpCache) → Young curtime (sr_arpcache_lookup (expire_entries cache curtime) ip)
  unfolding sr_arpcache_lookup expire_entries
  lookup-expire-Young cache = expire-Young none cache.entries tt

  expire-keeps :
      (s t : Option ArpEntry) (es : List ArpEntry) (found : ArpEntry)
      → curtime ≤ found.added + sr_arpcache_to
      → (s ≡ some found → t ≡ some found)
      → lookup_from s es ip ≡ some found
      → lookup_from t (map (expire curtime) es) ip ≡ some found
  unfolding lookup_from expire
  expire-keeps s t [] found young h e = h e
  expire-keeps s t (x ∷ es) found young h e =
      expire-keeps (if x.valid && (x.ip == ip) then some x else s) _ es found young (ground arith) e

  -- The sweep takes away no mapping that is at most 15 seconds old.
  pub lookup-expire_keeps :
      (cache : ArpCache) (found : ArpEntry)
      → curtime ≤ found.added + sr_arpcache_to
      → sr_arpcache_lookup cache ip ≡ some found
      → sr_arpcache_lookup (expire_entries cache curtime) ip ≡ some found
  unfolding sr_arpcache_lookup expire_entries
  lookup-expire_keeps cache found young e =
      expire-keeps none none cache.entries found young (λ p. p) e
