-- ===== src/Cache/Map.antt =====
-- The table of `sr_arpcache.c` as a finite map that learns and forgets.
use internet_course.Base.{
  ℕ, ◌+◌, ◌≡◌, ◌≢◌, ◌∙◌, refl, ap, ap₂, sym, ◌⊎◌, subst, true, ◌&&◌, Bool-cases, inl, inr, Option,
  none, some, List, [], ◌∷◌, map, replicate, zero, suc, arith, if◌then◌else◌, ◌==◌, ltb,
}
use internet_course.Bytes.{slice}
use internet_course.Cache.{
  ArpEntry, ArpCache, sr_arpcache_to, sr_arpcache_init, empty_entry, lookup_from,
  sr_arpcache_lookup, fill_slot, sr_arpcache_insert, expire, expire_entries,
}
use internet_course.Cache.Entries.{
  or_else, lookup_from-start, Free, mapping, lookup-insert_self, lookup-insert_other,
  fill-lookup_other,
}

-- The map: for an IP address the Ethernet address, and when it was learnt.
abbrev pub Table : Type 0
Table = ℕ → Option (List ℕ × ℕ)

abbrev pub learn : List ℕ → ℕ → ℕ → Table → Table
learn mac ip now t other = if ip == other then some (slice mac 0 6, now) else t other

-- What is older than 15 seconds is forgotten.
abbrev pub young : ℕ → Option (List ℕ × ℕ) → Option (List ℕ × ℕ)
young now none = none
young now (some (mac, added)) = if ltb (added + 15) now then none else some (mac, added)

-- What happens to a cache.
pub data Op : Type 0 where
  learns : List ℕ → ℕ → ℕ → Op
  expires : ℕ → Op

abbrev pub on_table : List Op → Table → Table
on_table [] t = t
on_table (learns mac ip now ∷ ops) t = on_table ops (learn mac ip now t)
on_table (expires now ∷ ops) t = on_table ops (λ ip. young now (t ip))

abbrev pub on_cache : List Op → ArpCache → ArpCache
on_cache [] c = c
on_cache (learns mac ip now ∷ ops) c = on_cache ops (sr_arpcache_insert c mac ip now).1
on_cache (expires now ∷ ops) c = on_cache ops (expire_entries c now)

abbrev pub shown : Option ArpEntry → Option (List ℕ × ℕ)
shown none = none
shown (some e) = some (e.mac, e.added)

-- What the lookups of a cache show.
abbrev pub view : ArpCache → Table
view c ip = shown (sr_arpcache_lookup c ip)

-- An address is learnt only while it is unknown and a slot is free.
abbrev pub Orderly : List Op → ArpCache → Type 0
Orderly [] c = Unit
Orderly (learns mac ip now ∷ ops) c =
    Free c.entries
    × (sr_arpcache_lookup c ip ≡ none)
    × Orderly ops (sr_arpcache_insert c mac ip now).1
Orderly (expires now ∷ ops) c = Orderly ops (expire_entries c now)

-- No two valid slots are for one address.
abbrev IsUnique : List ArpEntry → Type 0
IsUnique [] = Unit
IsUnique (e ∷ es) = (e.valid ≡ true → lookup_from none es e.ip ≡ none) × IsUnique es

-- The slot alone.
abbrev hit : ArpEntry → ℕ → Option ArpEntry
hit e ip = if e.valid && (e.ip == ip) then some e else none

-- The lookup, from the front.
lookup-cons :
    (e : ArpEntry) (es : List ArpEntry) (ip : ℕ)
    → lookup_from none (e ∷ es) ip ≡ or_else (lookup_from none es ip) (hit e ip)
unfolding lookup_from
lookup-cons e es ip = lookup_from-start _ es ip

abbrev kept : ℕ → Option ArpEntry → Option ArpEntry
kept now none = none
kept now (some e) = if ltb (e.added + sr_arpcache_to) now then none else some e

hit-expire : (now : ℕ) (e : ArpEntry) (ip : ℕ) → hit (expire now e) ip ≡ kept now (hit e ip)
unfolding expire
hit-expire now e ip = ground arith

merge :
    (now : ℕ) (x y : Option ArpEntry)
    → (x ≡ none) ⊎ (y ≡ none)
    → or_else (kept now x) (kept now y) ≡ kept now (or_else x y)
merge now none y one = refl
merge now (some e) none one = ground arith
merge now (some e) (some f) (inl x) = absurd (cc)
merge now (some e) (some f) (inr y) = absurd (cc)

-- Not both in front and behind.
once :
    (e : ArpEntry) (es : List ArpEntry) (ip : ℕ)
    → (e.valid ≡ true → lookup_from none es e.ip ≡ none)
    → (lookup_from none es ip ≡ none) ⊎ (hit e ip ≡ none)
once e es ip alone = elim (Bool-cases (e.valid && (e.ip == ip))) [
  | inl h ↦
      let there : e.valid ≡ true = ground arith in
      let same : e.ip ≡ ip = ground arith in
      inl (subst (λ a. lookup_from none es a ≡ none) same (alone there))
  | inr h ↦ inr (rw h refl)
]

lookup-expire :
    (now : ℕ) (es : List ArpEntry) (ip : ℕ)
    → IsUnique es
    → lookup_from none (map (expire now) es) ip ≡ kept now (lookup_from none es ip)
lookup-expire now [] ip u = unfold lookup_from in refl
lookup-expire now (e ∷ es) ip (alone, u) =
    lookup-cons (expire now e) (map (expire now) es) ip
    ∙ (ap₂ or_else (lookup-expire now es ip u) (hit-expire now e ip)
        ∙ (merge now (lookup_from none es ip) (hit e ip) (once e es ip alone)
            ∙ ap (kept now) (sym (lookup-cons e es ip))))

expire-ip : (now : ℕ) (e : ArpEntry) → (expire now e).ip ≡ e.ip
unfolding expire
expire-ip now e = ground arith

expire-valid : (now : ℕ) (e : ArpEntry) → (expire now e).valid ≡ true → e.valid ≡ true
unfolding expire
expire-valid now e h = ground arith

expire-IsUnique : (now : ℕ) (es : List ArpEntry) → IsUnique es → IsUnique (map (expire now) es)
expire-IsUnique now [] u = tt
expire-IsUnique now (e ∷ es) (alone, u) = (
  λ v.
      lookup-expire now es (expire now e).ip u
      ∙ ap (kept now) {y = none}
          (ap (λ a. lookup_from none es a) (expire-ip now e) ∙ alone (expire-valid now e v)),
  expire-IsUnique now es u,
)

or_else-none : (x y : Option ArpEntry) → or_else x y ≡ none → (x ≡ none) × (y ≡ none)
or_else-none none y h = (refl, h)
or_else-none (some e) y h = absurd (cc)

module _ (mac : List ℕ) (ip now : ℕ) where
  fill-IsUnique :
      (es : List ArpEntry)
      → IsUnique es
      → lookup_from none es ip ≡ none
      → IsUnique (fill_slot es mac ip now)
  unfolding fill_slot
  fill-IsUnique [] u h = tt
  fill-IsUnique (e ∷ es) (alone, u) h =
      let (behind, front) =
        or_else-none (lookup_from none es ip) (hit e ip) (sym (lookup-cons e es ip) ∙ h) in
      elim (Bool-cases e.valid) [
        | inl v ↦
            let other : ip ≢ e.ip = λ same. absurd (ground (arith, front)) in
            rw v (
              λ w. fill-lookup_other mac ip now es none e.ip other ∙ alone v,
              fill-IsUnique es u behind,
            )
        | inr v ↦ rw v (λ w. behind, u)
      ]

-- Both operations do to the map what they should.
view-insert :
    (c : ArpCache) (mac : List ℕ) (ip now other : ℕ)
    → Free c.entries
    → sr_arpcache_lookup c ip ≡ none
    → view (sr_arpcache_insert c mac ip now).1 other ≡ learn mac ip now (view c) other
view-insert c mac ip now other free unknown = elim (Bool-cases (ip == other)) [
  | inl e ↦
      let same : ip ≡ other = ground arith in
      rw e (
        ap shown {y = some (mapping mac ip now)} (
          ap (sr_arpcache_lookup (sr_arpcache_insert c mac ip now).1) (sym same)
          ∙ lookup-insert_self mac ip now c free unknown))
  | inr e ↦ rw e (ap shown (lookup-insert_other mac ip now c other (ground arith)))
]

shown-kept : (now : ℕ) (x : Option ArpEntry) → shown (kept now x) ≡ young now (shown x)
shown-kept now none = refl
shown-kept now (some e) = ground arith

view-expire :
    (c : ArpCache) (now other : ℕ)
    → IsUnique c.entries
    → view (expire_entries c now) other ≡ young now (view c other)
unfolding expire_entries sr_arpcache_lookup
view-expire c now other u =
    ap shown (lookup-expire now c.entries other u)
    ∙ shown-kept now (lookup_from none c.entries other)

insert-IsUnique :
    (c : ArpCache) (mac : List ℕ) (ip now : ℕ)
    → IsUnique c.entries
    → sr_arpcache_lookup c ip ≡ none
    → IsUnique (sr_arpcache_insert c mac ip now).1.entries
unfolding sr_arpcache_insert sr_arpcache_lookup
insert-IsUnique c mac ip now u unknown = fill-IsUnique mac ip now c.entries u unknown

expired-IsUnique :
    (c : ArpCache) (now : ℕ) → IsUnique c.entries → IsUnique (expire_entries c now).entries
unfolding expire_entries
expired-IsUnique c now u = expire-IsUnique now c.entries u

-- The two stay in step when they start so.
in_step :
    (ops : List Op) (c : ArpCache) (t : Table)
    → IsUnique c.entries
    → Orderly ops c
    → ((ip : ℕ) → view c ip ≡ t ip)
    → (ip : ℕ) → view (on_cache ops c) ip ≡ on_table ops t ip
in_step [] c t u o same ip = same ip
in_step (learns mac x now ∷ ops) c t u (free, unknown, o) same ip =
    in_step ops (sr_arpcache_insert c mac x now).1 (learn mac x now t)
      (insert-IsUnique c mac x now u unknown) o
      (λ y.
        view-insert c mac x now y free unknown
        ∙ ap (λ z. if x == y then some (slice mac 0 6, now) else z) (same y))
      ip
in_step (expires now ∷ ops) c t u o same ip =
    in_step ops (expire_entries c now) (λ y. young now (t y)) (expired-IsUnique c now u) o
      (λ y. view-expire c now y u ∙ ap (young now) (same y)) ip

empty-IsUnique : (n : ℕ) → IsUnique (replicate n empty_entry)
empty-IsUnique zero = tt
empty-IsUnique (suc n) = (λ v. absurd (cc), empty-IsUnique n)

empty-none : (n ip : ℕ) → lookup_from none (replicate n empty_entry) ip ≡ none
unfolding lookup_from
empty-none zero ip = refl
empty-none (suc n) ip = empty-none n ip

-- From `sr_arpcache_init` on, for any sequence of insertions and time-outs in which an address is
-- inserted only while it is unknown and a slot is free: a lookup shows for every address what a map
-- does that learns each pair and forgets what is older than 15 seconds.
pub on_cache-on_table :
    (ops : List Op) (ip : ℕ)
    → Orderly ops sr_arpcache_init
    → view (on_cache ops sr_arpcache_init) ip ≡ on_table ops (λ x. none) ip
unfolding sr_arpcache_init sr_arpcache_lookup
on_cache-on_table ops ip o =
    in_step ops sr_arpcache_init (λ x. none) (empty-IsUnique 100) o
      (λ x. ap shown (empty-none 100 x)) ip
