-- ===== src/Route/Laws.antt =====
-- What the lookup and the check of the routing table mean.
use internet_course.Base.{
  ℕ, ◌≡◌, ◌≢◌, ◌↔◌, refl, true, Bool-cases, inl, inr, Option, none, some, List, [], ◌∷◌, All, arith,
  if◌then◌else◌, ◌==◌, sym, ◌∙◌, subst,
}
use internet_course.CString.{strncmp_eq}
use internet_course.Iface.{SrIf, sr_iface_namelen, sr_get_interface}
use internet_course.Route.{
  SrRt, longest_prefix_sum, interface_exists, count_missing, sr_verify_routing_table,
}

-- The first entry whose destination is the address itself.
abbrev pub exact_route : List SrRt → ℕ → Option SrRt
exact_route [] ip_dst = none
exact_route (r ∷ rest) ip_dst = if ip_dst == r.dest then some r else exact_route rest ip_dst

-- The lookup takes the first entry whose destination equals the address, whatever the masks.
pub longest_prefix_sum-eq-exact_route :
    (rts : List SrRt) (ip_dst : ℕ) → longest_prefix_sum rts ip_dst ≡ exact_route rts ip_dst
unfolding longest_prefix_sum
longest_prefix_sum-eq-exact_route [] ip_dst = refl
longest_prefix_sum-eq-exact_route (r ∷ []) ip_dst = refl
longest_prefix_sum-eq-exact_route (r ∷ s ∷ rest) ip_dst =
    ground (arith, longest_prefix_sum-eq-exact_route (s ∷ rest) ip_dst)

-- An address that no entry names has no route, also where an entry's network contains it.
pub longest_prefix_sum-none :
    (rts : List SrRt) (ip_dst : ℕ)
    → All (λ r. r.dest ≢ ip_dst) rts
    → longest_prefix_sum rts ip_dst ≡ none
unfolding longest_prefix_sum
longest_prefix_sum-none [] ip_dst h = refl
longest_prefix_sum-none (r ∷ []) ip_dst h = ground arith
longest_prefix_sum-none (r ∷ s ∷ rest) ip_dst h =
    ground (arith, longest_prefix_sum-none (s ∷ rest) ip_dst h.1)

pub exact_route-dest :
    (rts : List SrRt) (ip_dst : ℕ) {r : SrRt} → exact_route rts ip_dst ≡ some r → r.dest ≡ ip_dst
exact_route-dest [] ip_dst h = cc
exact_route-dest (s ∷ rest) ip_dst {r} h = ground (arith, exact_route-dest rest ip_dst {r = r})

abbrev pub HasInterface : List SrIf → SrRt → Type 0
HasInterface ifs r = (i : SrIf) × (sr_get_interface ifs r.interface ≡ some i)

interface_exists-HasInterface :
    (ifs : List SrIf) (r : SrRt) → interface_exists ifs r.interface ≡ true → HasInterface ifs r
unfolding interface_exists sr_get_interface
interface_exists-HasInterface [] r h = cc
interface_exists-HasInterface (i ∷ rest) r h =
    elim (Bool-cases (strncmp_eq sr_iface_namelen i.name r.interface)) [
      | inl e ↦ (i, rw e)
      | inr e ↦
          let (j, found) = interface_exists-HasInterface rest r (ground arith) in (j, rw e found)
    ]

HasInterface-interface_exists :
    (ifs : List SrIf) (r : SrRt) → HasInterface ifs r → interface_exists ifs r.interface ≡ true
unfolding interface_exists sr_get_interface
HasInterface-interface_exists [] r (i, e) = cc
HasInterface-interface_exists (i ∷ rest) r (j, e) =
    elim (Bool-cases (strncmp_eq sr_iface_namelen i.name r.interface)) [
      | inl d ↦ rw d
      | inr d ↦ rw d (HasInterface-interface_exists rest r (j, ground arith))
    ]

count_missing-zero :
    (ifs : List SrIf) (rts : List SrRt) → count_missing ifs rts ≡ 0 → All (HasInterface ifs) rts
unfolding count_missing
count_missing-zero ifs [] h = tt
count_missing-zero ifs (r ∷ rest) h =
    (interface_exists-HasInterface ifs r (ground arith), count_missing-zero ifs rest (omega arith))

zero-count_missing :
    (ifs : List SrIf) (rts : List SrRt) → All (HasInterface ifs) rts → count_missing ifs rts ≡ 0
unfolding count_missing
zero-count_missing ifs [] h = refl
zero-count_missing ifs (r ∷ rest) h =
    ground (arith, HasInterface-interface_exists ifs r h.0, zero-count_missing ifs rest h.1)

-- The check passes exactly if there are interfaces and routes, and each route's interface exists.
pub sr_verify_routing_table_iff :
    (ifs : List SrIf) (rts : List SrRt)
    → (sr_verify_routing_table ifs rts ≡ 0) ↔ ((ifs ≢ []) × (rts ≢ []) × All (HasInterface ifs) rts)
unfolding sr_verify_routing_table
sr_verify_routing_table_iff [] rts = (λ e. absurd (omega arith), λ h. absurd (h.0 refl))
sr_verify_routing_table_iff (i ∷ ifs) [] = (λ e. absurd (omega arith), λ h. absurd (h.1 refl))
sr_verify_routing_table_iff (i ∷ ifs) (r ∷ rts) = (
  λ e. (λ p. cc, λ p. cc, count_missing-zero (i ∷ ifs) (r ∷ rts) e),
  λ h. zero-count_missing (i ∷ ifs) (r ∷ rts) h.2,
)

exact_route-HasInterface :
    (ifs : List SrIf) (rts : List SrRt) (ip_dst : ℕ) {r : SrRt}
    → All (HasInterface ifs) rts
    → exact_route rts ip_dst ≡ some r
    → HasInterface ifs r
exact_route-HasInterface ifs [] ip_dst h e = cc
exact_route-HasInterface ifs (s ∷ rest) ip_dst {r} h e = elim (Bool-cases (ip_dst == s.dest)) [
  | inl d ↦ subst (HasInterface ifs) {x = s} {y = r} (ground arith) h.0
  | inr d ↦ exact_route-HasInterface ifs rest ip_dst {r = r} h.1 (ground arith)
]

-- In a table that passed the check, every route that the lookup finds has its interface.
pub longest_prefix_sum-HasInterface :
    (ifs : List SrIf) (rts : List SrRt) (ip_dst : ℕ) {r : SrRt}
    → sr_verify_routing_table ifs rts ≡ 0
    → longest_prefix_sum rts ip_dst ≡ some r
    → HasInterface ifs r
longest_prefix_sum-HasInterface ifs rts ip_dst v e =
    exact_route-HasInterface ifs rts ip_dst ((sr_verify_routing_table_iff ifs rts).0 v).2
      (sym (longest_prefix_sum-eq-exact_route rts ip_dst) ∙ e)
